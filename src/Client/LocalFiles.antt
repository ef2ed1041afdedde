-- ===== src/Client/LocalFiles.antt =====
-- client/src/job_info.cc: `FileIdentityInfo` and `LocalFileInfo`. The file system is a parameter: the
-- calls of `Poco::File`, each of which may throw.
pub mod Samples
use Prim.Native.String.{◌++◌ as append_text}
use cool_down.Prelude.{
  String, Option, List, [], ◌∷◌, ◌++◌, Bool, true, false, ◌&&◌, length, ltb, ◌==◌, if◌then◌else◌,
  string_key,
}
use cool_down.Prelude.Int.{ℤ}
use cool_down.Prelude.Map.{Map, lookup, insert, get_or, contains, member}
use cool_down.ErrorCode.{RetCode}
use cool_down.Outcome.{Outcome, done, throw, ◌>>=◌}

pub record FileIdentityInfo : Type 0 where
  pub relative_path : String
  pub filename : String

-- `operator==` on `FileIdentityInfo`
pub same_identity : FileIdentityInfo → FileIdentityInfo → Bool
same_identity a b = a.relative_path == b.relative_path && a.filename == b.filename

-- `find(needs.begin(), needs.end(), id_info) != needs.end()`
pub is_needed : List FileIdentityInfo → FileIdentityInfo → Bool
unfolding same_identity
is_needed [] id = false
is_needed (n ∷ needs) id = if same_identity n id then true else is_needed needs id

-- What the program calls of the file system.
pub record FileSystem : Type 1 where
  pub Disk : Type 0
  pub create_directories : String → Disk → Outcome Disk
  pub exists : String → Disk → Outcome Bool
  pub create_file : String → Disk → Outcome (Disk × Bool)
  pub set_size : String → ℤ → Disk → Outcome Disk

pub record LocalFileInfo : Type 0 where
  pub top_path : String
  pub files : Map String String
  pub same_files : Map String (List String)

pub new_local_files : String → LocalFileInfo
new_local_files top_path = record { top_path = top_path; files = []; same_files = [] }

abbrev pub full_path : LocalFileInfo → String → String → String
full_path l relative_path filename = append_text l.top_path (append_text relative_path filename)

abbrev pub paths_of : String → LocalFileInfo → List String
paths_of fileid l = get_or fileid [] l.same_files

unfoldable pub get_file : LocalFileInfo → String → Option String
get_file l fileid = lookup fileid l.files

unfoldable pub has_file : LocalFileInfo → String → Bool
has_file l fileid = contains fileid l.files

unfoldable pub has_local_file : LocalFileInfo → String → String → String → Bool
has_local_file l fileid relative_path filename =
    if contains fileid l.files
    then member (full_path l relative_path filename) (paths_of fileid l)
    else false

module _ (fs : FileSystem) where
  open fs use {Disk, create_directories, exists, create_file, set_size}

  pub make_file : String → ℤ → Disk → Outcome Disk
  make_file path filesize disk = do
    (disk', created) ← create_file path disk
    if created then set_size path filesize disk' else done disk'

  -- The file is created with its size, unless it is there.
  pub prepare_file : String → ℤ → Disk → Outcome Disk
  unfolding make_file
  prepare_file path filesize disk = do
    there ← exists path disk
    if there then done disk else make_file path filesize disk

  -- What `catch(Exception&)` makes of the part that may throw. A change of the disk before the
  -- exception is not kept apart from none.
  abbrev pub caught : {A : Type 0} → Outcome Disk → A → A → Disk → A × Disk × RetCode
  caught (done disk') a b disk = (a, disk', RetCode.ok)
  caught (throw e) a b disk = (b, disk, RetCode.unknown)

  -- The first file of an id is made on the disk; a further path is only noted.
  pub add_file :
      LocalFileInfo → String → String → String → ℤ → Disk → LocalFileInfo × Disk × RetCode
  unfolding prepare_file
  add_file l fileid relative_path filename filesize disk =
      let path = full_path l relative_path filename in
      let noted = record l {
        same_files = insert fileid (paths_of fileid l ++ path ∷ []) l.same_files;
      } in
      let opened = record noted { files = insert fileid path noted.files } in
      if ltb 1 (length (paths_of fileid noted))
      then (noted, disk, RetCode.ok)
      else elim (create_directories (append_text l.top_path relative_path) disk) [
        | throw e ↦ (noted, disk, RetCode.unknown)
        | done disk' ↦ caught (prepare_file path filesize disk') opened opened disk'
      ]
