-- ===== src/Client/Torrent.antt =====
-- client/include/job_info.h and client/src/job_info.cc: `TorrentFileInfo` and `TorrentInfo`, over the
-- messages of proto/torrent.proto. An `int` is an integer; where the source takes the value into a
-- `uint64_t`, it wraps modulo 2 ^ 64.
pub mod FileMap
mod Tests
use cool_down.Prelude.{
  ℕ, suc, ◌+◌, ◌-◌, ◌*◌, ◌%◌, ◌^◌, String, Option, none, some, List, [], ◌∷◌, ◌++◌, get_elem?,
  length, ◌==◌, if◌then◌else◌, string_key, Bool,
}
use cool_down.Prelude.Int.{ℤ, pos, negsuc, leb_ℤ}
use cool_down.Prelude.Map.{Map, lookup, insert, get_or}
use cool_down.Outcome.{Outcome, done, throw, assertion, undefined, or_throw, ◌>>=◌}

pub record Chunk : Type 0 where
  pub check_sum : String
  pub size : ℤ

pub record FileEntry : Type 0 where
  pub check_sum : String
  pub relative_path : String
  pub filename : String
  pub size : ℤ
  pub chunks : List Chunk

pub record Torrent : Type 0 where
  pub torrent_id : String
  pub kind : ℤ
  pub total_size : ℤ
  pub create_by : String
  pub create_time : String
  pub tracker_address : String
  pub files : List FileEntry

-- The conversion of an `int` to `uint64_t`.
abbrev pub to_u64 : ℤ → ℕ
to_u64 (pos n) = n % 2 ^ 64
to_u64 (negsuc n) = (2 ^ 64 - suc n % 2 ^ 64) % 2 ^ 64

pub record TorrentFileInfo : Type 0 where
  pub file : FileEntry
  pub chunk_count : ℕ
  pub fileid : String

unfoldable pub torrent_file_info : FileEntry → TorrentFileInfo
torrent_file_info file = record {
  file = file;
  chunk_count = length file.chunks;
  fileid = file.check_sum;
}

-- `RepeatedPtrField::Get`, which has no meaning outside the range.
abbrev pub get_chunk : ℤ → List Chunk → Outcome Chunk
get_chunk (pos i) cs = or_throw undefined (get_elem? cs i)
get_chunk (negsuc i) cs = throw undefined

unfoldable pub chunk_checksum : TorrentFileInfo → ℤ → Outcome String
chunk_checksum f chunk_pos =
    if leb_ℤ (pos f.chunk_count) chunk_pos
    then done ""
    else do c ← get_chunk chunk_pos f.file.chunks; done c.check_sum

unfoldable pub chunk_offset : TorrentFileInfo → ℤ → Outcome ℕ
chunk_offset f chunk_pos =
    if leb_ℤ (pos f.chunk_count) chunk_pos
    then done 0
    else do c ← get_chunk (pos 0) f.file.chunks; done ((to_u64 c.size * to_u64 chunk_pos) % 2 ^ 64)

unfoldable pub chunk_size : TorrentFileInfo → ℤ → Outcome ℤ
chunk_size f chunk_pos =
    if leb_ℤ (pos f.chunk_count) chunk_pos
    then done (negsuc 0)
    else do c ← get_chunk chunk_pos f.file.chunks; done c.size

abbrev pub FileMap : Type 0
FileMap = Map String (List TorrentFileInfo)

pub record TorrentInfo : Type 0 where
  pub torrent : Torrent
  pub file_count : ℕ
  pub file_map : FileMap

-- `fileMap_[file.checksum()].push_back(…)`
unfoldable pub add_to_map : FileEntry → FileMap → FileMap
add_to_map file m =
    insert file.check_sum (get_or file.check_sum [] m ++ torrent_file_info file ∷ []) m

unfoldable pub build_map : List FileEntry → FileMap → FileMap
build_map [] m = m
build_map (f ∷ fs) m = build_map fs (add_to_map f m)

unfoldable pub torrent_info : Torrent → TorrentInfo
torrent_info torrent = record {
  torrent = torrent;
  file_count = length torrent.files;
  file_map = build_map torrent.files [];
}

abbrev pub first_of : List TorrentFileInfo → Outcome TorrentFileInfo
first_of [] = throw assertion
first_of (f ∷ fs) = done f

unfoldable pub get_one_file_of_same_fileid : TorrentInfo → String → Outcome TorrentFileInfo
unfolding lookup
get_one_file_of_same_fileid t fileid = elim (lookup fileid t.file_map) [
  | none ↦ throw assertion
  | some fs ↦ first_of fs
]
