-- ===== src/Client/MakeTorrent.antt =====
-- client/src/client.cc: `CoolClient::MakeTorrent`. The digest engine is the one of Verification, the
-- files on the disk are an argument, and so are what the file system answers and the bytes of a text.
pub mod Paths
pub mod Listing
pub mod Sizes
pub mod Head
pub mod Samples
mod Tests
use Prim.Native.String.{◌++◌ as append_text}
use cool_down.Prelude.{
  ℕ, ◌+◌, ◌%◌, String, Option, none, some, List, [], ◌∷◌, ◌++◌, Bool, true, false, length,
}
use cool_down.Prelude.Int.{ℤ, pos}
use cool_down.ErrorCode.{RetCode}
use cool_down.Outcome.{Outcome, done, throw, assertion}
use cool_down.Client.Torrent.{Chunk, FileEntry, Torrent}
use cool_down.Client.Verification.{
  DigestEngine, get_verification_code, get_file_verification_code, get_file_checksum_list,
}
use cool_down.Client.MakeTorrent.Paths.{relative_to}
use cool_down.Client.MakeTorrent.Listing.{SourceFile, Entry, source_files}

-- The loop over the checksums: the last one gets `last_chunk_size`.
unfoldable pub make_chunks : ℕ → ℕ → List String → List Chunk
make_chunks chunk_size last_chunk_size [] = []
make_chunks chunk_size last_chunk_size (c ∷ []) =
    (record { check_sum = c; size = pos last_chunk_size }) ∷ []
make_chunks chunk_size last_chunk_size (c ∷ d ∷ cs) =
    (record { check_sum = c; size = pos chunk_size })
    ∷ make_chunks chunk_size last_chunk_size (d ∷ cs)

abbrev pub file_entry : String → ℕ → SourceFile → String → List String → FileEntry
file_entry top_path chunk_size f check_sum checksums = record {
  check_sum = check_sum;
  relative_path = relative_to top_path f.parent;
  filename = f.filename;
  size = pos (length f.content);
  chunks = make_chunks chunk_size (length f.content % chunk_size) checksums;
}

-- What goes on with the value of a loop that ends.
abbrev pub after {ℓ κ} :
    {A : Type ℓ} {B : Type κ} → Option (Outcome A) → (A → Option (Outcome B)) → Option (Outcome B)
after none k = none
after (some (throw e)) k = some (throw e)
after (some (done a)) k = k a

-- From the stream and from protobuf to the code and what is written.
abbrev pub write : Torrent → Bool → Bool → Outcome (RetCode × Option Torrent)
write torrent false serialized = done (RetCode.file_cannot_create, none)
write torrent true false = throw assertion
write torrent true true = done (RetCode.ok, some torrent)

module _ (sha : DigestEngine) where
  open sha use {Engine}

  -- The body of the loop over the files.
  unfoldable pub process_file :
      String → ℕ → SourceFile → Engine → Option (Outcome (FileEntry × Engine))
  unfolding get_file_verification_code
  process_file top_path chunk_size f e =
      let (check_sum, e') = get_file_verification_code sha f.content e in
      after (get_file_checksum_list sha true f.content chunk_size e') (λ (checksums, e'').
        some (done (file_entry top_path chunk_size f check_sum checksums, e'')))

  -- The files, `torrent_id_source` and `total_size` of the loop.
  abbrev pub Loop : Type 0
  Loop = List FileEntry × String × ℕ

  abbrev pub add_entry : SourceFile → FileEntry → Loop → Loop
  add_entry f entry (entries, id_source, total_size) = (
    entries ++ entry ∷ [],
    append_text (append_text (append_text id_source f.parent) f.filename) entry.check_sum,
    total_size + length f.content,
  )

  unfoldable pub process_files :
      String → ℕ → List SourceFile → Loop → Engine → Option (Outcome (Loop × Engine))
  unfolding process_file
  process_files top_path chunk_size [] l e = some (done (l, e))
  process_files top_path chunk_size (f ∷ fs) l e =
      after (process_file top_path chunk_size f e)
        (λ (entry, e'). process_files top_path chunk_size fs (add_entry f entry l) e')

  abbrev pub finish : Torrent → (String → List ℕ) → Loop × Engine → Outcome (Torrent × Engine)
  finish head bytes_of ((entries, id_source, total_size), e) =
      elim (get_verification_code sha (bytes_of id_source) e) [
        | throw f ↦ throw f
        | done (id, e') ↦
            done (record head { torrent_id = id; total_size = pos total_size; files = entries }, e')
      ]

  -- The code and the torrent that is written. `head` has the type, the creator, the time and the
  -- tracker; `opened` and `serialized` are what the stream and protobuf answer.
  unfoldable pub make_torrent :
      Bool
      → Entry
      → String
      → ℕ
      → Torrent
      → (String → List ℕ)
      → Bool
      → Bool
      → Engine
      → Option (Outcome (RetCode × Option Torrent))
  unfolding process_files source_files
  make_torrent exists f top_path chunk_size head bytes_of opened serialized e = elim exists [
    | false ↦ some (done (RetCode.file_not_exists, none))
    | true ↦ after (some (source_files f)) (λ files.
        after (process_files top_path chunk_size files ([], "", 0) e) (λ out.
          after (some (finish head bytes_of out))
            (λ (torrent, e'). some (write torrent opened serialized))))
  ]
