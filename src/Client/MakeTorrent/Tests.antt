-- ===== src/Client/MakeTorrent/Tests.antt =====
-- Files of five and of four bytes, in chunks of two.
use cool_down.Prelude.{
  true, false, ℕ, ◌≡◌, refl, some, List, [], ◌∷◌, ◌++◌, map, length, replicate, arith,
}
use cool_down.Prelude.Int.{pos}
use cool_down.Outcome.{done, throw, exception}
use cool_down.Client.Torrent.{Chunk, FileEntry}
use cool_down.Client.Verification.{get_file_checksum_list}
use cool_down.Client.Verification.Engine.{any_bytes, byte_engine}
use cool_down.Client.Verification.Pieces.{concat, AreSized, get_file_checksum_list-pieces}
use cool_down.Client.MakeTorrent.{process_file}
use cool_down.Client.MakeTorrent.Listing.{
  SourceFile, Listing, file, directory, unlistable, nil, cons, list_dir_recursive, source_files,
}
use cool_down.Client.MakeTorrent.Sizes.{process_file-chunks, process_file_last_chunk}

get_file_checksum_list-pieces_example :
    (ps : List (List ℕ)) × (e' : List ℕ) × (get_file_checksum_list byte_engine true
        (1 ∷ 2 ∷ 3 ∷ [])
        2
        []
      ≡ some (done (map any_bytes ps, e')))
    × (concat ps ≡ 1 ∷ 2 ∷ 3 ∷ [])
    × AreSized 2 (1 ∷ 2 ∷ 3 ∷ []) ps
get_file_checksum_list-pieces_example =
    get_file_checksum_list-pieces byte_engine (1 ∷ 2 ∷ 3 ∷ []) 2 [] (omega arith) (omega arith)

abbrev five : SourceFile
five = record { parent = "/top/"; filename = "a"; content = 1 ∷ 2 ∷ 3 ∷ 4 ∷ 5 ∷ [] }

abbrev four : SourceFile
four = record { parent = "/top/"; filename = "b"; content = 1 ∷ 2 ∷ 3 ∷ 4 ∷ [] }

process_file-chunks_example :
    (ps : List (List ℕ)) × (entry : FileEntry) × (e' : List ℕ) × (process_file byte_engine "/top/" 2
        five []
      ≡ some (done (entry, e')))
    × (concat ps ≡ five.content)
    × (map (λ (c : Chunk). c.check_sum) entry.chunks ≡ map any_bytes ps)
    × (map (λ (c : Chunk). c.size) entry.chunks ≡ map (λ (p : List ℕ). pos (length p)) ps)
process_file-chunks_example =
    process_file-chunks byte_engine "/top/" 2 five [] (omega arith) (omega arith)

process_file_last_chunk_example :
    (ps : List (List ℕ)) × (k : ℕ) × (entry : FileEntry) × (e' : List ℕ) × (process_file byte_engine
        "/top/" 2 four []
      ≡ some (done (entry, e')))
    × (concat ps ≡ four.content)
    × (map length ps ≡ replicate k 2 ++ 2 ∷ [])
    × (map (λ (c : Chunk). c.check_sum) entry.chunks ≡ map any_bytes ps)
    × (map (λ (c : Chunk). c.size) entry.chunks ≡ replicate k (pos 2) ++ pos 0 ∷ [])
process_file_last_chunk_example =
    process_file_last_chunk byte_engine "/top/" 2 four [] (omega arith) (omega arith) refl

-- A directory with a file, a directory that cannot be read, and one below with another file.
abbrev top : Listing
top = cons (file true five) (
    cons (directory false (cons (file true five) nil))
      (cons (directory true (cons (file false five) (cons (file true four) nil))) nil))

list_dir_recursive-top : list_dir_recursive top [] ≡ done (five ∷ four ∷ [])
unfolding list_dir_recursive
list_dir_recursive-top = refl

source_files-unlistable : source_files (unlistable true) ≡ throw exception
unfolding source_files
source_files-unlistable = refl
