-- ===== src/Client/Transfer/Tests.antt =====
-- A file of four bytes in two chunks, and the tasks for the second chunk.
use cool_down.Prelude.{ℕ, ◌+◌, ◌≡◌, ◌⊎◌, refl, String, List, [], ◌∷◌, ◌++◌, take, drop, arith}
use cool_down.Prelude.Int.{pos}
use cool_down.Outcome.{done}
use cool_down.Client.Torrent.{
  TorrentFileInfo, torrent_file_info, chunk_checksum, chunk_offset, chunk_size,
}
use cool_down.Client.Verification.Engine.{byte_engine}
use cool_down.Client.Transfer.{Round, finished, download_task}
use cool_down.Client.Transfer.Samples.{ready, accepted, request_upload-accepted}
use cool_down.Client.Transfer.Downloads.{IsStored, download_task_verified, download_task_finishes}

abbrev rounds : List Round
rounds = ready 1 ∷ ready 4 ∷ []

abbrev file : List ℕ
file = 1 ∷ 2 ∷ 3 ∷ 4 ∷ []

abbrev info : TorrentFileInfo
info = torrent_file_info (record {
  check_sum = "f";
  relative_path = "/";
  filename = "a";
  size = pos 4;
  chunks =
      (record { check_sum = "some"; size = pos 2 })
      ∷ (record { check_sum = "some"; size = pos 2 })
      ∷ [];
})

abbrev blank : List ℕ
blank = 0 ∷ 0 ∷ 0 ∷ 0 ∷ []

abbrev written : List ℕ
written = 0 ∷ 0 ∷ 3 ∷ 4 ∷ []

chunk_checksum_one : chunk_checksum info (pos 1) ≡ done "some"
unfolding chunk_checksum torrent_file_info
chunk_checksum_one = refl

chunk_size_one : chunk_size info (pos 1) ≡ done (pos 2)
unfolding chunk_size torrent_file_info
chunk_size_one = refl

chunk_offset_one : chunk_offset info (pos 1) ≡ done 2
unfolding chunk_offset torrent_file_info
chunk_offset_one = refl

download_task_finishes_example :
    download_task byte_engine info (pos 1) accepted (3 ∷ 4 ∷ []) rounds [] blank
    ≡ done (finished, take 2 blank ++ take 2 (3 ∷ 4 ∷ []) ++ drop (2 + 2) blank)
download_task_finishes_example =
    download_task_finishes byte_engine info (pos 1) accepted (3 ∷ 4 ∷ []) rounds [] blank 2 2
      request_upload-accepted chunk_checksum_one chunk_size_one chunk_offset_one (omega arith)
      (omega arith)
      (
        (refl, refl, refl, omega arith, omega arith, omega arith),
        ((refl, refl, refl, omega arith, omega arith, omega arith), tt),
      )
      (omega arith)

download_task_verified_example :
    (written ≡ blank)
    ⊎ ((check_sum : String) × (chunk_checksum info (pos 1) ≡ done check_sum)
        × IsStored byte_engine info (pos 1) check_sum blank written)
download_task_verified_example =
    download_task_verified byte_engine info (pos 1) accepted (3 ∷ 4 ∷ []) rounds [] blank finished
      written download_task_finishes_example
