-- ===== src/Client/Distribution/Tests.antt =====
-- A file of three bytes in chunks of two, its second chunk downloaded first.
use cool_down.Prelude.{
  ℕ, String, zero, suc, ◌<◌, ◌≡◌, refl, inl, inr, some, List, [], ◌∷◌, All, arith,
}
use cool_down.ErrorCode.{is_ok}
use cool_down.Prelude.Int.{pos}
use cool_down.Outcome.{done, throw, exception}
use cool_down.Client.Torrent.{
  FileEntry, TorrentFileInfo, torrent_file_info, chunk_checksum, chunk_size, chunk_offset,
}
use cool_down.Client.Verification.{get_file_checksum_list}
use cool_down.Client.Verification.Engine.{byte_engine, spelling_engine, spelled, spelled-injective}
use cool_down.Client.MakeTorrent.{process_file, make_chunks}
use cool_down.Client.MakeTorrent.Samples.{three}
use cool_down.Messages.{Message, upload_request, payload_code, payload_upload_request}
use cool_down.Client.ConnectionHandler.{UploadTask, Handler, process, start_upload}
use cool_down.Client.ConnectionHandler.Samples.{
  fresh, request, no_blocks, file, job, one_job, get_job_by_fileid_one, get_one_file_found,
  chunk_offset_zero, chunk_size_zero, get_file_found,
}
use cool_down.Client.Transfer.{Round, Moved, finished, upload_task, download_task}
use cool_down.Client.Transfer.Chunks.{CanSend}
use cool_down.Client.Transfer.Ranges.{range_of}
use cool_down.Client.Transfer.Downloads.{CanReceive, download_task_finishes}
use cool_down.Client.Transfer.Samples.{
  ready, accepted, request_upload-accepted, ready-CanReceive, ready-CanSend,
}
use cool_down.Client.Distribution.{Covers, Downloaded, at_first, chunk_finished, chunk_failed}
use cool_down.Client.Distribution.Served.{answered, chunk_served}
use cool_down.Client.Distribution.Same.{file_arrives}

abbrev entry : FileEntry
entry = record {
  check_sum = spelled three.content;
  relative_path = "";
  filename = "a";
  size = pos 3;
  chunks =
      (record { check_sum = spelled (1 ∷ 2 ∷ []); size = pos 2 })
      ∷ (record { check_sum = spelled (3 ∷ []); size = pos 1 })
      ∷ [];
}

process_file-three : process_file spelling_engine "/top/" 2 three [] ≡ some (done (entry, []))
unfolding process_file get_file_checksum_list make_chunks
process_file-three = refl

abbrev info : TorrentFileInfo
info = torrent_file_info entry

abbrev blank : List ℕ
blank = 0 ∷ 0 ∷ 0 ∷ []

abbrev rounds : List Round
rounds = ready 1 ∷ ready 1 ∷ []

rounds-CanReceive : All CanReceive rounds
rounds-CanReceive = (ready-CanReceive 1 (omega arith), (ready-CanReceive 1 (omega arith), tt))

chunk_checksum_zero : chunk_checksum info (pos 0) ≡ done (spelled (1 ∷ 2 ∷ []))
unfolding chunk_checksum torrent_file_info
chunk_checksum_zero = refl

chunk_checksum_one : chunk_checksum info (pos 1) ≡ done (spelled (3 ∷ []))
unfolding chunk_checksum torrent_file_info
chunk_checksum_one = refl

chunk_size_front : chunk_size info (pos 0) ≡ done (pos 2)
unfolding chunk_size torrent_file_info
chunk_size_front = refl

chunk_size_one : chunk_size info (pos 1) ≡ done (pos 1)
unfolding chunk_size torrent_file_info
chunk_size_one = refl

chunk_offset_front : chunk_offset info (pos 0) ≡ done 0
unfolding chunk_offset torrent_file_info
chunk_offset_front = refl

chunk_offset_one : chunk_offset info (pos 1) ≡ done 2
unfolding chunk_offset torrent_file_info
chunk_offset_one = refl

wrong_byte :
    download_task spelling_engine info (pos 0) accepted (7 ∷ 2 ∷ []) rounds [] blank
    ≡ throw exception
unfolding download_task chunk_checksum chunk_size chunk_offset torrent_file_info is_ok
wrong_byte = refl

-- A task with a wrong byte fails first; then the peer sends a byte too many for the last chunk.
three-Downloaded : Downloaded spelling_engine info blank (0 ∷ 1 ∷ []) three.content
three-Downloaded =
    chunk_finished
      (chunk_finished (chunk_failed at_first 0 accepted (7 ∷ 2 ∷ []) rounds [] exception wrong_byte)
        1 accepted (3 ∷ 9 ∷ []) rounds []
        (download_task_finishes spelling_engine info (pos 1) accepted (3 ∷ 9 ∷ []) rounds [] blank 1
          2 request_upload-accepted chunk_checksum_one chunk_size_one chunk_offset_one (omega arith)
          (omega arith) rounds-CanReceive (omega arith)))
      0 accepted (1 ∷ 2 ∷ []) rounds []
      (download_task_finishes spelling_engine info (pos 0) accepted (1 ∷ 2 ∷ []) rounds []
        (0 ∷ 0 ∷ 3 ∷ []) 2 0 request_upload-accepted chunk_checksum_zero chunk_size_front
        chunk_offset_front (omega arith) (omega arith) rounds-CanReceive (omega arith))

positions : (i : ℕ) → i < 2 → Covers i (0 ∷ 1 ∷ [])
positions zero h = inl refl
positions (suc zero) h = inr (inl refl)
positions (suc (suc i)) h = absurd (omega arith)

file_arrives_example : three.content ≡ three.content
file_arrives_example =
    file_arrives spelling_engine "/top/" 2 three [] [] entry blank three.content (0 ∷ 1 ∷ [])
      (omega arith) (omega arith) (omega arith)
      (λ offset n b l e. spelled-injective b (range_of offset n three.content) e) process_file-three
      refl positions three-Downloaded

-- A peer whose file has one chunk of five bytes.
abbrev disk : String → List ℕ
disk path = 5 ∷ 6 ∷ 7 ∷ 8 ∷ 9 ∷ []

abbrev five_rounds : List Round
five_rounds = ready 2 ∷ ready 1 ∷ ready 9 ∷ ready 1 ∷ ready 1 ∷ []

chunk_checksum_some : chunk_checksum (torrent_file_info file) (pos 0) ≡ done "some"
unfolding chunk_checksum torrent_file_info
chunk_checksum_some = refl

five-CanSend : All CanSend five_rounds
five-CanSend = (
  ready-CanSend 2 (omega arith),
  (
    ready-CanSend 1 (omega arith),
    (
      ready-CanSend 9 (omega arith),
      (ready-CanSend 1 (omega arith), (ready-CanSend 1 (omega arith), tt)),
    ),
  ),
)

five-CanReceive : All CanReceive five_rounds
five-CanReceive = (
  ready-CanReceive 2 (omega arith),
  (
    ready-CanReceive 1 (omega arith),
    (
      ready-CanReceive 9 (omega arith),
      (ready-CanReceive 1 (omega arith), (ready-CanReceive 1 (omega arith), tt)),
    ),
  ),
)

chunk_served_example :
    (h' : Handler) × (kind : ℕ) × (m : Message) × (t : UploadTask) × (sent : Moved) × (file' : List
      ℕ)
    × (process no_blocks fresh one_job "me"
          (payload_code payload_upload_request)
          (some (upload_request request))
        ≡ done (h', some (kind, m)))
    × ((start_upload no_blocks h').started ≡ some (some t))
    × (t.chunk_size ≡ pos 5)
    × (upload_task (disk t.file) t.offset 5 five_rounds ≡ done (finished, sent))
    × (download_task byte_engine
          (torrent_file_info file)
          (pos 0)
          (answered m)
          sent.bytes
          five_rounds
          []
          (0 ∷ 0 ∷ 0 ∷ 0 ∷ 0 ∷ [])
        ≡ done (finished, file'))
    × (range_of 0 5 file' ≡ range_of 0 5 (disk "/top/a"))
chunk_served_example =
    chunk_served byte_engine no_blocks disk fresh one_job "me" request job (torrent_file_info file)
      0 4 "/top/a" five_rounds five_rounds [] (0 ∷ 0 ∷ 0 ∷ 0 ∷ 0 ∷ []) get_job_by_fileid_one
      get_one_file_found chunk_offset_zero chunk_size_zero chunk_checksum_some get_file_found
      (omega arith) (omega arith) five-CanSend (omega arith) five-CanReceive (omega arith)
