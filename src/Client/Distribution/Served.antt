-- ===== src/Client/Distribution/Served.antt =====
-- One chunk from the file of a client that has it to the file of one that asks for it: the handler of
-- client/src/client_connection_handler.cc, the task of client/src/upload_task.cc that it starts, and
-- the task of client/src/download_task.cc on the other side.
use cool_down.Prelude.{
  ℕ, suc, ◌+◌, ◌≤◌, ◌≡◌, refl, ap, ◌∙◌, String, some, List, ◌++◌, length, take, drop, All, arith,
  nat_key, leb, true, length-take, length-drop, take_all,
}
use cool_down.Prelude.Int.{pos, ltb_ℤ}
use cool_down.ErrorCode.{RetCode, is_ok}
use cool_down.Outcome.{done}
use cool_down.Messages.{
  Message, UploadRequest, upload_request, payload_code, payload_upload_request,
  payload_upload_reply, upload_reply,
}
use cool_down.Client.Torrent.{
  TorrentFileInfo, get_one_file_of_same_fileid, chunk_checksum, chunk_offset, chunk_size,
}
use cool_down.Client.LocalFiles.{get_file}
use cool_down.Client.JobInfo.{Bitmap}
use cool_down.Client.Jobs.{Job, Jobs, get_job_by_fileid}
use cool_down.Client.TrackerCalls.{Exchange}
use cool_down.Client.ConnectionHandler.{
  UploadTask, Handler, offer_chunk, handle_upload_request, process, start_upload,
}
use cool_down.Client.Verification.{DigestEngine}
use cool_down.Client.Transfer.{
  Round, finished, Moved, moved, upload_task, download_task, request_upload, write_file,
}
use cool_down.Client.Transfer.Chunks.{CanSend, upload_task_finishes}
use cool_down.Client.Transfer.Downloads.{CanReceive, download_task_finishes}
use cool_down.Client.Transfer.Ranges.{range_of, range_of-written}

-- The exchange of a request whose answer arrives.
abbrev pub answered : Message → Exchange
answered m = record { sent = RetCode.ok; received = RetCode.ok; reply = some m }

length-range_of :
    (offset size : ℕ) (file : List ℕ)
    → offset + size ≤ length file
    → length (range_of offset size file) ≡ size
length-range_of offset size file h =
    ground (arith, length-take {0} size (drop offset file), length-drop {0} offset file)

module _ (sha : DigestEngine) (blocks : Bitmap → List ℕ) (disk : String → List ℕ) where
  open sha use {Engine, digest_of}

  -- A client asks another for a chunk. The other has a job with the file, which is open, and its copy
  -- has at the chunk's offset the bytes whose digest the torrent gives; the file of the asking client
  -- is as long as the chunk needs; both tasks have a round that moves a byte for each byte of the
  -- chunk. Then the handler accepts, and starts a task that sends the whole chunk; with that answer
  -- and those bytes the download finishes, and the asking client has the same bytes at that offset.
  pub chunk_served :
      (h : Handler) (c : Jobs) (clientid : String) (req : UploadRequest) (job : Job)
      (info : TorrentFileInfo) (offset size : ℕ) (path : String) (sending receiving : List Round)
      (e : Engine) (file : List ℕ)
      → get_job_by_fileid c req.file_id ≡ some job
      → get_one_file_of_same_fileid job.info.torrent_info req.file_id ≡ done info
      → chunk_offset info req.chunk_number ≡ done offset
      → chunk_size info req.chunk_number ≡ done (pos (suc size))
      → chunk_checksum info req.chunk_number
        ≡ done (digest_of (range_of offset (suc size) (disk path)))
      → get_file job.info.local_files req.file_id ≡ some path
      → offset + suc size ≤ length (disk path)
      → offset + suc size ≤ length file
      → All CanSend sending
      → suc size ≤ length sending
      → All CanReceive receiving
      → suc size ≤ length receiving
      → (h' : Handler) × (kind : ℕ) × (m : Message) × (t : UploadTask) × (sent : Moved)
        × (file' : List ℕ) × (process blocks h c clientid
              (payload_code payload_upload_request)
              (some (upload_request req))
            ≡ done (h', some (kind, m)))
        × ((start_upload blocks h').started ≡ some (some t))
        × (t.chunk_size ≡ pos (suc size))
        × (upload_task (disk t.file) t.offset (suc size) sending ≡ done (finished, sent))
        × (download_task sha info req.chunk_number (answered m) sent.bytes receiving e file
            ≡ done (finished, file'))
        × (range_of offset (suc size) file' ≡ range_of offset (suc size) (disk path))
  unfolding process handle_upload_request offer_chunk is_ok payload_code request_upload
  chunk_served h c clientid req job info offset size path sending receiving e file found same at
        given sum opened inside room can_send enough can_receive enough' =
      let positive : ltb_ℤ (pos 0) (pos (suc size)) ≡ true = ground arith in
      let content = range_of offset (suc size) (disk path) in
      let whole : length content ≡ suc size =
        length-range_of offset (suc size) (disk path) inside in
      let all : take (suc size) content ≡ content = take_all (suc size) content (omega arith) in
      let file' = take offset file ++ content ++ drop (offset + suc size) file in
      let fits : leb (offset + length content) (length file) ≡ true = ground arith in
      let written : write_file file offset content ≡ done file' = rw (fits, whole) refl in
      (
        record {
          last_request_upload = true;
          task = some (record { file = path; offset = offset; chunk_size = pos (suc size) });
        },
        payload_code payload_upload_reply,
        upload_reply (record { return_code = 0 }),
        record { file = path; offset = offset; chunk_size = pos (suc size) },
        moved content (suc size),
        file',
        rw (process, handle_upload_request, found, offer_chunk, same, at, given, opened, positive)
            refl,
        refl,
        refl,
        upload_task_finishes (disk path) offset (suc size) sending inside can_send enough,
        download_task_finishes sha info req.chunk_number (answered _) content receiving e file
              (suc size) offset refl (rw all sum) given at (omega arith) room can_receive enough'
            ∙ ap
                (λ (b : List ℕ).
                  done (finished, take offset file ++ b ++ drop (offset + suc size) file))
                all,
        rw whole at (range_of-written file offset content file' written),
      )
