-- ===== src/Client/ConnectionHandler/Uploads.antt =====
-- The life of the upload task of a connection.
use cool_down.Prelude.{
  ℕ, suc, ◌≡◌, refl, String, Option, none, some, List, true, false, arith, nat_key, ◌⊎◌,
}
use cool_down.Prelude.Int.{pos, ltb_ℤ}
use cool_down.ErrorCode.{RetCode, is_ok}
use cool_down.Outcome.{done}
use cool_down.Messages.{
  Message, UploadRequest, upload_request, payload_code, payload_upload_request,
}
use cool_down.Client.Torrent.{
  TorrentFileInfo, get_one_file_of_same_fileid, chunk_offset, chunk_size,
}
use cool_down.Client.LocalFiles.{get_file}
use cool_down.Client.JobInfo.{Bitmap}
use cool_down.Client.Jobs.{Job, Jobs, get_job_by_fileid}
use cool_down.Client.ConnectionHandler.{
  Handler, Packet, Served, offer_chunk, handle_upload_request, process, on_readable,
}

module _ (blocks : Bitmap → List ℕ) where
  -- The handlers of a connection: the one that it is opened with, and those that its events leave.
  pub data Serves : Handler → Type 0 where
    opened : Serves (record { last_request_upload = false; task = none })
    went_on :
        {h h' : Handler} (c : Jobs) (clientid : String) (received : RetCode) (kind : ℕ)
        (m : Option Message) (sent : RetCode) (out : Served blocks)
        → Serves h
        → on_readable blocks h c clientid received kind m sent ≡ done out
        → out.handler ≡ some h'
        → Serves h'

  -- A task that is there is started next.
  abbrev IsSettled : Handler × Packet blocks → Type 0
  IsSettled (h, out) = (h.last_request_upload ≡ true) ⊎ (h.task ≡ none)

  -- When a job has the file, the file is open and the torrent records a positive size for the chunk, an
  -- upload request starts one task, with the offset and the size that the torrent gives, once the
  -- reply has been sent; the handler keeps no task.
  on_readable_starts :
      (h : Handler) (c : Jobs) (clientid : String) (req : UploadRequest) (job : Job)
      (same : TorrentFileInfo) (offset size : ℕ) (file : String)
      → get_job_by_fileid c req.file_id ≡ some job
      → get_one_file_of_same_fileid job.info.torrent_info req.file_id ≡ done same
      → chunk_offset same req.chunk_number ≡ done offset
      → chunk_size same req.chunk_number ≡ done (pos (suc size))
      → get_file job.info.local_files req.file_id ≡ some file
      → on_readable blocks h c clientid RetCode.ok
          (payload_code payload_upload_request)
          (some (upload_request req))
          RetCode.ok
        ≡ done (record {
          handler = some (record { last_request_upload = true; task = none });
          started =
              some (some (record { file = file; offset = offset; chunk_size = pos (suc size) }));
        })
  unfolding on_readable process handle_upload_request offer_chunk is_ok payload_code
  on_readable_starts h c clientid req job same offset size file e o a s f =
      let positive : ltb_ℤ (pos 0) (pos (suc size)) ≡ true = ground arith in
      rw (on_readable, process, handle_upload_request, e, offer_chunk, o, a, s, f, positive) refl
