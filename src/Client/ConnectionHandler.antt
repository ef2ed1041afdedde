-- ===== src/Client/ConnectionHandler.antt =====
-- client/src/client_connection_handler.cc: the requests of other clients. `blocks` is what
-- `boost::to_block_range` makes of a bitmap. A chunk number is taken to be in the range of an `int`.
pub mod Uploads
pub mod Samples
mod Tests
use cool_down.Prelude.{
  ℕ, String, Option, none, some, List, [], ◌∷◌, Bool, true, false, length, ◌==◌, nat_key,
  string_key, not, if◌then◌else◌,
}
use cool_down.Prelude.Int.{ℤ, pos, ltb_ℤ}
use cool_down.Prelude.Map.{lookup, get_or}
use cool_down.ErrorCode.{RetCode, is_ok}
use cool_down.Outcome.{Outcome, done, throw, assertion, null_pointer, assert, or_throw, ◌>>=◌, ◌>>◌}
use cool_down.Messages.{
  Message, shake_hand, upload_request, upload_reply, ShakeHand, FileInfo, UploadReply,
  UploadRequest, payload_code, payload_shake_hand, payload_upload_request, payload_upload_reply,
}
use cool_down.Client.Torrent.{get_one_file_of_same_fileid, chunk_offset, chunk_size}
use cool_down.Client.LocalFiles.{get_file, has_file}
use cool_down.Client.JobInfo.{Bitmap, bitmap_of, JobInfo}
use cool_down.Client.Jobs.{Job, Jobs, get_job_by_fileid}

pub record UploadTask : Type 0 where
  pub file : String
  pub offset : ℕ
  pub chunk_size : ℤ

pub record Handler : Type 0 where
  pub last_request_upload : Bool
  pub task : Option UploadTask

abbrev pub Upload : Type 0
Upload = RetCode × UploadReply × Option UploadTask

-- The part of `HandleUploadRequest` after the job has been found.
unfoldable pub offer_chunk : JobInfo → UploadRequest → Outcome Upload
offer_chunk info req = do
  same ← get_one_file_of_same_fileid info.torrent_info req.file_id
  offset ← chunk_offset same req.chunk_number
  size ← chunk_size same req.chunk_number
  file ← or_throw assertion (get_file info.local_files req.file_id)
  assert (ltb_ℤ (pos 0) size)
  done (
    RetCode.ok,
    record { return_code = 0 },
    some (record { file = file; offset = offset; chunk_size = size }),
  )

unfoldable pub handle_upload_request : Jobs → Message → Outcome Upload
unfolding offer_chunk
handle_upload_request c (upload_request req) = elim (get_job_by_fileid c req.file_id) [
  | none ↦ done (RetCode.file_not_exists, record { return_code = 1 }, none)
  | some job ↦ offer_chunk job.info req
]
handle_upload_request c _ = done (RetCode.proto_type_error, record { return_code = 1 }, none)

abbrev pub no_file : String → FileInfo
no_file fileid = record {
  file_id = fileid;
  has_file = false;
  percentage = pos 0;
  file_bit = [];
  file_bit_count = 0;
}

module _ (blocks : Bitmap → List ℕ) where
  -- `convert_bitmap_to_transport_format` with the rest of the answer
  unfoldable pub file_info : JobInfo → String → Outcome FileInfo
  file_info info fileid = do
    bits ← bitmap_of info.download_info fileid
    done (record {
      file_id = fileid;
      has_file = true;
      percentage = get_or fileid (pos 0) info.download_info.percentage_map;
      file_bit = blocks bits;
      file_bit_count = length bits;
    })

  -- The answer about the file, from the job if there is one.
  unfoldable pub describe : String → Option Job → Outcome FileInfo
  unfolding file_info
  describe fileid none = done (no_file fileid)
  describe fileid (some job) =
      if has_file job.info.local_files fileid
      then file_info job.info fileid
      else done (no_file fileid)

  -- The reply of a request of another class is left as it was made.
  unfoldable pub handle_shake_hand : Jobs → String → Message → Outcome (RetCode × ShakeHand)
  unfolding describe
  handle_shake_hand c clientid (shake_hand req) = do
    info ← describe req.info.file_id (get_job_by_fileid c req.info.file_id)
    done (RetCode.ok, record { client_id = clientid; info = info })
  handle_shake_hand c clientid _ =
      done (RetCode.proto_type_error, record { client_id = ""; info = no_file "" })

  abbrev pub Packet : Type 0
  Packet = Option (ℕ × Message)

  -- The task that is kept for a request that succeeded; a failed one keeps what was there.
  abbrev pub after_upload : Handler → Upload → Handler × Packet
  after_upload h (ret, reply, task) = (
    record { last_request_upload = true; task = if is_ok ret then task else h.task },
    some (payload_code payload_upload_reply, upload_reply reply),
  )

  -- `m` is the message of the packet, if it could be parsed; a null pointer is cast to null.
  unfoldable pub process : Handler → Jobs → String → ℕ → Option Message → Outcome (Handler × Packet)
  unfolding handle_upload_request handle_shake_hand payload_code
  process h c clientid kind m =
      if kind == payload_code payload_shake_hand
      then (do
        (ret, reply) ←
            or_class (RetCode.proto_type_error, record { client_id = ""; info = no_file "" }) m
              (handle_shake_hand c clientid)
        done (
          record h { last_request_upload = false },
          some (payload_code payload_shake_hand, shake_hand reply),
        ))
      else if kind == payload_code payload_upload_request
      then (do
        out ←
            or_class (RetCode.proto_type_error, record { return_code = 1 }, none) m
              (handle_upload_request c)
        done (after_upload h out))
      else done (h, none)
    where
      or_class : {A : Type 0} → A → Option Message → (Message → Outcome A) → Outcome A
      or_class a none f = done a
      or_class a (some m) f = f m

  -- What an event leaves: the handler, or none when it has deleted itself; and the pointer that was
  -- given to `upload_manager().start`, if that was called.
  pub record Served : Type 0 where
    pub handler : Option Handler
    pub started : Option (Option UploadTask)

  -- After the reply has been sent.
  abbrev pub start_upload : Handler → Served
  start_upload h =
      if h.last_request_upload
      then record { handler = some (record h { task = none }); started = some h.task }
      else record { handler = some h; started = none }

  abbrev pub deleted : Served
  deleted = record { handler = none; started = none }

  unfoldable pub on_readable :
      Handler → Jobs → String → RetCode → ℕ → Option Message → RetCode → Outcome Served
  unfolding process
  on_readable h c clientid received kind m sent = if not (is_ok received) then done deleted else do
    (h', out) ← process h c clientid kind m
    done (if is_ok sent then start_upload h' else deleted)
