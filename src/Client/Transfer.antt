-- ===== src/Client/Transfer.antt =====
-- client/src/upload_task.cc and client/src/download_task.cc. The other threads change the flags and
-- the counters while a task runs, so a run takes a schedule: one round for each turn of the loop,
-- with what the task reads and how many bytes the connection takes or has at that turn. The
-- conditions on which a paused task waits are turns that move nothing.
pub mod Loop
pub mod Ranges
pub mod Stored
pub mod Chunks
pub mod Downloads
pub mod Samples
mod Tests
use cool_down.Prelude.{
  ℕ, zero, suc, ◌+◌, ◌-◌, ◌%◌, ◌^◌, min, String, Option, none, some, List, [], ◌∷◌, ◌++◌, Bool,
  true, false, length, take, drop, ltb, leb, if◌then◌else◌, ◌||◌, not, ◌==◌, string_key,
}
use cool_down.Prelude.Int.{ℤ, pos, negsuc, to_i32}
use cool_down.ErrorCode.{is_ok}
use cool_down.Outcome.{
  Outcome, done, throw, assert, assertion, undefined, exception, or_throw, ◌>>=◌, ◌>>◌,
}
use cool_down.Messages.{cast_upload_reply}
use cool_down.Client.Torrent.{TorrentFileInfo, chunk_checksum, chunk_offset, chunk_size}
use cool_down.Client.TrackerCalls.{Exchange, cast_reply, is_zero}
use cool_down.Client.Verification.{DigestEngine, get_verification_code}

pub record Round : Type 0 where
  pub is_stopped : Bool
  pub is_job_removed : Bool
  pub is_download_paused : Bool
  pub bytes_this_second : ℕ
  pub speed_limit : ℕ
  -- `sendBytes` and `receiveBytes` move at most this many, and at most what is asked.
  pub ready : ℕ

pub data Status : Type 0 where
  running finished failed : Status

-- What a turn does: leave by an exception, move nothing, or move so many bytes.
pub data Turn : Type 0 where
  leave wait : Turn
  move : ℕ → Turn

-- The bytes that went over the connection, and what was added to the counter of the second.
pub record Moved : Type 0 where
  pub bytes : List ℕ
  pub counted : ℕ

abbrev pub add_bytes : Moved → List ℕ → Moved
add_bytes m bs = record { bytes = m.bytes ++ bs; counted = m.counted + length bs }

-- What a turn leaves: the loop is over, or goes on with what moved and the rest of the stream.
pub data Next : Type 0 where
  over : Status → Next
  again : Moved → List ℕ → Next

-- Zero bytes are an error.
abbrev pub moving : Moved → List ℕ → List ℕ → Next
moving m [] rest = over failed
moving m (b ∷ bs) rest = again (add_bytes m (b ∷ bs)) rest

abbrev pub take_turn : Moved → List ℕ → Turn → Next
take_turn m stream leave = over failed
take_turn m stream wait = again m stream
take_turn m stream (move n) = moving m (take n stream) (drop n stream)

-- One turn of the loop of both tasks. `turn` is the body, from the bytes that are left and the round,
-- and `stream` what is to move.
unfoldable pub next : (ℕ → Round → Turn) → ℕ → Moved → List ℕ → Round → Next
next turn size m stream r =
    if ltb (length m.bytes) size
    then take_turn m stream (turn (size - length m.bytes) r)
    else over finished

unfoldable pub transfer_loop : (ℕ → Round → Turn) → ℕ → Moved → List ℕ → List Round → Status × Moved
unfolding next
transfer_loop turn size m stream [] = (if ltb (length m.bytes) size then running else finished, m)
transfer_loop turn size m stream (r ∷ rs) = elim (next turn size m stream r) [
  | over s ↦ (s, m)
  | again m' stream' ↦ transfer_loop turn size m' stream' rs
]

abbrev pub moved : List ℕ → ℕ → Moved
moved bytes counted = record { bytes = bytes; counted = counted }

abbrev pub nothing : Moved
nothing = moved [] 0

unfoldable pub upload_turn : ℕ → Round → Turn
upload_turn left r = if r.is_stopped || r.is_job_removed then leave else move (min r.ready left)

abbrev pub receive : ℤ → ℕ → ℕ → Turn
receive (negsuc q) left ready = wait
receive (pos zero) left ready = wait
receive (pos (suc q)) left ready = move (min ready (if ltb left (suc q) then left else suc q))

unfoldable pub download_turn : ℕ → Round → Turn
download_turn left r =
    if r.is_stopped || r.is_job_removed
    then leave
    else if r.is_download_paused
    then wait
    else if ltb r.speed_limit r.bytes_this_second
    then wait
    else receive (to_i32 (r.speed_limit - r.bytes_this_second)) left r.ready

-- The bytes of the mapped file from an offset; past its end they have no meaning.
abbrev pub read_file : List ℕ → ℕ → ℕ → Outcome (List ℕ)
read_file file offset size =
    if leb (offset + size) (length file)
    then done (take size (drop offset file))
    else throw undefined

abbrev pub write_file : List ℕ → ℕ → List ℕ → Outcome (List ℕ)
write_file file offset content =
    if leb (offset + length content) (length file)
    then done (take offset file ++ content ++ drop (offset + length content) file)
    else throw undefined

-- `UploadTask::runTask`
unfoldable pub upload_task : List ℕ → ℕ → ℕ → List Round → Outcome (Status × Moved)
unfolding transfer_loop upload_turn
upload_task file offset chunk_size rounds = do
  content ← read_file file offset chunk_size
  done (transfer_loop upload_turn chunk_size nothing content rounds)

-- The exchange before the content: anything but an answer with code 0 is an exception.
unfoldable pub request_upload : Exchange → Outcome (Unit {0})
request_upload x =
    if not (is_ok x.sent)
    then throw exception
    else if not (is_ok x.received)
    then throw exception
    else elim (cast_reply cast_upload_reply x.reply) [
      | none ↦ throw exception
      | some r ↦ if is_zero r.return_code then done tt else throw exception
    ]

-- `int chunk_size = fileInfo_.chunk_size(chunk_pos_)`, that is not -1 and that a buffer can have
abbrev pub buffer_size : ℤ → Outcome ℕ
buffer_size (pos n) = done n
buffer_size (negsuc zero) = throw assertion
buffer_size (negsuc (suc n)) = throw undefined

module _ (sha : DigestEngine) where
  open sha use {Engine}

  -- From the content that was received to the file.
  unfoldable pub store_chunk :
      TorrentFileInfo → ℤ → String → List ℕ → Engine → List ℕ → Outcome (List ℕ)
  unfolding get_verification_code
  store_chunk info chunk_pos check_sum content e file = do
    (code, e') ← get_verification_code sha content e
    offset ← chunk_offset info chunk_pos
    if code == check_sum then write_file file offset content else throw exception

  abbrev pub conclude :
      TorrentFileInfo → ℤ → String → Engine → List ℕ → Status × Moved → Outcome (Status × List ℕ)
  conclude info chunk_pos check_sum e file (running, m) = done (running, file)
  conclude info chunk_pos check_sum e file (failed, m) = throw exception
  conclude info chunk_pos check_sum e file (finished, m) = do
    file' ← store_chunk info chunk_pos check_sum m.bytes e file
    done (finished, file')

  -- `DownloadTask::runTask`, with the checksum that the constructor takes. The value is the file of
  -- the task; a task that leaves by an exception has not written it.
  unfoldable pub download_task :
      TorrentFileInfo
      → ℤ
      → Exchange
      → List ℕ
      → List Round
      → Engine
      → List ℕ
      → Outcome (Status × List ℕ)
  unfolding transfer_loop download_turn request_upload store_chunk
  download_task info chunk_pos x peer rounds e file = do
    check_sum ← chunk_checksum info chunk_pos
    request_upload x
    recorded ← chunk_size info chunk_pos
    size ← buffer_size recorded
    conclude info chunk_pos check_sum e file (transfer_loop download_turn size nothing peer rounds)
