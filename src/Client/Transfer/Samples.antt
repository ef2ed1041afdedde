-- ===== src/Client/Transfer/Samples.antt =====
-- Rounds and an answer for the tests of the tasks.
use cool_down.Prelude.{ℕ, ◌≡◌, ◌<◌, refl, some, false, arith}
use cool_down.ErrorCode.{RetCode, is_ok}
use cool_down.Outcome.{done}
use cool_down.Messages.{upload_reply}
use cool_down.Client.TrackerCalls.{Exchange}
use cool_down.Client.Transfer.{Round, request_upload}
use cool_down.Client.Transfer.Chunks.{CanSend}
use cool_down.Client.Transfer.Downloads.{CanReceive}

abbrev pub ready : ℕ → Round
ready n = record {
  is_stopped = false;
  is_job_removed = false;
  is_download_paused = false;
  bytes_this_second = 0;
  speed_limit = 1000;
  ready = n;
}

pub ready-CanReceive : (n : ℕ) → 0 < n → CanReceive (ready n)
ready-CanReceive n h = (refl, refl, refl, omega arith, omega arith, h)

pub ready-CanSend : (n : ℕ) → 0 < n → CanSend (ready n)
ready-CanSend n h = (refl, refl, h)

abbrev pub accepted : Exchange
accepted = record {
  sent = RetCode.ok;
  received = RetCode.ok;
  reply = some (upload_reply (record { return_code = 0 }));
}

pub request_upload-accepted : request_upload accepted ≡ done tt
unfolding request_upload is_ok
request_upload-accepted = refl
