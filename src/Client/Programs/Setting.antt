-- ===== src/Client/Programs/Setting.antt =====
-- client/src/client.cc: what `CoolClient::main` starts from and how it ends.
use cool_down.Prelude.{ℕ, String, Option, none, some, List, [], ◌∷◌, Bool}
use cool_down.Prelude.Int.{ℤ, pos}
use cool_down.ErrorCode.{RetCode}
use cool_down.Outcome.{Outcome}
use cool_down.Messages.{Message}
use cool_down.Client.Torrent.{Torrent}
use cool_down.Client.LocalFiles.{FileSystem}
use cool_down.Client.Jobs.{Jobs}
use cool_down.Client.TrackerCalls.{Attempt}
use cool_down.Client.History.{History}
use cool_down.Client.Verification.{DigestEngine}
use cool_down.Client.MakeTorrent.Listing.{Entry}

-- The code of the process
pub data Exit : Type 0 where
  exit_ok exit_tempfail : Exit
  exit_code : RetCode → Exit

-- The requests that `main` has sent to the tracker as a whole, and how the program ends, with its table of jobs.
abbrev pub Ended : Type 0
Ended = List Message × Outcome (Exit × Jobs)

-- The text of the tracker's address and port
abbrev pub tracker_address : String
tracker_address = "127.0.0.1:9977"

-- The id that the downloading program gives itself
abbrev pub downloader : String
downloader = "0123456789012345678901234567890123456789"

-- What a torrent that is made says besides its files.
abbrev pub head : String → String → Torrent
head clientid now = record {
  torrent_id = "";
  kind = pos 1;
  total_size = pos 0;
  create_by = clientid;
  create_time = now;
  tracker_address = tracker_address;
  files = [];
}

abbrev pub noted : Option Message → List Message
noted none = []
noted (some m) = m ∷ []

-- What a program finds: `connected` is the connection to the tracker, `histories` and `torrents` are
-- the files of these kinds, and `rewritten` is what is read back where MakeTorrent has written.
-- `all_joined` says that the threads of the jobs end, for which `jobThreads_.joinAll` waits, and
-- `terminated` that the process is asked to end and the reactor then does.
pub record Surroundings (sha : DigestEngine) (fs : FileSystem) : Type 0 where
  pub disk : fs.Disk
  pub local_port : ℤ
  pub connected : Option (ℕ × String)
  pub at_login : Attempt
  pub at_logout : Attempt
  pub at_publish : String → Attempt
  pub histories : String → Option (Option History)
  pub torrents : String → Option (Option Torrent)
  pub rewritten : Option Torrent → Option (Option Torrent)
  pub parent : String → String
  pub resources : String → Bool × Entry
  pub now : String
  pub bytes_of : String → List ℕ
  pub opened : Bool
  pub serialized : Bool
  pub engine : sha.Engine
  pub has_thread : Bool
  pub all_joined : Bool
  pub can_listen : Bool
  pub terminated : Bool
  pub up : ℕ
  pub down : ℕ
