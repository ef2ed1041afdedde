-- ===== src/Lib.antt =====
-- CoolDown, a peer-to-peer file distribution program: a tracker (tracker/), a client (client/) and
-- the code that both use (public/, proto/). This library models the core of the client and the
-- tracker.
--
-- A torrent lists files and, for each, chunks with their digests. A job downloads or offers the
-- files of a torrent: it asks the tracker for owners, keeps sockets to them, selects chunks, and
-- runs tasks that move one chunk each. A collector wakes up once a second, adds up the bytes and
-- reports the progress of the jobs to the tracker.
--
-- Which file models which part (each file's comment says more):
--   ErrorCode        public/error_code: `retcode_t`, `errmsg`
--   Messages         proto/tracker.proto, proto/client.proto, public/include/payload_type.h
--   Outcome          how a call ends: with a value, or by a failed assertion or another exception
--   Client.Torrent   proto/torrent.proto; `TorrentFileInfo` and `TorrentInfo` of client/src/job_info.cc
--   Client.LocalFiles  `FileIdentityInfo` and `LocalFileInfo` of client/src/job_info.cc
--   Client.JobInfo   `DownloadInfo`, `FileOwnerInfo` and `JobInfo` of client/src/job_info.cc
--   Client.SockManager    client/src/local_sock_manager.cc
--   Client.ChunkSelector  client/src/chunk_selector.cc
--   Client.Verification   client/src/verification.cc
--   Client.MakeTorrent    `MakeTorrent` and `list_dir_recursive` of client/src/client.cc
--   Client.TrackerCalls   the requests to the tracker in client/src/client.cc
--   Client.Jobs      the table of jobs and the calls that control them in client/src/client.cc
--   Client.Collector `onJobInfoCollectorWakeUp` and `ReportProgressRoutine` of client/src/client.cc
--   Client.Transfer  client/src/upload_task.cc, client/src/download_task.cc
--   Client.Bitmaps   the format of a bitmap in messages, in client/src/job.cc
--   Client.Owners    how a job finds the owners of a file, in client/src/job.cc and client/src/client.cc
--   Client.Run       `Job::run` of client/src/job.cc with its tasks, and their interleavings (Run.Steps)
--   Client.History   the job history in client/src/client.cc, proto/job_history.proto
--   Client.Programs  `CoolClient::main` of client/src/client.cc: what the two programs do from end to end
--   NetPack          public/netpack, proto/netpack_header.proto
--   Client.ConnectionHandler  client/src/client_connection_handler.cc
--   Client.Distribution   a published file on its way to a downloader: MakeTorrent, the handler of an
--                    upload request, the upload and the download task together
--   Tracker.Database tracker/src/tracker_db_manager.cc
--   Tracker.Service  tracker/src/tracker.cc
--   Tracker.NetManager  tracker/src/net_manager.cc
--   Tracker.Handler  tracker/src/tracker_connection_handler.cc
--   Tracker.Directory  what the tracker promises its clients, without a database: who is online, and
--                    how much of a file each of them has
--   Prelude          lists, maps, integers and tests on native numbers
--
-- State is passed explicitly. A function keeps its name in lower case with underscores; a class
-- with state is a record of its fields. A `std::map` is an association list with the operations of
-- Prelude.Map. Code of the libraries is a parameter: the file system (LocalFiles.FileSystem), the
-- digest engine (Verification.DigestEngine, with the documented laws of a reset), what a connection
-- brings (TrackerCalls.Exchange, Transfer.Round), protobuf and the byte order (NetPack.Wire, with
-- the documented laws NetPack.Whole.IsFaithful), the blocks of a bitmap (Bitmaps.Blocks), the
-- statements of MySQL (Tracker.Database.Session, with what they do to the tables as the laws
-- Tracker.Directory.IsRelational, which speak only of ids that are plain text, since two statements
-- are spliced from them without escaping; its comment names the settings of the server), the
-- copying of a file (with the laws Client.Run.Copies.IsCopying), the threads of the pool, and the
-- percentages, which are computed in floating point. Other threads enter as arguments: a schedule
-- of rounds for a task, a sequence of events for the counters, a history of calls for the tables.
--
-- Bounds and fuel: the checksum loop runs on fuel, one more than the length of the file, since each
-- turn moves by a positive chunk size. The loops of the tasks take one round of their schedule at a
-- turn. Where a value is converted to `uint64_t` or from it to `int`, the wrap is written out, and
-- the byte counters of a job wrap at 2 ^ 64; handles and sizes do not wrap.
--
-- The thread of a job is a state machine: a function of Client.Run is what a thread does between
-- two points where it waits or where another may come first, and Run.Steps.Step lets them
-- interleave in any order, and an exception may end a step. Client.Run.Tally counts where a chunk
-- is: its bit, the queue, under way, or lost by an exception.
--
-- Not modelled: start-up and configuration, the console, logging, locks and timers. A request to
-- the tracker from `main` may raise an exception (TrackerCalls.Attempt); elsewhere an exception of
-- a socket is left out where it is not caught.
pub mod Prelude
pub mod ErrorCode
pub mod Outcome
pub mod Messages
pub mod NetPack
pub mod Client
pub mod Tracker
