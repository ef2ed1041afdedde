-- ===== src/Client/History.antt =====
-- client/src/client.cc: the job history, over the messages of proto/job_history.proto. Whether a file
-- can be opened, and what is parsed from it, is an argument. The totals of a job go through an `int64`
-- and back, which keeps their 64 bits.
pub mod Saved
pub mod Reloaded
pub mod Unneeded
mod Tests
use cool_down.Prelude.{
  ℕ, ◌/◌, String, Option, none, some, List, [], ◌∷◌, ◌++◌, Bool, true, false, not, map, length,
  ◌==◌, nat_key, string_key, if◌then◌else◌,
}
use cool_down.Prelude.Int.{ℤ, pos}
use cool_down.Prelude.Map.{Map, lookup, insert}
use cool_down.ErrorCode.{RetCode, is_ok}
use cool_down.Outcome.{
  Outcome, done, throw, assertion, undefined, null_pointer, assert, or_throw, ◌>>=◌, ◌>>◌,
}
use cool_down.Client.Torrent.{FileMap, Torrent, TorrentFileInfo}
use cool_down.Client.LocalFiles.{FileIdentityInfo, FileSystem}
use cool_down.Client.JobInfo.{Bitmap, count, DownloadInfo, bitmap_of, JobInfo, job_info}
use cool_down.Client.Jobs.{Job, Jobs, has_torrent, register_torrent, add_new_job}
use cool_down.Client.Bitmaps.{
  Blocks, convert_bitmap_to_transport_format, conver_transport_format_bitmap,
}

pub record FileInfo : Type 0 where
  pub fileid : String
  pub relative_path : String
  pub filename : String
  pub file_bit : List ℕ
  pub file_bit_count : ℕ

pub record JobHistoryInfo : Type 0 where
  pub torrent_path : String
  pub local_top_path : String
  pub files : List FileInfo
  pub upload_total : ℕ
  pub download_total : ℕ

abbrev pub History : Type 0
History = List JobHistoryInfo

-- `bitmap->count() / bitmap->size()` on unsigned numbers
unfoldable pub percentage_of : Bitmap → Outcome ℤ
percentage_of bits =
    if length bits == 0 then throw undefined else done (pos (count bits / length bits))

abbrev pub identity_of : FileInfo → FileIdentityInfo
identity_of f = record { relative_path = f.relative_path; filename = f.filename }

abbrev pub with_totals : JobHistoryInfo → DownloadInfo → DownloadInfo
with_totals h d = record d { upload_total = h.upload_total; download_total = h.download_total }

abbrev pub waiting : DownloadInfo → DownloadInfo
waiting d = record d { is_job_removed = false; is_stopped = false; is_download_paused = true }

module _ (boost : Blocks) where
  unfoldable pub save_file : String → Bitmap → TorrentFileInfo → FileInfo
  save_file fileid bits f =
      let (file_bit, file_bit_count) = convert_bitmap_to_transport_format boost bits in
      record {
        fileid = fileid;
        relative_path = f.file.relative_path;
        filename = f.file.filename;
        file_bit = file_bit;
        file_bit_count = file_bit_count;
      }

  -- The loop over the files with one id reads the bitmap, if there is such a file.
  unfoldable pub save_copies :
      DownloadInfo → String → List TorrentFileInfo → Outcome (List FileInfo)
  save_copies d fileid [] = done []
  save_copies d fileid (f ∷ fs) = do
    bits ← bitmap_of d fileid
    rest ← save_copies d fileid fs
    done (save_file fileid bits f ∷ rest)

  unfoldable pub save_files : DownloadInfo → FileMap → Outcome (List FileInfo)
  save_files d [] = done []
  save_files d ((fileid, fs) ∷ m) = do
    files ← save_copies d fileid fs
    rest ← save_files d m
    done (files ++ rest)

  unfoldable pub save_job : Map ℕ String → ℕ → Job → Outcome JobHistoryInfo
  save_job paths handle job = do
    path ← or_throw assertion (lookup handle paths)
    files ← save_files job.info.download_info job.info.torrent_info.file_map
    done (record {
      torrent_path = path;
      local_top_path = job.info.local_files.top_path;
      files = files;
      upload_total = job.info.download_info.upload_total;
      download_total = job.info.download_info.download_total;
    })

  unfoldable pub save_jobs : Map ℕ String → Map ℕ Job → Outcome History
  save_jobs paths [] = done []
  save_jobs paths ((handle, job) ∷ jobs) = do
    one ← save_job paths handle job
    rest ← save_jobs paths jobs
    done (one ∷ rest)

  -- The code, and what is written to the file.
  unfoldable pub save_job_history : Bool → Bool → Jobs → Outcome (RetCode × Option History)
  save_job_history opened serialized c =
      if not opened then done (RetCode.file_not_exists, none) else do
        history ← save_jobs c.torrent_path_map c.jobs
        done (
            if serialized
            then (RetCode.ok, some history)
            else (RetCode.proto_serialize_error, none))

  -- The loop that reads the bitmaps back.
  unfoldable pub load_bitmaps : List FileInfo → DownloadInfo → Outcome DownloadInfo
  load_bitmaps [] d = done d
  load_bitmaps (f ∷ fs) d = do
    percentage ← percentage_of (conver_transport_format_bitmap boost (f.file_bit, f.file_bit_count))
    load_bitmaps fs (record d {
      bitmap_map =
          insert f.fileid (conver_transport_format_bitmap boost (f.file_bit, f.file_bit_count))
            d.bitmap_map;
      percentage_map = insert f.fileid percentage d.percentage_map;
    })

  module _ (fs : FileSystem) where
    open fs use {Disk}

    unfoldable pub reload_one_job :
        Jobs → Torrent → JobHistoryInfo → ℕ → ℕ → Disk → Outcome (Jobs × Disk × RetCode)
    reload_one_job c torrent h up down disk = do
      assert (not (has_torrent c torrent.torrent_id))
      let c' = register_torrent c torrent.torrent_id in
          let (info, disk') =
            job_info fs torrent h.local_top_path (map identity_of h.files) up down disk in
          (do
            d ← load_bitmaps h.files (with_totals h info.download_info)
            done (
              (add_new_job c' (record info { download_info = waiting d }) h.torrent_path).0,
              disk',
              RetCode.ok,
            ))

    -- What `ParseTorrent` finds at a path: no file, a file that is not a torrent, or a torrent.
    unfoldable pub parse_torrent : Option (Option Torrent) → RetCode × Option Torrent
    parse_torrent none = (RetCode.file_not_exists, none)
    parse_torrent (some none) = (RetCode.file_parse_error, none)
    parse_torrent (some (some t)) = (RetCode.ok, some t)

    -- The jobs one after another; a torrent that cannot be parsed is passed over.
    unfoldable pub reload_jobs :
        (String → Option (Option Torrent)) → ℕ → ℕ → History → Jobs → Disk → Outcome (Jobs × Disk)
    reload_jobs read up down [] c disk = done (c, disk)
    reload_jobs read up down (h ∷ hs) c disk = elim (parse_torrent (read h.torrent_path)).1 [
      | none ↦ reload_jobs read up down hs c disk
      | some torrent ↦ do
        (c', disk', _) ← reload_one_job c torrent h up down disk
        reload_jobs read up down hs c' disk'
    ]

    -- `history` is what is in the file, if it can be opened, and if it can be parsed.
    unfoldable pub reload_job_history :
        (String → Option (Option Torrent))
        → ℕ
        → ℕ
        → Option (Option History)
        → Jobs
        → Disk
        → Outcome (Jobs × Disk × RetCode)
    reload_job_history read up down none c disk = done (c, disk, RetCode.file_not_exists)
    reload_job_history read up down (some none) c disk = done (c, disk, RetCode.proto_parse_error)
    reload_job_history read up down (some (some hs)) c disk = do
      (c', disk') ← reload_jobs read up down hs c disk
      done (c', disk', RetCode.ok)
