-- ===== src/Client/JobInfo.antt =====
-- client/include/job_info.h and client/src/job_info.cc: `DownloadInfo`, `FileOwnerInfo` and `JobInfo`.
-- A `dynamic_bitset` is its sequence of bits. The speed limits and the byte counts are numbers.
use cool_down.Prelude.{
  ℕ, String, List, [], ◌∷◌, ◌++◌, Bool, true, false, ◌^◌, length, replicate, if◌then◌else◌,
  string_key, get_elem?, suc,
}
use cool_down.Prelude.Int.{ℤ, pos}
use cool_down.Prelude.Map.{Map, lookup, insert, add}
use cool_down.Outcome.{Outcome, undefined, null_pointer, or_throw}
use cool_down.Client.Torrent.{FileEntry, Torrent, TorrentInfo, torrent_info}
use cool_down.Client.LocalFiles.{
  FileIdentityInfo, is_needed, FileSystem, LocalFileInfo, new_local_files, add_file,
}

abbrev pub Bitmap : Type 0
Bitmap = List Bool

-- `bitmap.test(i)`, which has no meaning past the end
abbrev pub test : Bitmap → ℕ → Outcome Bool
test bits i = or_throw undefined (get_elem? bits i)

abbrev pub count : Bitmap → ℕ
count [] = 0
count (true ∷ bits) = suc (count bits)
count (false ∷ bits) = count bits

pub record FileOwnerInfo : Type 0 where
  pub clientid : String
  pub ip : String
  pub message_port : ℤ
  pub percentage : ℤ
  pub bitmap : Bitmap

-- The constructor gives every owner an empty bitmap.
unfoldable pub file_owner_info : String → String → ℤ → ℤ → FileOwnerInfo
file_owner_info clientid ip message_port percentage = record {
  clientid = clientid;
  ip = ip;
  message_port = message_port;
  percentage = percentage;
  bitmap = [];
}

abbrev pub OwnerInfoMap : Type 0
OwnerInfoMap = Map String (List FileOwnerInfo)

pub record DownloadInfo : Type 0 where
  pub is_job_removed : Bool
  pub is_stopped : Bool
  pub is_download_paused : Bool
  pub is_upload_paused : Bool
  pub bytes_upload_this_second : ℕ
  pub bytes_download_this_second : ℕ
  pub upload_speed_limit : ℕ
  pub download_speed_limit : ℕ
  pub upload_total : ℕ
  pub download_total : ℕ
  pub time_to_next_report : ℤ
  pub percentage_map : Map String ℤ
  pub bitmap_map : Map String Bitmap

abbrev pub report_period : ℕ
report_period = 30

-- The constructor leaves the two totals as they are found.
unfoldable pub download_info : ℕ → ℕ → DownloadInfo
download_info upload_total download_total = record {
  is_job_removed = false;
  is_stopped = true;
  is_download_paused = true;
  is_upload_paused = true;
  bytes_upload_this_second = 0;
  bytes_download_this_second = 0;
  upload_speed_limit = 2 ^ 30;
  download_speed_limit = 2 ^ 30;
  upload_total = upload_total;
  download_total = download_total;
  time_to_next_report = pos report_period;
  percentage_map = [];
  bitmap_map = [];
}

-- `*bitmap_map[fileid]`: a missing entry is created as a null pointer.
unfoldable pub bitmap_of : DownloadInfo → String → Outcome Bitmap
bitmap_of d fileid = or_throw null_pointer (lookup fileid d.bitmap_map)

pub record JobInfo : Type 0 where
  pub fileidlist : List String
  pub local_files : LocalFileInfo
  pub owner_info_map : OwnerInfoMap
  pub download_info : DownloadInfo
  pub torrent_info : TorrentInfo

-- `set<string>(list.begin(), list.end())`
unfoldable pub unique : List String → List String
unique [] = []
unique (k ∷ ks) = add k (unique ks)

unfoldable pub unique_fileid_list : JobInfo → List String
unfolding unique
unique_fileid_list j = unique j.fileidlist

abbrev pub identity : FileEntry → FileIdentityInfo
identity f = record { relative_path = f.relative_path; filename = f.filename }

module _ (fs : FileSystem) where
  open fs use {Disk}

  -- The loop body of the constructor for a file that is needed. The code of `add_file` is not looked at.
  unfoldable pub take_file : FileEntry → JobInfo × Disk → JobInfo × Disk
  take_file f (j, disk) =
      let d = j.download_info in
      let (files, disk', _) =
        add_file fs j.local_files f.check_sum f.relative_path f.filename f.size disk in
      (
        record j {
          download_info = record d {
            percentage_map = insert f.check_sum (pos 0) d.percentage_map;
            bitmap_map = insert f.check_sum (replicate (length f.chunks) false) d.bitmap_map;
          };
          local_files = files;
          fileidlist = j.fileidlist ++ f.check_sum ∷ [];
        },
        disk',
      )

  unfoldable pub take_files :
      List FileEntry → List FileIdentityInfo → JobInfo × Disk → JobInfo × Disk
  unfolding take_file
  take_files [] needs s = s
  take_files (f ∷ fs) needs s =
      take_files fs needs (if is_needed needs (identity f) then take_file f s else s)

  unfoldable pub job_info : Torrent → String → List FileIdentityInfo → ℕ → ℕ → Disk → JobInfo × Disk
  unfolding take_files
  job_info torrent top_path needs upload_total download_total disk =
      take_files torrent.files needs (
        record {
          fileidlist = [];
          local_files = new_local_files top_path;
          owner_info_map = [];
          download_info = download_info upload_total download_total;
          torrent_info = torrent_info torrent;
        },
        disk,
      )
