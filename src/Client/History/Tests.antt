-- ===== src/Client/History/Tests.antt =====
-- A job with two of three chunks is saved and loaded again, and one with a file that was not wanted.
use cool_down.Prelude.{
  ℕ, ◌≡◌, refl, arith, String, none, some, [], ◌∷◌, true, false, string_key, nat_key,
}
use cool_down.Prelude.Int.{pos}
use cool_down.Prelude.Map.{Map, lookup, insert, get_or, member}
use cool_down.ErrorCode.{RetCode}
use cool_down.Outcome.{done, Returns}
use cool_down.Client.Torrent.{
  FileEntry, Torrent, torrent_info, torrent_file_info, build_map, add_to_map,
}
use cool_down.Client.LocalFiles.Samples.{file_system}
use cool_down.Client.JobInfo.{Bitmap, download_info, bitmap_of}
use cool_down.Client.Jobs.{Job, Jobs, no_jobs, has_torrent}
use cool_down.Client.Bitmaps.{convert_bitmap_to_transport_format}
use cool_down.Client.Owners.Samples.{small, small-IsBlockwise}
use cool_down.Client.History.{
  JobHistoryInfo, percentage_of, save_file, save_copies, save_files, save_job, save_job_history,
  reload_one_job,
}
use cool_down.Client.History.Reloaded.{IsReloaded, reload_one_job-save_job}
use cool_down.Client.History.Unneeded.{Throws, save_job_history_unneeded}

abbrev file : FileEntry
file = record { check_sum = "f"; relative_path = "/"; filename = "a"; size = pos 5; chunks = [] }

abbrev torrent : Torrent
torrent = record {
  torrent_id = "t";
  kind = pos 0;
  total_size = pos 5;
  create_by = "me";
  create_time = "now";
  tracker_address = "10.0.0.2";
  files = file ∷ [];
}

abbrev job_with : Map String Bitmap → Job
job_with bitmaps = record {
  info = record {
    fileidlist = "f" ∷ [];
    local_files = record { top_path = "/top"; files = ("f", "/top/a") ∷ []; same_files = [] };
    owner_info_map = [];
    download_info = record (download_info 7 9) { bitmap_map = bitmaps };
    torrent_info = torrent_info torrent;
  };
  is_running = true;
}

abbrev job : Job
job = job_with (("f", true ∷ false ∷ true ∷ []) ∷ [])

abbrev saved : JobHistoryInfo
saved = record {
  torrent_path = "/t.torrent";
  local_top_path = "/top";
  files =
      (record {
        fileid = "f";
        relative_path = "/";
        filename = "a";
        file_bit = 1 ∷ 0 ∷ 1 ∷ [];
        file_bit_count = 3;
      })
      ∷ [];
  upload_total = 7;
  download_total = 9;
}

save_job_saved : save_job small ((1, "/t.torrent") ∷ []) 1 job ≡ done saved
unfolding save_job save_files save_copies save_file bitmap_of lookup torrent_info torrent_file_info
    build_map add_to_map insert get_or download_info convert_bitmap_to_transport_format
save_job_saved = refl

not_registered : has_torrent no_jobs "t" ≡ false
unfolding has_torrent member
not_registered = refl

reload_one_job-save_job_example :
    Returns
      (λ out. (out.2 ≡ RetCode.ok) × IsReloaded job saved 0 out.0)
      (reload_one_job small file_system no_jobs torrent saved 11 12 tt)
reload_one_job-save_job_example =
    reload_one_job-save_job small small-IsBlockwise file_system ((1, "/t.torrent") ∷ []) 1 job saved
      no_jobs torrent 11 12 tt save_job_saved not_registered (omega arith, tt)

percentage_part : percentage_of (true ∷ false ∷ true ∷ []) ≡ done (pos 0)
unfolding percentage_of
percentage_part = refl

abbrev unwanted : Job
unwanted = job_with []

abbrev one_job : Jobs
one_job = record no_jobs { jobs = (1, unwanted) ∷ [] }

lookup-unwanted : lookup {K = ℕ} 1 one_job.jobs ≡ some unwanted
unfolding lookup
lookup-unwanted = refl

listed :
    lookup {K = String} "f" unwanted.info.torrent_info.file_map ≡ some (torrent_file_info file ∷ [])
unfolding lookup torrent_info build_map add_to_map insert get_or
listed = refl

unmapped : lookup {K = String} "f" unwanted.info.download_info.bitmap_map ≡ none
unfolding lookup download_info
unmapped = refl

save_job_history_unneeded_example : Throws (save_job_history small true true one_job)
save_job_history_unneeded_example =
    save_job_history_unneeded small true one_job 1 unwanted "f" (torrent_file_info file) []
      lookup-unwanted listed unmapped
