-- ===== src/Client/ConnectionHandler/Samples.antt =====
-- A request, a client without jobs, and one that has a file with one chunk.
use cool_down.Prelude.{ℕ, ◌≡◌, refl, none, some, List, [], ◌∷◌, true, false, string_key, nat_key}
use cool_down.Prelude.Int.{pos}
use cool_down.Prelude.Map.{lookup, insert, get_or, member}
use cool_down.Outcome.{done}
use cool_down.Messages.{UploadRequest}
use cool_down.Client.Torrent.{
  FileEntry, torrent_file_info, torrent_info, build_map, add_to_map, get_one_file_of_same_fileid,
  chunk_offset, chunk_size,
}
use cool_down.Client.LocalFiles.{get_file}
use cool_down.Client.JobInfo.{Bitmap, JobInfo, download_info}
use cool_down.Client.Jobs.{Job, Jobs, no_jobs, get_job_by_fileid, job_with_file}
use cool_down.Client.ConnectionHandler.{Handler}

abbrev pub fresh : Handler
fresh = record { last_request_upload = false; task = none }

abbrev pub request : UploadRequest
request = record { client_id = "peer"; file_id = "f"; chunk_number = pos 0 }

abbrev pub no_blocks : Bitmap → List ℕ
no_blocks bits = []

pub get_job_by_fileid-none : get_job_by_fileid no_jobs "f" ≡ none
unfolding get_job_by_fileid job_with_file
get_job_by_fileid-none = refl

abbrev pub file : FileEntry
file = record {
  check_sum = "f";
  relative_path = "/";
  filename = "a";
  size = pos 5;
  chunks = (record { check_sum = "some"; size = pos 5 }) ∷ [];
}

abbrev pub info : JobInfo
info = record {
  fileidlist = "f" ∷ [];
  local_files = record { top_path = "/top"; files = ("f", "/top/a") ∷ []; same_files = [] };
  owner_info_map = [];
  download_info = download_info 0 0;
  torrent_info = torrent_info (record {
    torrent_id = "t";
    kind = pos 0;
    total_size = pos 5;
    create_by = "me";
    create_time = "now";
    tracker_address = "10.0.0.2";
    files = file ∷ [];
  });
}

abbrev pub job : Job
job = record { info = info; is_running = true }

abbrev pub one_job : Jobs
one_job = record no_jobs { jobs = (1, job) ∷ [] }

pub get_job_by_fileid_one : get_job_by_fileid one_job "f" ≡ some job
unfolding get_job_by_fileid job_with_file member
get_job_by_fileid_one = refl

pub get_one_file_found :
    get_one_file_of_same_fileid info.torrent_info "f" ≡ done (torrent_file_info file)
unfolding get_one_file_of_same_fileid torrent_info build_map add_to_map insert lookup get_or
get_one_file_found = refl

pub chunk_offset_zero : chunk_offset (torrent_file_info file) (pos 0) ≡ done 0
unfolding chunk_offset torrent_file_info
chunk_offset_zero = refl

pub chunk_size_zero : chunk_size (torrent_file_info file) (pos 0) ≡ done (pos 5)
unfolding chunk_size torrent_file_info
chunk_size_zero = refl

pub get_file_found : get_file info.local_files "f" ≡ some "/top/a"
unfolding get_file lookup
get_file_found = refl
