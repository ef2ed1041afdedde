-- ===== src/Client/History/Unneeded.antt =====
-- A job that was added for a part of the files of its torrent.
use cool_down.Prelude.{
  ℕ, ◌≡◌, String, none, some, List, [], ◌∷◌, Bool, true, ◌==◌, string_key, nat_key, Bool-cases,
  some-injective, sym, inl, inr,
}
use cool_down.Prelude.Map.{Map, lookup}
use cool_down.Outcome.{Outcome, done, throw, or_throw, assertion, ◌>>=◌}
use cool_down.Client.Torrent.{FileMap, TorrentFileInfo}
use cool_down.Client.JobInfo.{DownloadInfo, bitmap_of}
use cool_down.Client.Jobs.{Job, Jobs}
use cool_down.Client.Bitmaps.{Blocks}
use cool_down.Client.History.{save_copies, save_files, save_job, save_jobs, save_job_history}

-- The call ends with an exception.
abbrev pub Throws {ℓ} : {A : Type ℓ} → Outcome A → Type 0
Throws (done a) = ⊥
Throws (throw e) = Unit

Throws-after {ℓ κ} :
    {A : Type ℓ} {B : Type κ} (m : Outcome A) (g : A → Outcome B)
    → ((a : A) → Throws (g a))
    → Throws (m >>= g)
Throws-after (done a) g h = h a
Throws-after (throw e) g h = tt

Throws-first {ℓ κ} :
    {A : Type ℓ} {B : Type κ} (m : Outcome A) (g : A → Outcome B) → Throws m → Throws (m >>= g)
Throws-first (done a) g h = absurd h
Throws-first (throw e) g h = tt

module _ (boost : Blocks) where
  save_copies-Throws :
      (d : DownloadInfo) (fileid : String) (f : TorrentFileInfo) (fs : List TorrentFileInfo)
      → lookup fileid d.bitmap_map ≡ none
      → Throws (save_copies boost d fileid (f ∷ fs))
  unfolding save_copies bitmap_of
  save_copies-Throws d fileid f fs unmapped = rw (unmapped, save_copies, bitmap_of) tt

  save_files-Throws :
      (d : DownloadInfo) (m : FileMap) (fileid : String) (f : TorrentFileInfo)
      (fs : List TorrentFileInfo)
      → lookup fileid m ≡ some (f ∷ fs)
      → lookup fileid d.bitmap_map ≡ none
      → Throws (save_files boost d m)
  unfolding save_files lookup
  save_files-Throws d [] fileid f fs listed unmapped = cc
  save_files-Throws d ((k, copies) ∷ m) fileid f fs listed unmapped =
      elim (Bool-cases (fileid == k)) [
        | inl t ↦
            let first : some copies ≡ some (f ∷ fs) = rw t at listed in
            let same : fileid ≡ k = (string_key.beq_iff fileid k).0 t in
            Throws-first (save_copies boost d k copies) _
              (rw (some-injective first, sym same) (save_copies-Throws d fileid f fs unmapped))
        | inr t ↦ Throws-after (save_copies boost d k copies) _ λ files.
            Throws-first (save_files boost d m) _
              (save_files-Throws d m fileid f fs (rw t at listed) unmapped)
      ]

  save_jobs-Throws :
      (paths : Map ℕ String) (jobs : Map ℕ Job) (handle : ℕ) (job : Job)
      → lookup handle jobs ≡ some job
      → Throws (save_files boost job.info.download_info job.info.torrent_info.file_map)
      → Throws (save_jobs boost paths jobs)
  unfolding save_jobs save_job lookup
  save_jobs-Throws paths [] handle job has h = cc
  save_jobs-Throws paths ((k, other) ∷ jobs) handle job has h = elim (Bool-cases (handle == k)) [
    | inl t ↦
        let first : some other ≡ some job = rw t at has in
        Throws-first (save_job boost paths k other) _ (
          Throws-after (or_throw assertion (lookup k paths)) _ λ path.
            Throws-first
              (save_files boost other.info.download_info other.info.torrent_info.file_map) _
              (rw (some-injective first) h))
    | inr t ↦ Throws-after (save_job boost paths k other) _ λ one.
        Throws-first (save_jobs boost paths jobs) _
          (save_jobs-Throws paths jobs handle job (rw t at has) h)
  ]

  -- The history file could be opened, and some job's torrent has a file that the job has no bitmap for,
  -- as when the file was not wanted. Then the call leaves by an exception, and no history is saved.
  pub save_job_history_unneeded :
      (serialized : Bool) (c : Jobs) (handle : ℕ) (job : Job) (fileid : String)
      (f : TorrentFileInfo) (fs : List TorrentFileInfo)
      → lookup handle c.jobs ≡ some job
      → lookup fileid job.info.torrent_info.file_map ≡ some (f ∷ fs)
      → lookup fileid job.info.download_info.bitmap_map ≡ none
      → Throws (save_job_history boost true serialized c)
  unfolding save_job_history
  save_job_history_unneeded serialized c handle job fileid f fs has listed unmapped =
      Throws-first (save_jobs boost c.torrent_path_map c.jobs) _ (
        save_jobs-Throws c.torrent_path_map c.jobs handle job has (
          save_files-Throws job.info.download_info job.info.torrent_info.file_map fileid f fs listed
            unmapped))
