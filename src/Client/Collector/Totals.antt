-- ===== src/Client/Collector/Totals.antt =====
-- The bytes of a job: what the tasks count, and what the collector adds up.
use cool_down.Prelude.{ℕ, ◌+◌, ◌%◌, ◌^◌, ◌≡◌, String, List, [], ◌∷◌, Bool, arith}
use cool_down.Prelude.Int.{ℤ}
use cool_down.Client.JobInfo.{DownloadInfo}
use cool_down.Client.Collector.{wake_download}

-- A task counts bytes, or the collector wakes up, and the job is running or not.
pub data Event : Type 0 where
  uploads downloads : ℕ → Event
  wakes : Bool → Event

pub counted : (ℕ → ℕ → ℤ) → String → DownloadInfo → Event → DownloadInfo
counted percent tracker d (uploads n) = record d {
  bytes_upload_this_second = (d.bytes_upload_this_second + n) % 2 ^ 64;
}
counted percent tracker d (downloads n) = record d {
  bytes_download_this_second = (d.bytes_download_this_second + n) % 2 ^ 64;
}
counted percent tracker d (wakes running) = (wake_download percent running tracker d).0

pub counted_all : (ℕ → ℕ → ℤ) → String → DownloadInfo → List Event → DownloadInfo
counted_all percent tracker d [] = d
counted_all percent tracker d (e ∷ es) =
    counted_all percent tracker (counted percent tracker d e) es

abbrev pub uploaded : List Event → ℕ
uploaded [] = 0
uploaded (uploads n ∷ es) = n + uploaded es
uploaded (downloads n ∷ es) = uploaded es
uploaded (wakes r ∷ es) = uploaded es

abbrev pub downloaded : List Event → ℕ
downloaded [] = 0
downloaded (uploads n ∷ es) = downloaded es
downloaded (downloads n ∷ es) = n + downloaded es
downloaded (wakes r ∷ es) = downloaded es

-- Where the wake-ups and the counting do not overlap, each byte that a task counts is in the total or in
-- the count of the current second, once: up to multiples of 2 ^ 64, where the counters wrap, the two
-- together grow by exactly the bytes counted, for the upload and for the download.
pub counted_all_conserves :
    (percent : ℕ → ℕ → ℤ) (tracker : String) (d : DownloadInfo) (es : List Event)
    → let d' = counted_all percent tracker d es in
      ((d'.upload_total + d'.bytes_upload_this_second) % 2 ^ 64
        ≡ (d.upload_total + d.bytes_upload_this_second + uploaded es) % 2 ^ 64)
      × ((d'.download_total + d'.bytes_download_this_second) % 2 ^ 64
          ≡ (d.download_total + d.bytes_download_this_second + downloaded es) % 2 ^ 64)
unfolding counted_all counted wake_download
counted_all_conserves percent tracker d [] = omega arith
counted_all_conserves percent tracker d (uploads n ∷ es) =
    omega (arith, counted_all_conserves percent tracker (counted percent tracker d (uploads n)) es)
counted_all_conserves percent tracker d (downloads n ∷ es) =
    omega
      (arith, counted_all_conserves percent tracker (counted percent tracker d (downloads n)) es)
counted_all_conserves percent tracker d (wakes r ∷ es) =
    omega (arith, counted_all_conserves percent tracker (counted percent tracker d (wakes r)) es)
