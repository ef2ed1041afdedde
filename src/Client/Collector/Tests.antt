-- ===== src/Client/Collector/Tests.antt =====
-- The collector's theorems at short runs.
use cool_down.Prelude.{ℕ, ◌+◌, ◌%◌, ◌^◌, ◌≡◌, List, [], ◌∷◌, ◌++◌, true, false, replicate, All}
use cool_down.Prelude.Int.{ℤ, pos}
use cool_down.Client.JobInfo.{download_info}
use cool_down.Client.Collector.Reports.{reports_at, reports_at_period, reports_at_missed}
use cool_down.Client.Collector.Totals.{
  Event, uploads, downloads, wakes, uploaded, downloaded, counted_all, counted_all_conserves,
}

reports_at_period_example :
    reports_at (pos 3) (replicate 3 true ++ true ∷ [])
    ≡ replicate 2 false ++ true ∷ reports_at (pos 30) (true ∷ [])
reports_at_period_example = reports_at_period 2 (true ∷ [])

reports_at_missed_example :
    All (λ b. b ≡ false) (reports_at (pos 3) ((true ∷ true ∷ []) ++ false ∷ true ∷ true ∷ []))
reports_at_missed_example = reports_at_missed (true ∷ true ∷ []) (true ∷ true ∷ [])

abbrev percent : ℕ → ℕ → ℤ
percent count size = pos 100

abbrev second : List Event
second = uploads 7 ∷ downloads 5 ∷ wakes true ∷ downloads 1 ∷ []

counted_all_conserves_example :
    let d' = counted_all percent "10.0.0.2" (download_info 100 200) second in
    ((d'.upload_total + d'.bytes_upload_this_second) % 2 ^ 64
      ≡ (100 + 0 + uploaded second) % 2 ^ 64)
    × ((d'.download_total + d'.bytes_download_this_second) % 2 ^ 64
        ≡ (200 + 0 + downloaded second) % 2 ^ 64)
unfolding download_info
counted_all_conserves_example =
    counted_all_conserves percent "10.0.0.2" (download_info 100 200) second
