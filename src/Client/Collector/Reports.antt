-- ===== src/Client/Collector/Reports.antt =====
-- When a job reports its progress.
use cool_down.Prelude.{
  ℕ, zero, suc, ◌≡◌, refl, ap, List, [], ◌∷◌, ◌++◌, Bool, true, false, arith, replicate, length,
  All,
}
use cool_down.Prelude.Int.{ℤ, pos, negsuc, ◌-ℤ◌}
use cool_down.Client.Collector.{count_down}

-- Whether the job reports at each of a number of wake-ups, by whether it is running then.
pub reports_at : ℤ → List Bool → List Bool
reports_at time [] = []
reports_at time (running ∷ rs) =
    let (left, now) = count_down running time in now ∷ reports_at left rs

count_down_early :
    (running : Bool) (k : ℕ) → count_down running (pos (suc (suc k))) ≡ (pos (suc k), false)
unfolding count_down ◌-ℤ◌
count_down_early running k = ground arith

-- A job whose countdown stands at `k + 1` and that is running whenever the collector wakes up reports at
-- the wake-up number `k + 1` and at none before it, and its countdown starts again at thirty.
pub reports_at_period :
    (k : ℕ) (later : List Bool)
    → reports_at (pos (suc k)) (replicate (suc k) true ++ later)
      ≡ replicate k false ++ true ∷ reports_at (pos 30) later
unfolding reports_at count_down ◌-ℤ◌
reports_at_period zero later = refl
reports_at_period (suc k) later =
    rw (count_down_early true k) (ap (◌∷◌ false) (reports_at_period k later))

count_down_late : (running : Bool) (n : ℕ) → count_down running (negsuc n) ≡ (negsuc (suc n), false)
unfolding count_down ◌-ℤ◌
count_down_late running n = ground arith

reports_at_late : (n : ℕ) (rs : List Bool) → All (λ b. b ≡ false) (reports_at (negsuc n) rs)
unfolding reports_at
reports_at_late n [] = tt
reports_at_late n (r ∷ rs) = rw (count_down_late r n) (refl, reports_at_late (suc n) rs)

reports_at_zero : (rs : List Bool) → All (λ b. b ≡ false) (reports_at (pos 0) rs)
unfolding reports_at count_down ◌-ℤ◌
reports_at_zero [] = tt
reports_at_zero (r ∷ rs) = (refl, reports_at_late 0 rs)

-- A job that is not running at the one wake-up when its countdown ends reports neither then nor before,
-- nor at any later wake-up, whether it runs again or not.
pub reports_at_missed :
    (before later : List Bool)
    → All (λ b. b ≡ false) (reports_at (pos (suc (length before))) (before ++ false ∷ later))
unfolding reports_at count_down ◌-ℤ◌
reports_at_missed [] later = (refl, reports_at_zero later)
reports_at_missed (r ∷ rs) later =
    rw (count_down_early r (length rs)) (refl, reports_at_missed rs later)
