-- ===== src/Prelude/Elements.antt =====
-- Lists compared element by element.
use Prim.Native.Nat.{ℕ, zero, suc, ◌+◌, ◌-◌, ◌≤◌}
use mathlib.Core.Path.{◌≡◌, refl, ap}
use mathlib.Core.List.{List, [], ◌∷◌, ◌++◌, map}
use mathlib.Core.Option.{none, some}
use native.Mathlib.Omega.{arith}
use cool_down.Prelude.Tests.{ltb, if◌then◌else◌}
use cool_down.Prelude.Lists.{length, take, drop, get_elem?, some-injective}
use mathlib.Core.Path.{ap₂}

module _ {ℓ} {A : Type ℓ} where
  pub get_elem?-append :
      (xs ys : List A) (i : ℕ)
      → get_elem? (xs ++ ys) i
        ≡ (if ltb i (length xs) then get_elem? xs i else get_elem? ys (i - length xs))
  get_elem?-append [] ys i = let e : i - 0 ≡ i = omega arith in rw e (ground arith)
  get_elem?-append (x ∷ xs) ys zero = ground arith
  get_elem?-append (x ∷ xs) ys (suc i) =
      let e : suc i - length (x ∷ xs) ≡ i - length xs = omega arith in
      rw e (ground (arith, get_elem?-append xs ys i))

  pub get_elem?-drop :
      (n : ℕ) (xs : List A) (i : ℕ) → get_elem? (drop n xs) i ≡ get_elem? xs (n + i)
  get_elem?-drop zero xs i = let e : zero + i ≡ i = omega arith in rw e
  get_elem?-drop (suc n) [] i = refl
  get_elem?-drop (suc n) (x ∷ xs) i =
      let e : suc n + i ≡ suc (n + i) = omega arith in rw e (get_elem?-drop n xs i)

  pub get_elem?-take :
      (n : ℕ) (xs : List A) (i : ℕ)
      → get_elem? (take n xs) i ≡ (if ltb i n then get_elem? xs i else none)
  get_elem?-take zero xs i = ground arith
  get_elem?-take (suc n) [] i = ground arith
  get_elem?-take (suc n) (x ∷ xs) zero = ground arith
  get_elem?-take (suc n) (x ∷ xs) (suc i) = ground (arith, get_elem?-take n xs i)

  pub get_elem?-none : (xs : List A) (i : ℕ) → length xs ≤ i → get_elem? xs i ≡ none
  get_elem?-none [] i h = refl
  get_elem?-none (x ∷ xs) zero h = absurd (omega arith)
  get_elem?-none (x ∷ xs) (suc i) h = get_elem?-none xs i (omega arith)

  -- Lists with the same elements at each place are equal.
  pub elements_ext : (xs ys : List A) → ((i : ℕ) → get_elem? xs i ≡ get_elem? ys i) → xs ≡ ys
  elements_ext [] [] h = refl
  elements_ext [] (y ∷ ys) h = let e : none ≡ some y = h 0 in cc
  elements_ext (x ∷ xs) [] h = let e : some x ≡ none = h 0 in cc
  elements_ext (x ∷ xs) (y ∷ ys) h =
      ap₂ ◌∷◌ (some-injective (h 0)) (elements_ext xs ys (λ i. h (suc i)))

pub length-map {ℓ κ} :
    {A : Type ℓ} {B : Type κ} (f : A → B) (xs : List A) → length (map f xs) ≡ length xs
length-map f [] = refl
length-map f (x ∷ xs) = ap suc (length-map f xs)
