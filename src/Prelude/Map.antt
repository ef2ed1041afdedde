-- ===== src/Prelude/Map.antt =====
-- `std::map` and `std::set`: an association list in the order of iteration.
use mathlib.Core.Path.{◌≡◌, refl}
use mathlib.Core.List.{List, [], ◌∷◌}
use mathlib.Core.Bool.{Bool, true, false, ◌||◌}
use mathlib.Core.Option.{Option, none, some}
use native.Mathlib.Omega.{arith}
use cool_down.Prelude.Tests.{Key, ◌==◌, if◌then◌else◌}

abbrev pub Map {ℓ κ} : Type ℓ → Type κ → Type (ℓ ⊔ κ)
Map K V = List (K × V)

module _ {ℓ κ} {K : Type ℓ} {V : Type κ} ⦃o : Key K⦄ where
  -- `m.find(k)`, with `none` for `m.end()`
  unfoldable pub lookup : K → Map K V → Option V
  lookup k [] = none
  lookup k ((j, v) ∷ m) = if k == j then some v else lookup k m

  -- `m[k] = v`
  unfoldable pub insert : K → V → Map K V → Map K V
  insert k v [] = (k, v) ∷ []
  insert k v ((j, w) ∷ m) =
      if k == j
      then (k, v) ∷ m
      else if o.before k j
      then (k, v) ∷ (j, w) ∷ m
      else (j, w) ∷ insert k v m

  -- `m.erase(k)`
  unfoldable pub erase : K → Map K V → Map K V
  erase k [] = []
  erase k ((j, w) ∷ m) = if k == j then erase k m else (j, w) ∷ erase k m

  -- `m[k]` as a value, where a missing key reads as the value `d` that the map would create
  unfoldable pub get_or : K → V → Map K V → V
  unfolding lookup
  get_or k d m = elim (lookup k m) [ none ↦ d | some v ↦ v ]

  unfoldable pub contains : K → Map K V → Bool
  unfolding lookup
  contains k m = elim (lookup k m) [ none ↦ false | some _ ↦ true ]

  pub lookup-insert :
      (k j : K) (v : V) (m : Map K V)
      → lookup j (insert k v m) ≡ (if j == k then some v else lookup j m)
  unfolding lookup insert
  lookup-insert k j v [] = refl
  lookup-insert k j v ((i, w) ∷ m) =
      ground
        (arith, o.beq_iff k j, o.beq_iff j k, o.beq_iff j i, o.beq_iff k i, lookup-insert k j v m)

  pub lookup-erase :
      (k j : K) (m : Map K V) → lookup j (erase k m) ≡ (if j == k then none else lookup j m)
  unfolding lookup erase
  lookup-erase k j [] = ground arith
  lookup-erase k j ((i, w) ∷ m) =
      ground (arith, o.beq_iff k j, o.beq_iff j k, o.beq_iff j i, o.beq_iff k i, lookup-erase k j m)

  pub get_or-lookup : (k : K) (d v : V) (m : Map K V) → lookup k m ≡ some v → get_or k d m ≡ v
  unfolding get_or
  get_or-lookup k d v m e = rw (e, get_or) refl

  pub get_or-insert :
      (k j : K) (d v : V) (m : Map K V)
      → get_or j d (insert k v m) ≡ (if j == k then v else get_or j d m)
  unfolding get_or
  get_or-insert k j d v m = ground (arith, lookup-insert k j v m)

module _ {ℓ} {K : Type ℓ} ⦃o : Key K⦄ where
  pub beq_refl : (k : K) → (k == k) ≡ true
  beq_refl k = (o.beq_iff k k).1 refl

  unfoldable pub member : K → List K → Bool
  member k [] = false
  member k (j ∷ ks) = k == j || member k ks

  -- The place of a new key in the order of iteration.
  abbrev pub place : K → List K → List K
  place k [] = k ∷ []
  place k (j ∷ ks) = if o.before k j then k ∷ j ∷ ks else j ∷ place k ks

  -- `std::set::insert`
  unfoldable pub add : K → List K → List K
  unfolding member
  add k ks = if member k ks then ks else place k ks

  member-place : (k j : K) (ks : List K) → member j (place k ks) ≡ (j == k || member j ks)
  unfolding member
  member-place k j [] = refl
  member-place k j (i ∷ ks) = ground (arith, member-place k j ks)

  member_key : (k j : K) (ks : List K) → j ≡ k → member k ks ≡ true → member j ks ≡ true
  member_key k j ks e h = rw e h

  pub member-add : (k j : K) (ks : List K) → member j (add k ks) ≡ (j == k || member j ks)
  unfolding add
  member-add k j ks = ground (arith, member-place k j ks, o.beq_iff j k, member_key k j ks)

  -- No key stands twice.
  abbrev pub NoRepeat : List K → Type 0
  NoRepeat [] = Unit
  NoRepeat (k ∷ ks) = (member k ks ≡ false) × NoRepeat ks

  NoRepeat-place : (k : K) (ks : List K) → member k ks ≡ false → NoRepeat ks → NoRepeat (place k ks)
  unfolding member
  NoRepeat-place k [] h d = (refl, tt)
  NoRepeat-place k (j ∷ ks) h d =
      ground (arith, NoRepeat-place k ks, member-place k j ks, o.beq_iff j k, o.beq_iff k j)

  pub NoRepeat-add : (k : K) (ks : List K) → NoRepeat ks → NoRepeat (add k ks)
  unfolding add
  NoRepeat-add k ks d = ground (arith, NoRepeat-place k ks)
