-- ===== src/Tracker/Directory/Clauses.antt =====
-- The parts of the clause of a search, for the small database, which answers no other query.
use mathlib.Core.Path.{ap₂}
use cool_down.Prelude.{
  ◌≡◌, refl, sym, ap, ◌∙◌, String, Option, none, some, List, [], ◌∷◌, map, Bool, true, false,
  some-injective,
}
use cool_down.Prelude.Int.{ℤ}
use cool_down.Tracker.Database.{
  SearchType, Condition, file_is, client_is_not, same_client, is_online, compares,
  search_conditions,
}

abbrev file_part : Condition → Option String
file_part (file_is f) = some f
file_part _ = none

abbrev same_part : Condition → Bool
same_part same_client = true
same_part _ = false

abbrev online_part : Condition → Bool
online_part is_online = true
online_part _ = false

abbrev bound_part : Condition → Option (SearchType × ℤ)
bound_part (compares t q) = some (t, q)
bound_part _ = none

abbrev other_part : Condition → Option String
other_part (client_is_not k) = some k
other_part _ = none

abbrev cons_part : Option String → Option (List String) → Option (List String)
cons_part none ks = none
cons_part (some k) none = none
cons_part (some k) (some ks) = some (k ∷ ks)

unfoldable pub excluded : List Condition → Option (List String)
excluded [] = some []
excluded (c ∷ cs) = cons_part (other_part c) (excluded cs)

abbrev pub Parts : Type 0
Parts = SearchType × String × ℤ × List String

abbrev all_parts :
    Option String → Bool → Bool → Option (SearchType × ℤ) → Option (List String) → Option Parts
all_parts none b c d e = none
all_parts (some f) false c d e = none
all_parts (some f) true false d e = none
all_parts (some f) true true none e = none
all_parts (some f) true true (some x) none = none
all_parts (some f) true true (some (t, q)) (some ks) = some (t, f, q, ks)

unfoldable pub clause : List Condition → Option Parts
unfolding excluded
clause [] = none
clause (a ∷ []) = none
clause (a ∷ b ∷ []) = none
clause (a ∷ b ∷ c ∷ []) = none
clause (a ∷ b ∷ c ∷ d ∷ cs) =
    all_parts (file_part a) (same_part b) (online_part c) (bound_part d) (excluded cs)

is_file : (a : Condition) (f : String) → file_part a ≡ some f → a ≡ file_is f
is_file (file_is g) f h = ap file_is (some-injective h)
is_file (client_is_not k) f h = cc
is_file same_client f h = cc
is_file is_online f h = cc
is_file (compares t q) f h = cc

is_same : (a : Condition) → same_part a ≡ true → a ≡ same_client
is_same (file_is g) h = cc
is_same (client_is_not k) h = cc
is_same same_client h = refl
is_same is_online h = cc
is_same (compares t q) h = cc

is_on : (a : Condition) → online_part a ≡ true → a ≡ is_online
is_on (file_is g) h = cc
is_on (client_is_not k) h = cc
is_on same_client h = cc
is_on is_online h = refl
is_on (compares t q) h = cc

is_bound : (a : Condition) (t : SearchType) (q : ℤ) → bound_part a ≡ some (t, q) → a ≡ compares t q
is_bound (file_is g) t q h = cc
is_bound (client_is_not k) t q h = cc
is_bound same_client t q h = cc
is_bound is_online t q h = cc
is_bound (compares u p) t q h = ap (λ (x : SearchType × ℤ). compares x.0 x.1) (some-injective h)

is_other : (a : Condition) (k : String) → other_part a ≡ some k → a ≡ client_is_not k
is_other (file_is g) k h = cc
is_other (client_is_not j) k h = ap client_is_not (some-injective h)
is_other same_client k h = cc
is_other is_online k h = cc
is_other (compares t q) k h = cc

cons_parts :
    (o : Option String) (l : Option (List String)) (ks : List String)
    → cons_part o l ≡ some ks
    → (j : String) × (js : List String) × (o ≡ some j) × (l ≡ some js) × (ks ≡ j ∷ js)
cons_parts none l ks h = cc
cons_parts (some k) none ks h = cc
cons_parts (some k) (some js) ks h = (k, js, refl, refl, sym (some-injective h))

excluded-some :
    (cs : List Condition) (ks : List String) → excluded cs ≡ some ks → cs ≡ map client_is_not ks
unfolding excluded
excluded-some [] ks h = ap (map client_is_not) (some-injective h)
excluded-some (c ∷ cs) ks h =
    let (j, js, one, rest, whole) = cons_parts (other_part c) (excluded cs) ks h in
    ap₂ ◌∷◌ (is_other c j one) (excluded-some cs js rest) ∙ ap (map client_is_not) (sym whole)

parts :
    (a : Option String) (b c : Bool) (d : Option (SearchType × ℤ)) (e : Option (List String))
    (t : SearchType) (f : String) (q : ℤ) (ks : List String)
    → all_parts a b c d e ≡ some (t, f, q, ks)
    → (a ≡ some f) × (b ≡ true) × (c ≡ true) × (d ≡ some (t, q)) × (e ≡ some ks)
parts none b c d e t f q ks h = cc
parts (some g) false c d e t f q ks h = cc
parts (some g) true false d e t f q ks h = cc
parts (some g) true true none e t f q ks h = cc
parts (some g) true true (some x) none t f q ks h = cc
parts (some g) true true (some (u, p)) (some js) t f q ks h =
    let same = some-injective h in
    (
      ap (λ (x : Parts). some x.1) same,
      refl,
      refl,
      ap (λ (x : Parts). some (x.0, x.2)) same,
      ap (λ (x : Parts). some x.3) same,
    )

-- Only the clause of a search has the parts of one.
pub clause-some :
    (cs : List Condition) (t : SearchType) (f : String) (q : ℤ) (ks : List String)
    → clause cs ≡ some (t, f, q, ks)
    → cs ≡ search_conditions t f q ks
unfolding clause search_conditions
clause-some [] t f q ks h = cc
clause-some (a ∷ []) t f q ks h = cc
clause-some (a ∷ b ∷ []) t f q ks h = cc
clause-some (a ∷ b ∷ c ∷ []) t f q ks h = cc
clause-some (a ∷ b ∷ c ∷ d ∷ cs) t f q ks h =
    let (file, same, on, bound, rest) =
      parts (file_part a) (same_part b) (online_part c) (bound_part d) (excluded cs) t f q ks h in
    rw
      (is_file a f file, is_same b same, is_on c on, is_bound d t q bound, excluded-some cs ks rest)
      refl
