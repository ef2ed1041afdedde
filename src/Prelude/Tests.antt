-- ===== src/Prelude/Tests.antt =====
-- Boolean tests on the native numbers and on texts, the conditional, and the keys of a `std::map`.
use Prim.Native.Nat.{ℕ, ◌≤◌, ◌<◌, compare, Ordering}
use Prim.Native.String.{String, compare as compare_texts}
use mathlib.Core.Path.{◌≡◌, refl}
use mathlib.Core.Logic.{◌↔◌, ◌⊎◌, inl, inr}
use mathlib.Core.Bool.{Bool, true, false}
use mathlib.Core.Option.{Option, none, some}
use native.Mathlib.Omega.{arith}
use text.Mathlib.Text.{◌==◌ as str_eq, is_lt}
use text.Mathlib.TextEquality.{eq_iff}

abbrev pub ltb : ℕ → ℕ → Bool
ltb a b = elim (compare a b) [ Ordering.lt ↦ true | _ ↦ false ]

abbrev pub leb : ℕ → ℕ → Bool
leb a b = elim (compare a b) [ Ordering.gt ↦ false | _ ↦ true ]

abbrev pub nat_beq : ℕ → ℕ → Bool
nat_beq a b = elim (compare a b) [ Ordering.eq ↦ true | _ ↦ false ]

pub nat_beq_iff : (a b : ℕ) → (nat_beq a b ≡ true) ↔ (a ≡ b)
nat_beq_iff a b = ground arith

pub nat_beq_refl : (n : ℕ) → nat_beq n n ≡ true
nat_beq_refl n = ground arith

-- What a `std::map` or `std::set` asks of its keys: equality and the order of iteration.
pub record Key {ℓ} (A : Type ℓ) : Type ℓ where
  pub beq : A → A → Bool
  pub before : A → A → Bool
  pub beq_iff : (k l : A) → (beq k l ≡ true) ↔ (k ≡ l)

infix 50 ◌==◌
abbrev pub ◌==◌ {ℓ} : {A : Type ℓ} ⦃k : Key A⦄ → A → A → Bool
◌==◌ ⦃k⦄ = k.beq

instance abbrev pub nat_key : Key ℕ
nat_key = record { beq = nat_beq; beq_iff = nat_beq_iff; before = ltb }

instance abbrev pub string_key : Key String
string_key = record { beq = str_eq; beq_iff = eq_iff; before = λ s t. is_lt (compare_texts s t) }

infix 1 if◌then◌else◌
abbrev pub if◌then◌else◌ {ℓ} : {A : Type ℓ} → Bool → A → A → A
if true then x else y = x
if false then x else y = y

pub ltb→lt : (a b : ℕ) → ltb a b ≡ true → a < b
ltb→lt a b h = ground arith

pub leb→le : (a b : ℕ) → leb a b ≡ true → a ≤ b
leb→le a b h = ground arith

-- To split on a computed value and keep the equation.
pub Bool-cases : (b : Bool) → (b ≡ true) ⊎ (b ≡ false)
Bool-cases true = inl refl
Bool-cases false = inr refl

pub Option-cases {ℓ} : {A : Type ℓ} (o : Option A) → (o ≡ none) ⊎ ((a : A) × (o ≡ some a))
Option-cases none = inl refl
Option-cases (some a) = inr (a, refl)

-- The property of the value, if there is one.
abbrev pub WhenSome {ℓ κ} : {A : Type ℓ} → (A → Type κ) → Option A → Type κ
WhenSome P none = Unit
WhenSome P (some a) = P a

-- What holds of both branches.
pub if_both {ℓ κ} :
    {A : Type ℓ} (Q : A → Type κ) (test : Bool) {left right : A}
    → Q left
    → Q right
    → Q (if test then left else right)
if_both Q true taken _ = taken
if_both Q false _ other = other
