-- ===== src/Outcome.antt =====
-- How a call ends: with a value, or by leaving the function through an exception. `poco_assert` and a
-- null `Poco::SharedPtr` raise Poco exceptions; `undefined` marks a call that C++ gives no meaning.
use cool_down.Prelude.{◌≡◌, refl, ap, ◌⊎◌, inl, inr, Bool, true, false, Option, none, some}

pub data Fault : Type 0 where
  assertion null_pointer undefined exception : Fault

pub data Outcome {ℓ} (A : Type ℓ) : Type ℓ where
  done : A → Outcome A
  throw : Fault → Outcome A

infixl 5 ◌>>=◌ ◌>>◌
abbrev pub ◌>>=◌ {ℓ κ} : {A : Type ℓ} {B : Type κ} → Outcome A → (A → Outcome B) → Outcome B
done a >>= f = f a
throw e >>= f = throw e

abbrev pub ◌>>◌ {ℓ} : {B : Type ℓ} → Outcome (Unit {0}) → Outcome B → Outcome B
m >> k = m >>= λ _. k

-- `poco_assert(b)`
abbrev pub assert : Bool → Outcome (Unit {0})
assert true = done tt
assert false = throw assertion

abbrev pub or_throw {ℓ} : {A : Type ℓ} → Fault → Option A → Outcome A
or_throw e none = throw e
or_throw e (some a) = done a

pub >>=-eq-done {ℓ κ} :
    {A : Type ℓ} {B : Type κ} (m : Outcome A) (f : A → Outcome B) {b : B}
    → (m >>= f) ≡ done b
    → (a : A) × (m ≡ done a) × (f a ≡ done b)
>>=-eq-done (done a) f h = (a, refl, h)
>>=-eq-done (throw e) f h = cc

-- The call returns, and its value has the property.
abbrev pub Returns {ℓ} : {A : Type ℓ} → (A → Type 0) → Outcome A → Type 0
Returns P (done a) = P a
Returns P (throw e) = ⊥

-- If the call returns, its value has the property.
abbrev pub WhenDone {ℓ κ} : {A : Type ℓ} → (A → Type κ) → Outcome A → Type κ
WhenDone P (done a) = P a
WhenDone P (throw e) = Unit

-- A chain of calls, each of which returns.
pub Returns-bind {ℓ κ} :
    {A : Type ℓ} {B : Type κ} {P : A → Type 0} (Q : B → Type 0) (m : Outcome A) (f : A → Outcome B)
    → Returns P m
    → ((a : A) → P a → Returns Q (f a))
    → Returns Q (m >>= f)
Returns-bind Q (done a) f h k = k a h
Returns-bind Q (throw e) f h k = h

pub WhenDone-bind {ℓ κ} :
    {A : Type ℓ} {B : Type κ} {P : A → Type 0} (Q : B → Type 0) (m : Outcome A) (f : A → Outcome B)
    → WhenDone P m
    → ((a : A) → P a → WhenDone Q (f a))
    → WhenDone Q (m >>= f)
WhenDone-bind Q (done a) f h k = k a h
WhenDone-bind Q (throw e) f h k = tt

-- What holds of each value that the second call is given.
pub WhenDone-then {ℓ κ} :
    {A : Type ℓ} {B : Type κ} (Q : B → Type 0) (m : Outcome A) (f : A → Outcome B)
    → ((a : A) → WhenDone Q (f a))
    → WhenDone Q (m >>= f)
WhenDone-then Q (done a) f k = k a
WhenDone-then Q (throw e) f k = tt

pub WhenDone-map {ℓ} :
    {A : Type ℓ} {P Q : A → Type 0}
    → ((a : A) → P a → Q a)
    → (m : Outcome A) → WhenDone P m
    → WhenDone Q m
WhenDone-map f (done a) h = f a h
WhenDone-map f (throw e) h = tt

abbrev value_or {ℓ} : {A : Type ℓ} → A → Outcome A → A
value_or d (done x) = x
value_or d (throw e) = d

pub done-injective {ℓ} : {A : Type ℓ} {a b : A} → done a ≡ done b → a ≡ b
done-injective {a = a} h = ap (value_or a) h

pub Returns-map {ℓ} :
    {A : Type ℓ} {P Q : A → Type 0}
    → ((a : A) → P a → Q a)
    → (m : Outcome A) → Returns P m
    → Returns Q m
Returns-map f (done a) h = f a h
Returns-map f (throw e) h = h

pub Outcome-cases {ℓ} :
    {A : Type ℓ} (m : Outcome A) → ((a : A) × (m ≡ done a)) ⊎ ((e : Fault) × (m ≡ throw e))
Outcome-cases (done a) = inl (a, refl)
Outcome-cases (throw e) = inr (e, refl)
