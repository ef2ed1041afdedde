-- ===== src/Client/SockManager/Lists.antt =====
-- The list of one client's sockets: `SockList` and the searches by `IdleSockSelector` and `FindSock`.
use cool_down.Prelude.{
  ℕ, Option, none, some, List, [], ◌∷◌, Bool, true, false, ◌==◌, if◌then◌else◌, nat_key, ◌≡◌, refl,
  ◌++◌, arith, ◌≢◌, ◌≤◌, length, length-append, ap, suc, nat_beq_iff, Bool-cases, WhenSome, inl,
  inr, ◌⊎◌, All,
}

abbrev pub SockPtr : Type 0
SockPtr = Option ℕ

pub data SockStatus : Type 0 where
  idle used : SockStatus

abbrev pub SockList : Type 0
SockList = List (SockPtr × SockStatus)

-- The equality of two pointers.
unfoldable pub same_sock : SockPtr → SockPtr → Bool
same_sock none none = true
same_sock none (some t) = false
same_sock (some s) none = false
same_sock (some s) (some t) = s == t

-- The first idle socket, and the list with that socket in use.
unfoldable pub take_idle : SockList → Option (SockPtr × SockList)
take_idle [] = none
take_idle ((s, idle) ∷ l) = some (s, (s, used) ∷ l)
take_idle ((s, used) ∷ l) = elim (take_idle l) [
  | none ↦ none
  | some (t, rest) ↦ some (t, (s, used) ∷ rest)
]

-- The list with the given socket idle, if it is there.
unfoldable pub give_back : SockPtr → SockList → Option SockList
unfolding same_sock
give_back s [] = none
give_back s ((t, status) ∷ l) =
    let rest = give_back s l in
    if same_sock t s
    then some ((t, idle) ∷ l)
    else elim rest [ none ↦ none | some l' ↦ some ((t, status) ∷ l') ]

abbrev pub pointers : SockList → List SockPtr
pointers [] = []
pointers ((s, _) ∷ l) = s ∷ pointers l

-- A list that `connect_client` began and that has at most one socket above the limit.
abbrev pub IsGood : List SockPtr → Type 0
IsGood [] = ⊥
IsGood (none ∷ ps) = ⊥
IsGood (some s ∷ ps) = length ps ≤ 10

abbrev pub IsAbsent : ℕ → List SockPtr → Type 0
IsAbsent s = All λ p. p ≢ some s

-- No socket stands twice in the list; null pointers may.
abbrev pub IsDistinct : List SockPtr → Type 0
IsDistinct [] = Unit
IsDistinct (none ∷ ps) = IsDistinct ps
IsDistinct (some s ∷ ps) = IsAbsent s ps × IsDistinct ps

-- Every entry of the socket is in use.
abbrev pub IsLent : ℕ → SockList → Type 0
IsLent s = All λ e. (e.0 ≢ some s) ⊎ (e.1 ≡ used)

pub same_sock_iff : (p q : SockPtr) → (same_sock p q ≡ true) → p ≡ q
unfolding same_sock
same_sock_iff none none h = refl
same_sock_iff none (some t) h = cc
same_sock_iff (some s) none h = cc
same_sock_iff (some s) (some t) h = ground (arith, nat_beq_iff s t)

pub pointers-take_idle : (l : SockList) → WhenSome (λ x. pointers x.1 ≡ pointers l) (take_idle l)
unfolding take_idle
pointers-take_idle [] = tt
pointers-take_idle ((s, idle) ∷ l) = refl
pointers-take_idle ((s, used) ∷ l) = ground (arith, pointers-take_idle l)

pub pointers-give_back :
    (s : SockPtr) (l : SockList) → WhenSome (λ r. pointers r ≡ pointers l) (give_back s l)
unfolding give_back
pointers-give_back s [] = tt
pointers-give_back s ((t, status) ∷ l) = ground (arith, pointers-give_back s l)

-- A socket in use is not taken, and stays in use.
pub take_idle-IsLent :
    (s : ℕ) (l : SockList)
    → IsLent s l
    → WhenSome (λ x. (x.0 ≢ some s) × IsLent s x.1) (take_idle l)
unfolding take_idle
take_idle-IsLent s [] lent = tt
take_idle-IsLent s ((t, idle) ∷ l) lent = ground arith
take_idle-IsLent s ((t, used) ∷ l) lent = ground (arith, take_idle-IsLent s l lent.1)

pub IsAbsent-IsLent : (s : ℕ) (l : SockList) → IsAbsent s (pointers l) → IsLent s l
IsAbsent-IsLent s [] a = tt
IsAbsent-IsLent s ((t, status) ∷ l) a = (inl a.0, IsAbsent-IsLent s l a.1)

-- A socket that is taken is in use wherever it stands.
pub take_idle_lends :
    (s : ℕ) (l : SockList)
    → IsDistinct (pointers l)
    → WhenSome (λ x. (x.0 ≢ some s) ⊎ IsLent s x.1) (take_idle l)
unfolding take_idle
take_idle_lends s [] d = tt
take_idle_lends s ((none, idle) ∷ l) d = ground arith
take_idle_lends s ((some t, idle) ∷ l) d = elim (Bool-cases (t == s)) [
  | inl e ↦ let same = (nat_beq_iff t s).0 e in inr (inr refl, IsAbsent-IsLent s l (rw same at d.0))
  | inr e ↦ inl (ground (arith, nat_beq_iff t s))
]
take_idle_lends s ((none, used) ∷ l) d = ground (arith, take_idle_lends s l d)
take_idle_lends s ((some t, used) ∷ l) d = ground (arith, take_idle_lends s l d.1)

pub give_back-IsLent :
    (s : ℕ) (p : SockPtr) (l : SockList)
    → p ≢ some s
    → IsLent s l
    → WhenSome (IsLent s) (give_back p l)
unfolding give_back
give_back-IsLent s p [] ne lent = tt
give_back-IsLent s p ((t, status) ∷ l) ne lent =
    ground (arith, give_back-IsLent s p l ne lent.1, same_sock_iff t p)

pub pointers-append :
    (l : SockList) (p : SockPtr) (status : SockStatus)
    → pointers (l ++ (p, status) ∷ []) ≡ pointers l ++ p ∷ []
pointers-append [] p status = refl
pointers-append (e ∷ l) p status = ap (◌∷◌ e.0) (pointers-append l p status)

pub length-pointers : (l : SockList) → length (pointers l) ≡ length l
length-pointers [] = refl
length-pointers (e ∷ l) = ap suc (length-pointers l)

pub IsGood-append :
    (ps : List SockPtr) (p : SockPtr) → IsGood ps → length ps ≤ 10 → IsGood (ps ++ p ∷ [])
IsGood-append [] p g h = absurd g
IsGood-append (none ∷ ps) p g h = absurd g
IsGood-append (some s ∷ ps) p g h = omega (arith, length-append {0} ps (p ∷ []))
