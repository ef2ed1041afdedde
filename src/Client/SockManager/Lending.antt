-- ===== src/Client/SockManager/Lending.antt =====
-- A socket that is handed out stays with its holder until it is given back.
use mathlib.Core.Path.{subst}
use cool_down.Prelude.{
  ℕ, ◌≡◌, ◌≢◌, refl, String, none, some, List, [], ◌∷◌, ◌++◌, true, arith, length, ltb, ◌==◌,
  string_key, Bool-cases, Option-cases, inl, inr, WhenSome, ◌⊎◌, All, All-append, nat_beq_iff,
  nat_key,
}
use cool_down.Prelude.Map.{lookup, insert, lookup-insert, member, beq_refl}
use cool_down.Outcome.{Outcome, done, throw, WhenDone}
use cool_down.Client.SockManager.Lists.{
  SockPtr, SockList, SockStatus, IsLent, IsAbsent, IsDistinct, IsAbsent-IsLent, pointers, take_idle,
  give_back, idle, used, take_idle_lends, same_sock,
}
use cool_down.Client.SockManager.{
  SockManager, open_another, get_from, get_idle_client_sock, return_sock, not_listed, Call, run,
}
use cool_down.Client.SockManager.Holding.{get-Keeps, Holds, IsForeign, Keeps, run-Holds}

-- No connection stands twice in the client's list, and the new one is not among them.
abbrev pub IsFresh : SockPtr → SockList → Type 0
IsFresh fresh l = IsDistinct (pointers l) × WhenSome (λ t. IsAbsent t (pointers l)) fresh

open_another_lends :
    (m : SockManager) (c : String) (s : ℕ) (fresh : SockPtr) (l : SockList)
    → IsFresh fresh l
    → WhenDone (λ r. (r.1 ≢ some s) ⊎ Holds r.0 c s) (open_another m c fresh l)
unfolding open_another
open_another_lends m c s fresh [] d = inl (λ e. cc)
open_another_lends m c s fresh ((none, status) ∷ l) d = tt
open_another_lends m c s none ((some t, status) ∷ l) d = inl (λ e. cc)
open_another_lends m c s (some q) ((some t, status) ∷ l) d = elim (Bool-cases (q == s)) [
  | inr e ↦ inl (ground (arith, nat_beq_iff q s))
  | inl e ↦
      let l' = (some t, status) ∷ l in
      let same : q ≡ s = (nat_beq_iff q s).0 e in
      let absent : IsLent s l' =
        IsAbsent-IsLent s l' (subst (λ k. IsAbsent k (pointers l')) same d.1) in
      inr (
        rw (lookup-insert c c (l' ++ (some q, used) ∷ []) m.client_socks, beq_refl c)
          (All-append _ l' ((some q, used) ∷ []) absent (inr refl, tt)))
]

get_from_lends :
    (m : SockManager) (c : String) (s : ℕ) (fresh : SockPtr) (l : SockList)
    → IsFresh fresh l
    → WhenDone (λ r. (r.1 ≢ some s) ⊎ Holds r.0 c s) (get_from m c fresh l)
unfolding get_from
get_from_lends m c s fresh l d = elim (Option-cases (take_idle l)) [
  | inl e ↦ elim (Bool-cases (ltb 10 (length l))) [
    | inl over ↦ rw (e, over, get_from) (inl (λ n. cc))
    | inr room ↦ rw (e, room, get_from) (open_another_lends m c s fresh l d)
  ]
  | inr (x, e) ↦
      let k : (x.0 ≢ some s) ⊎ IsLent s x.1 = rw e at (take_idle_lends s l d.0) in
      rw (e, get_from) (rw (lookup-insert c c x.1 m.client_socks, beq_refl c) k)
]

get_lends :
    (m : SockManager) (c : String) (s : ℕ) (fresh : SockPtr)
    → WhenSome (IsFresh fresh) (lookup c m.client_socks)
    → WhenDone (λ r. (r.1 ≢ some s) ⊎ Holds r.0 c s) (get_idle_client_sock m c fresh)
unfolding get_idle_client_sock
get_lends m c s fresh d = elim (Option-cases (lookup c m.client_socks)) [
  | inl e ↦ rw (e, get_idle_client_sock) (inl (λ n. cc))
  | inr (l, e) ↦ rw (e, get_idle_client_sock) (get_from_lends m c s fresh l (rw e at d))
]

-- `get_idle_client_sock` hands the socket `s` of the client `c` out, from a list in which no connection
-- stands twice and to which the new connection, if one is made, does not belong. Then any calls follow
-- that neither give `s` back nor bring a connection with its identity. A further
-- `get_idle_client_sock` for `c` does not hand out `s`.
pub get_exclusive :
    (m m1 m2 : SockManager) (c : String) (s : ℕ) (fresh later : SockPtr) (ks : List Call)
    → WhenSome (IsFresh fresh) (lookup c m.client_socks)
    → get_idle_client_sock m c fresh ≡ done (m1, some s)
    → All (IsForeign s) ks
    → run m1 ks ≡ done m2
    → later ≢ some s
    → WhenDone (λ r. r.1 ≢ some s) (get_idle_client_sock m2 c later)
get_exclusive m m1 m2 c s fresh later ks d got f ran ne =
    other (get_idle_client_sock m2 c later) (get-Keeps c c s later ne m2 held_then)
  where
    held : Holds m1 c s
    held = lent (rw got at (get_lends m c s fresh d))
      where
        lent : (some s ≢ some s) ⊎ Holds m1 c s → Holds m1 c s
        lent (inl n) = absurd (n refl)
        lent (inr h) = h

    held_then : Holds m2 c s
    held_then = rw ran at (run-Holds m1 c s ks f held)

    other :
        (o : Outcome (SockManager × SockPtr))
        → WhenDone (Keeps c c s) o
        → WhenDone (λ r. r.1 ≢ some s) o
    other (done r) k = k.1 refl
    other (throw e) k = tt

give_back-idle :
    (s : SockPtr) (l : SockList)
    → WhenSome (λ r. (x : SockPtr × SockList) × (take_idle r ≡ some x)) (give_back s l)
unfolding give_back take_idle
give_back-idle s [] = tt
give_back-idle s ((t, status) ∷ l) = elim (Bool-cases (same_sock t s)) [
  | inl e ↦ rw (e, give_back) ((t, (t, used) ∷ l), refl)
  | inr e ↦ elim (Option-cases (give_back s l)) [
    | inl n ↦ rw (e, n, give_back) tt
    | inr (r, n) ↦
        let x : (x : SockPtr × SockList) × (take_idle r ≡ some x) = rw n at (give_back-idle s l) in
        rw (e, n, give_back) (behind t status r x.0 x.1)
  ]
]
  where
    behind :
        (t : SockPtr) (status : SockStatus) (r : SockList) (x : SockPtr × SockList)
        → take_idle r ≡ some x
        → (y : SockPtr × SockList) × (take_idle ((t, status) ∷ r) ≡ some y)
    behind t idle r x h = ((t, (t, used) ∷ r), refl)
    behind t used r x h = ((x.0, (t, used) ∷ x.1), ground arith)

get_from_reuses :
    (m : SockManager) (c : String) (f : SockPtr) (l : SockList) (x : SockPtr × SockList)
    → lookup c m.client_socks ≡ some l
    → take_idle l ≡ some x
    → get_idle_client_sock m c f
      ≡ done (record m { client_socks = insert c x.1 m.client_socks }, x.0)
unfolding get_idle_client_sock get_from
get_from_reuses m c f l x e h = rw (e, h, get_idle_client_sock, get_from)

not_listed-signals : (m m1 : SockManager) (s : SockPtr) → not_listed m s ≡ done (m1, true) → ⊥
not_listed-signals m m1 none h = cc
not_listed-signals m m1 (some t) h = cc

-- When `return_sock` has found the socket and signalled the client's condition, the next
-- `get_idle_client_sock` for the client returns, with a result that does not depend on what a new
-- connection would be: it opens none.
return_sock_reuses :
    (m m1 : SockManager) (c : String) (s : SockPtr)
    → return_sock m c s ≡ done (m1, true)
    → (r : SockManager × SockPtr) × ((g : SockPtr) → get_idle_client_sock m1 c g ≡ done r)
unfolding return_sock
return_sock_reuses m m1 c s h = elim (Option-cases (lookup c m.client_socks)) [
  | inl e ↦ cc (rw (e, return_sock) at h)
  | inr (l, e) ↦ elim (Option-cases (give_back s l)) [
    | inl n ↦ absurd (not_listed-signals m m1 s (rw (e, n, return_sock) at h))
    | inr (r, n) ↦ elim (Bool-cases (member c m.conditions)) [
      | inr w ↦ cc (rw (e, n, w, return_sock) at h)
      | inl w ↦
          let idle_there : (x : SockPtr × SockList) × (take_idle r ≡ some x) =
            rw n at (give_back-idle s l) in
          let found : lookup c m1.client_socks ≡ some r =
            ground (arith, lookup-insert c c r m.client_socks, beq_refl c) in
          (
            (record m1 { client_socks = insert c idle_there.0.1 m1.client_socks }, idle_there.0.0),
            λ g. get_from_reuses m1 c g r idle_there.0 found idle_there.1,
          )
    ]
  ]
]
