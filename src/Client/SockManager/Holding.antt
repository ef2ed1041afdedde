-- ===== src/Client/SockManager/Holding.antt =====
-- A socket that is in use stays so until it is given back.
use mathlib.Core.Path.{subst⁻¹}
use cool_down.Prelude.{
  ℕ, ◌≡◌, ◌≢◌, sym, String, Option, none, some, List, [], ◌∷◌, ◌++◌, Bool, arith, length, ltb, ◌==◌,
  string_key, Bool-cases, Option-cases, inl, inr, WhenSome, All, All-append, nat_key,
}
use cool_down.Prelude.Map.{lookup, insert, lookup-insert, member}
use cool_down.Outcome.{Outcome, done, throw, WhenDone, ◌>>=◌}
use cool_down.Client.SockManager.Lists.{
  SockPtr, SockList, IsLent, take_idle, give_back, idle, used, take_idle-IsLent, give_back-IsLent,
}
use cool_down.Client.SockManager.{
  SockManager, over_limit, or_empty, connect_client, open_another, get_from, get_idle_client_sock,
  return_sock, not_listed, Call, connect, get, give, step, run,
}

-- Wherever the socket stands in the client's list, it is in use.
abbrev pub Holds : SockManager → String → ℕ → Type 0
Holds m c s = WhenSome (IsLent s) (lookup c m.client_socks)

-- The call does not give the socket back, and brings no new connection under its identity.
abbrev pub IsForeign : ℕ → Call → Type 0
IsForeign s (connect c p) = p ≢ some s
IsForeign s (get c p) = p ≢ some s
IsForeign s (give c p) = p ≢ some s

pub write-Holds :
    (m : SockManager) (c j : String) (s : ℕ) (l : SockList)
    → Holds m c s
    → ((j ≡ c) → IsLent s l)
    → WhenSome (IsLent s) (lookup c (insert j l m.client_socks))
write-Holds m c j s l h k = rw (lookup-insert j c l m.client_socks) (elim (Bool-cases (c == j)) [
  | inl e ↦ rw e (k (sym ((string_key.beq_iff c j).0 e)))
  | inr e ↦ rw e h
])

-- After a call of `get` for the client `j`: the socket stays with its holder, and if it is the same
-- client that asks, it gets another one.
abbrev pub Keeps : String → String → ℕ → SockManager × SockPtr → Type 0
Keeps c j s r = Holds r.0 c s × ((j ≡ c) → r.1 ≢ some s)

module _ (c j : String) (s : ℕ) (fresh : SockPtr) (ne : fresh ≢ some s) where
  open_another-Keeps :
      (m : SockManager) (l : SockList)
      → Holds m c s
      → ((j ≡ c) → IsLent s l)
      → WhenDone (Keeps c j s) (open_another m j fresh l)
  unfolding open_another
  open_another-Keeps m [] h g = (h, λ _ e. cc)
  open_another-Keeps m ((none, status) ∷ l) h g = tt
  open_another-Keeps m ((some t, status) ∷ l) h g =
      let l' = (some t, status) ∷ l in
      (
        write-Holds m c j s (l' ++ (fresh, used) ∷ []) h
            (λ e. All-append _ l' ((fresh, used) ∷ []) (g e) (inl ne, tt)),
        λ _. ne,
      )

  taken-Keeps :
      (m : SockManager) (l : SockList) (x : SockPtr × SockList)
      → Holds m c s
      → ((j ≡ c) → (x.0 ≢ some s) × IsLent s x.1)
      → Keeps c j s (record m { client_socks = insert j x.1 m.client_socks }, x.0)
  taken-Keeps m l x h k = (write-Holds m c j s x.1 h (λ e. (k e).1), λ e. (k e).0)

  get_from-Keeps :
      (m : SockManager) (l : SockList)
      → Holds m c s
      → ((j ≡ c) → IsLent s l)
      → WhenDone (Keeps c j s) (get_from m j fresh l)
  unfolding get_from
  get_from-Keeps m l h g = elim (Option-cases (take_idle l)) [
    | inl e ↦ elim (Bool-cases (ltb 10 (length l))) [
      | inl over ↦ rw (e, over, get_from) (h, λ _ n. cc)
      | inr room ↦ rw (e, room, get_from) (open_another-Keeps m l h g)
    ]
    | inr (x, e) ↦
        rw (e, get_from) (taken-Keeps m l x h (λ q. rw e at (take_idle-IsLent s l (g q))))
  ]

  pub get-Keeps :
      (m : SockManager) → Holds m c s → WhenDone (Keeps c j s) (get_idle_client_sock m j fresh)
  unfolding get_idle_client_sock
  get-Keeps m h = elim (Option-cases (lookup j m.client_socks)) [
    | inl e ↦ rw (e, get_idle_client_sock) (h, λ _ n. cc)
    | inr (l, e) ↦
        rw (e, get_idle_client_sock)
          (get_from-Keeps m l h (λ q. rw e at (subst⁻¹ (λ k. Holds m k s) q h)))
  ]

connect-Holds :
    (m : SockManager) (c j : String) (s : ℕ) (p : SockPtr)
    → p ≢ some s
    → Holds m c s
    → Holds (connect_client m j p).0 c s
unfolding connect_client or_empty
connect-Holds m c j s none ne h = ground arith
connect-Holds m c j s (some t) ne h = elim (Bool-cases (over_limit (lookup j m.client_socks))) [
  | inl e ↦ rw (e, connect_client) h
  | inr e ↦
      rw (e, connect_client)
        (write-Holds m c j s _ h
          (λ q. extended (lookup j m.client_socks) (subst⁻¹ (λ k. Holds m k s) q h)))
]
  where
    extended :
        (o : Option SockList) → WhenSome (IsLent s) o → IsLent s (or_empty o ++ (some t, idle) ∷ [])
    extended none g = (inl ne, tt)
    extended (some l) g = All-append _ l ((some t, idle) ∷ []) g (inl ne, tt)

not_listed-Holds :
    (m : SockManager) (c : String) (s : ℕ) (p : SockPtr)
    → Holds m c s
    → WhenDone (λ r. Holds r.0 c s) (not_listed m p)
not_listed-Holds m c s none h = tt
not_listed-Holds m c s (some t) h = h

give-Holds :
    (m : SockManager) (c j : String) (s : ℕ) (p : SockPtr)
    → p ≢ some s
    → Holds m c s
    → WhenDone (λ r. Holds r.0 c s) (return_sock m j p)
unfolding return_sock
give-Holds m c j s p ne h = elim (Option-cases (lookup j m.client_socks)) [
  | inl e ↦ rw (e, return_sock) h
  | inr (l, e) ↦ elim (Option-cases (give_back p l)) [
    | inl n ↦ rw (e, n, return_sock) (not_listed-Holds m c s p h)
    | inr (r, n) ↦ elim (Bool-cases (member j m.conditions)) [
      | inl w ↦
          rw (e, n, w, return_sock)
            (write-Holds m c j s r h
              (λ q. rw n at (give_back-IsLent s p l ne (rw e at (subst⁻¹ (λ k. Holds m k s) q h)))))
      | inr w ↦ rw (e, n, w, return_sock) tt
    ]
  ]
]

-- Each call that concerns other sockets leaves the socket with its holder.
step-Holds :
    (m : SockManager) (c : String) (s : ℕ) (k : Call)
    → IsForeign s k
    → Holds m c s
    → WhenDone {A = SockManager × SockPtr} (λ r. Holds r.0 c s) (step m k)
unfolding step
step-Holds m c s (connect j p) ne h = connect-Holds m c j s p ne h
step-Holds m c s (get j p) ne h = kept (get_idle_client_sock m j p) (get-Keeps c j s p ne m h)
  where
    kept :
        (o : Outcome (SockManager × SockPtr))
        → WhenDone (Keeps c j s) o
        → WhenDone {A = SockManager × SockPtr} (λ r. Holds r.0 c s) o
    kept (done r) g = g.0
    kept (throw f) g = tt
step-Holds m c s (give j p) ne h = given (return_sock m j p) (give-Holds m c j s p ne h)
  where
    given :
        (o : Outcome (SockManager × Bool))
        → WhenDone {A = SockManager × Bool} (λ r. Holds r.0 c s) o
        → WhenDone {A = SockManager × SockPtr} (λ r. Holds r.0 c s) (o >>= λ r. done (r.0, none))
    given (done r) g = g
    given (throw f) g = tt

pub run-Holds :
    (m : SockManager) (c : String) (s : ℕ) (ks : List Call)
    → All (IsForeign s) ks
    → Holds m c s
    → WhenDone (λ m'. Holds m' c s) (run m ks)
unfolding run
run-Holds m c s [] f h = h
run-Holds m c s (k ∷ ks) f h =
    go (step m k) (step-Holds m c s k f.0 h) (λ m'. run-Holds m' c s ks f.1)
  where
    go :
        (o : Outcome (SockManager × SockPtr))
        → WhenDone {A = SockManager × SockPtr} (λ r. Holds r.0 c s) o
        → ((m' : SockManager) → Holds m' c s → WhenDone (λ m'. Holds m' c s) (run m' ks))
        → WhenDone (λ m'. Holds m' c s) (o >>= λ r. run r.0 ks)
    go (done r) g next = next r.0 g
    go (throw e) g next = tt
