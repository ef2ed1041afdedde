-- ===== src/Client/SockManager/Invariant.antt =====
-- What holds of the table of client sockets after any calls.
use cool_down.Prelude.{
  ℕ, ◌≤◌, ◌≡◌, refl, String, Option, none, some, List, [], ◌∷◌, ◌++◌, Bool, true, false, arith,
  length, ltb, ◌==◌, if◌then◌else◌, string_key, Bool-cases, Option-cases, inl, inr, WhenSome, ◌⊎◌,
  All,
}
use cool_down.Prelude.Map.{lookup, insert, member, add, lookup-insert, member-add}
use cool_down.Outcome.{Outcome, done, throw, Returns, ◌>>=◌}
use cool_down.Client.SockManager.Lists.{
  SockPtr, SockList, IsGood, pointers, take_idle, give_back, idle, used, pointers-take_idle,
  pointers-give_back, pointers-append, length-pointers, IsGood-append,
}
use cool_down.Client.SockManager.{
  SockManager, empty, over_limit, or_empty, connect_client, open_another, get_from,
  get_idle_client_sock, return_sock, Call, connect, get, give, step, run,
}

-- A client's list is not empty, begins with a socket that is not null, and has at most eleven entries;
-- the client has a condition variable.
abbrev pub IsListed : SockManager → String → Option SockList → Type 0
IsListed m c = WhenSome λ l. IsGood (pointers l) × (member c m.conditions ≡ true)

pub record IsValid (m : SockManager) : Type 0 where
  pub listed : (c : String) → IsListed m c (lookup c m.client_socks)

pub empty-IsValid : IsValid empty
unfolding lookup
empty-IsValid = record { listed = λ c. tt }

-- To write a good list for a client that has a condition keeps the table valid.
write-IsValid :
    (m : SockManager) (c : String) (l : SockList) (cs : List String)
    → IsValid m
    → IsGood (pointers l)
    → member c cs ≡ true
    → ((j : String) → member j m.conditions ≡ true → member j cs ≡ true)
    → IsValid (record m { client_socks = insert c l m.client_socks; conditions = cs })
write-IsValid m c l cs v g w keep = record {
  listed = λ j. rw (lookup-insert c j l m.client_socks) (elim (Bool-cases (j == c)) [
    | inl e ↦ let same : j ≡ c = (string_key.beq_iff j c).0 e in rw (e, same) (g, w)
    | inr e ↦ rw e (kept j (lookup j m.client_socks) (v.listed j))
  ]);
}
  where
    kept :
        (j : String) (o : Option SockList)
        → IsListed m j o
        → WhenSome (λ k. IsGood (pointers k) × (member j cs ≡ true)) o
    kept j none h = tt
    kept j (some k) h = (h.0, keep j h.1)

-- A list with one socket more is good, when it was empty or within the limit.
extend-IsGood :
    (m : SockManager) (c : String) (o : Option SockList) (s : ℕ)
    → IsListed m c o
    → over_limit o ≡ false
    → IsGood (pointers (or_empty o ++ (some s, idle) ∷ []))
unfolding over_limit or_empty
extend-IsGood m c none s g h = omega arith
extend-IsGood m c (some l) s g h =
    rw (pointers-append l (some s) idle)
      (IsGood-append (pointers l) (some s) g.0 (ground (arith, length-pointers l)))

-- The conditions after `connect_client` has added the client.
member-noted :
    (c j : String) (cs : List String)
    → (member j cs ≡ true) ⊎ (j ≡ c)
    → member j (if member c cs then cs else add c cs) ≡ true
member-noted c j cs h = ground (arith, member-add c j cs, string_key.beq_iff j c)

pub connect_client-IsValid :
    (m : SockManager) (c : String) (fresh : SockPtr)
    → IsValid m
    → IsValid (connect_client m c fresh).0
unfolding connect_client
connect_client-IsValid m c none v = ground arith
connect_client-IsValid m c (some s) v = elim (Bool-cases (over_limit (lookup c m.client_socks))) [
  | inl e ↦ rw (e, connect_client) v
  | inr e ↦
      rw (e, connect_client)
        (write-IsValid m c _ _ v (extend-IsGood m c _ s (v.listed c) e)
          (member-noted c c m.conditions (inr refl)) (λ j h. member-noted c j m.conditions (inl h)))
]

relist-IsValid :
    (m : SockManager) (c : String) (l : SockList)
    → IsValid m
    → IsGood (pointers l)
    → member c m.conditions ≡ true
    → IsValid (record m { client_socks = insert c l m.client_socks })
relist-IsValid m c l v g w = write-IsValid m c l m.conditions v g w (λ j h. h)

open_another-IsValid :
    (m : SockManager) (c : String) (fresh : SockPtr) (l : SockList)
    → IsValid m
    → IsGood (pointers l)
    → length l ≤ 10
    → member c m.conditions ≡ true
    → Returns (λ r. IsValid r.0) (open_another m c fresh l)
unfolding open_another
open_another-IsValid m c fresh [] v g h w = v
open_another-IsValid m c fresh ((none, status) ∷ l) v g h w = g
open_another-IsValid m c fresh ((some s, status) ∷ l) v g h w =
    let l' = (some s, status) ∷ l in
    relist-IsValid m c (l' ++ (fresh, used) ∷ []) v
      (rw (pointers-append l fresh used)
        (IsGood-append (pointers l') fresh g (omega (arith, length-pointers l))))
      w

get_from-IsValid :
    (m : SockManager) (c : String) (fresh : SockPtr) (l : SockList)
    (o : Option (SockPtr × SockList))
    → take_idle l ≡ o
    → IsValid m
    → IsGood (pointers l)
    → member c m.conditions ≡ true
    → Returns (λ r. IsValid r.0) (get_from m c fresh l)
unfolding get_from
get_from-IsValid m c fresh l (some (p, r)) e v g w =
    rw (e, get_from) (relist-IsValid m c r v (rw (same) g) w)
  where
    same : pointers r ≡ pointers l
    same = rw e at (pointers-take_idle l)
get_from-IsValid m c fresh l none e v g w = elim (Bool-cases (ltb 10 (length l))) [
  | inl over ↦ rw (e, over, get_from) v
  | inr room ↦ rw (e, room, get_from) (open_another-IsValid m c fresh l v g (ground arith) w)
]

-- A valid table never makes `get_idle_client_sock` throw, and stays valid.
pub get_idle_client_sock-IsValid :
    (m : SockManager) (c : String) (fresh : SockPtr)
    → IsValid m
    → Returns (λ r. IsValid r.0) (get_idle_client_sock m c fresh)
unfolding get_idle_client_sock
get_idle_client_sock-IsValid m c fresh v = elim (Option-cases (lookup c m.client_socks)) [
  | inl e ↦ rw (e, get_idle_client_sock) v
  | inr (l, e) ↦
      let h : IsListed m c (some l) = rw e at (v.listed c) in
      rw (e, get_idle_client_sock) (get_from-IsValid m c fresh l (take_idle l) refl v h.0 h.1)
]

-- Nor `return_sock` for a socket that is not null: its assertion on the condition holds.
pub return_sock-IsValid :
    (m : SockManager) (c : String) (sock : ℕ)
    → IsValid m
    → Returns (λ r. IsValid r.0) (return_sock m c (some sock))
unfolding return_sock
return_sock-IsValid m c sock v = elim (Option-cases (lookup c m.client_socks)) [
  | inl e ↦ rw (e, return_sock) v
  | inr (l, e) ↦
      let h : IsListed m c (some l) = rw e at (v.listed c) in
      elim (Option-cases (give_back (some sock) l)) [
        | inl n ↦ rw (e, n, return_sock) v
        | inr (r, n) ↦
            let same : pointers r ≡ pointers l = rw n at (pointers-give_back (some sock) l) in
            rw (e, n, h.1, return_sock) (relist-IsValid m c r v (rw same h.0) h.1)
      ]
]

-- A socket that is returned is not null.
abbrev pub GivesSock : Call → Type 0
GivesSock (give c none) = ⊥
GivesSock (give c (some s)) = Unit
GivesSock (get c fresh) = Unit
GivesSock (connect c fresh) = Unit

step-IsValid :
    (m : SockManager) (k : Call) → GivesSock k → IsValid m → Returns (λ r. IsValid r.0) (step m k)
unfolding step
step-IsValid m (connect c fresh) g v = connect_client-IsValid m c fresh v
step-IsValid m (get c fresh) g v = get_idle_client_sock-IsValid m c fresh v
step-IsValid m (give c none) g v = absurd g
step-IsValid m (give c (some sock)) g v =
    given (return_sock m c (some sock)) (return_sock-IsValid m c sock v)
  where
    given :
        (o : Outcome (SockManager × Bool))
        → Returns {A = SockManager × Bool} (λ r. IsValid r.0) o
        → Returns {A = SockManager × SockPtr} (λ r. IsValid r.0) (o >>= λ r. done (r.0, none))
    given (done r) h = h
    given (throw f) h = h

pub run-IsValid :
    (m : SockManager) (ks : List Call) → All GivesSock ks → IsValid m → Returns IsValid (run m ks)
unfolding run
run-IsValid m [] gs v = v
run-IsValid m (k ∷ ks) (g, gs) v = go (step m k) (step-IsValid m k g v) (λ m'. run-IsValid m' ks gs)
  where
    go :
        (o : Outcome (SockManager × SockPtr))
        → Returns (λ r. IsValid r.0) o
        → ((m' : SockManager) → IsValid m' → Returns IsValid (run m' ks))
        → Returns IsValid (o >>= λ r. run r.0 ks)
    go (done r) h next = next r.0 h
    go (throw f) h next = h

-- From the empty manager, any sequence of `connect_client`, `get_idle_client_sock` and `return_sock` in
-- which no null socket is returned runs to its end with no null dereference and no failed assertion; after it every client in the table
-- has between one and eleven sockets, the first of which is not null, and a condition variable.
pub run-empty-IsValid : (ks : List Call) → All GivesSock ks → Returns IsValid (run empty ks)
run-empty-IsValid ks gs = run-IsValid empty ks gs empty-IsValid
