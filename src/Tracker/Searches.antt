-- ===== src/Tracker/Searches.antt =====
-- What the searches give, down to the reply of the tracker.
use cool_down.Prelude.{
  ℕ, suc, ◌+◌, ◌≤◌, ◌≡◌, refl, ap, ◌∙◌, String, List, [], ◌∷◌, ◌++◌, true, false, map, length, All,
  All-append, length-append, arith, Bool-cases, inl, inr, string_key, ◌==◌, ◌⊎◌,
}
use cool_down.Prelude.Int.{ℤ, pos, negsuc, ltb_ℤ, leb_ℤ, ◌-ℤ◌}
use cool_down.Prelude.Map.{member}
use cool_down.ErrorCode.{RetCode, is_ok}
use cool_down.Outcome.{Outcome, done, throw, WhenDone, WhenDone-bind}
use cool_down.Messages.{QueryPeer, QueryPeerReply, query_peer}
use cool_down.Tracker.Database.{
  PeerRow, Session, SearchType, greater, less_equal, Owner, owner_in, cursor_rows, to_limit,
  client_is_not, IsPlain, Has, search_conditions, search_conditions-IsSpliced,
  search_percentage_raw,
}
use cool_down.Tracker.Service.{find_clients, find_more, is_invalid}
use cool_down.Tracker.Handler.{Handler, handle_request_peer, peers_reply, peer_info}
use cool_down.Tracker.Rows.{length-cursor_rows, All-cursor_rows}

abbrev Listed : String → List String → Type 0
Listed k [] = ⊥
Listed k (j ∷ ks) = (j ≡ k) ⊎ Listed k ks

-- The owner is none of the others.
abbrev pub IsOther : List String → Owner → Type 0
IsOther others o = member o.row.clientid others ≡ false

owners-IsOther :
    (others : List String) (fileid : String) (rs : List PeerRow)
    → All (λ r. member r.clientid others ≡ false) rs
    → All (IsOther others) (map (owner_in fileid) rs)
owners-IsOther others fileid [] h = tt
owners-IsOther others fileid (r ∷ rs) (p, ps) = (p, owners-IsOther others fileid rs ps)

length-owners :
    (fileid : String) (rs : List PeerRow) → length (map (owner_in fileid) rs) ≡ length rs
length-owners fileid [] = refl
length-owners fileid (r ∷ rs) = ap suc (length-owners fileid rs)

-- At most so many owners, none of the others.
abbrev pub IsFound : List String → ℕ → List Owner → Type 0
IsFound others limit c = (length c ≤ limit) × All (IsOther others) c

limit-sub :
    (need : ℤ) (k : ℕ) → ltb_ℤ (pos k) need ≡ true → k + to_limit (need -ℤ pos k) ≤ to_limit need
unfolding ◌-ℤ◌
limit-sub (pos n) k h = ground arith
limit-sub (negsuc n) k h = ground arith

when_done {ℓ κ} :
    {A : Type ℓ} (P : A → Type κ) (o : Outcome A) → ((a : A) → o ≡ done a → P a) → WhenDone P o
when_done P (done a) f = f a refl
when_done P (throw e) f = tt

WhenDone-mono {ℓ κ μ} :
    {A : Type ℓ} (P : A → Type κ) (Q : A → Type μ) (o : Outcome A)
    → ((a : A) → P a → Q a)
    → WhenDone P o
    → WhenDone Q o
WhenDone-mono P Q (done a) f h = f a h
WhenDone-mono P Q (throw e) f h = tt

-- At most so many peers, none of the others.
abbrev pub IsAnswer : List String → ℕ → QueryPeerReply → Type 0
IsAnswer others limit r =
    (length r.info ≤ limit) × All (λ p. member p.client.client_id others ≡ false) r.info

length-peers : (c : List Owner) → length (map peer_info c) ≡ length c
length-peers [] = refl
length-peers (o ∷ c) = ap suc (length-peers c)

peers-IsOther :
    (others : List String) (c : List Owner)
    → All (IsOther others) c
    → All (λ p. member p.client.client_id others ≡ false) (map peer_info c)
peers-IsOther others [] h = tt
peers-IsOther others (o ∷ c) (p, ps) = (p, peers-IsOther others c ps)

peers_reply-IsAnswer :
    (mysql : Session) (others : List String) (limit : ℕ) (fileid : String)
    (out : Outcome (RetCode × List Owner))
    → WhenDone (λ (found : RetCode × List Owner). IsFound others limit found.1) out
    → IsAnswer others limit (peers_reply mysql fileid out)
peers_reply-IsAnswer mysql others limit fileid (throw e) h = (omega arith, tt)
peers_reply-IsAnswer mysql others limit fileid (done (ret, c)) (small, apart) =
    elim (Bool-cases (is_ok ret)) [
      | inl e ↦ let n = length-peers c in rw e (omega arith, peers-IsOther others c apart)
      | inr e ↦ rw e (omega arith, tt)
    ]

module _ (mysql : Session) where
  open mysql use {Db, select_owners, select_limited, select_excludes}

  -- The clause of the search excludes each of the others.
  rows-others :
      (ks others : List String) (rows : List PeerRow)
      → ((k : String) → Listed k ks → All (λ r. (r.clientid == k) ≡ false) rows)
      → All (λ r. member r.clientid ks ≡ false) rows
  unfolding member
  rows-others ks others [] h = tt
  rows-others ks others (r ∷ rows) h =
      (apart ks (λ k l. (h k l).0), rows-others ks others rows (λ k l. (h k l).1))
    where
      apart :
          (js : List String)
          → ((k : String) → Listed k js → (r.clientid == k) ≡ false)
          → member r.clientid js ≡ false
      apart [] g = refl
      apart (j ∷ js) g = rw (g j (inl refl), apart js (λ k l. g k (inr l))) refl

  in_clause :
      (k : String) (ks : List String) → Listed k ks → Has (client_is_not k) (map client_is_not ks)
  in_clause k [] l = l
  in_clause k (j ∷ ks) (inl e) = inl (ap client_is_not e)
  in_clause k (j ∷ ks) (inr l) = inr (in_clause k ks l)

  selected_others :
      (t : SearchType) (fileid : String) (percentage : ℤ) (others : List String) (limit : ℕ)
      (db : Db) (rows : List PeerRow)
      → IsPlain fileid
      → All IsPlain others
      → select_owners (search_conditions t fileid percentage others) limit db ≡ done rows
      → All (λ r. member r.clientid others ≡ false) rows
  unfolding search_conditions
  selected_others t fileid percentage others limit db rows f ks s =
      rows-others others others rows (λ k l.
        select_excludes (search_conditions t fileid percentage others) limit db rows k
          (search_conditions-IsSpliced t fileid percentage others f ks) (inr (inl refl))
          (inr (inr (inr (inr (in_clause k others l))))) s)

  -- What a search gives, if it does not throw.
  abbrev pub Finds : List String → ℕ → RetCode × List Owner → Type 0
  Finds others limit out = IsFound others limit out.1

  search-Finds :
      (t : SearchType) (fileid : String) (percentage need : ℤ) (others : List String) (db : Db)
      (c : List Owner)
      → IsPlain fileid
      → All IsPlain others
      → All (IsOther others) c
      → WhenDone
          (Finds others (length c + to_limit need))
          (search_percentage_raw mysql t fileid percentage need others db c)
  unfolding search_percentage_raw
  search-Finds t fileid percentage need others db c f ks hc =
      elim (Bool-cases (leb_ℤ need (pos 0))) [
        | inl e ↦ rw (search_percentage_raw, e) (omega arith, hc)
        | inr e ↦
            rw (search_percentage_raw, e)
              (WhenDone-bind (Finds others (length c + to_limit need))
                (select_owners (search_conditions t fileid percentage others) (to_limit need) db)
                (λ (rows : List PeerRow).
                  done (RetCode.ok, c ++ map (owner_in fileid) (cursor_rows rows)))
                (when_done
                  (λ (rows : List PeerRow).
                    (length rows ≤ to_limit need)
                    × All (λ r. member r.clientid others ≡ false) rows)
                  (select_owners (search_conditions t fileid percentage others) (to_limit need) db)
                  (λ rows h. (
                    select_limited (search_conditions t fileid percentage others) (to_limit need) db
                        rows h,
                    selected_others t fileid percentage others (to_limit need) db rows f ks h,
                  )))
                (λ rows (small, apart).
                  let pushed = map (owner_in fileid) (cursor_rows rows) in
                  let n : length (c ++ pushed) ≡ length c + length pushed =
                    length-append c pushed in
                  let k : length pushed ≡ length rows =
                    length-owners fileid (cursor_rows rows) ∙ length-cursor_rows rows in
                  (
                    omega arith,
                    All-append (IsOther others) c pushed hc (
                        owners-IsOther others fileid (cursor_rows rows)
                          (All-cursor_rows (λ r. member r.clientid others ≡ false) rows apart)),
                  )))
      ]

  find_more-Finds :
      (fileid : String) (percentage need : ℤ) (others : List String) (db : Db)
      (found : RetCode × List Owner)
      → IsPlain fileid
      → All IsPlain others
      → Finds others (to_limit need) found
      → WhenDone
          (Finds others (to_limit need))
          (find_more mysql fileid percentage need others db found)
  unfolding find_more
  find_more-Finds fileid percentage need others db (ret, c) p ks (small, apart) =
      elim (Bool-cases (is_ok ret)) [
        | inr e ↦ rw (find_more, e) (small, apart)
        | inl e ↦ elim (Bool-cases (ltb_ℤ (pos (length c)) need)) [
          | inr f ↦ rw (find_more, e, f) (small, apart)
          | inl f ↦ elim (Bool-cases (ltb_ℤ (pos 0) percentage)) [
            | inr g ↦ rw (find_more, e, f, g) (small, apart)
            | inl g ↦
                rw (find_more, e, f, g)
                  (WhenDone-mono _ (Finds others (to_limit need))
                    (search_percentage_raw mysql less_equal fileid percentage
                      (need -ℤ pos (length c)) others db c)
                    (λ out (n, a). let l = limit-sub need (length c) f in (omega arith, a))
                    (search-Finds less_equal fileid percentage (need -ℤ pos (length c)) others db c
                      p ks apart))
          ]
        ]
      ]

  find_clients-Finds :
      (fileid : String) (percentage need : ℤ) (others : List String) (db : Db)
      → IsPlain fileid
      → All IsPlain others
      → WhenDone
          (Finds others (to_limit need))
          (find_clients mysql fileid percentage need others db)
  unfolding find_clients
  find_clients-Finds fileid percentage need others db p ks =
      elim (Bool-cases (is_invalid mysql fileid percentage need)) [
        | inl e ↦ rw (find_clients, e) (omega arith, tt)
        | inr e ↦
            rw (find_clients, e)
              (WhenDone-bind (Finds others (to_limit need))
                (search_percentage_raw mysql greater fileid percentage need others db [])
                (find_more mysql fileid percentage need others db)
                (search-Finds greater fileid percentage need others db [] p ks tt)
                (λ found h.
                  find_more-Finds fileid percentage need others db found p ks
                    (let (n, a) = h in (omega arith, a))))
      ]

  -- The ids of the file, of the client that asks, and of those that it says it has, are without quotes
  -- and backslashes, which the tracker would splice into the search as they are. Then, for any state
  -- of the database, and with exceptions from it, the answer to a request for peers has at most as
  -- many as are needed, and none of these clients.
  pub handle_request_peer-IsAnswer :
      (h : Handler) (q : QueryPeer) (db : Db)
      → IsPlain q.file_id
      → All IsPlain (q.owned_clients ++ h.clientid ∷ [])
      → IsAnswer
          (q.owned_clients ++ h.clientid ∷ [])
          (to_limit q.need_count)
          (handle_request_peer mysql h (query_peer q) db)
  unfolding handle_request_peer
  handle_request_peer-IsAnswer h q db p ks =
      peers_reply-IsAnswer mysql (q.owned_clients ++ h.clientid ∷ []) (to_limit q.need_count)
        q.file_id _
        (find_clients-Finds q.file_id q.percentage q.need_count (q.owned_clients ++ h.clientid ∷ [])
          db p ks)
