-- ===== src/Tracker/Directory/Answers.antt =====
-- The peers that the tracker names.
use cool_down.Prelude.{
  ℕ, ◌≡◌, refl, String, some, List, [], ◌∷◌, ◌++◌, map, true, length, All, All-append, ◌&&◌,
  string_key, inl, inr, Bool-cases,
}
use cool_down.Prelude.Int.{ℤ, pos, ltb_ℤ, leb_ℤ, ◌-ℤ◌}
use cool_down.ErrorCode.{RetCode, is_ok}
use cool_down.Outcome.{Outcome, done, throw, WhenDone, WhenDone-bind}
use cool_down.Messages.{QueryPeer, PeerFileInfo, query_peer}
use cool_down.Tracker.Database.{
  PeerRow, Session, SearchType, greater, less_equal, Owner, owner_in, cursor_rows, to_limit,
  IsPlain, search_conditions, search_percentage_raw,
}
use cool_down.Tracker.Service.{find_clients, find_more, is_invalid}
use cool_down.Tracker.Handler.{Handler, handle_request_peer, peers_reply, peer_info}
use cool_down.Tracker.Rows.{All-cursor_rows}
use cool_down.Tracker.Directory.{Directory, IsRelational, IsMatch}
use cool_down.Tracker.Directory.Conditions.{select_matches}
use cool_down.Tracker.Directory.Follows.{Event, IsPlainEvent, replay, serve, serve_follows}

when_done {ℓ κ} :
    {A : Type ℓ} (P : A → Type κ) (o : Outcome A) → ((a : A) → o ≡ done a → P a) → WhenDone P o
when_done P (done a) f = f a refl
when_done P (throw e) f = tt

-- What each row of any search has, each owner that is found has.
module _ (mysql : Session) (P : PeerRow → Type 0) (fileid : String) (percentage : ℤ)
    (others : List String) (db : mysql.Db)
    (selected : (t : SearchType) (limit : ℕ) (rows : List PeerRow)
      → mysql.select_owners (search_conditions t fileid percentage others) limit db ≡ done rows
      → All P rows) where
  abbrev Holds : RetCode × List Owner → Type 0
  Holds out = All (λ (o : Owner). P o.row) out.1

  owned :
      (rows : List PeerRow) → All P rows → All (λ (o : Owner). P o.row) (map (owner_in fileid) rows)
  owned [] h = tt
  owned (r ∷ rows) (p, h) = (p, owned rows h)

  search-Holds :
      (t : SearchType) (need : ℤ) (c : List Owner)
      → All (λ (o : Owner). P o.row) c
      → WhenDone Holds (search_percentage_raw mysql t fileid percentage need others db c)
  unfolding search_percentage_raw
  search-Holds t need c h = elim (Bool-cases (leb_ℤ need (pos 0))) [
    | inl e ↦ rw (search_percentage_raw, e) h
    | inr e ↦
        rw (search_percentage_raw, e)
          (WhenDone-bind Holds
            (mysql.select_owners (search_conditions t fileid percentage others) (to_limit need) db)
            (λ (rows : List PeerRow).
              done (RetCode.ok, c ++ map (owner_in fileid) (cursor_rows rows)))
            (when_done (All P)
              (mysql.select_owners (search_conditions t fileid percentage others) (to_limit need)
                db)
              (λ rows s. selected t (to_limit need) rows s))
            (λ rows ps.
              All-append (λ (o : Owner). P o.row) c (map (owner_in fileid) (cursor_rows rows)) h
                (owned (cursor_rows rows) (All-cursor_rows P rows ps))))
  ]

  find_more-Holds :
      (need : ℤ) (found : RetCode × List Owner)
      → Holds found
      → WhenDone Holds (find_more mysql fileid percentage need others db found)
  unfolding find_more
  find_more-Holds need (ret, c) h = elim (Bool-cases (is_ok ret)) [
    | inr e ↦ rw (find_more, e) h
    | inl e ↦ elim (Bool-cases (ltb_ℤ (pos (length c)) need && ltb_ℤ (pos 0) percentage)) [
      | inr f ↦ rw (find_more, e, f) h
      | inl f ↦ rw (find_more, e, f) (search-Holds less_equal (need -ℤ pos (length c)) c h)
    ]
  ]

  find_clients-Holds :
      (need : ℤ) → WhenDone Holds (find_clients mysql fileid percentage need others db)
  unfolding find_clients
  find_clients-Holds need = elim (Bool-cases (is_invalid mysql fileid percentage need)) [
    | inl e ↦ rw (find_clients, e) tt
    | inr e ↦
        rw (find_clients, e)
          (WhenDone-bind Holds
            (search_percentage_raw mysql greater fileid percentage need others db [])
            (find_more mysql fileid percentage need others db) (search-Holds greater need [] tt)
            (λ found h. find_more-Holds need found h))
  ]

-- The directory has the peer online, with this percentage of the file.
abbrev pub IsTrue : Directory → String → PeerFileInfo → Type 0
IsTrue d fileid p =
    (d.online p.client.client_id ≡ true)
    × (d.progress fileid p.client.client_id ≡ some p.percentage)

module _ (mysql : Session) (view : mysql.Db → Directory) (laws : IsRelational mysql view) where
  open mysql use {Db}

  -- The row has what the directory has.
  abbrev pub IsTrueRow : Db → String → PeerRow → Type 0
  IsTrueRow db fileid r =
      ((view db).online r.clientid ≡ true)
      × ((view db).progress fileid r.clientid ≡ some r.percentage)

  rows-IsTrue :
      (t : SearchType) (fileid : String) (percentage : ℤ) (others : List String) (db : Db)
      (rows : List PeerRow)
      → All
          (λ (r : PeerRow). IsMatch (view db) t fileid percentage others r.clientid r.percentage)
          rows
      → All (IsTrueRow db fileid) rows
  rows-IsTrue t fileid percentage others db [] h = tt
  rows-IsTrue t fileid percentage others db (r ∷ rows) ((on, p, _, _), h) =
      ((on, p), rows-IsTrue t fileid percentage others db rows h)

  peers-IsTrue :
      (db : Db) (fileid : String) (c : List Owner)
      → All (λ (o : Owner). IsTrueRow db fileid o.row) c
      → All (IsTrue (view db) fileid) (map peer_info c)
  peers-IsTrue db fileid [] h = tt
  peers-IsTrue db fileid (o ∷ c) (p, h) = (p, peers-IsTrue db fileid c h)

  reply-IsTrue :
      (db : Db) (fileid : String) (out : Outcome (RetCode × List Owner))
      → WhenDone
          (λ (found : RetCode × List Owner). All (λ (o : Owner). IsTrueRow db fileid o.row) found.1)
          out
      → All (IsTrue (view db) fileid) (peers_reply mysql fileid out).info
  reply-IsTrue db fileid (throw e) h = tt
  reply-IsTrue db fileid (done (ret, c)) h = elim (Bool-cases (is_ok ret)) [
    | inl e ↦ rw e (peers-IsTrue db fileid c h)
    | inr e ↦ rw e tt
  ]

  answer-IsTrue :
      (h : Handler) (q : QueryPeer) (db : Db)
      → IsPlain q.file_id
      → All IsPlain (q.owned_clients ++ h.clientid ∷ [])
      → All (IsTrue (view db) q.file_id) (handle_request_peer mysql h (query_peer q) db).info
  unfolding handle_request_peer
  answer-IsTrue h q db f ks =
      let others = q.owned_clients ++ h.clientid ∷ [] in
      reply-IsTrue db q.file_id (find_clients mysql q.file_id q.percentage q.need_count others db) (
        find_clients-Holds mysql (IsTrueRow db q.file_id) q.file_id q.percentage others db
          (λ t limit rows s.
            rows-IsTrue t q.file_id q.percentage others db rows
              (select_matches mysql view laws t q.file_id q.percentage others limit db rows f ks s))
          q.need_count)

  -- The ids in the progress reports of a history, and those of the file, of the client that asks and of
  -- those that it says it has, are without quotes and backslashes. Then, after this history of requests
  -- and lost connections, each peer that the tracker names for the file is online, and has the file with
  -- the percentage that is named, by the changes that its earlier answers granted.
  pub answers_follow :
      (es : List Event) (db : Db) (h : Handler) (q : QueryPeer)
      → All IsPlainEvent es
      → IsPlain q.file_id
      → All IsPlain (q.owned_clients ++ h.clientid ∷ [])
      → All
          (IsTrue (replay es (serve mysql es db).1 (view db)) q.file_id)
          (handle_request_peer mysql h (query_peer q) (serve mysql es db).0).info
  answers_follow es db h q plain f ks =
      rw (← serve_follows mysql view laws es db plain)
        (answer-IsTrue h q (serve mysql es db).0 f ks)
