-- ===== src/Tracker/Directory/Found.antt =====
-- The only owner of a file is found.
use mathlib.Core.List.{append-nil}
use cool_down.Prelude.{
  ℕ, zero, suc, ◌≡◌, refl, sym, ap, ◌∙◌, String, some, List, [], ◌∷◌, ◌++◌, map, true, false, All,
  ◌&&◌, string_key, inl, inr, Bool-cases, arith, some-injective,
}
use cool_down.Prelude.Int.{ℤ, pos, ltb_ℤ, leb_ℤ, ◌-ℤ◌}
use cool_down.Prelude.Map.{member}
use cool_down.ErrorCode.{RetCode, is_ok}
use cool_down.Outcome.{done}
use cool_down.Messages.{QueryPeer, query_peer}
use cool_down.Tracker.Database.{
  PeerRow, Session, SearchType, greater, less_equal, Owner, owner_in, cursor_rows, IsPlain,
  search_conditions, search_percentage_raw,
}
use cool_down.Tracker.Service.{find_clients, find_more, is_invalid}
use cool_down.Tracker.Handler.{Handler, handle_request_peer, peer_info}
use cool_down.Tracker.Directory.Conditions.{select_matches, select_distinct, select_complete}
use cool_down.Tracker.Directory.{Directory, IsRelational, IsMatch, AreDistinct, HasRow}

module _ (mysql : Session) (view : mysql.Db → Directory) (laws : IsRelational mysql view)
    (fileid : String) (percentage : ℤ) (others : List String) (db : mysql.Db) (k : String)
    (p : ℤ) where
  -- The client is online with this percentage of the file, and no other client that was not named in
  -- the request has any of it and is online.
  abbrev pub IsOnlyOwner : Type 0
  IsOnlyOwner =
      ((view db).online k ≡ true)
      × ((view db).progress fileid k ≡ some p)
      × (member k others ≡ false)
      × ((j : String) (q : ℤ)
          → (view db).online j ≡ true
          → (view db).progress fileid j ≡ some q
          → member j others ≡ false
          → j ≡ k)

  module _ (plain : IsPlain fileid) (plain_others : All IsPlain others) (only : IsOnlyOwner)
      (more : ltb_ℤ percentage p ≡ true) where
    one_row :
        (rows : List PeerRow)
        → All
            (λ (r : PeerRow).
              IsMatch (view db) greater fileid percentage others r.clientid r.percentage)
            rows
        → AreDistinct rows
        → HasRow k rows
        → (r : PeerRow) × (rows ≡ r ∷ []) × (r.clientid ≡ k) × (r.percentage ≡ p)
    one_row [] m d h = absurd h
    one_row (r ∷ s ∷ rows) (a, (b, m)) (d, _) h =
        let same = only.3 s.clientid s.percentage b.0 b.1 b.3 in
        let same' = only.3 r.clientid r.percentage a.0 a.1 a.3 in absurd (d.0 (same ∙ sym same'))
    one_row (r ∷ []) ((on, has_it, _, new), tt) d h =
        let same : r.clientid ≡ k = only.3 r.clientid r.percentage on has_it new in
        (r, refl, same, some-injective (sym has_it ∙ ap ((view db).progress fileid) same ∙ only.1))

    no_row :
        (rows : List PeerRow)
        → All
            (λ (r : PeerRow).
              IsMatch (view db) less_equal fileid percentage others r.clientid r.percentage)
            rows
        → rows ≡ []
    no_row [] m = refl
    no_row (r ∷ rows) ((on, has_it, low, new), _) =
        let same : r.clientid ≡ k = only.3 r.clientid r.percentage on has_it new in
        let value : r.percentage ≡ p =
          some-injective (sym has_it ∙ ap ((view db).progress fileid) same ∙ only.1) in
        let low' : leb_ℤ p percentage ≡ true = rw value at low in
        absurd (apart percentage p more low')
      where
        apart : (a b : ℤ) → ltb_ℤ a b ≡ true → leb_ℤ b a ≡ true → ⊥
        apart a b h l = ground arith

    -- A search below the limit of which a match is there has a row.
    has_row :
        (n : ℕ) (rows : List PeerRow)
        → mysql.select_owners (search_conditions greater fileid percentage others) (suc n) db
          ≡ done rows
        → HasRow k rows
    has_row n [] s =
        select_complete mysql view laws greater fileid percentage others (suc n) db [] plain
          plain_others s k p (omega arith) (only.0, only.1, more, only.2)
    has_row n (r ∷ rows) s =
        let (m, _) =
          select_matches mysql view laws greater fileid percentage others (suc n) db (r ∷ rows)
            plain plain_others s in
        inl (only.3 r.clientid r.percentage m.0 m.1 m.3)

    search_greater :
        (n : ℕ) (rows : List PeerRow)
        → mysql.select_owners (search_conditions greater fileid percentage others) (suc n) db
          ≡ done rows
        → (r : PeerRow) × (r.clientid ≡ k)
          × (r.percentage ≡ p)
          × (search_percentage_raw mysql greater fileid percentage (pos (suc n)) others db []
              ≡ done (RetCode.ok, owner_in fileid r ∷ []))
    unfolding search_percentage_raw cursor_rows
    search_greater n rows s =
        let (r, one, own, value) =
          one_row rows
            (select_matches mysql view laws greater fileid percentage others (suc n) db rows plain
              plain_others s)
            (select_distinct mysql view laws greater fileid percentage others (suc n) db rows plain
              plain_others s)
            (has_row n rows s) in
        let positive : leb_ℤ (pos (suc n)) (pos 0) ≡ false = ground arith in
        (
          r,
          own,
          value,
          rw (search_percentage_raw, positive, s)
              (ap (λ (l : List PeerRow). done (RetCode.ok, map (owner_in fileid) (cursor_rows l)))
                one),
        )

    search_less :
        (n : ℕ) (c : List Owner) (rows : List PeerRow)
        → mysql.select_owners (search_conditions less_equal fileid percentage others) (suc n) db
          ≡ done rows
        → search_percentage_raw mysql less_equal fileid percentage (pos (suc n)) others db c
          ≡ done (RetCode.ok, c)
    unfolding search_percentage_raw cursor_rows
    search_less n c rows s =
        let none_there = no_row rows (
          select_matches mysql view laws less_equal fileid percentage others (suc n) db rows plain
            plain_others s) in
        let positive : leb_ℤ (pos (suc n)) (pos 0) ≡ false = ground arith in
        rw (search_percentage_raw, positive, s, none_there)
          (ap (λ (l : List Owner). done (RetCode.ok, l)) (append-nil c))

    more_needed :
        (n : ℕ) (c : Owner) (rows : List PeerRow)
        → mysql.select_owners (search_conditions less_equal fileid percentage others) n db
          ≡ done rows
        → find_more mysql fileid percentage (pos (suc n)) others db (RetCode.ok, c ∷ [])
          ≡ done (RetCode.ok, c ∷ [])
    unfolding find_more is_ok ◌-ℤ◌
    more_needed zero c rows s = refl
    more_needed (suc n) c rows s =
        let left : pos (suc (suc n)) -ℤ pos 1 ≡ pos (suc n) = ground arith in
        elim (Bool-cases (ltb_ℤ (pos 1) (pos (suc (suc n))) && ltb_ℤ (pos 0) percentage)) [
          | inl e ↦ rw (find_more, e, left) (search_less n (c ∷ []) rows s)
          | inr e ↦ rw (find_more, e) refl
        ]

    find_only :
        (n : ℕ)
        → is_invalid mysql fileid percentage (pos (suc n)) ≡ false
        → ((t : SearchType) (limit : ℕ)
            → (rows : List PeerRow) × (mysql.select_owners
                  (search_conditions t fileid percentage others)
                  limit
                  db
                ≡ done rows))
        → (r : PeerRow) × (r.clientid ≡ k)
          × (r.percentage ≡ p)
          × (find_clients mysql fileid percentage (pos (suc n)) others db
              ≡ done (RetCode.ok, owner_in fileid r ∷ []))
    unfolding find_clients
    find_only n valid returns =
        let (rows, s) = returns greater (suc n) in
        let (rows', s') = returns less_equal n in
        let (r, own, value, first) = search_greater n rows s in
        (
          r,
          own,
          value,
          rw (find_clients, valid, first) (more_needed n (owner_in fileid r) rows' s'),
        )

-- A request that asks for a positive number of clients, with arguments in range; the ids of the file, of the
-- client that asks and of those that it names are without quotes and backslashes. If the directory has
-- exactly one client online, of those that were not named in the request, that has any of the file,
-- and it has more than the percentage of the request, then, unless a search throws, the answer is that
-- client alone, with its percentage.
pub only_owner_answered :
    (mysql : Session) (view : mysql.Db → Directory) (laws : IsRelational mysql view) (h : Handler)
    (q : QueryPeer) (db : mysql.Db) (k : String) (p : ℤ) (n : ℕ) (plain : IsPlain q.file_id)
    (plain_others : All IsPlain (q.owned_clients ++ h.clientid ∷ []))
    → IsOnlyOwner mysql view laws q.file_id q.percentage (q.owned_clients ++ h.clientid ∷ []) db k p
    → ltb_ℤ q.percentage p ≡ true
    → q.need_count ≡ pos (suc n)
    → is_invalid mysql q.file_id q.percentage q.need_count ≡ false
    → ((t : SearchType) (limit : ℕ)
        → (rows : List PeerRow) × (mysql.select_owners
              (search_conditions t q.file_id q.percentage (q.owned_clients ++ h.clientid ∷ []))
              limit
              db
            ≡ done rows))
    → (r : PeerRow) × (r.clientid ≡ k)
      × (r.percentage ≡ p)
      × (handle_request_peer mysql h (query_peer q) db ≡ record {
        return_code = 0;
        file_id = q.file_id;
        count = 1;
        info = peer_info (owner_in q.file_id r) ∷ [];
      })
unfolding handle_request_peer is_ok
only_owner_answered mysql view laws h q db k p n plain plain_others only more need valid returns =
    let others = q.owned_clients ++ h.clientid ∷ [] in
    let (r, own, value, found) =
      find_only mysql view laws q.file_id q.percentage others db k p plain plain_others only more n
        (rw need at valid) returns in
    (r, own, value, rw (handle_request_peer, need, found) refl)
