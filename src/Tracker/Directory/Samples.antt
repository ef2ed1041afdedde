-- ===== src/Tracker/Directory/Samples.antt =====
-- The small database behind the interface of the tracker, with its laws.
use cool_down.Prelude.{
  ℕ, zero, suc, ◌≤◌, ◌<◌, ◌≡◌, refl, sym, ap, String, Option, none, some, List, [], ◌∷◌, map, Bool,
  true, false, length, All, string_key, Option-cases, inl, inr, arith, ◌==◌,
}
use cool_down.Prelude.Int.{ℤ}
use cool_down.Prelude.Map.{member}
use cool_down.Outcome.{Outcome, Fault, done, throw, exception, done-injective}
use cool_down.Tracker.Database.{
  PeerRow, Session, SearchType, Condition, same_client, client_is_not, Has, search_conditions,
}
use cool_down.Tracker.Directory.{Directory, IsRelational, IsMatch, Meets, AreDistinct, HasRow, has}
use cool_down.Tracker.Directory.Conditions.{Meets-IsMatch, IsMatch-Meets}
use cool_down.Tracker.Directory.Clauses.{Parts, clause, clause-some}
use cool_down.Tracker.Directory.Tables.{
  Tables, seen, held, directory, pick, candidate, pick-none, pick-some, pick_matches, pick_distinct,
  pick_complete,
}

pub pick_limited :
    (d : Directory) (t : SearchType) (f : String) (q : ℤ) (others : List String) (n : ℕ)
    (cs : List String)
    → length (pick d t f q others n cs) ≤ n
unfolding pick
pick_limited d t f q others zero cs = omega arith
pick_limited d t f q others (suc n) [] = omega arith
pick_limited d t f q others (suc n) (c ∷ cs) = elim (Option-cases (candidate d t f q others c)) [
  | inl e ↦ rw (pick-none d t f q others n c cs e) (pick_limited d t f q others (suc n) cs)
  | inr (r, e) ↦
      let rest = pick_limited d t f q (c ∷ others) n cs in
      rw (pick-some d t f q others n c cs r e) (omega arith)
]

abbrev names : Tables → List String
names db = map (λ (e : String × Bool). e.0) db.log

abbrev select : SearchType → String → ℤ → List String → ℕ → Tables → List PeerRow
select t f q others n db = pick (directory db) t f q others n (names db)

abbrev answer : Option Parts → ℕ → Tables → Outcome (List PeerRow)
answer none n db = throw exception
answer (some (t, f, q, others)) n db = done (select t f q others n db)

-- What is answered is what was picked for the parts of the clause.
answered :
    (o : Option Parts) (n : ℕ) (db : Tables) (rows : List PeerRow)
    → answer o n db ≡ done rows
    → (t : SearchType) × (f : String) × (q : ℤ) × (others : List String) × (o
        ≡ some (t, f, q, others))
      × (rows ≡ select t f q others n db)
answered none n db rows h = cc
answered (some (t, f, q, others)) n db rows h = (t, f, q, others, refl, sym (done-injective h))

unfoldable pub insert_new : String → String → ℤ → Tables → Option ℤ → Outcome Tables
insert_new f c p db none = done (record db { owners = (f, c, p) ∷ db.owners })
insert_new f c p db (some q) = throw exception

pub limited :
    (cs : List Condition) (n : ℕ) (db : Tables) (rows : List PeerRow)
    → answer (clause cs) n db ≡ done rows
    → length rows ≤ n
limited cs n db rows h =
    let (t, f, q, others, parts, same) = answered (clause cs) n db rows h in
    rw same (pick_limited (directory db) t f q others n (names db))

Meets-all :
    (d : Directory) (t : SearchType) (f : String) (q : ℤ) (others : List String) (rs : List PeerRow)
    → All (λ (r : PeerRow). IsMatch d t f q others r.clientid r.percentage) rs
    → All
        (λ (r : PeerRow).
          (o : String) × All (Meets d r.clientid r.percentage o) (search_conditions t f q others))
        rs
Meets-all d t f q others [] h = tt
Meets-all d t f q others (r ∷ rs) (m, h) = (
  (r.clientid, IsMatch-Meets d t f q others r.clientid r.percentage m),
  Meets-all d t f q others rs h,
)

met :
    (cs : List Condition) (n : ℕ) (db : Tables) (rows : List PeerRow)
    → answer (clause cs) n db ≡ done rows
    → All
        (λ (r : PeerRow). (o : String) × All (Meets (directory db) r.clientid r.percentage o) cs)
        rows
met cs n db rows h =
    let (t, f, q, others, parts, same) = answered (clause cs) n db rows h in
    rw (clause-some cs t f q others parts, same)
      (Meets-all (directory db) t f q others _
        (pick_matches (directory db) t f q others n (names db)))

-- A condition on the owner, where the owner is the client, is one on the client.
not_that :
    (d : Directory) (cs : List Condition) (k j o : String) (p : ℤ)
    → Has same_client cs
    → Has (client_is_not k) cs
    → All (Meets d j p o) cs
    → (j == k) ≡ false
not_that d cs k j o p s x m = rw (joined cs s m) (differs cs x m)
  where
    joined : (cs : List Condition) → Has same_client cs → All (Meets d j p o) cs → j ≡ o
    joined [] s m = absurd s
    joined (c ∷ cs) (inl e) (m, ms) = rw e at m
    joined (c ∷ cs) (inr s) (m, ms) = joined cs s ms

    differs :
        (cs : List Condition) → Has (client_is_not k) cs → All (Meets d j p o) cs → (o == k) ≡ false
    differs [] s m = absurd s
    differs (c ∷ cs) (inl e) (m, ms) = rw e at m
    differs (c ∷ cs) (inr s) (m, ms) = differs cs s ms

pub excludes :
    (cs : List Condition) (n : ℕ) (db : Tables) (rows : List PeerRow) (k : String)
    → Has same_client cs
    → Has (client_is_not k) cs
    → answer (clause cs) n db ≡ done rows
    → All (λ (r : PeerRow). (r.clientid == k) ≡ false) rows
excludes cs n db rows k s x h = go rows (met cs n db rows h)
  where
    go :
        (rs : List PeerRow)
        → All
            (λ (r : PeerRow).
              (o : String) × All (Meets (directory db) r.clientid r.percentage o) cs)
            rs
        → All (λ (r : PeerRow). (r.clientid == k) ≡ false) rs
    go [] m = tt
    go (r ∷ rs) ((o, m), ms) =
        (not_that (directory db) cs k r.clientid o r.percentage s x m, go rs ms)

distinct :
    (cs : List Condition) (n : ℕ) (db : Tables) (rows : List PeerRow)
    → answer (clause cs) n db ≡ done rows
    → AreDistinct rows
distinct cs n db rows h =
    let (t, f, q, others, parts, same) = answered (clause cs) n db rows h in
    rw same (pick_distinct (directory db) t f q others n (names db))

abbrev pub tables : Session
tables = record {
  Db = Tables;
  upsert_login = λ c ip port now db. done (record db { log = (c, true) ∷ db.log });
  mark_offline = λ c down up db. done (record db { log = (c, false) ∷ db.log });
  insert_owner = λ f c p db. insert_new f c p db (held f c db.owners);
  upsert_owner = λ f c p db. done (record db { owners = (f, c, p) ∷ db.owners });
  delete_owner = λ f c db. done db;
  select_owners = λ cs n db. answer (clause cs) n db;
  select_near = λ f q others n db. done [];
  create_client_info = λ db. done db;
  create_file_owner_info = λ db. done db;
  select_limited = limited;
  select_excludes = λ cs n db rows k spliced s x h. excludes cs n db rows k s x h;
}

-- A client that is online was seen.
seen_named :
    (k : String) (l : List (String × Bool))
    → seen k l ≡ true
    → member k (map (λ (e : String × Bool). e.0) l) ≡ true
unfolding seen member
seen_named k [] h = cc
seen_named k ((c, b) ∷ l) h = ground (arith, seen_named k l)

insert_new-view :
    (f c : String) (p : ℤ) (db db' : Tables) (o : Option ℤ)
    → insert_new f c p db o ≡ done db'
    → directory db' ≡ has f c p (directory db)
unfolding insert_new directory held
insert_new-view f c p db db' none h = ap directory (sym (done-injective h))
insert_new-view f c p db db' (some q) h = cc

insert_new_twice :
    (f c : String) (p q : ℤ) (db : Tables)
    → held f c db.owners ≡ some q
    → (e : Fault) × (insert_new f c p db (held f c db.owners) ≡ throw e)
unfolding insert_new
insert_new_twice f c p q db h = (exception, rw h refl)

complete :
    (cs : List Condition) (n : ℕ) (db : Tables) (rows : List PeerRow) (k o : String) (p : ℤ)
    → seen k db.log ≡ true
    → answer (clause cs) n db ≡ done rows
    → length rows < n
    → All (Meets (directory db) k p o) cs
    → HasRow k rows
complete cs n db rows k o p on h l m =
    let (t, f, q, others, parts, same) = answered (clause cs) n db rows h in
    let meets : All (Meets (directory db) k p o) (search_conditions t f q others) =
      rw (clause-some cs t f q others parts) at m in
    rw same (
      pick_complete (directory db) t f q others n (names db) k p (seen_named k db.log on)
        (Meets-IsMatch (directory db) t f q others k o p meets) (rw same at l))

pub tables-IsRelational : IsRelational tables directory
unfolding directory seen held
tables-IsRelational = record {
  upsert_login-view = λ c ip port now db db' h. ap directory (sym (done-injective h));
  mark_offline-view = λ c down up db db' h. ap directory (sym (done-injective h));
  insert_owner-view = λ f c p db db' h. insert_new-view f c p db db' (held f c db.owners) h;
  insert_owner_twice = λ f c p q db h. insert_new_twice f c p q db h;
  upsert_owner-view = λ f c p db db' plain plain' h. ap directory (sym (done-injective h));
  select_meets = λ cs n db rows spliced h. met cs n db rows h;
  select_distinct = λ cs n db rows f spliced s x h. distinct cs n db rows h;
  select_complete =
      λ cs n db rows k o f p spliced h l on has_it m. complete cs n db rows k o p on h l m;
}
