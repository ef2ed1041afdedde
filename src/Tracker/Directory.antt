-- ===== src/Tracker/Directory.antt =====
-- What the tracker promises, without its tables: who is online, and who has how much of which file.
-- The laws say what the statements of tracker/src/tracker_db_manager.cc do to the rows of its two
-- tables; a statement may also throw.
pub mod Conditions
pub mod Follows
pub mod Answers
pub mod Found
pub mod Again
pub mod Tables
pub mod Clauses
pub mod Samples
mod Tests
use cool_down.Prelude.{
  ℕ, ◌<◌, ◌≡◌, ◌≢◌, ◌⊎◌, String, Option, none, some, List, [], ◌∷◌, Bool, true, false, length, All,
  ◌==◌, ◌&&◌, string_key, nat_key, if◌then◌else◌,
}
use cool_down.Prelude.Int.{ℤ, pos, ltb_ℤ, leb_ℤ}
use cool_down.Prelude.Map.{member}
use cool_down.Outcome.{Outcome, Fault, done, throw}
use cool_down.Messages.{
  Message, login, logout, query_peer, report_progress, publish_resource, payload_code,
  payload_login, payload_logout, payload_report_progress, payload_publish_resource,
}
use cool_down.Tracker.Database.{
  PeerRow, Session, SearchType, greater, less_equal, Condition, file_is, client_is_not, same_client,
  is_online, compares, IsPlain, IsSpliced, Has,
}
use cool_down.Tracker.Handler.{Handler}

pub record Directory : Type 0 where
  pub online : String → Bool
  -- The percentage of a file that a client has.
  pub progress : String → String → Option ℤ

abbrev pub came : String → Directory → Directory
came c d = record d { online = λ k. if k == c then true else d.online k }

abbrev pub left : String → Directory → Directory
left c d = record d { online = λ k. if k == c then false else d.online k }

abbrev pub has : String → String → ℤ → Directory → Directory
has fileid c percentage d = record d {
  progress = λ f k. if f == fileid && k == c then some percentage else d.progress f k;
}

-- The condition `PERCENTAGE > …` or `PERCENTAGE <= …` of a search
abbrev pub matches : SearchType → ℤ → ℤ → Bool
matches greater percentage p = ltb_ℤ percentage p
matches less_equal percentage p = leb_ℤ p percentage

-- The client meets the conditions of a search.
abbrev pub IsMatch : Directory → SearchType → String → ℤ → List String → String → ℤ → Type 0
IsMatch d t fileid percentage others k p =
    (d.online k ≡ true)
    × (d.progress fileid k ≡ some p)
    × (matches t percentage p ≡ true)
    × (member k others ≡ false)

-- A row of the join, with the client of the one table and the owner of the other, meets a condition.
abbrev pub Meets : Directory → String → ℤ → String → Condition → Type 0
Meets d k p o (file_is f) = d.progress f o ≡ some p
Meets d k p o same_client = k ≡ o
Meets d k p o is_online = d.online k ≡ true
Meets d k p o (compares t percentage) = matches t percentage p ≡ true
Meets d k p o (client_is_not j) = (o == j) ≡ false

abbrev pub AreDistinct : List PeerRow → Type 0
AreDistinct [] = Unit
AreDistinct (r ∷ rs) = All (λ (s : PeerRow). s.clientid ≢ r.clientid) rs × AreDistinct rs

abbrev pub HasRow : String → List PeerRow → Type 0
HasRow k [] = ⊥
HasRow k (r ∷ rs) = (r.clientid ≡ k) ⊎ HasRow k rs

-- The documented meaning of the statements. CLIENTID is the key of one table, FILEID and CLIENTID
-- that of the other, so that an INSERT of a pair that is there throws. Ids that are spliced into a
-- statement have to be plain. The server compares ids byte by byte, by a binary collation, and is in
-- its strict mode, where a value that is too long for its column throws.
pub record IsRelational (mysql : Session) (view : mysql.Db → Directory) : Type 0 where
  pub upsert_login-view :
      (c ip : String) (port : ℤ) (now : String) (db db' : mysql.Db)
      → mysql.upsert_login c ip port now db ≡ done db'
      → view db' ≡ came c (view db)
  pub mark_offline-view :
      (c : String) (down up : ℤ) (db db' : mysql.Db)
      → mysql.mark_offline c down up db ≡ done db'
      → view db' ≡ left c (view db)
  pub insert_owner-view :
      (f c : String) (p : ℤ) (db db' : mysql.Db)
      → mysql.insert_owner f c p db ≡ done db'
      → view db' ≡ has f c p (view db)
  pub insert_owner_twice :
      (f c : String) (p q : ℤ) (db : mysql.Db)
      → (view db).progress f c ≡ some q
      → (e : Fault) × (mysql.insert_owner f c p db ≡ throw e)
  pub upsert_owner-view :
      (f c : String) (p : ℤ) (db db' : mysql.Db)
      → IsPlain f
      → IsPlain c
      → mysql.upsert_owner f c p db ≡ done db'
      → view db' ≡ has f c p (view db)
  pub select_meets :
      (cs : List Condition) (limit : ℕ) (db : mysql.Db) (rows : List PeerRow)
      → All IsSpliced cs
      → mysql.select_owners cs limit db ≡ done rows
      → All
          (λ (r : PeerRow). (o : String) × All (Meets (view db) r.clientid r.percentage o) cs)
          rows
  pub select_distinct :
      (cs : List Condition) (limit : ℕ) (db : mysql.Db) (rows : List PeerRow) (f : String)
      → All IsSpliced cs
      → Has same_client cs
      → Has (file_is f) cs
      → mysql.select_owners cs limit db ≡ done rows
      → AreDistinct rows
  -- Below the limit, no pair of a client that is online and a row of an owner is left out.
  pub select_complete :
      (cs : List Condition) (limit : ℕ) (db : mysql.Db) (rows : List PeerRow) (k o f : String)
      (p : ℤ)
      → All IsSpliced cs
      → mysql.select_owners cs limit db ≡ done rows
      → length rows < limit
      → (view db).online k ≡ true
      → (view db).progress f o ≡ some p
      → All (Meets (view db) k p o) cs
      → HasRow k rows

-- What a request asks for, as a change of the directory.
abbrev pub asked : Handler → ℕ → Message → Directory → Directory
asked h kind (login l) d = if kind == payload_code payload_login then came l.client_id d else d
asked h kind (logout l) d =
    if kind == payload_code payload_logout && l.client_id == h.clientid
    then left l.client_id d
    else d
asked h kind (report_progress r) d =
    if kind == payload_code payload_report_progress
    then has r.file_id r.client_id r.percentage d
    else d
asked h kind (publish_resource p) d =
    if kind == payload_code payload_publish_resource
    then has p.file_id p.client_id (pos 100) d
    else d
asked h kind _ d = d
