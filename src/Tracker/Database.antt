-- ===== src/Tracker/Database.antt =====
-- tracker/src/tracker_db_manager.cc. The database is a parameter: what executing each of the SQL
-- statements does, or an exception.
use Prim.Native.Char.{code}
use cool_down.Prelude.{
  ◌==◌, ◌||◌, nat_key, true, Bool, ℕ, ◌≤◌, ◌≡◌, String, List, [], ◌∷◌, ◌++◌, false, map, length,
  All, string_key, if◌then◌else◌, refl, not, ◌⊎◌, inl, inr,
}
use cool_down.Prelude.Int.{ℤ, pos, negsuc, leb_ℤ}
use cool_down.ErrorCode.{RetCode, is_ok}
use cool_down.Outcome.{Outcome, done, throw, ◌>>=◌, Outcome-cases}

-- The columns of a search.
pub record PeerRow : Type 0 where
  pub clientid : String
  pub ip : String
  pub message_port : ℤ
  pub percentage : ℤ

pub data SearchType : Type 0 where
  greater less_equal : SearchType

-- A condition of the WHERE clause of a search, which joins the table of the clients with that of the owners:
-- `FILEID='…'`, the equality of the two CLIENTIDs, `ISONLINE=1`, a comparison of PERCENTAGE, and
-- `CLIENTID != '…'` of the owner. The ids are spliced into the text as they are.
pub data Condition : Type 0 where
  file_is client_is_not : String → Condition
  same_client is_online : Condition
  compares : SearchType → ℤ → Condition

-- Without a quote and a backslash, an id stands for itself between quotes.
unfoldable pub is_plain : String → Bool
is_plain String.[] = true
is_plain (String.◌∷◌ c s) =
    let rest = is_plain s in if code c == 39 || code c == 92 then false else rest

abbrev pub IsPlain : String → Type 0
IsPlain id = is_plain id ≡ true

abbrev pub IsSpliced : Condition → Type 0
IsSpliced (file_is f) = IsPlain f
IsSpliced (client_is_not c) = IsPlain c
IsSpliced same_client = Unit
IsSpliced is_online = Unit
IsSpliced (compares t p) = Unit

-- The condition is one of these.
abbrev pub Has : Condition → List Condition → Type 0
Has c [] = ⊥
Has c (d ∷ ds) = (d ≡ c) ⊎ Has c ds

-- The statements, with the values that are bound or spliced into them. The laws say what `LIMIT` means, and
-- a condition `CLIENTID != '…'` of a search that joins by the client.
pub record Session : Type 1 where
  pub Db : Type 0
  pub upsert_login : String → String → ℤ → String → Db → Outcome Db
  pub mark_offline : String → ℤ → ℤ → Db → Outcome Db
  pub insert_owner : String → String → ℤ → Db → Outcome Db
  pub upsert_owner : String → String → ℤ → Db → Outcome Db
  pub delete_owner : String → String → Db → Outcome Db
  pub select_owners : List Condition → ℕ → Db → Outcome (List PeerRow)
  pub select_near : String → ℤ → List String → ℕ → Db → Outcome (List PeerRow)
  pub create_client_info : Db → Outcome Db
  pub create_file_owner_info : Db → Outcome Db
  pub select_limited :
      (cs : List Condition) (limit : ℕ) (db : Db) (rows : List PeerRow)
      → select_owners cs limit db ≡ done rows
      → length rows ≤ limit
  pub select_excludes :
      (cs : List Condition) (limit : ℕ) (db : Db) (rows : List PeerRow) (k : String)
      → All IsSpliced cs
      → Has same_client cs
      → Has (client_is_not k) cs
      → select_owners cs limit db ≡ done rows
      → All (λ r. (r.clientid == k) ≡ false) rows

-- The pair of a `ClientInfo` and a `FileOwnerInfo` that a search pushes.
pub record Owner : Type 0 where
  pub row : PeerRow
  pub fileid : String

-- The loop `while(more){ more = rs.moveNext(); … }`, at a row with the rows after it. On the last row
-- `moveNext` answers false and stays.
unfoldable pub cursor_loop : PeerRow → List PeerRow → List PeerRow
cursor_loop current [] = current ∷ []
cursor_loop current (r ∷ rs) = r ∷ cursor_loop r rs

unfoldable pub cursor_rows : List PeerRow → List PeerRow
unfolding cursor_loop
cursor_rows [] = []
cursor_rows (r ∷ rs) = cursor_loop r rs

abbrev pub to_limit : ℤ → ℕ
to_limit (pos n) = n
to_limit (negsuc n) = 0

-- The WHERE clause of a search
unfoldable pub search_conditions : SearchType → String → ℤ → List String → List Condition
search_conditions t fileid percentage others =
    file_is fileid ∷ same_client ∷ is_online ∷ compares t percentage ∷ map client_is_not others

-- The ids that are spliced into a search are plain.
pub search_conditions-IsSpliced :
    (t : SearchType) (fileid : String) (percentage : ℤ) (others : List String)
    → IsPlain fileid
    → All IsPlain others
    → All IsSpliced (search_conditions t fileid percentage others)
unfolding search_conditions
search_conditions-IsSpliced t fileid percentage others f ks =
    (f, (tt, (tt, (tt, spliced others ks))))
  where
    spliced : (ks : List String) → All IsPlain ks → All IsSpliced (map client_is_not ks)
    spliced [] h = tt
    spliced (k ∷ ks) (p, h) = (p, spliced ks h)

abbrev pub owner_in : String → PeerRow → Owner
owner_in fileid r = record { row = r; fileid = fileid }

module _ (mysql : Session) where
  open mysql use {
    Db, upsert_login, mark_offline, insert_owner, upsert_owner, delete_owner, select_owners,
    select_near, create_client_info, create_file_owner_info,
  }

  unfoldable pub insert_or_update_login_info :
      String → String → ℤ → String → Db → Outcome (Db × RetCode)
  insert_or_update_login_info clientid ip port login_time db = do
    db' ← upsert_login clientid ip port login_time db
    done (db', RetCode.ok)

  unfoldable pub update_logout_info : String → ℤ → ℤ → Db → Outcome (Db × RetCode)
  update_logout_info clientid download_total upload_total db = do
    db' ← mark_offline clientid download_total upload_total db
    done (db', RetCode.ok)

  -- The owners are pushed to those that are there.
  unfoldable pub search_percentage_raw :
      SearchType → String → ℤ → ℤ → List String → Db → List Owner → Outcome (RetCode × List Owner)
  unfolding cursor_rows search_conditions
  search_percentage_raw t fileid percentage need_count others db c =
      if leb_ℤ need_count (pos 0) then done (RetCode.ok, c) else do
        rows ← select_owners (search_conditions t fileid percentage others) (to_limit need_count) db
        done (RetCode.ok, c ++ map (owner_in fileid) (cursor_rows rows))

  -- The search whose call in `Tracker::RequestClients` stands in a comment.
  unfoldable pub search_near_percentage_client :
      String → ℤ → ℤ → List String → Db → List Owner → Outcome (RetCode × List Owner)
  unfolding cursor_rows
  search_near_percentage_client fileid percentage need_count others db c =
      if leb_ℤ need_count (pos 0) then done (RetCode.ok, c) else do
        rows ← select_near fileid percentage others (to_limit need_count) db
        done (RetCode.ok, c ++ map (owner_in fileid) (cursor_rows rows))

  unfoldable pub insert_file_owner_info : String → String → ℤ → Db → Outcome (Db × RetCode)
  insert_file_owner_info fileid clientid percentage db = do
    db' ← insert_owner fileid clientid percentage db
    done (db', RetCode.ok)

  unfoldable pub update_file_owner_info : String → String → ℤ → Db → Outcome (Db × RetCode)
  update_file_owner_info fileid clientid percentage db = do
    db' ← upsert_owner fileid clientid percentage db
    done (db', RetCode.ok)

  unfoldable pub remove_file_owner_info : String → String → Db → Outcome (Db × RetCode)
  remove_file_owner_info fileid clientid db = do
    db' ← delete_owner fileid clientid db
    done (db', RetCode.ok)

  -- The code for a table that cannot be created.
  abbrev pub created : Db → Outcome Db → Db × RetCode
  created db (done db') = (db', RetCode.ok)
  created db (throw e) = (db, RetCode.db_init_table_error)

  init_client_info_table : Db → Db × RetCode
  init_client_info_table db = created db (create_client_info db)

  init_file_owner_info_table : Db → Db × RetCode
  init_file_owner_info_table db = created db (create_file_owner_info db)

  unfoldable pub init_tables : Db → Db × RetCode
  unfolding init_client_info_table init_file_owner_info_table
  init_tables db =
      let (db', ret) = init_client_info_table db in
      if not (is_ok ret) then (db', ret) else init_file_owner_info_table db'

  -- The tables are there when `init_tables` says so, and otherwise the code is the one for a table
  -- that could not be created.
  init_tables-codes :
      (db : Db)
      → ((db' : Db) × (db'' : Db) × (create_client_info db ≡ done db')
          × (create_file_owner_info db' ≡ done db'')
          × (init_tables db ≡ (db'', RetCode.ok)))
        ⊎ ((init_tables db).1 ≡ RetCode.db_init_table_error)
  unfolding init_tables init_client_info_table init_file_owner_info_table is_ok
  init_tables-codes db = elim (Outcome-cases (create_client_info db)) [
    | inr (e, f) ↦ inr (rw f refl)
    | inl (db', f) ↦ elim (Outcome-cases (create_file_owner_info db')) [
      | inl (db'', g) ↦ inl (db', db'', f, g, rw (f, g) refl)
      | inr (e, g) ↦ inr (rw (f, g) refl)
    ]
  ]
