-- ===== src/Tracker/Service.antt =====
-- tracker/src/tracker.cc: what the tracker does for a request.
use cool_down.Prelude.{
  String, List, [], Bool, length, ◌==◌, ◌||◌, ◌&&◌, not, string_key, if◌then◌else◌,
}
use cool_down.Prelude.Int.{ℤ, pos, ltb_ℤ, ◌-ℤ◌}
use cool_down.ErrorCode.{RetCode, is_ok}
use cool_down.Outcome.{Outcome, done, ◌>>=◌}
use cool_down.Tracker.Database.{
  Session, greater, less_equal, Owner, insert_or_update_login_info, update_logout_info,
  search_percentage_raw, insert_file_owner_info, update_file_owner_info,
}

module _ (mysql : Session) where
  open mysql use {Db}

  -- The time is formatted from the clock.
  unfoldable pub add_online_user : String → String → ℤ → String → Db → Outcome (Db × RetCode)
  unfolding insert_or_update_login_info
  add_online_user clientid ip message_port now db =
      insert_or_update_login_info mysql clientid ip message_port now db

  unfoldable pub remove_online_user : String → Db → Outcome (Db × RetCode)
  unfolding update_logout_info
  remove_online_user clientid db = update_logout_info mysql clientid (pos 0) (pos 0) db

  abbrev pub is_invalid : String → ℤ → ℤ → Bool
  is_invalid fileid percentage need_count =
      fileid == ""
      || (ltb_ℤ percentage (pos 0) || (ltb_ℤ (pos 100) percentage || ltb_ℤ need_count (pos 0)))

  -- The second search, if the first one did not find enough.
  unfoldable pub find_more :
      String → ℤ → ℤ → List String → Db → RetCode × List Owner → Outcome (RetCode × List Owner)
  unfolding search_percentage_raw
  find_more fileid percentage need_count owned db (ret, clients) =
      if not (is_ok ret)
      then done (ret, clients)
      else if ltb_ℤ (pos (length clients)) need_count && ltb_ℤ (pos 0) percentage
      then search_percentage_raw mysql less_equal fileid percentage
          (need_count -ℤ pos (length clients)) owned db clients
      else done (RetCode.ok, clients)

  unfoldable pub find_clients : String → ℤ → ℤ → List String → Db → Outcome (RetCode × List Owner)
  unfolding search_percentage_raw find_more
  find_clients fileid percentage need_count owned db =
      if is_invalid fileid percentage need_count then done (RetCode.unknown, []) else do
        found ← search_percentage_raw mysql greater fileid percentage need_count owned db []
        find_more fileid percentage need_count owned db found

  unfoldable pub note_progress : String → String → ℤ → Db → Outcome (Db × RetCode)
  unfolding update_file_owner_info
  note_progress clientid fileid percentage db =
      update_file_owner_info mysql fileid clientid percentage db

  unfoldable pub note_resource : String → String → Db → Outcome (Db × RetCode)
  unfolding insert_file_owner_info
  note_resource clientid fileid db = insert_file_owner_info mysql fileid clientid (pos 100) db
