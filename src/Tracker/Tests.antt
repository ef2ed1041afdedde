-- ===== src/Tracker/Tests.antt =====
-- A request for the owners of one file, and a cursor over three rows.
use cool_down.Prelude.{◌≡◌, refl, String, [], ◌∷◌, ◌++◌, true, nat_key, string_key}
use cool_down.Prelude.Int.{pos}
use cool_down.Messages.{QueryPeer, query_peer}
use cool_down.Tracker.Database.{PeerRow, is_plain, cursor_rows}
use cool_down.Tracker.Directory.Tables.{Tables}
use cool_down.Tracker.Directory.Samples.{tables}
use cool_down.Tracker.Handler.{Handler, handle_request_peer}
use cool_down.Tracker.Rows.{cursor_rows_lem}
use cool_down.Tracker.Searches.{IsAnswer, handle_request_peer-IsAnswer}

abbrev row : String → PeerRow
row clientid = record {
  clientid = clientid;
  ip = "10.0.0.1";
  message_port = pos 9025;
  percentage = pos 80;
}

cursor_rows_lem_example :
    cursor_rows (row "a" ∷ (row "b" ∷ []) ++ row "c" ∷ [])
    ≡ (row "b" ∷ []) ++ row "c" ∷ row "c" ∷ []
cursor_rows_lem_example = cursor_rows_lem (row "a") (row "b" ∷ []) (row "c")

abbrev handler : Handler
handler = record { clientid = "a"; host = "10.0.0.9" }

abbrev query : QueryPeer
query = record { file_id = "f"; percentage = pos 50; need_count = pos 2; owned_clients = "b" ∷ [] }

abbrev online : Tables
online = record {
  log = ("a", true) ∷ ("b", true) ∷ ("c", true) ∷ [];
  owners = ("f", "b", pos 70) ∷ ("f", "a", pos 100) ∷ ("f", "c", pos 60) ∷ [];
}

handle_request_peer-IsAnswer_example :
    IsAnswer ("b" ∷ "a" ∷ []) 2 (handle_request_peer tables handler (query_peer query) online)
unfolding is_plain
handle_request_peer-IsAnswer_example =
    handle_request_peer-IsAnswer tables handler query online refl (refl, (refl, tt))
