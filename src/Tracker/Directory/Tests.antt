-- ===== src/Tracker/Directory/Tests.antt =====
-- Two clients log in, one publishes a file, one is lost, and the other asks for the file.
use cool_down.Prelude.{
  ◌≡◌, refl, String, some, none, List, [], ◌∷◌, true, false, All, arith, string_key, nat_key,
}
use cool_down.Prelude.Int.{ℤ, pos}
use cool_down.Prelude.Map.{member}
use cool_down.Messages.{
  QueryPeer, PublishResource, report_progress, message_reply, payload_publish_resource,
  payload_message_reply, login, publish_resource, query_peer, payload_code,
}
use cool_down.Tracker.Database.{PeerRow, owner_in, is_plain, search_conditions}
use cool_down.Tracker.Handler.{Handler, process, refused, handle_request_peer, peer_info}
use cool_down.Tracker.Directory.Tables.{Tables, directory, seen, held}
use cool_down.Tracker.Directory.Samples.{tables, tables-IsRelational, insert_new}
use cool_down.ErrorCode.{is_ok}
use cool_down.Tracker.Directory.Follows.{Event, requested, dropped, replay, serve, serve_follows}
use cool_down.Tracker.Directory.Answers.{IsTrue, answers_follow}
use cool_down.Tracker.Directory.Clauses.{clause}
use cool_down.Tracker.Directory.Again.{publication_refused}
use cool_down.Tracker.Directory.Found.{only_owner_answered}

abbrev at_port : String → Handler
at_port clientid = record { clientid = clientid; host = "10.0.0.1" }

abbrev history : List Event
history =
    requested (at_port "") "now" 10000
      (some (login (record { client_id = "a"; login_ip = none; message_port = pos 9025 })))
    ∷ requested (at_port "") "now" 10000
        (some (login (record { client_id = "b"; login_ip = none; message_port = pos 9025 })))
    ∷ requested (at_port "a") "now" 10004
        (some (publish_resource (record { client_id = "a"; file_id = "f" })))
    ∷ requested (at_port "a") "now" 10004
        (some (publish_resource (record { client_id = "a"; file_id = "f" })))
    ∷ dropped (at_port "b")
    ∷ []

abbrev empty : Tables
empty = record { log = []; owners = [] }

serve_follows_example :
    directory (serve tables history empty).0
    ≡ replay history (serve tables history empty).1 (directory empty)
serve_follows_example =
    serve_follows tables directory tables-IsRelational history empty
      (tt, (tt, (tt, (tt, (tt, tt)))))

-- The second publication is refused.
serve-history : (serve tables history empty).1 ≡ true ∷ true ∷ true ∷ false ∷ true ∷ []
unfolding serve insert_new held payload_code is_ok
serve-history = refl

abbrev query : QueryPeer
query = record { file_id = "f"; percentage = pos 50; need_count = pos 2; owned_clients = [] }

answers_follow_example :
    All
      (IsTrue (replay history (serve tables history empty).1 (directory empty)) "f")
      (handle_request_peer tables
        (at_port "c")
        (query_peer query)
        (serve tables history empty).0).info
unfolding is_plain
answers_follow_example =
    answers_follow tables directory tables-IsRelational history empty (at_port "c") query
      (tt, (tt, (tt, (tt, (tt, tt))))) refl (refl, tt)

abbrev one_owner : Tables
one_owner = record {
  log = ("b", false) ∷ ("c", true) ∷ ("a", true) ∷ [];
  owners = ("f", "b", pos 70) ∷ ("f", "a", pos 100) ∷ [];
}

only_a :
    (j : String) (q : ℤ)
    → (directory one_owner).online j ≡ true
    → (directory one_owner).progress "f" j ≡ some q
    → member j ("c" ∷ []) ≡ false
    → j ≡ "a"
unfolding directory seen held member
only_a j q on has_it new = ground (arith, string_key.beq_iff j "a")

only_owner_answered_example :
    (r : PeerRow) × (r.clientid ≡ "a")
    × (r.percentage ≡ pos 100)
    × (handle_request_peer tables (at_port "c") (query_peer query) one_owner ≡ record {
      return_code = 0;
      file_id = "f";
      count = 1;
      info = peer_info (owner_in "f" r) ∷ [];
    })
unfolding directory seen held member is_plain search_conditions clause
only_owner_answered_example =
    only_owner_answered tables directory tables-IsRelational (at_port "c") query one_owner "a"
      (pos 100) 1 refl (refl, tt) (refl, refl, refl, only_a) refl refl refl (λ t limit. (_, refl))

abbrev half : List Event
half =
    requested (at_port "a") "now" 10003
      (some (report_progress (record { client_id = "a"; file_id = "f"; percentage = pos 50 })))
    ∷ []

abbrev whole : PublishResource
whole = record { client_id = "a"; file_id = "f" }

half_known : (directory (serve tables half empty).0).progress "f" "a" ≡ some (pos 50)
unfolding serve directory held payload_code is_ok
half_known = refl

publication_refused_example :
    let db' = (serve tables half empty).0 in
    (process tables
        (at_port "a")
        "now"
        (payload_code payload_publish_resource)
        (some (publish_resource whole))
        db'
      ≡ (at_port "a", db', some (payload_code payload_message_reply, message_reply refused)))
    × ((directory db').progress "f" "a" ≡ some (pos 50))
publication_refused_example =
    publication_refused tables directory tables-IsRelational half empty (at_port "a") "now" whole
      (pos 50) half_known
