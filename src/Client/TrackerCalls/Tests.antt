-- ===== src/Client/TrackerCalls/Tests.antt =====
-- A tracker that refuses, and one that grants.
use cool_down.Prelude.{◌≡◌, refl, some, [], ◌∷◌, ◌&&◌}
use cool_down.Prelude.Int.{pos}
use cool_down.Prelude.Map.{lookup}
use cool_down.ErrorCode.{RetCode, is_ok}
use cool_down.Messages.{message_reply, query_peer_reply, cast_query_peer_reply}
use cool_down.Client.SockManager.{SockManager, empty, get_tracker_sock}
use cool_down.Client.TrackerCalls.{Exchange, call_tracker, request_clients, cast_reply}
use cool_down.Client.TrackerCalls.Replies.{granted, call_tracker_ignores_reply, request_clients_lem}

abbrev refusal : Exchange
refusal = record {
  sent = RetCode.ok;
  received = RetCode.ok;
  reply = some (message_reply (record { return_code = 9999 }));
}

call_tracker_ignores_reply_example :
    is_ok (call_tracker refusal) ≡ (is_ok refusal.sent && is_ok refusal.received)
call_tracker_ignores_reply_example = call_tracker_ignores_reply refusal

abbrev grant : Exchange
grant = record {
  sent = RetCode.ok;
  received = RetCode.ok;
  reply = some (query_peer_reply (record { return_code = 0; file_id = "f"; count = 0; info = [] }));
}

abbrev with_tracker : SockManager
with_tracker = record empty { server_socks = ("10.0.0.2:9977", 5) ∷ [] }

get_tracker_sock_found : get_tracker_sock with_tracker "10.0.0.2:9977" ≡ some 5
unfolding get_tracker_sock lookup
get_tracker_sock_found = refl

request_clients_lem_example :
    request_clients with_tracker "10.0.0.2:9977" "f" (pos 50) (pos 3) [] [] grant
    ≡ granted [] (cast_reply cast_query_peer_reply grant.reply)
unfolding is_ok
request_clients_lem_example =
    request_clients_lem with_tracker "10.0.0.2:9977" "f" 50 2 [] [] grant 5 get_tracker_sock_found
