-- ===== src/Tracker/Replies.antt =====
-- The packets with which the tracker answers.
use cool_down.Prelude.{ℕ, ◌≡◌, String, some, false, arith, ◌==◌, nat_key, string_key, if◌then◌else◌}
use cool_down.Messages.{
  Message, Logout, MessageReply, logout, message_reply, query_peer_reply, payload_code,
  payload_login, payload_logout, payload_request_peer, payload_report_progress,
  payload_publish_resource, payload_message_reply, payload_request_peer_replay,
}
use cool_down.Tracker.Database.{Session}
use cool_down.Tracker.Handler.{
  Handler, refused, handle_login, handle_logout, handle_request_peer, handle_report_progress,
  handle_publish_resource, process,
}

module _ (mysql : Session) where
  open mysql use {Db}

  -- A request whose message was parsed is answered by one packet, whatever the message is and also when
  -- the database throws: with a list of peers for the payload type of a request for peers, and
  -- with a plain reply for every other payload type.
  process_reply :
      (h : Handler) (now : String) (kind : ℕ) (m : Message) (db : Db)
      → (r : MessageReply) × ((process mysql h now kind (some m) db).2
          ≡ some (
              if kind == payload_code payload_request_peer
              then (
                payload_code payload_request_peer_replay,
                query_peer_reply (handle_request_peer mysql h m db),
              )
              else (payload_code payload_message_reply, message_reply r)))
  unfolding process payload_code
  process_reply h now kind m db = (
    if kind == payload_code payload_login
        then (handle_login mysql h now m db).2
        else if kind == payload_code payload_logout
        then (handle_logout mysql h m db).1
        else if kind == payload_code payload_report_progress
        then (handle_report_progress mysql m db).1
        else if kind == payload_code payload_publish_resource
        then (handle_publish_resource mysql m db).1
        else refused,
    ground arith,
  )

  -- A logout that names another client than the connection has logged in, sent with any payload type,
  -- leaves the database and the handler as they were.
  process_foreign_logout :
      (h : Handler) (now : String) (kind : ℕ) (l : Logout) (db : Db)
      → (l.client_id == h.clientid) ≡ false
      → let (h', db', out) = process mysql h now kind (some (logout l)) db in (h' ≡ h) × (db' ≡ db)
  unfolding process handle_login handle_logout handle_report_progress handle_publish_resource
  process_foreign_logout h now kind l db e = ground arith
