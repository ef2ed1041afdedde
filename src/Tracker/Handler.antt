-- ===== src/Tracker/Handler.antt =====
-- tracker/src/tracker_connection_handler.cc. A handler keeps the client id of its login. A statement
-- that throws changes nothing in the database.
use cool_down.Prelude.{
  ℕ, String, Option, none, some, List, [], ◌∷◌, ◌++◌, map, length, ◌==◌, not, nat_key, string_key,
  if◌then◌else◌,
}
use cool_down.ErrorCode.{RetCode, is_ok}
use cool_down.Outcome.{Outcome, done, throw, ◌>>=◌}
use cool_down.Messages.{
  Message, login, logout, query_peer, report_progress, publish_resource, message_reply,
  query_peer_reply, MessageReply, QueryPeerReply, PeerFileInfo, payload_code, payload_login,
  payload_logout, payload_request_peer, payload_report_progress, payload_publish_resource,
  payload_message_reply, payload_request_peer_replay,
}
use cool_down.Tracker.Database.{Session, Owner}
use cool_down.Tracker.Service.{
  add_online_user, remove_online_user, find_clients, note_progress, note_resource,
}

-- `host` is the address of the peer.
pub record Handler : Type 0 where
  pub clientid : String
  pub host : String

abbrev pub or_host : Option String → String → String
or_host none host = host
or_host (some ip) host = ip

abbrev pub refused : MessageReply
refused = record { return_code = 1 }

abbrev pub accepted : MessageReply
accepted = record { return_code = 0 }

abbrev pub reply_of : RetCode → MessageReply
reply_of ret = if is_ok ret then accepted else refused

abbrev pub peer_info : Owner → PeerFileInfo
peer_info o = record {
  client = record { client_id = o.row.clientid; ip = o.row.ip; message_port = o.row.message_port };
  percentage = o.row.percentage;
}

abbrev pub no_peers : String → QueryPeerReply
no_peers fileid = record { return_code = 1; file_id = fileid; count = 0; info = [] }

module _ (mysql : Session) where
  open mysql use {Db}

  -- The database and the reply; an exception leaves the refusal that was filled in first.
  abbrev pub answered : Db → Outcome (Db × RetCode) → Db × MessageReply
  answered db (throw e) = (db, refused)
  answered db (done (db', ret)) = (db', reply_of ret)

  unfoldable pub handle_login : Handler → String → Message → Db → Handler × Db × MessageReply
  unfolding add_online_user
  handle_login h now (login l) db =
      let h' = record h { clientid = l.client_id } in
      let (db', reply) =
        answered db
          (add_online_user mysql l.client_id (or_host l.login_ip h.host) l.message_port now db) in
      (h', db', reply)
  handle_login h now _ db = (h, db, refused)

  unfoldable pub handle_logout : Handler → Message → Db → Db × MessageReply
  unfolding remove_online_user
  handle_logout h (logout l) db =
      if l.client_id == h.clientid
      then answered db (remove_online_user mysql l.client_id db)
      else (db, refused)
  handle_logout h _ db = (db, refused)

  -- From the result of the search, or its exception, to the reply.
  abbrev pub peers_reply : String → Outcome (RetCode × List Owner) → QueryPeerReply
  peers_reply fileid (throw e) = no_peers fileid
  peers_reply fileid (done (ret, clients)) =
      if is_ok ret
      then record {
        return_code = 0;
        file_id = fileid;
        count = length clients;
        info = map peer_info clients;
      }
      else no_peers fileid

  unfoldable pub handle_request_peer : Handler → Message → Db → QueryPeerReply
  unfolding find_clients
  handle_request_peer h (query_peer q) db = peers_reply q.file_id (
      find_clients mysql q.file_id q.percentage q.need_count (q.owned_clients ++ h.clientid ∷ [])
        db)
  handle_request_peer h _ db = no_peers ""

  unfoldable pub handle_report_progress : Message → Db → Db × MessageReply
  unfolding note_progress
  handle_report_progress (report_progress r) db =
      answered db (note_progress mysql r.client_id r.file_id r.percentage db)
  handle_report_progress _ db = (db, refused)

  unfoldable pub handle_publish_resource : Message → Db → Db × MessageReply
  unfolding note_resource
  handle_publish_resource (publish_resource p) db =
      answered db (note_resource mysql p.client_id p.file_id db)
  handle_publish_resource _ db = (db, refused)

  -- The packet that goes out, by its payload type and message; none is the packet as it was made.
  abbrev pub Packet : Type 0
  Packet = Option (ℕ × Message)

  abbrev pub plain : Handler → Db × MessageReply → Handler × Db × Packet
  plain h (db, reply) = (h, db, some (payload_code payload_message_reply, message_reply reply))

  unfoldable pub process : Handler → String → ℕ → Option Message → Db → Handler × Db × Packet
  unfolding payload_code handle_login handle_logout handle_request_peer handle_report_progress
      handle_publish_resource
  process h now kind none db = (h, db, none)
  process h now kind (some m) db =
      if kind == payload_code payload_login
      then (let (h', db', reply) = handle_login h now m db in plain h' (db', reply))
      else if kind == payload_code payload_logout
      then plain h (handle_logout h m db)
      else if kind == payload_code payload_request_peer
      then (
        h,
        db,
        some (
          payload_code payload_request_peer_replay,
          query_peer_reply (handle_request_peer h m db),
        ),
      )
      else if kind == payload_code payload_report_progress
      then plain h (handle_report_progress m db)
      else if kind == payload_code payload_publish_resource
      then plain h (handle_publish_resource m db)
      else plain h (db, refused)

  -- The handler after the event; none when it has deleted itself.
  abbrev pub Kept : Type 0
  Kept = Option Handler × Db × Packet

  abbrev pub drop_client : Handler → Db → Packet → Outcome Kept
  drop_client h db out = do (db', _) ← remove_online_user mysql h.clientid db; done (none, db', out)

  -- `received` and `sent` are the codes of the two packets.
  unfoldable pub on_readable :
      Handler → String → RetCode → ℕ → Option Message → RetCode → Db → Outcome Kept
  unfolding process remove_online_user
  on_readable h now received kind m sent db =
      if not (is_ok received)
      then drop_client h db none
      else (let (h', db', out) = process h now kind m db in
          if is_ok sent then done (some h', db', out) else drop_client h' db' out)

  unfoldable pub on_shutdown : Db → Option Handler × Db
  on_shutdown db = (none, db)
