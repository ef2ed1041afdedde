-- ===== src/Client/TrackerCalls/Replies.antt =====
-- What the replies of the tracker come to.
use cool_down.Prelude.{
  ℕ, ◌≡◌, String, Option, none, some, List, ◌++◌, map, true, ◌&&◌, arith, if◌then◌else◌, suc,
}
use cool_down.Prelude.Int.{pos, leb_ℤ}
use cool_down.ErrorCode.{RetCode, is_ok, is_ok_ok}
use cool_down.Outcome.{Outcome, done, throw, null_pointer}
use cool_down.Messages.{QueryPeerReply, cast_query_peer_reply}
use cool_down.Client.SockManager.{SockManager, get_tracker_sock}
use cool_down.Client.JobInfo.{FileOwnerInfo}
use cool_down.Client.TrackerCalls.{
  Exchange, handle_reply_message, call_tracker, request_clients, collect, cast_reply, is_zero,
  owner_of,
}

-- Login, logout, publishing and reporting come out as a success exactly when the request was sent and
-- something was received: neither a reply of another class nor a return code by which the tracker
-- refuses changes that.
pub call_tracker_ignores_reply :
    (x : Exchange) → is_ok (call_tracker x) ≡ (is_ok x.sent && is_ok x.received)
unfolding call_tracker handle_reply_message
call_tracker_ignores_reply x = ground (arith, is_ok_ok)

-- The clients of a reply, added to the list if the tracker grants the request.
abbrev pub granted :
    List FileOwnerInfo → Option QueryPeerReply → Outcome (RetCode × List FileOwnerInfo)
granted infos none = throw null_pointer
granted infos (some r) =
    if is_zero r.return_code
    then done (RetCode.ok, infos ++ map owner_of r.info)
    else done (RetCode.unknown, infos)

in_range : (n : ℕ) → leb_ℤ (pos 0) (pos n) ≡ true
in_range n = ground arith

-- `RequestClients` with a connection to the tracker and arguments in range adds the clients of the reply,
-- in its order, when the tracker grants the request, and leaves the list alone when it refuses; when
-- the request fails on the network, or the reply has another class, it dereferences a null pointer.
pub request_clients_lem :
    (m : SockManager) (address fileid : String) (percentage need : ℕ) (ids : List String)
    (infos : List FileOwnerInfo) (x : Exchange) (sock : ℕ)
    → get_tracker_sock m address ≡ some sock
    → request_clients m address fileid (pos percentage) (pos (suc need)) ids infos x ≡ (
        if is_ok x.sent && is_ok x.received
        then granted infos (cast_reply cast_query_peer_reply x.reply)
        else throw null_pointer)
unfolding request_clients collect handle_reply_message
request_clients_lem m address fileid percentage need ids infos x sock e =
    rw (e, request_clients) (simp (in_range percentage) (ground (arith, is_ok_ok)))
