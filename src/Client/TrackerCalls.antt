-- ===== src/Client/TrackerCalls.antt =====
-- client/src/client.cc: the requests to the tracker. What the connection answers is an argument: the
-- codes of `NetPack::sendBy` and `NetPack::receiveFrom`, and the message that came, if it could be parsed.
pub mod Replies
mod Tests
use cool_down.Prelude.{
  ℕ, zero, suc, String, Option, none, some, List, [], ◌∷◌, ◌++◌, Bool, true, false, map,
  if◌then◌else◌, ◌&&◌, not,
}
use cool_down.Prelude.Int.{ℤ, pos, negsuc, leb_ℤ, ltb_ℤ}
use cool_down.ErrorCode.{RetCode, is_ok}
use cool_down.Outcome.{
  Outcome, Fault, done, throw, null_pointer, assertion, assert, or_throw, ◌>>=◌, ◌>>◌,
}
use cool_down.Messages.{
  Message, MessageReply, QueryPeerReply, PeerFileInfo, Login, Logout, PublishResource,
  ReportProgress, QueryPeer, login, logout, publish_resource, report_progress, query_peer,
  cast_message_reply, cast_query_peer_reply,
}
use cool_down.Client.SockManager.{SockManager, connect_tracker, get_tracker_sock}
use cool_down.Client.SockManager.Lists.{SockPtr}
use cool_down.Client.JobInfo.{FileOwnerInfo, file_owner_info}

-- How one request and its reply go over a connection, when no exception leaves the two calls.
pub record Exchange : Type 0 where
  pub sent : RetCode
  pub received : RetCode
  pub reply : Option Message

abbrev pub is_zero : ℕ → Bool
is_zero zero = true
is_zero (suc n) = false

-- `pack.message().cast<T>()`
abbrev pub cast_reply {ℓ} : {R : Type ℓ} → (Message → Option R) → Option Message → Option R
cast_reply cast none = none
cast_reply cast (some m) = cast m

-- `handle_reply_message`: the code, and `*out`. All ways that fail jump to `err` and return `ret`.
unfoldable pub handle_reply_message :
    {R : Type 0} → (Message → Option R) → (R → ℕ) → Exchange → RetCode × Option R
handle_reply_message cast return_code x =
    if not (is_ok x.sent)
    then (x.sent, none)
    else if not (is_ok x.received)
    then (x.received, none)
    else elim (cast_reply cast x.reply) [
      | none ↦ (x.received, none)
      | some r ↦ if is_zero (return_code r) then (RetCode.ok, some r) else (x.received, some r)
    ]

unfoldable pub call_tracker : Exchange → RetCode
unfolding handle_reply_message
call_tracker x = (handle_reply_message cast_message_reply (λ r. r.return_code) x).0

-- What comes of a request: it goes over and is answered, or an exception leaves `NetPack::sendBy`, or,
-- when the request has been sent, `NetPack::receiveFrom`.
pub data Attempt : Type 0 where
  went : Exchange → Attempt
  send_raises receive_raises : Fault → Attempt

-- The request, if it has been sent as a whole, and the code.
abbrev pub Sent : Type 0
Sent = Option Message × Outcome RetCode

unfoldable pub ask : Message → Attempt → Sent
unfolding call_tracker is_ok
ask msg (went x) = (if is_ok x.sent then some msg else none, done (call_tracker x))
ask msg (send_raises e) = (none, throw e)
ask msg (receive_raises e) = (some msg, throw e)

-- `connected` is the connection to the tracker, if it could be made, and `address` the key that is
-- formatted from the address and the port.
unfoldable pub login_tracker :
    SockManager → String → ℤ → Option (ℕ × String) → String → Attempt → SockManager × Sent
unfolding ask
login_tracker m clientid local_port connected address x =
    let (m', ret) = connect_tracker m connected in
    if not (is_ok ret) then (m', (none, done ret)) else elim (get_tracker_sock m' address) [
      | none ↦ (m', (none, throw assertion))
      | some sock ↦ (
        m',
        ask (login (record { client_id = clientid; login_ip = none; message_port = local_port })) x,
      )
    ]

-- The calls that only need the socket: the code without one differs.
abbrev pub over_socket : SockPtr → RetCode → Message → Attempt → Sent
over_socket none ret msg x = (none, done ret)
over_socket (some sock) ret msg x = ask msg x

unfoldable pub logout_from_tracker : SockManager → String → String → Attempt → Sent
unfolding ask
logout_from_tracker m clientid address x =
    over_socket (get_tracker_sock m address) RetCode.net_connect
      (logout (record { client_id = clientid })) x

unfoldable pub publish_resource_to_tracker : SockManager → String → String → String → Attempt → Sent
unfolding ask
publish_resource_to_tracker m clientid address fileid x =
    over_socket (get_tracker_sock m address) RetCode.net_not_connected
      (publish_resource (record { client_id = clientid; file_id = fileid })) x

unfoldable pub report_progress_to_tracker :
    SockManager → String → String → String → ℤ → Attempt → Sent
unfolding ask
report_progress_to_tracker m clientid address fileid percentage x =
    over_socket (get_tracker_sock m address) RetCode.net_connect
      (report_progress (record { client_id = clientid; file_id = fileid; percentage = percentage }))
      x

abbrev pub owner_of : PeerFileInfo → FileOwnerInfo
owner_of p = file_owner_info p.client.client_id p.client.ip p.client.message_port p.percentage

-- The reply is read for the log before it is known to be there.
unfoldable pub collect :
    List FileOwnerInfo → RetCode × Option QueryPeerReply → Outcome (RetCode × List FileOwnerInfo)
collect infos (ret, out) = do
  r ← or_throw null_pointer out
  done (
      if is_ok ret && is_zero r.return_code
      then (ret, infos ++ map owner_of r.info)
      else (RetCode.unknown, infos))

unfoldable pub request_clients :
    SockManager
    → String
    → String
    → ℤ
    → ℤ
    → List String
    → List FileOwnerInfo
    → Exchange
    → Outcome (RetCode × List FileOwnerInfo)
unfolding handle_reply_message collect
request_clients m address fileid percentage need_count clientids infos x = do
  assert (leb_ℤ (pos 0) percentage)
  assert (ltb_ℤ (pos 0) need_count)
  elim (get_tracker_sock m address) [
    | none ↦ done (RetCode.net_connect, infos)
    | some sock ↦ collect infos (handle_reply_message cast_query_peer_reply (λ r. r.return_code) x)
  ]

-- The request of `request_clients`.
abbrev pub peer_request : String → ℤ → ℤ → List String → Message
peer_request fileid percentage need_count clientids = query_peer (record {
  file_id = fileid;
  percentage = percentage;
  need_count = need_count;
  owned_clients = clientids;
})
