-- ===== src/Tracker/NetManager.antt =====
-- tracker/src/net_manager.cc and tracker/include/net_manager.h. A socket is what was sent over it. The
-- bodies of `Recv` and `Connect` stand in comments, and `Bind` has none.
use cool_down.Prelude.{
  ℕ, ◌≡◌, refl, String, none, some, List, [], ◌∷◌, ◌++◌, take, length, ◌==◌, nat_key, string_key,
  if◌then◌else◌,
}
use cool_down.Prelude.Int.{ℤ}
use cool_down.Prelude.Map.{Map, lookup, insert}
use cool_down.ErrorCode.{RetCode}
use cool_down.NetPack.{Wire, NetPack, Moves, send_by}

-- tracker/include/client_info.h
record ClientInfo : Type 0 where
  client_id : String
  ip : String
  message_port : ℤ

record NetManager : Type 0 where
  socks : Map String (List ℕ)

unfoldable new_net_manager : NetManager
new_net_manager = record { socks = [] }

-- `GetSockHandler`: the same key for every peer
unfoldable get_sock_handler : ClientInfo → String
get_sock_handler info = ""

-- What a call sends, written to the socket.
abbrev written : NetManager → String → List ℕ → List ℕ × RetCode → NetManager × RetCode
written m key before (bytes, ret) = (record m { socks = insert key (before ++ bytes) m.socks }, ret)

unfoldable send : Wire → ClientInfo → NetPack → Moves → NetManager → NetManager × RetCode
unfolding get_sock_handler
send wire peer_info content moves m =
    let key = get_sock_handler peer_info in
    elim (lookup key m.socks) [
      | none ↦ (m, RetCode.net_not_connected)
      | some before ↦ written m key before (send_by wire content moves)
    ]

-- `moves` is how many bytes one `sendBytes` takes.
unfoldable send_data : ClientInfo → List ℕ → ℕ → NetManager → NetManager × RetCode
unfolding get_sock_handler
send_data peer_info content moves m =
    let key = get_sock_handler peer_info in
    let sent = take moves content in
    elim (lookup key m.socks) [
      | none ↦ (m, RetCode.net_not_connected)
      | some before ↦
          written m key before
            (sent, if length content == length sent then RetCode.ok else RetCode.net_send_data)
    ]

-- `Recv` leaves the packet as it is.
unfoldable recv : ClientInfo → NetPack → NetManager → NetManager × NetPack × RetCode
recv peer_info content m = (m, content, RetCode.ok)

unfoldable connect : ClientInfo → NetManager → NetManager × RetCode
connect peer_info m = (m, RetCode.ok)

data Call : Type 0 where
  send_call : ClientInfo → NetPack → Moves → Call
  send_data_call : ClientInfo → List ℕ → ℕ → Call
  recv_call : ClientInfo → NetPack → Call
  connect_call : ClientInfo → Call

module _ (wire : Wire) where
  unfoldable step : Call → NetManager → NetManager
  unfolding send send_data recv connect
  step (send_call peer p moves) m = (send wire peer p moves m).0
  step (send_data_call peer bytes moves) m = (send_data peer bytes moves m).0
  step (recv_call peer p) m = (recv peer p m).0
  step (connect_call peer) m = (connect peer m).0

  unfoldable run : List Call → NetManager → NetManager
  unfolding step
  run [] m = m
  run (c ∷ cs) m = run cs (step c m)

  step_unconnected : (c : Call) (m : NetManager) → m.socks ≡ [] → (step c m).socks ≡ []
  unfolding step send send_data recv connect lookup
  step_unconnected (send_call peer p moves) m h = rw h refl
  step_unconnected (send_data_call peer bytes moves) m h = rw h refl
  step_unconnected (recv_call peer p) m h = h
  step_unconnected (connect_call peer) m h = h

  run_unconnected : (cs : List Call) (m : NetManager) → m.socks ≡ [] → (run cs m).socks ≡ []
  unfolding run
  run_unconnected [] m h = h
  run_unconnected (c ∷ cs) m h = run_unconnected cs (step c m) (step_unconnected c m h)

  -- After any history of calls of a new manager, a connection that was asked for among them, sending
  -- a packet or bytes answers `ERROR_NET_NOT_CONNECTED`.
  send-run :
      (cs : List Call) (peer : ClientInfo) (p : NetPack) (moves : Moves) (bytes : List ℕ) (n : ℕ)
      → ((send wire peer p moves (run cs new_net_manager)).1 ≡ RetCode.net_not_connected)
        × ((send_data peer bytes n (run cs new_net_manager)).1 ≡ RetCode.net_not_connected)
  unfolding send send_data lookup new_net_manager
  send-run cs peer p moves bytes n =
      let none_there = run_unconnected cs new_net_manager refl in
      (rw none_there refl, rw none_there refl)
