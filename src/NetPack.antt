-- ===== src/NetPack.antt =====
-- public/netpack/include/netpack.h and public/netpack/src/netpack.cc. A byte is a number, a socket the
-- stream of the bytes that go over it. How many bytes one `sendBytes` or `receiveBytes` moves is an
-- argument, since neither loops; an exception of the socket is left out. The library that makes bytes
-- of messages is a parameter.
pub mod Whole
pub mod RoundTrip
pub mod Codes
mod Tests
use cool_down.Prelude.{
  ℕ, String, Option, none, some, List, [], ◌∷◌, ◌++◌, Bool, true, false, not, length, take, drop,
  ◌==◌, ◌&&◌, nat_key, if◌then◌else◌,
}
use cool_down.Prelude.Int.{ℤ, pos, negsuc, ltb_ℤ, to_i32}
use cool_down.ErrorCode.{RetCode, is_ok}
use cool_down.Outcome.{Outcome, done, throw, exception, assert, ◌>>=◌, ◌>>◌}
use cool_down.Messages.{Message}

-- proto/netpack_header.proto
pub record NetPackHeader : Type 0 where
  pub payload_type : ℤ
  pub payload_length : ℤ
  pub message_name : String

-- What `Clear` leaves.
abbrev pub no_header : NetPackHeader
no_header = record { payload_type = pos 0; payload_length = pos 0; message_name = "" }

-- What the code calls of the library for messages and of `Poco::ByteOrder`. A serialization that fails
-- is `none`; the parse of a header also tells what the header holds then; `to_network` gives the bytes
-- in memory of the converted number.
pub record Wire : Type 0 where
  pub full_name : Message → String
  pub serialize : Message → Option (List ℕ)
  pub find_message_type_by_name : String → Bool
  pub parse : String → List ℕ → Option Message
  pub serialize_header : NetPackHeader → Option (List ℕ)
  pub byte_size : NetPackHeader → ℕ
  pub parse_header : List ℕ → Bool × NetPackHeader
  pub to_network : ℤ → List ℕ
  pub from_network : List ℕ → ℤ

pub record NetPack : Type 0 where
  pub payload_type : ℤ
  pub payload : List ℕ
  pub message_name : String
  pub header : NetPackHeader

-- `NetPack::NetPack()` and `clear`
unfoldable pub clear : NetPack
clear = record { payload_type = pos 0; payload = []; message_name = ""; header = no_header }

-- `sizeof(Int32)`
abbrev pub size_of_length : ℕ
size_of_length = 4

-- How many bytes each of the three calls would move.
pub record Moves : Type 0 where
  pub for_length : ℕ
  pub for_header : ℕ
  pub for_payload : ℕ

module _ (wire : Wire) where
  open wire use {
    full_name, serialize, find_message_type_by_name, parse, serialize_header, byte_size,
    parse_header, to_network, from_network,
  }

  abbrev pub or_nothing : Option (List ℕ) → List ℕ
  or_nothing none = []
  or_nothing (some bs) = bs

  -- A message that cannot be serialized is logged, and leaves the payload empty.
  unfoldable pub set_message : ℤ → Message → NetPack
  set_message kind msg =
      let payload = or_nothing (serialize msg) in
      record {
        payload_type = kind;
        payload = payload;
        message_name = full_name msg;
        header = record {
          payload_type = kind;
          payload_length = to_i32 (length payload);
          message_name = full_name msg;
        };
      }

  -- The bytes that go out, and the code.
  unfoldable pub send_header_length : NetPack → ℕ → List ℕ × RetCode
  send_header_length p moves =
      let sent = take moves (to_network (to_i32 (byte_size p.header))) in
      (sent, if length sent == size_of_length then RetCode.ok else RetCode.pack_send_header_length)

  -- What follows the length. The number of bytes of the header that were sent is not looked at.
  unfoldable pub send_rest : NetPack → Moves → List ℕ × RetCode
  send_rest p moves = elim (serialize_header p.header) [
    | none ↦ ([], RetCode.pack_proto_serialize)
    | some header_content ↦
        let sent = take moves.for_payload p.payload in
        (
          take moves.for_header header_content ++ sent,
          if length sent == length p.payload then RetCode.ok else RetCode.pack_send_payload,
        )
  ]

  unfoldable pub send_by : NetPack → Moves → List ℕ × RetCode
  send_by p moves =
      let (head, ret) = send_header_length p moves.for_length in
      let (rest, ret') = send_rest p moves in
      if not (is_ok ret) then (head, RetCode.pack_send_header_length) else (head ++ rest, ret')

  -- `uninit` is what `headerLength` holds before it is set. The third result is the stream after it.
  unfoldable pub receive_header_length : ℤ → ℕ → List ℕ → RetCode × ℤ × List ℕ
  receive_header_length uninit moves stream =
      let received = take moves (take size_of_length stream) in
      let rest = drop (length received) stream in
      if length received == size_of_length
      then (RetCode.ok, from_network received, rest)
      else if length received == 0
      then (RetCode.net_graceful_shutdown, uninit, rest)
      else (RetCode.pack_recv_header_length, uninit, rest)

  -- `Buffer<char> buf(n)` converts to an unsigned size, which for a negative number cannot be had.
  abbrev pub buffer : ℤ → Outcome ℕ
  buffer (pos n) = done n
  buffer (negsuc n) = throw exception

  -- What a receive gives: the code, the packet and the stream after it.
  abbrev pub Received : Type 0
  Received = RetCode × NetPack × List ℕ

  unfoldable pub receive_payload : NetPackHeader → ℕ → List ℕ → Outcome Received
  receive_payload header moves stream = do
    size ← buffer header.payload_length
    let received = take moves (take size stream) in
        let rest = drop (length received) stream in
        done (
          if length received == size
          then (
            RetCode.ok,
            record {
              payload_type = header.payload_type;
              payload = received;
              message_name = header.message_name;
              header = header;
            },
            rest,
          )
          else (RetCode.pack_recv_payload, record clear { header = header }, rest))

  unfoldable pub receive_header : ℤ → Moves → List ℕ → Outcome Received
  receive_header header_length moves stream = do
    size ← buffer header_length
    let received = take moves.for_header (take size stream) in
        let rest = drop (length received) stream in
        let (parsed, header) = parse_header received in
        if parsed
        then receive_payload header moves.for_payload rest
        else done (RetCode.pack_proto_parse, record clear { header = header }, rest)

  -- The length is tested before the code.
  unfoldable pub receive_from : ℤ → Moves → List ℕ → Outcome Received
  receive_from uninit moves stream =
      let (ret, header_length, rest) = receive_header_length uninit moves.for_length stream in
      do
        assert (ltb_ℤ (pos 0) header_length && ltb_ℤ header_length (pos 1000))
        if is_ok ret then receive_header header_length moves rest else done (ret, clear, rest)

  unfoldable pub message : NetPack → Option Message
  message p =
      if find_message_type_by_name p.message_name then parse p.message_name p.payload else none
