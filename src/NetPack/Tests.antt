-- ===== src/NetPack/Tests.antt =====
-- A small library for messages, and packets that go over a connection with it.
use cool_down.Prelude.{
  ℕ, ◌+◌, ◌*◌, ◌/◌, ◌%◌, ◌^◌, ◌≡◌, refl, ◌↔◌, arith, String, Option, none, some, List, [], ◌∷◌,
  ◌++◌, Bool, true, false, length, ◌==◌, string_key, take, ap, Bool-cases, inl, inr,
}
use cool_down.Prelude.Int.{ℤ, pos, negsuc}
use cool_down.ErrorCode.{RetCode, is_ok}
use cool_down.Outcome.{done, throw, assertion}
use cool_down.Messages.{Message, message_reply}
use cool_down.NetPack.{
  NetPackHeader, Wire, Moves, no_header, clear, set_message, send_by, send_header_length,
  receive_from, message, receive_header_length, receive_header, receive_payload,
}
use cool_down.NetPack.Whole.{IsFaithful, IsAmple}
use cool_down.NetPack.RoundTrip.{receive_from-send_by}
use cool_down.NetPack.Codes.{send_by_ok, receive_from-end}

-- A reply is its code; no other message can be serialized.
abbrev name_of : Message → String
name_of (message_reply r) = "TrackerProto.MessageReply"
name_of _ = "other"

abbrev serialize_reply : Message → Option (List ℕ)
serialize_reply (message_reply r) = some (r.return_code ∷ [])
serialize_reply _ = none

abbrev parse_reply : List ℕ → Option Message
parse_reply (n ∷ []) = some (message_reply (record { return_code = n }))
parse_reply _ = none

-- A header is the name, as one bit, and two numbers that are not negative.
abbrev write_header : Bool → ℤ → ℤ → Option (List ℕ)
write_header true (pos k) (pos n) = some (k ∷ n ∷ [])
write_header _ _ _ = none

abbrev read_header : List ℕ → Bool × NetPackHeader
read_header (k ∷ n ∷ []) = (
  true,
  record {
    payload_type = pos k;
    payload_length = pos n;
    message_name = "TrackerProto.MessageReply";
  },
)
read_header _ = (false, no_header)

abbrev big_endian : ℤ → List ℕ
big_endian (pos n) = n / 2 ^ 24 ∷ n / 2 ^ 16 % 256 ∷ n / 2 ^ 8 % 256 ∷ n % 256 ∷ []
big_endian (negsuc n) = []

abbrev from_big_endian : List ℕ → ℤ
from_big_endian (a ∷ b ∷ c ∷ d ∷ []) = pos (a * 2 ^ 24 + b * 2 ^ 16 + c * 2 ^ 8 + d)
from_big_endian _ = pos 0

abbrev wire : Wire
wire = record {
  full_name = name_of;
  serialize = serialize_reply;
  find_message_type_by_name = λ name. name == "TrackerProto.MessageReply";
  parse = λ name bs. parse_reply bs;
  serialize_header = λ h.
      write_header (h.message_name == "TrackerProto.MessageReply") h.payload_type h.payload_length;
  byte_size = λ h. 2;
  parse_header = read_header;
  to_network = big_endian;
  from_network = from_big_endian;
}

wire-known :
    (m : Message) (bs : List ℕ)
    → serialize_reply m ≡ some bs
    → (name_of m == "TrackerProto.MessageReply") ≡ true
wire-known (message_reply r) bs e = refl
wire-known _ bs e = cc

wire-parsed : (m : Message) (bs : List ℕ) → serialize_reply m ≡ some bs → parse_reply bs ≡ some m
wire-parsed (message_reply r) bs e = ground arith
wire-parsed _ bs e = cc

wire-header :
    (name : String) (k n : ℤ) (bs : List ℕ)
    → write_header (name == "TrackerProto.MessageReply") k n ≡ some bs
    → (2 ≡ length bs)
      × (read_header bs
          ≡ (true, record { payload_type = k; payload_length = n; message_name = name }))
wire-header name k n bs e = elim (Bool-cases (name == "TrackerProto.MessageReply")) [
  | inl t ↦
      rw ((string_key.beq_iff name "TrackerProto.MessageReply").0 t)
        (header_back k n bs (rw t at e))
  | inr f ↦ absurd (header_refused k n bs (rw f at e))
]
  where
    header_back :
        (k n : ℤ) (bs : List ℕ)
        → write_header true k n ≡ some bs
        → (2 ≡ length bs)
          × (read_header bs ≡ (
            true,
            record {
              payload_type = k;
              payload_length = n;
              message_name = "TrackerProto.MessageReply";
            },
          ))
    header_back (pos k) (pos n) bs e = ground arith
    header_back (pos k) (negsuc n) bs e = cc
    header_back (negsuc k) n bs e = cc

    header_refused : (k n : ℤ) (bs : List ℕ) → write_header false k n ≡ some bs → ⊥
    header_refused k n bs e = cc

big_endian-back : (n : ℕ) → from_big_endian (big_endian (pos n)) ≡ pos n
big_endian-back n = ap pos (omega arith)

wire-IsFaithful : IsFaithful wire
wire-IsFaithful = record {
  known = wire-known;
  parsed = wire-parsed;
  sized = λ h bs e. (wire-header h.message_name h.payload_type h.payload_length bs e).0;
  parsed_header = λ h bs e. (wire-header h.message_name h.payload_type h.payload_length bs e).1;
  four = λ n l. refl;
  converted = λ n l. big_endian-back n;
}

abbrev refusal : Message
refusal = message_reply (record { return_code = 5 })

abbrev plenty : Moves
plenty = record { for_length = 4; for_header = 100; for_payload = 100 }

plenty-IsAmple : IsAmple plenty (20001 ∷ 1 ∷ []) (5 ∷ [])
plenty-IsAmple = record {
  for_length = omega arith;
  for_header = omega arith;
  for_payload = omega arith;
}

receive_from-send_by_example :
    ((send_by wire (set_message wire (pos 20001) refusal) plenty).1 ≡ RetCode.ok)
    × (receive_from wire
          (pos 0)
          plenty
          ((send_by wire (set_message wire (pos 20001) refusal) plenty).0 ++ 7 ∷ 8 ∷ [])
        ≡ done (RetCode.ok, set_message wire (pos 20001) refusal, 7 ∷ 8 ∷ []))
    × (message wire (set_message wire (pos 20001) refusal) ≡ some refusal)
unfolding set_message
receive_from-send_by_example =
    receive_from-send_by wire wire-IsFaithful (pos 20001) refusal (5 ∷ []) (20001 ∷ 1 ∷ []) plenty
      plenty (pos 0) (7 ∷ 8 ∷ []) refl refl (omega arith) (omega arith) (omega arith) plenty-IsAmple
      plenty-IsAmple

-- Nothing of the header goes out.
abbrev without_header : Moves
without_header = record { for_length = 4; for_header = 0; for_payload = 1 }

send_by_ok_example :
    ((send_by wire (set_message wire (pos 20001) refusal) without_header).1 ≡ RetCode.ok) ↔ (
      (length (send_header_length wire (set_message wire (pos 20001) refusal) 4).0 ≡ 4)
      × ((header : List ℕ) × (wire.serialize_header (set_message wire (pos 20001) refusal).header
            ≡ some header))
      × (length (take 1 (set_message wire (pos 20001) refusal).payload)
          ≡ length (set_message wire (pos 20001) refusal).payload))
send_by_ok_example = send_by_ok wire (set_message wire (pos 20001) refusal) without_header

receive_from-end_example : receive_from wire (pos 0) plenty [] ≡ throw assertion
receive_from-end_example = receive_from-end wire (pos 0) plenty

-- A payload that comes in two parts is an error.
partly_received :
    receive_from wire
      (pos 0)
      (record { for_length = 4; for_header = 2; for_payload = 0 })
      (0 ∷ 0 ∷ 0 ∷ 2 ∷ 20001 ∷ 1 ∷ 5 ∷ [])
    ≡ done (
      RetCode.pack_recv_payload,
      record clear {
        header = record {
          payload_type = pos 20001;
          payload_length = pos 1;
          message_name = "TrackerProto.MessageReply";
        };
      },
      5 ∷ [],
    )
unfolding receive_from receive_header_length receive_header receive_payload is_ok
partly_received = refl
