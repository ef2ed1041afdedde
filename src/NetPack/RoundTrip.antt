-- ===== src/NetPack/RoundTrip.antt =====
-- What one side sends, the other receives.
use mathlib.Core.List.{append_assoc}
use cool_down.Prelude.{ℕ, ◌^◌, ◌<◌, ◌≡◌, refl, ap, ◌∙◌, arith, some, List, ◌++◌, length}
use cool_down.Prelude.Int.{ℤ, pos, to_i32-small}
use cool_down.ErrorCode.{RetCode}
use cool_down.Outcome.{done}
use cool_down.Messages.{Message}
use cool_down.NetPack.{Wire, NetPack, Moves, set_message, send_by, receive_from, message}
use cool_down.NetPack.Whole.{
  IsFaithful, IsAmple, send_by_all, receive_payload_all, receive_header_all, receive_from_all,
}

-- The header tells what the packet holds.
record IsPacked (p : NetPack) : Type 0 where
  kind : p.header.payload_type ≡ p.payload_type
  name : p.header.message_name ≡ p.message_name
  size : p.header.payload_length ≡ pos (length p.payload)

module _ (wire : Wire) (laws : IsFaithful wire) (p : NetPack) (header : List ℕ)
    (s : wire.serialize_header p.header ≡ some header) (short : length header < 1000) where
  open laws use {sized, parsed_header, four, converted}

  abbrev header_length : List ℕ
  header_length = wire.to_network (pos (length header))

  send_by-eq :
      (out : Moves)
      → IsAmple out header p.payload
      → send_by wire p out ≡ (header_length ++ (header ++ p.payload), RetCode.ok)
  send_by-eq out go =
      send_by_all wire p out header_length header
        (rw (sized p.header header s, to_i32-small (length header) (omega arith)) refl)
        (four (length header) (omega arith)) s go

  receive_from-eq :
      (arrived : Moves) (uninit : ℤ) (rest : List ℕ)
      → IsPacked p
      → 0 < length header
      → IsAmple arrived header p.payload
      → receive_from wire uninit arrived (header_length ++ (header ++ (p.payload ++ rest)))
        ≡ done (RetCode.ok, p, rest)
  receive_from-eq arrived uninit rest packed some_header come =
      receive_from_all wire uninit arrived header_length (header ++ (p.payload ++ rest))
        (length header) (four (length header) (omega arith)) come.for_length
        (converted (length header) (omega arith)) some_header short
      ∙ receive_header_all wire p.header arrived header (p.payload ++ rest) come.for_header
          (parsed_header p.header header s)
      ∙ receive_payload_all wire p.header arrived.for_payload p.payload rest packed.size
          come.for_payload
      ∙ rw (packed.kind, packed.name) refl

set_message-IsPacked :
    (wire : Wire) (kind : ℤ) (m : Message) (payload : List ℕ)
    → wire.serialize m ≡ some payload
    → length payload < 2 ^ 31
    → IsPacked (set_message wire kind m)
unfolding set_message
set_message-IsPacked wire kind m payload s fits = record {
  kind = refl;
  name = refl;
  size = rw s (to_i32-small (length payload) fits);
}

set_message-payload :
    (wire : Wire) (kind : ℤ) (m : Message) (payload : List ℕ)
    → wire.serialize m ≡ some payload
    → (set_message wire kind m).payload ≡ payload
unfolding set_message
set_message-payload wire kind m payload s = rw s refl

message-set_message :
    (wire : Wire) (laws : IsFaithful wire) (kind : ℤ) (m : Message) (payload : List ℕ)
    → wire.serialize m ≡ some payload
    → message wire (set_message wire kind m) ≡ some m
unfolding set_message message
message-set_message wire laws kind m payload s =
    rw (s, laws.known m payload s, laws.parsed m payload s) refl

module _ (wire : Wire) (laws : IsFaithful wire) (kind : ℤ) (m : Message) where
  -- For a library that is as documented: a message that can be serialized to less than 2 ^ 31 bytes,
  -- with a header of 1 to 999 bytes, goes out whole when each call sends all that it is asked to; from
  -- what was sent, and whatever follows it, the other side receives the same packet when each of its
  -- calls receives all that it is asked to, and reads from the packet the same message.
  pub receive_from-send_by :
      (payload header : List ℕ) (out arrived : Moves) (uninit : ℤ) (rest : List ℕ)
      → wire.serialize m ≡ some payload
      → wire.serialize_header (set_message wire kind m).header ≡ some header
      → length payload < 2 ^ 31
      → 0 < length header
      → length header < 1000
      → IsAmple out header payload
      → IsAmple arrived header payload
      → ((send_by wire (set_message wire kind m) out).1 ≡ RetCode.ok)
        × (receive_from wire uninit arrived ((send_by wire (set_message wire kind m) out).0 ++ rest)
            ≡ done (RetCode.ok, set_message wire kind m, rest))
        × (message wire (set_message wire kind m) ≡ some m)
  receive_from-send_by payload header out arrived uninit rest s sh fits some_header short go come =
      let p = set_message wire kind m in
      let same : p.payload ≡ payload = set_message-payload wire kind m payload s in
      let sent = send_by-eq wire laws p header sh short out (rw same go) in
      (
        ap (λ x. x.1) sent,
        rw
            (
              sent,
              append_assoc (header_length wire laws p header sh short) (header ++ p.payload) rest,
              append_assoc header p.payload rest,
            )
            (receive_from-eq wire laws p header sh short arrived uninit rest
              (set_message-IsPacked wire kind m payload s fits) some_header (rw same come)),
        message-set_message wire laws kind m payload s,
      )
