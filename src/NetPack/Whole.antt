-- ===== src/NetPack/Whole.antt =====
-- A packet whose calls move all that they are asked to, and what is documented of the library.
use cool_down.Prelude.{
  ℕ, ◌^◌, ◌≤◌, ◌<◌, ◌≡◌, refl, arith, some, List, ◌++◌, true, take, length, take_all, take_front,
  drop_front, nat_beq_refl,
}
use cool_down.Prelude.Int.{ℤ, pos, to_i32}
use cool_down.ErrorCode.{RetCode, is_ok}
use cool_down.Outcome.{done}
use cool_down.Messages.{Message}
use cool_down.NetPack.{
  NetPackHeader, Wire, NetPack, Moves, send_header_length, send_rest, send_by,
  receive_header_length, receive_payload, receive_header, receive_from,
}

-- What is documented of the library: a message and a header are parsed from the bytes that they were
-- serialized to, `ByteSize` is the number of these, and the byte order of a length is changed back.
pub record IsFaithful (wire : Wire) : Type 0 where
  pub known :
      (m : Message) (bs : List ℕ)
      → wire.serialize m ≡ some bs
      → wire.find_message_type_by_name (wire.full_name m) ≡ true
  pub parsed :
      (m : Message) (bs : List ℕ)
      → wire.serialize m ≡ some bs
      → wire.parse (wire.full_name m) bs ≡ some m
  pub sized :
      (h : NetPackHeader) (bs : List ℕ)
      → wire.serialize_header h ≡ some bs
      → wire.byte_size h ≡ length bs
  pub parsed_header :
      (h : NetPackHeader) (bs : List ℕ)
      → wire.serialize_header h ≡ some bs
      → wire.parse_header bs ≡ (true, h)
  pub four : (n : ℕ) → n < 2 ^ 31 → length (wire.to_network (pos n)) ≡ 4
  pub converted : (n : ℕ) → n < 2 ^ 31 → wire.from_network (wire.to_network (pos n)) ≡ pos n

-- Each call moves all that it is asked to.
pub record IsAmple (moves : Moves) (header payload : List ℕ) : Type 0 where
  pub for_length : 4 ≤ moves.for_length
  pub for_header : length header ≤ moves.for_header
  pub for_payload : length payload ≤ moves.for_payload

taken : (n : ℕ) (xs rest : List ℕ) → length xs ≤ n → take n (take (length xs) (xs ++ rest)) ≡ xs
taken n xs rest h = rw (take_front xs rest) (take_all n xs h)

send_header_length_all :
    (wire : Wire) (p : NetPack) (n : ℕ) (head : List ℕ)
    → wire.to_network (to_i32 (wire.byte_size p.header)) ≡ head
    → length head ≡ 4
    → 4 ≤ n
    → send_header_length wire p n ≡ (head, RetCode.ok)
unfolding send_header_length
send_header_length_all wire p n head e l ample =
    let all : take n head ≡ head = take_all n head (omega arith) in rw (e, all, l) refl

send_rest_all :
    (wire : Wire) (p : NetPack) (moves : Moves) (header : List ℕ)
    → wire.serialize_header p.header ≡ some header
    → IsAmple moves header p.payload
    → send_rest wire p moves ≡ (header ++ p.payload, RetCode.ok)
unfolding send_rest
send_rest_all wire p moves header s ample =
    let all_header : take moves.for_header header ≡ header =
      take_all moves.for_header header ample.for_header in
    let all_payload : take moves.for_payload p.payload ≡ p.payload =
      take_all moves.for_payload p.payload ample.for_payload in
    rw (s, all_header, all_payload, nat_beq_refl (length p.payload), send_rest) refl

-- The whole of a packet goes out, and the code is `ERROR_OK`.
pub send_by_all :
    (wire : Wire) (p : NetPack) (moves : Moves) (head header : List ℕ)
    → wire.to_network (to_i32 (wire.byte_size p.header)) ≡ head
    → length head ≡ 4
    → wire.serialize_header p.header ≡ some header
    → IsAmple moves header p.payload
    → send_by wire p moves ≡ (head ++ (header ++ p.payload), RetCode.ok)
unfolding send_by is_ok
send_by_all wire p moves head header e l s ample =
    rw
      (
        send_header_length_all wire p moves.for_length head e l ample.for_length,
        send_rest_all wire p moves header s ample,
        send_by,
      )
      refl

pub receive_payload_all :
    (wire : Wire) (h : NetPackHeader) (n : ℕ) (payload rest : List ℕ)
    → h.payload_length ≡ pos (length payload)
    → length payload ≤ n
    → receive_payload wire h n (payload ++ rest)
      ≡ done (
        RetCode.ok,
        record {
          payload_type = h.payload_type;
          payload = payload;
          message_name = h.message_name;
          header = h;
        },
        rest,
      )
unfolding receive_payload
receive_payload_all wire h n payload rest e l =
    rw (e, taken n payload rest l, drop_front payload rest, nat_beq_refl (length payload)) refl

pub receive_header_all :
    (wire : Wire) (h : NetPackHeader) (moves : Moves) (header stream : List ℕ)
    → length header ≤ moves.for_header
    → wire.parse_header header ≡ (true, h)
    → receive_header wire (pos (length header)) moves (header ++ stream)
      ≡ receive_payload wire h moves.for_payload stream
unfolding receive_header
receive_header_all wire h moves header stream l e =
    rw (taken moves.for_header header stream l, drop_front header stream, e) refl

receive_header_length_all :
    (wire : Wire) (uninit : ℤ) (n : ℕ) (head stream : List ℕ)
    → length head ≡ 4
    → 4 ≤ n
    → receive_header_length wire uninit n (head ++ stream)
      ≡ (RetCode.ok, wire.from_network head, stream)
unfolding receive_header_length
receive_header_length_all wire uninit n head stream l ample =
    let all : take n (take 4 (head ++ stream)) ≡ head =
      rw l at (taken n head stream (omega arith)) in
    rw (all, drop_front head stream, l) refl

pub receive_from_all :
    (wire : Wire) (uninit : ℤ) (moves : Moves) (head stream : List ℕ) (n : ℕ)
    → length head ≡ 4
    → 4 ≤ moves.for_length
    → wire.from_network head ≡ pos n
    → 0 < n
    → n < 1000
    → receive_from wire uninit moves (head ++ stream) ≡ receive_header wire (pos n) moves stream
unfolding receive_from is_ok
receive_from_all wire uninit moves head stream n l ample e some_header short =
    rw (receive_header_length_all wire uninit moves.for_length head stream l ample, e, receive_from)
      (ground arith)
