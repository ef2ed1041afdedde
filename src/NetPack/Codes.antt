-- ===== src/NetPack/Codes.antt =====
-- What the codes of sending and receiving tell.
use cool_down.Prelude.{
  ℕ, ◌≡◌, refl, ◌↔◌, arith, some, List, take, length, take_all, Option-cases, inl, inr, [], ◌&&◌,
  if◌then◌else◌,
}
use cool_down.Prelude.Int.{ℤ, pos, ltb_ℤ}
use cool_down.ErrorCode.{RetCode, is_ok}
use cool_down.Outcome.{done, throw, assertion}
use cool_down.NetPack.{
  Wire, NetPack, Moves, send_header_length, send_rest, send_by, receive_header_length, receive_from,
  clear,
}

-- Sending answers `ERROR_OK` exactly when the four bytes of the length and all of the payload went out
-- and the header could be serialized: whether any of the header went out makes no difference.
pub send_by_ok :
    (wire : Wire) (p : NetPack) (out : Moves)
    → ((send_by wire p out).1 ≡ RetCode.ok) ↔ (
        (length (send_header_length wire p out.for_length).0 ≡ 4)
        × ((header : List ℕ) × (wire.serialize_header p.header ≡ some header))
        × (length (take out.for_payload p.payload) ≡ length p.payload))
unfolding send_by send_header_length send_rest is_ok
send_by_ok wire p out = elim (Option-cases (wire.serialize_header p.header)) [
  | inl e ↦ rw (e, send_rest, send_by) (ground arith)
  | inr (header, e) ↦
      rw (e, send_rest, send_by)
        (λ h. (ground arith, (header, refl), ground arith), λ h. ground arith)
]

receive_header_length_none :
    (wire : Wire) (uninit : ℤ) (n : ℕ)
    → receive_header_length wire uninit n [] ≡ (RetCode.net_graceful_shutdown, uninit, [])
unfolding receive_header_length
receive_header_length_none wire uninit n =
    let none_taken : take {A = ℕ} n [] ≡ [] = take_all n [] (omega arith) in rw none_taken refl

-- When the peer has closed the connection, the code says so only if the variable for the length, which
-- nothing has set, happens to hold a number from 1 to 999; otherwise the assertion fails.
pub receive_from-end :
    (wire : Wire) (uninit : ℤ) (moves : Moves)
    → receive_from wire uninit moves [] ≡ (
        if ltb_ℤ (pos 0) uninit && ltb_ℤ uninit (pos 1000)
        then done (RetCode.net_graceful_shutdown, clear, [])
        else throw assertion)
unfolding receive_from is_ok
receive_from-end wire uninit moves =
    rw (receive_header_length_none wire uninit moves.for_length, receive_from) (ground arith)
