-- ===== src/Client/Run/Choice.antt =====
-- The owner from which a chunk is downloaded.
use mathlib.Core.List.{Memᴰ}
use cool_down.Prelude.{
  ℕ, ◌≤◌, ◌≡◌, refl, arith, List, [], ◌∷◌, true, false, All, ltb, ltb→lt, Bool-cases, inl, inr,
}
use cool_down.Client.SockManager.{SockManager, get_payload_percentage}
use cool_down.Client.JobInfo.{FileOwnerInfo}
use cool_down.Client.Run.{min_payload}

module _ (m : SockManager) where
  abbrev payload : FileOwnerInfo → ℕ
  payload o = get_payload_percentage m o.clientid

  -- One of the owners, and none of them has fewer connections in its list.
  record IsLeast (c : FileOwnerInfo) (os : List FileOwnerInfo) : Type 0 where
    among : Memᴰ c os
    least : All (λ o. payload c ≤ payload o) os

  min_payload_better :
      (best o : FileOwnerInfo) (os : List FileOwnerInfo)
      → ltb (payload o) (payload best) ≡ true
      → min_payload m best (o ∷ os) ≡ min_payload m o os
  unfolding min_payload
  min_payload_better best o os less = rw less refl

  min_payload_kept :
      (best o : FileOwnerInfo) (os : List FileOwnerInfo)
      → ltb (payload o) (payload best) ≡ false
      → min_payload m best (o ∷ os) ≡ min_payload m best os
  unfolding min_payload
  min_payload_kept best o os more = rw more refl

  nothing_more : (best : FileOwnerInfo) → IsLeast (min_payload m best []) (best ∷ [])
  unfolding min_payload
  nothing_more best = record { among = Memᴰ.head refl; least = (omega arith, tt) }

  -- The owner that `run` takes for a chunk is one of the chunk's owners, and none of them has fewer
  -- connections.
  min_payload-IsLeast :
      (best : FileOwnerInfo) (os : List FileOwnerInfo) → IsLeast (min_payload m best os) (best ∷ os)
  min_payload-IsLeast best [] = nothing_more best
  min_payload-IsLeast best (o ∷ os) = elim (Bool-cases (ltb (payload o) (payload best))) [
    | inl less ↦
        let h = min_payload-IsLeast o os in
        let (below, rest) = h.least in
        let lt = ltb→lt (payload o) (payload best) less in
        rw (min_payload_better best o os less)
          (record { among = Memᴰ.tail h.among; least = (omega (arith, below, lt), (below, rest)) })
    | inr more ↦
        let h = min_payload-IsLeast best os in
        let (below, rest) = h.least in
        rw (min_payload_kept best o os more) (record {
          among = elim h.among [
            | Memᴰ.head e ↦ Memᴰ.head e
            | Memᴰ.tail r ↦ Memᴰ.tail (Memᴰ.tail r)
          ];
          least = (below, (ground (arith, below), rest));
        })
  ]
