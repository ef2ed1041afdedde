-- ===== src/Client/Transfer/Loop.antt =====
-- The loop of both tasks: what moved is the front of the stream, and enough turns move all of it.
use mathlib.Core.List.{append_assoc}
use cool_down.Prelude.{
  ℕ, ◌+◌, ◌-◌, ◌≤◌, ◌<◌, ◌≡◌, refl, ap, ◌∙◌, List, [], ◌∷◌, ◌++◌, true, false, length, take, drop,
  ltb, Bool-cases, inl, inr, ltb→lt, arith, All, length-append, length-take, length-drop,
  take-append-drop,
}
use cool_down.Client.Transfer.{
  Round, Status, finished, Turn, leave, wait, move, Moved, add_bytes, transfer_loop, Next, over,
  again, moving, take_turn, next,
}

-- The bytes that moved, followed by others, are those that had moved and the stream; each of them is
-- counted once.
abbrev pub IsFront : Moved → List ℕ → Status × Moved → Type 0
IsFront m stream out =
    ((left : List ℕ) × (out.1.bytes ++ left ≡ m.bytes ++ stream))
    × (out.1.counted + length m.bytes ≡ m.counted + length out.1.bytes)

abbrev pub Turns : Type 0
Turns = ℕ → Round → Turn

IsFront-here : (s : Status) (m : Moved) (stream : List ℕ) → IsFront m stream (s, m)
IsFront-here s m stream = ((stream, refl), refl)

IsFront-later :
    (m : Moved) (n : ℕ) (stream : List ℕ) (out : Status × Moved)
    → IsFront (add_bytes m (take n stream)) (drop n stream) out
    → IsFront m stream out
IsFront-later m n stream out ((left, whole), count) =
    let l : length (m.bytes ++ take n stream) ≡ length m.bytes + length (take n stream) =
      length-append m.bytes (take n stream) in
    (
      (
        left,
        whole
            ∙ append_assoc m.bytes (take n stream) (drop n stream)
            ∙ ap (◌++◌ m.bytes) (take-append-drop n stream),
      ),
      omega arith,
    )

IsFrontNext : Moved → List ℕ → Next → Type 0
IsFrontNext m stream (over s) = Unit
IsFrontNext m stream (again m' stream') =
    (out : Status × Moved) → IsFront m' stream' out → IsFront m stream out

take_turn-IsFront :
    (m : Moved) (stream : List ℕ) (t : Turn) → IsFrontNext m stream (take_turn m stream t)
unfolding IsFrontNext
take_turn-IsFront m stream leave = tt
take_turn-IsFront m stream wait = λ out h. h
take_turn-IsFront m stream (move n) = by_taken (take n stream) refl
  where
    by_taken :
        (taken : List ℕ)
        → take n stream ≡ taken
        → IsFrontNext m stream (moving m taken (drop n stream))
    by_taken [] e = tt
    by_taken (b ∷ bs) e = λ out h. IsFront-later m n stream out (rw e h)

next-IsFront :
    (turn : Turns) (size : ℕ) (m : Moved) (stream : List ℕ) (r : Round)
    → IsFrontNext m stream (next turn size m stream r)
unfolding next IsFrontNext
next-IsFront turn size m stream r = elim (Bool-cases (ltb (length m.bytes) size)) [
  | inl e ↦ rw (next, e) (take_turn-IsFront m stream (turn (size - length m.bytes) r))
  | inr e ↦ rw (next, e) tt
]

pub transfer_loop-IsFront :
    (turn : Turns) (size : ℕ) (m : Moved) (stream : List ℕ) (rs : List Round)
    → IsFront m stream (transfer_loop turn size m stream rs)
unfolding transfer_loop IsFrontNext
transfer_loop-IsFront turn size m stream [] =
    IsFront-here (transfer_loop turn size m stream []).0 m stream
transfer_loop-IsFront turn size m stream (r ∷ rs) =
    elim (next turn size m stream r)
        as (λ n.
          IsFrontNext m stream n
          → IsFront m stream (elim n [
            | over s ↦ (s, m)
            | again m' stream' ↦ transfer_loop turn size m' stream' rs
          ])) [
            | over s ↦ λ h. IsFront-here s m stream
            | again m' stream' ↦ λ h.
                h (transfer_loop turn size m' stream' rs)
                  (transfer_loop-IsFront turn size m' stream' rs)
          ]
      (next-IsFront turn size m stream r)

-- A round at which the task moves at least one of the bytes that are left.
abbrev pub IsReady : Turns → Round → Type 0
IsReady turn r = (left : ℕ) → 0 < left → (n : ℕ) × (turn left r ≡ move n) × (0 < n) × (n ≤ left)

-- The loop is over with `size` bytes.
abbrev pub IsComplete : ℕ → Status × Moved → Type 0
IsComplete size (s, m) = (s ≡ finished) × (length m.bytes ≡ size)

moving-again :
    (m : Moved) (xs rest : List ℕ) → 0 < length xs → moving m xs rest ≡ again (add_bytes m xs) rest
moving-again m [] rest h = absurd (omega arith)
moving-again m (x ∷ xs) rest h = refl

next-ready :
    (turn : Turns) (size : ℕ) (m : Moved) (stream : List ℕ) (r : Round) (n : ℕ)
    → length m.bytes < size
    → turn (size - length m.bytes) r ≡ move n
    → 0 < length (take n stream)
    → next turn size m stream r ≡ again (add_bytes m (take n stream)) (drop n stream)
unfolding next
next-ready turn size m stream r n h e k =
    let t : ltb (length m.bytes) size ≡ true = ground arith in
    rw (next, t, e) (moving-again m (take n stream) (drop n stream) k)

transfer_loop-more :
    (turn : Turns) (size : ℕ) (m m' : Moved) (stream stream' : List ℕ) (r : Round) (rs : List Round)
    → next turn size m stream r ≡ again m' stream'
    → transfer_loop turn size m stream (r ∷ rs) ≡ transfer_loop turn size m' stream' rs
unfolding transfer_loop
transfer_loop-more turn size m m' stream stream' r rs e = rw (transfer_loop, e) refl

transfer_loop-full :
    (turn : Turns) (size : ℕ) (m : Moved) (stream : List ℕ) (rs : List Round)
    → size ≤ length m.bytes
    → transfer_loop turn size m stream rs ≡ (finished, m)
unfolding transfer_loop next
transfer_loop-full turn size m stream [] h =
    let t : ltb (length m.bytes) size ≡ false = ground arith in rw (transfer_loop, t) refl
transfer_loop-full turn size m stream (r ∷ rs) h =
    let t : ltb (length m.bytes) size ≡ false = ground arith in rw (transfer_loop, next, t) refl

pub transfer_loop-IsComplete :
    (turn : Turns) (size : ℕ) (m : Moved) (stream : List ℕ) (rs : List Round)
    → All (IsReady turn) rs
    → length m.bytes ≤ size
    → size ≤ length m.bytes + length rs
    → size ≤ length m.bytes + length stream
    → IsComplete size (transfer_loop turn size m stream rs)
transfer_loop-IsComplete turn size m stream [] ready h k l =
    rw (transfer_loop-full turn size m stream [] (omega arith)) (refl, omega arith)
transfer_loop-IsComplete turn size m stream (r ∷ rs) ready h k l =
    elim (Bool-cases (ltb (length m.bytes) size)) [
      | inr f ↦
          rw (transfer_loop-full turn size m stream (r ∷ rs) (ground arith)) (refl, ground arith)
      | inl t ↦
          let short : length m.bytes < size = ltb→lt (length m.bytes) size t in
          let (n, e, p, b) = ready.0 (size - length m.bytes) (omega arith) in
          let taken : length (take n stream) ≡ n = ground (arith, length-take {0} n stream) in
          let rest : length (drop n stream) ≡ length stream - n = length-drop n stream in
          let all : length (m.bytes ++ take n stream) ≡ length m.bytes + n =
            length-append m.bytes (take n stream) ∙ ap (◌+◌ (length m.bytes)) taken in
          rw
            (transfer_loop-more turn size m _ stream _ r rs
              (next-ready turn size m stream r n short e (omega arith)))
            (transfer_loop-IsComplete turn size (add_bytes m (take n stream)) (drop n stream) rs
              ready.1 (omega arith) (omega arith) (omega arith))
    ]
