-- ===== src/Client/Transfer/Chunks.antt =====
-- The uploaded range, and the downloaded chunk.
use mathlib.Core.Path.{ap₂}
use cool_down.Prelude.{
  take_all, ℕ, ◌+◌, ◌≤◌, ◌<◌, min, ◌≡◌, refl, ap, ◌∙◌, List, [], ◌∷◌, ◌++◌, true, false, length,
  take, drop, leb, arith, All, length-take, length-drop, string_key,
}
use cool_down.Outcome.{done}
use cool_down.Client.Transfer.{
  Round, Status, finished, Turn, Moved, moved, nothing, transfer_loop, upload_turn, upload_task,
}
use cool_down.Client.Transfer.Loop.{
  IsFront, IsReady, IsComplete, transfer_loop-IsFront, transfer_loop-IsComplete,
}

-- For a range inside the file and any schedule, an upload returns, and what it has sent, whether it
-- is running, finished or failed, is the front of the range in order, each byte counted once.
upload_task_sends_front :
    (file : List ℕ) (offset size : ℕ) (rounds : List Round)
    → offset + size ≤ length file
    → (out : Status × Moved) × (upload_task file offset size rounds ≡ done out)
      × ((left : List ℕ) × (out.1.bytes ++ left ≡ take size (drop offset file)))
      × (out.1.counted ≡ length out.1.bytes)
unfolding upload_task
upload_task_sends_front file offset size rounds h =
    let inside : leb (offset + size) (length file) ≡ true = ground arith in
    let content = take size (drop offset file) in
    let (front, count) = transfer_loop-IsFront upload_turn size nothing content rounds in
    (
      transfer_loop upload_turn size nothing content rounds,
      rw (upload_task, inside) refl,
      front,
      omega arith,
    )

-- A round of an upload that is neither stopped nor removed, with room for a byte.
abbrev pub CanSend : Round → Type 0
CanSend r = (r.is_stopped ≡ false) × (r.is_job_removed ≡ false) × (0 < r.ready)

CanSend-IsReady : (r : Round) → CanSend r → IsReady upload_turn r
unfolding upload_turn
CanSend-IsReady r (a, b, c) =
    λ left h. (min r.ready left, rw (upload_turn, a, b) refl, omega arith, omega arith)

pub All-map :
    {P Q : Round → Type 0} → ((r : Round) → P r → Q r) → (rs : List Round) → All P rs → All Q rs
All-map f [] h = tt
All-map f (r ∷ rs) (p, h) = (f r p, All-map f rs h)

-- Bytes that are the front of a stream are what `take` gives.
front_take : (xs ys zs : List ℕ) → xs ++ ys ≡ zs → xs ≡ take (length xs) zs
front_take [] ys zs h = refl
front_take (x ∷ xs) ys zs h =
    ap (◌∷◌ x) (front_take xs ys (xs ++ ys) refl) ∙ ap (take (length (x ∷ xs))) h

front_all :
    (size : ℕ) (stream : List ℕ) (out : Status × Moved)
    → IsComplete size out
    → IsFront nothing stream out
    → out ≡ (finished, moved (take size stream) size)
front_all size stream (s, m) (over, full) ((left, front), count) =
    let bytes : m.bytes ≡ take size stream =
      front_take m.bytes left stream front ∙ ap (λ (n : ℕ). take n stream) full in
    let counted : m.counted ≡ size = omega arith in
    ap₂ (λ (s : Status) (m : Moved). (s, m)) over
      (ap₂ (λ (b : List ℕ) (n : ℕ). moved b n) bytes counted)

pub transfer_loop_moves :
    (turn : ℕ → Round → Turn) (size : ℕ) (stream : List ℕ) (rs : List Round)
    → All (IsReady turn) rs
    → size ≤ length rs
    → size ≤ length stream
    → transfer_loop turn size nothing stream rs ≡ (finished, moved (take size stream) size)
transfer_loop_moves turn size stream rs ready h k =
    front_all size stream (transfer_loop turn size nothing stream rs)
      (transfer_loop-IsComplete turn size nothing stream rs ready (omega arith) (omega arith)
        (omega arith))
      (transfer_loop-IsFront turn size nothing stream rs)

-- For a range inside the file, as many rounds as it has bytes are enough: with rounds that are
-- neither stopped nor removed and have room for a byte, the upload finishes, and has sent the whole
-- range and counted each byte.
pub upload_task_finishes :
    (file : List ℕ) (offset size : ℕ) (rounds : List Round)
    → offset + size ≤ length file
    → All CanSend rounds
    → size ≤ length rounds
    → upload_task file offset size rounds
      ≡ done (finished, moved (take size (drop offset file)) size)
unfolding upload_task
upload_task_finishes file offset size rounds h ready k =
    let inside : leb (offset + size) (length file) ≡ true = ground arith in
    let content = take size (drop offset file) in
    let whole : length content ≡ size =
      ground (arith, length-take {0} size (drop offset file), length-drop {0} offset file) in
    let all : take size content ≡ content = take_all size content (omega arith) in
    rw (upload_task, inside)
      (ap done (
        transfer_loop_moves upload_turn size content rounds (All-map CanSend-IsReady rounds ready) k
          (omega arith)
        ∙ ap (λ (b : List ℕ). (finished, moved b size)) all))
