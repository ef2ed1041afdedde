-- ===== src/Client/Transfer/Stored.antt =====
-- A download task that finishes has stored the whole of its chunk.
use cool_down.Prelude.{
  ℕ, zero, suc, ◌+◌, ◌-◌, ◌≤◌, ◌≡◌, refl, sym, ap, ◌∙◌, inl, inr, String, List, [], ◌∷◌, length,
  take, drop, ltb, arith, Bool-cases, length-append, length-take,
}
use cool_down.Prelude.Int.{ℤ, pos, negsuc, to_i32}
use cool_down.Outcome.{done, >>=-eq-done, done-injective}
use cool_down.Client.Torrent.{TorrentFileInfo, chunk_checksum, chunk_size}
use cool_down.Client.TrackerCalls.{Exchange}
use cool_down.Client.Verification.{DigestEngine}
use cool_down.Client.Transfer.{
  Round, Status, running, finished, failed, Turn, leave, wait, move, Moved, nothing, Next, over,
  again, moving, take_turn, next, transfer_loop, download_turn, download_task, receive,
  request_upload, buffer_size, conclude, store_chunk,
}
use cool_down.Client.Transfer.Downloads.{Stores, store_chunk-done}

-- A turn moves no more than is left.
abbrev IsBounded : (ℕ → Round → Turn) → Type 0
IsBounded turn = (left : ℕ) (r : Round) (n : ℕ) → turn left r ≡ move n → n ≤ left

receive-IsBounded : (q : ℤ) (left ready n : ℕ) → receive q left ready ≡ move n → n ≤ left
receive-IsBounded (negsuc q) left ready n h = cc
receive-IsBounded (pos zero) left ready n h = cc
receive-IsBounded (pos (suc q)) left ready n h = ground arith

download_turn-IsBounded : IsBounded download_turn
unfolding download_turn
download_turn-IsBounded left r n h =
    ground (arith, receive-IsBounded (to_i32 (r.speed_limit - r.bytes_this_second)) left r.ready n)

-- A loop that is over by its test has moved all of it.
IsFull : ℕ → Status × Moved → Type 0
IsFull size (s, m) = s ≡ finished → length m.bytes ≡ size

FitsNext : ℕ → Moved → Next → Type 0
FitsNext size m (over s) = s ≡ finished → length m.bytes ≡ size
FitsNext size m (again m' stream') = length m'.bytes ≤ size

moving-Fits :
    (size : ℕ) (m : Moved) (xs rest : List ℕ)
    → length m.bytes + length xs ≤ size
    → FitsNext size m (moving m xs rest)
unfolding FitsNext
moving-Fits size m [] rest h = λ e. cc
moving-Fits size m (x ∷ xs) rest h = let all = length-append m.bytes (x ∷ xs) in omega arith

take_turn-Fits :
    (size : ℕ) (m : Moved) (stream : List ℕ) (t : Turn)
    → length m.bytes ≤ size
    → ((n : ℕ) → t ≡ move n → n ≤ size - length m.bytes)
    → FitsNext size m (take_turn m stream t)
unfolding FitsNext
take_turn-Fits size m stream leave h k = λ e. cc
take_turn-Fits size m stream wait h k = h
take_turn-Fits size m stream (move n) h k =
    let taken = length-take n stream in
    let small = k n refl in moving-Fits size m (take n stream) (drop n stream) (omega arith)

next-Fits :
    (turn : ℕ → Round → Turn) (size : ℕ) (m : Moved) (stream : List ℕ) (r : Round)
    → IsBounded turn
    → length m.bytes ≤ size
    → FitsNext size m (next turn size m stream r)
unfolding next FitsNext
next-Fits turn size m stream r b h = elim (Bool-cases (ltb (length m.bytes) size)) [
  | inl e ↦
      rw (next, e)
        (take_turn-Fits size m stream (turn (size - length m.bytes) r) h
          (λ n t. b (size - length m.bytes) r n t))
  | inr e ↦ rw (next, e) (λ _. ground arith)
]

transfer_loop-IsFull :
    (turn : ℕ → Round → Turn) (size : ℕ) (m : Moved) (stream : List ℕ) (rs : List Round)
    → IsBounded turn
    → length m.bytes ≤ size
    → IsFull size (transfer_loop turn size m stream rs)
unfolding transfer_loop IsFull FitsNext
transfer_loop-IsFull turn size m stream [] b h = λ e. ground arith
transfer_loop-IsFull turn size m stream (r ∷ rs) b h =
    elim (next turn size m stream r)
        as (λ n.
          FitsNext size m n
          → IsFull size (elim n [
            | over s ↦ (s, m)
            | again m' stream' ↦ transfer_loop turn size m' stream' rs
          ])) [
            | over s ↦ λ f. f
            | again m' stream' ↦ λ f. transfer_loop-IsFull turn size m' stream' rs b f
          ]
      (next-Fits turn size m stream r b h)

module _ (sha : DigestEngine) where
  open sha use {Engine}

  conclude-finished :
      (info : TorrentFileInfo) (chunk_pos : ℤ) (check_sum : String) (e : Engine) (file : List ℕ)
      (size : ℕ) (out : Status × Moved) (file' : List ℕ)
      → IsFull size out
      → conclude sha info chunk_pos check_sum e file out ≡ done (finished, file')
      → (content : List ℕ) × (length content ≡ size)
        × Stores sha info chunk_pos check_sum content file file'
  unfolding IsFull
  conclude-finished info chunk_pos check_sum e file size (running, m) file' full h = cc
  conclude-finished info chunk_pos check_sum e file size (failed, m) file' full h = cc
  conclude-finished info chunk_pos check_sum e file size (finished, m) file' full h =
      let (stored, ok, rest) =
        >>=-eq-done (store_chunk sha info chunk_pos check_sum m.bytes e file)
          (λ (f : List ℕ). done (finished, f)) h in
      let same : stored ≡ file' = cc in
      (
        m.bytes,
        full refl,
        store_chunk-done sha info chunk_pos check_sum m.bytes e file file' (ok ∙ ap done same),
      )

  -- A download task that finishes has written, at the offset that the torrent has for the chunk, as
  -- many bytes as the torrent has for it, with the digest that the torrent has for it.
  pub download_task-Stores :
      (info : TorrentFileInfo) (chunk_pos : ℤ) (x : Exchange) (peer : List ℕ) (rounds : List Round)
      (e : Engine) (file file' : List ℕ)
      → download_task sha info chunk_pos x peer rounds e file ≡ done (finished, file')
      → (check_sum : String) × (content : List ℕ) × (chunk_checksum info chunk_pos ≡ done check_sum)
        × (chunk_size info chunk_pos ≡ done (pos (length content)))
        × Stores sha info chunk_pos check_sum content file file'
  unfolding download_task
  download_task-Stores info chunk_pos x peer rounds e file file' h =
      let (check_sum, sum, h1) = >>=-eq-done (chunk_checksum info chunk_pos) _ h in
      let (u, asked, h2) = >>=-eq-done (request_upload x) _ h1 in
      let (recorded, given, h3) = >>=-eq-done (chunk_size info chunk_pos) _ h2 in
      let (size, positive, h4) = >>=-eq-done (buffer_size recorded) _ h3 in
      let (content, full, stores) =
        conclude-finished info chunk_pos check_sum e file size
          (transfer_loop download_turn size nothing peer rounds) file'
          (transfer_loop-IsFull download_turn size nothing peer rounds download_turn-IsBounded
            (omega arith))
          h4 in
      (
        check_sum,
        content,
        sum,
        given ∙ ap done (buffer_size-pos recorded size positive ∙ ap pos (sym full)),
        stores,
      )
    where
      buffer_size-pos : (q : ℤ) (n : ℕ) → buffer_size q ≡ done n → q ≡ pos n
      buffer_size-pos (pos m) n h = ap pos (done-injective h)
      buffer_size-pos (negsuc zero) n h = cc
      buffer_size-pos (negsuc (suc m)) n h = cc

  conclude-running :
      (info : TorrentFileInfo) (chunk_pos : ℤ) (check_sum : String) (e : Engine) (file : List ℕ)
      (out : Status × Moved) (file' : List ℕ)
      → conclude sha info chunk_pos check_sum e file out ≡ done (running, file')
      → file' ≡ file
  conclude-running info chunk_pos check_sum e file (running, m) file' h = cc
  conclude-running info chunk_pos check_sum e file (failed, m) file' h = cc
  conclude-running info chunk_pos check_sum e file (finished, m) file' h =
      let (stored, ok, rest) =
        >>=-eq-done (store_chunk sha info chunk_pos check_sum m.bytes e file)
          (λ (f : List ℕ). done (finished, f)) h in
      cc

  -- A task that is still running has not written.
  pub download_task_running :
      (info : TorrentFileInfo) (chunk_pos : ℤ) (x : Exchange) (peer : List ℕ) (rounds : List Round)
      (e : Engine) (file file' : List ℕ)
      → download_task sha info chunk_pos x peer rounds e file ≡ done (running, file')
      → file' ≡ file
  unfolding download_task
  download_task_running info chunk_pos x peer rounds e file file' h =
      let (check_sum, sum, h1) = >>=-eq-done (chunk_checksum info chunk_pos) _ h in
      let (u, asked, h2) = >>=-eq-done (request_upload x) _ h1 in
      let (recorded, given, h3) = >>=-eq-done (chunk_size info chunk_pos) _ h2 in
      let (size, positive, h4) = >>=-eq-done (buffer_size recorded) _ h3 in
      conclude-running info chunk_pos check_sum e file
        (transfer_loop download_turn size nothing peer rounds) file' h4
