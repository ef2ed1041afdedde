-- ===== src/Client/Verification/Pieces.antt =====
-- The pieces whose digests `get_file_checksum_list` lists.
use mathlib.Core.List.{append_assoc, append-nil}
use cool_down.Prelude.{
  take_all, ℕ, zero, suc, ◌+◌, ◌-◌, ◌*◌, ◌≤◌, ◌<◌, ◌≡◌, refl, sym, ap, ◌∙◌, String, some, List, [],
  ◌∷◌, ◌++◌, map, true, false, length, take, drop, replicate, ltb, leb, Bool-cases, inl, inr, arith,
  if◌then◌else◌, length-take, length-drop, take-append-drop, ltb→lt,
}
use cool_down.Outcome.{done}
use cool_down.Client.Verification.{
  DigestEngine, slice, get_verification_code, get_verification_code_without_lock, checksum_loop,
  get_file_checksum_list,
}
use mathlib.Core.Path.{ap₂}

-- The pieces of `size` bytes, and one last piece of at most that many.
pub pieces : ℕ → ℕ → List ℕ → List (List ℕ)
pieces zero size bytes = []
pieces (suc fuel) size bytes =
    let rest = pieces fuel size (drop size bytes) in
    if ltb size (length bytes) then take size bytes ∷ rest else bytes ∷ []

abbrev pub concat : List (List ℕ) → List ℕ
concat [] = []
concat (p ∷ ps) = p ++ concat ps

pub concat-pieces :
    (fuel size : ℕ) (bytes : List ℕ)
    → 0 < size
    → length bytes < fuel
    → concat (pieces fuel size bytes) ≡ bytes
unfolding pieces
concat-pieces zero size bytes h k = absurd (omega arith)
concat-pieces (suc fuel) size bytes h k = elim (Bool-cases (ltb size (length bytes))) [
  | inl e ↦
      rw (e, pieces)
        (rw
          (concat-pieces fuel size (drop size bytes) h (ground (arith, length-drop {0} size bytes)))
          (take-append-drop size bytes))
  | inr e ↦ rw (e, pieces) (append-nil bytes)
]

-- The lengths of the pieces: `k` full ones, and a last one that is not empty.
abbrev pub AreSized : ℕ → List ℕ → List (List ℕ) → Type 0
AreSized size bytes ps =
    (k : ℕ) × (r : ℕ) × (map length ps ≡ replicate k size ++ r ∷ [])
    × (length bytes ≡ k * size + r)
    × (0 < r)
    × (r ≤ size)

pub pieces-AreSized :
    (fuel size : ℕ) (bytes : List ℕ)
    → 0 < size
    → 0 < length bytes
    → length bytes < fuel
    → AreSized size bytes (pieces fuel size bytes)
unfolding pieces
pieces-AreSized zero size bytes h p k = absurd (omega arith)
pieces-AreSized (suc fuel) size bytes h p k = elim (Bool-cases (ltb size (length bytes))) [
  | inl e ↦
      let shorter : length (drop size bytes) ≡ length bytes - size = length-drop size bytes in
      let full : length (take size bytes) ≡ size = ground (arith, length-take {0} size bytes) in
      let (n, r, lengths, total, pos, small) =
        pieces-AreSized fuel size (drop size bytes) h (ground arith) (ground arith) in
      rw (e, pieces)
        (suc n, r, ap₂ ◌∷◌ full lengths, grind (arith, ltb→lt size (length bytes) e), pos, small)
  | inr e ↦ rw (e, pieces) (0, length bytes, refl, ground arith, p, ground arith)
]

drop-nil : (n : ℕ) → ◌≡◌ {A = List ℕ} (drop n []) []
drop-nil zero = refl
drop-nil (suc n) = refl

pub drop-add : (a b : ℕ) (xs : List ℕ) → drop (a + b) xs ≡ drop b (drop a xs)
drop-add zero b xs = let e : zero + b ≡ b = omega arith in rw e
drop-add (suc a) b [] = let e : suc a + b ≡ suc (a + b) = omega arith in rw e (sym (drop-nil b))
drop-add (suc a) b (x ∷ xs) =
    let e : suc a + b ≡ suc (a + b) = omega arith in rw e (drop-add a b xs)

pieces-more :
    (fuel size : ℕ) (bytes : List ℕ)
    → ltb size (length bytes) ≡ true
    → pieces (suc fuel) size bytes ≡ take size bytes ∷ pieces fuel size (drop size bytes)
unfolding pieces
pieces-more fuel size bytes t = rw (pieces, t) refl

pieces-last :
    (fuel size : ℕ) (bytes : List ℕ)
    → ltb size (length bytes) ≡ false
    → pieces (suc fuel) size bytes ≡ bytes ∷ []
unfolding pieces
pieces-last fuel size bytes t = rw (pieces, t) refl

module _ (sha : DigestEngine) where
  open sha use {Engine, digest, update, reset, digest_of, digest_fresh}

  -- The code of a range that is in order is the digest of its bytes, in any state of the engine.
  pub code_of_slice :
      (bytes : List ℕ) (begin end : ℕ) (e : Engine)
      → begin ≤ end
      → (e' : Engine) × (get_verification_code_without_lock sha bytes begin end e
          ≡ done (digest_of (slice bytes begin end), e'))
  unfolding get_verification_code_without_lock
  code_of_slice bytes begin end e h =
      let ordered : leb begin end ≡ true = ground arith in
      (
        (digest (update (reset e) (slice bytes begin end))).1,
        rw ordered (
            ap (λ (c : String). done (c, (digest (update (reset e) (slice bytes begin end))).1))
              (digest_fresh e (slice bytes begin end))),
      )

  pub get_verification_code-digest_of :
      (content : List ℕ) (e : Engine)
      → (e' : Engine) × (get_verification_code sha content e ≡ done (digest_of content, e'))
  unfolding get_verification_code
  get_verification_code-digest_of content e =
      let (e', code) = code_of_slice content 0 (length content) e (omega arith) in
      let all : slice content 0 (length content) ≡ content =
        take_all (length content - 0) content (omega arith) in
      (e', code ∙ ap (λ (b : List ℕ). done (digest_of b, e')) all)

  codes-more :
      (fuel size start : ℕ) (bytes : List ℕ) (list : List String)
      → ltb (start + size) (length bytes) ≡ true
      → (list ++ digest_of (slice bytes start (start + size)) ∷ [])
          ++ map digest_of (pieces fuel size (drop (start + size) bytes))
        ≡ list ++ map digest_of (pieces (suc fuel) size (drop start bytes))
  codes-more fuel size start bytes list t =
      let left : length (drop start bytes) ≡ length bytes - start = length-drop start bytes in
      let more : ltb size (length (drop start bytes)) ≡ true = ground arith in
      let width : start + size - start ≡ size = omega arith in
      append_assoc list (digest_of (slice bytes start (start + size)) ∷ [])
        (map digest_of (pieces fuel size (drop (start + size) bytes)))
      ∙ ap (◌++◌ list) (
          rw (pieces-more fuel size (drop start bytes) more, width, drop-add start size bytes) refl)

  slice-last : (start : ℕ) (bytes : List ℕ) → slice bytes start (length bytes) ≡ drop start bytes
  slice-last start bytes =
      let left : length (drop start bytes) ≡ length bytes - start = length-drop start bytes in
      take_all (length bytes - start) (drop start bytes) (omega arith)

  loop-more :
      (fuel size start : ℕ) (bytes : List ℕ) (e e' : Engine) (list : List String) (c : String)
      → ltb (start + size) (length bytes) ≡ true
      → get_verification_code_without_lock sha bytes start (start + size) e ≡ done (c, e')
      → checksum_loop sha (suc fuel) bytes size start e list
        ≡ checksum_loop sha fuel bytes size (start + size) e' (list ++ c ∷ [])
  unfolding checksum_loop
  loop-more fuel size start bytes e e' list c t code = rw (checksum_loop, t, code) refl

  loop-last :
      (fuel size start : ℕ) (bytes : List ℕ) (e e' : Engine) (list : List String) (c : String)
      → ltb (start + size) (length bytes) ≡ false
      → get_verification_code_without_lock sha bytes start (length bytes) e ≡ done (c, e')
      → checksum_loop sha (suc fuel) bytes size start e list ≡ some (done (list ++ c ∷ [], e'))
  unfolding checksum_loop
  loop-last fuel size start bytes e e' list c t code = rw (checksum_loop, t, code) refl

  checksum_loop-pieces :
      (fuel size start : ℕ) (bytes : List ℕ) (e : Engine) (list : List String)
      → 0 < size
      → start ≤ length bytes
      → length bytes - start < fuel
      → (e' : Engine) × (checksum_loop sha fuel bytes size start e list
          ≡ some (done (list ++ map digest_of (pieces fuel size (drop start bytes)), e')))
  checksum_loop-pieces zero size start bytes e list h k l = absurd (omega arith)
  checksum_loop-pieces (suc fuel) size start bytes e list h k l =
      elim (Bool-cases (ltb (start + size) (length bytes))) [
        | inl t ↦
            let (e', code) = code_of_slice bytes start (start + size) e (omega arith) in
            let c = digest_of (slice bytes start (start + size)) in
            let (e'', rest) =
              checksum_loop-pieces fuel size (start + size) bytes e' (list ++ c ∷ []) h
                (ground arith) (ground arith) in
            (
              e'',
              loop-more fuel size start bytes e e' list c t code
                  ∙ rest
                  ∙ ap (λ l. some (done (l, e''))) (codes-more fuel size start bytes list t),
            )
        | inr t ↦
            let (e', code) = code_of_slice bytes start (length bytes) e k in
            let left : length (drop start bytes) ≡ length bytes - start = length-drop start bytes in
            let last : ltb size (length (drop start bytes)) ≡ false = ground arith in
            (
              e',
              loop-last fuel size start bytes e e' list _ t code
                  ∙ ap (λ l. some (done (list ++ l, e')))
                      (rw (pieces-last fuel size (drop start bytes) last, slice-last start bytes)
                        refl),
            )
      ]

  -- For a file that exists and is not empty, and a positive chunk size, the checksum loop ends and
  -- returns the digests of pieces that are, in order, the whole content: full ones of `size` bytes
  -- and one last piece of at least one and at most `size` bytes.
  pub get_file_checksum_list-pieces :
      (bytes : List ℕ) (size : ℕ) (e : Engine)
      → 0 < size
      → 0 < length bytes
      → (ps : List (List ℕ)) × (e' : Engine) × (get_file_checksum_list sha true bytes size e
          ≡ some (done (map digest_of ps, e')))
        × (concat ps ≡ bytes)
        × AreSized size bytes ps
  unfolding get_file_checksum_list
  get_file_checksum_list-pieces bytes size e h p =
      let fuel = suc (length bytes) in
      let (e', run) = checksum_loop-pieces fuel size 0 bytes e [] h (omega arith) (omega arith) in
      let positive : ltb 0 size ≡ true = ground arith in
      (
        pieces fuel size bytes,
        e',
        rw (get_file_checksum_list, positive) run,
        concat-pieces fuel size bytes h (omega arith),
        pieces-AreSized fuel size bytes h p (omega arith),
      )
