-- ===== src/Client/MakeTorrent/Sizes.antt =====
-- The chunks that `MakeTorrent` writes for one file.
use native.Mathlib.Nat.{mod-eq_of_lt, mod-le, mod_self, mul-add-mod_self_right}
use cool_down.Prelude.{
  ℕ, zero, suc, ◌+◌, ◌*◌, ◌≤◌, ◌<◌, ◌%◌, ◌≡◌, refl, sym, ap, ◌∙◌, String, some, List, [], ◌∷◌, ◌++◌,
  map, length-map, true, length, replicate, arith, ltb, Bool-cases, inl, inr, ltb→lt,
}
use cool_down.Prelude.Int.{pos}
use cool_down.Outcome.{done}
use cool_down.Client.Torrent.{Chunk, FileEntry}
use cool_down.Client.Verification.{DigestEngine, get_file_checksum_list, get_file_verification_code}
use cool_down.Client.Verification.Pieces.{concat, AreSized, get_file_checksum_list-pieces}
use cool_down.Client.MakeTorrent.Listing.{SourceFile}
use cool_down.Client.MakeTorrent.{make_chunks, process_file, file_entry, after}

make_chunks-check_sum :
    (size last : ℕ) (sums : List String)
    → map (λ (c : Chunk). c.check_sum) (make_chunks size last sums) ≡ sums
unfolding make_chunks
make_chunks-check_sum size last [] = refl
make_chunks-check_sum size last (c ∷ []) = refl
make_chunks-check_sum size last (c ∷ d ∷ sums) =
    ap (◌∷◌ c) (make_chunks-check_sum size last (d ∷ sums))

-- The recorded sizes, from the number of full pieces before the last one.
make_chunks-size :
    (size last k : ℕ) (sums : List String)
    → length sums ≡ suc k
    → map (λ (c : Chunk). c.size) (make_chunks size last sums)
      ≡ replicate k (pos size) ++ pos last ∷ []
unfolding make_chunks
make_chunks-size size last k [] h = absurd (omega arith)
make_chunks-size size last zero (c ∷ []) h = refl
make_chunks-size size last (suc k) (c ∷ []) h = absurd (omega arith)
make_chunks-size size last zero (c ∷ d ∷ sums) h = absurd (omega arith)
make_chunks-size size last (suc k) (c ∷ d ∷ sums) h =
    ap (◌∷◌ (pos size)) (make_chunks-size size last k (d ∷ sums) (omega arith))

length-sized : (size r k : ℕ) → length (replicate k size ++ r ∷ []) ≡ suc k
length-sized size r zero = refl
length-sized size r (suc k) = ap suc (length-sized size r k)

-- The remainder that `MakeTorrent` takes for the size of the last piece, of size `r`.
remainder_full : (k size : ℕ) → (k * size + size) % size ≡ 0
remainder_full k size = mul-add-mod_self_right k size size ∙ mod_self size

remainder_short : (k size r : ℕ) → r < size → (k * size + r) % size ≡ r
remainder_short k size r h = mul-add-mod_self_right k size r ∙ mod-eq_of_lt h

pos-lengths :
    (ps : List (List ℕ)) → map (λ (p : List ℕ). pos (length p)) ps ≡ map pos (map length ps)
pos-lengths [] = refl
pos-lengths (p ∷ ps) = ap (◌∷◌ (pos (length p))) (pos-lengths ps)

pos-sized :
    (k r size : ℕ) → map pos (replicate k size ++ r ∷ []) ≡ replicate k (pos size) ++ pos r ∷ []
pos-sized zero r size = refl
pos-sized (suc k) r size = ap (◌∷◌ (pos size)) (pos-sized k r size)

zero-not-pos : (n : ℕ) → 0 < n → n ≡ 0 → ⊥
zero-not-pos n h e = omega arith

nonempty : (size total : ℕ) → 0 < total % size → 0 < total
nonempty size total h = let l = mod-le total size in omega arith

-- What remains is the last piece, unless it is a full one.
remainder-short :
    (k r size total : ℕ) → total ≡ k * size + r → r ≤ size → 0 < total % size → total % size ≡ r
remainder-short k r size total e h p = elim (Bool-cases (ltb r size)) [
  | inl l ↦ ap (λ (n : ℕ). n % size) e ∙ remainder_short k size r (ltb→lt r size l)
  | inr n ↦
      let full : r ≡ size = ground arith in
      absurd (
        zero-not-pos (total % size) p
          (ap (λ (n : ℕ). n % size) (e ∙ ap (◌+◌ (k * size)) full) ∙ remainder_full k size))
]

remainder-full :
    (k r size total : ℕ) → total ≡ k * size + r → 0 < r → r ≤ size → total % size ≡ 0 → r ≡ size
remainder-full k r size total e p h z = elim (Bool-cases (ltb r size)) [
  | inl l ↦ absurd (
      zero-not-pos r p
        (sym (remainder_short k size r (ltb→lt r size l)) ∙ ap (λ (n : ℕ). n % size) (sym e) ∙ z))
  | inr n ↦ ground arith
]

module _ (sha : DigestEngine) where
  open sha use {Engine, digest_of}

  -- An entry whose checksums are the digests of `ps`, and whose sizes are those of full pieces and
  -- a last one of `last` bytes.
  abbrev IsEntry : ℕ → ℕ → ℕ → SourceFile → List (List ℕ) → FileEntry → Type 0
  IsEntry size k last f ps entry =
      (map (λ (c : Chunk). c.check_sum) entry.chunks ≡ map digest_of ps)
      × (map (λ (c : Chunk). c.size) entry.chunks ≡ replicate k (pos size) ++ pos last ∷ [])

  process_file-IsEntry :
      (top_path : String) (size : ℕ) (f : SourceFile) (e e' : Engine) (ps : List (List ℕ)) (k r : ℕ)
      → map length ps ≡ replicate k size ++ r ∷ []
      → get_file_checksum_list sha true f.content size
          (get_file_verification_code sha f.content e).1
        ≡ some (done (map digest_of ps, e'))
      → (entry : FileEntry) × (process_file sha top_path size f e ≡ some (done (entry, e')))
        × IsEntry size k (length f.content % size) f ps entry
  unfolding process_file
  process_file-IsEntry top_path size f e e' ps k r lengths list =
      let last = length f.content % size in
      let count : length (map digest_of ps) ≡ suc k =
        length-map digest_of ps
        ∙ sym (length-map length ps)
        ∙ ap length lengths
        ∙ length-sized size r k in
      (
        file_entry top_path size f (get_file_verification_code sha f.content e).0
            (map digest_of ps),
        ap
            (λ l. after l (λ (checksums, e''). some (
              done (
                file_entry top_path size f (get_file_verification_code sha f.content e).0 checksums,
                e'',
              ))))
            list,
        (
          make_chunks-check_sum size last (map digest_of ps),
          make_chunks-size size last k (map digest_of ps) count,
        ),
      )

  -- The pieces of `process_file-chunks`, with their lengths.
  pub process_file-sized :
      (top_path : String) (size : ℕ) (f : SourceFile) (e : Engine)
      → 0 < size
      → 0 < length f.content % size
      → (ps : List (List ℕ)) × (entry : FileEntry) × (e' : Engine) × (process_file sha top_path size
            f e
          ≡ some (done (entry, e')))
        × (concat ps ≡ f.content)
        × AreSized size f.content ps
        × (map (λ (c : Chunk). c.check_sum) entry.chunks ≡ map digest_of ps)
        × (map (λ (c : Chunk). c.size) entry.chunks ≡ map (λ (p : List ℕ). pos (length p)) ps)
  process_file-sized top_path size f e h p =
      let e0 = (get_file_verification_code sha f.content e).1 in
      let (ps, e', list, whole, sized) =
        get_file_checksum_list-pieces sha f.content size e0 h
          (nonempty size (length f.content) p) in
      let (k, r, lengths, total, pos_r, small) = sized in
      let (entry, made, (sums, sizes)) =
        process_file-IsEntry top_path size f e e' ps k r lengths list in
      let last = remainder-short k r size (length f.content) total small p in
      (
        ps,
        entry,
        e',
        made,
        whole,
        sized,
        sums,
        sizes
            ∙ ap (λ (n : ℕ). replicate k (pos size) ++ pos n ∷ []) last
            ∙ sym (pos-lengths ps ∙ ap (map pos) lengths ∙ pos-sized k r size),
      )

  -- For a positive chunk size that does not divide the size of the file, the pieces of the file that
  -- `MakeTorrent` puts into the torrent are the whole content in order, the checksum of each chunk
  -- is the digest of its piece, and the size of each chunk is the length of its piece.
  pub process_file-chunks :
      (top_path : String) (size : ℕ) (f : SourceFile) (e : Engine)
      → 0 < size
      → 0 < length f.content % size
      → (ps : List (List ℕ)) × (entry : FileEntry) × (e' : Engine) × (process_file sha top_path size
            f e
          ≡ some (done (entry, e')))
        × (concat ps ≡ f.content)
        × (map (λ (c : Chunk). c.check_sum) entry.chunks ≡ map digest_of ps)
        × (map (λ (c : Chunk). c.size) entry.chunks ≡ map (λ (p : List ℕ). pos (length p)) ps)
  process_file-chunks top_path size f e h p =
      let (ps, entry, e', made, whole, sized, sums, sizes) =
        process_file-sized top_path size f e h p in
      (ps, entry, e', made, whole, sums, sizes)

  -- For a positive chunk size that divides the size of a file that is not empty, the last piece is a
  -- full one, of `size` bytes, and the torrent has its digest, but the size of its chunk is 0.
  pub process_file_last_chunk :
      (top_path : String) (size : ℕ) (f : SourceFile) (e : Engine)
      → 0 < size
      → 0 < length f.content
      → length f.content % size ≡ 0
      → (ps : List (List ℕ)) × (k : ℕ) × (entry : FileEntry) × (e' : Engine) × (process_file sha
            top_path size f e
          ≡ some (done (entry, e')))
        × (concat ps ≡ f.content)
        × (map length ps ≡ replicate k size ++ size ∷ [])
        × (map (λ (c : Chunk). c.check_sum) entry.chunks ≡ map digest_of ps)
        × (map (λ (c : Chunk). c.size) entry.chunks ≡ replicate k (pos size) ++ pos 0 ∷ [])
  process_file_last_chunk top_path size f e h p z =
      let e0 = (get_file_verification_code sha f.content e).1 in
      let (ps, e', list, whole, sized) = get_file_checksum_list-pieces sha f.content size e0 h p in
      let (k, r, lengths, total, pos_r, small) = sized in
      let (entry, made, (sums, sizes)) =
        process_file-IsEntry top_path size f e e' ps k r lengths list in
      let full : r ≡ size = remainder-full k r size (length f.content) total pos_r small z in
      (
        ps,
        k,
        entry,
        e',
        made,
        whole,
        lengths ∙ ap (λ (n : ℕ). replicate k size ++ n ∷ []) full,
        sums,
        sizes ∙ ap (λ (n : ℕ). replicate k (pos size) ++ pos n ∷ []) z,
      )
