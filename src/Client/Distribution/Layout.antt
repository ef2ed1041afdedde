-- ===== src/Client/Distribution/Layout.antt =====
-- How the chunks that `MakeTorrent` writes lie in the file.
use native.Mathlib.Nat.{mod-eq_of_lt, mul_comm}
use cool_down.Prelude.{
  ℕ, zero, suc, ◌+◌, ◌*◌, ◌^◌, ◌≤◌, ◌<◌, ◌≡◌, refl, sym, ap, ◌∙◌, String, some, List, [], ◌∷◌, ◌++◌,
  map, length, false, get_elem?, replicate, arith, some-injective, length-map, drop, Bool-cases,
  ◌⊎◌, inl, inr,
}
use cool_down.Prelude.Int.{pos, negsuc, leb_ℤ}
use cool_down.Outcome.{done, done-injective}
use cool_down.Client.Torrent.{
  Chunk, FileEntry, torrent_file_info, chunk_checksum, chunk_offset, chunk_size, to_u64,
}
use cool_down.Client.Distribution.Filled.{IsLaidOut}

get_elem?-some {ℓ} :
    {A : Type ℓ} (xs : List A) (i : ℕ) → i < length xs → (x : A) × (get_elem? xs i ≡ some x)
get_elem?-some [] i h = absurd (omega arith)
get_elem?-some (x ∷ xs) zero h = (x, refl)
get_elem?-some (x ∷ xs) (suc i) h = get_elem?-some xs i (omega arith)

-- What stands at one place of two lists with the same values.
map_same {ℓ κ μ} :
    {A : Type ℓ} {B : Type κ} {C : Type μ} (f : A → C) (g : B → C) (xs : List A) (ys : List B)
    (i : ℕ) (x : A) (y : B)
    → map f xs ≡ map g ys
    → get_elem? xs i ≡ some x
    → get_elem? ys i ≡ some y
    → f x ≡ g y
map_same f g [] ys i x y h a b = cc
map_same f g (u ∷ xs) [] i x y h a b = cc
map_same f g (u ∷ xs) (v ∷ ys) zero x y h a b =
    ap f (sym (some-injective a))
    ∙ some-injective (ap (λ l. get_elem? l 0) h)
    ∙ ap g (some-injective b)
map_same f g (u ∷ xs) (v ∷ ys) (suc i) x y h a b = map_same f g xs ys i x y (ap (drop 1) h) a b

length_same {ℓ κ μ} :
    {A : Type ℓ} {B : Type κ} {C : Type μ} (f : A → C) (g : B → C) (xs : List A) (ys : List B)
    → map f xs ≡ map g ys
    → length xs ≡ length ys
length_same f g xs ys h = sym (length-map f xs) ∙ ap length h ∙ length-map g ys

-- The lengths of pieces of which all but the last one are full.
sized_le :
    (size r k i n : ℕ)
    → r ≤ size
    → get_elem? (replicate k size ++ r ∷ []) i ≡ some n
    → (i ≤ k) × (n ≤ size)
sized_le size r zero zero n h e = let same = some-injective e in omega arith
sized_le size r zero (suc i) n h e = cc
sized_le size r (suc k) zero n h e = let same = some-injective e in omega arith
sized_le size r (suc k) (suc i) n h e = let (a, b) = sized_le size r k i n h e in omega arith

-- The first length: that of a full piece, unless there is only one.
sized_first :
    (size r k n : ℕ)
    → get_elem? (replicate k size ++ r ∷ []) 0 ≡ some n
    → ((k ≡ 0) × (n ≡ r)) ⊎ ((0 < k) × (n ≡ size))
sized_first size r zero n e = inl (refl, sym (some-injective e))
sized_first size r (suc k) n e = inr (omega arith, sym (some-injective e))

get_elem?-map {ℓ κ} :
    {A : Type ℓ} {B : Type κ} (f : A → B) (xs : List A) (i : ℕ) (x : A)
    → get_elem? xs i ≡ some x
    → get_elem? (map f xs) i ≡ some (f x)
get_elem?-map f [] i x e = cc
get_elem?-map f (y ∷ xs) zero x e = ap (λ z. some (f z)) (some-injective e)
get_elem?-map f (y ∷ xs) (suc i) x e = get_elem?-map f xs i x e

u64-small : (n : ℕ) → n < 2 ^ 64 → to_u64 (pos n) ≡ n
u64-small n h = mod-eq_of_lt h

-- An entry whose chunks have the lengths of these pieces.
module _ (entry : FileEntry) (ps : List (List ℕ)) (size k r : ℕ)
    (sizes : map (λ (c : Chunk). c.size) entry.chunks ≡ map (λ (p : List ℕ). pos (length p)) ps)
    (lengths : map length ps ≡ replicate k size ++ r ∷ []) (small : r ≤ size) (positive : 0 < size)
    (total : k * size + r < 2 ^ 64) where
  pub counted : length entry.chunks ≡ length ps
  counted =
      length_same (λ (c : Chunk). c.size) (λ (p : List ℕ). pos (length p)) entry.chunks ps sizes

  pub piece_le : (i : ℕ) (p : List ℕ) → get_elem? ps i ≡ some p → (i ≤ k) × (length p ≤ size)
  piece_le i p e =
      sized_le size r k i (length p) small (rw lengths at (get_elem?-map length ps i p e))

  chunk_at :
      (i : ℕ)
      → i < length entry.chunks
      → (c : Chunk) × (p : List ℕ) × (get_elem? entry.chunks i ≡ some c)
        × (get_elem? ps i ≡ some p)
        × (c.size ≡ pos (length p))
  chunk_at i h =
      let (c, at) = get_elem?-some entry.chunks i h in
      let (p, at') = get_elem?-some ps i (rw counted at h) in
      (
        c,
        p,
        at,
        at',
        map_same (λ (c : Chunk). c.size) (λ (p : List ℕ). pos (length p)) entry.chunks ps i c p
            sizes at at',
      )

  product_fits :
      (a i : ℕ)
      → i ≤ k
      → ((k ≡ 0) × (a ≡ r)) ⊎ ((0 < k) × (a ≡ size))
      → (a * i ≡ i * size) × (a < 2 ^ 64) × (i < 2 ^ 64) × (i * size < 2 ^ 64)
  product_fits a i h (inl (z, e)) =
      let none : i ≡ 0 = omega arith in
      let t : 0 * size + r < 2 ^ 64 = rw z at total in
      rw none (omega arith, omega arith, omega arith, omega arith)
  product_fits a i h (inr (z, e)) =
      let whole : size ≤ k * size = grind arith in
      let count : k ≤ k * size = grind arith in
      let front : i * size ≤ k * size = grind arith in
      let area : a * i ≡ i * size = rw e (mul_comm size i) in
      (area, omega arith, omega arith, omega arith)

  offset_of :
      (i : ℕ)
      → i < length entry.chunks
      → chunk_offset (torrent_file_info entry) (pos i) ≡ done (i * size)
  unfolding chunk_offset torrent_file_info
  offset_of i h =
      let (c, p, at, at', own) = chunk_at 0 (omega arith) in
      let (d, q, there, there', _) = chunk_at i h in
      let kind =
        sized_first size r k (length p) (rw lengths at (get_elem?-map length ps 0 p at')) in
      let (area, wide, wide', fits) = product_fits (length p) i (piece_le i q there').0 kind in
      let inside : leb_ℤ (pos (length entry.chunks)) (pos i) ≡ false = ground arith in
      rw
        (
          inside,
          at,
          own,
          u64-small (length p) wide,
          u64-small i wide',
          area,
          u64-small (i * size) fits,
        )
        refl

  size_of :
      (i n : ℕ)
      → chunk_size (torrent_file_info entry) (pos i) ≡ done (pos n)
      → (i < length entry.chunks) × (n ≤ size)
  unfolding chunk_size torrent_file_info
  size_of i n h = elim (Bool-cases (leb_ℤ (pos (length entry.chunks)) (pos i))) [
    | inl e ↦ let wrong : done (negsuc 0) ≡ done (pos n) = rw e at h in cc
    | inr e ↦
        let below : i < length entry.chunks = ground arith in
        let (c, p, at, at', own) = chunk_at i below in
        let given : done c.size ≡ done (pos n) = rw (e, at) at h in
        let same : pos (length p) ≡ pos n = sym own ∙ done-injective given in
        let fits = (piece_le i p at').1 in (below, ground arith)
  ]

  pub entry-IsLaidOut : IsLaidOut size (torrent_file_info entry)
  unfolding torrent_file_info
  entry-IsLaidOut = record { offsets = offset_of; sizes = size_of }

  -- What the torrent has for the chunk of a piece.
  pub piece_of :
      (digest_of : List ℕ → String)
      → map (λ (c : Chunk). c.check_sum) entry.chunks ≡ map digest_of ps
      → (i : ℕ) (p : List ℕ) → i < length entry.chunks
      → get_elem? ps i ≡ some p
      → (chunk_size (torrent_file_info entry) (pos i) ≡ done (pos (length p)))
        × (chunk_checksum (torrent_file_info entry) (pos i) ≡ done (digest_of p))
  unfolding chunk_size chunk_checksum torrent_file_info
  piece_of digest_of sums i p h here =
      let (c, q, at, at', own) = chunk_at i h in
      let same : q ≡ p = some-injective (sym at' ∙ here) in
      let inside : leb_ℤ (pos (length entry.chunks)) (pos i) ≡ false = ground arith in
      let sum =
        map_same (λ (c : Chunk). c.check_sum) digest_of entry.chunks ps i c p sums at here in
      (rw (inside, at, own, same) refl, rw (inside, at, sum) refl)
