-- ===== src/Client/Distribution/Same.antt =====
-- A file of which every chunk was downloaded is the file that was published.
use mathlib.Core.List.{append-nil}
use cool_down.Prelude.{
  ℕ, zero, suc, ◌+◌, ◌*◌, ◌%◌, ◌^◌, ◌≤◌, ◌<◌, ◌≡◌, refl, sym, ap, ◌∙◌, String, some, List, [], ◌∷◌,
  ◌++◌, map, length, take, drop, get_elem?, replicate, arith, some-injective, take_all, take_front,
  drop_front, take-append-drop, length-drop, length-take,
}
use cool_down.Prelude.Int.{pos, pos_part}
use cool_down.Outcome.{done, done-injective}
use cool_down.Client.Torrent.{Chunk, FileEntry, torrent_file_info}
use cool_down.Client.Verification.{DigestEngine}
use cool_down.Client.Verification.Pieces.{concat, drop-add}
use cool_down.Client.MakeTorrent.Listing.{SourceFile}
use cool_down.Client.MakeTorrent.{process_file}
use cool_down.Client.MakeTorrent.Sizes.{process_file-sized}
use cool_down.Client.Transfer.Ranges.{range_of}
use cool_down.Client.Distribution.{Covers, Downloaded}
use cool_down.Client.Distribution.Filled.{Downloaded-IsVerified, length-Downloaded}
use cool_down.Client.Distribution.Layout.{entry-IsLaidOut, piece_of, piece_le, counted}

abbrev Sized : ℕ → ℕ → ℕ → List (List ℕ) → Type 0
Sized size k r ps = map length ps ≡ replicate k size ++ r ∷ []

Sized-head :
    (size k r : ℕ) (p : List ℕ) (ps : List (List ℕ))
    → Sized size (suc k) r (p ∷ ps)
    → length p ≡ size
Sized-head size k r p ps h = some-injective (ap (λ l. get_elem? l 0) h)

Sized-tail :
    (size k r : ℕ) (p : List ℕ) (ps : List (List ℕ))
    → Sized size (suc k) r (p ∷ ps)
    → Sized size k r ps
Sized-tail size k r p ps h = ap (drop 1) h

later :
    (size i n : ℕ) (file : List ℕ)
    → range_of (suc i * size) n file ≡ range_of (i * size) n (drop size file)
later size i n file =
    let e : suc i * size ≡ size + i * size = grind arith in
    rw (e, drop-add size (i * size) file) refl

first : (size n : ℕ) (file : List ℕ) → range_of (0 * size) n file ≡ take n file
first size n file = let e : 0 * size ≡ 0 = omega arith in rw e refl

nothing_left :
    (ps : List (List ℕ)) (i : ℕ) (p : List ℕ) → map length ps ≡ [] → get_elem? ps i ≡ some p → ⊥
nothing_left [] i p h e = cc
nothing_left (q ∷ ps) i p h e = cc

-- A piece is a range of the whole.
piece_is_range :
    (size k r : ℕ) (ps : List (List ℕ)) (i : ℕ) (p : List ℕ)
    → Sized size k r ps
    → get_elem? ps i ≡ some p
    → range_of (i * size) (length p) (concat ps) ≡ p
piece_is_range size k r [] i p h e = cc
piece_is_range size k r (q ∷ ps) zero p h e =
    let same : q ≡ p = some-injective e in
    rw same (first size (length p) (p ++ concat ps) ∙ take_front p (concat ps))
piece_is_range size zero r (q ∷ ps) (suc i) p h e = absurd (nothing_left ps i p (ap (drop 1) h) e)
piece_is_range size (suc k) r (q ∷ ps) (suc i) p h e =
    let full : size ≡ length q = sym (Sized-head size k r q ps h) in
    later size i (length p) (q ++ concat ps)
    ∙ ap (range_of (i * size) (length p)) (rw full (drop_front q (concat ps)))
    ∙ piece_is_range size k r ps i p (Sized-tail size k r q ps h) e

get_elem?-lt : (ps : List (List ℕ)) (i : ℕ) (p : List ℕ) → get_elem? ps i ≡ some p → i < length ps
get_elem?-lt [] i p e = cc
get_elem?-lt (q ∷ ps) zero p e = omega arith
get_elem?-lt (q ∷ ps) (suc i) p e = omega (arith, get_elem?-lt ps i p e)

pos-injective : {m n : ℕ} → pos m ≡ pos n → m ≡ n
pos-injective h = ap pos_part h

-- A file with these pieces in their places is the whole.
pieces_fill :
    (size k r : ℕ) (ps : List (List ℕ)) (file : List ℕ)
    → Sized size k r ps
    → length file ≡ k * size + r
    → ((i : ℕ) (p : List ℕ) → get_elem? ps i ≡ some p → range_of (i * size) (length p) file ≡ p)
    → file ≡ concat ps
pieces_fill size zero r [] file h l at = cc
pieces_fill size (suc k) r [] file h l at = cc
pieces_fill size zero r (p ∷ []) file h l at =
    let last : length p ≡ r = some-injective (ap (λ l. get_elem? l 0) h) in
    sym (take_all (length p) file (omega arith))
    ∙ sym (first size (length p) file)
    ∙ at 0 p refl
    ∙ sym (append-nil p)
pieces_fill size zero r (p ∷ q ∷ ps) file h l at = let wrong = ap (drop 1) h in cc
pieces_fill size (suc k) r (p ∷ ps) file h l at =
    let full : length p ≡ size = Sized-head size k r p ps h in
    let front : take size file ≡ p = rw full at (sym (first size (length p) file) ∙ at 0 p refl) in
    let more : suc k * size ≡ size + k * size = grind arith in
    let left = length-drop size file in
    let back : drop size file ≡ concat ps =
      pieces_fill size k r ps (drop size file) (Sized-tail size k r p ps h) (omega arith)
        (λ i q e. sym (later size i (length q) file) ∙ at (suc i) q e) in
    sym (take-append-drop size file)
    ∙ ap (◌++◌ (take size file)) back
    ∙ ap (λ (l : List ℕ). l ++ concat ps) front

module _ (sha : DigestEngine) where
  open sha use {Engine, digest_of}

  -- No other bytes that a chunk can have have the digest of a range of the file.
  abbrev pub IsUnique : ℕ → List ℕ → Type 0
  IsUnique size content =
      (offset n : ℕ) (b : List ℕ)
      → length b ≤ size
      → digest_of b ≡ digest_of (range_of offset n content)
      → b ≡ range_of offset n content

  module _ (entry : FileEntry) (ps : List (List ℕ)) (size k r : ℕ)
      (sizes : map (λ (c : Chunk). c.size) entry.chunks ≡ map (λ (p : List ℕ). pos (length p)) ps)
      (lengths : Sized size k r ps) (small : r ≤ size) (positive : 0 < size)
      (total : k * size + r < 2 ^ 64)
      (sums : map (λ (c : Chunk). c.check_sum) entry.chunks ≡ map digest_of ps) where
    -- Each piece has come to its place.
    piece_same :
        (content got is : List ℕ) {blank : List ℕ}
        → concat ps ≡ content
        → IsUnique size content
        → ((i : ℕ) → i < length entry.chunks → Covers i is)
        → Downloaded sha (torrent_file_info entry) blank is got
        → (i : ℕ) (p : List ℕ) → get_elem? ps i ≡ some p
        → range_of (i * size) (length p) got ≡ p
    piece_same content got is whole unique all run i p at =
        let count = counted entry ps size k r sizes lengths small positive total in
        let laid = entry-IsLaidOut entry ps size k r sizes lengths small positive total in
        let inside : i < length entry.chunks = omega (arith, get_elem?-lt ps i p at) in
        let (check_sum, n, sum, own, digest) =
          Downloaded-IsVerified sha (torrent_file_info entry) size laid run i (all i inside) in
        let (given, sum') =
          piece_of entry ps size k r sizes lengths small positive total digest_of sums i p inside
            at in
        let n_is : n ≡ length p = pos-injective (done-injective (sym own ∙ given)) in
        let sum_is : check_sum ≡ digest_of p = done-injective (sym sum ∙ sum') in
        let place : range_of (i * size) (length p) content ≡ p =
          rw whole at (piece_is_range size k r ps i p lengths at) in
        let fits = (piece_le entry ps size k r sizes lengths small positive total i p at).1 in
        let short = length-take (length p) (drop (i * size) got) in
        let digest' : digest_of (range_of (i * size) (length p) got) ≡ digest_of p =
          rw n_is at digest ∙ sum_is in
        unique (i * size) (length p) (range_of (i * size) (length p) got) (omega arith)
          (digest' ∙ ap digest_of (sym place))
        ∙ place

  -- A file is published with a positive chunk size that does not divide its size, which is below
  -- 2 ^ 64, and no other bytes that a chunk can have have the digest of a range of it. Then a client
  -- that starts with a file of this size, and of whose tasks, in any order, with any peers, failures
  -- and schedules, one has finished for each chunk of the torrent, has the file that was published.
  pub file_arrives :
      (top_path : String) (size : ℕ) (f : SourceFile) (e e' : Engine) (entry : FileEntry)
      (blank got is : List ℕ)
      → 0 < size
      → 0 < length f.content % size
      → length f.content < 2 ^ 64
      → IsUnique size f.content
      → process_file sha top_path size f e ≡ some (done (entry, e'))
      → length blank ≡ length f.content
      → ((i : ℕ) → i < length entry.chunks → Covers i is)
      → Downloaded sha (torrent_file_info entry) blank is got
      → got ≡ f.content
  file_arrives top_path size f e e' entry blank got is h p wide unique made l all run =
      let (ps, entry', e'', made', whole, (k, r, lengths, total, pos_r, small), sums, sizes) =
        process_file-sized sha top_path size f e h p in
      let same : entry' ≡ entry =
        ap (λ (o : FileEntry × Engine). o.0) (done-injective (some-injective (sym made' ∙ made))) in
      let sizes' = rw same at sizes in
      let sums' = rw same at sums in
      let fits : k * size + r < 2 ^ 64 = omega arith in
      let laid = entry-IsLaidOut entry ps size k r sizes' lengths small h fits in
      pieces_fill size k r ps got lengths
        (length-Downloaded sha (torrent_file_info entry) run ∙ l ∙ total)
        (λ i piece at.
          piece_same entry ps size k r sizes' lengths small h fits sums' f.content got is whole
            unique all run i piece at)
      ∙ whole
