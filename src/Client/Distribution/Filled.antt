-- ===== src/Client/Distribution/Filled.antt =====
-- What a run of download tasks has put into the file.
use cool_down.Prelude.{
  ℕ, ◌+◌, ◌*◌, ◌≤◌, ◌<◌, ◌≡◌, ◌≢◌, refl, sym, ap, ◌∙◌, inl, inr, String, List, length, ltb, arith,
  Bool-cases, ◌==◌, nat_key, ltb→lt, nat_beq_iff,
}
use cool_down.Prelude.Int.{pos}
use cool_down.Outcome.{done, done-injective}
use cool_down.Client.Torrent.{TorrentFileInfo, chunk_checksum, chunk_offset, chunk_size}
use cool_down.Client.Verification.{DigestEngine}
use cool_down.Client.Transfer.{write_file}
use cool_down.Client.Transfer.Ranges.{range_of, range_of-written, range_of-kept, length-written}
use cool_down.Client.Transfer.Stored.{download_task-Stores, download_task_running}
use cool_down.Client.Distribution.{
  Covers, Downloaded, at_first, chunk_finished, chunk_failed, chunk_running,
}

-- The chunks stand one after the other, each at most `size` bytes long.
pub record IsLaidOut (size : ℕ) (info : TorrentFileInfo) : Type 0 where
  pub offsets : (i : ℕ) → i < info.chunk_count → chunk_offset info (pos i) ≡ done (i * size)
  pub sizes :
      (i n : ℕ) → chunk_size info (pos i) ≡ done (pos n) → (i < info.chunk_count) × (n ≤ size)

pub before : (i j n size : ℕ) → i < j → n ≤ size → i * size + n ≤ j * size
before i j n size h k = grind arith

module _ (sha : DigestEngine) (info : TorrentFileInfo) where
  open sha use {digest_of}

  -- The range of the chunk has the digest that the torrent has for the chunk.
  abbrev pub IsVerified : ℕ → ℕ → List ℕ → Type 0
  IsVerified size i file =
      (check_sum : String) × (n : ℕ) × (chunk_checksum info (pos i) ≡ done check_sum)
      × (chunk_size info (pos i) ≡ done (pos n))
      × (digest_of (range_of (i * size) n file) ≡ check_sum)

  module _ (size : ℕ) (laid : IsLaidOut size info) where
    IsVerified-kept :
        (i j : ℕ) (f f' content : List ℕ)
        → i ≢ j
        → chunk_size info (pos j) ≡ done (pos (length content))
        → write_file f (j * size) content ≡ done f'
        → IsVerified size i f
        → IsVerified size i f'
    IsVerified-kept i j f f' content apart given written (check_sum, n, sum, own, digest) =
        let fits = (laid.sizes i n own).1 in
        let fits' = (laid.sizes j (length content) given).1 in
        let same : range_of (i * size) n f' ≡ range_of (i * size) n f =
          range_of-kept f (j * size) content f' written (i * size) n (elim (Bool-cases (ltb i j)) [
            | inl e ↦ inl (before i j n size (ltb→lt i j e) fits)
            | inr e ↦ inr (before j i (length content) size (ground arith) fits')
          ]) in
        (check_sum, n, sum, own, rw same digest)

    -- Every chunk of which a task has finished is verified.
    pub Downloaded-IsVerified :
        {file : List ℕ} {is : List ℕ} {f : List ℕ}
        → Downloaded sha info file is f
        → (i : ℕ) → Covers i is
        → IsVerified size i f
    Downloaded-IsVerified at_first i c = absurd c
    Downloaded-IsVerified (chunk_finished {is} {f} {f'} d j x peer rounds e ran) i c =
        let (check_sum, content, sum, given, (offset, digest, at, written)) =
          download_task-Stores sha info (pos j) x peer rounds e f f' ran in
        let inside = (laid.sizes j (length content) given).0 in
        let place : offset ≡ j * size = done-injective (sym at ∙ laid.offsets j inside) in
        let put : write_file f (j * size) content ≡ done f' = rw place at written in
        elim (Bool-cases (i == j)) [
          | inl e ↦
              let same : i ≡ j = (nat_beq_iff i j).0 e in
              rw same (
                check_sum,
                length content,
                sum,
                given,
                ap digest_of (range_of-written f (j * size) content f' put) ∙ digest,
              )
          | inr e ↦
              IsVerified-kept i j f f' content (λ s. ground (arith, nat_beq_iff i j)) given put
                (Downloaded-IsVerified d i
                  (elim c [ inl s ↦ ground (arith, nat_beq_iff i j) | inr r ↦ r ]))
        ]
    Downloaded-IsVerified (chunk_failed d j x peer rounds e fault ran) i c =
        Downloaded-IsVerified d i c
    Downloaded-IsVerified (chunk_running {is} {f} {f'} d j x peer rounds e ran) i c =
        rw (download_task_running sha info (pos j) x peer rounds e f f' ran)
          (Downloaded-IsVerified d i c)

  pub length-Downloaded :
      {file : List ℕ} {is : List ℕ} {f : List ℕ}
      → Downloaded sha info file is f
      → length f ≡ length file
  length-Downloaded at_first = refl
  length-Downloaded (chunk_finished {is} {f} {f'} d j x peer rounds e ran) =
      let (check_sum, content, sum, given, (offset, digest, at, written)) =
        download_task-Stores sha info (pos j) x peer rounds e f f' ran in
      length-written f offset content f' written ∙ length-Downloaded d
  length-Downloaded (chunk_failed d j x peer rounds e fault ran) = length-Downloaded d
  length-Downloaded (chunk_running {is} {f} {f'} d j x peer rounds e ran) =
      ap length (download_task_running sha info (pos j) x peer rounds e f f' ran)
      ∙ length-Downloaded d
