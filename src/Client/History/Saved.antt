-- ===== src/Client/History/Saved.antt =====
-- A job that has been saved and is loaded again.
use native.Mathlib.Nat.{div_self, div-eq_of_lt}
use cool_down.Prelude.{
  nat_beq_iff, ◌≤◌, ◌<◌, ◌≡◌, refl, sym, ap, ◌∙◌, arith, String, Option, some, List, [], ◌∷◌, Bool,
  true, false, map, length, ◌==◌, nat_key, string_key, if◌then◌else◌, All, All-append, Bool-cases,
  Option-cases, inl, inr, ◌||◌, ◌&&◌,
}
use cool_down.Prelude.Int.{ℤ, pos}
use cool_down.Prelude.Map.{lookup, insert, lookup-insert, member}
use cool_down.Outcome.{Returns, Returns-bind, WhenDone, WhenDone-bind, Returns-map}
use cool_down.Client.Torrent.{FileMap, TorrentFileInfo}
use cool_down.Client.JobInfo.{Bitmap, count, DownloadInfo, bitmap_of}
use cool_down.Client.Bitmaps.{
  Blocks, IsBlockwise, convert_bitmap_to_transport_format, conver_transport_format_bitmap,
  conver_transport_format_bitmap-convert,
}
use cool_down.Client.History.{
  FileInfo, percentage_of, save_file, save_copies, save_files, load_bitmaps,
}

abbrev pub all_set : Bitmap → Bool
all_set [] = true
all_set (b ∷ bits) = b && all_set bits

count_le : (bits : Bitmap) → count bits ≤ length bits
count_le [] = omega arith
count_le (true ∷ bits) = omega (arith, count_le bits)
count_le (false ∷ bits) = omega (arith, count_le bits)

count_all : (bits : Bitmap) → (count bits == length bits) ≡ all_set bits
count_all [] = refl
count_all (true ∷ bits) = ground (arith, count_all bits)
count_all (false ∷ bits) = ground (arith, count_le bits)

-- The percentage of a file with chunks that a job is loaded with is 1 when all chunks are there, and 0
-- when one is missing, since the division is one of integers.
pub percentage_of-value :
    (bits : Bitmap)
    → 0 < length bits
    → Returns (λ p. p ≡ pos (if all_set bits then 1 else 0)) (percentage_of bits)
unfolding percentage_of
percentage_of-value bits h = elim (Bool-cases (count bits == length bits)) [
  | inl e ↦
      let full : all_set bits ≡ true = sym (count_all bits) ∙ e in
      let same : count bits ≡ length bits = (nat_beq_iff (count bits) (length bits)).0 e in
      rw (some_bits, same, div_self h, full, percentage_of) refl
  | inr e ↦
      let part : all_set bits ≡ false = sym (count_all bits) ∙ e in
      let less : count bits < length bits = ground (arith, count_le bits) in
      rw (some_bits, div-eq_of_lt less, part, percentage_of) refl
]
  where
    some_bits : (length bits == 0) ≡ false
    some_bits = ground arith

module _ (boost : Blocks) where
  -- The bitmap of the file, as it was when it was saved.
  pub record IsSaved (d : DownloadInfo) (x : FileInfo) : Type 0 where
    pub bits : Bitmap
    pub mapped : lookup x.fileid d.bitmap_map ≡ some bits
    pub sent : (x.file_bit, x.file_bit_count) ≡ convert_bitmap_to_transport_format boost bits

  save_file-IsSaved :
      (d : DownloadInfo) (fileid : String) (bits : Bitmap) (f : TorrentFileInfo)
      → lookup fileid d.bitmap_map ≡ some bits
      → IsSaved d (save_file boost fileid bits f)
  unfolding save_file convert_bitmap_to_transport_format
  save_file-IsSaved d fileid bits f e = record { bits = bits; mapped = e; sent = refl }

  save_copies-IsSaved :
      (d : DownloadInfo) (fileid : String) (fs : List TorrentFileInfo)
      → WhenDone (All (IsSaved d)) (save_copies boost d fileid fs)
  unfolding save_copies bitmap_of
  save_copies-IsSaved d fileid [] = tt
  save_copies-IsSaved d fileid (f ∷ fs) = elim (Option-cases (lookup fileid d.bitmap_map)) [
    | inl e ↦ rw (e, save_copies, bitmap_of) tt
    | inr (bits, e) ↦
        rw (e, save_copies, bitmap_of)
          (WhenDone-bind _ (save_copies boost d fileid fs) _ (save_copies-IsSaved d fileid fs)
            λ rest k. (save_file-IsSaved d fileid bits f e, k))
  ]

  pub save_files-IsSaved :
      (d : DownloadInfo) (m : FileMap) → WhenDone (All (IsSaved d)) (save_files boost d m)
  unfolding save_files
  save_files-IsSaved d [] = tt
  save_files-IsSaved d ((fileid, fs) ∷ m) =
      WhenDone-bind _ (save_copies boost d fileid fs) _ (save_copies-IsSaved d fileid fs) λ files k.
        WhenDone-bind _ (save_files boost d m) _ (save_files-IsSaved d m)
          λ rest l. All-append (IsSaved d) files rest k l

  -- What loading leaves of `d0`, when the bitmaps of `d` were saved.
  pub record IsLoaded (d d0 : DownloadInfo) (files : List FileInfo) (d' : DownloadInfo)
      : Type 0 where
    pub uploaded : d'.upload_total ≡ d0.upload_total
    pub downloaded : d'.download_total ≡ d0.download_total
    pub bitmaps :
        (f : String)
        → lookup f d'.bitmap_map ≡ (
            if member f (map (λ (x : FileInfo). x.fileid) files)
            then lookup f d.bitmap_map
            else lookup f d0.bitmap_map)

  -- One turn of the loop.
  abbrev with_bitmap : FileInfo → Bitmap → ℤ → DownloadInfo → DownloadInfo
  with_bitmap x bits p d0 = record d0 {
    bitmap_map = insert x.fileid bits d0.bitmap_map;
    percentage_map = insert x.fileid p d0.percentage_map;
  }

  choose :
      (t b : Bool) (o o' r : Option Bitmap)
      → (t ≡ true → o ≡ r)
      → (if b then o else if t then r else o') ≡ (if t || b then o else o')
  choose true true o o' r h = refl
  choose true false o o' r h = sym (h refl)
  choose false true o o' r h = refl
  choose false false o o' r h = refl

  onward :
      (d : DownloadInfo) (x : FileInfo) (xs : List FileInfo) (h : IsSaved d x) (d0 : DownloadInfo)
      (p : ℤ) (d' : DownloadInfo)
      → IsLoaded d (with_bitmap x h.bits p d0) xs d'
      → IsLoaded d d0 (x ∷ xs) d'
  unfolding member
  onward d x xs h d0 p d' l = record {
    uploaded = l.uploaded;
    downloaded = l.downloaded;
    bitmaps = λ f. l.bitmaps f ∙ choice f;
  }
    where
      choice :
          (f : String)
          → (if member f (map (λ (y : FileInfo). y.fileid) xs)
              then lookup f d.bitmap_map
              else lookup f (insert x.fileid h.bits d0.bitmap_map))
            ≡ (if f == x.fileid || member f (map (λ (y : FileInfo). y.fileid) xs)
                then lookup f d.bitmap_map
                else lookup f d0.bitmap_map)
      choice f = rw (lookup-insert x.fileid f h.bits d0.bitmap_map) (
          choose (f == x.fileid) _ _ _ _
            λ t. let same : f ≡ x.fileid = (string_key.beq_iff f x.fileid).0 t in rw same h.mapped)

  module _ (laws : IsBlockwise boost) where
    pub load_bitmaps-IsLoaded :
        (d : DownloadInfo) (files : List FileInfo) (d0 : DownloadInfo)
        → All (IsSaved d) files
        → All (λ x. 0 < x.file_bit_count) files
        → Returns (IsLoaded d d0 files) (load_bitmaps boost files d0)
    unfolding load_bitmaps member convert_bitmap_to_transport_format
    load_bitmaps-IsLoaded d [] d0 saved sized = record {
      uploaded = refl;
      downloaded = refl;
      bitmaps = λ f. refl;
    }
    load_bitmaps-IsLoaded d (x ∷ xs) d0 (h, saved) (pos_x, sized) =
        let read : conver_transport_format_bitmap boost (x.file_bit, x.file_bit_count) ≡ h.bits =
          rw h.sent (conver_transport_format_bitmap-convert boost laws h.bits) in
        let counted : x.file_bit_count ≡ length h.bits = ap (λ t. t.1) h.sent in
        rw (read, load_bitmaps)
          (Returns-bind _ (percentage_of h.bits) _
            (percentage_of-value h.bits (omega (arith, counted, pos_x)))
            λ p k.
              Returns-map (onward d x xs h d0 p) (load_bitmaps boost xs (with_bitmap x h.bits p d0))
                (load_bitmaps-IsLoaded d xs (with_bitmap x h.bits p d0) saved sized))
