-- ===== src/Client/Bitmaps.antt =====
-- client/src/job.cc: the two conversions between a bitmap and the format in which it is sent, which
-- the job history uses too. What boost makes of the bits and of the blocks is a parameter.
use cool_down.Prelude.{ℕ, zero, suc, ◌≡◌, refl, ap, List, [], ◌∷◌, ◌++◌, false, length}
use cool_down.Client.JobInfo.{Bitmap}

-- `to_block_range`, and the constructor from a range of blocks.
pub record Blocks : Type 0 where
  pub to_block_range : Bitmap → List ℕ
  pub of_blocks : List ℕ → Bitmap

-- `resize`: bits that are added are not set.
unfoldable pub resize : Bitmap → ℕ → Bitmap
resize bits zero = []
resize [] (suc n) = false ∷ resize [] n
resize (b ∷ bits) (suc n) = b ∷ resize bits n

module _ (boost : Blocks) where
  open boost use {to_block_range, of_blocks}

  -- `filebit` and `filebitcount`
  abbrev pub Transport : Type 0
  Transport = List ℕ × ℕ

  unfoldable pub convert_bitmap_to_transport_format : Bitmap → Transport
  convert_bitmap_to_transport_format bits = (to_block_range bits, length bits)

  unfoldable pub conver_transport_format_bitmap : Transport → Bitmap
  conver_transport_format_bitmap (file_bit, file_bit_count) =
      resize (of_blocks file_bit) file_bit_count

-- What is documented of boost: the blocks of a bitmap are read back as its bits, and perhaps more.
pub record IsBlockwise (boost : Blocks) : Type 0 where
  pub padding : Bitmap → Bitmap
  pub back : (bits : Bitmap) → boost.of_blocks (boost.to_block_range bits) ≡ bits ++ padding bits

resize-append : (bits more : Bitmap) → resize (bits ++ more) (length bits) ≡ bits
unfolding resize
resize-append [] [] = refl
resize-append [] (b ∷ more) = refl
resize-append (b ∷ bits) more = ap (◌∷◌ b) (resize-append bits more)

pub length-resize : (bits : Bitmap) (n : ℕ) → length (resize bits n) ≡ n
unfolding resize
length-resize bits zero = refl
length-resize [] (suc n) = ap suc (length-resize [] n)
length-resize (b ∷ bits) (suc n) = ap suc (length-resize bits n)

-- A bitmap that was converted to be sent is read back as it was.
pub conver_transport_format_bitmap-convert :
    (boost : Blocks) (laws : IsBlockwise boost) (bits : Bitmap)
    → conver_transport_format_bitmap boost (convert_bitmap_to_transport_format boost bits) ≡ bits
unfolding conver_transport_format_bitmap convert_bitmap_to_transport_format
conver_transport_format_bitmap-convert boost laws bits =
    rw (laws.back bits) (resize-append bits (laws.padding bits))
