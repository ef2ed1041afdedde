-- ===== src/Client/Owners/Samples.antt =====
-- A bitmap in blocks of one bit.
use cool_down.Prelude.{ℕ, zero, suc, ◌≡◌, refl, ap, List, [], ◌∷◌, ◌++◌, Bool, true, false}
use cool_down.Client.JobInfo.{Bitmap}
use cool_down.Client.Bitmaps.{Blocks, IsBlockwise}

-- A block holds one bit.
abbrev pub block : Bool → ℕ
block true = 1
block false = 0

abbrev pub bit : ℕ → Bool
bit zero = false
bit (suc n) = true

abbrev pub blocks_of : Bitmap → List ℕ
blocks_of [] = []
blocks_of (b ∷ bits) = block b ∷ blocks_of bits

abbrev pub bits_of : List ℕ → Bitmap
bits_of [] = []
bits_of (n ∷ ns) = bit n ∷ bits_of ns

abbrev pub small : Blocks
small = record { to_block_range = blocks_of; of_blocks = bits_of }

bits_of-blocks_of : (bits : Bitmap) → bits_of (blocks_of bits) ≡ bits ++ []
bits_of-blocks_of [] = refl
bits_of-blocks_of (true ∷ bits) = ap (◌∷◌ true) (bits_of-blocks_of bits)
bits_of-blocks_of (false ∷ bits) = ap (◌∷◌ false) (bits_of-blocks_of bits)

pub small-IsBlockwise : IsBlockwise small
small-IsBlockwise = record { padding = λ _. []; back = bits_of-blocks_of }
