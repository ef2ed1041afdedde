-- ===== src/Client/Verification/Engine.antt =====
-- Digest engines for the tests: each keeps the bytes it was given. The digest of the first only says
-- whether there are any, that of the second spells them out.
use Prim.Native.Char.{code}
use cool_down.Prelude.{
  ℕ, zero, suc, ◌≡◌, refl, sym, ap, ◌∙◌, String, List, [], ◌∷◌, ◌++◌, ◌==◌, nat_key, if◌then◌else◌,
}
use cool_down.Client.Verification.{DigestEngine}

abbrev engine_of : (List ℕ → String) → DigestEngine
engine_of digest_of = record {
  Engine = List ℕ;
  reset = λ e. [];
  update = ◌++◌;
  digest = λ e. (digest_of e, []);
  digest_of = digest_of;
  digest_resets = λ e. refl;
  digest_fresh = λ e bytes. refl;
}

abbrev pub any_bytes : List ℕ → String
any_bytes [] = "none"
any_bytes (b ∷ bs) = "some"

abbrev pub byte_engine : DigestEngine
byte_engine = engine_of any_bytes

-- A number in strokes, with a comma behind it.
abbrev strokes : ℕ → String → String
strokes zero rest = String.◌∷◌ "," rest
strokes (suc n) rest = String.◌∷◌ "1" (strokes n rest)

abbrev pub spelled : List ℕ → String
spelled [] = ""
spelled (b ∷ bs) = strokes b (spelled bs)

abbrev pub spelling_engine : DigestEngine
spelling_engine = engine_of spelled

-- One stroke more for the first number.
stroke : List ℕ → List ℕ
stroke [] = []
stroke (n ∷ ns) = suc n ∷ ns

read : String → List ℕ
unfolding stroke
read String.[] = []
read (String.◌∷◌ c s) = let rest = read s in if code c == code "," then zero ∷ rest else stroke rest

read-strokes : (n : ℕ) (s : String) → read (strokes n s) ≡ n ∷ read s
unfolding read
read-strokes zero s = refl
read-strokes (suc n) s = ap stroke (read-strokes n s)

read-spelled : (bs : List ℕ) → read (spelled bs) ≡ bs
unfolding read
read-spelled [] = refl
read-spelled (b ∷ bs) = read-strokes b (spelled bs) ∙ ap (◌∷◌ b) (read-spelled bs)

-- No two lists of bytes are spelled alike.
pub spelled-injective : (bs cs : List ℕ) → spelled bs ≡ spelled cs → bs ≡ cs
spelled-injective bs cs h = sym (read-spelled bs) ∙ ap read h ∙ read-spelled cs
