-- ===== src/Client/Verification.antt =====
-- client/src/verification.cc. The SHA-1 engine of Poco is a parameter: the static object is a state that
-- each call takes and gives back. A file is its bytes, and a range of addresses one of offsets.
pub mod Pieces
pub mod Engine
use cool_down.Prelude.{
  ℕ, zero, suc, ◌+◌, ◌-◌, String, Option, none, some, List, [], ◌∷◌, ◌++◌, Bool, true, false,
  length, take, drop, ltb, leb, ◌==◌, string_key, ◌≡◌,
}
use cool_down.ErrorCode.{RetCode}
use cool_down.Outcome.{Outcome, done, throw, assert, ◌>>=◌, ◌>>◌, assertion}

-- `reset` and `update`, and `digestToHex(digest())`. The documentation says that `digest` resets the
-- engine, and the digest of what follows a reset does not depend on what came before.
pub record DigestEngine : Type 1 where
  pub Engine : Type 0
  pub reset : Engine → Engine
  pub update : Engine → List ℕ → Engine
  pub digest : Engine → String × Engine
  pub digest_of : List ℕ → String
  pub digest_resets : (e : Engine) → (digest e).1 ≡ reset e
  pub digest_fresh :
      (e : Engine) (bytes : List ℕ) → (digest (update (reset e) bytes)).0 ≡ digest_of bytes

-- The bytes from `begin` to `end`.
abbrev pub slice : List ℕ → ℕ → ℕ → List ℕ
slice bytes begin end = take (end - begin) (drop begin bytes)

module _ (sha : DigestEngine) where
  open sha use {Engine, reset, update, digest}

  unfoldable pub get_verification_code_without_lock :
      List ℕ → ℕ → ℕ → Engine → Outcome (String × Engine)
  get_verification_code_without_lock bytes begin end e = do
    assert (leb begin end)
    done (digest (update (reset e) (slice bytes begin end)))

  unfoldable pub get_verification_code : List ℕ → Engine → Outcome (String × Engine)
  unfolding get_verification_code_without_lock
  get_verification_code content = get_verification_code_without_lock content 0 (length content)

  unfoldable pub veritify : List ℕ → String → Engine → Outcome (Bool × Engine)
  unfolding get_verification_code
  veritify source vc e = do (code, e') ← get_verification_code source e; done (vc == code, e')

  -- This one does not reset the engine first.
  unfoldable pub get_file_verification_code : List ℕ → Engine → String × Engine
  get_file_verification_code content e = digest (update e content)

  -- Nothing calls it.
  unfoldable pub calc_piece_verification_code : List ℕ → ℕ → ℕ → Engine → Engine × RetCode
  calc_piece_verification_code bytes begin end e = elim (ltb end begin) [
    | true ↦ (e, RetCode.verify_invalid_range)
    | false ↦ (update e (slice bytes begin end), RetCode.ok)
  ]

  -- The loop of `get_file_checksum_list`; `none` means that the fuel ran out.
  unfoldable pub checksum_loop :
      ℕ → List ℕ → ℕ → ℕ → Engine → List String → Option (Outcome (List String × Engine))
  unfolding get_verification_code_without_lock
  checksum_loop zero bytes chunk_size start e list = none
  checksum_loop (suc fuel) bytes chunk_size start e list =
      elim (ltb (start + chunk_size) (length bytes)) [
        | true ↦ elim (get_verification_code_without_lock bytes start (start + chunk_size) e) [
          | throw f ↦ some (throw f)
          | done (code, e') ↦
              checksum_loop fuel bytes chunk_size (start + chunk_size) e' (list ++ code ∷ [])
        ]
        | false ↦ some (do
          (code, e') ← get_verification_code_without_lock bytes start (length bytes) e
          done (list ++ code ∷ [], e'))
      ]

  -- `exists` says whether the file is there; the fuel is one more than its length.
  unfoldable pub get_file_checksum_list :
      Bool → List ℕ → ℕ → Engine → Option (Outcome (List String × Engine))
  unfolding checksum_loop
  get_file_checksum_list exists bytes chunk_size e = elim (ltb 0 chunk_size) [
    | false ↦ some (throw assertion)
    | true ↦ elim exists [
      | false ↦ some (throw assertion)
      | true ↦ checksum_loop (suc (length bytes)) bytes chunk_size 0 e []
    ]
  ]
