-- ===== src/Vault/KeyWrap.antt =====
-- daemon/internal/vault/keywrap.go: AES Key Wrap (RFC 3394). The block cipher (crypto/aes) is a parameter.
-- R[0] of the code is the first part of the state, R[1] to R[n] are the list beside it.
mod Blocks
pub mod RoundTrip
use discodrive_apps.Base.{
  ℕ, zero, suc, ◌+◌, ◌-◌, ◌*◌, ◌/◌, ◌%◌, ◌<◌, ◌≡◌, Bool, true, false, not, ◌||◌, List, [], ◌∷◌,
  ◌++◌, length, take, drop, replicate, ltb, ◌==◌, str_eq, if◌then◌else◌, All,
}
use discodrive_apps.Base.Exec.{Result, ok, err, bad_format, auth_failed}
use discodrive_apps.Vault.Content.{is_aes_key, be64}
use discodrive_apps.Vault.Siv.{xor_bytes}

pub record BlockCipher : Type 0 where
  pub encrypt : List ℕ → List ℕ → List ℕ
  pub decrypt : List ℕ → List ℕ → List ℕ

abbrev pub IsBlock : ℕ → List ℕ → Type 0
IsBlock n xs = (length xs ≡ n) × All (λ b. b < 256) xs

-- What is documented of it, for blocks of 16 bytes.
pub record IsBlockCipher (c : BlockCipher) : Type 0 where
  pub IsBlock-encrypt : (key b : List ℕ) → IsBlock 16 b → IsBlock 16 (c.encrypt key b)
  pub decrypt-encrypt : (key b : List ℕ) → IsBlock 16 b → c.decrypt key (c.encrypt key b) ≡ b

-- aesKWDefaultIV
abbrev pub default_iv : List ℕ
default_iv = replicate 8 0xA6

abbrev pub Registers : Type 0
Registers = List ℕ × List (List ℕ)

-- The first `n` blocks of 8 bytes, and the blocks one after the other.
unfoldable pub blocks : ℕ → List ℕ → List (List ℕ)
blocks zero xs = []
blocks (suc n) xs = take 8 xs ∷ blocks n (drop 8 xs)

unfoldable pub joined : List (List ℕ) → List ℕ
joined [] = []
joined (r ∷ rs) = r ++ joined rs

module _ (c : BlockCipher) (kek : List ℕ) where
  -- The loop over i, from the first block to the last; `t` counts on.
  unfoldable pub wrap_row : ℕ → List ℕ → List (List ℕ) → Registers
  wrap_row t a [] = (a, [])
  wrap_row t a (r ∷ rs) =
      let b = c.encrypt kek (a ++ r) in
      let (a', rs') = wrap_row (suc t) (xor_bytes (take 8 b) (be64 t)) rs in (a', drop 8 b ∷ rs')

  -- The loop over i, from the last block to the first.
  unfoldable pub unwrap_row : ℕ → List ℕ → List (List ℕ) → Registers
  unwrap_row t a [] = (a, [])
  unwrap_row t a (r ∷ rs) =
      let (a', rs') = unwrap_row (suc t) a rs in
      let b = c.decrypt kek (xor_bytes a' (be64 t) ++ r) in (take 8 b, drop 8 b ∷ rs')

  -- The loop over j: `k` rounds from the round `j` up, with n blocks, and the same rounds backwards.
  unfoldable pub wrap_rounds : ℕ → ℕ → ℕ → Registers → Registers
  wrap_rounds zero n j s = s
  wrap_rounds (suc k) n j s = wrap_rounds k n (suc j) (wrap_row (n * j + 1) s.0 s.1)

  unfoldable pub unwrap_rounds : ℕ → ℕ → ℕ → Registers → Registers
  unwrap_rounds zero n j s = s
  unwrap_rounds (suc k) n j s =
      let u = unwrap_rounds k n (suc j) s in unwrap_row (n * j + 1) u.0 u.1

  abbrev pub written : Registers → List ℕ
  written (a, rs) = a ++ joined rs

  unfoldable pub wrap : List ℕ → Result (List ℕ)
  unfolding blocks joined wrap_rounds
  wrap plaintext =
      let n = length plaintext / 8 in
      if not (length plaintext % 8 == 0)
      then err bad_format
      else if is_aes_key kek
      then ok (written (wrap_rounds 6 n 0 (default_iv, blocks n plaintext)))
      else err bad_format

  abbrev pub checked : Registers → Result (List ℕ)
  checked (a, rs) = if str_eq a default_iv then ok (joined rs) else err auth_failed

  unfoldable pub unwrap : List ℕ → Result (List ℕ)
  unfolding blocks joined unwrap_rounds
  unwrap wrapped =
      let n = length wrapped / 8 - 1 in
      if not (length wrapped % 8 == 0) || ltb (length wrapped) 16
      then err bad_format
      else if is_aes_key kek
      then checked (unwrap_rounds 6 n 0 (take 8 wrapped, blocks n (drop 8 wrapped)))
      else err bad_format
