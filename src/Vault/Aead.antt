-- ===== src/Vault/Aead.antt =====
-- AES-GCM (crypto/aes and crypto/cipher): sealing and opening under a key, a nonce and additional data.
use discodrive_apps.Base.{ℕ, ◌+◌, ◌≡◌, Option, some, length}
use discodrive_apps.Base.{List}

pub record Aead : Type 0 where
  -- key, nonce, plaintext, additional data
  pub seal : List ℕ → List ℕ → List ℕ → List ℕ → List ℕ
  pub unseal : List ℕ → List ℕ → List ℕ → List ℕ → Option (List ℕ)

-- What is documented of it: opening gives back what was sealed under the same key, nonce and
-- data, and the tag makes the ciphertext 16 bytes longer than the plaintext.
pub record IsAead (c : Aead) : Type 0 where
  pub unseal-seal :
      (key nonce plain aad : List ℕ)
      → c.unseal key nonce (c.seal key nonce plain aad) aad ≡ some plain
  pub length-seal :
      (key nonce plain aad : List ℕ) → length (c.seal key nonce plain aad) ≡ length plain + 16
