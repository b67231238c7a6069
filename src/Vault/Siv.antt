-- ===== src/Vault/Siv.antt =====
-- daemon/internal/vault/name.go: AES-SIV-CMAC, by which the names of an encrypted vault are bound to their
-- folder. CMAC (github.com/aead/cmac) and the counter mode of crypto/cipher are parameters.
pub mod Bits
pub mod RoundTrip
use discodrive_apps.Base.{
  ℕ, zero, suc, ◌+◌, ◌-◌, ◌*◌, ◌/◌, ◌%◌, ◌≡◌, Bool, true, false, Option, none, some, List, [], ◌∷◌,
  ◌++◌, length, take, drop, replicate, ltb, leb, ◌==◌, All, ◌<◌, if◌then◌else◌,
}
use discodrive_apps.Base.Exec.{Error, Result, ok, err, bad_format, auth_failed}
use discodrive_apps.Vault.Content.{is_aes_key}
use discodrive_apps.Vault.Siv.Bits.{xor_byte, or_byte}

pub record Ciphers : Type 0 where
  -- cmac.New of a key, and the sum of a message; some keys are refused.
  pub cmac : List ℕ → Option (List ℕ → List ℕ)
  -- NewCTR(block, iv).XORKeyStream: key, iv, source.
  pub ctr : List ℕ → List ℕ → List ℕ → List ℕ

-- What is documented of them: a CMAC has 16 bytes, and to encrypt with the same key stream again decrypts;
-- both yield bytes.
pub record IsCiphers (c : Ciphers) : Type 0 where
  pub length-cmac :
      (key : List ℕ) (mac : List ℕ → List ℕ)
      → c.cmac key ≡ some mac
      → (m : List ℕ) → length (mac m) ≡ 16
  pub bytes-cmac :
      (key : List ℕ) (mac : List ℕ → List ℕ)
      → c.cmac key ≡ some mac
      → (m : List ℕ) → All (λ b. b < 256) (mac m)
  pub bytes-ctr :
      (key iv src : List ℕ) → All (λ b. b < 256) src → All (λ b. b < 256) (c.ctr key iv src)
  pub ctr-ctr : (key iv src : List ℕ) → c.ctr key iv (c.ctr key iv src) ≡ src

-- A buffer of `n` zero bytes, with `src` copied over its front.
abbrev pub copied : ℕ → List ℕ → List ℕ
copied n src = take n (src ++ replicate n 0)

-- out[i] = a[i] ^ b[i]
unfoldable pub xor_bytes : List ℕ → List ℕ → List ℕ
xor_bytes [] ys = []
xor_bytes (a ∷ xs) [] = []
xor_bytes (a ∷ xs) (b ∷ ys) = xor_byte a b ∷ xor_bytes xs ys

abbrev pub xor16 : List ℕ → List ℕ → List ℕ
xor16 a b = xor_bytes (take 16 a) (take 16 b)

-- The loop of dbl16, from the last byte to the first: the bytes doubled, and the carry out of them.
unfoldable pub shifted : List ℕ → List ℕ × ℕ
shifted [] = ([], 0)
shifted (b ∷ bs) =
    let (out, carry) = shifted bs in (or_byte ((b * 2) % 256) carry ∷ out, (b / 128) % 2)

abbrev pub dbl16 : List ℕ → List ℕ
dbl16 b =
    let (out, carry) = shifted (take 16 b) in
    if carry == 0 then out else xor_bytes out (replicate 15 0 ++ 0x87 ∷ [])

-- v |= a[i] ^ b[i], for slices of one length.
unfoldable pub difference : List ℕ → List ℕ → ℕ → ℕ
difference [] ys v = v
difference (a ∷ xs) [] v = v
difference (a ∷ xs) (b ∷ ys) v = difference xs ys (or_byte v (xor_byte a b))

unfoldable pub subtle_equal : List ℕ → List ℕ → Bool
subtle_equal a b = if length a == length b then difference a b 0 == 0 else false

-- iv[n] &= 0x7f
unfoldable pub masked : ℕ → List ℕ → List ℕ
masked n [] = []
masked zero (b ∷ bs) = (b % 128) ∷ bs
masked (suc n) (b ∷ bs) = b ∷ masked n bs

abbrev pub iv_of : List ℕ → List ℕ
iv_of tag = masked 12 (masked 8 (copied 16 tag))

-- The second step: the additional data, unless it is nil.
abbrev pub with_aad : (List ℕ → List ℕ) → Option (List ℕ) → List ℕ → List ℕ
with_aad mac none d = d
with_aad mac (some aad) d = xor16 (dbl16 d) (mac aad)

-- The third step: the last 16 bytes, or the padded plaintext.
abbrev pub last_block : List ℕ → List ℕ → List ℕ
last_block plaintext d =
    let off = length plaintext - 16 in
    if leb 16 (length plaintext)
    then take off plaintext ++ xor16 (drop off plaintext) d
    else xor16 (copied 16 (plaintext ++ 0x80 ∷ [])) (dbl16 d)

abbrev pub s2v : (List ℕ → List ℕ) → Option (List ℕ) → List ℕ → List ℕ
s2v mac aad plaintext = mac (last_block plaintext (with_aad mac aad (mac (replicate 16 0))))

module _ (c : Ciphers) where
  abbrev pub tag_under : Option (List ℕ → List ℕ) → Option (List ℕ) → List ℕ → Result (List ℕ)
  tag_under none aad plaintext = err bad_format
  tag_under (some mac) aad plaintext = ok (s2v mac aad plaintext)

  unfoldable pub s2v_cmac : List ℕ → Option (List ℕ) → List ℕ → Result (List ℕ)
  s2v_cmac key aad plaintext = tag_under (c.cmac key) aad plaintext

  abbrev pub sealed_with : List ℕ → List ℕ → Result (List ℕ) → Result (List ℕ)
  sealed_with enc_key plaintext (err e) = err e
  sealed_with enc_key plaintext (ok tag) =
      if is_aes_key enc_key then ok (tag ++ c.ctr enc_key (iv_of tag) plaintext) else err bad_format

  unfoldable pub siv_encrypt : List ℕ → List ℕ → List ℕ → Option (List ℕ) → Result (List ℕ)
  siv_encrypt mac_key enc_key plaintext aad =
      sealed_with enc_key plaintext (s2v_cmac mac_key aad plaintext)

  abbrev pub checked : List ℕ → List ℕ → Result (List ℕ) → Result (List ℕ)
  checked tag pt (err e) = err e
  checked tag pt (ok computed) = if subtle_equal computed tag then ok pt else err auth_failed

  unfoldable pub siv_decrypt : List ℕ → List ℕ → List ℕ → Option (List ℕ) → Result (List ℕ)
  siv_decrypt mac_key enc_key ciphertext aad =
      let tag = take 16 ciphertext in
      let pt = c.ctr enc_key (iv_of tag) (drop 16 ciphertext) in
      if ltb (length ciphertext) 16
      then err bad_format
      else if is_aes_key enc_key
      then checked tag pt (s2v_cmac mac_key aad pt)
      else err bad_format
