-- ===== src/Vault/Names/RoundTrip.antt =====
-- A name encrypted and decrypted again.
use discodrive_apps.Base.{
  ℕ, ◌-◌, ◌<◌, ◌≡◌, ap, true, false, Bool-cases, inl, inr, Option, some, List, ◌++◌, Str, All,
  All-append, length, drop, str_eq, str_eq_iff, str_eq_self, leb, length-append, take-append,
  drop-append, arith,
}
use discodrive_apps.Base.Exec.{ok}
use discodrive_apps.Go.Base64
use discodrive_apps.Go.Base64.RoundTrip.{decode-encode}
use discodrive_apps.Vault.Content.{is_aes_key}
use discodrive_apps.Vault.Siv.{Ciphers, IsCiphers, siv_encrypt, siv_decrypt, s2v_cmac, s2v, iv_of}
use discodrive_apps.Vault.Siv.RoundTrip.{IsByte, siv_decrypt-siv_encrypt}
use discodrive_apps.Vault.Names.{Keys, has_suffix, trim_suffix, c9r, encrypt_name, decrypt_name}

pub has_suffix-append : (s suffix : Str) → has_suffix (s ++ suffix) suffix ≡ true
has_suffix-append s suffix =
    let l = length-append s suffix in
    let d : drop (length (s ++ suffix) - length suffix) (s ++ suffix) ≡ suffix =
      drop-append s suffix (omega arith) in
    let e : leb (length suffix) (length (s ++ suffix)) ≡ true = ground arith in
    rw (e, d) (str_eq_self suffix)

pub trim_suffix-append : (s suffix : Str) → trim_suffix (s ++ suffix) suffix ≡ s
trim_suffix-append s suffix =
    let l = length-append s suffix in
    rw (has_suffix-append s suffix) (take-append s suffix (omega arith))

pub str_eq_of_length : (a b : Str) → length a < length b → str_eq a b ≡ false
str_eq_of_length a b h = elim (Bool-cases (str_eq a b)) [
  | inl e ↦ absurd (omega (arith, ap length ((str_eq_iff a b).0 e)))
  | inr e ↦ e
]

module _ (c : Ciphers) (laws : IsCiphers c) (v : Keys) (mac : List ℕ → List ℕ)
    (known : c.cmac v.mac_key ≡ some mac) (fits : is_aes_key v.enc_key ≡ true) where
  -- What a text is encrypted to.
  abbrev pub sealed_name : Option Str → Str → Str
  sealed_name aad text = let tag = s2v mac aad text in tag ++ c.ctr v.enc_key (iv_of tag) text

  pub siv_encrypt_lem :
      (aad : Option Str) (text : Str)
      → siv_encrypt c v.mac_key v.enc_key text aad ≡ ok (sealed_name aad text)
  unfolding siv_encrypt s2v_cmac
  siv_encrypt_lem aad text = rw (known, fits)

  pub sealed_name-IsByte :
      (aad : Option Str) (text : Str) → All IsByte text → All IsByte (sealed_name aad text)
  sealed_name-IsByte aad text h =
      All-append IsByte (s2v mac aad text) _ (laws.bytes-cmac v.mac_key mac known _)
        (laws.bytes-ctr v.enc_key (iv_of (s2v mac aad text)) text h)

  -- The full name of a text.
  abbrev pub full_name : Str → Str → Str
  full_name name parent = Base64.encode true (sealed_name (some parent) name) ++ c9r

  -- EncryptName succeeds with keys that fit the ciphers, and DecryptName gives back the name, a list of bytes,
  -- from what it made, in the same folder.
  pub decrypt_name-encrypt_name :
      (name parent : Str)
      → All IsByte name
      → (encrypt_name c v name parent ≡ ok (full_name name parent))
        × (decrypt_name c v (full_name name parent) parent ≡ ok name)
  unfolding encrypt_name decrypt_name
  decrypt_name-encrypt_name name parent h =
      let bytes = sealed_name-IsByte (some parent) name h in
      let enc = Base64.encode true (sealed_name (some parent) name) in
      let longer : str_eq enc (enc ++ c9r) ≡ false =
        str_eq_of_length enc (enc ++ c9r) (omega (arith, length-append enc c9r)) in
      let back : siv_decrypt c v.mac_key v.enc_key (sealed_name (some parent) name) (some parent)
          ≡ ok name =
        (siv_decrypt-siv_encrypt c laws v.mac_key v.enc_key (some parent) name _ bytes).0
          (siv_encrypt_lem (some parent) name) in
      (
        rw (siv_encrypt_lem (some parent) name),
        rw
            (
              trim_suffix-append enc c9r,
              longer,
              decode-encode (sealed_name (some parent) name) bytes,
            )
            back,
      )
