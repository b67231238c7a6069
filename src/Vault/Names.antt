-- ===== src/Vault/Names.antt =====
-- daemon/internal/vault/name.go: the names of an encrypted vault in its storage. SHA-1 is a parameter.
pub mod RoundTrip
pub mod Shape
use discodrive_apps.Base.{
  ℕ, ◌-◌, ◌<◌, ◌≡◌, Bool, true, false, ◌&&◌, Option, none, some, List, [], ◌∷◌, ◌++◌, Str, All,
  codes, length, take, drop, str_eq, leb, ltb, if◌then◌else◌,
}
use discodrive_apps.Base.Exec.{Error, Result, ok, err, bad_format}
use discodrive_apps.Go.Base32
use discodrive_apps.Go.Base64
use discodrive_apps.Vault.Siv.{Ciphers, siv_encrypt, siv_decrypt}

pub record Keys : Type 0 where
  pub enc_key : List ℕ
  pub mac_key : List ℕ

-- strings.HasSuffix and strings.TrimSuffix
abbrev pub has_suffix : Str → Str → Bool
has_suffix s suffix =
    leb (length suffix) (length s) && str_eq (drop (length s - length suffix) s) suffix

abbrev pub trim_suffix : Str → Str → Str
trim_suffix s suffix = if has_suffix s suffix then take (length s - length suffix) s else s

abbrev pub c9r : Str
c9r = codes ".c9r"

abbrev pub c9s : Str
c9s = codes ".c9s"

abbrev pub shortening_threshold : ℕ
shortening_threshold = 220

-- With padding, or else without.
abbrev pub or_raw : Str → Result Str → Result Str
or_raw s (ok b) = ok b
or_raw s (err e) = Base64.decode false s

abbrev pub decode_flex : Str → Result Str
decode_flex s = or_raw s (Base64.decode true s)

abbrev pub with_suffix : Result Str → Result Str
with_suffix (ok ct) = ok (Base64.encode true ct ++ c9r)
with_suffix (err e) = err e

module _ (c : Ciphers) (v : Keys) where
  unfoldable pub encrypt_name : Str → Str → Result Str
  encrypt_name name parent = with_suffix (siv_encrypt c v.mac_key v.enc_key name (some parent))

  abbrev pub decrypted : Str → Result Str → Result Str
  decrypted parent (ok ct) = siv_decrypt c v.mac_key v.enc_key ct (some parent)
  decrypted parent (err e) = err e

  unfoldable pub decrypt_name : Str → Str → Result Str
  decrypt_name full parent =
      let enc = trim_suffix full c9r in
      if str_eq enc full then err bad_format else decrypted parent (decode_flex enc)

  module _ (sha1 : Str → Str) where
    unfoldable pub shortened_name : Str → Str
    shortened_name full = Base64.encode false (sha1 full) ++ c9s

    -- The name in the storage: the full one, unless it is too long.
    unfoldable pub stored_name : Str → Str
    stored_name full = if ltb shortening_threshold (length full) then shortened_name full else full

    abbrev pub storage_path : Str → Str
    storage_path b32 = codes "d/" ++ take 2 b32 ++ codes "/" ++ drop 2 b32

    abbrev pub hashed : Result Str → Result Str
    hashed (ok ct) = ok (storage_path (Base32.encode (sha1 ct)))
    hashed (err e) = err e

    unfoldable pub dir_id_hash : Str → Result Str
    dir_id_hash dir_id = hashed (siv_encrypt c v.mac_key v.enc_key dir_id none)

-- What is documented of SHA-1: a sum is 20 bytes.
pub record IsSha1 (sha1 : Str → Str) : Type 0 where
  pub length-sum : (s : Str) → length (sha1 s) ≡ 20
  pub bytes-sum : (s : Str) → All (λ b. b < 256) (sha1 s)
