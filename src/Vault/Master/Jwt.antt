-- ===== src/Vault/Master/Jwt.antt =====
-- The token in vault.cryptomator: what is built is accepted with the same keys.
use discodrive_apps.Base.{
  ℕ, ◌<◌, ◌≡◌, refl, ap, ◌∙◌, Bool, true, false, ◌&&◌, ◌||◌, Bool-cases, inl, inr, some, [], ◌∷◌,
  ◌++◌, Str, codes, All, All-append, str_eq, str_eq_self, leb, ltb, ◌==◌, arith,
}
use discodrive_apps.Base.Exec.{ok}
use discodrive_apps.Go.Base64
use discodrive_apps.Go.Base64.RoundTrip.{
  IsBase64, encode-IsBase64, decode-encode_raw, IsBase64-NoSpace, IsBase64-Without,
}
use discodrive_apps.Go.Json.{Json, member, empty, read_members, lower_all}
use discodrive_apps.Go.Strings.{
  split, trim_space, split-first, split-Without, trim_space-NoSpace, is_space, NoSpace, Without,
}
use discodrive_apps.Vault.Content.{is_aes_key}
use discodrive_apps.Vault.Master.{
  Hashes, MasterKeyFile, document_of, dot, jwt_header, jwt_payload, signed_part, build_vault_jwt,
  verify_parts, verify_vault_jwt, payload_of,
}

abbrev IsByte : ℕ → Type 0
IsByte b = b < 256

-- Hexadecimal digits in lower case, and the dashes between them.
abbrev is_uuid : ℕ → Bool
is_uuid c = (leb 48 c && leb c 57) || ((leb 97 c && leb c 102) || (c == 45))

abbrev pub IsUuid : Str → Type 0
IsUuid uuid = All (λ c. is_uuid c ≡ true) uuid

-- The document of a token's payload.
abbrev pub payload_document : Str → Json
payload_document uuid = Json.obj (
    member (codes "jti") (Json.str uuid) (
      member (codes "format") (Json.num 8) (
        member (codes "cipherCombo") (Json.str (codes "SIV_GCM"))
          (member (codes "shorteningThreshold") (Json.num 220) empty))))

-- What is documented of the parameters: a hash and a key of scrypt with the parameters of Create have 32
-- bytes, and a document is read from its text.
pub record IsHashes (K : Hashes) : Type 0 where
  pub IsByte-hmac : (key m : Str) → All (λ b. b < 256) (K.hmac key m)
  pub scrypt_kek :
      (password salt : Str)
      → (kek : Str) × (K.scrypt password salt 32768 8 ≡ ok kek) × (is_aes_key kek ≡ true)
  pub parse-text : (mk : MasterKeyFile) → K.parse (K.text (document_of mk)) ≡ some (document_of mk)
  pub parse-jwt_payload :
      (uuid : Str) → IsUuid uuid → K.parse (jwt_payload uuid) ≡ some (payload_document uuid)

unfoldable pub are_bytes : Str → Bool
are_bytes [] = true
are_bytes (c ∷ s) = ltb c 256 && are_bytes s

pub are_bytes-IsByte : (s : Str) → are_bytes s ≡ true → All IsByte s
unfolding are_bytes
are_bytes-IsByte [] h = tt
are_bytes-IsByte (c ∷ s) h = elim (Bool-cases (ltb c 256)) [
  | inl small ↦ (ground arith, are_bytes-IsByte s (rw small at h))
  | inr large ↦ absurd (ground (arith, large, h))
]

IsByte-uuid : (uuid : Str) → IsUuid uuid → All IsByte uuid
IsByte-uuid [] h = tt
IsByte-uuid (c ∷ s) (h, t) = (ground arith, IsByte-uuid s t)

IsByte-jwt_payload : (uuid : Str) → IsUuid uuid → All IsByte (jwt_payload uuid)
unfolding are_bytes
IsByte-jwt_payload uuid h =
    All-append IsByte (codes "{\"jti\":\"") _ (are_bytes-IsByte (codes "{\"jti\":\"") refl) (
      All-append IsByte uuid _ (IsByte-uuid uuid h) (
        are_bytes-IsByte
          (codes "\",\"format\":8,\"cipherCombo\":\"SIV_GCM\",\"shorteningThreshold\":220}") refl))

IsByte-jwt_header : All IsByte jwt_header
unfolding are_bytes
IsByte-jwt_header = are_bytes-IsByte jwt_header refl

payload_of-document : (uuid : Str) → payload_of (payload_document uuid) ≡ ok (8, codes "SIV_GCM")
unfolding payload_of read_members lower_all str_eq
payload_of-document uuid = refl

append_assoc : (a b c : Str) → (a ++ b) ++ c ≡ a ++ (b ++ c)
append_assoc [] b c = refl
append_assoc (x ∷ a) b c = ap (λ t. x ∷ t) (append_assoc a b c)

-- A part of a token, which has no dot and no white space.
IsBase64-part : (s : Str) → All IsByte s → All IsBase64 (Base64.encode false s)
IsBase64-part s h = encode-IsBase64 false s h

split-parts :
    (h p sig : Str)
    → Without dot h
    → Without dot p
    → Without dot sig
    → split dot ((h ++ dot ∷ p) ++ dot ∷ sig) ≡ h ∷ p ∷ sig ∷ []
split-parts h p sig a b c = rw (
  append_assoc h (dot ∷ p) (dot ∷ sig),
  split-first dot h (p ++ dot ∷ sig) a,
  split-first dot p sig b,
  split-Without dot sig c,
)

NoSpace-token :
    (h p sig : Str) → NoSpace h → NoSpace p → NoSpace sig → NoSpace ((h ++ dot ∷ p) ++ dot ∷ sig)
NoSpace-token h p sig a b c =
    let no_space : ℕ → Type 0 = λ c. is_space c ≡ false in
    All-append no_space (h ++ dot ∷ p) (dot ∷ sig) (All-append no_space h (dot ∷ p) a (refl, b))
      (refl, c)

module _ (K : Hashes) (laws : IsHashes K) where
  verify_parts-signed :
      (enc_key mac_key uuid : Str)
      → IsUuid uuid
      → verify_parts K
          (Base64.encode false jwt_header
            ∷ Base64.encode false (jwt_payload uuid)
            ∷ Base64.encode false (K.hmac (enc_key ++ mac_key) (signed_part uuid))
            ∷ [])
          enc_key
          mac_key
        ≡ ok tt
  unfolding verify_parts str_eq
  verify_parts-signed enc_key mac_key uuid h =
      let sig = K.hmac (enc_key ++ mac_key) (signed_part uuid) in
      rw (
        decode-encode_raw sig (laws.IsByte-hmac (enc_key ++ mac_key) (signed_part uuid)),
        str_eq_self sig,
        decode-encode_raw (jwt_payload uuid) (IsByte-jwt_payload uuid h),
        laws.parse-jwt_payload uuid h,
        payload_of-document uuid,
      )

  -- The token that is built for two keys is accepted with these keys.
  pub verify_vault_jwt-build_vault_jwt :
      (enc_key mac_key uuid : Str)
      → IsUuid uuid
      → verify_vault_jwt K (trim_space (build_vault_jwt K enc_key mac_key uuid)) enc_key mac_key
        ≡ ok tt
  unfolding verify_vault_jwt build_vault_jwt
  verify_vault_jwt-build_vault_jwt enc_key mac_key uuid h =
      let sig = K.hmac (enc_key ++ mac_key) (signed_part uuid) in
      let is_sig = IsBase64-part sig (laws.IsByte-hmac (enc_key ++ mac_key) (signed_part uuid)) in
      let is_header = IsBase64-part jwt_header IsByte-jwt_header in
      let is_payload = IsBase64-part (jwt_payload uuid) (IsByte-jwt_payload uuid h) in
      let head = Base64.encode false jwt_header in
      let payload = Base64.encode false (jwt_payload uuid) in
      let last = Base64.encode false sig in
      ap (λ t. verify_parts K (split dot t) enc_key mac_key)
        (trim_space-NoSpace ((head ++ dot ∷ payload) ++ dot ∷ last) (
          NoSpace-token head payload last (IsBase64-NoSpace head is_header)
            (IsBase64-NoSpace payload is_payload) (IsBase64-NoSpace last is_sig)))
      ∙ ap (λ ps. verify_parts K ps enc_key mac_key)
          (split-parts head payload last (IsBase64-Without head is_header)
            (IsBase64-Without payload is_payload) (IsBase64-Without last is_sig))
      ∙ verify_parts-signed enc_key mac_key uuid h
