-- ===== src/Vault/Master.antt =====
-- daemon/internal/vault/vault.go: creating a vault and opening it. The password hash (scrypt), HMAC-SHA256
-- and the text of JSON documents are parameters; the random keys, the salt and the UUID are arguments.
pub mod Jwt
pub mod RoundTrip
use discodrive_apps.Base.{
  ℕ, ◌/◌, ◌%◌, ◌^◌, Bool, true, false, Option, none, some, List, [], ◌∷◌, ◌++◌, Str, codes, str_eq,
  ◌==◌, if◌then◌else◌,
}
use discodrive_apps.Base.Exec.{
  Error, Result, ok, err, bad_format, auth_failed, wrong_password, with_ok, Exec, pure, lift,
  continue, ◌>>=◌, ◌>>◌,
}
use discodrive_apps.Go.Base64
use discodrive_apps.Go.FilePath
use discodrive_apps.Go.Json
use discodrive_apps.Go.Json.{Json, Members, field, as_str, as_int, member, empty}
use discodrive_apps.Go.Strings.{split, trim_space}
use discodrive_apps.Vault.KeyWrap.{BlockCipher, wrap, unwrap}
use discodrive_apps.Vault.Names.{Keys}
use discodrive_apps.Vault.Tree.{Storage}
use discodrive_apps.Vault.Tree.Osio.{Os}

pub record Hashes : Type 0 where
  -- scrypt.Key of a password, a salt, N and r, with p = 1 and 32 bytes.
  pub scrypt : Str → Str → ℕ → ℕ → Result Str
  -- HMAC-SHA256 of a key and a message.
  pub hmac : Str → Str → Str
  -- json.MarshalIndent, and the document of a text.
  pub text : Json → Str
  pub parse : Str → Option Json

-- binary.BigEndian.PutUint32
abbrev be32 : ℕ → Str
be32 n = ((n / 2 ^ 24) % 256) ∷ ((n / 2 ^ 16) % 256) ∷ ((n / 2 ^ 8) % 256) ∷ (n % 256) ∷ []

abbrev pub dot : ℕ
dot = b'.'

abbrev pub master_key_name : Str
master_key_name = codes "masterkey.cryptomator"

abbrev pub vault_name : Str
vault_name = codes "vault.cryptomator"

-- masterkeyFile
pub record MasterKeyFile : Type 0 where
  pub version : ℕ
  pub scrypt_salt : Str
  pub scrypt_cost_param : ℕ
  pub scrypt_block_size : ℕ
  pub primary_master_key : Str
  pub hmac_master_key : Str
  pub version_mac : Str

abbrev pub document_of : MasterKeyFile → Json
document_of mk = Json.obj (
    member (codes "version") (Json.num mk.version) (
      member (codes "scryptSalt") (Json.str mk.scrypt_salt) (
        member (codes "scryptCostParam") (Json.num mk.scrypt_cost_param) (
          member (codes "scryptBlockSize") (Json.num mk.scrypt_block_size) (
            member (codes "primaryMasterKey") (Json.str mk.primary_master_key) (
              member (codes "hmacMasterKey") (Json.str mk.hmac_master_key)
                (member (codes "versionMac") (Json.str mk.version_mac) empty)))))))

unfoldable pub master_key_of : Json → Result MasterKeyFile
master_key_of d = with_ok (field as_int (codes "version") 0 d) λ version.
    with_ok (field as_str (codes "scryptSalt") [] d) λ salt.
      with_ok (field as_int (codes "scryptCostParam") 0 d) λ cost.
        with_ok (field as_int (codes "scryptBlockSize") 0 d) λ block.
          with_ok (field as_str (codes "primaryMasterKey") [] d) λ primary.
            with_ok (field as_str (codes "hmacMasterKey") [] d) λ mac.
              with_ok (field as_str (codes "versionMac") [] d) λ version_mac. ok (record {
                version = version;
                scrypt_salt = salt;
                scrypt_cost_param = cost;
                scrypt_block_size = block;
                primary_master_key = primary;
                hmac_master_key = mac;
                version_mac = version_mac;
              })

abbrev pub jwt_header : Str
jwt_header =
    codes "{\"kid\":\"masterkeyfile:masterkey.cryptomator\",\"alg\":\"HS256\",\"typ\":\"JWT\"}"

-- A UUID has no characters that are quoted.
abbrev pub jwt_payload : Str → Str
jwt_payload uuid =
    codes "{\"jti\":\""
    ++ uuid
    ++ codes "\",\"format\":8,\"cipherCombo\":\"SIV_GCM\",\"shorteningThreshold\":220}"

abbrev pub signed_part : Str → Str
signed_part uuid = Base64.encode false jwt_header ++ dot ∷ Base64.encode false (jwt_payload uuid)

-- json.Unmarshal
abbrev pub unmarshal : {A : Type 0} → (Json → Result A) → Option Json → Result A
unmarshal read none = err bad_format
unmarshal read (some d) = read d

-- format and cipherCombo of a payload.
unfoldable pub payload_of : Json → Result (ℕ × Str)
payload_of d =
    with_ok (field as_int (codes "format") 0 d)
      λ format. with_ok (field as_str (codes "cipherCombo") [] d) λ combo. ok (format, combo)

abbrev pub supported : ℕ × Str → Result (Unit {0})
supported (format, combo) =
    if format == 8
    then if str_eq combo (codes "SIV_GCM") then ok tt else err bad_format
    else err bad_format

-- An error of the unwrapping means that the password was wrong.
abbrev pub or_wrong : Result Str → Result Str
or_wrong (ok key) = ok key
or_wrong (err e) = err wrong_password

module _ (K : Hashes) where
  abbrev pub version_mac_of : Str → ℕ → Str
  version_mac_of mac_key version = K.hmac mac_key (be32 version)

  -- The key of the signature is enc_key and mac_key.
  unfoldable pub build_vault_jwt : Str → Str → Str → Str
  build_vault_jwt enc_key mac_key uuid =
      signed_part uuid ++ dot ∷ Base64.encode false (K.hmac (enc_key ++ mac_key) (signed_part uuid))

  unfoldable pub verify_parts : List Str → Str → Str → Result (Unit {0})
  verify_parts (h ∷ p ∷ sig ∷ []) enc_key mac_key = with_ok (Base64.decode false sig) λ got.
      if str_eq got (K.hmac (enc_key ++ mac_key) (h ++ dot ∷ p))
      then with_ok (Base64.decode false p)
          (λ payload. with_ok (unmarshal payload_of (K.parse payload)) supported)
      else err auth_failed
  verify_parts _ enc_key mac_key = err bad_format

  unfoldable pub verify_vault_jwt : Str → Str → Str → Result (Unit {0})
  verify_vault_jwt token enc_key mac_key = verify_parts (split dot token) enc_key mac_key

  module _ (c : BlockCipher) where
    unfoldable pub derive_keys : MasterKeyFile → Str → Str → Result Keys
    derive_keys mk jwt password = with_ok (Base64.decode_std mk.scrypt_salt) λ salt.
        with_ok (Base64.decode_std mk.primary_master_key) λ wrapped_enc.
          with_ok (Base64.decode_std mk.hmac_master_key) λ wrapped_mac.
            with_ok (K.scrypt password salt mk.scrypt_cost_param mk.scrypt_block_size) λ kek.
              with_ok (or_wrong (unwrap c kek wrapped_enc)) λ enc_key.
                with_ok (or_wrong (unwrap c kek wrapped_mac)) λ mac_key.
                  with_ok (verify_vault_jwt (trim_space jwt) enc_key mac_key)
                    λ u. ok (record { enc_key = enc_key; mac_key = mac_key })

    unfoldable pub derive_vault : Str → Str → Str → Result Keys
    derive_vault mk_data jwt_data password =
        with_ok (unmarshal master_key_of (K.parse mk_data)) λ mk. derive_keys mk jwt_data password

    unfoldable pub open_with_source : (S : Storage) → Str → S.State → Result Keys
    open_with_source S password s = with_ok (S.read_file master_key_name s) λ mk_data.
        with_ok (S.read_file vault_name s) λ jwt_data. derive_vault mk_data jwt_data password

    -- What is written into masterkey.cryptomator.
    unfoldable pub new_master_key : Str → Str → Str → Str → Result MasterKeyFile
    new_master_key password enc_key mac_key salt = with_ok (K.scrypt password salt 32768 8) λ kek.
        with_ok (wrap c kek enc_key) λ wrapped_enc. with_ok (wrap c kek mac_key) λ wrapped_mac.
          ok (record {
            version = 999;
            scrypt_salt = Base64.encode_std salt;
            scrypt_cost_param = 32768;
            scrypt_block_size = 8;
            primary_master_key = Base64.encode_std wrapped_enc;
            hmac_master_key = Base64.encode_std wrapped_mac;
            version_mac = Base64.encode_std (version_mac_of mac_key 999);
          })

    module _ (O : Os) where
      unfoldable pub open_vault : Str → Str → O.State → Result Keys
      open_vault dir password s =
          with_ok (O.read_file (FilePath.join dir master_key_name) s) λ mk_data.
            with_ok (O.read_file (FilePath.join dir vault_name) s)
              λ jwt_data. derive_vault mk_data jwt_data password

      unfoldable pub open_with_keys : Str → Str → Str → O.State → Result Keys
      open_with_keys dir enc_key mac_key s =
          with_ok (O.read_file (FilePath.join dir vault_name) s) λ jwt_data.
            with_ok (verify_vault_jwt (trim_space jwt_data) enc_key mac_key)
              λ u. ok (record { enc_key = enc_key; mac_key = mac_key })

      unfoldable pub create : Str → Str → Str → Str → Str → Str → Exec O.State Keys
      create dir password enc_key mac_key salt uuid = do
        mk ← lift (new_master_key password enc_key mac_key salt)
        O.mkdir_all dir
        O.write_file (FilePath.join dir master_key_name) (K.text (document_of mk))
        O.write_file (FilePath.join dir vault_name) (build_vault_jwt enc_key mac_key uuid)
        pure (record { enc_key = enc_key; mac_key = mac_key })
