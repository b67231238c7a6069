-- ===== src/Tests/Open.antt =====
-- A vault that is made and opened, with hashes that are constant, a block cipher that leaves its blocks as
-- they are, and documents as lists of numbers.
use discodrive_apps.Base.{
  ◌-◌, ◌<◌, ◌≡◌, refl, ap, ◌∙◌, Bool, true, false, Option, none, some, [], ◌∷◌, ◌++◌, Str, codes,
  length, take, drop, take-append, drop-append, length-append, replicate, str_eq, ◌==◌,
  if◌then◌else◌, arith, All,
}
use discodrive_apps.Base.Exec.{Result, ok, err, not_exist}
use discodrive_apps.Go.FilePath
use discodrive_apps.Go.Json.{Json}
use discodrive_apps.Vault.KeyWrap.{BlockCipher, IsBlockCipher, wrap}
use discodrive_apps.Vault.Names.{Keys}
use discodrive_apps.Vault.Tree.Osio.{Os}
use discodrive_apps.Vault.Master.{
  Hashes, MasterKeyFile, document_of, master_key_of, jwt_payload, create, open_vault,
  open_with_keys, new_master_key,
}
use discodrive_apps.Vault.Master.Jwt.{
  IsHashes, IsUuid, payload_document, are_bytes, are_bytes-IsByte,
}
use discodrive_apps.Vault.Master.RoundTrip.{
  HoldsVault, IsKey, master_key_of-document_of, open_vault-create,
}

-- A string with its length before it.
abbrev counted : Str → Str
counted s = length s ∷ s

abbrev front : Str → Str
front [] = []
front (n ∷ s) = take n s

abbrev back : Str → Str
back [] = []
back (n ∷ s) = drop n s

abbrev text_of : Result MasterKeyFile → Str
text_of (err e) = []
text_of (ok mk) =
    0 ∷ mk.version ∷ mk.scrypt_cost_param ∷ mk.scrypt_block_size ∷ counted mk.scrypt_salt
    ++ (counted mk.primary_master_key ++ (counted mk.hmac_master_key ++ mk.version_mac))

abbrev master_key_in : Str → Option Json
master_key_in (version ∷ cost ∷ block ∷ s) = some (
    document_of (record {
      version = version;
      scrypt_salt = front s;
      scrypt_cost_param = cost;
      scrypt_block_size = block;
      primary_master_key = front (back s);
      hmac_master_key = front (back (back s));
      version_mac = back (back (back s));
    }))
master_key_in _ = none

-- What comes after the UUID in a payload.
abbrev payload_end : Str
payload_end = codes "\",\"format\":8,\"cipherCombo\":\"SIV_GCM\",\"shorteningThreshold\":220}"

abbrev payload_in : Str → Option Json
payload_in s = some (payload_document (take (length s - length payload_end) s))

abbrev parse : Str → Option Json
parse [] = none
parse (c ∷ s) = if c == 0 then master_key_in s else payload_in (drop 7 s)

abbrev hashes : Hashes
hashes = record {
  scrypt = λ password salt n r. ok (replicate 32 1);
  hmac = λ key m. replicate 32 7;
  text = λ d. text_of (master_key_of d);
  parse = parse;
}

hashes-IsHashes : IsHashes hashes
unfolding are_bytes
hashes-IsHashes = record {
  IsByte-hmac = λ key m. are_bytes-IsByte (replicate 32 7) refl;
  scrypt_kek = λ password salt. (replicate 32 1, refl, refl);
  parse-text = parse_text;
  parse-jwt_payload = parse_payload;
}
  where
    parse_text : (mk : MasterKeyFile) → parse (hashes.text (document_of mk)) ≡ some (document_of mk)
    parse_text mk =
        let rest = counted mk.hmac_master_key ++ mk.version_mac in
        let more = counted mk.primary_master_key ++ rest in
        ap (λ r. parse (text_of r)) (master_key_of-document_of mk)
        ∙ rw (
          take-append mk.scrypt_salt more refl,
          drop-append mk.scrypt_salt more refl,
          take-append mk.primary_master_key rest refl,
          drop-append mk.primary_master_key rest refl,
          take-append mk.hmac_master_key mk.version_mac refl,
          drop-append mk.hmac_master_key mk.version_mac refl,
        )

    parse_payload :
        (uuid : Str) → IsUuid uuid → parse (jwt_payload uuid) ≡ some (payload_document uuid)
    parse_payload uuid h =
        ap (λ t. some (payload_document t))
          (take-append uuid payload_end (omega (arith, length-append uuid payload_end)))

abbrev is_there : Result Str → Bool
is_there (ok x) = true
is_there (err e) = false

-- Files as a function.
abbrev files : Os
files = record {
  State = Str → Result Str;
  read_dir = λ path s. ok [];
  read_file = λ path s. s path;
  exists = λ path s. is_there (s path);
  mkdir_all = λ path s. (ok tt, s);
  write_file = λ path x s. (ok tt, λ p. if str_eq p path then ok x else s p);
  remove_all = λ path s. (ok tt, s);
}

abbrev no_files : Str → Result Str
no_files path = err not_exist

folder : HoldsVault files (codes "/v")
unfolding str_eq FilePath.clean FilePath.join
folder = record {
  reads_vault = λ x s h. refl;
  reads_master_key = λ x s h. refl;
  leaves_master_key = λ x s. refl;
}

abbrev block : BlockCipher
block = record { encrypt = λ key b. b; decrypt = λ key b. b }

block-IsBlockCipher : IsBlockCipher block
block-IsBlockCipher = record { IsBlock-encrypt = λ key b h. h; decrypt-encrypt = λ key b h. refl }

fours : All (λ b. b < 256) (replicate 8 4)
unfolding are_bytes
fours = are_bytes-IsByte (replicate 8 4) refl

twos : IsKey (replicate 32 2)
unfolding are_bytes
twos = (refl, are_bytes-IsByte (replicate 32 2) refl)

threes : IsKey (replicate 32 3)
unfolding are_bytes
threes = (refl, are_bytes-IsByte (replicate 32 3) refl)

abbrev two_three : Keys
two_three = record { enc_key = replicate 32 2; mac_key = replicate 32 3 }

abbrev after : (Str → Result Str)
after =
    (create hashes block files (codes "/v") (codes "secret") (replicate 32 2) (replicate 32 3)
      (replicate 8 4) (codes "0a-f9") no_files).1

creates :
    (create hashes block files
      (codes "/v")
      (codes "secret")
      (replicate 32 2)
      (replicate 32 3)
      (replicate 8 4)
      (codes "0a-f9")
      no_files).0
    ≡ ok two_three
unfolding create new_master_key wrap
creates = refl

open_vault-create_example :
    (two_three ≡ two_three)
    × (open_vault hashes block files (codes "/v") (codes "secret") after ≡ ok two_three)
    × (open_with_keys hashes block files (codes "/v") (replicate 32 2) (replicate 32 3) after
        ≡ ok two_three)
open_vault-create_example =
    open_vault-create hashes hashes-IsHashes block block-IsBlockCipher (codes "secret")
      (replicate 32 2) (replicate 32 3) (replicate 8 4) (codes "0a-f9") twos threes fours
      (refl, (refl, (refl, (refl, (refl, tt))))) files (codes "/v") folder no_files two_three
      creates
