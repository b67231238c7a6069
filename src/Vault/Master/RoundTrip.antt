-- ===== src/Vault/Master/RoundTrip.antt =====
-- A vault that was created opens with its password.
use discodrive_apps.Base.{◌<◌, ◌≡◌, refl, ap, sym, ◌∙◌, Str, length, str_eq, All, arith}
use discodrive_apps.Base.Exec.{Result, ok, Exec, pure, then_ok, ◌>>◌}
use discodrive_apps.Go.Base64
use discodrive_apps.Go.Base64.RoundTrip.{decode_std-encode_std}
use discodrive_apps.Go.FilePath
use discodrive_apps.Go.Json.{read_members, lower_all}
use discodrive_apps.Vault.KeyWrap.{BlockCipher, IsBlockCipher}
use discodrive_apps.Vault.KeyWrap.RoundTrip.{wrap-IsByte}
use discodrive_apps.Vault.Names.{Keys}
use discodrive_apps.Vault.Tree.Osio.{Os}
use discodrive_apps.Vault.Master.{
  Hashes, MasterKeyFile, document_of, master_key_of, master_key_name, vault_name, build_vault_jwt,
  version_mac_of, derive_keys, derive_vault, open_vault, open_with_keys, new_master_key, create,
}
use discodrive_apps.Vault.Master.Jwt.{IsHashes, IsUuid, verify_vault_jwt-build_vault_jwt}

-- What is documented of package os, for the two files of a vault in the folder `dir`: what was written
-- is read back, and writing one of them leaves the other one.
pub record HoldsVault (O : Os) (dir : Str) : Type 0 where
  pub reads_vault :
      (x : Str) (s : O.State)
      → (O.write_file (FilePath.join dir vault_name) x s).0 ≡ ok tt
      → O.read_file
          (FilePath.join dir vault_name)
          (O.write_file (FilePath.join dir vault_name) x s).1
        ≡ ok x
  pub reads_master_key :
      (x : Str) (s : O.State)
      → (O.write_file (FilePath.join dir master_key_name) x s).0 ≡ ok tt
      → O.read_file
          (FilePath.join dir master_key_name)
          (O.write_file (FilePath.join dir master_key_name) x s).1
        ≡ ok x
  pub leaves_master_key :
      (x : Str) (s : O.State)
      → O.read_file
          (FilePath.join dir master_key_name)
          (O.write_file (FilePath.join dir vault_name) x s).1
        ≡ O.read_file (FilePath.join dir master_key_name) s

-- A master key: 32 random bytes.
abbrev pub IsKey : Str → Type 0
IsKey key = (length key ≡ 32) × All (λ b. b < 256) key

pub master_key_of-document_of : (mk : MasterKeyFile) → master_key_of (document_of mk) ≡ ok mk
unfolding master_key_of read_members lower_all str_eq
master_key_of-document_of mk = refl

module _ (K : Hashes) (laws : IsHashes K) (c : BlockCipher) (cipher : IsBlockCipher c) where
  module _ (password enc_key mac_key salt uuid : Str) (is_enc : IsKey enc_key)
      (is_mac : IsKey mac_key) (is_salt : All (λ b. b < 256) salt) (is_uuid : IsUuid uuid) where
    abbrev keys : Keys
    keys = record { enc_key = enc_key; mac_key = mac_key }

    derived :
        (mk : MasterKeyFile) × (new_master_key K c password enc_key mac_key salt ≡ ok mk)
        × (derive_keys K c mk (build_vault_jwt K enc_key mac_key uuid) password ≡ ok keys)
    unfolding new_master_key derive_keys
    derived =
        let (kek, e, is_kek) = laws.scrypt_kek password salt in
        let (wrapped_enc, w, u, b) =
          wrap-IsByte c cipher kek enc_key is_kek is_enc.1 (omega (arith, is_enc.0))
            (omega (arith, is_enc.0)) in
        let (wrapped_mac, w', u', b') =
          wrap-IsByte c cipher kek mac_key is_kek is_mac.1 (omega (arith, is_mac.0))
            (omega (arith, is_mac.0)) in
        let mk : MasterKeyFile = record {
          version = 999;
          scrypt_salt = Base64.encode_std salt;
          scrypt_cost_param = 32768;
          scrypt_block_size = 8;
          primary_master_key = Base64.encode_std wrapped_enc;
          hmac_master_key = Base64.encode_std wrapped_mac;
          version_mac = Base64.encode_std (version_mac_of K mac_key 999);
        } in
        (
          mk,
          rw (e, w, w'),
          rw (
            decode_std-encode_std salt is_salt,
            decode_std-encode_std wrapped_enc b,
            decode_std-encode_std wrapped_mac b',
            e,
            u,
            u',
            verify_vault_jwt-build_vault_jwt K laws enc_key mac_key uuid is_uuid,
          ),
        )

    opened :
        (mk : MasterKeyFile)
        → derive_keys K c mk (build_vault_jwt K enc_key mac_key uuid) password ≡ ok keys
        → derive_vault K c
            (K.text (document_of mk))
            (build_vault_jwt K enc_key mac_key uuid)
            password
          ≡ ok keys
    unfolding derive_vault
    opened mk h = rw (laws.parse-text mk, master_key_of-document_of mk) h

    module _ (O : Os) (dir : Str) (holds : HoldsVault O dir) where
      abbrev made : O.State → Result Keys × O.State
      made s = create K c O dir password enc_key mac_key salt uuid s

      -- The files that a creation leaves when it succeeds.
      left :
          (mk : MasterKeyFile)
          → new_master_key K c password enc_key mac_key salt ≡ ok mk
          → (s : O.State) (result : Keys) → (made s).0 ≡ ok result
          → (result ≡ keys)
            × (O.read_file (FilePath.join dir master_key_name) (made s).1
                ≡ ok (K.text (document_of mk)))
            × (O.read_file (FilePath.join dir vault_name) (made s).1
                ≡ ok (build_vault_jwt K enc_key mac_key uuid))
      unfolding create
      left mk e s result h =
          let text = K.text (document_of mk) in
          let token = build_vault_jwt K enc_key mac_key uuid in
          let folder = O.mkdir_all dir in
          let first = O.write_file (FilePath.join dir master_key_name) text in
          let second = O.write_file (FilePath.join dir vault_name) token in
          let last : Exec O.State Keys = pure keys in
          let run : made s ≡ (folder >> (first >> (second >> last))) s = rw e refl in
          let (x, p) =
            then_ok folder (first >> (second >> last)) result s (sym (ap (λ r. r.0) run) ∙ h) in
          let (y, q) =
            then_ok first (second >> last) result (folder s).1
              (sym (ap (λ r. r.0) (run ∙ p)) ∙ h) in
          let s' = (first (folder s).1).1 in
          let (z, t) = then_ok second last result s' (sym (ap (λ r. r.0) (run ∙ p ∙ q)) ∙ h) in
          let all = run ∙ p ∙ q ∙ t in
          (
            keys_of (sym h ∙ ap (λ r. r.0) all),
            ap (λ r. O.read_file (FilePath.join dir master_key_name) r.1) all
                ∙ holds.leaves_master_key token s'
                ∙ holds.reads_master_key text (folder s).1 y,
            ap (λ r. O.read_file (FilePath.join dir vault_name) r.1) all
                ∙ holds.reads_vault token s' z,
          )
        where
          keys_of : ok result ≡ ok keys → result ≡ keys
          keys_of e = cc

    -- When creating a vault in a folder succeeds, it returns the two keys that were drawn, and opening the
    -- folder afterwards returns the same keys, both with the same password and with the keys themselves
    -- (which is what a recovery phrase gives). What is drawn are two keys of 32 bytes, a salt of bytes and a
    -- UUID; the block cipher, the hashes and the files behave as documented.
    pub open_vault-create :
        (O : Os) (dir : Str)
        → HoldsVault O dir
        → (s : O.State) (result : Keys)
        → (create K c O dir password enc_key mac_key salt uuid s).0 ≡ ok result
        → (result ≡ keys)
          × (open_vault K c O dir password (create K c O dir password enc_key mac_key salt uuid s).1
              ≡ ok keys)
          × (open_with_keys K c O dir enc_key mac_key
                (create K c O dir password enc_key mac_key salt uuid s).1
              ≡ ok keys)
    unfolding open_vault open_with_keys
    open_vault-create O dir holds s result h =
        let (mk, e, d) = derived in
        let (r, m, v) = left O dir holds mk e s result h in
        (
          r,
          rw (m, v) (opened mk d),
          rw (v, verify_vault_jwt-build_vault_jwt K laws enc_key mac_key uuid is_uuid),
        )
