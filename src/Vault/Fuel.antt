-- ===== src/Vault/Fuel.antt =====
-- daemon/internal/vault/encrypt.go and decrypt.go: the fuel of the recursion into folders. When a run has
-- ended by itself, a run with more fuel is the same one: one step more changes nothing.
use discodrive_apps.Base.{
  ℕ, zero, suc, refl, ◌&&◌, List, [], ◌∷◌, Str, length, ltb, str_eq, if◌then◌else◌,
}
use discodrive_apps.Base.Exec.{bad_format, Exec, pure, raise, lift, gets, ◌>>=◌}
use discodrive_apps.Base.Fuel.{Agrees, self_Agrees, bind_Agrees, then_Agrees, if_Agrees}
use discodrive_apps.Go.FilePath
use discodrive_apps.Vault.Aead.{Aead}
use discodrive_apps.Vault.Siv.{Ciphers}
use discodrive_apps.Vault.Names.{
  Keys, has_suffix, c9r, c9s, shortening_threshold, shortened_name, encrypt_name, decrypt_name,
  dir_id_hash,
}
use discodrive_apps.Vault.Tree.{Entry, Draw, dir_file, contents_file, name_file, dirid_file}
use discodrive_apps.Vault.Tree.Osio.{Os}
use discodrive_apps.Vault.Encrypt
use discodrive_apps.Vault.Encrypt.{read_all, read_entries, write_output}
use discodrive_apps.Vault.Decrypt

module _ (O : Os) (gcm : Aead) (c : Ciphers) (sha1 : Str → Str) (v : Keys) (draw : Str → Draw)
    (uuid : Str → Str) where
  module _ (into into' : Str → Str → Exec O.State (Unit {0}))
      (same : (src id : Str) → Agrees (into src id) (into' src id))
      (dir_path storage dir_id : Str) where
    encrypt_long-Agrees :
        (full : Str) (e : Entry)
        → Agrees
            (Encrypt.encrypt_long O gcm c sha1 v draw uuid into dir_path storage dir_id full e)
            (Encrypt.encrypt_long O gcm c sha1 v draw uuid into' dir_path storage dir_id full e)
    unfolding Encrypt.encrypt_long
    encrypt_long-Agrees full e =
        let src = FilePath.join dir_path e.name in
        let c9s_path = FilePath.join storage (shortened_name c v sha1 full) in
        bind_Agrees (O.mkdir_all c9s_path) _ _ λ _.
          bind_Agrees (O.write_file (FilePath.join c9s_path name_file) full) _ _ λ _.
            if_Agrees e.is_dir _ _ _ _
              (bind_Agrees (O.write_file (FilePath.join c9s_path dir_file) (uuid src)) _ _
                λ _. same src (uuid src))
              (self_Agrees (
                Encrypt.encrypt_file O gcm c sha1 v draw uuid src
                  (FilePath.join c9s_path contents_file)))

    encrypt_short-Agrees :
        (full : Str) (e : Entry)
        → Agrees
            (Encrypt.encrypt_short O gcm c sha1 v draw uuid into dir_path storage dir_id full e)
            (Encrypt.encrypt_short O gcm c sha1 v draw uuid into' dir_path storage dir_id full e)
    unfolding Encrypt.encrypt_short
    encrypt_short-Agrees full e =
        let src = FilePath.join dir_path e.name in
        let path = FilePath.join storage full in
        if_Agrees e.is_dir _ _ _ _
          (bind_Agrees (O.mkdir_all path) _ _ λ _.
            bind_Agrees (O.write_file (FilePath.join path dir_file) (uuid src)) _ _
              λ _. same src (uuid src))
          (self_Agrees (Encrypt.encrypt_file O gcm c sha1 v draw uuid src path))

    encrypt_entries-Agrees :
        (es : List Entry)
        → Agrees
            (Encrypt.encrypt_entries O gcm c sha1 v draw uuid into dir_path storage dir_id es)
            (Encrypt.encrypt_entries O gcm c sha1 v draw uuid into' dir_path storage dir_id es)
    unfolding Encrypt.encrypt_entries Encrypt.encrypt_entry
    encrypt_entries-Agrees [] = self_Agrees (pure tt)
    encrypt_entries-Agrees (e ∷ es) =
        then_Agrees _ _ _ _
          (bind_Agrees (lift (encrypt_name c v e.name dir_id)) _ _ λ full.
            if_Agrees (ltb shortening_threshold (length full)) _ _ _ _ (encrypt_long-Agrees full e)
              (encrypt_short-Agrees full e))
          (encrypt_entries-Agrees es)

  pub encrypt_dir-Agrees :
      (fuel : ℕ) (dir_path vault_dir dir_id : Str)
      → Agrees
          (Encrypt.encrypt_dir O gcm c sha1 v draw uuid fuel dir_path vault_dir dir_id)
          (Encrypt.encrypt_dir O gcm c sha1 v draw uuid (suc fuel) dir_path vault_dir dir_id)
  unfolding Encrypt.encrypt_dir
  encrypt_dir-Agrees zero dir_path vault_dir dir_id = λ s h. absurd (h refl)
  encrypt_dir-Agrees (suc fuel) dir_path vault_dir dir_id =
      bind_Agrees (lift (dir_id_hash c v sha1 dir_id)) _ _ λ hash.
        let storage = FilePath.join vault_dir hash in
        bind_Agrees (O.mkdir_all storage) _ _ λ _.
          bind_Agrees (Encrypt.write_dir_id_file O gcm c sha1 v draw uuid storage dir_id) _ _ λ _.
            bind_Agrees (read_entries O dir_path) _ _ λ es.
              encrypt_entries-Agrees _ _ (λ src id. encrypt_dir-Agrees fuel src vault_dir id)
                dir_path (FilePath.join vault_dir hash) dir_id es

module _ (O : Os) (gcm : Aead) (c : Ciphers) (sha1 : Str → Str) (v : Keys) where
  module _ (into into' : Str → Str → Exec O.State (Unit {0}))
      (same : (out id : Str) → Agrees (into out id) (into' out id))
      (storage out_dir dir_id : Str) where
    sub_dir-Agrees :
        (path plain : Str)
        → Agrees
            (read_all O path >>= λ id. into (FilePath.join out_dir plain) id)
            (read_all O path >>= λ id. into' (FilePath.join out_dir plain) id)
    sub_dir-Agrees path plain =
        bind_Agrees (read_all O path) _ _ λ id. same (FilePath.join out_dir plain) id

    decrypt_long-Agrees :
        (name : Str)
        → Agrees
            (Decrypt.decrypt_long O gcm c sha1 v into storage out_dir dir_id name)
            (Decrypt.decrypt_long O gcm c sha1 v into' storage out_dir dir_id name)
    unfolding Decrypt.decrypt_long
    decrypt_long-Agrees name =
        let c9s_path = FilePath.join storage name in
        let dir_c_path = FilePath.join c9s_path dir_file in
        let contents = FilePath.join c9s_path contents_file in
        bind_Agrees (read_all O (FilePath.join c9s_path name_file)) _ _ λ full.
          bind_Agrees (lift (decrypt_name c v full dir_id)) _ _ λ plain.
            bind_Agrees (gets (O.exists dir_c_path)) _ _ λ has_dir.
              bind_Agrees (gets (O.exists contents)) _ _ λ has_contents.
                if_Agrees has_dir _ _ _ _ (sub_dir-Agrees dir_c_path plain) (
                  self_Agrees (
                    if has_contents
                    then Decrypt.decrypt_file O gcm c sha1 v contents (FilePath.join out_dir plain)
                    else raise bad_format))

    decrypt_short-Agrees :
        (e : Entry)
        → Agrees
            (Decrypt.decrypt_short O gcm c sha1 v into storage out_dir dir_id e)
            (Decrypt.decrypt_short O gcm c sha1 v into' storage out_dir dir_id e)
    unfolding Decrypt.decrypt_short
    decrypt_short-Agrees e =
        let path = FilePath.join storage e.name in
        bind_Agrees (lift (decrypt_name c v e.name dir_id)) _ _ λ plain.
          if_Agrees e.is_dir _ _ _ _ (sub_dir-Agrees (FilePath.join path dir_file) plain)
            (self_Agrees (Decrypt.decrypt_file O gcm c sha1 v path (FilePath.join out_dir plain)))

    decrypt_entry-Agrees :
        (e : Entry)
        → Agrees
            (Decrypt.decrypt_entry O gcm c sha1 v into storage out_dir dir_id e)
            (Decrypt.decrypt_entry O gcm c sha1 v into' storage out_dir dir_id e)
    unfolding Decrypt.decrypt_entry
    decrypt_entry-Agrees e = if_Agrees (str_eq e.name dirid_file) _ _ _ _ (self_Agrees (pure tt)) (
        if_Agrees (has_suffix e.name c9s && e.is_dir) _ _ _ _ (decrypt_long-Agrees e.name) (
          if_Agrees (has_suffix e.name c9r) _ _ _ _ (decrypt_short-Agrees e)
            (self_Agrees (pure tt))))

    decrypt_entries-Agrees :
        (es : List Entry)
        → Agrees
            (Decrypt.decrypt_entries O gcm c sha1 v into storage out_dir dir_id es)
            (Decrypt.decrypt_entries O gcm c sha1 v into' storage out_dir dir_id es)
    unfolding Decrypt.decrypt_entries
    decrypt_entries-Agrees [] = self_Agrees (pure tt)
    decrypt_entries-Agrees (e ∷ es) =
        then_Agrees _ _ _ _ (decrypt_entry-Agrees e) (decrypt_entries-Agrees es)

  pub decrypt_dir-Agrees :
      (fuel : ℕ) (vault_dir out_dir dir_id : Str)
      → Agrees
          (Decrypt.decrypt_dir O gcm c sha1 v fuel vault_dir out_dir dir_id)
          (Decrypt.decrypt_dir O gcm c sha1 v (suc fuel) vault_dir out_dir dir_id)
  unfolding Decrypt.decrypt_dir
  decrypt_dir-Agrees zero vault_dir out_dir dir_id = λ s h. absurd (h refl)
  decrypt_dir-Agrees (suc fuel) vault_dir out_dir dir_id =
      bind_Agrees (O.mkdir_all out_dir) _ _ λ _.
        bind_Agrees (lift (dir_id_hash c v sha1 dir_id)) _ _ λ hash.
          bind_Agrees (read_entries O (FilePath.join vault_dir hash)) _ _ λ es.
            decrypt_entries-Agrees _ _ (λ out id. decrypt_dir-Agrees fuel vault_dir out id)
              (FilePath.join vault_dir hash) out_dir dir_id es
