-- ===== src/Vault/Decrypt.antt =====
-- daemon/internal/vault/decrypt.go: a vault on the device is decrypted into a folder. The recursion into
-- folders is on fuel.
use discodrive_apps.Base.{ℕ, zero, suc, ◌&&◌, List, [], ◌∷◌, Str, str_eq, if◌then◌else◌}
use discodrive_apps.Base.Exec.{unfinished, bad_format, Exec, pure, raise, lift, gets, ◌>>=◌, ◌>>◌}
use discodrive_apps.Go.FilePath
use discodrive_apps.Vault.Aead.{Aead}
use discodrive_apps.Vault.Content.{decrypt_content}
use discodrive_apps.Vault.Siv.{Ciphers}
use discodrive_apps.Vault.Names.{Keys, has_suffix, c9r, c9s, decrypt_name, dir_id_hash}
use discodrive_apps.Vault.Tree.{Entry, dir_file, contents_file, name_file, dirid_file}
use discodrive_apps.Vault.Tree.Osio.{Os}
use discodrive_apps.Vault.Encrypt.{write_output, read_all, read_entries}

module _ (O : Os) (gcm : Aead) (c : Ciphers) (sha1 : Str → Str) (v : Keys) where
  unfoldable pub decrypt_file : Str → Str → Exec O.State (Unit {0})
  decrypt_file src dst = do
    enc ← read_all O src
    write_output O dst (decrypt_content gcm v.enc_key enc)

  -- `into` decrypts a folder below, given the folder to make and the id.
  module _ (into : Str → Str → Exec O.State (Unit {0})) (storage out_dir dir_id : Str) where
    abbrev sub_dir : Str → Str → Exec O.State (Unit {0})
    sub_dir dir_c_path plain = do id ← read_all O dir_c_path; into (FilePath.join out_dir plain) id

    unfoldable pub decrypt_long : Str → Exec O.State (Unit {0})
    decrypt_long name =
        let c9s_path = FilePath.join storage name in
        do
          full ← read_all O (FilePath.join c9s_path name_file)
          plain ← lift (decrypt_name c v full dir_id)
          has_dir ← gets (O.exists (FilePath.join c9s_path dir_file))
          has_contents ← gets (O.exists (FilePath.join c9s_path contents_file))
          if has_dir
              then sub_dir (FilePath.join c9s_path dir_file) plain
              else if has_contents
              then decrypt_file (FilePath.join c9s_path contents_file) (FilePath.join out_dir plain)
              else raise bad_format

    unfoldable pub decrypt_short : Entry → Exec O.State (Unit {0})
    decrypt_short e =
        let path = FilePath.join storage e.name in
        do
          plain ← lift (decrypt_name c v e.name dir_id)
          if e.is_dir
              then sub_dir (FilePath.join path dir_file) plain
              else decrypt_file path (FilePath.join out_dir plain)

    -- The marker of the folder, and what is not of the format, are left out.
    unfoldable pub decrypt_entry : Entry → Exec O.State (Unit {0})
    decrypt_entry e =
        if str_eq e.name dirid_file
        then pure tt
        else if has_suffix e.name c9s && e.is_dir
        then decrypt_long e.name
        else if has_suffix e.name c9r
        then decrypt_short e
        else pure tt

    unfoldable pub decrypt_entries : List Entry → Exec O.State (Unit {0})
    decrypt_entries [] = pure tt
    decrypt_entries (e ∷ es) = do decrypt_entry e; decrypt_entries es

  unfoldable pub decrypt_dir : ℕ → Str → Str → Str → Exec O.State (Unit {0})
  decrypt_dir zero vault_dir out_dir dir_id = raise unfinished
  decrypt_dir (suc fuel) vault_dir out_dir dir_id = do
    O.mkdir_all out_dir
    hash ← lift (dir_id_hash c v sha1 dir_id)
    es ← read_entries O (FilePath.join vault_dir hash)
    decrypt_entries (λ out id. decrypt_dir fuel vault_dir out id) (FilePath.join vault_dir hash)
        out_dir dir_id es

  unfoldable pub decrypt_tree : ℕ → Str → Str → Exec O.State (Unit {0})
  decrypt_tree fuel vault_dir out_dir = decrypt_dir fuel vault_dir out_dir []
