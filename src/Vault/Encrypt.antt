-- ===== src/Vault/Encrypt.antt =====
-- daemon/internal/vault/encrypt.go: a whole folder is encrypted into a vault on the device. What is drawn
-- at random is an argument: the UUID of a folder by the path of the folder, the keys and nonces of a file by
-- the path that it is written to. The recursion into folders is on fuel.
use discodrive_apps.Base.{ℕ, zero, suc, List, [], ◌∷◌, Str, length, ltb, if◌then◌else◌}
use discodrive_apps.Base.Exec.{unfinished, Exec, pure, raise, lift, ◌>>=◌, ◌>>◌}
use discodrive_apps.Go.FilePath
use discodrive_apps.Vault.Aead.{Aead}
use discodrive_apps.Vault.Content.{Output, encrypt_content}
use discodrive_apps.Vault.Siv.{Ciphers}
use discodrive_apps.Vault.Names.{
  Keys, shortening_threshold, encrypt_name, shortened_name, dir_id_hash,
}
use discodrive_apps.Vault.Tree.{Entry, Draw, dir_file, contents_file, name_file, dirid_file}
use discodrive_apps.Vault.Tree.Osio.{Os}

module _ (O : Os) where
  -- The file is made and takes what is written to it, also before an error.
  abbrev pub write_output : Str → Output → Exec O.State (Unit {0})
  write_output path (r, bytes) = do O.write_file path bytes; lift r

  abbrev pub read_all : Str → Exec O.State Str
  read_all path s = (O.read_file path s, s)

  abbrev pub read_entries : Str → Exec O.State (List Entry)
  read_entries path s = (O.read_dir path s, s)

module _ (O : Os) (gcm : Aead) (c : Ciphers) (sha1 : Str → Str) (v : Keys) (draw : Str → Draw)
    (uuid : Str → Str) where
  abbrev pub encrypted_to : Str → Str → Output
  encrypted_to path plain =
      let r = draw path in encrypt_content gcm v.enc_key r.header_nonce r.content_key r.nonces plain

  unfoldable pub encrypt_file : Str → Str → Exec O.State (Unit {0})
  encrypt_file src dst = do plain ← read_all O src; write_output O dst (encrypted_to dst plain)

  unfoldable pub write_dir_id_file : Str → Str → Exec O.State (Unit {0})
  write_dir_id_file storage dir_id =
      let path = FilePath.join storage dirid_file in write_output O path (encrypted_to path dir_id)

  -- `into` encrypts a folder below, given its path and its new id.
  module _ (into : Str → Str → Exec O.State (Unit {0})) (dir_path storage dir_id : Str) where
    abbrev sub_dir : Str → Str → Exec O.State (Unit {0})
    sub_dir dir_c_path src = do O.write_file dir_c_path (uuid src); into src (uuid src)

    unfoldable pub encrypt_long : Str → Entry → Exec O.State (Unit {0})
    encrypt_long full e =
        let c9s_path = FilePath.join storage (shortened_name c v sha1 full) in
        let src = FilePath.join dir_path e.name in
        do
          O.mkdir_all c9s_path
          O.write_file (FilePath.join c9s_path name_file) full
          if e.is_dir
              then sub_dir (FilePath.join c9s_path dir_file) src
              else encrypt_file src (FilePath.join c9s_path contents_file)

    unfoldable pub encrypt_short : Str → Entry → Exec O.State (Unit {0})
    encrypt_short full e =
        let path = FilePath.join storage full in
        let src = FilePath.join dir_path e.name in
        if e.is_dir
        then (do O.mkdir_all path; sub_dir (FilePath.join path dir_file) src)
        else encrypt_file src path

    unfoldable pub encrypt_entry : Entry → Exec O.State (Unit {0})
    encrypt_entry e = do
      full ← lift (encrypt_name c v e.name dir_id)
      if ltb shortening_threshold (length full) then encrypt_long full e else encrypt_short full e

    unfoldable pub encrypt_entries : List Entry → Exec O.State (Unit {0})
    encrypt_entries [] = pure tt
    encrypt_entries (e ∷ es) = do encrypt_entry e; encrypt_entries es

  unfoldable pub encrypt_dir : ℕ → Str → Str → Str → Exec O.State (Unit {0})
  encrypt_dir zero dir_path vault_dir dir_id = raise unfinished
  encrypt_dir (suc fuel) dir_path vault_dir dir_id = do
    hash ← lift (dir_id_hash c v sha1 dir_id)
    O.mkdir_all (FilePath.join vault_dir hash)
    write_dir_id_file (FilePath.join vault_dir hash) dir_id
    es ← read_entries O dir_path
    encrypt_entries (λ src id. encrypt_dir fuel src vault_dir id) dir_path
        (FilePath.join vault_dir hash) dir_id es

  unfoldable pub encrypt_tree : ℕ → Str → Str → Exec O.State (Unit {0})
  encrypt_tree fuel src_dir vault_dir = encrypt_dir fuel src_dir vault_dir []
