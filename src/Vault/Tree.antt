-- ===== src/Vault/Tree.antt =====
-- daemon/internal/vault/lazy.go: listing, reading and changing the tree of a vault in its storage, one
-- folder at a time (io.go). The random bytes of a file and the UUID of a new folder are arguments.
pub mod Osio
pub mod Stored
pub mod Fits
pub mod Long
pub mod Written
pub mod Made
pub mod Folders
pub mod Memory
use discodrive_apps.Base.{
  ℕ, Bool, true, false, ◌&&◌, Option, none, some, List, [], ◌∷◌, ◌++◌, Str, codes, length, ltb,
  str_eq, if◌then◌else◌,
}
use discodrive_apps.Base.Exec.{
  Error, Result, ok, err, bad_format, with_ok, Exec, pure, lift, continue, ◌>>=◌, ◌>>◌,
}
use discodrive_apps.Go.FilePath
use discodrive_apps.Go.FilePath.{slash}
use discodrive_apps.Vault.Aead.{Aead}
use discodrive_apps.Vault.Content.{Output, encrypt_content, decrypt_content}
use discodrive_apps.Vault.Siv.{Ciphers}
use discodrive_apps.Vault.Names.{
  Keys, has_suffix, c9r, c9s, shortening_threshold, encrypt_name, decrypt_name, shortened_name,
  stored_name, dir_id_hash,
}

-- A raw entry of a folder of the storage.
pub record Entry : Type 0 where
  pub name : Str
  pub is_dir : Bool

-- Source and Sink: reading does not change the storage.
pub record Storage : Type 1 where
  pub State : Type 0
  pub list_dir : Str → State → Result (List Entry)
  pub read_file : Str → State → Result Str
  pub make_dir : Str → Exec State (Unit {0})
  pub write_file : Str → Str → Exec State (Unit {0})
  pub remove : Str → Exec State (Unit {0})

-- A decrypted entry: of a folder its id, of a file the path of its content.
pub data VEntry : Type 0 where
  folder : Str → Str → VEntry
  file : Str → Str → VEntry

-- What is drawn at random for a file.
pub record Draw : Type 0 where
  pub header_nonce : Str
  pub content_key : Str
  pub nonces : ℕ → Str

abbrev pub dir_file : Str
dir_file = codes "dir.c9r"

abbrev pub contents_file : Str
contents_file = codes "contents.c9r"

abbrev pub name_file : Str
name_file = codes "name.c9s"

abbrev pub dirid_file : Str
dirid_file = codes "dirid.c9r"

-- One of the entries has the name.
unfoldable pub has_entry : Str → List Entry → Bool
has_entry name [] = false
has_entry name (e ∷ es) = let rest = has_entry name es in if str_eq e.name name then true else rest

abbrev pub cons_some : Option VEntry → List VEntry → List VEntry
cons_some none vs = vs
cons_some (some v) vs = v ∷ vs

-- A buffer that a function has written to, unless it failed.
abbrev pub buffered : Output → Result Str
buffered (ok u, out) = ok out
buffered (err e, out) = err e

module _ (S : Storage) (gcm : Aead) (c : Ciphers) (sha1 : Str → Str) (v : Keys) where
  -- The folder of a shortened name: a folder's or a file's.
  unfoldable pub shortened_entry : Str → Str → List Entry → S.State → Result (Option VEntry)
  shortened_entry c9s_path plain sub s =
      if has_entry dir_file sub
      then with_ok (S.read_file (FilePath.join c9s_path dir_file) s)
          (λ id. ok (some (folder plain id)))
      else if has_entry contents_file sub
      then ok (some (file plain (FilePath.join c9s_path contents_file)))
      else err bad_format

  unfoldable pub long_entry : Str → Str → Str → S.State → Result (Option VEntry)
  long_entry dir_id hash name s =
      let c9s_path = FilePath.join hash name in
      with_ok (S.read_file (FilePath.join c9s_path name_file) s) λ full.
        with_ok (decrypt_name c v full dir_id)
          λ plain. with_ok (S.list_dir c9s_path s) λ sub. shortened_entry c9s_path plain sub s

  unfoldable pub short_entry : Str → Str → Entry → S.State → Result (Option VEntry)
  short_entry dir_id hash e s = with_ok (decrypt_name c v e.name dir_id) λ plain.
      if e.is_dir
      then with_ok (S.read_file (FilePath.join hash (e.name ++ slash ∷ dir_file)) s)
          (λ id. ok (some (folder plain id)))
      else ok (some (file plain (FilePath.join hash e.name)))

  -- What an entry of the storage is in the vault. The marker of the folder, and what is not of the format,
  -- are left out.
  unfoldable pub entry_of : Str → Str → Entry → S.State → Result (Option VEntry)
  entry_of dir_id hash e s =
      if str_eq e.name dirid_file
      then ok none
      else if has_suffix e.name c9s && e.is_dir
      then long_entry dir_id hash e.name s
      else if has_suffix e.name c9r
      then short_entry dir_id hash e s
      else ok none

  unfoldable pub entries_of : Str → Str → List Entry → S.State → Result (List VEntry)
  entries_of dir_id hash [] s = ok []
  entries_of dir_id hash (e ∷ es) s =
      with_ok (entry_of dir_id hash e s)
        λ o. with_ok (entries_of dir_id hash es s) λ vs. ok (cons_some o vs)

  unfoldable pub list_dir : Str → S.State → Result (List VEntry)
  list_dir dir_id s =
      with_ok (dir_id_hash c v sha1 dir_id)
        λ hash. with_ok (S.list_dir hash s) λ es. entries_of dir_id hash es s

  unfoldable pub read_file : Str → S.State → Result Str
  read_file path s =
      with_ok (S.read_file path s) λ enc. buffered (decrypt_content gcm v.enc_key enc)

  abbrev pub content : Draw → Str → Result Str
  content r plain =
      buffered (encrypt_content gcm v.enc_key r.header_nonce r.content_key r.nonces plain)

  unfoldable pub store_file : Str → Str → Str → Exec S.State (Unit {0})
  store_file hash full bytes =
      let c9s_path = FilePath.join hash (shortened_name c v sha1 full) in
      if ltb shortening_threshold (length full)
      then (do
        S.make_dir c9s_path
        S.write_file (FilePath.join c9s_path name_file) full
        S.write_file (FilePath.join c9s_path contents_file) bytes)
      else S.write_file (FilePath.join hash full) bytes

  unfoldable pub write_file : Draw → Str → Str → Str → Exec S.State (Unit {0})
  write_file r parent name plain = do
    hash ← lift (dir_id_hash c v sha1 parent)
    full ← lift (encrypt_name c v name parent)
    bytes ← lift (content r plain)
    store_file hash full bytes

  unfoldable pub store_dir : Str → Str → Str → Exec S.State (Unit {0})
  store_dir hash full id =
      let c9s_path = FilePath.join hash (shortened_name c v sha1 full) in
      let path = FilePath.join hash full in
      if ltb shortening_threshold (length full)
      then (do
        S.make_dir c9s_path
        S.write_file (FilePath.join c9s_path name_file) full
        S.write_file (FilePath.join c9s_path dir_file) id)
      else (do S.make_dir path; S.write_file (FilePath.join path dir_file) id)

  unfoldable pub write_dir_id_file : Draw → Str → Str → Exec S.State (Unit {0})
  write_dir_id_file r path id = do
    bytes ← lift (content r id)
    S.write_file (FilePath.join path dirid_file) bytes

  -- `id` is the new UUID.
  unfoldable pub make_dir : Draw → Str → Str → Str → Exec S.State Str
  make_dir r id parent name = do
    hash ← lift (dir_id_hash c v sha1 parent)
    full ← lift (encrypt_name c v name parent)
    store_dir hash full id
    child ← lift (dir_id_hash c v sha1 id)
    S.make_dir child
    write_dir_id_file r child id
    pure id

  unfoldable pub remove : Str → Str → Exec S.State (Unit {0})
  remove parent name = do
    hash ← lift (dir_id_hash c v sha1 parent)
    full ← lift (encrypt_name c v name parent)
    S.remove (FilePath.join hash (stored_name c v sha1 full))
