-- ===== src/VaultMgr.antt =====
-- daemon/internal/vaultmgr/vaultmgr.go: the vaults below the synced folder, and those that are open. The
-- file system and the package vault are an interface; the mutex makes each access to the table of open
-- vaults one step.
pub mod Closing
pub mod Opening
use discodrive_apps.Base.{
  ℕ, Bool, true, false, not, Option, none, some, List, [], ◌∷◌, ◌++◌, Str, codes, str_eq,
  if◌then◌else◌,
}
use discodrive_apps.Base.Exec.{
  Error, Result, ok, err, locked, not_open, already_exists, Exec, pure, raise, attempt, ◌>>=◌, ◌>>◌,
}
use discodrive_apps.Go.FilePath
use discodrive_apps.SafePath.{is_not_exist}

pub record Entry : Type 0 where
  pub name : Str
  pub is_dir : Bool

pub record VaultInfo : Type 0 where
  pub name : Str
  pub dir : Str

pub record Host : Type 1 where
  pub State : Type 0
  -- vault.Vault: the keys of a vault.
  pub Keys : Type 0
  pub read_dir : Str → Exec State (List Entry)
  pub stat : Str → Exec State (Unit {0})
  pub mkdir_all : Str → Exec State (Unit {0})
  pub remove_all : Str → Exec State (Unit {0})
  pub create_vault : Str → Str → Exec State Keys
  pub open_vault : Str → Str → Exec State Keys
  pub open_with_keys : Str → List ℕ → List ℕ → Exec State Keys
  -- From the vault to the folder, and from the folder to the vault.
  pub decrypt_tree : Keys → Str → Str → Exec State (Unit {0})
  pub encrypt_tree : Keys → Str → Str → Exec State (Unit {0})

abbrev pub marker_file : Str
marker_file = codes "vault.cryptomator"

abbrev pub is_there : Result (Unit {0}) → Bool
is_there (ok a) = true
is_there (err e) = false

-- os.IsNotExist of the error of a Stat.
abbrev pub is_missing : Result (Unit {0}) → Bool
is_missing (ok a) = false
is_missing (err e) = is_not_exist e

module _ (H : Host) where
  pub record Manager : Type 0 where
    pub host : H.State
    pub unlocked : List (Str × H.Keys)

  unfoldable pub keys_of : Str → List (Str × H.Keys) → Option H.Keys
  keys_of name [] = none
  keys_of name ((n, v) ∷ m) = if str_eq n name then some v else keys_of name m

  -- unlocked[name] = v
  unfoldable pub assign : Str → H.Keys → List (Str × H.Keys) → List (Str × H.Keys)
  assign name v [] = (name, v) ∷ []
  assign name v ((n, u) ∷ m) = if str_eq n name then (n, v) ∷ m else (n, u) ∷ assign name v m

  -- delete(unlocked, name)
  unfoldable pub remove_keys : Str → List (Str × H.Keys) → List (Str × H.Keys)
  remove_keys name [] = []
  remove_keys name ((n, u) ∷ m) =
      let rest = remove_keys name m in if str_eq n name then rest else (n, u) ∷ rest

  abbrev pub on_host : {A : Type 0} → Exec H.State A → Exec Manager A
  on_host m s = let (r, h) = m s.host in (r, record s { host = h })

  unfoldable pub store_unlocked : Str → H.Keys → Exec Manager (Unit {0})
  unfolding assign
  store_unlocked name v s = (ok tt, record s { unlocked = assign name v s.unlocked })

  unfoldable pub forget_keys : Str → Exec Manager (Unit {0})
  unfolding remove_keys
  forget_keys name s = (ok tt, record s { unlocked = remove_keys name s.unlocked })

  module _ (sync_dir cache_root : Str) where
    -- What a folder that cannot be read yields: nothing if it is not there.
    abbrev pub or_missing : Error → Exec Manager (List Entry)
    or_missing e = if is_not_exist e then pure [] else raise e

    abbrev pub read_entries : Str → Result (List Entry) → Exec Manager (List Entry)
    read_entries dir (ok es) = pure es
    read_entries dir (err e) = or_missing e

    abbrev pub with_vault : Str → Str → Result (Unit {0}) → List VaultInfo → List VaultInfo
    with_vault name dir r out = if is_there r then record { name = name; dir = dir } ∷ out else out

    unfoldable pub detect_in : List Entry → Exec Manager (List VaultInfo)
    detect_in [] = pure []
    detect_in (e ∷ es) =
        let dir = FilePath.join sync_dir e.name in
        let later = detect_in es in
        if not e.is_dir then later else (do
          r ← attempt (on_host (H.stat (FilePath.join dir marker_file)))
          out ← later
          pure (with_vault e.name dir r out))

    unfoldable pub detect : Exec Manager (List VaultInfo)
    detect = do
      r ← attempt (on_host (H.read_dir sync_dir))
      es ← read_entries sync_dir r
      detect_in es

    unfoldable pub plain_dir : Str → Str
    plain_dir name = FilePath.join cache_root name

    unfoldable pub is_open : Str → Exec Manager Bool
    is_open name = do r ← attempt (on_host (H.stat (plain_dir name))); pure (is_there r)

    unfoldable pub create : Str → Str → Exec Manager VaultInfo
    create name password =
        let dir = FilePath.join sync_dir name in
        let made : Exec Manager VaultInfo = (do
          on_host (H.create_vault dir password)
          pure (record { name = name; dir = dir })) in
        do
          r ← attempt (on_host (H.stat dir))
          if is_there r then raise (already_exists name) else made

    unfoldable pub open_unlocked : VaultInfo → H.Keys → Exec Manager Str
    open_unlocked vi v =
        let pd = plain_dir vi.name in
        do
          on_host (H.mkdir_all pd)
          r ← attempt (on_host (H.stat (FilePath.join vi.dir (codes "d"))))
          if is_missing r then pure tt else on_host (H.decrypt_tree v vi.dir pd)
          store_unlocked vi.name v
          pure pd

    unfoldable pub open_with_password : VaultInfo → Str → Exec Manager Str
    open_with_password vi password = do
      v ← on_host (H.open_vault vi.dir password)
      open_unlocked vi v

    unfoldable pub open_with_keys : VaultInfo → List ℕ → List ℕ → Exec Manager Str
    open_with_keys vi enc_key mac_key = do
      v ← on_host (H.open_with_keys vi.dir enc_key mac_key)
      open_unlocked vi v

    -- Encrypt the plaintext again, and only then remove it and the keys.
    unfoldable pub reseal : VaultInfo → H.Keys → Exec Manager (Unit {0})
    reseal vi v =
        let pd = plain_dir vi.name in
        do
          on_host (H.remove_all (FilePath.join vi.dir (codes "d")))
          on_host (H.encrypt_tree v pd vi.dir)
          on_host (H.remove_all pd)
          forget_keys vi.name

    unfoldable pub close_with : VaultInfo → Option H.Keys → Exec Manager (Unit {0})
    close_with vi none = raise locked
    close_with vi (some v) = do
      r ← attempt (on_host (H.stat (plain_dir vi.name)))
      if is_there r then reseal vi v else raise (not_open vi.name)

    unfoldable pub close : VaultInfo → Exec Manager (Unit {0})
    close vi s = close_with vi (keys_of vi.name s.unlocked) s

    unfoldable pub folder_names : List Entry → List Str
    folder_names [] = []
    folder_names (e ∷ es) = let rest = folder_names es in if e.is_dir then e.name ∷ rest else rest

    unfoldable pub orphans : Exec Manager (List Str)
    unfolding folder_names
    orphans = do
      r ← attempt (on_host (H.read_dir cache_root))
      es ← read_entries cache_root r
      pure (folder_names es)
