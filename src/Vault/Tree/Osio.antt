-- ===== src/Vault/Tree/Osio.antt =====
-- daemon/internal/vault/osio.go: the storage of a vault in a folder of the device.
use discodrive_apps.Base.{Bool, List, Str}
use discodrive_apps.Base.Exec.{Result, Exec, ◌>>◌}
use discodrive_apps.Go.FilePath
use discodrive_apps.Vault.Tree.{Storage, Entry}

-- Package os: the entries of a folder, and the content of a file; whether a path exists;
-- folders and files that are made.
pub record Os : Type 1 where
  pub State : Type 0
  pub read_dir : Str → State → Result (List Entry)
  pub read_file : Str → State → Result Str
  -- os.Stat does not fail.
  pub exists : Str → State → Bool
  pub mkdir_all : Str → Exec State (Unit {0})
  pub write_file : Str → Str → Exec State (Unit {0})
  pub remove_all : Str → Exec State (Unit {0})

module _ (O : Os) (root : Str) where
  abbrev pub abs : Str → Str
  abs path = FilePath.join root path

  unfoldable pub write_file : Str → Str → Exec O.State (Unit {0})
  write_file path bytes = do O.mkdir_all (FilePath.dir (abs path)); O.write_file (abs path) bytes

  abbrev pub osio : Storage
  unfolding write_file
  osio = record {
    State = O.State;
    list_dir = λ path. O.read_dir (abs path);
    read_file = λ path. O.read_file (abs path);
    make_dir = λ path. O.mkdir_all (abs path);
    write_file = write_file;
    remove = λ path. O.remove_all (abs path);
  }
