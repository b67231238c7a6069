-- ===== src/World.antt =====
-- What the client does not implement: the file system of the device (package os and filepath.WalkDir)
-- and the sync server behind protocol.Client, each call of which may change the state outside and
-- may fail. The types of engine/source.go and of engine/push.go that cross this boundary.
pub mod Disk
pub mod Memory
use discodrive_apps.Base.{ℕ, Bool, Option, List, Str, codes, has_prefix, ◌≡◌, none, some}
use discodrive_apps.Base.Exec.{Result, Exec}

-- The names that os.CreateTemp(dir, ".kf-tmp-*") makes.
abbrev pub is_temp_name : Str → Bool
is_temp_name name = has_prefix name (codes ".kf-tmp-")

-- os.FileInfo, as far as it is looked at.
pub record Info : Type 0 where
  pub is_dir : Bool
  pub is_symlink : Bool

-- What WalkDir hands to its callback: the path, and the entry or the error met there.
pub record Visit : Type 0 where
  pub path : Str
  pub entry : Result Info

-- engine.Change: an entry of the server's change feed.
pub record Change : Type 0 where
  pub seq : ℕ
  pub op : Str
  pub node_id : Str
  pub rel_path : Str
  pub is_dir : Bool
  pub version : ℕ
  pub content_hash : Str
  pub size : ℕ
  pub deleted : Bool

-- What Source.Changes returns besides an error.
pub record Page : Type 0 where
  pub changes : List Change
  pub cursor : ℕ
  pub has_more : Bool

-- engine.RemoteNode
pub record RemoteNode : Type 0 where
  pub node_id : Str
  pub version : ℕ
  pub hash : Str

pub record World : Type 1 where
  pub State : Type 0
  -- os.Lstat and os.Stat: the first does not follow a symlink at the path itself.
  pub lstat : Str → Exec State Info
  pub stat : Str → Exec State Info
  pub mkdir_all : Str → Exec State (Unit {0})
  pub remove_all : Str → Exec State (Unit {0})
  pub remove : Str → Exec State (Unit {0})
  pub rename : Str → Str → Exec State (Unit {0})
  -- os.CreateTemp(dir, ".kf-tmp-*"): the path of the new file.
  pub create_temp : Str → Exec State Str
  pub close : Str → Exec State (Unit {0})
  pub walk : Str → Exec State (List Visit)
  -- os.Open and reading to the end.
  pub read : Str → Exec State Str
  -- hex.EncodeToString of the SHA-256 of the bytes.
  pub sha256_hex : Str → Str
  -- Source
  pub fetch_changes : ℕ → ℕ → Exec State Page
  -- Download into io.MultiWriter(tmp, h): what is written to the file is what is hashed.
  pub download : Str → Str → Exec State Str
  pub sync_meta : Exec State ℕ
  -- Sink; the flag of a push says that the server kept its own version.
  pub push_file : Str → Option ℕ → Str → Exec State (RemoteNode × Bool)
  pub ensure_dir : Str → Exec State RemoteNode
  pub delete_remote : Str → Exec State (Unit {0})
  -- MoveSink
  pub move_node : Str → Str → Exec State (Unit {0})
  pub rename_node : Str → Str → Exec State (Unit {0})
