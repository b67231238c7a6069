-- ===== src/World/Disk.antt =====
-- What the engine relies on in the file system: which file contents a call changes.
use discodrive_apps.Base.{◌≡◌, ◌≢◌, true, false, Option, some, Str}
use discodrive_apps.Base.Exec.{Error, ok, err}
use discodrive_apps.Go.FilePath
use discodrive_apps.World.{World, is_temp_name}

-- `file s p` is the content of the regular file at `p`, if there is one.
pub record Disk (W : World) : Type 0 where
  pub file : W.State → Str → Option Str
  pub mkdir_all_keeps : (p q : Str) (s : W.State) → file (W.mkdir_all p s).1 q ≡ file s q
  pub close_keeps : (p q : Str) (s : W.State) → file (W.close p s).1 q ≡ file s q
  -- Removing one path leaves the files at other paths.
  pub remove_keeps : (p q : Str) (s : W.State) → p ≢ q → file (W.remove p s).1 q ≡ file s q
  -- A new temporary file has a temporary name, and no file of another name changes.
  pub create_temp_keeps :
      (dir q : Str) (s : W.State)
      → is_temp_name (FilePath.base q) ≡ false
      → file (W.create_temp dir s).1 q ≡ file s q
  pub create_temp_named :
      (dir tmp : Str) (s : W.State)
      → (W.create_temp dir s).0 ≡ ok tmp
      → is_temp_name (FilePath.base tmp) ≡ true
  -- A download writes the file that it is given and no other; when it succeeds that file holds what
  -- was hashed.
  pub download_keeps :
      (id tmp q : Str) (s : W.State) → tmp ≢ q → file (W.download id tmp s).1 q ≡ file s q
  pub download_writes :
      (id tmp bytes : Str) (s : W.State)
      → (W.download id tmp s).0 ≡ ok bytes
      → file (W.download id tmp s).1 tmp ≡ some bytes
  -- A rename that fails changes nothing; one that succeeds moves a file.
  pub rename_fails :
      (old new q : Str) (s : W.State) (e : Error)
      → (W.rename old new s).0 ≡ err e
      → file (W.rename old new s).1 q ≡ file s q
  pub rename_moves :
      (old new bytes : Str) (s : W.State)
      → (W.rename old new s).0 ≡ ok tt
      → file s old ≡ some bytes
      → file (W.rename old new s).1 new ≡ some bytes
