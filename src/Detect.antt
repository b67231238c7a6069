-- ===== src/Detect.antt =====
-- daemon/internal/engine/detect.go: the scan of the synced folder against the index.
pub mod Quiet
use discodrive_apps.Base.{
  ℕ, ◌≡◌, Bool, true, false, ◌||◌, not, Option, none, some, List, [], ◌∷◌, ◌++◌, Str, codes, str_eq,
  has_prefix, length, if◌then◌else◌,
}
use discodrive_apps.Base.Exec.{
  Error, Result, ok, err, Exec, pure, raise, lift, ◌>>=◌, ◌>>◌, continue,
}
use discodrive_apps.Go.FilePath
use discodrive_apps.Index
use discodrive_apps.Index.{Node}
use discodrive_apps.World.{World, Info, Visit, is_temp_name}
use discodrive_apps.Engine.{Machine, on_world, on_index}
use discodrive_apps.Push.{LocalChange, create, update, delete}

unfoldable pub is_os_junk : Str → Bool
unfolding has_prefix str_eq
is_os_junk name = str_eq name (codes ".DS_Store") || has_prefix name (codes "._")

-- mustRel
abbrev pub or_target : Str → Result Str → Str
or_target target (ok r) = r
or_target target (err e) = target

unfoldable pub must_rel : Str → Str → Str
unfolding FilePath.rel
must_rel base target = or_target target (FilePath.rel base target)

-- idxByPath: of two nodes with one path the last one counts.
abbrev pub later_of : Node → Option Node → Bool → Option Node
later_of n (some m) here = some m
later_of n none here = if here then some n else none

unfoldable pub known_at : Str → List Node → Option Node
known_at p [] = none
known_at p (n ∷ ns) = later_of n (known_at p ns) (str_eq n.rel_path p)

abbrev new_dir : Str → LocalChange
new_dir rel = record {
  op = create;
  rel_path = rel;
  old_rel_path = [];
  is_dir = true;
  hash = [];
  size = 0;
}

abbrev pub new_file : Str → Str → ℕ → LocalChange
new_file rel h size = record {
  op = create;
  rel_path = rel;
  old_rel_path = [];
  is_dir = false;
  hash = h;
  size = size;
}

abbrev pub gone : Node → LocalChange
gone n = record {
  op = delete;
  rel_path = n.rel_path;
  old_rel_path = [];
  is_dir = n.is_dir;
  hash = n.content_hash;
  size = n.size;
}

-- What is found of one entry: its path below the root, if it takes part, and the change that it shows.
abbrev pub Found : Type 0
Found = Option (Str × List LocalChange)

abbrev pub dir_change : Str → Option Node → List LocalChange
dir_change rel none = new_dir rel ∷ []
dir_change rel (some n) = []

-- A known entry is compared by its hash alone, also if the index has a folder there.
abbrev pub file_change : Str → Str → ℕ → Option Node → List LocalChange
file_change rel h size none = new_file rel h size ∷ []
file_change rel h size (some n) =
    if not (str_eq n.content_hash h) then record (new_file rel h size) { op = update } ∷ [] else []

module _ (W : World) (root : Str) (known : List Node) where
  -- hashFile: the hash and the length of the file's bytes.
  abbrev pub hash_file : Str → Exec W.State (Str × ℕ)
  hash_file p = do bytes ← W.read p; pure (W.sha256_hex bytes, length bytes)

  abbrev pub skipped : Str → Info → Bool
  skipped p fi =
      str_eq p root
      || (is_temp_name (FilePath.base p) || (is_os_junk (FilePath.base p) || fi.is_symlink))

  -- The callback of WalkDir.
  unfoldable pub visit : Str → Result Info → Exec W.State Found
  visit p (err e) = raise e
  visit p (ok fi) =
      if skipped p fi
      then pure none
      else (let rel = must_rel root p in
          if fi.is_dir then pure (some (rel, dir_change rel (known_at rel known))) else (do
            h ← hash_file p
            pure (some (rel, file_change rel h.0 h.1 (known_at rel known)))))

  abbrev pub joined : Found → List Str × List LocalChange → List Str × List LocalChange
  joined none rest = rest
  joined (some (rel, cs)) (seen, out) = (rel ∷ seen, cs ++ out)

  -- What the whole walk has seen, and the changes in the order of the walk.
  unfoldable pub scan : List Visit → Exec W.State (List Str × List LocalChange)
  scan [] = pure ([], [])
  scan (v ∷ vs) = do f ← visit v.path v.entry; rest ← scan vs; pure (joined f rest)

  unfoldable pub member : Str → List Str → Bool
  member p [] = false
  member p (q ∷ qs) = str_eq q p || member p qs

  unfoldable pub missing : List Str → List Node → List LocalChange
  missing seen [] = []
  missing seen (n ∷ ns) =
      let rest = missing seen ns in if member n.rel_path seen then rest else gone n ∷ rest

  unfoldable pub diff : Exec W.State (List LocalChange)
  diff = do visits ← W.walk root; found ← scan visits; pure (found.1 ++ missing found.0 known)

unfoldable pub detect_local : (W : World) (root : Str) → Exec (Machine W) (List LocalChange)
detect_local W root = do known ← on_index W Index.all; on_world W (diff W root known)
