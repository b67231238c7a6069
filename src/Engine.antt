-- ===== src/Engine.antt =====
-- daemon/internal/engine/engine.go: the pull side of the sync client. The state is the world outside
-- and the local index; the root of the synced folder does not change.
pub mod Keeps
pub mod Apply
pub mod Pull
pub mod Pages
pub mod Fetch
pub mod Removal
use discodrive_apps.Base.{
  ℕ, zero, suc, Bool, true, false, not, ◌&&◌, Option, none, some, List, [], ◌∷◌, Str, str_eq,
  if◌then◌else◌,
}
use discodrive_apps.Base.Exec.{
  Error, Result, ok, err, refuses_root, hash_mismatch, at_seq, unfinished, Exec, pure, raise,
  attempt, or_else_undo, wrap, continue, ◌>>=◌, ◌>>◌,
}
use discodrive_apps.Go.FilePath
use discodrive_apps.Index
use discodrive_apps.Index.{Index, Node}
use discodrive_apps.World.{World, Info, Change, Page}
use discodrive_apps.SafePath

abbrev pub page_limit : ℕ
page_limit = 500

pub record Machine (W : World) : Type 0 where
  pub world : W.State
  pub index : Index

abbrev pub dir_node : Change → Node
dir_node c = record {
  node_id = c.node_id;
  rel_path = c.rel_path;
  is_dir = true;
  version = c.version;
  content_hash = [];
  size = 0;
}

abbrev pub file_node : Change → Node
file_node c = record {
  node_id = c.node_id;
  rel_path = c.rel_path;
  is_dir = false;
  version = c.version;
  content_hash = c.content_hash;
  size = c.size;
}

module _ (W : World) where
  abbrev pub on_world : {A : Type 0} → Exec W.State A → Exec (Machine W) A
  on_world m s = let (r, w) = m s.world in (r, record s { world = w })

  abbrev pub on_index : {A : Type 0} → Exec Index A → Exec (Machine W) A
  on_index m s = let (r, i) = m s.index in (r, record s { index = i })

  module _ (root : Str) where
    unfoldable pub abs : Str → Exec (Machine W) Str
    abs rel = on_world (SafePath.join W root rel)

    unfoldable pub apply_deleted : Change → Str → Exec (Machine W) (Unit {0})
    apply_deleted c p =
        if str_eq p (FilePath.clean root)
        then raise (refuses_root c.rel_path)
        else (do on_world (W.remove_all p); on_index (Index.delete c.node_id))

    -- The old folder is renamed if it is there; how the rename ends is not looked at.
    unfoldable pub rename_dir : Result Info → Str → Str → Exec (Machine W) (Unit {0})
    rename_dir (err e) old p = pure tt
    rename_dir (ok fi) old p =
        if fi.is_dir
        then (do
          on_world (W.mkdir_all (FilePath.dir p))
          attempt (on_world (W.rename old p))
          pure tt)
        else pure tt

    unfoldable pub move_dir_from : Result Str → Str → Exec (Machine W) (Unit {0})
    move_dir_from (err e) p = pure tt
    move_dir_from (ok old) p = do fi ← attempt (on_world (W.stat old)); rename_dir fi old p

    unfoldable pub move_dir : Option Node → Change → Str → Exec (Machine W) (Unit {0})
    move_dir none c p = pure tt
    move_dir (some existing) c p =
        if str_eq existing.rel_path c.rel_path
        then pure tt
        else (do old ← attempt (abs existing.rel_path); move_dir_from old p)

    unfoldable pub apply_dir : Change → Str → Exec (Machine W) (Unit {0})
    apply_dir c p = do
      existing ← on_index (Index.get c.node_id)
      move_dir existing c p
      on_world (W.mkdir_all p)
      on_index (Index.put (dir_node c))

    unfoldable pub rename_file : Result Info → Str → Str → Exec (Machine W) (Unit {0})
    rename_file (err e) old p = pure tt
    rename_file (ok fi) old p = do
      on_world (W.mkdir_all (FilePath.dir p))
      on_world (W.rename old p)

    unfoldable pub move_file_from : Result Str → Str → Exec (Machine W) (Unit {0})
    move_file_from (err e) p = pure tt
    move_file_from (ok old) p = do fi ← attempt (on_world (W.stat old)); rename_file fi old p

    unfoldable pub move_file : Option Node → Change → Str → Exec (Machine W) (Unit {0})
    move_file none c p = pure tt
    move_file (some existing) c p =
        if str_eq existing.rel_path c.rel_path
        then pure tt
        else (do old ← attempt (abs existing.rel_path); move_file_from old p)

    abbrev pub is_there : Result Info → Bool
    is_there (ok fi) = true
    is_there (err e) = false

    -- Whether the file is known to have the content already, and is where it should be.
    unfoldable pub in_place : Option Node → Change → Str → Exec (Machine W) Bool
    in_place none c p = pure false
    in_place (some existing) c p =
        if not (str_eq c.content_hash []) && str_eq existing.content_hash c.content_hash
        then (do fi ← attempt (on_world (W.stat p)); pure (is_there fi))
        else pure false

    unfoldable pub discard : Str → Exec (Machine W) (Unit {0})
    discard tmp = on_world (W.remove tmp)

    unfoldable pub close_and_discard : Str → Exec (Machine W) (Unit {0})
    close_and_discard tmp = do attempt (on_world (W.close tmp)); discard tmp

    abbrev pub wrong_hash : Change → Str → Bool
    wrong_hash c bytes =
        not (str_eq c.content_hash []) && not (str_eq (W.sha256_hex bytes) c.content_hash)

    -- The downloaded bytes are checked before they take the place of the file.
    unfoldable pub install : Change → Str → Str → Str → Exec (Machine W) (Unit {0})
    install c p tmp bytes =
        if wrong_hash c bytes then (do attempt (discard tmp); raise hash_mismatch) else (do
          or_else_undo (on_world (W.rename tmp p)) (discard tmp)
          on_index (Index.put (file_node c)))

    unfoldable pub fetch_file : Change → Str → Exec (Machine W) (Unit {0})
    fetch_file c p = do
      on_world (W.mkdir_all (FilePath.dir p))
      tmp ← on_world (W.create_temp (FilePath.dir p))
      bytes ← or_else_undo (on_world (W.download c.node_id tmp)) (close_and_discard tmp)
      or_else_undo (on_world (W.close tmp)) (discard tmp)
      install c p tmp bytes

    unfoldable pub apply_file : Change → Str → Exec (Machine W) (Unit {0})
    apply_file c p = do
      existing ← on_index (Index.get c.node_id)
      move_file existing c p
      same ← in_place existing c p
      if same then on_index (Index.put (file_node c)) else fetch_file c p

    unfoldable pub apply : Change → Exec (Machine W) (Unit {0})
    apply c = do
      p ← abs c.rel_path
      if c.deleted then apply_deleted c p else if c.is_dir then apply_dir c p else apply_file c p

    -- One change of a page: applied, and then the cursor moved to it.
    unfoldable pub apply_change : Change → Exec (Machine W) (Unit {0})
    apply_change c = do wrap (at_seq c.seq c.rel_path) (apply c); on_index (Index.set_cursor c.seq)

    unfoldable pub apply_changes : List Change → Exec (Machine W) (Unit {0})
    apply_changes [] = pure tt
    apply_changes (c ∷ cs) = apply_change c >> apply_changes cs

    -- The loop over the pages, of which `fuel` bounds the number.
    unfoldable pub pull_pages : ℕ → ℕ → Exec (Machine W) (Unit {0})
    pull_pages zero since = raise unfinished
    pull_pages (suc fuel) since = do
      page ← on_world (W.fetch_changes since page_limit)
      apply_changes page.changes
      let rest = pull_pages fuel page.cursor
      if page.has_more then rest else pure tt

    unfoldable pub pull_once : ℕ → Exec (Machine W) (Unit {0})
    pull_once fuel = do since ← on_index Index.cursor; pull_pages fuel since
