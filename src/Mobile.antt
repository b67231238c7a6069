-- ===== src/Mobile.antt =====
-- daemon/mobile/browser.go: the facade by which the mobile clients browse the index and keep copies of files.
-- What it needs beside the world of the engine is an interface.
pub mod Refresh
pub mod Copies
use discodrive_apps.Base.{
  ℕ, zero, suc, Bool, true, false, not, Option, none, some, List, [], ◌∷◌, Str, codes, str_eq,
  if◌then◌else◌,
}
use discodrive_apps.Base.Exec.{
  Error, Result, ok, err, unfinished, Exec, pure, raise, attempt, or_else_undo, continue, ◌>>=◌,
  ◌>>◌,
}
use discodrive_apps.Go.FilePath
use discodrive_apps.Index
use discodrive_apps.Index.{Index, Node}
use discodrive_apps.Index.Copies.{local_status, local_path_of, set_local, delete_local, pinned}
use discodrive_apps.Index.Browse.{children}
use discodrive_apps.World.{World, Change}
use discodrive_apps.SafePath
use discodrive_apps.Engine.{Machine, on_world, on_index, page_limit}

pub record Service (W : World) : Type 0 where
  -- os.Create: the file is there and empty.
  pub create : Str → Exec W.State (Unit {0})
  -- protocol.Client: CreateFolder and UploadFile in a parent, DeleteNode.
  pub create_folder : Str → Str → Exec W.State (Unit {0})
  pub upload_file : Str → Str → Str → Exec W.State (Unit {0})
  pub delete_node : Str → Exec W.State (Unit {0})

pub record BrowseEntry : Type 0 where
  pub id : Str
  pub name : Str
  pub is_dir : Bool
  pub size : ℕ
  pub version : ℕ
  pub cached : Bool
  pub pinned : Bool
  pub stale : Bool
  pub local_path : Str

abbrev pub row_of : Change → Node
row_of c = record {
  node_id = c.node_id;
  rel_path = c.rel_path;
  is_dir = c.is_dir;
  version = c.version;
  content_hash = c.content_hash;
  size = c.size;
}

abbrev pub cached_state : Str
cached_state = codes "cached"

-- A question to the index that is always answered.
abbrev pub asked : {A : Type 0} → (Index → A × Index) → Exec Index A
asked f i = let (a, i') = f i in (ok a, i')

abbrev pub entry_of : Node → Str × Bool × Str → BrowseEntry
entry_of n (state, stale, path) = record {
  id = n.node_id;
  name = FilePath.base n.rel_path;
  is_dir = n.is_dir;
  size = n.size;
  version = n.version;
  cached = not (str_eq state []);
  pinned = str_eq state Index.Copies.pinned;
  stale = stale;
  local_path = path;
}

abbrev pub path_or_empty : Result (Option Node) → Str
path_or_empty (ok (some n)) = n.rel_path
path_or_empty (ok none) = []
path_or_empty (err e) = []

module _ (W : World) where
  -- One change of a page: the metadata only.
  unfoldable pub take_in : Change → Exec Index (Unit {0})
  take_in c = if c.deleted then Index.delete c.node_id else Index.put (row_of c)

  unfoldable pub pull_change : Change → Exec (Machine W) (Unit {0})
  pull_change c = on_index W (take_in c) >> on_index W (Index.set_cursor c.seq)

  unfoldable pub pull_page : List Change → Exec (Machine W) (Unit {0})
  pull_page [] = pure tt
  pull_page (c ∷ cs) = pull_change c >> pull_page cs

  -- The loop over the pages, of which `fuel` bounds the number.
  unfoldable pub pull_changes_from : ℕ → ℕ → Exec (Machine W) (Unit {0})
  pull_changes_from zero since = raise unfinished
  pull_changes_from (suc fuel) since = do
    page ← on_world W (W.fetch_changes since page_limit)
    pull_page page.changes
    let rest = pull_changes_from fuel page.cursor
    if page.has_more then rest else pure tt

  unfoldable pub refresh : ℕ → Exec (Machine W) (Unit {0})
  refresh fuel = do since ← on_index W Index.cursor; pull_changes_from fuel since

  abbrev pub path_of_parent : Option Node → Str
  path_of_parent none = []
  path_of_parent (some n) = n.rel_path

  unfoldable pub parent_path : Str → Exec (Machine W) Str
  parent_path [] = pure []
  parent_path (c ∷ id) = do found ← on_index W (Index.get (c ∷ id)); pure (path_of_parent found)

  unfoldable pub entries : List Node → Exec (Machine W) (List BrowseEntry)
  entries [] = pure []
  entries (n ∷ ns) = do
    status ← on_index W (asked (local_status n.node_id n.version))
    rest ← entries ns
    pure (entry_of n status ∷ rest)

  unfoldable pub list : Str → Exec (Machine W) (List BrowseEntry)
  list parent = do p ← parent_path parent; kids ← on_index W (children p); entries kids

  -- LocalPath and RelPath.
  unfoldable pub local_path : Str → Exec (Machine W) Str
  local_path id = on_index W (asked (local_path_of id))

  unfoldable pub rel_path : Str → Exec (Machine W) Str
  rel_path id = do found ← attempt (on_index W (Index.get id)); pure (path_or_empty found)

  unfoldable pub unpin_node : Str → Option Node → Exec (Machine W) (Unit {0})
  unpin_node id none = pure tt
  unpin_node id (some n) = do
    p ← on_index W (asked (local_path_of id))
    on_index W (set_local id cached_state n.version p)

  unfoldable pub unpin : Str → Exec (Machine W) (Unit {0})
  unpin id = do found ← on_index W (Index.get id); unpin_node id found

  -- A copy without a path has no file; how the removal of the file ends is not looked at.
  unfoldable pub remove_file : Str → Exec (Machine W) (Unit {0})
  remove_file p = if str_eq p [] then pure tt else (do attempt (on_world W (W.remove p)); pure tt)

  unfoldable pub remove_local : Str → Exec (Machine W) (Unit {0})
  remove_local id = do
    p ← on_index W (asked (local_path_of id))
    remove_file p
    on_index W (delete_local id)

  module _ (S : Service W) (root : Str) where
    unfoldable pub fetch_to : Str → Str → ℕ → Str → Exec (Machine W) Str
    fetch_to id state version dst = do
      on_world W (W.mkdir_all (FilePath.dir dst))
      on_world W (S.create dst)
      or_else_undo (on_world W (W.download id dst)) (on_world W (W.close dst))
      on_world W (W.close dst)
      on_index W (set_local id state version dst)
      pure dst

    unfoldable pub download_node : Str → Str → Option Node → Exec (Machine W) Str
    download_node id state none = pure []
    download_node id state (some n) = do
      dst ← on_world W (SafePath.join W root n.rel_path)
      fetch_to id state n.version dst

    unfoldable pub download_as : Str → Str → Exec (Machine W) Str
    download_as id state = do found ← on_index W (Index.get id); download_node id state found

    unfoldable pub download : Str → Exec (Machine W) Str
    download id = download_as id cached_state

    unfoldable pub pin : Str → Exec (Machine W) (Unit {0})
    pin id = do download_as id Index.Copies.pinned; pure tt

    unfoldable pub mkdir : ℕ → Str → Str → Exec (Machine W) (Unit {0})
    mkdir fuel parent name = do on_world W (S.create_folder parent name); refresh fuel

    unfoldable pub upload : ℕ → Str → Str → Exec (Machine W) (Unit {0})
    upload fuel path parent = do
      bytes ← on_world W (W.read path)
      on_world W (S.upload_file parent (FilePath.base path) bytes)
      refresh fuel

    unfoldable pub rename : ℕ → Str → Str → Exec (Machine W) (Unit {0})
    rename fuel id name = do on_world W (W.rename_node id name); refresh fuel

    unfoldable pub move : ℕ → Str → Str → Exec (Machine W) (Unit {0})
    move fuel id parent = do on_world W (W.move_node id parent); refresh fuel

    unfoldable pub delete : ℕ → Str → Exec (Machine W) (Unit {0})
    delete fuel id = do on_world W (S.delete_node id); refresh fuel
