-- ===== src/Desktop.antt =====
-- daemon/internal/desktop/controller.go: the controller of the desktop application, on the index, the content
-- folder and the server. The number of changes that Refresh reports is not modelled.
pub mod Refresh
pub mod Stale
use discodrive_apps.Base.{
  ℕ, zero, suc, ◌&&◌, ◌||◌, Bool, true, false, not, Option, none, some, List, [], ◌∷◌, Str, codes,
  str_eq, ltb, if◌then◌else◌,
}
use discodrive_apps.Base.Exec.{
  Error, Result, ok, err, unfinished, unknown_node, Exec, pure, raise, attempt, or_else_undo,
  continue, ◌>>=◌, ◌>>◌,
}
use discodrive_apps.Go.FilePath
use discodrive_apps.Index
use discodrive_apps.Index.{Index, Node}
use discodrive_apps.Index.Copies.{
  local_status, local_path_of, set_local, delete_local, relocate_local, pinned,
}
use discodrive_apps.Index.Browse.{children}
use discodrive_apps.World.{World, Change, Page}
use discodrive_apps.SafePath
use discodrive_apps.SafePath.{is_not_exist}
use discodrive_apps.Engine.{Machine, on_world, on_index, page_limit}
use discodrive_apps.Mobile.{Service, row_of, asked, cached_state}

pub record Entry : Type 0 where
  pub node : Node
  pub state : Str
  pub stale : Bool
  pub local_path : Str

abbrev pub is_gone : Change → Bool
is_gone c = c.deleted || str_eq c.op (codes "delete")

abbrev pub entry_for : Node → Str × Bool × Str → Entry
entry_for n (state, stale, path) = record {
  node = n;
  state = state;
  stale = stale;
  local_path = path;
}

-- A copy that need not be fetched.
abbrev pub is_fresh : Str × Bool × Str → Bool
is_fresh (state, stale, path) = not (str_eq state []) && not stale

abbrev pub path_in_status : Str × Bool × Str → Str
path_in_status (state, stale, path) = path

-- A file that is not there is as good as removed.
abbrev pub removed_or_missing : Result (Unit {0}) → Result (Unit {0})
removed_or_missing (ok a) = ok a
removed_or_missing (err e) = if is_not_exist e then ok tt else err e

module _ (W : World) where
  unfoldable pub remove_copy : Str → Exec (Machine W) (Unit {0})
  remove_copy p s =
      let (r, w) = W.remove p s.world in (removed_or_missing r, record s { world = w })

  unfoldable pub remove_local : Str → Exec (Machine W) (Unit {0})
  remove_local id = do
    p ← on_index W (asked (local_path_of id))
    if str_eq p [] then pure tt else remove_copy p
    on_index W (delete_local id)

  -- At a failure the copy is purged, whatever comes of it.
  unfoldable pub purge : Str → Exec (Machine W) (Unit {0})
  purge id = do attempt (remove_local id); pure tt

  abbrev pub relocated : Str → Str → Result (Unit {0}) → Exec (Machine W) (Unit {0})
  relocated id path (err e) = purge id
  relocated id path (ok a) = do attempt (on_index W (relocate_local id path)); pure tt

  abbrev pub moved_below : Str → Str → Str → Result (Unit {0}) → Exec (Machine W) (Unit {0})
  moved_below id old path (err e) = purge id
  moved_below id old path (ok a) = do
    r ← attempt (on_world W (W.rename old path))
    relocated id path r

  unfoldable pub move_copy : Str → Str → Result Str → Exec (Machine W) (Unit {0})
  move_copy id old (err e) = purge id
  move_copy id old (ok path) = if str_eq old path then pure tt else (do
    r ← attempt (on_world W (W.mkdir_all (FilePath.dir path)))
    moved_below id old path r)

  module _ (root : Str) where
    unfoldable pub reconcile_local_rel_path : Str → Str → Exec (Machine W) (Unit {0})
    reconcile_local_rel_path id rel = do
      old ← on_index W (asked (local_path_of id))
      let moved = do path ← attempt (on_world W (SafePath.join W root rel)); move_copy id old path
      if str_eq old [] then pure tt else moved

    unfoldable pub relocate_if_moved : Change → Result (Option Node) → Exec (Machine W) (Unit {0})
    relocate_if_moved c (err e) = pure tt
    relocate_if_moved c (ok none) = pure tt
    relocate_if_moved c (ok (some old)) =
        if str_eq old.rel_path c.rel_path
        then pure tt
        else reconcile_local_rel_path c.node_id c.rel_path

    unfoldable pub take_change : Change → Exec (Machine W) (Unit {0})
    take_change c =
        if is_gone c then (do purge c.node_id; on_index W (Index.delete c.node_id)) else (do
          old ← attempt (on_index W (Index.get c.node_id))
          relocate_if_moved c old
          on_index W (Index.put (row_of c)))

    unfoldable pub take_changes : List Change → Exec (Machine W) (Unit {0})
    take_changes [] = pure tt
    take_changes (c ∷ cs) = take_change c >> take_changes cs

    -- The loop stops at the last page, and at one that does not move the cursor up.
    unfoldable pub refresh_from : ℕ → ℕ → Exec (Machine W) (Unit {0})
    refresh_from zero since = raise unfinished
    refresh_from (suc fuel) since = do
      page ← on_world W (W.fetch_changes since page_limit)
      take_changes page.changes
      let rest = refresh_from fuel page.cursor
      let next = if page.has_more then rest else pure tt
      if ltb since page.cursor then on_index W (Index.set_cursor page.cursor) >> next else pure tt

    unfoldable pub refresh : ℕ → Exec (Machine W) (Unit {0})
    refresh fuel = do since ← on_index W Index.cursor; refresh_from fuel since

  unfoldable pub entries_of : List Node → Exec (Machine W) (List Entry)
  entries_of [] = pure []
  entries_of (n ∷ ns) = do
    status ← on_index W (asked (local_status n.node_id n.version))
    rest ← entries_of ns
    pure (entry_for n status ∷ rest)

  unfoldable pub list : Str → Exec (Machine W) (List Entry)
  list p = do kids ← on_index W (children p); entries_of kids

  abbrev pub known_node : Str → Option Node → Exec (Machine W) Node
  known_node id none = raise (unknown_node id)
  known_node id (some n) = pure n

  unfoldable pub find : Str → Exec (Machine W) Node
  find id = do found ← on_index W (Index.get id); known_node id found

  unfoldable pub unpin : Str → Exec (Machine W) (Unit {0})
  unpin id = do
    n ← find id
    p ← on_index W (asked (local_path_of id))
    on_index W (set_local id cached_state n.version p)

  module _ (S : Service W) (root : Str) where
    unfoldable pub fetch : Str → Str → Exec (Machine W) Str
    fetch id state = do
      n ← find id
      dest ← on_world W (SafePath.join W root n.rel_path)
      on_world W (W.mkdir_all (FilePath.dir dest))
      on_world W (S.create dest)
      or_else_undo (on_world W (W.download id dest)) (on_world W (W.close dest))
      on_world W (W.close dest)
      on_index W (set_local id state n.version dest)
      pure dest

    unfoldable pub open_node : Str → Exec (Machine W) Str
    open_node id = do
      n ← find id
      status ← on_index W (asked (local_status id n.version))
      if is_fresh status then pure (path_in_status status) else fetch id cached_state

    unfoldable pub pin : Str → Exec (Machine W) Str
    pin id = do
      n ← find id
      status ← on_index W (asked (local_status id n.version))
      let promoted = do
        on_index W (set_local id Index.Copies.pinned n.version (path_in_status status))
        pure (path_in_status status)
      if is_fresh status then promoted else fetch id Index.Copies.pinned

    -- What the controller only passes on to the server.
    unfoldable pub create_folder : Str → Str → Exec (Machine W) (Unit {0})
    create_folder parent name = on_world W (S.create_folder parent name)

    unfoldable pub rename : Str → Str → Exec (Machine W) (Unit {0})
    rename id name = on_world W (W.rename_node id name)

    unfoldable pub move : Str → Str → Exec (Machine W) (Unit {0})
    move id parent = on_world W (W.move_node id parent)

    unfoldable pub delete : Str → Exec (Machine W) (Unit {0})
    delete id = on_world W (S.delete_node id)

    unfoldable pub upload : Str → Str → Str → Exec (Machine W) (Unit {0})
    upload parent name bytes = on_world W (S.upload_file parent name bytes)
