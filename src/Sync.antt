-- ===== src/Sync.antt =====
-- Sending local changes (PushLocal in daemon/internal/engine/push.go), the reconciliation with a changed
-- scope (ResetForScope and sweepOrphans in engine.go) and one pass of daemon/internal/syncer/syncer.go.
pub mod Sent
pub mod Scope
use discodrive_apps.Base.{
  ℕ, zero, suc, Bool, true, false, not, ◌&&◌, ◌||◌, Option, none, some, List, [], ◌∷◌, ◌++◌, Str,
  codes, str_eq, has_prefix, ltb, ◌==◌, length, if◌then◌else◌,
}
use discodrive_apps.Base.Exec.{
  Error, Result, ok, err, move_source_unknown, Exec, pure, raise, attempt, continue, ◌>>=◌, ◌>>◌,
}
use discodrive_apps.Base.Sort.{sort}
use discodrive_apps.Go.FilePath
use discodrive_apps.Index
use discodrive_apps.Index.{Node}
use discodrive_apps.World.{World, Info, Visit, RemoteNode, is_temp_name}
use discodrive_apps.Engine.{Machine, on_world, on_index, abs, pull_once}
use discodrive_apps.Push.{Op, create, update, delete, move, LocalChange, pair_local_moves, in_order}
use discodrive_apps.Detect.{known_at, detect_local}

-- The version that an upload is based on.
abbrev pub base_version : Option Node → Option ℕ
base_version none = none
base_version (some n) = some n.version

abbrev pub hash_or : Str → Str → Str
hash_or [] h = h
hash_or (c ∷ s) h = c ∷ s

abbrev pub pushed_dir : Str → RemoteNode → Node
pushed_dir p rn = record {
  node_id = rn.node_id;
  rel_path = p;
  is_dir = true;
  version = rn.version;
  content_hash = [];
  size = 0;
}

abbrev pub pushed_file : LocalChange → RemoteNode → Node
pushed_file c rn = record {
  node_id = rn.node_id;
  rel_path = c.rel_path;
  is_dir = false;
  version = rn.version;
  content_hash = hash_or rn.hash c.hash;
  size = c.size;
}

abbrev pub moved_node : LocalChange → Node → Node
moved_node c n = record {
  node_id = n.node_id;
  rel_path = c.rel_path;
  is_dir = false;
  version = n.version;
  content_hash = n.content_hash;
  size = n.size;
}

module _ (W : World) (root : Str) where
  -- A conflict leaves the index as it is: the next pull brings the server's version.
  unfoldable pub record_push : LocalChange → RemoteNode × Bool → Exec (Machine W) (Unit {0})
  record_push c (rn, conflicted) =
      if conflicted then pure tt else on_index W (Index.put (pushed_file c rn))

  unfoldable pub push_content : List Node → LocalChange → Str → Exec (Machine W) (Unit {0})
  push_content known c p = do
    bytes ← on_world W (W.read p)
    answer ← on_world W (W.push_file c.rel_path (base_version (known_at c.rel_path known)) bytes)
    record_push c answer

  unfoldable pub push_dir : Str → Exec (Machine W) Str
  push_dir p = do
    rn ← on_world W (W.ensure_dir p)
    on_index W (Index.put (pushed_dir p rn))
    pure rn.node_id

  unfoldable pub id_or_made : Str → Option Node → Exec (Machine W) Str
  id_or_made p (some n) = pure n.node_id
  id_or_made p none = push_dir p

  -- The node of the folder that a file is moved to; the root has none.
  unfoldable pub parent_id : Str → Exec (Machine W) Str
  parent_id p =
      if str_eq p FilePath.dot
      then pure []
      else (do found ← on_index W (Index.get_by_path p); id_or_made p found)

  unfoldable pub move_remote : LocalChange → Node → Exec (Machine W) (Unit {0})
  move_remote c n =
      let new_parent = FilePath.dir c.rel_path in
      if str_eq new_parent (FilePath.dir c.old_rel_path)
      then pure tt
      else (do id ← parent_id new_parent; on_world W (W.move_node n.node_id id))

  unfoldable pub rename_remote : LocalChange → Node → Exec (Machine W) (Unit {0})
  rename_remote c n =
      let name = FilePath.base c.rel_path in
      if str_eq name (FilePath.base c.old_rel_path)
      then pure tt
      else on_world W (W.rename_node n.node_id name)

  unfoldable pub push_move : LocalChange → Option Node → Exec (Machine W) (Unit {0})
  push_move c none = raise (move_source_unknown c.old_rel_path)
  push_move c (some n) = do
    move_remote c n
    rename_remote c n
    on_index W (Index.put (moved_node c n))

  forget : Option Node → Exec (Machine W) (Unit {0})
  forget none = pure tt
  forget (some n) = on_index W (Index.delete n.node_id)

  unfoldable pub push_delete : LocalChange → Option Node → Exec (Machine W) (Unit {0})
  unfolding forget
  push_delete c n = do on_world W (W.delete_remote c.rel_path); forget n

  unfoldable pub push_op : Op → List Node → LocalChange → Str → Exec (Machine W) (Unit {0})
  push_op create known c p =
      if c.is_dir then (do push_dir c.rel_path; pure tt) else push_content known c p
  push_op update known c p = push_content known c p
  push_op move known c p = push_move c (known_at c.old_rel_path known)
  push_op delete known c p = push_delete c (known_at c.rel_path known)

  unfoldable pub push_change : List Node → LocalChange → Exec (Machine W) (Unit {0})
  push_change known c = do p ← abs W root c.rel_path; push_op c.op known c p

  unfoldable pub push_changes : List Node → List LocalChange → Exec (Machine W) (Unit {0})
  push_changes known [] = pure tt
  push_changes known (c ∷ cs) = push_change known c >> push_changes known cs

  abbrev pub nodes_or_none : Result (List Node) → List Node
  nodes_or_none (ok ns) = ns
  nodes_or_none (err e) = []

  -- `can_move` says whether the sink is a MoveSink.
  unfoldable pub push_local : Bool → Exec (Machine W) (Unit {0})
  push_local can_move = do
    changes ← detect_local W root
    known ← attempt (on_index W Index.all)
    push_changes (nodes_or_none known)
        (in_order (if can_move then pair_local_moves changes else changes))

  -- The paths that a node keeps: its own and those of the folders above it, up to the root.
  unfoldable pub kept_from : ℕ → Str → List Str
  kept_from zero p = []
  kept_from (suc fuel) p =
      let parent = FilePath.dir p in
      let more = kept_from fuel parent in
      let rest = if str_eq parent p then [] else more in
      if str_eq p FilePath.dot || (str_eq p (FilePath.slash ∷ []) || str_eq p [])
      then []
      else p ∷ rest

  unfoldable pub kept : List Node → List Str
  kept [] = FilePath.dot ∷ []
  kept (n ∷ ns) = let p = FilePath.clean n.rel_path in kept_from (suc (length p)) p ++ kept ns

  unfoldable pub listed : Str → List Str → Bool
  listed p [] = false
  listed p (q ∷ qs) = str_eq q p || listed p qs

  abbrev pub is_orphan_at : List Str → Result Str → Bool
  is_orphan_at keep (err e) = false
  is_orphan_at keep (ok rel) = not (listed rel keep)

  abbrev pub is_orphan : List Str → Str → Result Info → Bool
  is_orphan keep p (err e) = false
  is_orphan keep p (ok fi) =
      if str_eq p root || is_temp_name (FilePath.base p)
      then false
      else is_orphan_at keep (FilePath.rel root p)

  unfoldable pub orphans : List Str → List Visit → List Str
  orphans keep [] = []
  orphans keep (v ∷ vs) =
      let rest = orphans keep vs in if is_orphan keep v.path v.entry then v.path ∷ rest else rest

  abbrev pub longer : Str → Str → Bool
  longer a b = ltb (length b) (length a)

  unfoldable pub remove_each : List Str → Exec (Machine W) (Unit {0})
  remove_each [] = pure tt
  remove_each (p ∷ ps) = on_world W (W.remove_all p) >> remove_each ps

  abbrev pub visits_or_none : Result (List Visit) → List Visit
  visits_or_none (ok vs) = vs
  visits_or_none (err e) = []

  unfoldable pub sweep_orphans : Exec (Machine W) (Unit {0})
  sweep_orphans = do
    nodes ← on_index W Index.all
    visits ← attempt (on_world W (W.walk root))
    remove_each (sort longer (orphans (kept nodes) (visits_or_none visits)))

  unfoldable pub reset_for_scope : ℕ → ℕ → Exec (Machine W) (Unit {0})
  reset_for_scope fuel epoch = do
    on_index W Index.clear
    pull_once W root fuel
    sweep_orphans
    on_index W (Index.set_scope_epoch epoch)

  -- One pass: push and then pull, or the reconciliation when the scope has changed.
  unfoldable pub sync_once : Bool → ℕ → Exec (Machine W) (Unit {0})
  sync_once can_move fuel = do
    epoch ← on_world W W.sync_meta
    last ← on_index W Index.scope_epoch
    let same = do push_local can_move; pull_once W root fuel
    if epoch == last then same else reset_for_scope fuel epoch
