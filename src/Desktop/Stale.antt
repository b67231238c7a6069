-- ===== src/Desktop/Stale.antt =====
-- A copy after it was unpinned.
use discodrive_apps.Base.{◌≡◌, false, some, [], Str, ltb, str_eq, str_eq_self, arith}
use discodrive_apps.Base.Exec.{ok}
use discodrive_apps.Index
use discodrive_apps.Index.{Node, Tables, select_node, statement}
use discodrive_apps.Index.Copies.{
  local_path_of, local_status, find_copy, set_local, select_copy-upsert_copy,
}
use discodrive_apps.World.{World}
use discodrive_apps.Engine.{Machine}
use discodrive_apps.Mobile.{Service}
use discodrive_apps.Desktop.{find, unpin, open_node}

-- While the database answers, Open after Unpin of a node of the index returns the path that the copy had
-- and asks nothing of the server or the file system, whichever version of the file was downloaded.
pub open_node-unpin :
    (W : World) (S : Service W) (root : Str) (w : W.State) (t : Tables) (id : Str) (n : Node)
    → select_node id t.nodes ≡ some n
    → let s : Machine W = record { world = w; index = record { tables = t; faults = [] } } in
      open_node W S root id (unpin W id s).1 ≡ (ok (local_path_of id s.index).0, (unpin W id s).1)
unfolding unpin find open_node Index.get statement local_path_of local_status find_copy set_local
    str_eq
open_node-unpin W S root w t id n h =
    let fresh : ltb n.version n.version ≡ false = ground arith in
    rw (h, h, select_copy-upsert_copy, str_eq_self id, fresh)
