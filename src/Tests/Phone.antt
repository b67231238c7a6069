-- ===== src/Tests/Phone.antt =====
-- The mobile and the desktop facade at the test device.
use discodrive_apps.Base.{
  List, ℕ, ◌<◌, ◌≤◌, arith, ◌≡◌, refl, false, some, [], ◌∷◌, codes, str_eq, has_prefix,
}
use discodrive_apps.Base.Exec.{ok}
use discodrive_apps.Go.FilePath
use discodrive_apps.Index
use discodrive_apps.Index.{Tables, Node, select_node, delete_node, statement}
use discodrive_apps.Index.Copies.{local_status, local_path_of}
use discodrive_apps.SafePath
use discodrive_apps.Engine.{Machine, apply_changes, apply_change, apply, apply_deleted, abs}
use discodrive_apps.Mobile.{
  Service, pull_page, pull_change, take_in, download_as, unpin, cached_state,
}
use discodrive_apps.Mobile.Refresh.{pull_page-apply_changes}
use discodrive_apps.Mobile.Copies.{Downloaded, download_as-Downloaded, local_status-unpin}
use discodrive_apps.Desktop
use discodrive_apps.Desktop.{open_node, refresh_from}
use discodrive_apps.Desktop.Refresh.{refresh_from_ends}
use discodrive_apps.Desktop.Stale.{open_node-unpin}
use discodrive_apps.World.Memory.{next_page, Below}
use discodrive_apps.World.{Page, Change}
use discodrive_apps.Tests.{feed, root, device, files, start, node, deleted}

abbrev phone : Service device
phone = record {
  create = λ p d. (ok tt, d);
  create_folder = λ parent name d. (ok tt, d);
  upload_file = λ parent name bytes d. (ok tt, d);
  delete_node = λ id d. (ok tt, d);
}

applied : (apply_changes device root (deleted ∷ []) start).0 ≡ ok tt
unfolding apply_changes apply_change apply apply_deleted abs SafePath.join
    SafePath.no_symlink_components SafePath.check_components FilePath.join FilePath.clean
    FilePath.split FilePath.join_elements FilePath.resolve FilePath.elements FilePath.rel
    FilePath.rel_elements str_eq has_prefix Index.delete Index.set_cursor statement
applied = refl

browsed : (pull_page device (deleted ∷ []) start).0 ≡ ok tt
unfolding pull_page pull_change take_in Index.delete Index.set_cursor statement
browsed = refl

pull_page-apply_changes_example :
    (pull_page device (deleted ∷ []) start).1.index.tables
    ≡ (apply_changes device root (deleted ∷ []) start).1.index.tables
pull_page-apply_changes_example =
    pull_page-apply_changes device root (deleted ∷ []) start start ((λ d. cc), tt) refl browsed
      applied

download_as-Downloaded_example :
    Downloaded device phone root
      (codes "n1")
      cached_state
      start
      (download_as device phone root (codes "n1") cached_state start).0
      (download_as device phone root (codes "n1") cached_state start).1.index.tables
download_as-Downloaded_example =
    download_as-Downloaded device phone root (codes "n1") cached_state start

abbrev one_node : Tables
one_node = record { meta = []; nodes = node ∷ []; local = [] }

abbrev one : Machine device
one = record { world = files; index = record { tables = one_node; faults = [] } }

found : select_node (codes "n1") one_node.nodes ≡ some node
unfolding select_node str_eq
found = refl

local_status-unpin_example :
    ((unpin device (codes "n1") one).0 ≡ ok tt)
    × ((local_status (codes "n1") node.version (unpin device (codes "n1") one).1.index).0
        ≡ (cached_state, false, (local_path_of (codes "n1") one.index).0))
local_status-unpin_example = local_status-unpin device files one_node (codes "n1") node found

open_node-unpin_example :
    open_node device phone root (codes "n1") (Desktop.unpin device (codes "n1") one).1
    ≡ (ok (local_path_of (codes "n1") one.index).0, (Desktop.unpin device (codes "n1") one).1)
open_node-unpin_example = open_node-unpin device phone root files one_node (codes "n1") node found

bounded_page :
    (since : ℕ) (cs : List Change)
    → Below 3 cs
    → since < (next_page since cs).cursor
    → (next_page since cs).cursor ≤ 3
bounded_page since [] b h = absurd (omega arith)
bounded_page since (c ∷ cs) b h = ground (arith, bounded_page since cs b.1)

bounded :
    (since limit : ℕ) (s : device.State) (page : Page)
    → (device.fetch_changes since limit s).0 ≡ ok page
    → since < page.cursor
    → page.cursor ≤ 3
bounded since limit s page e h =
    let same : next_page since feed ≡ page = cc in
    let up : since < (next_page since feed).cursor = rw same h in
    let low = bounded_page since feed (omega arith, (omega arith, (omega arith, tt))) up in
    rw same at low

refresh_from_ends_example : refresh_from device root 4 0 start ≡ refresh_from device root 9 0 start
refresh_from_ends_example =
    refresh_from_ends device root 3 bounded 4 9 0 start (omega arith) (omega arith)
