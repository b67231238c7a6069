-- ===== src/Tests/Local.antt =====
-- The push side and the index, at the test device.
use discodrive_apps.Base.{
  ℕ, ◌≡◌, refl, false, true, Bool, arith, [], ◌∷◌, Str, codes, none, some, not, str_eq,
  if◌then◌else◌, ◌⊎◌, ◌↔◌,
}
use mathlib.Core.List.{Perm}
use discodrive_apps.Base.Exec.{ok, err}
use discodrive_apps.Go.FilePath.{slash}
use discodrive_apps.Index
use discodrive_apps.Index.{
  statement, select_node, put, cursor, set_cursor, clear, db_error, read_number, scope_epoch_key,
}
use discodrive_apps.Index.Statements.{Atomic, cleared, clear-Atomic}
use discodrive_apps.Index.Nodes.{put-delete-exact}
use discodrive_apps.Index.Meta.{cursor-set_cursor}
use discodrive_apps.Index.Browse.Pattern.{ChildOf, has_byte, is_child_exact}
use discodrive_apps.Index.Browse.{is_child}
use discodrive_apps.Index.Copies.{
  local_status, set_local, relocate_local, delete_local, select_copy, local_status_after,
}
use discodrive_apps.Push.{Op, pair_local_moves, in_order}
use discodrive_apps.Push.Pairing.{tally, tally-pair_local_moves}
use discodrive_apps.Push.Order.{AllFit, in_order_fits}
use discodrive_apps.Detect.{diff, scan, visit, missing, must_rel, is_os_junk}
use discodrive_apps.World.{World}
use discodrive_apps.World.Memory.{memory}
use discodrive_apps.Detect.Quiet.{InStep, diff-InStep}
use discodrive_apps.Sync.{reset_for_scope, push_content}
use discodrive_apps.Sync.Scope.{CommitsEpoch, CommitsEpoch-reset_for_scope}
use discodrive_apps.Sync.Sent.{Sent, push_content-Sent}
use discodrive_apps.Tests.{root, device, files, start, node, no_index, no_tables, created, dropped}

-- Every change counts one.
abbrev one : Op → Str → Bool → Str → ℕ
one op p is_dir hash = 1

tally-pair_local_moves_example :
    tally one (pair_local_moves (created ∷ dropped ∷ [])) ≡ tally one (created ∷ dropped ∷ [])
tally-pair_local_moves_example = tally-pair_local_moves one (created ∷ dropped ∷ [])

CommitsEpoch-reset_for_scope_example : CommitsEpoch device root 7 (reset_for_scope device root 4 7)
CommitsEpoch-reset_for_scope_example = CommitsEpoch-reset_for_scope device root 4 7 (omega arith)

push_content-Sent_example :
    Sent device root
      (node ∷ [])
      created
      (codes "/r/a")
      start
      (push_content device root (node ∷ []) created (codes "/r/a") start).0
      (push_content device root (node ∷ []) created (codes "/r/a") start).1.index.tables
push_content-Sent_example = push_content-Sent device root (node ∷ []) created (codes "/r/a") start

set : (set_cursor 12 no_index).0 ≡ ok tt
unfolding set_cursor statement
set = refl

cursor-set_cursor_example :
    (((cursor (set_cursor 12 no_index).1).0 ≡ ok 12)
      ⊎ ((cursor (set_cursor 12 no_index).1).0 ≡ err db_error))
    × (read_number scope_epoch_key (set_cursor 12 no_index).1.tables
        ≡ read_number scope_epoch_key no_index.tables)
cursor-set_cursor_example = cursor-set_cursor no_index 12 (omega arith) set

clear-Atomic_example :
    Atomic cleared clear (record { tables = no_tables; faults = false ∷ true ∷ [] })
clear-Atomic_example = clear-Atomic (record { tables = no_tables; faults = false ∷ true ∷ [] })

in_order_fits_example :
    Perm (in_order (dropped ∷ created ∷ [])) (dropped ∷ created ∷ [])
    × AllFit (in_order (dropped ∷ created ∷ []))
in_order_fits_example = in_order_fits (dropped ∷ created ∷ [])

is_child_exact_example :
    (is_child [] (codes "docs/a") ≡ not (has_byte slash (codes "docs/a")))
    × ((is_child (codes "docs") (codes "docs/a") ≡ true) ↔ ChildOf (codes "docs") (codes "docs/a"))
is_child_exact_example = is_child_exact (codes "docs/a") (codes "ocs") 100

put-delete-exact_example :
    (((put node no_index).0 ≡ ok tt)
        × ((id : Str)
            → select_node id (put node no_index).1.tables.nodes ≡ (
                if str_eq node.node_id id then some node else select_node id no_index.tables.nodes))
      ⊎ ((put node no_index).0 ≡ err db_error) × ((put node no_index).1.tables ≡ no_index.tables))
    × (((Index.delete (codes "n1") no_index).0 ≡ ok tt)
          × ((id : Str)
              → select_node id (Index.delete (codes "n1") no_index).1.tables.nodes
                ≡ (if str_eq (codes "n1") id then none else select_node id no_index.tables.nodes))
        ⊎ ((Index.delete (codes "n1") no_index).0 ≡ err db_error)
          × ((Index.delete (codes "n1") no_index).1.tables ≡ no_index.tables))
put-delete-exact_example = put-delete-exact no_index node (codes "n1")

local_status_after_example :
    ((local_status
        (codes "n1")
        2
        (set_local (codes "n1") (codes "pinned") 1 (codes "p") no_index).1).0
      ≡ (codes "pinned", true, codes "p"))
    × ((local_status (codes "n1") 2 (relocate_local (codes "n1") (codes "p") no_index).1).0
        ≡ ([], false, []))
    × ((local_status (codes "n1") 2 (delete_local (codes "n1") no_index).1).0 ≡ ([], false, []))
unfolding str_eq local_status select_copy
local_status_after_example =
    local_status_after no_tables (codes "n1") (codes "n1") (codes "pinned") (codes "p") 1 2

-- The walk of the device, with the root alone in it.
abbrev empty_device : World
empty_device = memory [] (λ id. none) (root ∷ [])

diff-InStep_example :
    InStep empty_device root [] files
      (record { path = root; entry = ok (record { is_dir = true; is_symlink = false }) } ∷ [])
unfolding diff scan visit str_eq missing must_rel is_os_junk
diff-InStep_example = diff-InStep empty_device root [] files (λ p. refl) _ refl refl
