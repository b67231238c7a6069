-- ===== src/Index/Copies.antt =====
-- The table local: which files have a copy on this device, in which state and at which version.
use discodrive_apps.Base.{
  ℕ, ◌≡◌, refl, Bool, false, Option, none, some, List, [], ◌∷◌, map, Str, codes, str_eq, str_eq_iff,
  ltb, keep, if◌then◌else◌, arith,
}
use discodrive_apps.Base.Exec.{Result, ok, err, Exec}
use discodrive_apps.Index.{LocalCopy, Tables, Index, statement, query, change}

unfoldable pub select_copy : Str → List LocalCopy → Option LocalCopy
select_copy id [] = none
select_copy id (c ∷ cs) = if str_eq c.node_id id then some c else select_copy id cs

unfoldable pub upsert_copy : LocalCopy → List LocalCopy → List LocalCopy
upsert_copy c [] = c ∷ []
upsert_copy c (d ∷ cs) = if str_eq d.node_id c.node_id then c ∷ cs else d ∷ upsert_copy c cs

unfoldable pub delete_copy : Str → List LocalCopy → List LocalCopy
delete_copy id [] = []
delete_copy id (c ∷ cs) =
    let rest = delete_copy id cs in if str_eq c.node_id id then rest else c ∷ rest

-- UPDATE local SET path=? WHERE node_id=?
unfoldable pub update_path : Str → Str → List LocalCopy → List LocalCopy
update_path id p [] = []
update_path id p (c ∷ cs) =
    (if str_eq c.node_id id then record c { path = p } else c) ∷ update_path id p cs

unfoldable pub set_local : Str → Str → ℕ → Str → Exec Index (Unit {0})
unfolding statement
set_local id state version path = change (λ t. record t {
  local =
      upsert_copy (record { node_id = id; state = state; version = version; path = path }) t.local;
})

unfoldable pub delete_local : Str → Exec Index (Unit {0})
unfolding statement
delete_local id = change (λ t. record t { local = delete_copy id t.local })

unfoldable pub relocate_local : Str → Str → Exec Index (Unit {0})
unfolding statement
relocate_local id p = change (λ t. record t { local = update_path id p t.local })

-- A failed query reads as "no copy".
abbrev status_of : ℕ → Result (Option LocalCopy) → Str × Bool × Str
status_of server_version (ok (some c)) = (c.state, ltb c.version server_version, c.path)
status_of server_version (ok none) = ([], false, [])
status_of server_version (err e) = ([], false, [])

abbrev path_in : Result (Option LocalCopy) → Str
path_in (ok (some c)) = c.path
path_in (ok none) = []
path_in (err e) = []

unfoldable pub find_copy : Str → Exec Index (Option LocalCopy)
unfolding statement
find_copy id = query (λ t. ok (select_copy id t.local))

unfoldable pub local_status : Str → ℕ → Index → (Str × Bool × Str) × Index
unfolding find_copy
local_status id server_version i = let (r, i') = find_copy id i in (status_of server_version r, i')

unfoldable pub local_path_of : Str → Index → Str × Index
unfolding find_copy
local_path_of id i = let (r, i') = find_copy id i in (path_in r, i')

abbrev or_empty : Result (List Str) → List Str
or_empty (ok ids) = ids
or_empty (err e) = []

abbrev pub pinned : Str
pinned = codes "pinned"

unfoldable pub list_pinned : Index → List Str × Index
unfolding statement
list_pinned i =
    let (r, i') =
      query (λ t. ok (map (λ c. c.node_id) (keep (λ c. str_eq c.state pinned) t.local))) i in
    (or_empty r, i')

pub select_copy-upsert_copy :
    (id : Str) (c : LocalCopy) (cs : List LocalCopy)
    → select_copy id (upsert_copy c cs)
      ≡ (if str_eq c.node_id id then some c else select_copy id cs)
unfolding select_copy upsert_copy
select_copy-upsert_copy id c [] = refl
select_copy-upsert_copy id c (d ∷ cs) = ground (
  arith,
  str_eq_iff c.node_id id,
  str_eq_iff d.node_id id,
  str_eq_iff d.node_id c.node_id,
  select_copy-upsert_copy id c cs,
)

pub select_copy-delete_copy :
    (id k : Str) (cs : List LocalCopy)
    → select_copy id (delete_copy k cs) ≡ (if str_eq k id then none else select_copy id cs)
unfolding select_copy delete_copy
select_copy-delete_copy id k [] = ground arith
select_copy-delete_copy id k (d ∷ cs) = ground (
  arith,
  str_eq_iff k id,
  str_eq_iff d.node_id id,
  str_eq_iff d.node_id k,
  select_copy-delete_copy id k cs,
)

abbrev moved_to : Str → Option LocalCopy → Option LocalCopy
moved_to p none = none
moved_to p (some c) = some (record c { path = p })

pub select_copy-update_path :
    (id k p : Str) (cs : List LocalCopy)
    → select_copy id (update_path k p cs)
      ≡ (if str_eq k id then moved_to p (select_copy id cs) else select_copy id cs)
unfolding select_copy update_path
select_copy-update_path id k p [] = ground arith
select_copy-update_path id k p (d ∷ cs) = ground (
  arith,
  str_eq_iff k id,
  str_eq_iff d.node_id id,
  str_eq_iff d.node_id k,
  select_copy-update_path id k p cs,
)

abbrev pub status_row : ℕ → Option LocalCopy → Str × Bool × Str
status_row v o = status_of v (ok o)

find_copy-select_copy :
    (id : Str) (t : Tables)
    → find_copy id (record { tables = t; faults = [] })
      ≡ (ok (select_copy id t.local), record { tables = t; faults = [] })
unfolding find_copy
find_copy-select_copy id t = refl

-- While the database answers: after SetLocal the status of the node is the state and the path given,
-- stale exactly if the version given is below the server's; RelocateLocal changes the path of a
-- copy that is recorded and nothing else of it; after DeleteLocal there is no copy. The status of
-- every other node is as before in each case.
pub local_status_after :
    (t : Tables) (id j state path : Str) (version server : ℕ)
    → let i : Index = record { tables = t; faults = [] } in
      let old = (local_status j server i).0 in
      ((local_status j server (set_local id state version path i).1).0
        ≡ (if str_eq id j then (state, ltb version server, path) else old))
      × ((local_status j server (relocate_local id path i).1).0 ≡ (
          if str_eq id j then status_row server (moved_to path (select_copy j t.local)) else old))
      × ((local_status j server (delete_local id i).1).0
          ≡ (if str_eq id j then ([], false, []) else old))
unfolding local_status set_local relocate_local delete_local
local_status_after t id j state path version server = (
  ground (
    arith,
    select_copy-upsert_copy j
        (record { node_id = id; state = state; version = version; path = path }) t.local,
  ),
  ground (arith, select_copy-update_path j id path t.local),
  ground (arith, select_copy-delete_copy j id t.local),
)
