-- ===== src/Index.antt =====
-- The local index (daemon/internal/index/index.go): its three SQL tables, and the statement that
-- each method executes. A statement is applied whole, or the database refuses it and it changes
-- nothing; `faults` says which of the statements to come are refused.
pub mod Statements
pub mod Nodes
pub mod Meta
pub mod Browse
pub mod Copies
use discodrive_apps.Base.{
  ℕ, ◌≡◌, Bool, true, false, Option, none, some, List, [], ◌∷◌, Str, codes, str_eq, ltb, keep, not,
  if◌then◌else◌, map,
}
use discodrive_apps.Base.Exec.{Error, Result, ok, err, outside, Exec, pure, lift, ◌>>=◌, ◌>>◌}
use discodrive_apps.Go.Strconv.{format_int, parse_int}

-- A row of the table nodes.
pub record Node : Type 0 where
  pub node_id : Str
  pub rel_path : Str
  pub is_dir : Bool
  pub version : ℕ
  pub content_hash : Str
  pub size : ℕ

-- A row of the table local: a downloaded copy.
pub record LocalCopy : Type 0 where
  pub node_id : Str
  pub state : Str
  pub version : ℕ
  pub path : Str

pub record Tables : Type 0 where
  pub meta : List (Str × Str)
  pub nodes : List Node
  pub local : List LocalCopy

pub record Index : Type 0 where
  pub tables : Tables
  pub faults : List Bool

abbrev pub db_error : Error
db_error = outside 0

abbrev step {ℓ} :
    {A : Type ℓ} → (Tables → Result A × Tables) → List Bool → Tables → Result A × Index
step f fs t = let (r, t') = f t in (r, record { tables = t'; faults = fs })

abbrev run {ℓ} : {A : Type ℓ} → (Tables → Result A × Tables) → List Bool → Tables → Result A × Index
run f [] t = step f [] t
run f (false ∷ fs) t = step f fs t
run f (true ∷ fs) t = (err db_error, record { tables = t; faults = fs })

-- db.Exec and db.QueryRow
unfoldable pub statement : {A : Type 0} → (Tables → Result A × Tables) → Exec Index A
statement f i = run f i.faults i.tables

abbrev pub query : {A : Type 0} → (Tables → Result A) → Exec Index A
query f = statement (λ t. (f t, t))

abbrev pub change : (Tables → Tables) → Exec Index (Unit {0})
change f = statement (λ t. (ok tt, f t))

-- SELECT value FROM meta WHERE key = ?
unfoldable pub select_meta : Str → List (Str × Str) → Option Str
select_meta k [] = none
select_meta k ((j, v) ∷ m) = if str_eq j k then some v else select_meta k m

-- INSERT INTO meta … ON CONFLICT(key) DO UPDATE SET value = excluded.value
unfoldable pub upsert_meta : Str → Str → List (Str × Str) → List (Str × Str)
upsert_meta k v [] = (k, v) ∷ []
upsert_meta k v ((j, w) ∷ m) = if str_eq j k then (j, v) ∷ m else (j, w) ∷ upsert_meta k v m

abbrev pub cursor_key : Str
cursor_key = codes "cursor"

abbrev pub scope_epoch_key : Str
scope_epoch_key = codes "scope_epoch"

abbrev pub server_url_key : Str
server_url_key = codes "server_url"

abbrev number_or_zero : Option Str → Result ℕ
number_or_zero none = ok 0
number_or_zero (some v) = parse_int v

abbrev text_or_empty : Option Str → Result Str
text_or_empty none = ok []
text_or_empty (some v) = ok v

abbrev pub read_number : Str → Tables → Result ℕ
read_number k t = number_or_zero (select_meta k t.meta)

abbrev pub write_meta : Str → Str → Tables → Tables
write_meta k v t = record t { meta = upsert_meta k v t.meta }

unfoldable pub cursor : Exec Index ℕ
unfolding statement
cursor = query (read_number cursor_key)

unfoldable pub set_cursor : ℕ → Exec Index (Unit {0})
unfolding statement
set_cursor seq = change (write_meta cursor_key (format_int seq))

unfoldable pub scope_epoch : Exec Index ℕ
unfolding statement
scope_epoch = query (read_number scope_epoch_key)

unfoldable pub set_scope_epoch : ℕ → Exec Index (Unit {0})
unfolding statement
set_scope_epoch epoch = change (write_meta scope_epoch_key (format_int epoch))

unfoldable pub server_url : Exec Index Str
unfolding statement
server_url = query (λ t. text_or_empty (select_meta server_url_key t.meta))

unfoldable pub set_server_url : Str → Exec Index (Unit {0})
unfolding statement
set_server_url u = change (write_meta server_url_key u)

-- The statements between Begin and Commit: when one of them or the commit fails, the tables are
-- those of before.
abbrev rolled_back : Tables → Result (Unit {0}) × Index → Result (Unit {0}) × Index
rolled_back t (ok a, i) = (ok a, i)
rolled_back t (err e, i) = (err e, record i { tables = t })

abbrev commit : Exec Index (Unit {0})
commit = change (λ t. t)

unfoldable pub clear : Exec Index (Unit {0})
unfolding statement
clear i = rolled_back i.tables (
    (do
      change (λ t. t)
      change (λ t. record t { nodes = [] })
      change (write_meta cursor_key (codes "0"))
      commit)
      i)

unfoldable pub select_node : Str → List Node → Option Node
select_node id [] = none
select_node id (n ∷ ns) = if str_eq n.node_id id then some n else select_node id ns

unfoldable pub select_path : Str → List Node → Option Node
select_path p [] = none
select_path p (n ∷ ns) = if str_eq n.rel_path p then some n else select_path p ns

unfoldable pub upsert_node : Node → List Node → List Node
upsert_node n [] = n ∷ []
upsert_node n (m ∷ ns) = if str_eq m.node_id n.node_id then n ∷ ns else m ∷ upsert_node n ns

unfoldable pub delete_node : Str → List Node → List Node
delete_node id [] = []
delete_node id (n ∷ ns) =
    let rest = delete_node id ns in if str_eq n.node_id id then rest else n ∷ rest

unfoldable pub get : Str → Exec Index (Option Node)
unfolding statement
get id = query (λ t. ok (select_node id t.nodes))

unfoldable pub get_by_path : Str → Exec Index (Option Node)
unfolding statement
get_by_path p = query (λ t. ok (select_path p t.nodes))

unfoldable pub put : Node → Exec Index (Unit {0})
unfolding statement
put n = change (λ t. record t { nodes = upsert_node n t.nodes })

unfoldable pub delete : Str → Exec Index (Unit {0})
unfolding statement
delete id = change (λ t. record t { nodes = delete_node id t.nodes })

unfoldable pub all : Exec Index (List Node)
unfolding statement
all = query (λ t. ok t.nodes)
