-- ===== src/Index/Nodes.antt =====
-- The table nodes as a finite map from node ids: what put, delete and clear do to it.
use discodrive_apps.Base.{
  ◌≡◌, refl, ◌⊎◌, inl, inr, none, some, List, [], ◌∷◌, Str, str_eq, str_eq_iff, if◌then◌else◌,
  arith,
}
use discodrive_apps.Base.Exec.{ok, err}
use discodrive_apps.Index.{
  Node, Index, select_node, upsert_node, delete_node, put, delete, db_error,
}
use discodrive_apps.Index.Statements.{put-Atomic, delete-Atomic}

pub select_node-upsert_node :
    (id : Str) (n : Node) (ns : List Node)
    → select_node id (upsert_node n ns)
      ≡ (if str_eq n.node_id id then some n else select_node id ns)
unfolding select_node upsert_node
select_node-upsert_node id n [] = refl
select_node-upsert_node id n (m ∷ ns) = ground (
  arith,
  str_eq_iff n.node_id id,
  str_eq_iff m.node_id id,
  str_eq_iff m.node_id n.node_id,
  select_node-upsert_node id n ns,
)

pub select_node-delete_node :
    (id k : Str) (ns : List Node)
    → select_node id (delete_node k ns) ≡ (if str_eq k id then none else select_node id ns)
unfolding select_node delete_node
select_node-delete_node id k [] = ground arith
select_node-delete_node id k (m ∷ ns) = ground (
  arith,
  str_eq_iff k id,
  str_eq_iff m.node_id id,
  str_eq_iff m.node_id k,
  select_node-delete_node id k ns,
)

-- PRIMARY KEY: no two rows have one id.
abbrev pub UniqueIds : List Node → Type 0
UniqueIds [] = Unit
UniqueIds (n ∷ ns) = (select_node n.node_id ns ≡ none) × UniqueIds ns

pub upsert_node-UniqueIds :
    (n : Node) (ns : List Node) → UniqueIds ns → UniqueIds (upsert_node n ns)
unfolding select_node upsert_node
upsert_node-UniqueIds n [] h = (refl, tt)
upsert_node-UniqueIds n (m ∷ ns) h = ground (
  arith,
  str_eq_iff m.node_id n.node_id,
  str_eq_iff n.node_id m.node_id,
  select_node-upsert_node m.node_id n ns,
  upsert_node-UniqueIds n ns h.1,
)

pub delete_node-UniqueIds : (k : Str) (ns : List Node) → UniqueIds ns → UniqueIds (delete_node k ns)
unfolding select_node delete_node
delete_node-UniqueIds k [] h = tt
delete_node-UniqueIds k (m ∷ ns) h = ground (
  arith,
  str_eq_iff k m.node_id,
  select_node-delete_node m.node_id k ns,
  delete_node-UniqueIds k ns h.1,
)

-- After a Put that succeeded the node is the one of its id, and a Get of any other id answers as
-- before; a Put that failed leaves every table as it was. The same for Delete, which leaves no node
-- of its id.
pub put-delete-exact :
    (i : Index) (n : Node) (k : Str)
    → (((put n i).0 ≡ ok tt)
          × ((id : Str)
              → select_node id (put n i).1.tables.nodes
                ≡ (if str_eq n.node_id id then some n else select_node id i.tables.nodes))
        ⊎ ((put n i).0 ≡ err db_error) × ((put n i).1.tables ≡ i.tables))
      × (((delete k i).0 ≡ ok tt)
            × ((id : Str)
                → select_node id (delete k i).1.tables.nodes
                  ≡ (if str_eq k id then none else select_node id i.tables.nodes))
          ⊎ ((delete k i).0 ≡ err db_error) × ((delete k i).1.tables ≡ i.tables))
put-delete-exact i n k = (
  elim (put-Atomic n i) [
    | inl (e, t) ↦ inl (e, λ id. rw t (select_node-upsert_node id n i.tables.nodes))
    | inr h ↦ inr h
  ],
  elim (delete-Atomic k i) [
    | inl (e, t) ↦ inl (e, λ id. rw t (select_node-delete_node id k i.tables.nodes))
    | inr h ↦ inr h
  ],
)
