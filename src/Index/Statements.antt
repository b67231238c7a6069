-- ===== src/Index/Statements.antt =====
-- A statement is applied whole or not at all, and so is the transaction of Clear.
use discodrive_apps.Base.{◌≡◌, refl, Bool, true, false, List, [], ◌∷◌, ◌⊎◌, inl, inr, codes, Str}
use discodrive_apps.Base.Exec.{Result, ok, err, Exec}
use discodrive_apps.Index.{
  Tables, Index, Node, db_error, statement, query, change, clear, put, delete, write_meta,
  cursor_key, upsert_node, delete_node,
}

-- `m` did all of `f` to the tables, or failed and did nothing.
abbrev pub Atomic : (Tables → Tables) → Exec Index (Unit {0}) → Index → Type 0
Atomic f m i =
    ((m i).0 ≡ ok tt) × ((m i).1.tables ≡ f i.tables)
    ⊎ ((m i).0 ≡ err db_error) × ((m i).1.tables ≡ i.tables)

pub change-Atomic : (f : Tables → Tables) (i : Index) → Atomic f (change f) i
unfolding statement
change-Atomic f i = go i.faults i.tables
  where
    go : (fs : List Bool) (t : Tables) → Atomic f (change f) (record { tables = t; faults = fs })
    go [] t = inl (refl, refl)
    go (false ∷ fs) t = inl (refl, refl)
    go (true ∷ fs) t = inr (refl, refl)

-- A query answers from the tables or fails, and changes nothing.
pub query-cases :
    {A : Type 0} (f : Tables → Result A) (i : Index)
    → (((query f i).0 ≡ f i.tables) ⊎ ((query f i).0 ≡ err db_error))
      × ((query f i).1.tables ≡ i.tables)
unfolding statement
query-cases {A} f i = go i.faults i.tables
  where
    go :
        (fs : List Bool) (t : Tables)
        → (((query f (record { tables = t; faults = fs })).0 ≡ f t)
            ⊎ ((query f (record { tables = t; faults = fs })).0 ≡ err db_error))
          × ((query f (record { tables = t; faults = fs })).1.tables ≡ t)
    go [] t = (inl refl, refl)
    go (false ∷ fs) t = (inl refl, refl)
    go (true ∷ fs) t = (inr refl, refl)

abbrev pub cleared : Tables → Tables
cleared t = write_meta cursor_key (codes "0") (record t { nodes = [] })

pub put-Atomic :
    (n : Node) (i : Index) → Atomic (λ t. record t { nodes = upsert_node n t.nodes }) (put n) i
unfolding put
put-Atomic n i = change-Atomic _ i

pub delete-Atomic :
    (k : Str) (i : Index) → Atomic (λ t. record t { nodes = delete_node k t.nodes }) (delete k) i
unfolding delete
delete-Atomic k i = change-Atomic _ i

-- Clear forgets every node and sets the cursor to 0, or fails and leaves all as it was.
pub clear-Atomic : (i : Index) → Atomic cleared clear i
unfolding clear statement
clear-Atomic i = go i.faults i.tables
  where
    go : (fs : List Bool) (t : Tables) → Atomic cleared clear (record { tables = t; faults = fs })
    go (true ∷ fs) t = inr (refl, refl)
    go [] t = inl (refl, refl)
    go (false ∷ []) t = inl (refl, refl)
    go (false ∷ true ∷ fs) t = inr (refl, refl)
    go (false ∷ false ∷ []) t = inl (refl, refl)
    go (false ∷ false ∷ true ∷ fs) t = inr (refl, refl)
    go (false ∷ false ∷ false ∷ []) t = inl (refl, refl)
    go (false ∷ false ∷ false ∷ true ∷ fs) t = inr (refl, refl)
    go (false ∷ false ∷ false ∷ false ∷ fs) t = inl (refl, refl)
