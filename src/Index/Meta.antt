-- ===== src/Index/Meta.antt =====
-- The scalar values of the index: the cursor, the scope epoch and the server's address are kept as
-- decimal text under three keys of the table meta.
use discodrive_apps.Base.{
  ℕ, ◌<◌, ◌≡◌, refl, ◌∙◌, ◌⊎◌, inl, inr, some, List, [], ◌∷◌, Str, str_eq, str_eq_iff,
  if◌then◌else◌, arith,
}
use discodrive_apps.Base.Exec.{Result, ok, err}
use discodrive_apps.Index.{
  Tables, Index, select_meta, upsert_meta, cursor_key, scope_epoch_key, write_meta, read_number,
  db_error, cursor, set_cursor, set_scope_epoch,
}
use discodrive_apps.Index.Statements.{Atomic, change-Atomic, cleared, query-cases}
use discodrive_apps.Go.Strconv.{format_int, parse_int, int64_limit, parse_int-format_int}

pub select_meta-upsert_meta :
    (j k v : Str) (m : List (Str × Str))
    → select_meta j (upsert_meta k v m) ≡ (if str_eq k j then some v else select_meta j m)
unfolding select_meta upsert_meta
select_meta-upsert_meta j k v [] = refl
select_meta-upsert_meta j k v ((l, w) ∷ m) =
    ground (arith, str_eq_iff k j, str_eq_iff l j, str_eq_iff l k, select_meta-upsert_meta j k v m)

pub set_cursor-Atomic :
    (seq : ℕ) (i : Index) → Atomic (write_meta cursor_key (format_int seq)) (set_cursor seq) i
unfolding set_cursor
set_cursor-Atomic seq i = change-Atomic _ i

pub set_scope_epoch-Atomic :
    (n : ℕ) (i : Index) → Atomic (write_meta scope_epoch_key (format_int n)) (set_scope_epoch n) i
unfolding set_scope_epoch
set_scope_epoch-Atomic n i = change-Atomic _ i

-- What the two numeric keys say.
pub record Reads (t : Tables) (seq epoch : Result ℕ) : Type 0 where
  pub at_cursor : read_number cursor_key t ≡ seq
  pub at_epoch : read_number scope_epoch_key t ≡ epoch

pub Reads-write_cursor :
    (t : Tables) (seq : ℕ)
    → seq < int64_limit
    → Reads (write_meta cursor_key (format_int seq) t) (ok seq) (read_number scope_epoch_key t)
unfolding str_eq
Reads-write_cursor t seq h = record {
  at_cursor = rw (select_meta-upsert_meta, parse_int-format_int seq h);
  at_epoch = rw select_meta-upsert_meta;
}

pub Reads-write_epoch :
    (t : Tables) (n : ℕ)
    → n < int64_limit
    → Reads (write_meta scope_epoch_key (format_int n) t) (read_number cursor_key t) (ok n)
unfolding str_eq
Reads-write_epoch t n h = record {
  at_cursor = rw select_meta-upsert_meta;
  at_epoch = rw (select_meta-upsert_meta, parse_int-format_int n h);
}

pub Reads-cleared : (t : Tables) → Reads (cleared t) (ok 0) (read_number scope_epoch_key t)
unfolding str_eq parse_int
Reads-cleared t = record {
  at_cursor = rw select_meta-upsert_meta;
  at_epoch = rw select_meta-upsert_meta;
}

cursor-cases :
    (i : Index)
    → (((cursor i).0 ≡ read_number cursor_key i.tables) ⊎ ((cursor i).0 ≡ err db_error))
      × ((cursor i).1.tables ≡ i.tables)
unfolding cursor
cursor-cases i = query-cases (read_number cursor_key) i

-- After a SetCursor that succeeded, Cursor returns the number, unless the database refuses the
-- query; the scope epoch reads as before.
pub cursor-set_cursor :
    (i : Index) (seq : ℕ)
    → seq < int64_limit
    → (set_cursor seq i).0 ≡ ok tt
    → (((cursor (set_cursor seq i).1).0 ≡ ok seq)
        ⊎ ((cursor (set_cursor seq i).1).0 ≡ err db_error))
      × (read_number scope_epoch_key (set_cursor seq i).1.tables
          ≡ read_number scope_epoch_key i.tables)
cursor-set_cursor i seq h done = elim (set_cursor-Atomic seq i) [
  | inl (_, t) ↦
      let after = (set_cursor seq i).1 in
      let reads : Reads after.tables (ok seq) (read_number scope_epoch_key i.tables) =
        rw t (Reads-write_cursor i.tables seq h) in
      (
        elim (cursor-cases after).0 [ inl e ↦ inl (e ∙ reads.at_cursor) | inr e ↦ inr e ],
        reads.at_epoch,
      )
  | inr (e, _) ↦ cc
]
