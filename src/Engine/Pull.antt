-- ===== src/Engine/Pull.antt =====
-- Pulling: what is in the index when the loop over a page, or over all pages, stops anywhere.
use mathlib.Core.Path.{subst}
use mathlib.Core.List.{foldl, append-nil}
use discodrive_apps.Base.{
  ℕ, ◌≡◌, refl, ◌∙◌, ap, sym, ◌⊎◌, inl, inr, Bool, true, false, List, [], ◌∷◌, ◌++◌, Str, str_eq,
  str_eq_self, if◌then◌else◌, Bool-cases,
}
use discodrive_apps.Base.Exec.{Error, Result, ok, err}
use discodrive_apps.Index.{Node, Tables, upsert_node, delete_node, write_meta, cursor_key}
use discodrive_apps.Index.Meta.{set_cursor-Atomic}
use discodrive_apps.Go.Strconv.{format_int}
use discodrive_apps.World.{World, Change}
use discodrive_apps.Engine.{Machine, dir_node, file_node, apply, apply_change, apply_changes}
use discodrive_apps.Engine.Apply.{effect, put_row, drop_row, Commits-apply}

abbrev pub moved_to : ℕ → Tables → Tables
moved_to seq = write_meta cursor_key (format_int seq)

-- A change taken in: its entry, and the cursor at it.
abbrev pub taken : Tables → Change → Tables
taken t c = moved_to c.seq (effect c t)

abbrev pub taken_all : Tables → List Change → Tables
taken_all = foldl taken

-- Where the loop over `changes` can stop: behind all of them, or at a change `c`, whose entry may be
-- in the index already while the cursor still stands before it.
pub data Stopped (t : Tables) (changes : List Change) : Result (Unit {0}) → Tables → Type 0 where
  finished : Stopped t changes (ok tt) (taken_all t changes)
  before :
      (pre : List Change) (c : Change) (post : List Change) (e : Error)
      → changes ≡ pre ++ c ∷ post
      → Stopped t changes (err e) (taken_all t pre)
  between :
      (pre : List Change) (c : Change) (post : List Change) (e : Error)
      → changes ≡ pre ++ c ∷ post
      → Stopped t changes (err e) (effect c (taken_all t pre))

module _ (W : World) (root : Str) where
  apply_change-cases :
      (c : Change) (s : Machine W)
      → (((apply_change W root c s).0 ≡ ok tt)
          × ((apply_change W root c s).1.index.tables ≡ taken s.index.tables c))
        ⊎ ((e : Error) × ((apply_change W root c s).0 ≡ err e)
            × (((apply_change W root c s).1.index.tables ≡ s.index.tables)
                ⊎ ((apply_change W root c s).1.index.tables ≡ effect c s.index.tables)))
  unfolding apply_change
  apply_change-cases c s = elim ((Commits-apply W root c).at s) [
    | inl (e, t) ↦ rw e (elim (set_cursor-Atomic c.seq (apply W root c s).1.index) [
      | inl (e', t') ↦ inl (e', t' ∙ ap (moved_to c.seq) t)
      | inr (e', t') ↦ inr (_, e', inr (t' ∙ t))
    ])
    | inr ((e, h), t) ↦ rw h (inr (_, refl, inl t))
  ]

  Stopped-cons :
      (t : Tables) (c : Change) (cs : List Change) (r : Result (Unit {0})) (t' : Tables)
      → Stopped (taken t c) cs r t'
      → Stopped t (c ∷ cs) r t'
  Stopped-cons t c cs r t' finished = finished
  Stopped-cons t c cs r t' (before pre d post e h) = before (c ∷ pre) d post e (ap (λ l. c ∷ l) h)
  Stopped-cons t c cs r t' (between pre d post e h) = between (c ∷ pre) d post e (ap (λ l. c ∷ l) h)

  -- However the loop over a page ends, the index has taken in a run of changes from the front of the
  -- page, in their order and with the cursor at the last of them; at an error the entry of one more
  -- change may be in as well. Nothing behind it is.
  pub apply_changes-Stopped :
      (changes : List Change) (s : Machine W)
      → Stopped s.index.tables changes
          (apply_changes W root changes s).0
          (apply_changes W root changes s).1.index.tables
  unfolding apply_changes
  apply_changes-Stopped [] s = finished
  apply_changes-Stopped (c ∷ cs) s = elim (apply_change-cases c s) [
    | inl (e, t) ↦
        let next = (apply_change W root c s).1 in
        rw e (
          Stopped-cons s.index.tables c cs _ _ (
            subst
              (λ u.
                Stopped u cs (apply_changes W root cs next).0
                  (apply_changes W root cs next).1.index.tables)
              t (apply_changes-Stopped cs next)))
    | inr (e, h, t) ↦ rw h (elim t [
      | inl same ↦ rw same (before [] c cs e refl)
      | inr entered ↦ rw entered (between [] c cs e refl)
    ])
  ]

upsert_node_again :
    (n : Node) (ns : List Node) → upsert_node n (upsert_node n ns) ≡ upsert_node n ns
unfolding upsert_node
upsert_node_again n [] = rw (str_eq_self n.node_id)
upsert_node_again n (m ∷ ns) = elim (Bool-cases (str_eq m.node_id n.node_id)) [
  | inl e ↦ rw (e, str_eq_self n.node_id)
  | inr e ↦ rw (e, e, upsert_node_again n ns)
]

delete_node_again : (k : Str) (ns : List Node) → delete_node k (delete_node k ns) ≡ delete_node k ns
unfolding delete_node
delete_node_again k [] = refl
delete_node_again k (m ∷ ns) = elim (Bool-cases (str_eq m.node_id k)) [
  | inl e ↦ rw (e, delete_node_again k ns)
  | inr e ↦ rw (e, e, delete_node_again k ns)
]

twice_of_choice :
    (b : Bool) (f g : Tables → Tables)
    → ((t : Tables) → f (f t) ≡ f t)
    → ((t : Tables) → g (g t) ≡ g t)
    → (t : Tables) → (if b then f else g) ((if b then f else g) t) ≡ (if b then f else g) t
twice_of_choice true f g h k t = h t
twice_of_choice false f g h k t = k t

put_row_twice : (n : Node) (t : Tables) → put_row n (put_row n t) ≡ put_row n t
put_row_twice n t = rw (upsert_node_again n t.nodes)

-- To enter a change twice is to enter it once.
effect_twice : (c : Change) (t : Tables) → effect c (effect c t) ≡ effect c t
effect_twice c =
    twice_of_choice c.deleted (drop_row c.node_id) _ (λ t. rw (delete_node_again c.node_id t.nodes))
      (twice_of_choice c.is_dir (put_row (dir_node c)) (put_row (file_node c))
        (put_row_twice (dir_node c)) (put_row_twice (file_node c)))

meta_of_choice :
    (b : Bool) (f g : Tables → Tables) (t : Tables)
    → (f t).meta ≡ t.meta
    → (g t).meta ≡ t.meta
    → ((if b then f else g) t).meta ≡ t.meta
meta_of_choice true f g t h k = h
meta_of_choice false f g t h k = k

pub meta-effect : (c : Change) (t : Tables) → (effect c t).meta ≡ t.meta
meta-effect c t =
    meta_of_choice c.deleted (drop_row c.node_id) _ t refl
      (meta_of_choice c.is_dir (put_row (dir_node c)) (put_row (file_node c)) t refl refl)

-- The tables `u` are those after the changes `pre`, as far as the cursor tells, and to take in the
-- `rest` from there leads to where the whole page would have led.
pub record Resumable (t : Tables) (changes : List Change) (u : Tables) : Type 0 where
  pub pre : List Change
  pub rest : List Change
  pub split : changes ≡ pre ++ rest
  pub at_cursor : u.meta ≡ (taken_all t pre).meta
  pub catches_up : taken_all u rest ≡ taken_all t changes

taken_all-append :
    (t : Tables) (xs ys : List Change) → taken_all (taken_all t xs) ys ≡ taken_all t (xs ++ ys)
taken_all-append t [] ys = refl
taken_all-append t (x ∷ xs) ys = taken_all-append (taken t x) xs ys

Stopped-Resumable :
    (t : Tables) (changes : List Change) (r : Result (Unit {0})) (u : Tables)
    → Stopped t changes r u
    → Resumable t changes u
Stopped-Resumable t changes r u finished = record {
  pre = changes;
  rest = [];
  split = sym (append-nil changes);
  at_cursor = refl;
  catches_up = refl;
}
Stopped-Resumable t changes r u (before pre c post e h) = record {
  pre = pre;
  rest = c ∷ post;
  split = h;
  at_cursor = refl;
  catches_up = taken_all-append t pre (c ∷ post) ∙ ap (taken_all t) (sym h);
}
Stopped-Resumable t changes r u (between pre c post e h) = record {
  pre = pre;
  rest = c ∷ post;
  split = h;
  at_cursor = meta-effect c (taken_all t pre);
  catches_up =
      ap (λ v. taken_all (moved_to c.seq v) post) (effect_twice c (taken_all t pre))
      ∙ taken_all-append t pre (c ∷ post)
      ∙ ap (taken_all t) (sym h);
}

-- A pull that stops anywhere in a page can be resumed: the cursor stands behind some first part
-- of the page, and to take in the changes behind that part from the tables as they were left leads to
-- the same tables as the whole page from the start, also when the entry of the first of them was
-- made before the stop.
pub apply_changes-Resumable :
    (W : World) (root : Str) (changes : List Change) (s : Machine W)
    → Resumable s.index.tables changes (apply_changes W root changes s).1.index.tables
apply_changes-Resumable W root changes s =
    Stopped-Resumable _ changes _ _ (apply_changes-Stopped W root changes s)
