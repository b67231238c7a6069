-- ===== src/Mobile/Refresh.antt =====
-- The index after a refresh, beside the index after a pull of the engine.
use discodrive_apps.Base.{
  ◌≡◌, refl, sym, ap, ◌∙◌, inl, inr, true, false, List, [], ◌∷◌, Str, All, Bool-cases,
}
use discodrive_apps.Base.Exec.{Error, Result, ok, err}
use discodrive_apps.Index
use discodrive_apps.Index.{Node, Tables, db_error}
use discodrive_apps.Index.Statements.{put-Atomic, delete-Atomic}
use discodrive_apps.Index.Meta.{set_cursor-Atomic}
use discodrive_apps.World.{World, Change}
use discodrive_apps.Engine.{Machine, dir_node, file_node, apply_changes}
use discodrive_apps.Engine.Apply.{effect, put_row}
use discodrive_apps.Engine.Pull.{
  moved_to, taken, taken_all, Stopped, finished, before, between, apply_changes-Stopped,
}
use discodrive_apps.Mobile.{row_of, take_in, pull_change, pull_page}

-- A folder in the feed has no hash and no size.
abbrev pub Plain : Change → Type 0
Plain c = c.is_dir ≡ true → (c.content_hash ≡ []) × (c.size ≡ 0)

row_of-dir : (c : Change) → Plain c → c.is_dir ≡ true → row_of c ≡ dir_node c
row_of-dir c plain d = let (h, z) = plain d in rw (d, h, z)

row_of-file : (c : Change) → c.is_dir ≡ false → row_of c ≡ file_node c
row_of-file c d = rw d

effect-row_of :
    (c : Change) (t : Tables) → Plain c → c.deleted ≡ false → put_row (row_of c) t ≡ effect c t
effect-row_of c t plain k = elim (Bool-cases c.is_dir) [
  | inl d ↦ ap (λ n. put_row n t) (row_of-dir c plain d) ∙ rw (k, d)
  | inr d ↦ ap (λ n. put_row n t) (row_of-file c d) ∙ rw (k, d)
]

module _ (W : World) where
  take_in-effect :
      (c : Change) (i : Index.Index)
      → Plain c
      → (take_in W c i).0 ≡ ok tt
      → (take_in W c i).1.tables ≡ effect c i.tables
  unfolding take_in
  take_in-effect c i plain done = elim (Bool-cases c.deleted) [
    | inl d ↦ rw d (elim (delete-Atomic c.node_id i) [
      | inl (e, t) ↦ t
      | inr (e, t) ↦ absurd (refuse (Index.delete c.node_id i).0 e (rw d at done))
    ])
    | inr d ↦ elim (put-Atomic (row_of c) i) [
      | inl (e, t) ↦ (rw d t) ∙ effect-row_of c i.tables plain d
      | inr (e, t) ↦ absurd (refuse (Index.put (row_of c) i).0 e (rw d at done))
    ]
  ]
    where
      refuse : (r : Result (Unit {0})) → r ≡ err db_error → r ≡ ok tt → ⊥
      refuse r e k = cc

  pull_change-taken :
      (c : Change) (s : Machine W)
      → Plain c
      → (pull_change W c s).0 ≡ ok tt
      → (pull_change W c s).1.index.tables ≡ taken s.index.tables c
  unfolding pull_change
  pull_change-taken c s plain done = go (take_in W c s.index).0 refl
    where
      refuse : (r : Result (Unit {0})) (e : Error) → r ≡ err e → r ≡ ok tt → ⊥
      refuse r e h k = cc

      go :
          (r : Result (Unit {0}))
          → (take_in W c s.index).0 ≡ r
          → (pull_change W c s).1.index.tables ≡ taken s.index.tables c
      go (err x) e = absurd (refuse (pull_change W c s).0 x (rw e) done)
      go (ok a) e = elim (set_cursor-Atomic c.seq (take_in W c s.index).1) [
        | inl (o, t) ↦ rw e (t ∙ ap (moved_to c.seq) (take_in-effect c s.index plain e))
        | inr (o, t) ↦
            absurd
              (refuse (Index.set_cursor c.seq (take_in W c s.index).1).0 db_error o (rw e at done))
      ]

  pull_page-taken_all :
      (cs : List Change) (s : Machine W)
      → All Plain cs
      → (pull_page W cs s).0 ≡ ok tt
      → (pull_page W cs s).1.index.tables ≡ taken_all s.index.tables cs
  unfolding pull_page
  pull_page-taken_all [] s h done = refl
  pull_page-taken_all (c ∷ cs) s h done =
      go (pull_page-taken_all cs (pull_change W c s).1 h.1) (pull_change W c s).0 refl
    where
      refuse : (r : Result (Unit {0})) (e : Error) → r ≡ err e → r ≡ ok tt → ⊥
      refuse r e k l = cc

      go :
          ((pull_page W cs (pull_change W c s).1).0 ≡ ok tt
            → (pull_page W cs (pull_change W c s).1).1.index.tables
              ≡ taken_all (pull_change W c s).1.index.tables cs)
          → (r : Result (Unit {0})) → (pull_change W c s).0 ≡ r
          → (pull_page W (c ∷ cs) s).1.index.tables ≡ taken_all s.index.tables (c ∷ cs)
      go later (err x) e = absurd (refuse (pull_page W (c ∷ cs) s).0 x (rw e) done)
      go later (ok a) e =
          rw e (later (rw e at done) ∙ ap (λ t. taken_all t cs) (pull_change-taken c s h.0 e))

  Stopped-ok :
      (t : Tables) (cs : List Change) (r : Result (Unit {0})) (u : Tables)
      → Stopped t cs r u
      → r ≡ ok tt
      → u ≡ taken_all t cs
  Stopped-ok t cs r u finished h = refl
  Stopped-ok t cs r u (before pre c post e k) h = cc
  Stopped-ok t cs r u (between pre c post e k) h = cc

  -- From the same tables, a page that the browser's refresh takes in and a page that the engine applies,
  -- if both succeed, lead to the same tables. In the page a folder has no hash and no
  -- size.
  pub pull_page-apply_changes :
      (root : Str) (cs : List Change) (s r : Machine W)
      → All Plain cs
      → s.index.tables ≡ r.index.tables
      → (pull_page W cs s).0 ≡ ok tt
      → (apply_changes W root cs r).0 ≡ ok tt
      → (pull_page W cs s).1.index.tables ≡ (apply_changes W root cs r).1.index.tables
  pull_page-apply_changes root cs s r plain same browsed applied =
      pull_page-taken_all cs s plain browsed
      ∙ ap (λ t. taken_all t cs) same
      ∙ sym (Stopped-ok r.index.tables cs _ _ (apply_changes-Stopped W root cs r) applied)
