-- ===== src/Sync/Scope.antt =====
-- The reconciliation with a changed scope: the epoch of the scope is written last.
use discodrive_apps.Base.{
  ℕ, zero, suc, ◌<◌, ◌≡◌, refl, ◌∙◌, ap, ◌⊎◌, inl, inr, Bool, true, false, Option, List, [], ◌∷◌,
  Str, str_eq, codes, if◌then◌else◌,
}
use discodrive_apps.Base.Exec.{Error, Result, ok, err, Exec, pure, raise, attempt, continue, ◌>>=◌}
use discodrive_apps.Go.Strconv.{format_int, int64_limit}
use discodrive_apps.Index
use discodrive_apps.Index.{
  Index, Tables, Node, select_meta, write_meta, read_number, scope_epoch_key, cursor_key, db_error,
  query,
}
use discodrive_apps.Index.Statements.{clear-Atomic, query-cases}
use discodrive_apps.Index.Meta.{select_meta-upsert_meta, set_scope_epoch-Atomic, Reads-write_epoch}
use discodrive_apps.World.{World, Change}
use discodrive_apps.Engine.{Machine, on_world, on_index, apply_changes, pull_pages, pull_once}
use discodrive_apps.Engine.Apply.{effect}
use discodrive_apps.Engine.Pull.{
  Stopped, finished, before, between, taken, taken_all, meta-effect, apply_changes-Stopped,
}
use discodrive_apps.Sync.{remove_each, sweep_orphans, reset_for_scope}

abbrev pub epoch_text : Tables → Option Str
epoch_text t = select_meta scope_epoch_key t.meta

other_key : (v : Str) (t : Tables) → epoch_text (write_meta cursor_key v t) ≡ epoch_text t
unfolding str_eq
other_key v t = rw select_meta-upsert_meta

epoch-taken : (t : Tables) (c : Change) → epoch_text (taken t c) ≡ epoch_text t
epoch-taken t c =
    other_key (format_int c.seq) (effect c t) ∙ ap (select_meta scope_epoch_key) (meta-effect c t)

epoch-taken_all : (t : Tables) (cs : List Change) → epoch_text (taken_all t cs) ≡ epoch_text t
epoch-taken_all t [] = refl
epoch-taken_all t (c ∷ cs) = epoch-taken_all (taken t c) cs ∙ epoch-taken t c

epoch-Stopped :
    (t : Tables) (cs : List Change) (r : Result (Unit {0})) (u : Tables)
    → Stopped t cs r u
    → epoch_text u ≡ epoch_text t
epoch-Stopped t cs r u finished = epoch-taken_all t cs
epoch-Stopped t cs r u (before pre c post e h) = epoch-taken_all t pre
epoch-Stopped t cs r u (between pre c post e h) =
    ap (select_meta scope_epoch_key) (meta-effect c (taken_all t pre)) ∙ epoch-taken_all t pre

module _ (W : World) where
  -- Whatever it does, the text of the scope epoch stays.
  record KeepsEpoch {A : Type 0} (m : Exec (Machine W) A) : Type 0 where
    at : (s : Machine W) → epoch_text (m s).1.index.tables ≡ epoch_text s.index.tables

  module _ {A : Type 0} where
    KeepsEpoch-pure : (a : A) → KeepsEpoch (pure a)
    KeepsEpoch-pure a = record { at = λ s. refl }

    KeepsEpoch-raise : (e : Error) → KeepsEpoch (raise {A = A} e)
    KeepsEpoch-raise e = record { at = λ s. refl }

    KeepsEpoch-on_world : (m : Exec W.State A) → KeepsEpoch (on_world W m)
    KeepsEpoch-on_world m = record { at = λ s. refl }

    KeepsEpoch-attempt : (m : Exec (Machine W) A) → KeepsEpoch m → KeepsEpoch (attempt m)
    KeepsEpoch-attempt m k = record { at = k.at }

    KeepsEpoch-if :
        (b : Bool) (m n : Exec (Machine W) A)
        → KeepsEpoch m
        → KeepsEpoch n
        → KeepsEpoch (if b then m else n)
    KeepsEpoch-if true m n k l = k
    KeepsEpoch-if false m n k l = l

    KeepsEpoch-query : (f : Tables → Result A) → KeepsEpoch (on_index W (query f))
    KeepsEpoch-query f = record { at = λ s. ap epoch_text (query-cases f s.index).1 }

  module _ {A B : Type 0} where
    continue-epoch :
        (r : Result A) (f : A → Exec (Machine W) B) (s : Machine W)
        → ((a : A) → KeepsEpoch (f a))
        → epoch_text (continue r f s).1.index.tables ≡ epoch_text s.index.tables
    continue-epoch (ok a) f s k = (k a).at s
    continue-epoch (err e) f s k = refl

    KeepsEpoch-bind :
        (m : Exec (Machine W) A) (f : A → Exec (Machine W) B)
        → KeepsEpoch m
        → ((a : A) → KeepsEpoch (f a))
        → KeepsEpoch (m >>= f)
    KeepsEpoch-bind m f k l = record { at = λ s. continue-epoch (m s).0 f (m s).1 l ∙ k.at s }

ruleset epoch_rules = (
  KeepsEpoch-pure, KeepsEpoch-raise, KeepsEpoch-on_world, KeepsEpoch-attempt, KeepsEpoch-if,
  KeepsEpoch-bind,
)

module _ (W : World) (root : Str) where
  KeepsEpoch-apply_changes : (cs : List Change) → KeepsEpoch W (apply_changes W root cs)
  KeepsEpoch-apply_changes cs = record {
    at = λ s. epoch-Stopped s.index.tables cs _ _ (apply_changes-Stopped W root cs s);
  }

  KeepsEpoch-pull_pages : (fuel since : ℕ) → KeepsEpoch W (pull_pages W root fuel since)
  unfolding pull_pages
  KeepsEpoch-pull_pages zero since = search epoch_rules
  KeepsEpoch-pull_pages (suc fuel) since =
      search (epoch_rules, KeepsEpoch-apply_changes, KeepsEpoch-pull_pages fuel)

  KeepsEpoch-pull_once : (fuel : ℕ) → KeepsEpoch W (pull_once W root fuel)
  unfolding pull_once Index.cursor
  KeepsEpoch-pull_once fuel = search (epoch_rules, KeepsEpoch-query, KeepsEpoch-pull_pages)

  KeepsEpoch-remove_each : (ps : List Str) → KeepsEpoch W (remove_each W root ps)
  unfolding remove_each
  KeepsEpoch-remove_each [] = search epoch_rules
  KeepsEpoch-remove_each (p ∷ ps) =
      KeepsEpoch-bind W _ _ (KeepsEpoch-on_world W (W.remove_all p))
        (λ _. KeepsEpoch-remove_each ps)

  KeepsEpoch-sweep_orphans : KeepsEpoch W (sweep_orphans W root)
  unfolding sweep_orphans Index.all
  KeepsEpoch-sweep_orphans = search (epoch_rules, KeepsEpoch-query, KeepsEpoch-remove_each)

  KeepsEpoch-clear : KeepsEpoch W (on_index W Index.clear)
  KeepsEpoch-clear = record {
    at = λ s. elim (clear-Atomic s.index) [
      | inl (_, t) ↦ ap epoch_text t ∙ other_key (codes "0") (record s.index.tables { nodes = [] })
      | inr (_, t) ↦ ap epoch_text t
    ];
  }

  -- The epoch is `n` in the end, or the action failed and the epoch is the old one.
  pub record CommitsEpoch (n : ℕ) (m : Exec (Machine W) (Unit {0})) : Type 0 where
    pub at :
        (s : Machine W)
        → ((m s).0 ≡ ok tt) × (read_number scope_epoch_key (m s).1.index.tables ≡ ok n)
          ⊎ ((e : Error) × ((m s).0 ≡ err e)
              × (epoch_text (m s).1.index.tables ≡ epoch_text s.index.tables))

  CommitsEpoch-set :
      (n : ℕ) → n < int64_limit → CommitsEpoch n (on_index W (Index.set_scope_epoch n))
  CommitsEpoch-set n h = record {
    at = λ s. elim (set_scope_epoch-Atomic n s.index) [
      | inl (e, t) ↦
          inl (
            e,
            ap (read_number scope_epoch_key) t ∙ (Reads-write_epoch s.index.tables n h).at_epoch,
          )
      | inr (e, t) ↦ inr (_, e, ap epoch_text t)
    ];
  }

  module _ {A : Type 0} where
    continue-CommitsEpoch :
        (n : ℕ) (r : Result A) (f : A → Exec (Machine W) (Unit {0})) (s : Machine W) (t : Tables)
        → ((a : A) → CommitsEpoch n (f a))
        → epoch_text s.index.tables ≡ epoch_text t
        → ((continue r f s).0 ≡ ok tt)
            × (read_number scope_epoch_key (continue r f s).1.index.tables ≡ ok n)
          ⊎ ((e : Error) × ((continue r f s).0 ≡ err e)
              × (epoch_text (continue r f s).1.index.tables ≡ epoch_text t))
    continue-CommitsEpoch n (ok a) f s t c same = elim ((c a).at s) [
      | inl h ↦ inl h
      | inr (e, h, k) ↦ inr (e, h, k ∙ same)
    ]
    continue-CommitsEpoch n (err e) f s t c same = inr (e, refl, same)

    CommitsEpoch-bind :
        (n : ℕ) (m : Exec (Machine W) A) (f : A → Exec (Machine W) (Unit {0}))
        → KeepsEpoch W m
        → ((a : A) → CommitsEpoch n (f a))
        → CommitsEpoch n (m >>= f)
    CommitsEpoch-bind n m f k c = record {
      at = λ s. continue-CommitsEpoch n (m s).0 f (m s).1 s.index.tables c (k.at s);
    }

  -- A reconciliation that succeeds leaves the index with the new epoch. One that fails, at whatever
  -- step, leaves the old epoch. The epoch is below 2 ^ 63.
  pub CommitsEpoch-reset_for_scope :
      (fuel epoch : ℕ)
      → epoch < int64_limit
      → CommitsEpoch epoch (reset_for_scope W root fuel epoch)
  unfolding reset_for_scope
  CommitsEpoch-reset_for_scope fuel epoch h = CommitsEpoch-bind epoch _ _ KeepsEpoch-clear λ _.
      CommitsEpoch-bind epoch _ _ (KeepsEpoch-pull_once fuel)
        λ _. CommitsEpoch-bind epoch _ _ KeepsEpoch-sweep_orphans λ _. CommitsEpoch-set epoch h
