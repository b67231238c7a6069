-- ===== src/Engine/Keeps.antt =====
-- Actions of the engine that leave the index alone, and actions that change it once, at their end.
use discodrive_apps.Base.{◌≡◌, refl, ◌∙◌, ap, ◌⊎◌, inl, inr, Bool, true, false, if◌then◌else◌}
use discodrive_apps.Base.Exec.{
  Error, Result, ok, err, Exec, pure, raise, attempt, or_else_undo, undone, continue, ◌>>=◌,
}
use discodrive_apps.Index.{Index, Tables}
use discodrive_apps.Index.Statements.{Atomic}
use discodrive_apps.World.{World}
use discodrive_apps.Engine.{Machine, on_world, on_index}

module _ (W : World) where
  -- Whatever `m` does outside, and however it ends, the tables stay as they were.
  pub record KeepsTables {A : Type 0} (m : Exec (Machine W) A) : Type 0 where
    pub at : (s : Machine W) → (m s).1.index.tables ≡ s.index.tables

  -- `m` succeeds and has done `f` to the tables, or it fails and they stay as they were.
  pub record Commits (f : Tables → Tables) (m : Exec (Machine W) (Unit {0})) : Type 0 where
    pub at :
        (s : Machine W)
        → ((m s).0 ≡ ok tt) × ((m s).1.index.tables ≡ f s.index.tables)
          ⊎ ((e : Error) × ((m s).0 ≡ err e)) × ((m s).1.index.tables ≡ s.index.tables)

  module _ {A : Type 0} where
    pub KeepsTables-pure : (a : A) → KeepsTables (pure a)
    KeepsTables-pure a = record { at = λ s. refl }

    pub KeepsTables-raise : (e : Error) → KeepsTables (raise {A = A} e)
    KeepsTables-raise e = record { at = λ s. refl }

    pub KeepsTables-on_world : (m : Exec W.State A) → KeepsTables (on_world W m)
    KeepsTables-on_world m = record { at = λ s. refl }

    pub KeepsTables-attempt : (m : Exec (Machine W) A) → KeepsTables m → KeepsTables (attempt m)
    KeepsTables-attempt m k = record { at = λ s. k.at s }

    pub KeepsTables-if :
        (b : Bool) (m n : Exec (Machine W) A)
        → KeepsTables m
        → KeepsTables n
        → KeepsTables (if b then m else n)
    KeepsTables-if true m n k l = k
    KeepsTables-if false m n k l = l

    undone-tables :
        (r : Result A) (cleanup : Exec (Machine W) (Unit {0})) (s : Machine W)
        → KeepsTables cleanup
        → (undone r cleanup s).1.index.tables ≡ s.index.tables
    undone-tables (ok a) cleanup s k = refl
    undone-tables (err e) cleanup s k = k.at s

    pub KeepsTables-undo :
        (m : Exec (Machine W) A) (cleanup : Exec (Machine W) (Unit {0}))
        → KeepsTables m
        → KeepsTables cleanup
        → KeepsTables (or_else_undo m cleanup)
    KeepsTables-undo m cleanup k l = record {
      at = λ s. undone-tables (m s).0 cleanup (m s).1 l ∙ k.at s;
    }

  module _ {A B : Type 0} where
    continue-tables :
        (r : Result A) (f : A → Exec (Machine W) B) (s : Machine W)
        → ((a : A) → KeepsTables (f a))
        → (continue r f s).1.index.tables ≡ s.index.tables
    continue-tables (ok a) f s k = (k a).at s
    continue-tables (err e) f s k = refl

    pub KeepsTables-bind :
        (m : Exec (Machine W) A) (f : A → Exec (Machine W) B)
        → KeepsTables m
        → ((a : A) → KeepsTables (f a))
        → KeepsTables (m >>= f)
    KeepsTables-bind m f k l = record { at = λ s. continue-tables (m s).0 f (m s).1 l ∙ k.at s }

  module _ (f : Tables → Tables) where
    pub Commits-raise : (e : Error) → Commits f (raise e)
    Commits-raise e = record { at = λ s. inr ((e, refl), refl) }

    pub Commits-if :
        (b : Bool) (m n : Exec (Machine W) (Unit {0}))
        → (b ≡ true → Commits f m)
        → (b ≡ false → Commits f n)
        → Commits f (if b then m else n)
    Commits-if true m n k l = k refl
    Commits-if false m n k l = l refl

    pub Commits-on_index :
        (m : Exec Index (Unit {0})) → ((i : Index) → Atomic f m i) → Commits f (on_index W m)
    Commits-on_index m a = record {
      at = λ s. elim (a s.index) [ inl h ↦ inl h | inr (e, t) ↦ inr ((_, e), t) ];
    }

    continue-Commits :
        {A : Type 0} (r : Result A) (k : A → Exec (Machine W) (Unit {0})) (s : Machine W)
        (t : Tables)
        → ((a : A) → Commits f (k a))
        → s.index.tables ≡ t
        → ((continue r k s).0 ≡ ok tt) × ((continue r k s).1.index.tables ≡ f t)
          ⊎ ((e : Error) × ((continue r k s).0 ≡ err e)) × ((continue r k s).1.index.tables ≡ t)
    continue-Commits (ok a) k s t c same = elim ((c a).at s) [
      | inl (e, h) ↦ inl (e, h ∙ ap f same)
      | inr (e, h) ↦ inr (e, h ∙ same)
    ]
    continue-Commits (err e) k s t c same = inr ((e, refl), same)

    pub Commits-bind :
        {A : Type 0} (m : Exec (Machine W) A) (k : A → Exec (Machine W) (Unit {0}))
        → KeepsTables m
        → ((a : A) → Commits f (k a))
        → Commits f (m >>= k)
    Commits-bind m k l c = record {
      at = λ s. continue-Commits (m s).0 k (m s).1 s.index.tables c (l.at s);
    }

pub ruleset keeps_rules = (
  KeepsTables-pure, KeepsTables-raise, KeepsTables-on_world, KeepsTables-attempt, KeepsTables-if,
  KeepsTables-undo, KeepsTables-bind,
)
