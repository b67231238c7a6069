-- ===== src/Base/Ends.antt =====
-- How an action ends: what holds of the value and the state after a success, and of the state after an
-- error. The rules follow the shape of a do block.
use discodrive_apps.Base.Tests.{if◌then◌else◌}
use mathlib.Core.Path.{◌≡◌, refl}
use mathlib.Core.Bool.{Bool, true, false}
use discodrive_apps.Base.Exec.{
  Error, Result, ok, err, Exec, pure, raise, lift, gets, attempt, continue, ◌>>=◌,
}

module _ {S A : Type 0} where
  abbrev pub Ends : (A → S → Type 0) → (Error → S → Type 0) → Result A × S → Type 0
  Ends Q E (ok a, s) = Q a s
  Ends Q E (err e, s) = E e s

  pub Ends-both : (P : S → Type 0) (x : Result A × S) → Ends (λ a. P) (λ e. P) x → P x.1
  Ends-both P (ok a, s) h = h
  Ends-both P (err e, s) h = h

  pub Ends-split :
      (P Q : S → Type 0) (r : Result A) (s : S) → P s → Q s → Ends (λ a. P) (λ e. Q) (r, s)
  Ends-split P Q (ok a) s p q = p
  Ends-split P Q (err e) s p q = q

  -- From a state in `P`, `m` ends in `Q` or with an error in `E`.
  pub record Leads (P : S → Type 0) (m : Exec S A) (Q : A → S → Type 0) (E : Error → S → Type 0)
      : Type 0 where
    pub at : (s : S) → P s → Ends Q E (m s)

  Ends-weaken :
      (Q Q' : A → S → Type 0) (E E' : Error → S → Type 0) (x : Result A × S)
      → ((a : A) (s : S) → Q a s → Q' a s)
      → ((e : Error) (s : S) → E e s → E' e s)
      → Ends Q E x
      → Ends Q' E' x
  Ends-weaken Q Q' E E' (ok a, s) h k x = h a s x
  Ends-weaken Q Q' E E' (err e, s) h k x = k e s x

  module _ {P : S → Type 0} {Q : A → S → Type 0} {E : Error → S → Type 0} where
    pub Leads-pure : (a : A) → ((s : S) → P s → Q a s) → Leads P (pure a) Q E
    Leads-pure a h = record { at = h }

    pub Leads-raise : (e : Error) → ((s : S) → P s → E e s) → Leads P (raise e) Q E
    Leads-raise e h = record { at = h }

    pub Leads-gets : (f : S → A) → ((s : S) → P s → Q (f s) s) → Leads P (gets f) Q E
    Leads-gets f h = record { at = h }

    pub Leads-lift :
        (r : Result A)
        → ((a : A) (s : S) → P s → Q a s)
        → ((e : Error) (s : S) → P s → E e s)
        → Leads P (lift r) Q E
    Leads-lift (ok a) h k = record { at = h a }
    Leads-lift (err e) h k = record { at = k e }

    -- The same, with what the result was.
    pub Leads-lift_eq :
        (r : Result A)
        → ((a : A) → r ≡ ok a → (s : S) → P s → Q a s)
        → ((e : Error) (s : S) → P s → E e s)
        → Leads P (lift r) Q E
    Leads-lift_eq (ok a) h k = record { at = h a refl }
    Leads-lift_eq (err e) h k = record { at = k e }

    pub Leads-if :
        (b : Bool) (m n : Exec S A)
        → (b ≡ true → Leads P m Q E)
        → (b ≡ false → Leads P n Q E)
        → Leads P (if b then m else n) Q E
    Leads-if true m n h k = h refl
    Leads-if false m n h k = k refl

    pub Leads-from :
        {R : S → Type 0} {m : Exec S A} → ((s : S) → R s → P s) → Leads P m Q E → Leads R m Q E
    Leads-from h l = record { at = λ s r. l.at s (h s r) }

    pub Leads-weaken :
        {Q' : A → S → Type 0} {E' : Error → S → Type 0} {m : Exec S A}
        → ((a : A) (s : S) → Q a s → Q' a s)
        → ((e : Error) (s : S) → E e s → E' e s)
        → Leads P m Q E
        → Leads P m Q' E'
    Leads-weaken {Q' = Q'} {E' = E'} h k l = record {
      at = λ s p. Ends-weaken Q Q' E E' _ h k (l.at s p);
    }

module _ {S A : Type 0} where
  Ends-attempt :
      (Q : A → S → Type 0) (E : Error → S → Type 0) (R : Result A → S → Type 0)
      (E' : Error → S → Type 0)
      → ((a : A) (s : S) → Q a s → R (ok a) s)
      → ((e : Error) (s : S) → E e s → R (err e) s)
      → (r : Result A) (u : S) → Ends Q E (r, u)
      → Ends R E' (ok r, u)
  Ends-attempt Q E R E' h k (ok a) u x = h a u x
  Ends-attempt Q E R E' h k (err e) u x = k e u x

  pub Leads-attempt :
      {P : S → Type 0} (Q : A → S → Type 0) (E : Error → S → Type 0) {R : Result A → S → Type 0}
      {E' : Error → S → Type 0} (m : Exec S A)
      → ((a : A) (s : S) → Q a s → R (ok a) s)
      → ((e : Error) (s : S) → E e s → R (err e) s)
      → Leads P m Q E
      → Leads P (attempt m) R E'
  Leads-attempt Q E {R = R} {E' = E'} m h k l = record {
    at = λ s p. Ends-attempt Q E R E' h k (m s).0 (m s).1 (l.at s p);
  }

module _ {S A B : Type 0} where
  Ends-continue :
      (Q : A → S → Type 0) (R : B → S → Type 0) (E : Error → S → Type 0) (r : Result A)
      (f : A → Exec S B) (s : S)
      → ((a : A) → Leads (Q a) (f a) R E)
      → Ends Q E (r, s)
      → Ends R E (continue r f s)
  Ends-continue Q R E (ok a) f s h x = (h a).at s x
  Ends-continue Q R E (err e) f s h x = x

  pub Leads-bind :
      {P : S → Type 0} {Q : A → S → Type 0} {R : B → S → Type 0} {E : Error → S → Type 0}
      (m : Exec S A) (f : A → Exec S B)
      → Leads P m Q E
      → ((a : A) → Leads (Q a) (f a) R E)
      → Leads P (m >>= f) R E
  Leads-bind {Q = Q} {R = R} {E = E} m f l h = record {
    at = λ s p. Ends-continue Q R E (m s).0 f (m s).1 h (l.at s p);
  }
