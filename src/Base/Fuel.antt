-- ===== src/Base/Fuel.antt =====
-- Actions whose recursion is on fuel: what they do when there is more of it.
use mathlib.Core.Path.{◌≡◌, refl, ap, ◌∙◌}
use mathlib.Core.Logic.{◌≢◌}
use mathlib.Core.Bool.{Bool, true, false}
use discodrive_apps.Base.Tests.{if◌then◌else◌}
use discodrive_apps.Base.Exec.{Result, ok, err, unfinished, Exec, continue, ◌>>=◌, ◌>>◌}

module _ {S : Type 0} where
  -- Where the first one does not run out of fuel, the second one does the same.
  abbrev pub Agrees : {A : Type 0} → Exec S A → Exec S A → Type 0
  Agrees m n = (s : S) → (m s).0 ≢ err unfinished → m s ≡ n s

  pub self_Agrees : {A : Type 0} (m : Exec S A) → Agrees m m
  self_Agrees m s h = refl

  pub bind_Agrees :
      {A B : Type 0} (m : Exec S A) (f g : A → Exec S B)
      → ((a : A) → Agrees (f a) (g a))
      → Agrees (m >>= f) (m >>= g)
  bind_Agrees m f g h s nn = go (m s).0 (m s).1 nn
    where
      go :
          (r : Result _) (t : S)
          → (continue r f t).0 ≢ err unfinished
          → continue r f t ≡ continue r g t
      go (ok a) t k = h a t k
      go (err e) t k = refl

  pub then_Agrees :
      (m m' n n' : Exec S (Unit {0})) → Agrees m m' → Agrees n n' → Agrees (m >> n) (m' >> n')
  then_Agrees m m' n n' h k s nn =
      bind_Agrees m (λ _. n) (λ _. n') (λ _. k) s nn
      ∙ ap (λ p. continue p.0 (λ _. n') p.1)
          (h s (λ q. nn (ap (λ r. (continue r (λ _. n) (m s).1).0) q)))

  pub if_Agrees :
      {A : Type 0} (b : Bool) (m m' n n' : Exec S A)
      → Agrees m m'
      → Agrees n n'
      → Agrees (if b then m else n) (if b then m' else n')
  if_Agrees true m m' n n' h k = h
  if_Agrees false m m' n n' h k = k
