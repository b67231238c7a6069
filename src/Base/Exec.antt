-- ===== src/Base/Exec.antt =====
-- Go functions that return an error, and methods that change a state on the way: what was done
-- before the error stays done, so the state comes back beside the error too.
use Prim.Native.Nat.{ℕ}
use mathlib.Core.Path.{◌≡◌, refl, sym, ap, ◌∙◌}
use discodrive_apps.Base.Text.{Str}

-- The errors that the program makes itself, and `outside` for those of the system, the database,
-- the network and the libraries.
pub data Error : Type 0 where
  outside : ℕ → Error
  not_exist : Error
  escapes_root : Str → Error
  is_symlink : Str → Error
  refuses_root : Str → Error
  hash_mismatch : Error
  move_source_unknown : Str → Error
  at_seq : ℕ → Str → Error → Error
  locked : Error
  not_open : Str → Error
  already_exists : Str → Error
  unknown_node : Str → Error
  bad_format : Error
  -- A loop of the model that has not come to its end.
  unfinished : Error
  auth_failed : Error
  -- An answer of the server with another status than the one expected.
  bad_status : Str → ℕ → Error
  not_authorized : Error
  wrong_password : Error

pub data Result {ℓ} (A : Type ℓ) : Type ℓ where
  ok : A → Result A
  err : Error → Result A

abbrev pub Exec {ℓ} : Type ℓ → Type ℓ → Type ℓ
Exec S A = S → Result A × S

module _ {ℓ} {S A : Type ℓ} where
  abbrev pub pure : A → Exec S A
  pure a s = (ok a, s)

  abbrev pub raise : Error → Exec S A
  raise e s = (err e, s)

  abbrev pub lift : Result A → Exec S A
  lift r s = (r, s)

  abbrev pub gets : (S → A) → Exec S A
  gets f s = (ok (f s), s)

module _ {ℓ} {S A B : Type ℓ} where
  abbrev pub continue : Result A → (A → Exec S B) → Exec S B
  continue (ok a) f s = f a s
  continue (err e) f s = (err e, s)

  infixl 10 ◌>>=◌ ◌>>◌
  abbrev pub ◌>>=◌ : Exec S A → (A → Exec S B) → Exec S B
  ◌>>=◌ m f s = let (r, s') = m s in continue r f s'

  abbrev pub ◌>>◌ : Exec S A → Exec S B → Exec S B
  m >> n = m >>= λ _. n

module _ {ℓ} {S A : Type ℓ} where
  -- The error as a value: what the program does when it looks at an error and goes on.
  abbrev pub attempt : Exec S A → Exec S (Result A)
  attempt m s = let (r, s') = m s in (ok r, s')

  abbrev pub undone : Result A → Exec S (Unit {ℓ}) → S → Result A × S
  undone (ok a) cleanup s = (ok a, s)
  undone (err e) cleanup s = (err e, (cleanup s).1)

  -- On an error, clean up without looking at how that ends, and return the error.
  abbrev pub or_else_undo : Exec S A → Exec S (Unit {ℓ}) → Exec S A
  or_else_undo m cleanup s = let (r, s') = m s in undone r cleanup s'

-- Going on with the value of a result.
abbrev pub with_ok {ℓ} : {A B : Type ℓ} → Result A → (A → Result B) → Result B
with_ok (ok a) f = f a
with_ok (err e) f = err e

abbrev pub failing_with {ℓ} : {A : Type ℓ} → (Error → Error) → Result A → Result A
failing_with f (ok a) = ok a
failing_with f (err e) = err (f e)

module _ {ℓ} {S A : Type ℓ} where
  -- fmt.Errorf with %w
  abbrev pub wrap : (Error → Error) → Exec S A → Exec S A
  wrap f m s = let (r, s') = m s in (failing_with f r, s')

module _ {ℓ} {S A B : Type ℓ} where
  continue_cong :
      (r : Result A) (f g : A → Exec S B) (s : S)
      → ((a : A) → r ≡ ok a → f a s ≡ g a s)
      → continue r f s ≡ continue r g s
  continue_cong (ok a) f g s h = h a refl
  continue_cong (err e) f g s h = refl

  -- Two actions agree that begin alike and go on alike from what the beginning returned.
  pub bind_cong :
      (m : Exec S A) (f g : A → Exec S B) (s : S)
      → ((a : A) → (m s).0 ≡ ok a → f a (m s).1 ≡ g a (m s).1)
      → (m >>= f) s ≡ (m >>= g) s
  bind_cong m f g s h = continue_cong (m s).0 f g (m s).1 h

module _ {ℓ} {S B : Type ℓ} where
  -- Of two actions in a row that succeed, the first one has succeeded.
  pub then_ok :
      (m : Exec S (Unit {ℓ})) (n : Exec S B) (b : B) (s : S)
      → ((m >> n) s).0 ≡ ok b
      → ((m s).0 ≡ ok tt) × ((m >> n) s ≡ n (m s).1)
  then_ok m n b s h = go (m s).0 refl
    where
      refuse : (e : Error) → err e ≡ ok b → ⊥
      refuse e h = cc

      go : (r : Result (Unit {ℓ})) → (m s).0 ≡ r → ((m s).0 ≡ ok tt) × ((m >> n) s ≡ n (m s).1)
      go (ok a) e = (e, rw e refl)
      go (err x) e = absurd (refuse x (rw e at h))

module _ {ℓ} {S : Type ℓ} where
  -- The same for three.
  pub three_ok :
      (a b c : Exec S (Unit {ℓ})) (s : S)
      → ((a >> (b >> c)) s).0 ≡ ok tt
      → ((a s).0 ≡ ok tt)
        × ((b (a s).1).0 ≡ ok tt)
        × ((c (b (a s).1).1).0 ≡ ok tt)
        × ((a >> (b >> c)) s ≡ c (b (a s).1).1)
  three_ok a b c s h =
      let (x, p) = then_ok a (b >> c) tt s h in
      let (y, q) = then_ok b c tt (a s).1 (sym (ap (λ r. r.0) p) ∙ h) in
      (x, y, sym (ap (λ r. r.0) (p ∙ q)) ∙ h, p ∙ q)
