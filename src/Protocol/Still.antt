-- ===== src/Protocol/Still.antt =====
-- What the client does with the caller's reader leaves the network alone.
use discodrive_apps.Base.{ℕ, zero, suc, ◌≡◌, refl, ◌∙◌, Bool, true, false, if◌then◌else◌}
use discodrive_apps.Base.Exec.{Result, ok, err, Exec, pure, lift, gets, attempt, continue, ◌>>=◌}
use discodrive_apps.Protocol.{Http, Session, Reader}
use discodrive_apps.Protocol.Files.{
  Body, rewound, buffered, reader_works, at_offset, read_all, measure, buffer, measured,
  replayable_body, new_body,
}

module _ (H : Http) where
  pub record Still {A : Type 0} (m : Exec (Session H) A) : Type 0 where
    pub at : (s : Session H) → (m s).1.http ≡ s.http
    pub token : (s : Session H) → (m s).1.jwt ≡ s.jwt

  module _ {A : Type 0} where
    pub Still-pure : (a : A) → Still (pure a)
    Still-pure a = record { at = λ s. refl; token = λ s. refl }

    pub Still-lift : (r : Result A) → Still (lift r)
    Still-lift r = record { at = λ s. refl; token = λ s. refl }

    pub Still-gets : (f : Session H → A) → Still (gets f)
    Still-gets f = record { at = λ s. refl; token = λ s. refl }

    pub Still-attempt : (m : Exec (Session H) A) → Still m → Still (attempt m)
    Still-attempt m k = record { at = λ s. k.at s; token = λ s. k.token s }

    pub Still-if :
        (b : Bool) (m n : Exec (Session H) A) → Still m → Still n → Still (if b then m else n)
    Still-if true m n k l = k
    Still-if false m n k l = l

  module _ {A B : Type 0} where
    continue-http :
        (r : Result A) (f : A → Exec (Session H) B) (s : Session H)
        → ((a : A) → Still (f a))
        → (continue r f s).1.http ≡ s.http
    continue-http (ok a) f s h = (h a).at s
    continue-http (err e) f s h = refl

    continue-jwt :
        (r : Result A) (f : A → Exec (Session H) B) (s : Session H)
        → ((a : A) → Still (f a))
        → (continue r f s).1.jwt ≡ s.jwt
    continue-jwt (ok a) f s h = (h a).token s
    continue-jwt (err e) f s h = refl

    pub Still-bind :
        (m : Exec (Session H) A) (f : A → Exec (Session H) B)
        → Still m
        → ((a : A) → Still (f a))
        → Still (m >>= f)
    Still-bind m f k h = record {
      at = λ s. continue-http (m s).0 f (m s).1 h ∙ k.at s;
      token = λ s. continue-jwt (m s).0 f (m s).1 h ∙ k.token s;
    }

  Still-reader_works : Still (reader_works H)
  unfolding reader_works
  Still-reader_works = record { at = λ s. refl; token = λ s. refl }

  Still-at_offset : (f : Reader → ℕ) → Still (at_offset H f)
  unfolding at_offset
  Still-at_offset f = record { at = λ s. refl; token = λ s. refl }

  ruleset still_rules = (
    Still-pure, Still-lift, Still-gets, Still-attempt, Still-if, Still-bind, Still-reader_works,
    Still-at_offset,
  )

  pub Still-read_all : Still (read_all H)
  unfolding read_all
  Still-read_all = search still_rules

  Still-buffer : Still (buffer H)
  unfolding buffer
  Still-buffer = search (still_rules, Still-read_all)

  Still-measure : Still (measure H)
  unfolding measure
  Still-measure = search still_rules

  Still-measured : (r : Result (Body × ℕ)) → Still (measured H r)
  Still-measured (ok b) = Still-pure b
  Still-measured (err e) = Still-buffer

  pub Still-replayable_body : Still (replayable_body H)
  unfolding replayable_body
  Still-replayable_body = search (still_rules, Still-buffer, Still-measure, Still-measured)

  pub Still-new_body : (b : Body) (n : ℕ) → Still (new_body H b n)
  unfolding new_body
  Still-new_body (buffered bytes) n = search still_rules
  Still-new_body (rewound start) zero = search still_rules
  Still-new_body (rewound start) (suc n) = search still_rules
