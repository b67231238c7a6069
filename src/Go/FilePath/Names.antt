-- ===== src/Go/FilePath/Names.antt =====
-- Paths that are names with slashes between them: Join leaves them as they are.
use mathlib.Core.List.{append_assoc}
use discodrive_apps.Base.{
  ℕ, ◌<◌, ◌≡◌, refl, sym, ap, ◌∙◌, true, false, Bool-cases, inl, inr, List, [], ◌∷◌, ◌++◌, Str, All,
  All-append, length, str_eq, str_eq_iff, ◌==◌, has_prefix, arith,
}
use discodrive_apps.Go.FilePath
use discodrive_apps.Go.FilePath.{
  slash, dot, dot_dot, split, join_elements, resolve, elements, clean, is_abs,
}
use discodrive_apps.Go.FilePath.Clean.{
  IsName, has_slash, split-append_slash, split_of_Plain, resolve_names, join-split,
}

abbrev pub NoSlash : ℕ → Type 0
NoSlash c = (c == slash) ≡ false

pub has_slash-NoSlash : (e : Str) → All NoSlash e → has_slash e ≡ false
has_slash-NoSlash [] h = refl
has_slash-NoSlash (c ∷ e) (h, t) = rw h (has_slash-NoSlash e t)

not_equal : (a b : Str) → (length a ≡ length b → ⊥) → str_eq a b ≡ false
not_equal a b h = elim (Bool-cases (str_eq a b)) [
  | inl e ↦ absurd (h (ap length ((str_eq_iff a b).0 e)))
  | inr e ↦ e
]

-- A text of three bytes or more without a slash is a name.
pub long-IsName : (e : Str) → All NoSlash e → 2 < length e → IsName e
long-IsName e h l = record {
  not_empty = not_equal e [] (λ k. omega arith);
  not_dot = not_equal e dot (λ k. omega arith);
  not_dot_dot = not_equal e dot_dot (λ k. omega arith);
  no_slash = has_slash-NoSlash e h;
}

-- So is one that does not begin with a dot.
pub plain-IsName : (c : ℕ) (e : Str) → (c == 46) ≡ false → All NoSlash (c ∷ e) → IsName (c ∷ e)
unfolding str_eq
plain-IsName c e d h = record {
  not_empty = refl;
  not_dot = rw d refl;
  not_dot_dot = rw d refl;
  no_slash = has_slash-NoSlash (c ∷ e) h;
}

nameless : IsName [] → ⊥
unfolding str_eq
nameless n = refuse n.not_empty
  where
    refuse : true ≡ false → ⊥
    refuse h = cc

names-relative : (c : ℕ) (s : Str) → All IsName (split (c ∷ s)) → is_abs (c ∷ s) ≡ false
unfolding split str_eq has_prefix
names-relative c s h = elim (Bool-cases (c == slash)) [
  | inl e ↦ absurd (nameless (heads (split s) (rw e at h)))
  | inr e ↦ rw e
]
  where
    heads : (es : List Str) → All IsName ([] ∷ es) → IsName []
    heads es h = h.0

pub clean-names : (c : ℕ) (s : Str) → All IsName (split (c ∷ s)) → clean (c ∷ s) ≡ c ∷ s
unfolding clean elements
clean-names c s h =
    rw (names-relative c s h, resolve_names false [] (split (c ∷ s)) h, join-split (c ∷ s))

pub split-below : (a b : Str) → IsName b → split (a ++ slash ∷ b) ≡ split a ++ b ∷ []
split-below a b k = split-append_slash a b ∙ rw (split_of_Plain b k.no_slash)

pub below-names :
    (a b : Str) → All IsName (split a) → IsName b → All IsName (split (a ++ slash ∷ b))
below-names a b h k = rw (split-below a b k) (All-append IsName (split a) (b ∷ []) h (k, tt))

-- Join of a path of names and a name.
pub join_names : (a b : Str) → All IsName (split a) → IsName b → FilePath.join a b ≡ a ++ slash ∷ b
unfolding FilePath.join split str_eq
join_names [] b h k = absurd (nameless h.0)
join_names (c ∷ a) b h k = clean-names c (a ++ slash ∷ b) (below-names (c ∷ a) b h k)

-- Join of two paths of names.
pub join_paths :
    (a b : Str) → All IsName (split a) → All IsName (split b) → FilePath.join a b ≡ a ++ slash ∷ b
unfolding FilePath.join split str_eq
join_paths [] b h k = absurd (nameless h.0)
join_paths (c ∷ a) b h k =
    clean-names c (a ++ slash ∷ b)
      (rw (split-append_slash (c ∷ a) b) (All-append IsName (split (c ∷ a)) (split b) h k))

pub join_three :
    (a b c : Str)
    → All IsName (split a)
    → IsName b
    → IsName c
    → FilePath.join a (b ++ slash ∷ c) ≡ FilePath.join (FilePath.join a b) c
join_three a b c h k l =
    let one : All IsName (split b) = rw (split_of_Plain b k.no_slash) (k, tt) in
    join_paths a (b ++ slash ∷ c) h (below-names b c one l)
    ∙ sym (append_assoc a (slash ∷ b) (slash ∷ c))
    ∙ rw (join_names a b h k, join_names (a ++ slash ∷ b) c (below-names a b h k) l) refl
