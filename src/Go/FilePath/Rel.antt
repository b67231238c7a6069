-- ===== src/Go/FilePath/Rel.antt =====
-- Cleaning twice, and the way from a cleaned folder to a path of names below it.
use discodrive_apps.Base.{
  ◌≡◌, refl, sym, ap, ◌∙◌, ◌≢◌, true, List, [], ◌∷◌, ◌++◌, Str, str_eq, str_eq_self, has_prefix,
  All, All-append,
}
use discodrive_apps.Base.Exec.{ok}
use discodrive_apps.Go.FilePath.{
  slash, split, join_elements, is_abs, resolve, elements, clean, rel, rel_elements, joined, or_dot,
}
use discodrive_apps.Go.FilePath.Clean.{
  IsName, resolve_names, elements-IsName, clean-rooted, split-clean, one_empty, split-append_slash,
  join-split,
}

pub is_abs-clean : (s : Str) → is_abs s ≡ true → is_abs (clean s) ≡ true
unfolding has_prefix
is_abs-clean s h = rw (clean-rooted s h)

resolve-names-cons : (es : List Str) → All IsName es → resolve true [] ([] ∷ es) ≡ es
unfolding resolve str_eq
resolve-names-cons es h = resolve_names true [] es h

elements_of :
    (s : Str) (parts : List Str)
    → is_abs s ≡ true
    → split s ≡ parts
    → elements s ≡ resolve true [] parts
unfolding elements
elements_of s parts h e = rw (h, e)

resolve-one_empty : (es : List Str) → All IsName es → resolve true [] ([] ∷ one_empty es) ≡ es
unfolding resolve str_eq
resolve-one_empty [] h = refl
resolve-one_empty (e ∷ es) h = resolve_names true [] (e ∷ es) h

pub elements-clean : (s : Str) → is_abs s ≡ true → elements (clean s) ≡ elements s
elements-clean s h =
    let opened : elements (clean s) ≡ resolve true [] ([] ∷ one_empty (elements s)) =
      elements_of (clean s) _ (is_abs-clean s h) (split-clean s h) in
    opened ∙ resolve-one_empty (elements s) (elements-IsName s h)

pub clean-clean : (s : Str) → is_abs s ≡ true → clean (clean s) ≡ clean s
clean-clean s h =
    clean-rooted (clean s) (is_abs-clean s h) ∙ rw (elements-clean s h) (sym (clean-rooted s h))

rel_elements-append : (es ts : List Str) → rel_elements es (es ++ ts) ≡ ok ts
unfolding rel_elements
rel_elements-append [] ts = refl
rel_elements-append (e ∷ es) ts = rw (str_eq_self e) (rel_elements-append es ts)

below_elements :
    (es : List Str) (folder t : Str)
    → All IsName es
    → folder ≡ slash ∷ join_elements es
    → split folder ≡ [] ∷ one_empty es
    → folder ≢ slash ∷ []
    → All IsName (split t)
    → elements (folder ++ slash ∷ t) ≡ es ++ split t
unfolding has_prefix join_elements
below_elements [] folder t h f parts proper names = absurd (proper f)
below_elements (e ∷ es) folder t h f parts proper names =
    elements_of (folder ++ slash ∷ t) ([] ∷ (e ∷ es) ++ split t) (rw f)
      (split-append_slash folder t ∙ rw parts)
    ∙ resolve-names-cons ((e ∷ es) ++ split t) (All-append IsName (e ∷ es) (split t) h names)

elements-below :
    (root t : Str)
    → is_abs root ≡ true
    → clean root ≢ slash ∷ []
    → All IsName (split t)
    → elements (clean root ++ slash ∷ t) ≡ elements root ++ split t
elements-below root t h proper names =
    below_elements (elements root) (clean root) t (elements-IsName root h) (clean-rooted root h)
      (split-clean root h) proper names

or_dot-names : (t : Str) → All IsName (split t) → or_dot t ≡ t
unfolding split str_eq
or_dot-names [] h = cc (h.0.not_empty)
or_dot-names (c ∷ t) h = refl

rel_of_abs :
    (b t : Str)
    → is_abs b ≡ true
    → is_abs t ≡ true
    → rel b t ≡ joined (rel_elements (elements b) (elements t))
unfolding rel
rel_of_abs b t h k = rw (h, k)

-- The way from a cleaned folder to names below it is those names.
pub rel-below :
    (root t : Str)
    → is_abs root ≡ true
    → clean root ≢ slash ∷ []
    → All IsName (split t)
    → rel (clean root) (clean root ++ slash ∷ t) ≡ ok t
rel-below root t h proper names =
    let below : is_abs (clean root ++ slash ∷ t) ≡ true =
      unfold has_prefix in rw (clean-rooted root h) in
    rel_of_abs (clean root) (clean root ++ slash ∷ t) (is_abs-clean root h) below
    ∙ rw
        (
          elements-clean root h,
          elements-below root t h proper names,
          rel_elements-append,
          join-split t,
        )
        (ap ok (or_dot-names t names))
