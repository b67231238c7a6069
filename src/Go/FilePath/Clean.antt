-- ===== src/Go/FilePath/Clean.antt =====
-- What Clean leaves of a rooted path: names only, no empty element, no `.` and no `..`.
use mathlib.Core.List.{reverse, reverse-cons, reverse-reverse, append_assoc, append-nil}
use discodrive_apps.Base.{
  ℕ, ◌≡◌, refl, sym, ap, ◌∙◌, ◌≢◌, inl, inr, Bool, true, false, ◌||◌, List, [], ◌∷◌, ◌++◌, Str,
  str_eq, ◌==◌, has_prefix, All, All-append, arith, Bool-cases,
}
use discodrive_apps.Go.FilePath.{
  slash, dot, dot_dot, cons_head, split, join_elements, is_abs, up, resolve, elements, clean, enter,
}

abbrev pub has_slash : Str → Bool
has_slash [] = false
has_slash (c ∷ s) = (c == slash) || has_slash s

-- An element that names an entry of a directory.
pub record IsName (e : Str) : Type 0 where
  pub not_empty : str_eq e [] ≡ false
  pub not_dot : str_eq e dot ≡ false
  pub not_dot_dot : str_eq e dot_dot ≡ false
  pub no_slash : has_slash e ≡ false

abbrev pub Plain : Str → Type 0
Plain e = has_slash e ≡ false

pub split_nonempty : (s : Str) → (e : Str) × (es : List Str) × (split s ≡ e ∷ es)
unfolding split
split_nonempty [] = ([], [], refl)
split_nonempty (c ∷ s) =
    let (e, es, h) = split_nonempty s in
    elim (Bool-cases (c == slash)) [ inl t ↦ ([], split s, rw t) | inr t ↦ (c ∷ e, es, rw (t, h)) ]

pub split-append_slash : (a b : Str) → split (a ++ slash ∷ b) ≡ split a ++ split b
unfolding split
split-append_slash [] b = refl
split-append_slash (c ∷ a) b =
    let (e, es, h) = split_nonempty a in
    elim (Bool-cases (c == slash)) [
      | inl t ↦ rw (t, split-append_slash a b)
      | inr t ↦ rw (t, split-append_slash a b, h)
    ]

All-cons_head :
    (c : ℕ) (es : List Str) → (c == slash) ≡ false → All Plain es → All Plain (cons_head c es)
All-cons_head c [] n h = ground arith
All-cons_head c (e ∷ es) n h = (ground arith, h.1)

pub split-Plain : (s : Str) → All Plain (split s)
unfolding split
split-Plain [] = (refl, tt)
split-Plain (c ∷ s) = elim (Bool-cases (c == slash)) [
  | inl e ↦ rw e (refl, split-Plain s)
  | inr e ↦ rw e (All-cons_head c (split s) e (split-Plain s))
]

pub split_of_Plain : (e : Str) → Plain e → split e ≡ e ∷ []
unfolding split
split_of_Plain [] h = refl
split_of_Plain (c ∷ e) h = ground (arith, split_of_Plain e)

pub split-join_elements :
    (e : Str) (es : List Str) → All Plain (e ∷ es) → split (join_elements (e ∷ es)) ≡ e ∷ es
unfolding join_elements
split-join_elements e [] h = split_of_Plain e h.0
split-join_elements e (f ∷ es) h =
    split-append_slash e (join_elements (f ∷ es))
    ∙ rw (split_of_Plain e h.0, split-join_elements f es h.1)

All-reverse : (P : Str → Type 0) (xs : List Str) → All P xs → All P (reverse xs)
All-reverse P [] h = tt
All-reverse P (x ∷ xs) h =
    rw reverse-cons (All-append P (reverse xs) (x ∷ []) (All-reverse P xs h.1) (h.0, tt))

up-IsName : (es : List Str) → All IsName es → All IsName (up true es)
up-IsName [] h = tt
up-IsName (e ∷ es) h = rw (h.0.not_dot_dot) h.1

pub resolve-IsName :
    (done es : List Str) → All IsName done → All Plain es → All IsName (resolve true done es)
unfolding resolve
resolve-IsName done [] h p = All-reverse IsName done h
resolve-IsName done (e ∷ es) h p = elim (Bool-cases (str_eq e [] || str_eq e dot)) [
  | inl skip ↦ rw skip (resolve-IsName done es h p.1)
  | inr name ↦ rw name (elim (Bool-cases (str_eq e dot_dot)) [
    | inl back ↦ rw back (resolve-IsName (up true done) es (up-IsName done h) p.1)
    | inr keeps ↦ rw keeps (
        resolve-IsName (e ∷ done) es
          (
            record {
              not_empty = ground arith;
              not_dot = ground arith;
              not_dot_dot = keeps;
              no_slash = p.0;
            },
            h,
          )
          p.1)
  ])
]

pub elements-IsName : (s : Str) → is_abs s ≡ true → All IsName (elements s)
unfolding elements
elements-IsName s h = rw h (resolve-IsName [] (split s) tt (split-Plain s))

Plain-of_IsName : (es : List Str) → All IsName es → All Plain es
Plain-of_IsName [] h = tt
Plain-of_IsName (e ∷ es) h = (h.0.no_slash, Plain-of_IsName es h.1)

-- Clean of a rooted path is a slash and then names, with a slash between any two of them.
pub clean-rooted : (s : Str) → is_abs s ≡ true → clean s ≡ slash ∷ join_elements (elements s)
unfolding clean
clean-rooted s h = rw h

abbrev pub one_empty : List Str → List Str
one_empty [] = [] ∷ []
one_empty (e ∷ es) = e ∷ es

split-join_names :
    (es : List Str) → All IsName es → split (slash ∷ join_elements es) ≡ [] ∷ one_empty es
unfolding split
split-join_names [] h = unfold join_elements in refl
split-join_names (e ∷ es) h = rw (split-join_elements e es (Plain-of_IsName (e ∷ es) h))

-- The elements of a cleaned path.
pub split-clean : (s : Str) → is_abs s ≡ true → split (clean s) ≡ [] ∷ one_empty (elements s)
split-clean s h = rw (clean-rooted s h) (split-join_names (elements s) (elements-IsName s h))

All-right : (P : Str → Type 0) (xs ys zs : List Str) → xs ++ ys ≡ zs → All P zs → All P ys
All-right P [] ys zs e h = rw e h
All-right P (x ∷ xs) ys [] e h = cc
All-right P (x ∷ xs) ys (z ∷ zs) e h = All-right P xs ys zs (cc) h.1

below_cases :
    (es : List Str) (folder t : Str) (a : ℕ) (rest : Str)
    → All IsName es
    → folder ≡ slash ∷ a ∷ rest
    → slash ∷ join_elements es ≡ folder ++ slash ∷ t
    → split folder ++ split t ≡ [] ∷ one_empty es
    → All IsName (split t)
unfolding join_elements
below_cases [] folder t a rest h f e parts = cc
below_cases (x ∷ xs) folder t a rest h f e parts =
    let (g, gs, k) = split_nonempty folder in All-right IsName gs (split t) (x ∷ xs) (cc) h

-- Below a folder other than the root of the file system, the rest of a cleaned path is names.
pub below-IsName :
    (s folder t : Str) (a : ℕ) (rest : Str)
    → is_abs s ≡ true
    → folder ≡ slash ∷ a ∷ rest
    → clean s ≡ folder ++ slash ∷ t
    → All IsName (split t)
below-IsName s folder t a rest h f e =
    below_cases (elements s) folder t a rest (elements-IsName s h) f (sym (clean-rooted s h) ∙ e)
      (sym (split-append_slash folder t) ∙ ap split (sym e) ∙ split-clean s h)

pub resolve_names :
    (rooted : Bool) (done es : List Str)
    → All IsName es
    → resolve rooted done es ≡ reverse done ++ es
unfolding resolve
resolve_names rooted done [] h = sym (append-nil (reverse done))
resolve_names rooted done (e ∷ es) (n, h) =
    rw (n.not_empty, n.not_dot, n.not_dot_dot)
      (resolve_names rooted (e ∷ done) es h ∙ rw (reverse-cons, append_assoc))

resolve-append :
    (rooted : Bool) (done xs ys : List Str)
    → resolve rooted done (xs ++ ys) ≡ resolve rooted (reverse (resolve rooted done xs)) ys
unfolding resolve
resolve-append rooted done [] ys = rw reverse-reverse
resolve-append rooted done (x ∷ xs) ys = resolve-append rooted (enter rooted done x) xs ys

join_elements-append :
    (x y : Str) (xs ys : List Str)
    → join_elements ((x ∷ xs) ++ y ∷ ys) ≡ join_elements (x ∷ xs) ++ slash ∷ join_elements (y ∷ ys)
unfolding join_elements
join_elements-append x y [] ys = refl
join_elements-append x y (z ∷ xs) ys =
    rw (join_elements-append z y xs ys)
      (sym (append_assoc x (slash ∷ join_elements (z ∷ xs)) (slash ∷ join_elements (y ∷ ys))))

join-cons_head :
    (c : ℕ) (e : Str) (es : List Str)
    → join_elements (cons_head c (e ∷ es)) ≡ c ∷ join_elements (e ∷ es)
unfolding join_elements
join-cons_head c e [] = refl
join-cons_head c e (f ∷ es) = refl

join-nil-cons :
    (e : Str) (es : List Str) → join_elements ([] ∷ e ∷ es) ≡ slash ∷ join_elements (e ∷ es)
unfolding join_elements
join-nil-cons e es = refl

pub join-split : (s : Str) → join_elements (split s) ≡ s
unfolding split
join-split [] = unfold join_elements in refl
join-split (c ∷ s) =
    let (e, es, h) = split_nonempty s in
    let tail : join_elements (e ∷ es) ≡ s = rw h at (join-split s) in
    elim (Bool-cases (c == slash)) [
      | inl t ↦ rw (t, h, join-nil-cons e es, tail) (ground arith)
      | inr t ↦ rw (t, h, join-cons_head c e es, tail)
    ]

pub clean_names :
    (x : Str) (names : List Str)
    → is_abs x ≡ true
    → split x ≡ [] ∷ names
    → All IsName names
    → clean x ≡ slash ∷ join_elements names
unfolding elements str_eq
clean_names x names a e h =
    clean-rooted x a
    ∙ ap (λ es. slash ∷ join_elements es) (rw (a, e) (resolve_names true [] names h))

clean_below :
    (es : List Str) (folder t : Str)
    → All IsName es
    → folder ≡ slash ∷ join_elements es
    → split folder ≡ [] ∷ one_empty es
    → All IsName (split t)
    → folder ≢ slash ∷ []
    → clean (folder ++ slash ∷ t) ≡ folder ++ slash ∷ t
unfolding has_prefix
clean_below [] folder t h f parts names proper = absurd (proper (unfold join_elements in f))
clean_below (e ∷ es) folder t h f parts names proper =
    let (u, us, k) = split_nonempty t in
    let tail : join_elements (u ∷ us) ≡ t = rw k at (join-split t) in
    clean_names (folder ++ slash ∷ t) ((e ∷ es) ++ split t) (rw f)
      (split-append_slash folder t ∙ rw parts) (All-append IsName (e ∷ es) (split t) h names)
    ∙ rw (k, join_elements-append, tail, f)

-- Clean leaves a cleaned folder with names below it as it is.
pub clean-below_names :
    (root t : Str)
    → is_abs root ≡ true
    → All IsName (split t)
    → clean root ≢ slash ∷ []
    → clean (clean root ++ slash ∷ t) ≡ clean root ++ slash ∷ t
clean-below_names root t h names proper =
    clean_below (elements root) (clean root) t (elements-IsName root h) (clean-rooted root h)
      (split-clean root h) names proper
