-- ===== src/SafePath/Contained.antt =====
-- What an accepted path is: the root, or the root followed by names that lead nowhere else, none
-- of which is a symlink.
use discodrive_apps.Base.{
  ℕ, ◌≡◌, refl, sym, ap, ◌∙◌, ◌≢◌, ◌⊎◌, inl, inr, true, false, List, [], ◌∷◌, ◌++◌, Str, str_eq,
  str_eq_iff, has_prefix, append_of_has_prefix, All, arith, Bool-cases,
}
use discodrive_apps.Base.Exec.{Error, Result, ok, err, escapes_root, Exec}
use discodrive_apps.Go.FilePath
use discodrive_apps.Go.FilePath.{slash, dot, is_abs, split, clean}
use discodrive_apps.Go.FilePath.Clean.{IsName, below-IsName}
use discodrive_apps.Go.FilePath.Rel.{is_abs-clean, clean-clean, rel-below}
use mathlib.Core.List.{append_assoc}
use discodrive_apps.World.{World, Info}
use discodrive_apps.SafePath.{
  is_not_exist, check_components, no_symlink_components, join, lstat_then, after_lstat, check_rel,
}

-- A path that is accepted below `root`.
abbrev pub Inside : Str → Str → Type 0
Inside root p =
    (p ≡ clean root) ⊎ ((t : Str) × (p ≡ clean root ++ slash ∷ t) × All IsName (split t))

abbrev pub target : Str → Str → Str
target root r = clean (FilePath.join (clean root) r)

is_abs-join : (folder r x : Str) → folder ≡ slash ∷ x → is_abs (FilePath.join folder r) ≡ true
unfolding FilePath.join has_prefix
is_abs-join folder r x e = rw e (is_abs-clean (slash ∷ x ++ slash ∷ r) refl)

below_of_prefix :
    (root r : Str) (a : ℕ) (rest : Str)
    → clean root ≡ slash ∷ a ∷ rest
    → has_prefix (target root r) (clean root ++ slash ∷ []) ≡ true
    → (t : Str) × (target root r ≡ clean root ++ slash ∷ t) × All IsName (split t)
below_of_prefix root r a rest proper k =
    let (t, e) = append_of_has_prefix (target root r) (clean root ++ slash ∷ []) k in
    let e' : target root r ≡ clean root ++ slash ∷ t =
      e ∙ append_assoc (clean root) (slash ∷ []) t in
    (
      t,
      e',
      below-IsName (FilePath.join (clean root) r) (clean root) t a rest
          (is_abs-join (clean root) r (a ∷ rest) proper) proper e',
    )

module _ (W : World) where
  -- The two tests of Join, and the check that follows them.
  pub join-ok :
      (root r : Str) (s : W.State) (p : Str)
      → (join W root r s).0 ≡ ok p
      → (p ≡ target root r)
        × ((str_eq (target root r) (clean root) ≡ true)
            ⊎ (has_prefix (target root r) (clean root ++ slash ∷ []) ≡ true))
        × ((no_symlink_components W (clean root) (target root r) s).0 ≡ ok tt)
  unfolding join
  join-ok root r s p e = ground arith

  -- A path that leaves the root is refused before the file system is asked anything.
  pub join_outside :
      (root r : Str) (s : W.State)
      → str_eq (target root r) (clean root) ≡ false
      → has_prefix (target root r) (clean root ++ slash ∷ []) ≡ false
      → join W root r s ≡ (err (escapes_root r), s)
  unfolding join
  join_outside root r s h k = rw (h, k)

  -- An accepted path is the cleaned root, or the cleaned root, a slash, and elements none of which
  -- is empty, `.` or `..`. The root is absolute, and cleaned it is not `/`.
  pub join-Inside :
      (root r : Str) (s : W.State) (p : Str) (a : ℕ) (rest : Str)
      → clean root ≡ slash ∷ a ∷ rest
      → (join W root r s).0 ≡ ok p
      → Inside root p
  join-Inside root r s p a rest proper e =
      let (same, where_, _) = join-ok root r s p e in
      elim where_ [
        | inl k ↦ inl (same ∙ (str_eq_iff _ _).0 k)
        | inr k ↦
            let (t, e', names) = below_of_prefix root r a rest proper k in inr (t, same ∙ e', names)
      ]

-- The paths of the components of a path below `cur`.
abbrev pub prefixes : Str → List Str → List Str
prefixes cur [] = []
prefixes cur (part ∷ parts) = FilePath.join cur part ∷ prefixes (FilePath.join cur part) parts

-- What Join relies on in the file system: a Lstat changes nothing, and nothing is below what is
-- not there.
pub record IsTree (W : World) (s : W.State) : Type 0 where
  pub still : (p : Str) → (W.lstat p s).1 ≡ s
  pub below :
      (p part : Str) (e : Error)
      → (W.lstat p s).0 ≡ err e
      → is_not_exist e ≡ true
      → (e' : Error) × ((W.lstat (FilePath.join p part) s).0 ≡ err e') × (is_not_exist e' ≡ true)

not_dot_of_names : (t : Str) → All IsName (split t) → str_eq t dot ≡ false
unfolding split str_eq
not_dot_of_names t names = elim (Bool-cases (str_eq t dot)) [
  | inl e ↦ cc ((rw ((str_eq_iff t dot).0 e) at names).0.not_dot)
  | inr e ↦ e
]

module _ (W : World) (s : W.State) where
  abbrev pub NotLink : Str → Type 0
  NotLink p = (fi : Info) → (W.lstat p s).0 ≡ ok fi → fi.is_symlink ≡ false

  NotLink-below :
      IsTree W s
      → (cur : Str) (parts : List Str) (e : Error) → (W.lstat cur s).0 ≡ err e
      → is_not_exist e ≡ true
      → All NotLink (prefixes cur parts)
  NotLink-below tree cur [] e h k = tt
  NotLink-below tree cur (part ∷ parts) e h k =
      let (e', h', k') = tree.below cur part e h k in
      ((λ fi found. cc), NotLink-below tree (FilePath.join cur part) parts e' h' k')

  -- A check of one component that passes: it is there and no symlink, or it is not there.
  after_lstat-cases :
      (cur : Str) (next : Exec W.State (Unit {0})) (r : Result Info) (s' : W.State)
      → s' ≡ s
      → (after_lstat W cur next r s').0 ≡ ok tt
      → ((fi : Info) × (r ≡ ok fi) × (fi.is_symlink ≡ false) × ((next s).0 ≡ ok tt))
        ⊎ ((e : Error) × (r ≡ err e) × (is_not_exist e ≡ true))
  after_lstat-cases cur next (ok fi) s' same h = elim (Bool-cases fi.is_symlink) [
    | inl e ↦ absurd (ground arith)
    | inr e ↦ inl (fi, refl, e, ground arith)
  ]
  after_lstat-cases cur next (err e) s' same h = inr (e, refl, ground arith)

  check_components-NotLink :
      IsTree W s
      → (cur : Str) (parts : List Str) → All IsName parts
      → (check_components W cur parts s).0 ≡ ok tt
      → All NotLink (prefixes cur parts)
  unfolding check_components
  check_components-NotLink tree cur [] names e = tt
  check_components-NotLink tree cur (part ∷ parts) (n, names) e =
      let below = FilePath.join cur part in
      let passed : (lstat_then W below (check_components W below parts) s).0 ≡ ok tt =
        rw (n.not_empty, n.not_dot) at e in
      elim (after_lstat-cases below (check_components W below parts) (W.lstat below s).0
        (W.lstat below s).1 (tree.still below) passed) [
          | inl (fi, there, plain, rest) ↦
              ((λ gi found. cc), check_components-NotLink tree below parts names rest)
          | inr (e', missing, k) ↦ ((λ gi found. cc), NotLink-below tree below parts e' missing k)
        ]

  pub no_symlink_components-below :
      (root t : Str)
      → is_abs root ≡ true
      → clean root ≢ slash ∷ []
      → All IsName (split t)
      → no_symlink_components W (clean root) (clean root ++ slash ∷ t) s
        ≡ check_rel W (clean root) t s
  unfolding no_symlink_components
  no_symlink_components-below root t h proper names =
      rw (clean-clean root h, rel-below root t h proper names)

  pub check_rel-names :
      (root t : Str)
      → All IsName (split t)
      → check_rel W root t s ≡ check_components W root (split t) s
  check_rel-names root t names = rw (not_dot_of_names t names)

  -- No component below the root of an accepted path is a symlink. The root is absolute, cleaned it is
  -- not `/`, looking at a path changes nothing, and below a path that does not exist nothing exists.
  pub join-NotLink :
      IsTree W s
      → (root r t : Str) (a : ℕ) (rest : Str) → is_abs root ≡ true
      → clean root ≡ slash ∷ a ∷ rest
      → (join W root r s).0 ≡ ok (clean root ++ slash ∷ t)
      → All NotLink (prefixes (clean root) (split t))
  join-NotLink tree root r t a rest h proper e =
      let (same, _, checked) = join-ok W root r s (clean root ++ slash ∷ t) e in
      let names : All IsName (split t) =
        below-IsName (FilePath.join (clean root) r) (clean root) t a rest
          (is_abs-join (clean root) r (a ∷ rest) proper) proper (sym same) in
      let walked : no_symlink_components W (clean root) (target root r) s
          ≡ check_components W (clean root) (split t) s =
        ap (λ q. no_symlink_components W (clean root) q s) (sym same)
        ∙ no_symlink_components-below root t h (λ k. cc) names
        ∙ check_rel-names (clean root) t names in
      check_components-NotLink tree (clean root) (split t) names
        (sym (ap (λ x. x.0) walked) ∙ checked)
