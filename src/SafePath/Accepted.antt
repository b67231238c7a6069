-- ===== src/SafePath/Accepted.antt =====
-- The paths that are accepted.
use discodrive_apps.Base.{
  ℕ, ◌≡◌, refl, sym, ap, ◌∙◌, ◌⊎◌, inl, inr, true, false, List, [], ◌∷◌, ◌++◌, Str, str_eq,
  has_prefix, has_prefix-append, All, Bool-cases,
}
use discodrive_apps.Base.Exec.{Error, ok, err}
use discodrive_apps.Go.FilePath
use discodrive_apps.Go.FilePath.{slash, is_abs, split, clean}
use discodrive_apps.Go.FilePath.Clean.{IsName, clean-below_names}
use mathlib.Core.List.{append_assoc}
use discodrive_apps.World.{World, Info}
use discodrive_apps.SafePath.{is_not_exist, check_components, no_symlink_components, join}
use discodrive_apps.SafePath.Contained.{
  target, prefixes, no_symlink_components-below, check_rel-names,
}

module _ (W : World) (s : W.State) (still : (p : Str) → (W.lstat p s).1 ≡ s) where
  -- There and no symlink, or not there.
  abbrev pub Passable : Str → Type 0
  Passable p =
      ((fi : Info) × ((W.lstat p s).0 ≡ ok fi) × (fi.is_symlink ≡ false))
      ⊎ ((e : Error) × ((W.lstat p s).0 ≡ err e) × (is_not_exist e ≡ true))

  check_components-Passable :
      (cur : Str) (parts : List Str)
      → All IsName parts
      → All Passable (prefixes cur parts)
      → check_components W cur parts s ≡ (ok tt, s)
  unfolding check_components
  check_components-Passable cur [] names h = refl
  check_components-Passable cur (part ∷ parts) (n, names) (inl (fi, there, plain), h) =
      let below = FilePath.join cur part in
      rw (n.not_empty, n.not_dot, there, still below, plain)
        (check_components-Passable below parts names h)
  check_components-Passable cur (part ∷ parts) (n, names) (inr (e, missing, k), h) =
      let below = FilePath.join cur part in rw (n.not_empty, n.not_dot, missing, still below, k)

  target-names :
      (root t : Str) (a : ℕ) (rest : Str)
      → is_abs root ≡ true
      → clean root ≡ slash ∷ a ∷ rest
      → All IsName (split t)
      → target root t ≡ clean root ++ slash ∷ t
  target-names root t a rest h proper names =
      let once : clean (clean root ++ slash ∷ t) ≡ clean root ++ slash ∷ t =
        clean-below_names root t h names (λ k. cc) in
      let joined : FilePath.join (clean root) t ≡ clean (clean root ++ slash ∷ t) =
        unfold FilePath.join in rw proper in
      ap clean (joined ∙ once) ∙ once

  -- A path of names (none is empty, `.` or `..`) is accepted unchanged, below the cleaned root, if each of
  -- its components is there and no symlink, or is not there. The root is absolute, cleaned it is not `/`,
  -- and looking at a path changes nothing.
  pub join-Passable :
      (root t : Str) (a : ℕ) (rest : Str)
      → is_abs root ≡ true
      → clean root ≡ slash ∷ a ∷ rest
      → All IsName (split t)
      → All Passable (prefixes (clean root) (split t))
      → join W root t s ≡ (ok (clean root ++ slash ∷ t), s)
  unfolding join
  join-Passable root t a rest h proper names free =
      let same = target-names root t a rest h proper names in
      let inside : has_prefix (clean root ++ slash ∷ t) (clean root ++ slash ∷ []) ≡ true =
        ap (λ q. has_prefix q (clean root ++ slash ∷ []))
          (sym (append_assoc (clean root) (slash ∷ []) t))
        ∙ has_prefix-append (clean root ++ slash ∷ []) t in
      let walked : no_symlink_components W (clean root) (clean root ++ slash ∷ t) s ≡ (ok tt, s) =
        no_symlink_components-below W s root t h (λ k. cc) names
        ∙ check_rel-names W s (clean root) t names
        ∙ check_components-Passable (clean root) (split t) names free in
      elim (Bool-cases (str_eq (clean root ++ slash ∷ t) (clean root))) [
        | inl e ↦ rw (same, inside, e, walked)
        | inr e ↦ rw (same, inside, e, walked)
      ]
