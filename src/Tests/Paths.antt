-- ===== src/Tests/Paths.antt =====
-- Accepted paths, at files below the root of the test device.
use discodrive_apps.Base.{
  inl, inr, true, false, Bool-cases, ◌≡◌, ◌≢◌, refl, arith, [], ◌∷◌, ◌++◌, Str, codes, All, str_eq,
  has_prefix,
}
use discodrive_apps.Base.Exec.{ok, err, Error}
use discodrive_apps.Go.FilePath
use discodrive_apps.Go.FilePath.{slash, split, clean, is_abs}
use discodrive_apps.Go.FilePath.Clean.{IsName}
use discodrive_apps.SafePath.Accepted.{Passable, join-Passable}
use discodrive_apps.SafePath.{join, no_symlink_components, check_components}
use discodrive_apps.SafePath.Contained.{
  Inside, IsTree, NotLink, prefixes, join-Inside, join-NotLink,
}
use discodrive_apps.Tests.{root, clean-root, device, files}

accepted : (join device root (codes "a") files).0 ≡ ok (codes "/r/a")
unfolding join no_symlink_components check_components FilePath.join FilePath.clean FilePath.split
    FilePath.join_elements FilePath.resolve FilePath.elements FilePath.rel FilePath.rel_elements
    str_eq has_prefix
accepted = refl

join-Inside_example : Inside root (codes "/r/a")
join-Inside_example =
    join-Inside device root (codes "a") files (codes "/r/a") 114 [] clean-root accepted

present : (p : Str) (e : Error) → (device.lstat p files).0 ≢ err e
unfolding str_eq
present p e h = ground arith

files-IsTree : IsTree device files
files-IsTree = record { still = λ p. refl; below = λ p part e h k. absurd (present p e h) }

below_root : (join device root (codes "a") files).0 ≡ ok (clean root ++ slash ∷ codes "a")
unfolding FilePath.clean FilePath.split FilePath.join_elements FilePath.resolve FilePath.elements
    str_eq
below_root = accepted

join-NotLink_example : All (NotLink device files) (prefixes (clean root) (split (codes "a")))
unfolding has_prefix
join-NotLink_example =
    join-NotLink device files files-IsTree root (codes "a") (codes "a") 114 [] refl clean-root
      below_root

-- Every path of the device exists, and none is a link.
no_link : (p : Str) → Passable device files (λ q. refl) p
unfolding str_eq
no_link p = elim (Bool-cases (str_eq p (codes "/r/a"))) [
  | inl e ↦ inl (record { is_dir = false; is_symlink = false }, rw e, refl)
  | inr e ↦ inl (record { is_dir = true; is_symlink = false }, rw e, refl)
]

is_abs-root : is_abs root ≡ true
unfolding has_prefix
is_abs-root = refl

only_names : All IsName (split (codes "a"))
unfolding split str_eq
only_names = (record { not_empty = refl; not_dot = refl; not_dot_dot = refl; no_slash = refl }, tt)

join-Passable_example :
    join device root (codes "a") files ≡ (ok (clean root ++ slash ∷ codes "a"), files)
unfolding split
join-Passable_example =
    join-Passable device files (λ q. refl) root (codes "a") 114 [] is_abs-root clean-root only_names
      (no_link _, tt)
