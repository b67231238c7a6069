-- ===== src/SafePath.antt =====
-- daemon/internal/safepath/safepath.go: the guard that keeps a path made from a server's name
-- inside a trusted root.
pub mod Contained
pub mod Accepted
use discodrive_apps.Base.{
  Bool, true, false, ◌&&◌, ◌||◌, not, List, [], ◌∷◌, ◌++◌, Str, str_eq, has_prefix, if◌then◌else◌,
}
use discodrive_apps.Base.Exec.{
  Error, Result, ok, err, not_exist, escapes_root, is_symlink, Exec, pure, raise, lift, continue,
  ◌>>=◌, ◌>>◌,
}
use discodrive_apps.Go.FilePath
use discodrive_apps.Go.FilePath.{slash, dot}
use discodrive_apps.World.{World, Info}

-- os.IsNotExist
abbrev pub is_not_exist : Error → Bool
is_not_exist not_exist = true
is_not_exist _ = false

module _ (W : World) where
  -- What the loop does after the Lstat of `cur`: it stops without an error at the first component
  -- that is not there, and with one at a symlink; `next` is the rest of the loop.
  abbrev pub after_lstat : Str → Exec W.State (Unit {0}) → Result Info → Exec W.State (Unit {0})
  after_lstat cur next (ok fi) = if fi.is_symlink then raise (is_symlink cur) else next
  after_lstat cur next (err e) = if is_not_exist e then pure tt else raise e

  abbrev pub lstat_then : Str → Exec W.State (Unit {0}) → Exec W.State (Unit {0})
  lstat_then cur next s = let (r, s') = W.lstat cur s in after_lstat cur next r s'

  unfoldable pub check_components : Str → List Str → Exec W.State (Unit {0})
  check_components cur [] = pure tt
  check_components cur (part ∷ parts) =
      let skipped = check_components cur parts in
      let below = FilePath.join cur part in
      let checked = lstat_then below (check_components below parts) in
      if str_eq part [] || str_eq part dot then skipped else checked

  abbrev pub check_rel : Str → Str → Exec W.State (Unit {0})
  check_rel root r = if str_eq r dot then pure tt else check_components root (FilePath.split r)

  unfoldable pub no_symlink_components : Str → Str → Exec W.State (Unit {0})
  unfolding check_components
  no_symlink_components root p = do
    let root' = FilePath.clean root
    r ← lift (FilePath.rel root' p)
    check_rel root' r

  unfoldable pub join : Str → Str → Exec W.State Str
  join root r =
      let root' = FilePath.clean root in
      let p = FilePath.clean (FilePath.join root' r) in
      if not (str_eq p root') && not (has_prefix p (root' ++ slash ∷ []))
      then raise (escapes_root r)
      else (do no_symlink_components root' p; pure p)
