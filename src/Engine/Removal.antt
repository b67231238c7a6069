-- ===== src/Engine/Removal.antt =====
-- What a deletion in the feed can remove on the device.
use discodrive_apps.Base.{
  ℕ, ◌≡◌, refl, ◌∙◌, ◌⊎◌, inl, inr, true, ◌∷◌, ◌++◌, Str, str_eq, str_eq_iff, All, arith,
  Bool-cases,
}
use discodrive_apps.Base.Exec.{Error, Result, ok, err, refuses_root, Exec, ◌>>=◌, ◌>>◌}
use discodrive_apps.Go.FilePath.{slash, split, clean}
use discodrive_apps.Go.FilePath.Clean.{IsName}
use discodrive_apps.Index
use discodrive_apps.World.{World, Change}
use discodrive_apps.SafePath.Contained.{Inside, join-Inside}
use discodrive_apps.Engine.{Machine, on_world, on_index, abs, apply, apply_deleted}

module _ (W : World) (root : Str) where
  -- Remove the subtree at `p` and then forget the node.
  abbrev pub removal : Change → Str → Exec (Machine W) (Unit {0})
  removal c p = do on_world W (W.remove_all p); on_index W (Index.delete c.node_id)

  abbrev pub Harmless : Change → Machine W → Type 0
  Harmless c s =
      ((e : Error) × (apply W root c s ≡ (err e, (abs W root c.rel_path s).1)))
      ⊎ ((t : Str) × All IsName (split t)
          × (apply W root c s ≡ removal c (clean root ++ slash ∷ t) (abs W root c.rel_path s).1))

  apply-deleted :
      (c : Change) (s : Machine W)
      → c.deleted ≡ true
      → apply W root c s ≡ (abs W root c.rel_path >>= apply_deleted W root c) s
  unfolding apply
  apply-deleted c s d = simp d

  apply_deleted-cases :
      (c : Change) (p : Str) (s : Machine W)
      → Inside root p
      → ((e : Error) × (apply_deleted W root c p s ≡ (err e, s)))
        ⊎ ((t : Str) × All IsName (split t)
            × (apply_deleted W root c p s ≡ removal c (clean root ++ slash ∷ t) s))
  unfolding apply_deleted
  apply_deleted-cases c p s i = elim (Bool-cases (str_eq p (clean root))) [
    | inl e ↦ inl (refuses_root c.rel_path, rw e)
    | inr e ↦ elim i [
      | inl same ↦ absurd (ground (arith, str_eq_iff p (clean root)))
      | inr (t, below, names) ↦ inr (t, names, rw e (rw below))
    ]
  ]

  abs-Inside :
      (r : Str) (s : Machine W) (p : Str) (a : ℕ) (rest : Str)
      → clean root ≡ slash ∷ a ∷ rest
      → (abs W root r s).0 ≡ ok p
      → Inside root p
  unfolding abs
  abs-Inside r s p a rest proper e = join-Inside W root r s.world p a rest proper e

  -- A deletion, whatever path the server names, either fails with nothing removed and the index as it
  -- was, or removes one subtree that lies strictly below the root of the synced folder: at the root, a
  -- slash and elements none of which is empty, `.` or `..`. The root is absolute, and cleaned
  -- it is not `/`.
  pub apply-Harmless :
      (c : Change) (s : Machine W) (a : ℕ) (rest : Str)
      → clean root ≡ slash ∷ a ∷ rest
      → c.deleted ≡ true
      → Harmless c s
  apply-Harmless c s a rest proper d = go (abs W root c.rel_path s).0 refl
    where
      go : (r : Result Str) → (abs W root c.rel_path s).0 ≡ r → Harmless c s
      go (err e) h = inl (e, apply-deleted c s d ∙ rw h)
      go (ok p) h =
          elim (apply_deleted-cases c p (abs W root c.rel_path s).1
            (abs-Inside c.rel_path s p a rest proper h)) [
              | inl (e, k) ↦ inl (e, apply-deleted c s d ∙ rw h k)
              | inr (t, names, k) ↦ inr (t, names, apply-deleted c s d ∙ rw h k)
            ]
