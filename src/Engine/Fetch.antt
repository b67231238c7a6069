-- ===== src/Engine/Fetch.antt =====
-- The download of a file: what stands at its path afterwards.
use discodrive_apps.Base.{
  ◌≡◌, refl, ◌∙◌, ap, ◌≢◌, ◌⊎◌, inl, inr, true, false, Option, some, [], Str, str_eq, str_eq_iff,
  arith, Bool-cases,
}
use discodrive_apps.Base.Exec.{Result, ok, err, Exec, or_else_undo, ◌>>=◌, ◌>>◌}
use discodrive_apps.Go.FilePath
use discodrive_apps.Index
use mathlib.Core.Path.{subst}
use discodrive_apps.World.{World, Change, is_temp_name}
use discodrive_apps.World.Disk.{Disk}
use discodrive_apps.Engine.{
  Machine, on_world, on_index, discard, close_and_discard, install, wrong_hash, fetch_file,
  file_node,
}

module _ (W : World) (root : Str) (D : Disk W) where
  abbrev pub content : Machine W → Str → Option Str
  content s p = D.file s.world p

  -- A file whose bytes have the announced hash, where one was announced.
  abbrev pub Genuine : Change → Option Str → Type 0
  Genuine c now =
      (bytes : Str) × (now ≡ some bytes)
      × ((str_eq c.content_hash [] ≡ true) ⊎ (W.sha256_hex bytes ≡ c.content_hash))

  -- What stands at a path afterwards: the genuine file if the action succeeded; if not, what was
  -- there before, or the genuine file (when only the index could not be written).
  abbrev pub Verified : Change → Option Str → Result (Unit {0}) → Option Str → Type 0
  Verified c old (ok a) now = Genuine c now
  Verified c old (err e) now = (now ≡ old) ⊎ Genuine c now

  Verified-of_Genuine :
      (c : Change) (old : Option Str) (r : Result (Unit {0})) (now : Option Str)
      → Genuine c now
      → Verified c old r now
  Verified-of_Genuine c old (ok a) now g = g
  Verified-of_Genuine c old (err e) now g = inr g

  right_hash :
      (c : Change) (bytes : Str)
      → wrong_hash W root c bytes ≡ false
      → (str_eq c.content_hash [] ≡ true) ⊎ (W.sha256_hex bytes ≡ c.content_hash)
  right_hash c bytes e = ground (arith, str_eq_iff (W.sha256_hex bytes) c.content_hash)

  abbrev Outcome : Change → Str → Exec (Machine W) (Unit {0}) → Machine W → Option Str → Type 0
  Outcome c p m s old = Verified c old (m s).0 (content (m s).1 p)

  install-Verified :
      (c : Change) (p tmp bytes : Str) (s : Machine W)
      → content s tmp ≡ some bytes
      → tmp ≢ p
      → Outcome c p (install W root c p tmp bytes) s (content s p)
  unfolding install discard
  install-Verified c p tmp bytes s here other = elim (Bool-cases (wrong_hash W root c bytes)) [
    | inl e ↦ rw e (inl (D.remove_keeps tmp p s.world other))
    | inr e ↦ rw e (go (W.rename tmp p s.world).0 refl (right_hash c bytes e))
  ]
    where
      go :
          (r : Result (Unit {0}))
          → (W.rename tmp p s.world).0 ≡ r
          → (str_eq c.content_hash [] ≡ true) ⊎ (W.sha256_hex bytes ≡ c.content_hash)
          → Outcome c p
              (do
                or_else_undo (on_world W (W.rename tmp p)) (discard W root tmp)
                on_index W (Index.put (file_node c)))
              s
              (content s p)
      go (ok a) e h =
          rw e (Verified-of_Genuine c _ _ _ (bytes, D.rename_moves tmp p bytes s.world e here, h))
      go (err x) e h =
          rw e (inl (D.remove_keeps tmp p _ other ∙ D.rename_fails tmp p p s.world x e))

  -- The steps after the temporary file is made.
  from_temp : Change → Str → Str → Exec (Machine W) (Unit {0})
  from_temp c p tmp = do
    bytes ← or_else_undo (on_world W (W.download c.node_id tmp)) (close_and_discard W root tmp)
    or_else_undo (on_world W (W.close tmp)) (discard W root tmp)
    install W root c p tmp bytes

  from_download-Verified :
      (c : Change) (p tmp bytes : Str) (s : Machine W) (old : Option Str)
      → tmp ≢ p
      → content s tmp ≡ some bytes
      → content s p ≡ old
      → Outcome c p
          (do
            or_else_undo (on_world W (W.close tmp)) (discard W root tmp)
            install W root c p tmp bytes)
          s
          old
  unfolding discard
  from_download-Verified c p tmp bytes s old other here before = go (W.close tmp s.world).0 refl
    where
      go :
          (r : Result (Unit {0}))
          → (W.close tmp s.world).0 ≡ r
          → Outcome c p
              (do
                or_else_undo (on_world W (W.close tmp)) (discard W root tmp)
                install W root c p tmp bytes)
              s
              old
      go (ok a) e =
          let s' : Machine W = record s { world = (W.close tmp s.world).1 } in
          rw e (
            subst (λ o. Outcome c p (install W root c p tmp bytes) s' o)
              (D.close_keeps tmp p s.world ∙ before)
              (install-Verified c p tmp bytes s' (D.close_keeps tmp tmp s.world ∙ here) other))
      go (err x) e =
          rw e (inl (D.remove_keeps tmp p _ other ∙ D.close_keeps tmp p s.world ∙ before))

  from_temp-Verified :
      (c : Change) (p tmp : Str) (s : Machine W) (old : Option Str)
      → tmp ≢ p
      → content s p ≡ old
      → Outcome c p (from_temp c p tmp) s old
  unfolding from_temp discard close_and_discard
  from_temp-Verified c p tmp s old other before = go (W.download c.node_id tmp s.world).0 refl
    where
      go :
          (r : Result Str)
          → (W.download c.node_id tmp s.world).0 ≡ r
          → Outcome c p (from_temp c p tmp) s old
      go (ok bytes) e = rw e (
          from_download-Verified c p tmp bytes _ old other
            (D.download_writes c.node_id tmp bytes s.world e)
            (D.download_keeps c.node_id tmp p s.world other ∙ before))
      go (err x) e = rw e (
          inl (
            D.remove_keeps tmp p _ other
            ∙ D.close_keeps tmp p _
            ∙ D.download_keeps c.node_id tmp p s.world other
            ∙ before))

  differs :
      (tmp p : Str)
      → is_temp_name (FilePath.base tmp) ≡ true
      → is_temp_name (FilePath.base p) ≡ false
      → tmp ≢ p
  differs tmp p h k e = cc (ap (λ q. is_temp_name (FilePath.base q)) e)

  from_folder : Change → Str → Exec (Machine W) (Unit {0})
  from_folder c p = do tmp ← on_world W (W.create_temp (FilePath.dir p)); from_temp c p tmp

  from_folder-Verified :
      (c : Change) (p : Str) (s : Machine W) (old : Option Str)
      → is_temp_name (FilePath.base p) ≡ false
      → content s p ≡ old
      → Outcome c p (from_folder c p) s old
  unfolding from_folder
  from_folder-Verified c p s old plain before = go (W.create_temp (FilePath.dir p) s.world).0 refl
    where
      go :
          (r : Result Str)
          → (W.create_temp (FilePath.dir p) s.world).0 ≡ r
          → Outcome c p (from_folder c p) s old
      go (ok tmp) e = rw e (
          from_temp-Verified c p tmp _ old
            (differs tmp p (D.create_temp_named (FilePath.dir p) tmp s.world e) plain)
            (D.create_temp_keeps (FilePath.dir p) p s.world plain ∙ before))
      go (err x) e = rw e (inl (D.create_temp_keeps (FilePath.dir p) p s.world plain ∙ before))

  -- A file is replaced only by a download whose hash is the one that the server announced (if it
  -- announced one). If the download ends in an error, the path holds what it held before, unless
  -- only the entry in the index failed. The path's last element is no temporary name.
  pub fetch_file-Verified :
      (c : Change) (p : Str) (s : Machine W)
      → is_temp_name (FilePath.base p) ≡ false
      → Verified c (content s p) (fetch_file W root c p s).0 (content (fetch_file W root c p s).1 p)
  unfolding fetch_file from_folder from_temp
  fetch_file-Verified c p s plain = go (W.mkdir_all (FilePath.dir p) s.world).0 refl
    where
      go :
          (r : Result (Unit {0}))
          → (W.mkdir_all (FilePath.dir p) s.world).0 ≡ r
          → Verified c
              (content s p)
              (fetch_file W root c p s).0
              (content (fetch_file W root c p s).1 p)
      go (ok a) e = rw e (
          from_folder-Verified c p _ (content s p) plain
            (D.mkdir_all_keeps (FilePath.dir p) p s.world))
      go (err x) e = rw e (inl (D.mkdir_all_keeps (FilePath.dir p) p s.world))
