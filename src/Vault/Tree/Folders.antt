-- ===== src/Vault/Tree/Folders.antt =====
-- A file that was written into a vault is listed in its folder, and its content is read back.
use mathlib.Core.List.{Memᴰ}
use discodrive_apps.Base.{◌≡◌, refl, sym, ap, ◌∙◌, List, Str, All}
use discodrive_apps.Base.Exec.{ok, Exec, pure, ◌>>◌, then_ok}
use discodrive_apps.Go.FilePath
use discodrive_apps.Go.FilePath.{slash, split}
use discodrive_apps.Vault.Aead.{Aead}
use discodrive_apps.Vault.Siv.{Ciphers}
use discodrive_apps.Vault.Siv.RoundTrip.{IsByte}
use discodrive_apps.Vault.Names.{Keys}
use discodrive_apps.Vault.Tree.{
  make_dir, write_dir_id_file, folder, Storage, VEntry, Draw, dirid_file, list_dir, store_dir,
}
use discodrive_apps.Vault.Tree.Stored.{Stored, Mem-list_dir}
use discodrive_apps.Vault.Tree.Long
use discodrive_apps.Vault.Tree.Long.{
  long_path, made, named, written, kept, entry_of-long, file-IsName, Kept, Kept-make, Kept-write,
}
use discodrive_apps.Vault.Tree.Fits.{
  Fits, IsDraw, hash_eq, name_eq, sealed_content, content_eq, hash-IsFolder,
}
use discodrive_apps.Vault.Tree.Made.{Made-IsDir, Made-make, Made-mark, stored-Made}

module _ (S : Storage) (gcm : Aead) (c : Ciphers) (sha1 : Str → Str) (v : Keys) (laws : Stored S)
    (f : Fits gcm c sha1 v) where
  abbrev hash : Str → Str
  hash = Long.hash S gcm c sha1 v laws f

  abbrev full : Str → Str → Str
  full = Long.full S gcm c sha1 v laws f

  -- The three steps of MakeDir.
  abbrev steps : Draw → Str → Str → Str → Exec S.State Str
  steps r id parent name =
      store_dir S gcm c sha1 v (hash parent) (full name parent) id
      >> (S.make_dir (hash id)
          >> (S.write_file (FilePath.join (hash id) dirid_file)
                (sealed_content S gcm c sha1 v laws f r id)
              >> pure id))

  make_dir-steps :
      (r : Draw) (id parent name : Str) (s : S.State)
      → All IsByte name
      → IsDraw r
      → make_dir S gcm c sha1 v r id parent name s ≡ steps r id parent name s
  unfolding make_dir write_dir_id_file
  make_dir-steps r id parent name s h d =
      rw
        (
          hash_eq S gcm c sha1 v laws f parent,
          (name_eq S gcm c sha1 v laws f name parent h).0,
          hash_eq S gcm c sha1 v laws f id,
          (content_eq S gcm c sha1 v laws f r id d).0,
        )
        refl

  -- A MakeDir that succeeds returns the id of a new folder, and a successful ListDir of the parent lists the folder
  -- under its name with that id, with a short and with a shortened name. The storage keeps
  -- what was written, the keys fit the ciphers, the name is a list of bytes and the random bytes have
  -- their sizes.
  pub make_dir-Listed :
      (r : Draw) (id parent name : Str) (s : S.State) (new : Str) (vs : List VEntry)
      → All IsByte name
      → IsDraw r
      → (make_dir S gcm c sha1 v r id parent name s).0 ≡ ok new
      → list_dir S gcm c sha1 v parent (make_dir S gcm c sha1 v r id parent name s).1 ≡ ok vs
      → (new ≡ id) × Memᴰ (folder name new) vs
  make_dir-Listed r id parent name s new vs h d done listed =
      let e = make_dir-steps r id parent name s h d in
      let marker = sealed_content S gcm c sha1 v laws f r id in
      let first = store_dir S gcm c sha1 v (hash parent) (full name parent) id in
      let mark = S.write_file (FilePath.join (hash id) dirid_file) marker in
      let (x, p) = then_ok first (S.make_dir (hash id) >> (mark >> pure id)) new s (rw e at done) in
      let u = (first s).1 in
      let ended : ((S.make_dir (hash id) >> (mark >> pure id)) u).0 ≡ ok new =
        sym (ap (λ r. r.0) p) ∙ (rw e at done) in
      let (y, q) = then_ok (S.make_dir (hash id)) (mark >> pure id) new u ended in
      let u' = (S.make_dir (hash id) u).1 in
      let (z, t) = then_ok mark (pure id) new u' (sym (ap (λ r. r.0) q) ∙ ended) in
      let last : ok id ≡ ok new = sym (ap (λ r. r.0) (q ∙ t)) ∙ ended in
      let same : new ≡ id = cc in
      let dir = Made-IsDir S gcm c sha1 v laws f parent name id h s (mark u').1 (
        Made-mark S gcm c sha1 v laws f parent name id h s (hash id) marker u'
          (hash-IsFolder S gcm c sha1 v laws f id) z
          (Made-make S gcm c sha1 v laws f parent name id h s (hash id) u y
            (stored-Made S gcm c sha1 v laws f parent name id h s x))) in
      let state : (make_dir S gcm c sha1 v r id parent name s).1 ≡ (mark u').1 =
        ap (λ r. r.1) (e ∙ p ∙ q ∙ t) in
      (
        same,
        rw same (
            Mem-list_dir S gcm c sha1 v laws parent (hash parent) dir.at (folder name id)
              (mark u').1 vs (hash_eq S gcm c sha1 v laws f parent) dir.has dir.decodes
              (rw state at listed)),
      )
