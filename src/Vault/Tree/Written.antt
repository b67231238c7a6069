-- ===== src/Vault/Tree/Written.antt =====
-- A file that was written into a vault is listed in its folder, and its content is read back.
use mathlib.Core.List.{Memᴰ}
use discodrive_apps.Base.{
  ◌≡◌, refl, ◌∙◌, Bool, true, false, ◌&&◌, Bool-cases, inl, inr, some, List, Str, All, length,
  str_eq, ltb, arith,
}
use discodrive_apps.Base.Exec.{ok, three_ok}
use discodrive_apps.Go.Base64
use discodrive_apps.Go.FilePath
use discodrive_apps.Go.FilePath.{slash, split}
use discodrive_apps.Go.FilePath.Clean.{IsName}
use discodrive_apps.Vault.Aead.{Aead}
use discodrive_apps.Vault.Siv.{Ciphers}
use discodrive_apps.Vault.Siv.RoundTrip.{IsByte}
use discodrive_apps.Vault.Names.{Keys, has_suffix, c9r, c9s, shortened_name, shortening_threshold}
use discodrive_apps.Vault.Names.RoundTrip.{sealed_name, has_suffix-append}
use discodrive_apps.Vault.Tree.{
  Storage, Entry, VEntry, Draw, file, dir_file, contents_file, name_file, has_entry, entry_of,
  short_entry, shortened_entry, list_dir, read_file, write_file, store_file,
}
use discodrive_apps.Vault.Tree.Stored.{Stored, Mem-list_dir, has_entry-Mem}
use discodrive_apps.Vault.Tree.Long
use discodrive_apps.Vault.Tree.Long.{
  long_path, made, named, written, kept, entry_of-long, file-IsName,
}
use discodrive_apps.Vault.Tree.Fits.{
  Fits, IsDraw, hash_eq, name_eq, sealed_content, content_eq, hash-IsFolder, full-IsName,
  child-IsFolder, not_marker,
}

module _ (S : Storage) (gcm : Aead) (c : Ciphers) (sha1 : Str → Str) (v : Keys) (laws : Stored S)
    (f : Fits gcm c sha1 v) where
  abbrev hash : Str → Str
  hash = Long.hash S gcm c sha1 v laws f

  abbrev full : Str → Str → Str
  full = Long.full S gcm c sha1 v laws f

  abbrev sealed : Draw → Str → Str
  sealed = sealed_content S gcm c sha1 v laws f

  -- WriteFile is the storing of the encrypted content under the encrypted name.
  write_file-store_file :
      (r : Draw) (parent name plain : Str) (s : S.State)
      → All IsByte name
      → IsDraw r
      → write_file S gcm c sha1 v r parent name plain s
        ≡ store_file S gcm c sha1 v (hash parent) (full name parent) (sealed r plain) s
  unfolding write_file
  write_file-store_file r parent name plain s h d =
      rw
        (
          hash_eq S gcm c sha1 v laws f parent,
          (name_eq S gcm c sha1 v laws f name parent h).0,
          (content_eq S gcm c sha1 v laws f r plain d).0,
        )
        refl

  -- A stored file: an entry of the folder that is the file, with the content at its path.
  pub record IsFile (parent name bytes : Str) (s : S.State) : Type 0 where
    pub path : Str
    pub entry : Entry
    pub has : laws.Has (hash parent) entry s
    pub decodes : entry_of S gcm c sha1 v parent (hash parent) entry s ≡ ok (some (file name path))
    pub holds : S.read_file path s ≡ ok bytes

  and_false : (b : Bool) → (b && false) ≡ false
  and_false true = refl
  and_false false = refl

  short_entry-file :
      (parent name : Str) (s : S.State)
      → All IsByte name
      → entry_of S gcm c sha1 v parent
          (hash parent)
          (record { name = full name parent; is_dir = false })
          s
        ≡ ok (some (file name (FilePath.join (hash parent) (full name parent))))
  unfolding entry_of short_entry
  short_entry-file parent name s h =
      rw
        (
          not_marker S gcm c sha1 v laws f name parent,
          and_false (has_suffix (full name parent) c9s),
          has_suffix-append
              (Base64.encode true
                (sealed_name c f.ciphers v f.mac f.known f.fits (some parent) name))
              c9r,
          (name_eq S gcm c sha1 v laws f name parent h).1,
        )
        refl

  stored_short :
      (parent name bytes : Str) (s : S.State)
      → All IsByte name
      → (S.write_file (FilePath.join (hash parent) (full name parent)) bytes s).0 ≡ ok tt
      → IsFile parent name bytes
          (S.write_file (FilePath.join (hash parent) (full name parent)) bytes s).1
  stored_short parent name bytes s h done =
      let folder = hash-IsFolder S gcm c sha1 v laws f parent in
      let named = full-IsName S gcm c sha1 v laws f name parent h in
      record {
        path = FilePath.join (hash parent) (full name parent);
        entry = record { name = full name parent; is_dir = false };
        has = laws.write_has (hash parent) (full name parent) bytes s folder named done;
        decodes = short_entry-file parent name _ h;
        holds =
            laws.write_reads _ bytes s
              (child-IsFolder S gcm c sha1 v laws f (hash parent) (full name parent) folder named)
              done;
      }

  contents-IsName : IsName contents_file
  contents-IsName =
      file-IsName contents_file
        (
          refl,
          (
            refl,
            (refl, (refl, (refl, (refl, (refl, (refl, (refl, (refl, (refl, (refl, tt)))))))))),
          ),
        )
        (omega arith)

  not_name_file : str_eq name_file contents_file ≡ false
  unfolding str_eq
  not_name_file = refl

  -- The states of the three steps for a file with a long name.
  module _ (parent name bytes : Str) (s : S.State) where
    abbrev folder : Str
    folder = long_path S gcm c sha1 v laws f parent name

    abbrev s1 : S.State
    s1 = made S gcm c sha1 v laws f parent name contents_file bytes contents-IsName not_name_file s

    abbrev s2 : S.State
    s2 = named S gcm c sha1 v laws f parent name contents_file bytes contents-IsName not_name_file s

    abbrev s3 : S.State
    s3 =
        written S gcm c sha1 v laws f parent name contents_file bytes contents-IsName not_name_file
          s

    -- No folder has the same shortened name.
    abbrev pub NoFolder : S.State → Type 0
    NoFolder u = (es : List Entry) → S.list_dir folder u ≡ ok es → has_entry dir_file es ≡ false

    stored_long :
        All IsByte name
        → (S.make_dir folder s).0 ≡ ok tt
        → (S.write_file (FilePath.join folder name_file) (full name parent) s1).0 ≡ ok tt
        → (S.write_file (FilePath.join folder contents_file) bytes s2).0 ≡ ok tt
        → NoFolder s3
        → IsFile parent name bytes s3
    unfolding shortened_entry
    stored_long h m n w none_there =
        let k =
          kept S gcm c sha1 v laws f parent name contents_file bytes contents-IsName not_name_file s
            m n w in
        let (es, e, there) =
          laws.lists folder (record { name = contents_file; is_dir = false }) s3 k.inside in
        record {
          path = FilePath.join folder contents_file;
          entry = record { name = shortened_name c v sha1 (full name parent); is_dir = true };
          has = k.has;
          decodes =
              entry_of-long S gcm c sha1 v laws f parent name contents_file bytes contents-IsName
                not_name_file s h s3 k es e
              ∙ rw
                  (
                    none_there es e,
                    has_entry-Mem (record { name = contents_file; is_dir = false }) es there,
                  )
                  refl;
          holds = k.holds;
        }

    stored-IsFile :
        All IsByte name
        → (store_file S gcm c sha1 v (hash parent) (full name parent) bytes s).0 ≡ ok tt
        → NoFolder (store_file S gcm c sha1 v (hash parent) (full name parent) bytes s).1
        → IsFile parent name bytes
            (store_file S gcm c sha1 v (hash parent) (full name parent) bytes s).1
    unfolding store_file
    stored-IsFile h done none_there =
        elim (Bool-cases (ltb shortening_threshold (length (full name parent)))) [
          | inl e ↦
              let (m, n, w, q) =
                three_ok (S.make_dir folder)
                  (S.write_file (FilePath.join folder name_file) (full name parent))
                  (S.write_file (FilePath.join folder contents_file) bytes) s (rw e at done) in
              let none_left : NoFolder s3 = λ es k. none_there es (rw (e, q) k) in
              rw (e, q) (stored_long h m n w none_left)
          | inr e ↦ rw e (stored_short parent name bytes s h (rw e at done))
        ]

  -- A WriteFile that succeeds has written a file that ReadFile reads back, from the path by which a
  -- successful ListDir of the folder lists it, with a short and with a shortened name. The storage keeps what was
  -- written, the keys fit the ciphers, the name is a list of bytes and the random bytes have
  -- their sizes, and no folder has the same shortened name.
  pub write_file-Listed :
      (r : Draw) (parent name plain : Str) (s : S.State) (vs : List VEntry)
      → All IsByte name
      → IsDraw r
      → (write_file S gcm c sha1 v r parent name plain s).0 ≡ ok tt
      → NoFolder parent name plain s (write_file S gcm c sha1 v r parent name plain s).1
      → list_dir S gcm c sha1 v parent (write_file S gcm c sha1 v r parent name plain s).1 ≡ ok vs
      → (path : Str) × Memᴰ (file name path) vs
        × (read_file S gcm c sha1 v path (write_file S gcm c sha1 v r parent name plain s).1
            ≡ ok plain)
  unfolding read_file
  write_file-Listed r parent name plain s vs h d done none_there listed =
      let e = write_file-store_file r parent name plain s h d in
      let bytes = sealed r plain in
      let after = (store_file S gcm c sha1 v (hash parent) (full name parent) bytes s).1 in
      let k = stored-IsFile parent name bytes s h (rw e at done) (rw e at none_there) in
      let back = (content_eq S gcm c sha1 v laws f r plain d).1 in
      let hashed = hash_eq S gcm c sha1 v laws f parent in
      rw e (
        k.path,
        Mem-list_dir S gcm c sha1 v laws parent (hash parent) k.entry (file name k.path) after vs
            hashed k.has k.decodes (rw e at listed),
        rw (k.holds, back) refl,
      )
