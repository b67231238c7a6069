-- ===== src/Vault/Tree/Made.antt =====
-- A file that was written into a vault is listed in its folder, and its content is read back.
use discodrive_apps.Base.{
  ◌≡◌, refl, sym, ap, ◌∙◌, true, false, Bool-cases, inl, inr, some, ◌∷◌, ◌++◌, Str, All, length,
  length-append, ◌-◌, drop, drop-append, leb, str_eq, ltb, arith,
}
use discodrive_apps.Base.Exec.{ok, then_ok, three_ok}
use discodrive_apps.Go.Base64
use discodrive_apps.Go.FilePath
use discodrive_apps.Go.FilePath.{slash, split}
use discodrive_apps.Go.FilePath.Clean.{IsName}
use discodrive_apps.Go.FilePath.Names.{join_three}
use discodrive_apps.Vault.Aead.{Aead}
use discodrive_apps.Vault.Siv.{Ciphers}
use discodrive_apps.Vault.Siv.RoundTrip.{IsByte}
use discodrive_apps.Vault.Names.{Keys, has_suffix, c9r, c9s, shortened_name, shortening_threshold}
use discodrive_apps.Vault.Names.RoundTrip.{sealed_name, has_suffix-append}
use discodrive_apps.Vault.Tree.{
  folder, Storage, Entry, dirid_file, dir_file, name_file, entry_of, short_entry, shortened_entry,
  store_dir,
}
use discodrive_apps.Vault.Tree.Stored.{Stored, IsFolder, has_entry-Mem}
use discodrive_apps.Vault.Tree.Long
use discodrive_apps.Vault.Tree.Long.{
  long_path, made, named, written, kept, entry_of-long, file-IsName, Kept, Kept-make, Kept-write,
}
use discodrive_apps.Vault.Tree.Fits.{
  Fits, name_eq, hash-IsFolder, full-IsName, child-IsFolder, not_marker,
}

not_c9s : (s : Str) → has_suffix (s ++ c9r) c9s ≡ false
unfolding str_eq
not_c9s s =
    let l = length-append s c9r in
    let d : drop (length (s ++ c9r) - 4) (s ++ c9r) ≡ c9r = drop-append s c9r (omega arith) in
    let e : leb 4 (length (s ++ c9r)) ≡ true = ground arith in rw (e, d) refl

module _ (S : Storage) (gcm : Aead) (c : Ciphers) (sha1 : Str → Str) (v : Keys) (laws : Stored S)
    (f : Fits gcm c sha1 v) where
  abbrev pub hash : Str → Str
  hash = Long.hash S gcm c sha1 v laws f

  abbrev pub full : Str → Str → Str
  full = Long.full S gcm c sha1 v laws f

  pub dir_file-IsName : IsName dir_file
  dir_file-IsName =
      file-IsName dir_file (refl, (refl, (refl, (refl, (refl, (refl, (refl, tt))))))) (omega arith)

  pub dirid-IsName : IsName dirid_file
  dirid-IsName =
      file-IsName dirid_file
        (refl, (refl, (refl, (refl, (refl, (refl, (refl, (refl, (refl, tt))))))))) (omega arith)

  pub not_name_file : str_eq name_file dir_file ≡ false
  unfolding str_eq
  not_name_file = refl

  pub not_dirid : (str_eq name_file dirid_file ≡ false) × (str_eq dir_file dirid_file ≡ false)
  unfolding str_eq
  not_dirid = (refl, refl)

  module _ (parent name id : Str) (bytes : All IsByte name) (s : S.State) where
    -- The folder of the entry, when its name is short.
    abbrev pub short_path : Str
    short_path = FilePath.join (hash parent) (full name parent)

    abbrev pub entry : Entry
    entry = record { name = full name parent; is_dir = true }

    pub record ShortKept (u : S.State) : Type 0 where
      pub has : laws.Has (hash parent) entry u
      pub holds : S.read_file (FilePath.join short_path dir_file) u ≡ ok id

    abbrev pub LongKept : S.State → Type 0
    LongKept = Kept S gcm c sha1 v laws f parent name dir_file id dir_file-IsName not_name_file s

    full_name-IsName : IsName (full name parent)
    full_name-IsName = full-IsName S gcm c sha1 v laws f name parent bytes

    parent-IsFolder : IsFolder (hash parent)
    parent-IsFolder = hash-IsFolder S gcm c sha1 v laws f parent

    short-IsFolder : IsFolder short_path
    short-IsFolder =
        child-IsFolder S gcm c sha1 v laws f (hash parent) (full name parent) parent-IsFolder
          full_name-IsName

    -- Where the id of the folder is looked up.
    same_path :
        FilePath.join (hash parent) (full name parent ++ slash ∷ dir_file)
        ≡ FilePath.join short_path dir_file
    same_path =
        join_three (hash parent) (full name parent) dir_file parent-IsFolder full_name-IsName
          dir_file-IsName

    -- The entry of the folder, and what it is.
    pub record IsDir (u : S.State) : Type 0 where
      pub at : Entry
      pub has : laws.Has (hash parent) at u
      pub decodes : entry_of S gcm c sha1 v parent (hash parent) at u ≡ ok (some (folder name id))

    short-IsDir : (u : S.State) → ShortKept u → IsDir u
    unfolding entry_of short_entry
    short-IsDir u k = record {
      at = entry;
      has = k.has;
      decodes =
          rw
            (
              not_marker S gcm c sha1 v laws f name parent,
              not_c9s (
                  Base64.encode true
                    (sealed_name c f.ciphers v f.mac f.known f.fits (some parent) name)),
              has_suffix-append
                  (Base64.encode true
                    (sealed_name c f.ciphers v f.mac f.known f.fits (some parent) name))
                  c9r,
              (name_eq S gcm c sha1 v laws f name parent bytes).1,
              same_path,
              k.holds,
            )
            refl;
    }

    long-IsDir : (u : S.State) → LongKept u → IsDir u
    unfolding shortened_entry
    long-IsDir u k =
        let (es, e, there) =
          laws.lists (long_path S gcm c sha1 v laws f parent name)
            (record { name = dir_file; is_dir = false }) u k.inside in
        record {
          at = record { name = shortened_name c v sha1 (full name parent); is_dir = true };
          has = k.has;
          decodes =
              entry_of-long S gcm c sha1 v laws f parent name dir_file id dir_file-IsName
                not_name_file s bytes u k es e
              ∙ rw (has_entry-Mem (record { name = dir_file; is_dir = false }) es there, k.holds)
                  refl;
        }

    pub data Made (u : S.State) : Type 0 where
      long : LongKept u → Made u
      short : ShortKept u → Made u

    pub Made-IsDir : (u : S.State) → Made u → IsDir u
    Made-IsDir u (long k) = long-IsDir u k
    Made-IsDir u (short k) = short-IsDir u k

    pub Made-make :
        (q : Str) (u : S.State) → (S.make_dir q u).0 ≡ ok tt → Made u → Made (S.make_dir q u).1
    Made-make q u done (long k) = long (
        Kept-make S gcm c sha1 v laws f parent name dir_file id dir_file-IsName not_name_file s q u
          done k)
    Made-make q u done (short k) = short (record {
      has = laws.make_keeps_entries q (hash parent) entry u done k.has;
      holds = laws.make_keeps q (FilePath.join short_path dir_file) u done ∙ k.holds;
    })

    -- The marker of the new folder is written.
    pub Made-mark :
        (child marker : Str) (u : S.State)
        → IsFolder child
        → (S.write_file (FilePath.join child dirid_file) marker u).0 ≡ ok tt
        → Made u
        → Made (S.write_file (FilePath.join child dirid_file) marker u).1
    Made-mark child marker u h done (long k) = long (
        Kept-write S gcm c sha1 v laws f parent name dir_file id dir_file-IsName not_name_file s
          child dirid_file marker u h dirid-IsName not_dirid.0 not_dirid.1 done k)
    Made-mark child marker u h done (short k) = short (record {
      has = laws.write_keeps_entries _ marker (hash parent) entry u done k.has;
      holds =
          laws.write_keeps short_path dir_file child dirid_file marker u short-IsFolder
            dir_file-IsName h dirid-IsName not_dirid.1 done
          ∙ k.holds;
    })

    pub stored-Made :
        (store_dir S gcm c sha1 v (hash parent) (full name parent) id s).0 ≡ ok tt
        → Made (store_dir S gcm c sha1 v (hash parent) (full name parent) id s).1
    unfolding store_dir
    stored-Made done = elim (Bool-cases (ltb shortening_threshold (length (full name parent)))) [
      | inl e ↦
          let path = long_path S gcm c sha1 v laws f parent name in
          let (m, n, w, q) =
            three_ok (S.make_dir path)
              (S.write_file (FilePath.join path name_file) (full name parent))
              (S.write_file (FilePath.join path dir_file) id) s (rw e at done) in
          rw (e, q)
            (long (
              kept S gcm c sha1 v laws f parent name dir_file id dir_file-IsName not_name_file s m n
                w))
      | inr e ↦
          let (m, q) =
            then_ok (S.make_dir short_path) (S.write_file (FilePath.join short_path dir_file) id) tt
              s (rw e at done) in
          let w = sym (ap (λ r. r.0) q) ∙ (rw e at done) in
          let u = (S.make_dir short_path s).1 in
          rw (e, q)
            (short (record {
              has = laws.write_keeps_entries _ id (hash parent) entry u w (
                  laws.make_has (hash parent) (full name parent) s parent-IsFolder full_name-IsName
                    m);
              holds =
                  laws.write_reads (FilePath.join short_path dir_file) id u
                    (child-IsFolder S gcm c sha1 v laws f short_path dir_file short-IsFolder
                      dir_file-IsName)
                    w;
            }))
    ]
