-- ===== src/Vault/Tree/Long.antt =====
-- A file that was written into a vault is listed in its folder, and its content is read back.
use discodrive_apps.Base.{◌≤◌, ◌≡◌, refl, ◌∙◌, true, false, List, Str, All, length, str_eq, arith}
use discodrive_apps.Base.Exec.{ok}
use discodrive_apps.Go.FilePath
use discodrive_apps.Go.FilePath.{slash, split}
use discodrive_apps.Go.FilePath.Clean.{IsName}
use discodrive_apps.Go.FilePath.Names.{NoSlash, long-IsName}
use discodrive_apps.Vault.Aead.{Aead}
use discodrive_apps.Vault.Siv.{Ciphers}
use discodrive_apps.Vault.Siv.RoundTrip.{IsByte}
use discodrive_apps.Vault.Names.{Keys, shortened_name}
use discodrive_apps.Vault.Tree.{Storage, Entry, name_file, entry_of, long_entry, shortened_entry}
use discodrive_apps.Vault.Tree.Stored.{Stored, IsFolder}
use discodrive_apps.Vault.Tree.Fits.{
  Fits, hash_of, full_of, name_eq, hash-IsFolder, short-IsName, child-IsFolder, short_not_marker,
  short-suffix,
}

pub file-IsName : (e : Str) → All NoSlash e → 3 ≤ length e → IsName e
file-IsName e h l = long-IsName e h (omega arith)

module _ (S : Storage) (gcm : Aead) (c : Ciphers) (sha1 : Str → Str) (v : Keys) (laws : Stored S)
    (f : Fits gcm c sha1 v) where
  abbrev pub hash : Str → Str
  hash = hash_of S gcm c sha1 v laws f

  abbrev pub full : Str → Str → Str
  full = full_of S gcm c sha1 v laws f

  -- The folder of a shortened name.
  abbrev pub long_path : Str → Str → Str
  long_path parent name = FilePath.join (hash parent) (shortened_name c v sha1 (full name parent))

  module _ (parent name last bytes : Str) (last_name : IsName last)
      (other : str_eq name_file last ≡ false) (s : S.State) where
    abbrev pub path : Str
    path = long_path parent name

    -- The folder, the file of the full name, and the last file.
    abbrev pub made : S.State
    made = (S.make_dir path s).1

    abbrev pub named : S.State
    named = (S.write_file (FilePath.join path name_file) (full name parent) made).1

    abbrev pub written : S.State
    written = (S.write_file (FilePath.join path last) bytes named).1

    -- What is left of them in a state.
    pub record Kept (u : S.State) : Type 0 where
      pub has :
          laws.Has
            (hash parent)
            (record { name = shortened_name c v sha1 (full name parent); is_dir = true })
            u
      pub tells : S.read_file (FilePath.join path name_file) u ≡ ok (full name parent)
      pub inside : laws.Has path (record { name = last; is_dir = false }) u
      pub holds : S.read_file (FilePath.join path last) u ≡ ok bytes

    path-IsFolder : IsFolder path
    path-IsFolder =
        child-IsFolder S gcm c sha1 v laws f (hash parent)
          (shortened_name c v sha1 (full name parent)) (hash-IsFolder S gcm c sha1 v laws f parent)
          (short-IsName S gcm c sha1 v laws f (full name parent))

    tells-IsName : IsName name_file
    tells-IsName =
        file-IsName name_file (refl, (refl, (refl, (refl, (refl, (refl, (refl, (refl, tt))))))))
          (omega arith)

    pub kept :
        (S.make_dir path s).0 ≡ ok tt
        → (S.write_file (FilePath.join path name_file) (full name parent) made).0 ≡ ok tt
        → (S.write_file (FilePath.join path last) bytes named).0 ≡ ok tt
        → Kept written
    kept m n w = record {
      has = laws.write_keeps_entries _ bytes (hash parent) _ named w (
          laws.write_keeps_entries _ (full name parent) (hash parent) _ made n (
            laws.make_has (hash parent) (shortened_name c v sha1 (full name parent)) s
              (hash-IsFolder S gcm c sha1 v laws f parent)
              (short-IsName S gcm c sha1 v laws f (full name parent)) m));
      tells =
          laws.write_keeps path name_file path last bytes named path-IsFolder tells-IsName
            path-IsFolder last_name other w
          ∙ laws.write_reads (FilePath.join path name_file) (full name parent) made
              (child-IsFolder S gcm c sha1 v laws f path name_file path-IsFolder tells-IsName) n;
      inside = laws.write_has path last bytes named path-IsFolder last_name w;
      holds =
          laws.write_reads (FilePath.join path last) bytes named
            (child-IsFolder S gcm c sha1 v laws f path last path-IsFolder last_name) w;
    }

    -- The entry of the folder is looked up under its shortened name.
    pub entry_of-long :
        All IsByte name
        → (u : S.State) → Kept u
        → (es : List Entry) → S.list_dir path u ≡ ok es
        → entry_of S gcm c sha1 v parent
            (hash parent)
            (record { name = shortened_name c v sha1 (full name parent); is_dir = true })
            u
          ≡ shortened_entry S gcm c sha1 v path name es u
    unfolding entry_of long_entry
    entry_of-long h u k es e =
        rw
          (
            short_not_marker S gcm c sha1 v laws f (full name parent),
            short-suffix S gcm c sha1 v laws f (full name parent),
            k.tells,
            (name_eq S gcm c sha1 v laws f name parent h).1,
            e,
          )
          refl

    -- A folder that is made, and a file that is written under another name, leave them.
    pub Kept-make :
        (q : Str) (u : S.State) → (S.make_dir q u).0 ≡ ok tt → Kept u → Kept (S.make_dir q u).1
    Kept-make q u done k = record {
      has = laws.make_keeps_entries q (hash parent) _ u done k.has;
      tells = laws.make_keeps q (FilePath.join path name_file) u done ∙ k.tells;
      inside = laws.make_keeps_entries q path _ u done k.inside;
      holds = laws.make_keeps q (FilePath.join path last) u done ∙ k.holds;
    }

    pub Kept-write :
        (folder base bytes' : Str) (u : S.State)
        → IsFolder folder
        → IsName base
        → str_eq name_file base ≡ false
        → str_eq last base ≡ false
        → (S.write_file (FilePath.join folder base) bytes' u).0 ≡ ok tt
        → Kept u
        → Kept (S.write_file (FilePath.join folder base) bytes' u).1
    Kept-write folder base bytes' u h b n l done k = record {
      has = laws.write_keeps_entries _ bytes' (hash parent) _ u done k.has;
      tells =
          laws.write_keeps path name_file folder base bytes' u path-IsFolder tells-IsName h b n done
          ∙ k.tells;
      inside = laws.write_keeps_entries _ bytes' path _ u done k.inside;
      holds =
          laws.write_keeps path last folder base bytes' u path-IsFolder last_name h b l done
          ∙ k.holds;
    }
