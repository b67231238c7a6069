-- ===== src/Vault/Tree/Stored.antt =====
-- What is expected of the storage of a vault, and how a listing looks that succeeds.
use mathlib.Core.List.{Memᴰ}
use discodrive_apps.Base.{
  ◌≡◌, refl, sym, true, false, Option, none, some, List, [], ◌∷◌, Str, All, str_eq, str_eq_self,
  Bool-cases, inl, inr,
}
use discodrive_apps.Base.Exec.{Error, Result, ok, err}
use discodrive_apps.Go.FilePath
use discodrive_apps.Go.FilePath.{split}
use discodrive_apps.Go.FilePath.Clean.{IsName}
use discodrive_apps.Vault.Aead.{Aead}
use discodrive_apps.Vault.Siv.{Ciphers}
use discodrive_apps.Vault.Names.{Keys, dir_id_hash}
use discodrive_apps.Vault.Tree.{
  Storage, Entry, VEntry, entry_of, entries_of, cons_some, list_dir, has_entry,
}

abbrev pub IsFolder : Str → Type 0
IsFolder path = All IsName (split path)

-- `Has` says that a folder has an entry, and can be listed. Paths are names with slashes between them. A successful call
-- leaves what it made, keeps the entries that there are, and changes no other file: one is
-- known by another last name.
pub record Stored (S : Storage) : Type 1 where
  pub Has : Str → Entry → S.State → Type 0
  pub lists :
      (dir : Str) (e : Entry) (s : S.State)
      → Has dir e s
      → (es : List Entry) × (S.list_dir dir s ≡ ok es) × Memᴰ e es
  pub write_has :
      (dir base bytes : Str) (s : S.State)
      → IsFolder dir
      → IsName base
      → (S.write_file (FilePath.join dir base) bytes s).0 ≡ ok tt
      → Has dir
          (record { name = base; is_dir = false })
          (S.write_file (FilePath.join dir base) bytes s).1
  pub make_has :
      (dir base : Str) (s : S.State)
      → IsFolder dir
      → IsName base
      → (S.make_dir (FilePath.join dir base) s).0 ≡ ok tt
      → Has dir (record { name = base; is_dir = true }) (S.make_dir (FilePath.join dir base) s).1
  pub write_reads :
      (path bytes : Str) (s : S.State)
      → IsFolder path
      → (S.write_file path bytes s).0 ≡ ok tt
      → S.read_file path (S.write_file path bytes s).1 ≡ ok bytes
  pub write_keeps_entries :
      (path bytes dir : Str) (e : Entry) (s : S.State)
      → (S.write_file path bytes s).0 ≡ ok tt
      → Has dir e s
      → Has dir e (S.write_file path bytes s).1
  pub make_keeps_entries :
      (path dir : Str) (e : Entry) (s : S.State)
      → (S.make_dir path s).0 ≡ ok tt
      → Has dir e s
      → Has dir e (S.make_dir path s).1
  pub write_keeps :
      (dir base other name bytes : Str) (s : S.State)
      → IsFolder dir
      → IsName base
      → IsFolder other
      → IsName name
      → str_eq base name ≡ false
      → (S.write_file (FilePath.join other name) bytes s).0 ≡ ok tt
      → S.read_file (FilePath.join dir base) (S.write_file (FilePath.join other name) bytes s).1
        ≡ S.read_file (FilePath.join dir base) s
  pub make_keeps :
      (made path : Str) (s : S.State)
      → (S.make_dir made s).0 ≡ ok tt
      → S.read_file path (S.make_dir made s).1 ≡ S.read_file path s

pub has_entry-Mem : (e : Entry) (es : List Entry) → Memᴰ e es → has_entry e.name es ≡ true
unfolding has_entry
has_entry-Mem e [] m = elim m [ ]
has_entry-Mem e (x ∷ es) (Memᴰ.head same) = rw (same, str_eq_self x.name)
has_entry-Mem e (x ∷ es) (Memᴰ.tail m) = elim (Bool-cases (str_eq x.name e.name)) [
  | inl h ↦ rw h
  | inr h ↦ rw h (has_entry-Mem e es m)
]

module _ (S : Storage) (gcm : Aead) (c : Ciphers) (sha1 : Str → Str) (v : Keys) where
  Mem-cons_some :
      (x : VEntry) (o : Option VEntry) (vs : List VEntry) → Memᴰ x vs → Memᴰ x (cons_some o vs)
  Mem-cons_some x none vs m = m
  Mem-cons_some x (some y) vs m = Memᴰ.tail m

  refuse : {A : Type 0} (e : Error) (a : A) → err e ≡ ok a → ⊥
  refuse e a h = cc

  Mem-of_ok : (x : VEntry) (xs vs : List VEntry) → ok xs ≡ ok vs → Memᴰ x xs → Memᴰ x vs
  Mem-of_ok x xs vs e m = let q : xs ≡ vs = cc in rw (sym q) m

  -- A listing that succeeds has what each of the entries is.
  pub Mem-entries_of :
      (dir_id hash : Str) (e : Entry) (x : VEntry) (s : S.State) (es : List Entry)
      (vs : List VEntry)
      → Memᴰ e es
      → entry_of S gcm c sha1 v dir_id hash e s ≡ ok (some x)
      → entries_of S gcm c sha1 v dir_id hash es s ≡ ok vs
      → Memᴰ x vs
  unfolding entries_of
  Mem-entries_of dir_id hash e x s [] vs m h k = elim m [ ]
  Mem-entries_of dir_id hash e x s (y ∷ es) vs (Memᴰ.head same) h k =
      rest (entries_of S gcm c sha1 v dir_id hash es s) refl
    where
      first : entry_of S gcm c sha1 v dir_id hash y s ≡ ok (some x)
      first = rw same at h

      rest : (r : Result (List VEntry)) → entries_of S gcm c sha1 v dir_id hash es s ≡ r → Memᴰ x vs
      rest (ok us) f = Mem-of_ok x (x ∷ us) vs (rw (first, f) at k) (Memᴰ.head refl)
      rest (err u) f = absurd (refuse u vs (rw (first, f) at k))
  Mem-entries_of dir_id hash e x s (y ∷ es) vs (Memᴰ.tail m) h k =
      first (Mem-entries_of dir_id hash e x s es) (entry_of S gcm c sha1 v dir_id hash y s)
        (entries_of S gcm c sha1 v dir_id hash es s) refl refl
    where
      first :
          ((us : List VEntry)
            → Memᴰ e es
            → entry_of S gcm c sha1 v dir_id hash e s ≡ ok (some x)
            → entries_of S gcm c sha1 v dir_id hash es s ≡ ok us
            → Memᴰ x us)
          → (o : Result (Option VEntry)) (r : Result (List VEntry))
          → entry_of S gcm c sha1 v dir_id hash y s ≡ o
          → entries_of S gcm c sha1 v dir_id hash es s ≡ r
          → Memᴰ x vs
      first later (err u) r f g = absurd (refuse u vs (rw f at k))
      first later (ok o) (err u) f g = absurd (refuse u vs (rw (f, g) at k))
      first later (ok o) (ok us) f g =
          Mem-of_ok x (cons_some o us) vs (rw (f, g) at k) (Mem-cons_some x o us (later us m h g))

  -- Listing a folder whose storage path is known.
  pub Mem-list_dir :
      (laws : Stored S) (dir_id hash : Str) (e : Entry) (x : VEntry) (s : S.State)
      (vs : List VEntry)
      → dir_id_hash c v sha1 dir_id ≡ ok hash
      → laws.Has hash e s
      → entry_of S gcm c sha1 v dir_id hash e s ≡ ok (some x)
      → list_dir S gcm c sha1 v dir_id s ≡ ok vs
      → Memᴰ x vs
  unfolding list_dir
  Mem-list_dir laws dir_id hash e x s vs at_hash has h k =
      let (es, f, m) = laws.lists hash e s has in
      Mem-entries_of dir_id hash e x s es vs m h (rw (at_hash, f) at k)
