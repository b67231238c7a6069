-- ===== src/VaultMgr/Closing.antt =====
-- What closing a vault does to the table of open vaults and to the plaintext.
use discodrive_apps.Base.{
  ◌≡◌, refl, ap, ◌∙◌, false, Option, none, some, List, [], ◌∷◌, ◌++◌, Str, codes, str_eq,
  str_eq_iff, has_prefix, if◌then◌else◌, arith,
}
use discodrive_apps.Base.Exec.{Error, Result, ok, err, locked, not_open}
use discodrive_apps.Go.FilePath
use discodrive_apps.VaultMgr.{
  Host, VaultInfo, Manager, keys_of, remove_keys, forget_keys, plain_dir, reseal, close_with, close,
}

-- Neither path lies at or below the other.
abbrev pub Apart : Str → Str → Type 0
Apart p q =
    (str_eq p q ≡ false)
    × (has_prefix q (p ++ FilePath.slash ∷ []) ≡ false)
    × (has_prefix p (q ++ FilePath.slash ∷ []) ≡ false)

Apart-sym : (p q : Str) → Apart p q → Apart q p
Apart-sym p q (e, f, g) = (ground (arith, e, str_eq_iff p q, str_eq_iff q p), g, f)

-- What is expected of the file system and of EncryptTree: looking at a path and encrypting a folder
-- leave the content of the folder, and removing a path leaves what is apart from it.
pub record KeepsPlain (H : Host) (Content : Type 0) (content : H.State → Str → Content)
    : Type 0 where
  pub stat_keeps : (p q : Str) (h : H.State) → content (H.stat p h).1 q ≡ content h q
  pub encrypt_keeps :
      (v : H.Keys) (pd dir : Str) (h : H.State)
      → content (H.encrypt_tree v pd dir h).1 pd ≡ content h pd
  pub remove_keeps :
      (p q : Str) (h : H.State) → Apart p q → content (H.remove_all p h).1 q ≡ content h q

module _ (H : Host) where
  pub keys_of-remove_keys :
      (name n : Str) (m : List (Str × H.Keys))
      → keys_of H n (remove_keys H name m) ≡ (if str_eq name n then none else keys_of H n m)
  unfolding keys_of remove_keys
  keys_of-remove_keys name n [] = ground arith
  keys_of-remove_keys name n ((k, u) ∷ m) =
      ground
        (arith, str_eq_iff k name, str_eq_iff name n, str_eq_iff k n, keys_of-remove_keys name n m)

  module _ (sync_dir cache_root : Str) (Content : Type 0) (content : H.State → Str → Content)
      (laws : KeepsPlain H Content content) (vi : VaultInfo) (s : Manager H) where
    -- The folder of the plaintext, and its content before.
    abbrev pub pd : Str
    pd = plain_dir H sync_dir cache_root vi.name

    abbrev pub sealed_dir : Str
    sealed_dir = FilePath.join vi.dir (codes "d")

    -- The ciphertext of before was removed, and then the plaintext, as it was, was encrypted, which led to the
    -- host `made`; the ciphertext in the host `h` is the one that this encryption made.
    pub record Encrypted (v : H.Keys) (made h : H.State) : Type 0 where
      pub known : keys_of H vi.name s.unlocked ≡ some v
      pub start : H.State
      pub cleared : H.State
      pub clears : H.remove_all sealed_dir start ≡ (ok tt, cleared)
      pub plain : content cleared pd ≡ content s.host pd
      pub encrypts : H.encrypt_tree v pd vi.dir cleared ≡ (ok tt, made)
      pub stays : content h sealed_dir ≡ content made sealed_dir

    -- How a Close ends: with the plaintext untouched, with its removal failed after the encryption, or with
    -- the plaintext encrypted and removed.
    pub data Closed : Result (Unit {0}) → Manager H → Type 0 where
      refused :
          (e : Error) (h : H.State)
          → content h pd ≡ content s.host pd
          → Closed (err e) (record s { host = h })
      left_over :
          (e : Error) (v : H.Keys) (h made : H.State)
          → Encrypted v made h
          → H.remove_all pd made ≡ (err e, h)
          → Closed (err e) (record s { host = h })
      encrypted :
          (v : H.Keys) (h made : H.State)
          → Encrypted v made h
          → H.remove_all pd made ≡ (ok tt, h)
          → Closed (ok tt) (record { host = h; unlocked = remove_keys H vi.name s.unlocked })

    -- How the end of a Close that had the keys `v` ends, and how a Close ends.
    abbrev Resealed : H.Keys → H.State → Type 0
    Resealed v h =
        let (r, m) = reseal H sync_dir cache_root vi v (record s { host = h }) in Closed r m

    abbrev Ended : Type 0
    Ended = let (r, m) = close H sync_dir cache_root vi s in Closed r m

    Closed-reseal :
        (v : H.Keys) (h : H.State)
        → keys_of H vi.name s.unlocked ≡ some v
        → Apart sealed_dir pd
        → content h pd ≡ content s.host pd
        → Resealed v h
    unfolding reseal forget_keys
    Closed-reseal v h known apart same = first (H.remove_all sealed_dir h).0 refl
      where
        cleared : H.State
        cleared = (H.remove_all sealed_dir h).1

        kept : content cleared pd ≡ content s.host pd
        kept = laws.remove_keeps sealed_dir pd h apart ∙ same

        left : H.State
        left = (H.encrypt_tree v pd vi.dir cleared).1

        made :
            (H.remove_all sealed_dir h).0 ≡ ok tt
            → (H.encrypt_tree v pd vi.dir cleared).0 ≡ ok tt
            → Encrypted v left (H.remove_all pd left).1
        made e f = record {
          known = known;
          start = h;
          cleared = cleared;
          clears = ap (λ r. (r, cleared)) e;
          plain = kept;
          encrypts = ap (λ r. (r, left)) f;
          stays = laws.remove_keeps pd sealed_dir left (Apart-sym sealed_dir pd apart);
        }

        third :
            (r : Result (Unit {0}))
            → (H.remove_all sealed_dir h).0 ≡ ok tt
            → (H.encrypt_tree v pd vi.dir cleared).0 ≡ ok tt
            → (H.remove_all pd left).0 ≡ r
            → Resealed v h
        third (ok a) e f g =
            rw (e, f, g)
              (encrypted v (H.remove_all pd left).1 left (made e f)
                (ap (λ r. (r, (H.remove_all pd left).1)) g))
        third (err x) e f g =
            rw (e, f, g)
              (left_over x v (H.remove_all pd left).1 left (made e f)
                (ap (λ r. (r, (H.remove_all pd left).1)) g))

        second :
            (r : Result (Unit {0}))
            → (H.remove_all sealed_dir h).0 ≡ ok tt
            → (H.encrypt_tree v pd vi.dir cleared).0 ≡ r
            → Resealed v h
        second (ok a) e f = third (H.remove_all pd left).0 e f refl
        second (err x) e f =
            rw (e, f) (refused x left (laws.encrypt_keeps v pd vi.dir cleared ∙ kept))

        first : (r : Result (Unit {0})) → (H.remove_all sealed_dir h).0 ≡ r → Resealed v h
        first (ok a) e = second (H.encrypt_tree v pd vi.dir cleared).0 e refl
        first (err x) e = rw e (refused x cleared kept)

    -- A Close that fails keeps the keys in memory, and the plaintext is as it was, unless it had already been
    -- encrypted (when only its removal failed). A Close that succeeds had the keys, has removed the old
    -- ciphertext, then encrypted the plaintext as it was, then removed the plaintext, and has forgotten the
    -- keys of this vault and of no other. In both cases after an encryption the ciphertext that is there
    -- at the end is the one that the encryption made. The old ciphertext and the plaintext lie apart from
    -- each other.
    pub close-Closed :
        Apart sealed_dir pd
        → Closed (close H sync_dir cache_root vi s).0 (close H sync_dir cache_root vi s).1
    unfolding close close_with
    close-Closed apart = go (keys_of H vi.name s.unlocked) refl
      where
        looked :
            (v : H.Keys) (r : Result (Unit {0}))
            → keys_of H vi.name s.unlocked ≡ some v
            → (H.stat pd s.host).0 ≡ r
            → Ended
        looked v (ok a) e f =
            rw (e, f) (Closed-reseal v (H.stat pd s.host).1 e apart (laws.stat_keeps pd pd s.host))
        looked v (err x) e f =
            rw (e, f)
              (refused (not_open vi.name) (H.stat pd s.host).1 (laws.stat_keeps pd pd s.host))

        go : (o : Option H.Keys) → keys_of H vi.name s.unlocked ≡ o → Ended
        go none e = rw e (refused locked s.host refl)
        go (some v) e = looked v (H.stat pd s.host).0 e refl
