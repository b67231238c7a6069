-- ===== src/VaultMgr/Opening.antt =====
-- What opening a vault does to the table of open vaults.
use discodrive_apps.Base.{
  ◌≡◌, refl, ap, ◌⊎◌, inl, inr, Bool, true, false, some, List, [], ◌∷◌, Str, codes, str_eq,
  str_eq_iff, if◌then◌else◌, arith,
}
use discodrive_apps.Base.Exec.{Error, Result, ok, err}
use discodrive_apps.Go.FilePath
use discodrive_apps.VaultMgr.{
  Host, VaultInfo, Manager, keys_of, assign, is_missing, store_unlocked, plain_dir, open_unlocked,
  open_with_password,
}

module _ (H : Host) where
  pub keys_of-assign :
      (name n : Str) (v : H.Keys) (m : List (Str × H.Keys))
      → keys_of H n (assign H name v m) ≡ (if str_eq name n then some v else keys_of H n m)
  unfolding keys_of assign
  keys_of-assign name n v [] = refl
  keys_of-assign name n v ((k, u) ∷ m) =
      ground
        (arith, str_eq_iff k name, str_eq_iff name n, str_eq_iff k n, keys_of-assign name n v m)

  module _ (sync_dir cache_root : Str) (vi : VaultInfo) (s : Manager H) where
    abbrev pub opened_dir : Str
    opened_dir = plain_dir H sync_dir cache_root vi.name

    abbrev pub data_dir : Str
    data_dir = FilePath.join vi.dir (codes "d")

    -- From the host `start` on the folder of the plaintext was made and the ciphertext looked for; then
    -- either there is none, or DecryptTree has succeeded, and nothing came after it: `h` is the host it led to.
    pub record Decrypted (v : H.Keys) (start h : H.State) : Type 0 where
      pub made : H.State
      pub makes : H.mkdir_all opened_dir start ≡ (ok tt, made)
      pub fills :
          ((is_missing (H.stat data_dir made).0 ≡ true) × (h ≡ (H.stat data_dir made).1))
          ⊎ ((is_missing (H.stat data_dir made).0 ≡ false)
              × (H.decrypt_tree v vi.dir opened_dir (H.stat data_dir made).1 ≡ (ok tt, h)))

    -- How an Open ends, where `Key v h` says that v are the keys of the vault, got in the host h.
    pub data Opened (Key : H.Keys → H.State → Type 0) : Result Str → Manager H → Type 0 where
      failed : (e : Error) (h : H.State) → Opened Key (err e) (record s { host = h })
      unlocked :
          (v : H.Keys) (start h : H.State)
          → Key v start
          → Decrypted v start h
          → Opened Key
              (ok opened_dir)
              (record { host = h; unlocked = assign H vi.name v s.unlocked })

    abbrev Entered : (H.Keys → H.State → Type 0) → H.Keys → H.State → Type 0
    Entered Key v h =
        let (r, m) = open_unlocked H sync_dir cache_root vi v (record s { host = h }) in
        Opened Key r m

    Opened-open_unlocked :
        (Key : H.Keys → H.State → Type 0) (v : H.Keys) (h : H.State) → Key v h → Entered Key v h
    unfolding open_unlocked store_unlocked
    Opened-open_unlocked Key v h key = first (H.mkdir_all opened_dir h).0 refl
      where
        made : H.State
        made = (H.mkdir_all opened_dir h).1

        look : Result (Unit {0}) × H.State
        look = H.stat data_dir made

        third :
            (r : Result (Unit {0}))
            → (H.mkdir_all opened_dir h).0 ≡ ok tt
            → is_missing look.0 ≡ false
            → (H.decrypt_tree v vi.dir opened_dir look.1).0 ≡ r
            → Entered Key v h
        third (ok a) e f g =
            rw (e, f, g)
              (unlocked v h (H.decrypt_tree v vi.dir opened_dir look.1).1 key (record {
                made = made;
                makes = ap (λ r. (r, made)) e;
                fills = inr (f, ap (λ r. (r, (H.decrypt_tree v vi.dir opened_dir look.1).1)) g);
              }))
        third (err x) e f g = rw (e, f, g) (failed x (H.decrypt_tree v vi.dir opened_dir look.1).1)

        second :
            (b : Bool)
            → (H.mkdir_all opened_dir h).0 ≡ ok tt
            → is_missing look.0 ≡ b
            → Entered Key v h
        second true e f =
            rw (e, f)
              (unlocked v h look.1 key
                (record { made = made; makes = ap (λ r. (r, made)) e; fills = inl (f, refl) }))
        second false e f = third (H.decrypt_tree v vi.dir opened_dir look.1).0 e f refl

        first : (r : Result (Unit {0})) → (H.mkdir_all opened_dir h).0 ≡ r → Entered Key v h
        first (ok a) e = second (is_missing look.0) e refl
        first (err x) e = rw e (failed x made)

    -- An Open that succeeds got the keys from the vault with the password, then made the folder of the
    -- plaintext, and then ended with the decryption of the vault into it, or with seeing that the vault has
    -- no ciphertext; nothing outside has changed after that. The keys are in memory under the vault's
    -- name, those of other vaults as before. One that fails,
    -- with a wrong password or at any later step, leaves the keys in memory as they were.
    pub open_with_password-Opened :
        (password : Str)
        → Opened
            (λ v h. H.open_vault vi.dir password s.host ≡ (ok v, h))
            (open_with_password H sync_dir cache_root vi password s).0
            (open_with_password H sync_dir cache_root vi password s).1
    unfolding open_with_password
    open_with_password-Opened password = go (H.open_vault vi.dir password s.host).0 refl
      where
        go :
            (r : Result H.Keys)
            → (H.open_vault vi.dir password s.host).0 ≡ r
            → Opened
                (λ v h. H.open_vault vi.dir password s.host ≡ (ok v, h))
                (open_with_password H sync_dir cache_root vi password s).0
                (open_with_password H sync_dir cache_root vi password s).1
        go (ok v) e = rw e (
            Opened-open_unlocked
              (λ u h.
                ◌≡◌ {A = Result H.Keys × H.State} (ok v, (H.open_vault vi.dir password s.host).1)
                  (ok u, h))
              v (H.open_vault vi.dir password s.host).1 refl)
        go (err x) e = rw e (failed x (H.open_vault vi.dir password s.host).1)
