-- ===== src/Tests/Keys.antt =====
-- Names, wrapped keys and recovery phrases with ciphers that leave their input as it is, and a session with
-- one vault.
use mathlib.Core.Path.{subst}
use discodrive_apps.Base.{
  ℕ, zero, suc, Bool, ap, sym, ◌+◌, ◌-◌, ◌<◌, ◌≡◌, ◌↔◌, refl, true, false, ◌||◌, Option, none, some,
  List, [], ◌∷◌, ◌++◌, Str, codes, length, replicate, str_eq, has_prefix, if◌then◌else◌, arith, All,
}
use discodrive_apps.Base.Exec.{ok, err, not_exist}
use discodrive_apps.Go.FilePath
use discodrive_apps.Vault.Siv.{Ciphers, IsCiphers, siv_encrypt, siv_decrypt}
use discodrive_apps.Vault.Siv.RoundTrip.{siv_decrypt-siv_encrypt}
use discodrive_apps.Vault.KeyWrap.{BlockCipher, IsBlockCipher, wrap, unwrap}
use discodrive_apps.Vault.KeyWrap.RoundTrip.{unwrap-wrap}
use discodrive_apps.Vault.Recovery.{WordList, IsWordList, recovery_key, recovery_to_keys}
use discodrive_apps.Vault.Recovery.RoundTrip.{recovery_to_keys-recovery_key}
use discodrive_apps.VaultMgr.{Host, VaultInfo, Manager, plain_dir, close, open_with_password}
use discodrive_apps.VaultMgr.Closing.{Apart, KeepsPlain, Closed, close-Closed}
use discodrive_apps.VaultMgr.Opening.{Opened, open_with_password-Opened}
use discodrive_apps.Syncer.{
  Loop, Reachable, started, on_trigger, on_debounce, pass_ends, start, step, ticked, triggered,
  debounced, ended,
}
use discodrive_apps.Syncer.Runs.{Fine, Reachable-Fine}
use discodrive_apps.Tests.{root, device, start as machine}

abbrev pub ciphers : Ciphers
ciphers = record { cmac = λ key. some (λ m. replicate 16 7); ctr = λ key iv src. src }

abbrev sum : List ℕ → Option (List ℕ → List ℕ) → List ℕ
sum m none = []
sum m (some mac) = mac m

sevens :
    (mac : List ℕ → List ℕ) → ciphers.cmac [] ≡ some mac → (m : List ℕ) → replicate 16 7 ≡ mac m
sevens mac e m = ap (sum m) e

small : All (λ b. b < 256) (replicate 16 7)
small = (
  omega arith,
  (
    omega arith,
    (
      omega arith,
      (
        omega arith,
        (
          omega arith,
          (
            omega arith,
            (
              omega arith,
              (
                omega arith,
                (
                  omega arith,
                  (
                    omega arith,
                    (
                      omega arith,
                      (omega arith, (omega arith, (omega arith, (omega arith, (omega arith, tt))))),
                    ),
                  ),
                ),
              ),
            ),
          ),
        ),
      ),
    ),
  ),
)

pub ciphers-IsCiphers : IsCiphers ciphers
ciphers-IsCiphers = record {
  length-cmac = λ key mac e m. ap length (sym (sevens mac e m));
  bytes-cmac = λ key mac e m. subst (All (λ b. b < 256)) (sevens mac e m) small;
  bytes-ctr = λ key iv src h. h;
  ctr-ctr = λ key iv src. refl;
}

bytes : All (λ b. b < 256) (replicate 16 7 ++ codes "name")
bytes = (
  omega arith,
  (
    omega arith,
    (
      omega arith,
      (
        omega arith,
        (
          omega arith,
          (
            omega arith,
            (
              omega arith,
              (
                omega arith,
                (
                  omega arith,
                  (
                    omega arith,
                    (
                      omega arith,
                      (
                        omega arith,
                        (
                          omega arith,
                          (
                            omega arith,
                            (
                              omega arith,
                              (
                                omega arith,
                                (omega arith, (omega arith, (omega arith, (omega arith, tt)))),
                              ),
                            ),
                          ),
                        ),
                      ),
                    ),
                  ),
                ),
              ),
            ),
          ),
        ),
      ),
    ),
  ),
)

siv_decrypt-siv_encrypt_example :
    (siv_encrypt ciphers (replicate 32 1) (replicate 32 2) (codes "name") (some [])
      ≡ ok (replicate 16 7 ++ codes "name"))
    ↔ (siv_decrypt ciphers
          (replicate 32 1)
          (replicate 32 2)
          (replicate 16 7 ++ codes "name")
          (some [])
        ≡ ok (codes "name"))
siv_decrypt-siv_encrypt_example =
    siv_decrypt-siv_encrypt ciphers ciphers-IsCiphers (replicate 32 1) (replicate 32 2) (some [])
      (codes "name") (replicate 16 7 ++ codes "name") bytes

abbrev block : BlockCipher
block = record { encrypt = λ key b. b; decrypt = λ key b. b }

block-IsBlockCipher : IsBlockCipher block
block-IsBlockCipher = record { IsBlock-encrypt = λ key b h. h; decrypt-encrypt = λ key b h. refl }

nines : All (λ b. b < 256) (replicate 8 9)
nines = (
  omega arith,
  (
    omega arith,
    (omega arith, (omega arith, (omega arith, (omega arith, (omega arith, (omega arith, tt)))))),
  ),
)

unwrap-wrap_example :
    (wrapped : List ℕ) × (wrap block (replicate 32 5) (replicate 8 9) ≡ ok wrapped)
    × (unwrap block (replicate 32 5) wrapped ≡ ok (replicate 8 9))
unwrap-wrap_example =
    unwrap-wrap block block-IsBlockCipher (replicate 32 5) (replicate 8 9) refl nines (omega arith)
      (omega arith)

abbrev index_of : Str → Option ℕ
index_of [] = none
index_of (c ∷ s) = some (c - 100)

-- The word of a number is one letter.
abbrev word_list : WordList
word_list = record { word = λ i. (100 + i) ∷ []; index = index_of }

word_list-IsWordList : IsWordList word_list
word_list-IsWordList = record {
  index-word = λ i h. ground arith;
  letters = λ i h. (ground arith, tt);
  not_empty = λ i h. (100 + i, [], refl);
}

abbrev crc : List ℕ → ℕ
crc raw = length raw

threes : All (λ b. b < 256) (replicate 32 3)
threes = (
  omega arith,
  (
    omega arith,
    (
      omega arith,
      (
        omega arith,
        (
          omega arith,
          (
            omega arith,
            (
              omega arith,
              (
                omega arith,
                (
                  omega arith,
                  (
                    omega arith,
                    (
                      omega arith,
                      (
                        omega arith,
                        (
                          omega arith,
                          (
                            omega arith,
                            (
                              omega arith,
                              (
                                omega arith,
                                (
                                  omega arith,
                                  (
                                    omega arith,
                                    (
                                      omega arith,
                                      (
                                        omega arith,
                                        (
                                          omega arith,
                                          (
                                            omega arith,
                                            (
                                              omega arith,
                                              (
                                                omega arith,
                                                (
                                                  omega arith,
                                                  (
                                                    omega arith,
                                                    (
                                                      omega arith,
                                                      (
                                                        omega arith,
                                                        (
                                                          omega arith,
                                                          (
                                                            omega arith,
                                                            (omega arith, (omega arith, tt)),
                                                          ),
                                                        ),
                                                      ),
                                                    ),
                                                  ),
                                                ),
                                              ),
                                            ),
                                          ),
                                        ),
                                      ),
                                    ),
                                  ),
                                ),
                              ),
                            ),
                          ),
                        ),
                      ),
                    ),
                  ),
                ),
              ),
            ),
          ),
        ),
      ),
    ),
  ),
)

fours : All (λ b. b < 256) (replicate 32 4)
fours = (
  omega arith,
  (
    omega arith,
    (
      omega arith,
      (
        omega arith,
        (
          omega arith,
          (
            omega arith,
            (
              omega arith,
              (
                omega arith,
                (
                  omega arith,
                  (
                    omega arith,
                    (
                      omega arith,
                      (
                        omega arith,
                        (
                          omega arith,
                          (
                            omega arith,
                            (
                              omega arith,
                              (
                                omega arith,
                                (
                                  omega arith,
                                  (
                                    omega arith,
                                    (
                                      omega arith,
                                      (
                                        omega arith,
                                        (
                                          omega arith,
                                          (
                                            omega arith,
                                            (
                                              omega arith,
                                              (
                                                omega arith,
                                                (
                                                  omega arith,
                                                  (
                                                    omega arith,
                                                    (
                                                      omega arith,
                                                      (
                                                        omega arith,
                                                        (
                                                          omega arith,
                                                          (
                                                            omega arith,
                                                            (omega arith, (omega arith, tt)),
                                                          ),
                                                        ),
                                                      ),
                                                    ),
                                                  ),
                                                ),
                                              ),
                                            ),
                                          ),
                                        ),
                                      ),
                                    ),
                                  ),
                                ),
                              ),
                            ),
                          ),
                        ),
                      ),
                    ),
                  ),
                ),
              ),
            ),
          ),
        ),
      ),
    ),
  ),
)

recovery_to_keys-recovery_key_example :
    (phrase : Str) × (recovery_key word_list crc (replicate 32 3) (replicate 32 4) ≡ ok phrase)
    × (recovery_to_keys word_list crc phrase ≡ ok (replicate 32 3, replicate 32 4))
recovery_to_keys-recovery_key_example =
    recovery_to_keys-recovery_key word_list word_list-IsWordList crc (replicate 32 3)
      (replicate 32 4) refl refl threes fours

-- A file system of folders, and vaults that open with any password.
abbrev Folders : Type 0
Folders = Str → Bool

abbrev folders : Host
folders = record {
  State = Folders;
  Keys = Str;
  read_dir = λ p d. (ok [], d);
  stat = λ p d. (if d p then ok tt else err not_exist, d);
  mkdir_all = λ p d. (ok tt, λ q. if str_eq p q then true else d q);
  remove_all = λ p d.
      (ok tt, λ q. if str_eq p q || has_prefix q (p ++ FilePath.slash ∷ []) then false else d q);
  create_vault = λ dir password d. (ok password, d);
  open_vault = λ dir password d. (ok password, d);
  open_with_keys = λ dir enc_key mac_key d. (ok enc_key, d);
  decrypt_tree = λ v dir pd d. (ok tt, λ q. if str_eq pd q then true else d q);
  encrypt_tree = λ v pd dir d. (ok tt, d);
}

folders-KeepsPlain : KeepsPlain folders Bool (λ d p. d p)
folders-KeepsPlain = record {
  stat_keeps = λ p q d. refl;
  encrypt_keeps = λ v pd dir d. refl;
  remove_keeps = λ p q d (e, f, g). rw (e, f);
}

abbrev vault : VaultInfo
vault = record { name = codes "v"; dir = codes "/s/v" }

abbrev session : Manager folders
session = record { host = λ p. true; unlocked = (codes "v", codes "k") ∷ [] }

apart :
    Apart
      (FilePath.join (codes "/s/v") (codes "d"))
      (plain_dir folders (codes "/s") (codes "/c") (codes "v"))
unfolding plain_dir FilePath.join FilePath.clean FilePath.split FilePath.join_elements
    FilePath.resolve FilePath.elements str_eq has_prefix
apart = (refl, refl, refl)

close-Closed_example :
    Closed folders
      (codes "/s")
      (codes "/c")
      Bool
      (λ d p. d p)
      folders-KeepsPlain
      vault
      session
      (close folders (codes "/s") (codes "/c") vault session).0
      (close folders (codes "/s") (codes "/c") vault session).1
close-Closed_example =
    close-Closed folders (codes "/s") (codes "/c") Bool (λ d p. d p) folders-KeepsPlain vault
      session apart

open_with_password-Opened_example :
    Opened folders
      (codes "/s")
      (codes "/c")
      vault
      session
      (λ v h. folders.open_vault vault.dir (codes "k") session.host ≡ (ok v, h))
      (open_with_password folders (codes "/s") (codes "/c") vault (codes "k") session).0
      (open_with_password folders (codes "/s") (codes "/c") vault (codes "k") session).1
open_with_password-Opened_example =
    open_with_password-Opened folders (codes "/s") (codes "/c") vault session (codes "k")

-- The loop has taken its first trigger, and time passes.
abbrev armed : ℕ → Loop device root true 4
armed n = record (on_trigger device root true 4 (started device root true 4 machine)) { clock = n }

armed_later : (n : ℕ) → Reachable device root true 4 machine (armed n)
armed_later zero =
    step (started device root true 4 machine) _ start
      (triggered (started device root true 4 machine) refl refl)
armed_later (suc n) = step (armed n) (armed (suc n)) (armed_later n) (ticked (armed n))

-- After half a second the first pass has run.
Reachable-Fine_example :
    Fine device root true 4
      (pass_ends device root true 4 (on_debounce device root true 4 (armed 500)))
Reachable-Fine_example =
    Reachable-Fine device root true 4 machine
      (pass_ends device root true 4 (on_debounce device root true 4 (armed 500)))
      (step _ _ (step _ _ (armed_later 500) (debounced (armed 500) refl refl (omega arith)))
        (ended (on_debounce device root true 4 (armed 500)) refl))
