-- ===== src/Vault/KeyWrap/RoundTrip.antt =====
-- A wrapped key unwraps to the key.
use discodrive_apps.Base.{
  ℕ, zero, suc, ◌+◌, ◌-◌, ◌*◌, ◌/◌, ◌%◌, ◌≤◌, ◌≡◌, refl, ap, ◌∙◌, true, false, List, [], ◌∷◌, ◌++◌,
  length, take, drop, ltb, ◌==◌, All, arith, str_eq_self, length-append, take-append, drop-append,
  take-append-drop, All-append,
}
use discodrive_apps.Base.Exec.{ok}
use discodrive_apps.Vault.Content.{is_aes_key, be64}
use discodrive_apps.Vault.Siv.{xor_bytes}
use discodrive_apps.Vault.KeyWrap.Blocks.{
  AreBlocks-blocks, IsBlock-append, IsBlock-drop, IsBlock-take, IsBlock-xor_bytes, blocks-joined,
  joined-blocks, length-joined, xor_bytes_twice, IsByte, IsByte-joined,
}
use discodrive_apps.Vault.KeyWrap.{
  BlockCipher, IsBlockCipher, IsBlock, Registers, default_iv, blocks, joined, wrap_row, unwrap_row,
  wrap_rounds, unwrap_rounds, written, checked, wrap, unwrap,
}

-- A state of the loops with `n` blocks.
abbrev IsRegisters : ℕ → Registers → Type 0
IsRegisters n s = IsBlock 8 s.0 × All (IsBlock 8) s.1 × (length s.1 ≡ n)

module _ (c : BlockCipher) (laws : IsBlockCipher c) (kek : List ℕ) where
  -- A step of the loop.
  abbrev mixed : ℕ → List ℕ → List ℕ → List ℕ
  mixed t a r = xor_bytes (take 8 (c.encrypt kek (a ++ r))) (be64 t)

  IsBlock-encrypted :
      (a r : List ℕ) → IsBlock 8 a → IsBlock 8 r → IsBlock 16 (c.encrypt kek (a ++ r))
  IsBlock-encrypted a r h k = laws.IsBlock-encrypt kek (a ++ r) (IsBlock-append a r h k)

  IsBlock-mixed : (t : ℕ) (a r : List ℕ) → IsBlock 8 a → IsBlock 8 r → IsBlock 8 (mixed t a r)
  IsBlock-mixed t a r h k =
      IsBlock-xor_bytes 8 (take 8 (c.encrypt kek (a ++ r))) (be64 t)
        (IsBlock-take _ (IsBlock-encrypted a r h k)).0 refl

  decrypted :
      (t : ℕ) (a r : List ℕ)
      → IsBlock 8 a
      → IsBlock 8 r
      → c.decrypt kek (xor_bytes (mixed t a r) (be64 t) ++ drop 8 (c.encrypt kek (a ++ r))) ≡ a ++ r
  decrypted t a r h k =
      let b = c.encrypt kek (a ++ r) in
      let e = IsBlock-encrypted a r h k in
      let first = IsBlock-take b e in
      ap (λ x. c.decrypt kek (x ++ drop 8 b)) (xor_bytes_twice (take 8 b) (be64 t) first.1 first.0)
      ∙ ap (c.decrypt kek) (take-append-drop 8 b)
      ∙ laws.decrypt-encrypt kek (a ++ r) (IsBlock-append a r h k)

  IsRegisters-wrap_row :
      (n t : ℕ) (a : List ℕ) (rs : List (List ℕ))
      → IsRegisters n (a, rs)
      → IsRegisters n (wrap_row c kek t a rs)
  unfolding wrap_row
  IsRegisters-wrap_row n t a [] h = h
  IsRegisters-wrap_row zero t a (r ∷ rs) (h, k, l) = absurd (omega arith)
  IsRegisters-wrap_row (suc n) t a (r ∷ rs) (h, k, l) =
      let (h', k', l') =
        IsRegisters-wrap_row n (suc t) (mixed t a r) rs
          (IsBlock-mixed t a r h k.0, k.1, omega arith) in
      (h', (IsBlock-drop _ (IsBlock-encrypted a r h k.0), k'), ap suc l')

  unwrap_row-wrap_row :
      (t : ℕ) (a : List ℕ) (rs : List (List ℕ))
      → IsBlock 8 a
      → All (IsBlock 8) rs
      → unwrap_row c kek t (wrap_row c kek t a rs).0 (wrap_row c kek t a rs).1 ≡ (a, rs)
  unfolding wrap_row unwrap_row
  unwrap_row-wrap_row t a [] h k = refl
  unwrap_row-wrap_row t a (r ∷ rs) h k = rw (
    unwrap_row-wrap_row (suc t) (mixed t a r) rs (IsBlock-mixed t a r h k.0) k.1,
    decrypted t a r h k.0,
    take-append a r h.0,
    drop-append a r h.0,
  )

  IsRegisters-wrap_rounds :
      (k n j : ℕ) (s : Registers) → IsRegisters n s → IsRegisters n (wrap_rounds c kek k n j s)
  unfolding wrap_rounds
  IsRegisters-wrap_rounds zero n j s h = h
  IsRegisters-wrap_rounds (suc k) n j s h =
      IsRegisters-wrap_rounds k n (suc j) _ (IsRegisters-wrap_row n (n * j + 1) s.0 s.1 h)

  unwrap_rounds-wrap_rounds :
      (k n j : ℕ) (s : Registers)
      → IsRegisters n s
      → unwrap_rounds c kek k n j (wrap_rounds c kek k n j s) ≡ s
  unfolding wrap_rounds unwrap_rounds
  unwrap_rounds-wrap_rounds zero n j s h = refl
  unwrap_rounds-wrap_rounds (suc k) n j s h =
      let row = wrap_row c kek (n * j + 1) s.0 s.1 in
      ap (λ u. unwrap_row c kek (n * j + 1) u.0 u.1)
        (unwrap_rounds-wrap_rounds k n (suc j) row (IsRegisters-wrap_row n (n * j + 1) s.0 s.1 h))
      ∙ unwrap_row-wrap_row (n * j + 1) s.0 s.1 h.0 h.1

module _ (c : BlockCipher) (laws : IsBlockCipher c) (kek : List ℕ) where
  unwrap-written :
      (n : ℕ) (s : Registers)
      → 1 ≤ n
      → is_aes_key kek ≡ true
      → IsRegisters n s
      → unwrap c kek (written c kek s) ≡ checked c kek (unwrap_rounds c kek 6 n 0 s)
  unfolding unwrap
  unwrap-written n (a, rs) p k (h, b, l) =
      let len : length (a ++ joined rs) ≡ 8 + 8 * n =
        omega (arith, length-append a (joined rs), length-joined n rs b l, h.0) in
      let even : (length (a ++ joined rs) % 8 == 0) ≡ true = ground arith in
      let long : ltb (length (a ++ joined rs)) 16 ≡ false = ground arith in
      let count : length (a ++ joined rs) / 8 - 1 ≡ n = omega arith in
      rw (
        even,
        long,
        k,
        count,
        take-append a (joined rs) h.0,
        drop-append a (joined rs) h.0,
        blocks-joined n rs b l,
      )

  IsByte-written : (n : ℕ) (s : Registers) → IsRegisters n s → All IsByte (written c kek s)
  IsByte-written n (a, rs) (h, b, l) = All-append IsByte a (joined rs) h.1 (IsByte-joined rs b)

  -- The same as below, and what is wrapped are bytes.
  pub wrap-IsByte :
      (plaintext : List ℕ)
      → is_aes_key kek ≡ true
      → All IsByte plaintext
      → length plaintext % 8 ≡ 0
      → 8 ≤ length plaintext
      → (wrapped : List ℕ) × (wrap c kek plaintext ≡ ok wrapped)
        × (unwrap c kek wrapped ≡ ok plaintext)
        × All IsByte wrapped
  unfolding wrap
  wrap-IsByte plaintext k bytes m long =
      let n = length plaintext / 8 in
      let len : length plaintext ≡ 8 * n = omega arith in
      let start : Registers = (default_iv, blocks n plaintext) in
      let (all_blocks, count) = AreBlocks-blocks n plaintext len bytes in
      let good : IsRegisters n start = ((refl, bytes_iv), all_blocks, count) in
      let even : (length plaintext % 8 == 0) ≡ true = ground arith in
      let end = wrap_rounds c kek 6 n 0 start in
      (
        written c kek end,
        rw (even, k),
        unwrap-written n end (omega arith) k (IsRegisters-wrap_rounds c laws kek 6 n 0 start good)
            ∙ ap (checked c kek) (unwrap_rounds-wrap_rounds c laws kek 6 n 0 start good)
            ∙ rw (str_eq_self default_iv) (ap ok (joined-blocks n plaintext len)),
        IsByte-written n end (IsRegisters-wrap_rounds c laws kek 6 n 0 start good),
      )
    where
      bytes_iv : All IsByte default_iv
      bytes_iv = (
        omega arith,
        (
          omega arith,
          (
            omega arith,
            (omega arith, (omega arith, (omega arith, (omega arith, (omega arith, tt))))),
          ),
        ),
      )

  -- Wrapping bytes, whose number is a multiple of 8 and not 0, under an AES key succeeds, and unwrapping the
  -- result under the same key gives them back.
  pub unwrap-wrap :
      (plaintext : List ℕ)
      → is_aes_key kek ≡ true
      → All IsByte plaintext
      → length plaintext % 8 ≡ 0
      → 8 ≤ length plaintext
      → (wrapped : List ℕ) × (wrap c kek plaintext ≡ ok wrapped)
        × (unwrap c kek wrapped ≡ ok plaintext)
  unwrap-wrap plaintext k bytes m long =
      let (wrapped, e, f, b) = wrap-IsByte plaintext k bytes m long in (wrapped, e, f)
