-- ===== src/Vault/Siv/RoundTrip.antt =====
-- Encryption and decryption in AES-SIV are inverse to each other.
use discodrive_apps.Base.{
  ℕ, zero, suc, ◌<◌, ◌≤◌, ◌≡◌, refl, sym, ap, ◌∙◌, ◌↔◌, ◌⊎◌, inl, inr, true, false, Option, some,
  List, [], ◌∷◌, ◌++◌, length, take, drop, replicate, ltb, ◌==◌, if◌then◌else◌, All, arith,
  Bool-cases, Option-cases, ==_iff, length-append, take-append, drop-append, take-append-drop,
}
use discodrive_apps.Base.Exec.{Error, Result, ok, err, bad_format, auth_failed}
use discodrive_apps.Vault.Content.{is_aes_key}
use discodrive_apps.Vault.Siv.Bits.{
  or_bits, xor_byte, or_byte, xor_byte_self, xor_byte_zero, or_byte_zero, xor_byte_bound,
  or_byte_bound,
}
use discodrive_apps.Vault.Siv.{
  Ciphers, IsCiphers, difference, subtle_equal, iv_of, s2v, s2v_cmac, siv_encrypt, siv_decrypt,
  last_block, with_aad,
}

abbrev pub IsByte : ℕ → Type 0
IsByte b = b < 256

or_zero : or_byte 0 0 ≡ 0
unfolding or_byte or_bits
or_zero = refl

difference_self : (a : List ℕ) → difference a a 0 ≡ 0
unfolding difference
difference_self [] = refl
difference_self (x ∷ xs) = rw (xor_byte_self x, or_zero) (difference_self xs)

subtle_equal_self : (a : List ℕ) → subtle_equal a a ≡ true
unfolding subtle_equal
subtle_equal_self a =
    let e : (length a == length a) ≡ true = ground arith in rw (e, difference_self a)

difference_zero :
    (a b : List ℕ) (v : ℕ)
    → All IsByte a
    → All IsByte b
    → v < 256
    → length a ≡ length b
    → difference a b v ≡ 0
    → (v ≡ 0) × (a ≡ b)
unfolding difference
difference_zero [] [] v h k l n e = (e, refl)
difference_zero [] (y ∷ ys) v h k l n e = absurd (omega arith)
difference_zero (x ∷ xs) [] v h k l n e = absurd (omega arith)
difference_zero (x ∷ xs) (y ∷ ys) v h k l n e =
    let (o, rest) =
      difference_zero xs ys (or_byte v (xor_byte x y)) h.1 k.1 (or_byte_bound v (xor_byte x y))
        (omega arith) e in
    let (z, d) = or_byte_zero v (xor_byte x y) l (xor_byte_bound x y) o in
    (z, rw (xor_byte_zero x y h.0 k.0 d, rest))

subtle_equal_sound : (a b : List ℕ) → All IsByte a → All IsByte b → subtle_equal a b ≡ true → a ≡ b
unfolding subtle_equal
subtle_equal_sound a b h k e = elim (Bool-cases (length a == length b)) [
  | inl n ↦
      let d : (difference a b 0 == 0) ≡ true = rw n at e in
      (difference_zero a b 0 h k (omega arith) ((==_iff (length a) (length b)).0 n)
        ((==_iff (difference a b 0) 0).0 d)).1
  | inr n ↦ absurd (ground arith)
]

All-take : (n : ℕ) (xs : List ℕ) → All IsByte xs → All IsByte (take n xs)
All-take zero xs h = tt
All-take (suc n) [] h = tt
All-take (suc n) (x ∷ xs) h = (h.0, All-take n xs h.1)

module _ (c : Ciphers) (laws : IsCiphers c) (mac_key enc_key : List ℕ) (aad : Option (List ℕ)) where
  -- What a ciphertext decrypts to, if its tag is right.
  abbrev plain_of : List ℕ → List ℕ
  plain_of ct = c.ctr enc_key (iv_of (take 16 ct)) (drop 16 ct)

  abbrev sealed : (List ℕ → List ℕ) → List ℕ → List ℕ
  sealed mac pt = s2v mac aad pt ++ c.ctr enc_key (iv_of (s2v mac aad pt)) pt

  abbrev opened : (List ℕ → List ℕ) → List ℕ → Result (List ℕ)
  opened mac ct =
      if subtle_equal (s2v mac aad (plain_of ct)) (take 16 ct)
      then ok (plain_of ct)
      else err auth_failed

  siv_encrypt-cases :
      (pt : List ℕ)
      → ((e : Error) × (siv_encrypt c mac_key enc_key pt aad ≡ err e))
        ⊎ ((mac : List ℕ → List ℕ) × (c.cmac mac_key ≡ some mac)
            × (is_aes_key enc_key ≡ true)
            × (siv_encrypt c mac_key enc_key pt aad ≡ ok (sealed mac pt)))
  unfolding siv_encrypt s2v_cmac
  siv_encrypt-cases pt = elim (Option-cases (c.cmac mac_key)) [
    | inl n ↦ inl (bad_format, rw n)
    | inr (mac, m) ↦ elim (Bool-cases (is_aes_key enc_key)) [
      | inr a ↦ inl (bad_format, rw (m, a))
      | inl a ↦ inr (mac, m, a, rw (m, a))
    ]
  ]

  siv_decrypt-cases :
      (ct : List ℕ)
      → ((e : Error) × (siv_decrypt c mac_key enc_key ct aad ≡ err e))
        ⊎ ((mac : List ℕ → List ℕ) × (c.cmac mac_key ≡ some mac)
            × (is_aes_key enc_key ≡ true)
            × (16 ≤ length ct)
            × (siv_decrypt c mac_key enc_key ct aad ≡ opened mac ct))
  unfolding siv_decrypt s2v_cmac
  siv_decrypt-cases ct = elim (Bool-cases (ltb (length ct) 16)) [
    | inl l ↦ inl (bad_format, rw l)
    | inr l ↦ elim (Bool-cases (is_aes_key enc_key)) [
      | inr a ↦ inl (bad_format, rw (l, a))
      | inl a ↦ elim (Option-cases (c.cmac mac_key)) [
        | inl n ↦ inl (bad_format, rw (l, a, n))
        | inr (mac, m) ↦ inr (mac, m, a, ground arith, rw (l, a, m))
      ]
    ]
  ]

  siv_encrypt-some :
      (mac : List ℕ → List ℕ) (pt : List ℕ)
      → c.cmac mac_key ≡ some mac
      → is_aes_key enc_key ≡ true
      → siv_encrypt c mac_key enc_key pt aad ≡ ok (sealed mac pt)
  unfolding siv_encrypt s2v_cmac
  siv_encrypt-some mac pt m a = rw (m, a)

  siv_decrypt-some :
      (mac : List ℕ → List ℕ) (ct : List ℕ)
      → c.cmac mac_key ≡ some mac
      → is_aes_key enc_key ≡ true
      → 16 ≤ length ct
      → siv_decrypt c mac_key enc_key ct aad ≡ opened mac ct
  unfolding siv_decrypt s2v_cmac
  siv_decrypt-some mac ct m a l = let e : ltb (length ct) 16 ≡ false = ground arith in rw (e, m, a)

  plain_of-append :
      (tag rest : List ℕ)
      → length tag ≡ 16
      → plain_of (tag ++ rest) ≡ c.ctr enc_key (iv_of tag) rest
  plain_of-append tag rest h =
      ap (λ t. c.ctr enc_key (iv_of t) (drop 16 (tag ++ rest))) (take-append tag rest h)
      ∙ ap (λ r. c.ctr enc_key (iv_of tag) r) (drop-append tag rest h)

  opened-sealed :
      (mac : List ℕ → List ℕ) (pt : List ℕ)
      → c.cmac mac_key ≡ some mac
      → opened mac (sealed mac pt) ≡ ok pt
  opened-sealed mac pt m =
      let tag = s2v mac aad pt in
      let h : length tag ≡ 16 = laws.length-cmac mac_key mac m _ in
      let plain : plain_of (sealed mac pt) ≡ pt =
        plain_of-append tag (c.ctr enc_key (iv_of tag) pt) h
        ∙ laws.ctr-ctr enc_key (iv_of tag) pt in
      let test : subtle_equal (s2v mac aad (plain_of (sealed mac pt))) (take 16 (sealed mac pt))
          ≡ true =
        ap (λ x. subtle_equal (s2v mac aad x) (take 16 (sealed mac pt))) plain
        ∙ ap (λ t. subtle_equal tag t) (take-append tag (c.ctr enc_key (iv_of tag) pt) h)
        ∙ subtle_equal_self tag in
      ap (λ b. if b then ok (plain_of (sealed mac pt)) else err auth_failed) test ∙ ap ok plain

  decrypts :
      (pt ct : List ℕ)
      → siv_encrypt c mac_key enc_key pt aad ≡ ok ct
      → siv_decrypt c mac_key enc_key ct aad ≡ ok pt
  decrypts pt ct h = elim (siv_encrypt-cases pt) [
    | inl (e, k) ↦ cc
    | inr (mac, m, a, k) ↦
        let same : sealed mac pt ≡ ct = cc in
        let long : 16 ≤ length (sealed mac pt) = omega (
          arith,
          length-append (s2v mac aad pt) (c.ctr enc_key (iv_of (s2v mac aad pt)) pt),
          laws.length-cmac mac_key mac m (last_block pt (with_aad mac aad (mac (replicate 16 0)))),
        ) in
        ap (λ x. siv_decrypt c mac_key enc_key x aad) (sym same)
        ∙ siv_decrypt-some mac (sealed mac pt) m a long
        ∙ opened-sealed mac pt m
  ]

  sealed-opened :
      (mac : List ℕ → List ℕ) (pt ct : List ℕ)
      → c.cmac mac_key ≡ some mac
      → All IsByte ct
      → opened mac ct ≡ ok pt
      → sealed mac pt ≡ ct
  sealed-opened mac pt ct m bytes h =
      elim (Bool-cases (subtle_equal (s2v mac aad (plain_of ct)) (take 16 ct))) [
        | inr n ↦ absurd (ground arith)
        | inl e ↦
            let same : plain_of ct ≡ pt = ground arith in
            let tag : s2v mac aad (plain_of ct) ≡ take 16 ct =
              subtle_equal_sound _ _ (laws.bytes-cmac mac_key mac m _) (All-take 16 ct bytes) e in
            rw (sym same, tag, laws.ctr-ctr enc_key (iv_of (take 16 ct)) (drop 16 ct))
              (take-append-drop 16 ct)
      ]

  encrypts :
      (pt ct : List ℕ)
      → All IsByte ct
      → siv_decrypt c mac_key enc_key ct aad ≡ ok pt
      → siv_encrypt c mac_key enc_key pt aad ≡ ok ct
  encrypts pt ct bytes h = elim (siv_decrypt-cases ct) [
    | inl (e, k) ↦ cc
    | inr (mac, m, a, l, k) ↦
        siv_encrypt-some mac pt m a ∙ ap ok (sealed-opened mac pt ct m bytes (sym k ∙ h))
  ]

  -- Under the same keys and the same additional data, a ciphertext (a list of bytes) decrypts to a
  -- plaintext exactly when that plaintext encrypts to it.
  pub siv_decrypt-siv_encrypt :
      (pt ct : List ℕ)
      → All IsByte ct
      → (siv_encrypt c mac_key enc_key pt aad ≡ ok ct)
        ↔ (siv_decrypt c mac_key enc_key ct aad ≡ ok pt)
  siv_decrypt-siv_encrypt pt ct bytes = (decrypts pt ct, encrypts pt ct bytes)
