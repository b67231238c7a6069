-- ===== src/Vault/Siv/Bits.antt =====
-- The operators ^ and | on bytes, bit by bit.
use discodrive_apps.Base.{
  ℕ, zero, suc, ◌+◌, ◌*◌, ◌/◌, ◌%◌, ◌<◌, ◌^◌, ◌≡◌, refl, ap, ◌∙◌, arith, ◌==◌, if◌then◌else◌,
}

unfoldable pub xor_bits : ℕ → ℕ → ℕ → ℕ
xor_bits zero a b = 0
xor_bits (suc n) a b = (a % 2 + b % 2) % 2 + 2 * xor_bits n (a / 2) (b / 2)

unfoldable pub or_bits : ℕ → ℕ → ℕ → ℕ
or_bits zero a b = 0
or_bits (suc n) a b = (if a % 2 + b % 2 == 0 then 0 else 1) + 2 * or_bits n (a / 2) (b / 2)

unfoldable pub xor_byte : ℕ → ℕ → ℕ
unfolding xor_bits
xor_byte a b = xor_bits 8 a b

unfoldable pub or_byte : ℕ → ℕ → ℕ
unfolding or_bits
or_byte a b = or_bits 8 a b

xor_bits_self : (n a : ℕ) → xor_bits n a a ≡ 0
unfolding xor_bits
xor_bits_self zero a = refl
xor_bits_self (suc n) a = omega (arith, xor_bits_self n (a / 2))

pub xor_byte_self : (a : ℕ) → xor_byte a a ≡ 0
unfolding xor_byte
xor_byte_self a = xor_bits_self 8 a

-- Zero in its lowest `n` bits means equal there.
xor_bits_zero :
    (n a b : ℕ) → xor_bits (suc n) a b ≡ 0 → (a % 2 ≡ b % 2) × (xor_bits n (a / 2) (b / 2) ≡ 0)
unfolding xor_bits
xor_bits_zero n a b h = (omega arith, omega arith)

or_bits_zero :
    (n a b : ℕ)
    → or_bits (suc n) a b ≡ 0
    → (a % 2 ≡ 0) × (b % 2 ≡ 0) × (or_bits n (a / 2) (b / 2) ≡ 0)
unfolding or_bits
or_bits_zero n a b h = ground arith

pub xor_bits_all : (n a b : ℕ) → a < 2 ^ n → b < 2 ^ n → xor_bits n a b ≡ 0 → a ≡ b
xor_bits_all zero a b h k e = omega arith
xor_bits_all (suc n) a b h k e =
    let (low, high) = xor_bits_zero n a b e in
    let half = xor_bits_all n (a / 2) (b / 2) (omega arith) (omega arith) high in omega arith

or_bits_all : (n a b : ℕ) → a < 2 ^ n → b < 2 ^ n → or_bits n a b ≡ 0 → (a ≡ 0) × (b ≡ 0)
or_bits_all zero a b h k e = (omega arith, omega arith)
or_bits_all (suc n) a b h k e =
    let (low, low', high) = or_bits_zero n a b e in
    let (half, half') = or_bits_all n (a / 2) (b / 2) (omega arith) (omega arith) high in
    (omega arith, omega arith)

xor_bits_bound : (n a b : ℕ) → xor_bits n a b < 2 ^ n
unfolding xor_bits
xor_bits_bound zero a b = omega arith
xor_bits_bound (suc n) a b = omega (arith, xor_bits_bound n (a / 2) (b / 2))

or_bits_bound : (n a b : ℕ) → or_bits n a b < 2 ^ n
unfolding or_bits
or_bits_bound zero a b = omega arith
or_bits_bound (suc n) a b = ground (arith, or_bits_bound n (a / 2) (b / 2))

pub xor_byte_bound : (a b : ℕ) → xor_byte a b < 256
unfolding xor_byte
xor_byte_bound a b = omega (arith, xor_bits_bound 8 a b)

pub or_byte_bound : (a b : ℕ) → or_byte a b < 256
unfolding or_byte
or_byte_bound a b = omega (arith, or_bits_bound 8 a b)

pub xor_byte_zero : (a b : ℕ) → a < 256 → b < 256 → xor_byte a b ≡ 0 → a ≡ b
unfolding xor_byte
xor_byte_zero a b h k e = xor_bits_all 8 a b (omega arith) (omega arith) e

pub or_byte_zero : (a b : ℕ) → a < 256 → b < 256 → or_byte a b ≡ 0 → (a ≡ 0) × (b ≡ 0)
unfolding or_byte
or_byte_zero a b h k e = or_bits_all 8 a b (omega arith) (omega arith) e

-- The same operand twice.
xor_bits_twice : (n a b : ℕ) → a < 2 ^ n → xor_bits n (xor_bits n a b) b ≡ a
unfolding xor_bits
xor_bits_twice zero a b h = omega arith
xor_bits_twice (suc n) a b h =
    let half : (xor_bits (suc n) a b) / 2 ≡ xor_bits n (a / 2) (b / 2) = omega arith in
    let again : xor_bits n ((xor_bits (suc n) a b) / 2) (b / 2) ≡ a / 2 =
      ap (λ x. xor_bits n x (b / 2)) half ∙ xor_bits_twice n (a / 2) (b / 2) (omega arith) in
    omega arith

pub xor_byte_twice : (a b : ℕ) → a < 256 → xor_byte (xor_byte a b) b ≡ a
unfolding xor_byte
xor_byte_twice a b h = xor_bits_twice 8 a b (omega arith)
