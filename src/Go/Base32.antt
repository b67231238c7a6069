-- ===== src/Go/Base32.antt =====
-- encoding/base32: the standard alphabet without padding.
use discodrive_apps.Base.{
  ℕ, ◌+◌, ◌-◌, ◌*◌, ◌/◌, ◌%◌, ◌<◌, ◌≡◌, refl, [], ◌∷◌, Str, All, length, ltb, ◌==◌, if◌then◌else◌,
  arith, false,
}

abbrev pub digit : ℕ → ℕ
digit d = if ltb d 26 then 65 + d else 24 + d

unfoldable pub encode : Str → Str
encode [] = []
encode (a ∷ []) = digit (a / 8) ∷ digit ((a % 8) * 4) ∷ []
encode (a ∷ b ∷ []) =
    digit (a / 8) ∷ digit ((a % 8) * 4 + b / 64) ∷ digit ((b / 2) % 32) ∷ digit ((b % 2) * 16) ∷ []
encode (a ∷ b ∷ c ∷ []) =
    digit (a / 8)
    ∷ digit ((a % 8) * 4 + b / 64)
    ∷ digit ((b / 2) % 32)
    ∷ digit ((b % 2) * 16 + c / 16)
    ∷ digit ((c % 16) * 2)
    ∷ []
encode (a ∷ b ∷ c ∷ d ∷ []) =
    digit (a / 8)
    ∷ digit ((a % 8) * 4 + b / 64)
    ∷ digit ((b / 2) % 32)
    ∷ digit ((b % 2) * 16 + c / 16)
    ∷ digit ((c % 16) * 2 + d / 128)
    ∷ digit ((d / 4) % 32)
    ∷ digit ((d % 4) * 8)
    ∷ []
encode (a ∷ b ∷ c ∷ d ∷ e ∷ s) =
    digit (a / 8)
    ∷ digit ((a % 8) * 4 + b / 64)
    ∷ digit ((b / 2) % 32)
    ∷ digit ((b % 2) * 16 + c / 16)
    ∷ digit ((c % 16) * 2 + d / 128)
    ∷ digit ((d / 4) % 32)
    ∷ digit ((d % 4) * 8 + e / 32)
    ∷ digit (e % 32)
    ∷ encode s

-- A character of the alphabet: A to Z and 2 to 7.
pub data IsBase32 (c : ℕ) : Type 0 where
  digits : (d : ℕ) → d < 32 → c ≡ digit d → IsBase32 c

of : (d : ℕ) → d < 32 → IsBase32 (digit d)
of d h = digits d h refl

pub encode-IsBase32 : (s : Str) → All (λ b. b < 256) s → All IsBase32 (encode s)
unfolding encode
encode-IsBase32 [] h = tt
encode-IsBase32 (a ∷ []) (h, t) = (of (a / 8) (omega arith), (of ((a % 8) * 4) (omega arith), tt))
encode-IsBase32 (a ∷ b ∷ []) (h, (k, t)) = (
  of (a / 8) (omega arith),
  (
    of ((a % 8) * 4 + b / 64) (omega arith),
    (of ((b / 2) % 32) (omega arith), (of ((b % 2) * 16) (omega arith), tt)),
  ),
)
encode-IsBase32 (a ∷ b ∷ c ∷ []) (h, (k, (l, t))) = (
  of (a / 8) (omega arith),
  (
    of ((a % 8) * 4 + b / 64) (omega arith),
    (
      of ((b / 2) % 32) (omega arith),
      (of ((b % 2) * 16 + c / 16) (omega arith), (of ((c % 16) * 2) (omega arith), tt)),
    ),
  ),
)
encode-IsBase32 (a ∷ b ∷ c ∷ d ∷ []) (h, (k, (l, (m, t)))) = (
  of (a / 8) (omega arith),
  (
    of ((a % 8) * 4 + b / 64) (omega arith),
    (
      of ((b / 2) % 32) (omega arith),
      (
        of ((b % 2) * 16 + c / 16) (omega arith),
        (
          of ((c % 16) * 2 + d / 128) (omega arith),
          (of ((d / 4) % 32) (omega arith), (of ((d % 4) * 8) (omega arith), tt)),
        ),
      ),
    ),
  ),
)
encode-IsBase32 (a ∷ b ∷ c ∷ d ∷ e ∷ s) (h, (k, (l, (m, (n, t))))) = (
  of (a / 8) (omega arith),
  (
    of ((a % 8) * 4 + b / 64) (omega arith),
    (
      of ((b / 2) % 32) (omega arith),
      (
        of ((b % 2) * 16 + c / 16) (omega arith),
        (
          of ((c % 16) * 2 + d / 128) (omega arith),
          (
            of ((d / 4) % 32) (omega arith),
            (
              of ((d % 4) * 8 + e / 32) (omega arith),
              (of (e % 32) (omega arith), encode-IsBase32 s t),
            ),
          ),
        ),
      ),
    ),
  ),
)

-- Five bytes are eight characters.
pub length-encode : (n : ℕ) (s : Str) → length s ≡ 5 * n → length (encode s) ≡ 8 * n
unfolding encode
length-encode n [] h = omega arith
length-encode n (a ∷ []) h = absurd (omega arith)
length-encode n (a ∷ b ∷ []) h = absurd (omega arith)
length-encode n (a ∷ b ∷ c ∷ []) h = absurd (omega arith)
length-encode n (a ∷ b ∷ c ∷ d ∷ []) h = absurd (omega arith)
length-encode n (a ∷ b ∷ c ∷ d ∷ e ∷ s) h = omega (arith, length-encode (n - 1) s (omega arith))

-- Neither a dot nor a slash.
pub IsBase32-plain : (c : ℕ) → IsBase32 c → ((c == 46) ≡ false) × ((c == 47) ≡ false)
IsBase32-plain c (digits d h e) = ground (arith, e)
