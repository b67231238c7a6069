-- ===== src/Go/Base64/RoundTrip.antt =====
-- What was encoded with padding decodes to itself, and consists of digits and padding.
use discodrive_apps.Base.{
  ℕ, ◌+◌, ◌*◌, ◌/◌, ◌%◌, ◌<◌, ◌≡◌, refl, ap, ◌∙◌, Bool, true, false, ◌||◌, not, [], ◌∷◌, Str, All,
  keep, map, ◌==◌, arith,
}
use discodrive_apps.Base.Exec.{Result, ok}
use discodrive_apps.Go.Strings.{is_space, NoSpace, Without}
use discodrive_apps.Go.Base64.{
  digit, value, pad, encode, one_of, two_of, three_of, and_more, is_digit, decode_digits, decode,
  to_std, of_std, encode_std, decode_std,
}

pub value-digit : (d : ℕ) → d < 64 → value (digit d) ≡ d
value-digit d h = ground arith

is_digit-digit : (d : ℕ) → d < 64 → is_digit (digit d) ≡ true
is_digit-digit d h = ground (arith, value-digit d h)

digit-pad : (d : ℕ) → d < 64 → (digit d == pad) ≡ false
digit-pad d h = ground arith

-- The bytes that the digits of bytes stand for.
byte_1 : (a b : ℕ) → a < 256 → b < 256 → (a / 4) * 4 + ((a % 4) * 16 + b / 16) / 16 ≡ a
byte_1 a b h k = omega arith

byte_2 :
    (a b c : ℕ)
    → a < 256
    → b < 256
    → c < 256
    → (((a % 4) * 16 + b / 16) % 16) * 16 + ((b % 16) * 4 + c / 64) / 4 ≡ b
byte_2 a b c h k l = omega arith

byte_3 : (b c : ℕ) → b < 256 → c < 256 → (((b % 16) * 4 + c / 64) % 4) * 64 + c % 64 ≡ c
byte_3 b c h k = omega arith

four_digits :
    (p q r s : ℕ) (rest : Result Str)
    → p < 64
    → q < 64
    → r < 64
    → s < 64
    → three_of (digit p) (digit q) (digit r) (digit s) rest
      ≡ and_more ((p * 4 + q / 16) ∷ ((q % 16) * 16 + r / 4) ∷ ((r % 4) * 64 + s) ∷ []) rest
four_digits p q r s rest h k l m = rw (
  is_digit-digit p h,
  is_digit-digit q k,
  is_digit-digit r l,
  is_digit-digit s m,
  value-digit p h,
  value-digit q k,
  value-digit r l,
  value-digit s m,
)

three_digits :
    (p q r : ℕ)
    → p < 64
    → q < 64
    → r < 64
    → two_of (digit p) (digit q) (digit r) ≡ ok ((p * 4 + q / 16) ∷ ((q % 16) * 16 + r / 4) ∷ [])
three_digits p q r h k l = rw (
  is_digit-digit p h,
  is_digit-digit q k,
  is_digit-digit r l,
  value-digit p h,
  value-digit q k,
  value-digit r l,
)

two_digits : (p q : ℕ) → p < 64 → q < 64 → one_of (digit p) (digit q) ≡ ok ((p * 4 + q / 16) ∷ [])
two_digits p q h k = rw (is_digit-digit p h, is_digit-digit q k, value-digit p h, value-digit q k)

decode_digits-encode : (s : Str) → All (λ b. b < 256) s → decode_digits true (encode true s) ≡ ok s
unfolding decode_digits encode
decode_digits-encode [] h = refl
decode_digits-encode (a ∷ []) (h, t) =
    two_digits (a / 4) ((a % 4) * 16) (omega arith) (omega arith)
    ∙ ap (λ x. ok (x ∷ [])) (omega arith)
decode_digits-encode (a ∷ b ∷ []) (h, (k, t)) = rw (digit-pad ((b % 16) * 4) (omega arith)) (
    three_digits (a / 4) ((a % 4) * 16 + b / 16) ((b % 16) * 4) (omega arith) (omega arith)
      (omega arith)
    ∙ rw (byte_1 a b h k) (ap (λ x. ok (a ∷ x ∷ [])) (omega arith)))
decode_digits-encode (a ∷ b ∷ c ∷ s) (h, (k, (l, t))) =
    rw (digit-pad (c % 64) (omega arith), decode_digits-encode s t)
      (four_digits (a / 4) ((a % 4) * 16 + b / 16) ((b % 16) * 4 + c / 64) (c % 64) (ok s)
          (omega arith) (omega arith) (omega arith) (omega arith)
        ∙ rw (byte_1 a b h k, byte_2 a b c h k l, byte_3 b c k l))

-- A digit or the padding.
pub data IsBase64 (c : ℕ) : Type 0 where
  digits : (d : ℕ) → d < 64 → c ≡ digit d → IsBase64 c
  pads : c ≡ pad → IsBase64 c

as_digit : (d : ℕ) → d < 64 → IsBase64 (digit d)
as_digit d h = digits d h refl

pub encode-IsBase64 :
    (padded : Bool) (s : Str) → All (λ b. b < 256) s → All IsBase64 (encode padded s)
unfolding encode
encode-IsBase64 padded [] h = tt
encode-IsBase64 true (a ∷ []) (h, t) = (
  as_digit (a / 4) (omega arith),
  (as_digit ((a % 4) * 16) (omega arith), (pads refl, (pads refl, tt))),
)
encode-IsBase64 false (a ∷ []) (h, t) =
    (as_digit (a / 4) (omega arith), (as_digit ((a % 4) * 16) (omega arith), tt))
encode-IsBase64 true (a ∷ b ∷ []) (h, (k, t)) = (
  as_digit (a / 4) (omega arith),
  (
    as_digit ((a % 4) * 16 + b / 16) (omega arith),
    (as_digit ((b % 16) * 4) (omega arith), (pads refl, tt)),
  ),
)
encode-IsBase64 false (a ∷ b ∷ []) (h, (k, t)) = (
  as_digit (a / 4) (omega arith),
  (as_digit ((a % 4) * 16 + b / 16) (omega arith), (as_digit ((b % 16) * 4) (omega arith), tt)),
)
encode-IsBase64 padded (a ∷ b ∷ c ∷ s) (h, (k, (l, t))) = (
  as_digit (a / 4) (omega arith),
  (
    as_digit ((a % 4) * 16 + b / 16) (omega arith),
    (
      as_digit ((b % 16) * 4 + c / 64) (omega arith),
      (as_digit (c % 64) (omega arith), encode-IsBase64 padded s t),
    ),
  ),
)

-- Neither a line break, nor a dot, nor a slash.
pub IsBase64-plain :
    (c : ℕ)
    → IsBase64 c
    → ((c == 10) ≡ false) × ((c == 13) ≡ false) × ((c == 46) ≡ false) × ((c == 47) ≡ false)
IsBase64-plain c (digits d h e) = ground (arith, e)
IsBase64-plain c (pads e) = ground (arith, e)

IsBase64-is_space : (c : ℕ) → IsBase64 c → is_space c ≡ false
IsBase64-is_space c (digits d h e) = ground (arith, e)
IsBase64-is_space c (pads e) = ground (arith, e)

pub IsBase64-NoSpace : (s : Str) → All IsBase64 s → NoSpace s
IsBase64-NoSpace [] h = tt
IsBase64-NoSpace (c ∷ s) (h, t) = (IsBase64-is_space c h, IsBase64-NoSpace s t)

pub IsBase64-Without : (s : Str) → All IsBase64 s → Without 46 s
IsBase64-Without [] h = tt
IsBase64-Without (c ∷ s) (h, t) =
    let (n, r, dot, sl) = IsBase64-plain c h in (dot, IsBase64-Without s t)

keep-IsBase64 : (s : Str) → All IsBase64 s → keep (λ c. not ((c == 10) || (c == 13))) s ≡ s
keep-IsBase64 [] h = refl
keep-IsBase64 (c ∷ s) (h, t) =
    let (n, r, dot, sl) = IsBase64-plain c h in rw (n, r, keep-IsBase64 s t)

pub decode-encode : (s : Str) → All (λ b. b < 256) s → decode true (encode true s) ≡ ok s
unfolding decode
decode-encode s h =
    rw (keep-IsBase64 (encode true s) (encode-IsBase64 true s h)) (decode_digits-encode s h)

of_to_std : (c : ℕ) → IsBase64 c → of_std (to_std c) ≡ c
of_to_std c (digits d h e) = ground (arith, e)
of_to_std c (pads e) = ground (arith, e)

map-std : (s : Str) → All IsBase64 s → map of_std (map to_std s) ≡ s
map-std [] h = refl
map-std (c ∷ s) (h, t) = rw (of_to_std c h, map-std s t)

-- The same for the standard alphabet.
pub decode_std-encode_std : (s : Str) → All (λ b. b < 256) s → decode_std (encode_std s) ≡ ok s
decode_std-encode_std s h =
    rw (map-std (encode true s) (encode-IsBase64 true s h)) (decode-encode s h)

decode_raw-encode : (s : Str) → All (λ b. b < 256) s → decode_digits false (encode false s) ≡ ok s
unfolding decode_digits encode
decode_raw-encode [] h = refl
decode_raw-encode (a ∷ []) (h, t) =
    two_digits (a / 4) ((a % 4) * 16) (omega arith) (omega arith)
    ∙ ap (λ x. ok (x ∷ [])) (omega arith)
decode_raw-encode (a ∷ b ∷ []) (h, (k, t)) =
    three_digits (a / 4) ((a % 4) * 16 + b / 16) ((b % 16) * 4) (omega arith) (omega arith)
      (omega arith)
    ∙ rw (byte_1 a b h k) (ap (λ x. ok (a ∷ x ∷ [])) (omega arith))
decode_raw-encode (a ∷ b ∷ c ∷ s) (h, (k, (l, t))) = rw (decode_raw-encode s t) (
    four_digits (a / 4) ((a % 4) * 16 + b / 16) ((b % 16) * 4 + c / 64) (c % 64) (ok s)
      (omega arith) (omega arith) (omega arith) (omega arith)
    ∙ rw (byte_1 a b h k, byte_2 a b c h k l, byte_3 b c k l))

-- And without padding.
pub decode-encode_raw : (s : Str) → All (λ b. b < 256) s → decode false (encode false s) ≡ ok s
unfolding decode
decode-encode_raw s h =
    rw (keep-IsBase64 (encode false s) (encode-IsBase64 false s h)) (decode_raw-encode s h)
