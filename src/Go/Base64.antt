-- ===== src/Go/Base64.antt =====
-- encoding/base64 with the URL alphabet: encoding with and without padding, and decoding. Line breaks
-- in what is decoded are ignored.
pub mod RoundTrip
use discodrive_apps.Base.{
  map, ℕ, ◌+◌, ◌-◌, ◌*◌, ◌/◌, ◌%◌, Bool, true, false, ◌&&◌, ◌||◌, not, Option, none, some, [], ◌∷◌,
  ◌++◌, Str, keep, leb, ltb, ◌==◌, if◌then◌else◌,
}
use discodrive_apps.Base.Exec.{Result, ok, err, bad_format}

abbrev pub digit : ℕ → ℕ
digit d =
    if ltb d 26
    then 65 + d
    else if ltb d 52
    then 71 + d
    else if ltb d 62
    then d - 4
    else if d == 62
    then 45
    else 95

-- The value of a character, and 64 for one that is no digit.
abbrev pub value : ℕ → ℕ
value c =
    if leb 65 c && leb c 90
    then c - 65
    else if leb 97 c && leb c 122
    then c - 71
    else if leb 48 c && leb c 57
    then c + 4
    else if c == 45
    then 62
    else if c == 95
    then 63
    else 64

abbrev pub pad : ℕ
pad = 61

-- The characters that stand for one and for two bytes at the end, before the padding.
abbrev pub one : ℕ → Str
one a = digit (a / 4) ∷ digit ((a % 4) * 16) ∷ []

abbrev pub two : ℕ → ℕ → Str
two a b = digit (a / 4) ∷ digit ((a % 4) * 16 + b / 16) ∷ digit ((b % 16) * 4) ∷ []

-- EncodeToString, with padding or without.
unfoldable pub encode : Bool → Str → Str
encode padded [] = []
encode padded (a ∷ []) = one a ++ (if padded then pad ∷ pad ∷ [] else [])
encode padded (a ∷ b ∷ []) = two a b ++ (if padded then pad ∷ [] else [])
encode padded (a ∷ b ∷ c ∷ s) =
    digit (a / 4)
    ∷ digit ((a % 4) * 16 + b / 16)
    ∷ digit ((b % 16) * 4 + c / 64)
    ∷ digit (c % 64)
    ∷ encode padded s

abbrev pub is_digit : ℕ → Bool
is_digit c = ltb (value c) 64

-- What two, three and four digits stand for.
abbrev pub one_of : ℕ → ℕ → Result Str
one_of a b =
    if is_digit a && is_digit b then ok ((value a * 4 + value b / 16) ∷ []) else err bad_format

abbrev pub two_of : ℕ → ℕ → ℕ → Result Str
two_of a b c =
    if is_digit a && (is_digit b && is_digit c)
    then ok ((value a * 4 + value b / 16) ∷ ((value b % 16) * 16 + value c / 4) ∷ [])
    else err bad_format

abbrev pub and_more : Str → Result Str → Result Str
and_more xs (ok ys) = ok (xs ++ ys)
and_more xs (err e) = err e

abbrev pub three_of : ℕ → ℕ → ℕ → ℕ → Result Str → Result Str
three_of a b c d rest =
    if is_digit a && (is_digit b && (is_digit c && is_digit d))
    then and_more
        ((value a * 4 + value b / 16)
          ∷ ((value b % 16) * 16 + value c / 4)
          ∷ ((value c % 4) * 64 + value d)
          ∷ [])
        rest
    else err bad_format

abbrev pub is_empty : Str → Bool
is_empty [] = true
is_empty (c ∷ s) = false

abbrev pub at_end : Str → Result Str → Result Str
at_end rest r = if is_empty rest then r else err bad_format

unfoldable pub decode_digits : Bool → Str → Result Str
decode_digits padded [] = ok []
decode_digits padded (a ∷ []) = err bad_format
decode_digits padded (a ∷ b ∷ []) = if padded then err bad_format else one_of a b
decode_digits padded (a ∷ b ∷ c ∷ []) = if padded then err bad_format else two_of a b c
decode_digits padded (a ∷ b ∷ c ∷ d ∷ s) =
    let rest = decode_digits padded s in
    if padded && (d == pad)
    then at_end s (if c == pad then one_of a b else two_of a b c)
    else three_of a b c d rest

-- DecodeString
unfoldable pub decode : Bool → Str → Result Str
unfolding decode_digits
decode padded s = decode_digits padded (keep (λ c. not ((c == 10) || (c == 13))) s)

-- The standard alphabet has + and / in place of - and _.
abbrev pub to_std : ℕ → ℕ
to_std c = if c == 45 then 43 else if c == 95 then 47 else c

abbrev pub of_std : ℕ → ℕ
of_std c = if c == 43 then 45 else if c == 47 then 95 else if (c == 45) || (c == 95) then 0 else c

-- StdEncoding
abbrev pub encode_std : Str → Str
encode_std s = map to_std (encode true s)

abbrev pub decode_std : Str → Result Str
decode_std s = decode true (map of_std s)
