-- ===== src/Go/Strconv.antt =====
-- strconv.FormatInt(n, 10) and strconv.ParseInt(s, 10, 64), for numbers that are not negative. A
-- text with a sign is not written by the program, and is refused here.
use native.Mathlib.Nat.{pow-suc}
use discodrive_apps.Base.{
  ℕ, zero, suc, ◌+◌, ◌*◌, ◌/◌, ◌%◌, ◌^◌, ◌<◌, ◌-◌, ◌≡◌, refl, [], ◌∷◌, arith, ◌&&◌, leb, ltb, Str,
  if◌then◌else◌, ◌∙◌, inl, inr, Bool-cases, ltb→lt, ap,
}
use discodrive_apps.Base.Exec.{Result, ok, err, bad_format}

abbrev pub int64_limit : ℕ
int64_limit = 2 ^ 63

-- The digits of `n`, written in front of `rest` from the last one on.
format_digits : ℕ → ℕ → Str → Str
format_digits zero n rest = rest
format_digits (suc fuel) n rest =
    let more = format_digits fuel (n / 10) ((48 + n % 10) ∷ rest) in
    if ltb n 10 then (48 + n) ∷ rest else more

-- A number below 2 ^ 63 has at most 19 digits.
unfoldable pub format_int : ℕ → Str
unfolding format_digits
format_int n = format_digits 19 n []

parse_digits : Str → ℕ → Result ℕ
parse_digits [] acc = ok acc
parse_digits (c ∷ s) acc =
    let next = acc * 10 + (c - 48) in
    let rest = parse_digits s next in
    if leb 48 c && leb c 57
    then if ltb next int64_limit then rest else err bad_format
    else err bad_format

unfoldable pub parse_int : Str → Result ℕ
unfolding parse_digits
parse_int [] = err bad_format
parse_int (c ∷ s) = parse_digits (c ∷ s) 0

-- One digit read back.
parse_digits-cons :
    (d acc : ℕ) (s : Str)
    → d < 10
    → acc * 10 + d < int64_limit
    → parse_digits ((48 + d) ∷ s) acc ≡ parse_digits s (acc * 10 + d)
unfolding parse_digits
parse_digits-cons d acc s h b = ground arith

parse-format_digits :
    (fuel n : ℕ) (rest : Str)
    → n < 10 ^ fuel
    → n < int64_limit
    → parse_digits (format_digits fuel n rest) 0 ≡ parse_digits rest n
unfolding format_digits
parse-format_digits zero n rest h b = ap (parse_digits rest) (omega arith)
parse-format_digits (suc fuel) n rest h b = elim (Bool-cases (ltb n 10)) [
  | inl e ↦ rw e (
      parse_digits-cons n 0 rest (ltb→lt n 10 e) (omega arith)
      ∙ ap (parse_digits rest) (omega arith))
  | inr e ↦ rw e (
      parse-format_digits fuel (n / 10) ((48 + n % 10) ∷ rest) (omega (arith, pow-suc 10 fuel))
        (omega arith)
      ∙ parse_digits-cons (n % 10) (n / 10) rest (omega arith) (omega arith)
      ∙ ap (parse_digits rest) (omega arith))
]

format_digits_nonempty :
    (fuel n c : ℕ) (rest : Str) → (d : ℕ) × (s : Str) × (format_digits fuel n (c ∷ rest) ≡ d ∷ s)
unfolding format_digits
format_digits_nonempty zero n c rest = (c, rest, refl)
format_digits_nonempty (suc fuel) n c rest = elim (Bool-cases (ltb n 10)) [
  | inl e ↦ (48 + n, c ∷ rest, rw e)
  | inr e ↦ rw e (format_digits_nonempty fuel (n / 10) (48 + n % 10) (c ∷ rest))
]

format_int_nonempty : (n : ℕ) → (d : ℕ) × (s : Str) × (format_int n ≡ d ∷ s)
unfolding format_int
format_int_nonempty n = elim (Bool-cases (ltb n 10)) [
  | inl e ↦ (48 + n, [], rw e)
  | inr e ↦ rw e (format_digits_nonempty 18 (n / 10) (48 + n % 10) [])
]

-- What ParseInt reads is what FormatInt wrote.
pub parse_int-format_int : (n : ℕ) → n < int64_limit → parse_int (format_int n) ≡ ok n
parse_int-format_int n h =
    let (d, s, e) = format_int_nonempty n in
    let read : parse_digits (format_int n) 0 ≡ ok n =
      unfold format_int parse_int in parse-format_digits 19 n [] (omega arith) h in
    rw e (unfold parse_int in rw e at read)
