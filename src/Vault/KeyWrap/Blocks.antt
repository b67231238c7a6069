-- ===== src/Vault/KeyWrap/Blocks.antt =====
-- Blocks of bytes: cut, put together and combined bit by bit.
use discodrive_apps.Base.{
  ℕ, zero, suc, ◌*◌, ◌<◌, ◌≡◌, refl, ap, ◌∙◌, List, [], ◌∷◌, ◌++◌, length, take, drop, All,
  All-append, arith, length-append, length-take, length-drop, take-append, drop-append,
  take-append-drop,
}
use discodrive_apps.Vault.Siv.{xor_bytes}
use discodrive_apps.Vault.Siv.Bits.{xor_byte_bound, xor_byte_twice}
use discodrive_apps.Vault.KeyWrap.{IsBlock, blocks, joined}

abbrev pub IsByte : ℕ → Type 0
IsByte b = b < 256

pub xor_bytes_twice :
    (xs ys : List ℕ) → All IsByte xs → length xs ≡ length ys → xor_bytes (xor_bytes xs ys) ys ≡ xs
unfolding xor_bytes
xor_bytes_twice [] ys h n = refl
xor_bytes_twice (x ∷ xs) [] h n = absurd (omega arith)
xor_bytes_twice (x ∷ xs) (y ∷ ys) h n =
    rw (xor_byte_twice x y h.0, xor_bytes_twice xs ys h.1 (omega arith))

pub IsBlock-xor_bytes :
    (n : ℕ) (xs ys : List ℕ) → length xs ≡ n → length ys ≡ n → IsBlock n (xor_bytes xs ys)
unfolding xor_bytes
IsBlock-xor_bytes n [] ys h k = (h, tt)
IsBlock-xor_bytes n (x ∷ xs) [] h k = absurd (omega arith)
IsBlock-xor_bytes zero (x ∷ xs) (y ∷ ys) h k = absurd (omega arith)
IsBlock-xor_bytes (suc n) (x ∷ xs) (y ∷ ys) h k =
    let (l, b) = IsBlock-xor_bytes n xs ys (omega arith) (omega arith) in
    (ap suc l, (xor_byte_bound x y, b))

pub All-take : (n : ℕ) (xs : List ℕ) → All IsByte xs → All IsByte (take n xs)
All-take zero xs h = tt
All-take (suc n) [] h = tt
All-take (suc n) (x ∷ xs) h = (h.0, All-take n xs h.1)

pub All-drop : (n : ℕ) (xs : List ℕ) → All IsByte xs → All IsByte (drop n xs)
All-drop zero xs h = h
All-drop (suc n) [] h = tt
All-drop (suc n) (x ∷ xs) h = All-drop n xs h.1

pub IsBlock-take : (b : List ℕ) → IsBlock 16 b → IsBlock 8 (take 8 b)
IsBlock-take b (l, h) = (omega (arith, length-take 8 b), All-take 8 b h)

pub IsBlock-drop : (b : List ℕ) → IsBlock 16 b → IsBlock 8 (drop 8 b)
IsBlock-drop b (l, h) = (omega (arith, length-drop 8 b), All-drop 8 b h)

pub IsBlock-append : (a r : List ℕ) → IsBlock 8 a → IsBlock 8 r → IsBlock 16 (a ++ r)
IsBlock-append a r (l, h) (m, k) = (omega (arith, length-append a r), All-append IsByte a r h k)

pub joined-blocks : (n : ℕ) (xs : List ℕ) → length xs ≡ 8 * n → joined (blocks n xs) ≡ xs
unfolding joined blocks
joined-blocks zero [] h = refl
joined-blocks zero (x ∷ xs) h = absurd (omega arith)
joined-blocks (suc n) xs h =
    ap (λ ys. take 8 xs ++ ys) (joined-blocks n (drop 8 xs) (omega (arith, length-drop 8 xs)))
    ∙ take-append-drop 8 xs

pub AreBlocks-blocks :
    (n : ℕ) (xs : List ℕ)
    → length xs ≡ 8 * n
    → All IsByte xs
    → All (IsBlock 8) (blocks n xs) × (length (blocks n xs) ≡ n)
unfolding blocks
AreBlocks-blocks zero xs h k = (tt, refl)
AreBlocks-blocks (suc n) xs h k =
    let (b, l) =
      AreBlocks-blocks n (drop 8 xs) (omega (arith, length-drop 8 xs)) (All-drop 8 xs k) in
    (((omega (arith, length-take 8 xs), All-take 8 xs k), b), ap suc l)

pub blocks-joined :
    (n : ℕ) (rs : List (List ℕ)) → All (IsBlock 8) rs → length rs ≡ n → blocks n (joined rs) ≡ rs
unfolding joined blocks
blocks-joined zero [] h k = refl
blocks-joined zero (r ∷ rs) h k = absurd (omega arith)
blocks-joined (suc n) [] h k = absurd (omega arith)
blocks-joined (suc n) (r ∷ rs) h k = rw (
  take-append r (joined rs) h.0.0,
  drop-append r (joined rs) h.0.0,
  blocks-joined n rs h.1 (omega arith),
)

pub length-joined :
    (n : ℕ) (rs : List (List ℕ)) → All (IsBlock 8) rs → length rs ≡ n → length (joined rs) ≡ 8 * n
unfolding joined
length-joined zero [] h k = refl
length-joined zero (r ∷ rs) h k = absurd (omega arith)
length-joined (suc n) [] h k = absurd (omega arith)
length-joined (suc n) (r ∷ rs) h k =
    omega (arith, length-append r (joined rs), length-joined n rs h.1 (omega arith), h.0.0)

pub IsByte-joined : (rs : List (List ℕ)) → All (IsBlock 8) rs → All IsByte (joined rs)
unfolding joined
IsByte-joined [] h = tt
IsByte-joined (r ∷ rs) h = All-append IsByte r (joined rs) h.0.1 (IsByte-joined rs h.1)
