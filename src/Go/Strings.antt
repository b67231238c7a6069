-- ===== src/Go/Strings.antt =====
-- strings.Split by a byte, and strings.TrimSpace.
use discodrive_apps.Base.{
  ℕ, ◌≡◌, refl, Bool, true, false, ◌&&◌, ◌||◌, List, [], ◌∷◌, ◌++◌, Str, All, ◌==◌, leb,
  if◌then◌else◌, arith,
}

abbrev cons_head : ℕ → List Str → List Str
cons_head c [] = (c ∷ []) ∷ []
cons_head c (e ∷ es) = (c ∷ e) ∷ es

unfoldable pub split : ℕ → Str → List Str
split d [] = [] ∷ []
split d (c ∷ s) = let rest = split d s in if c == d then [] ∷ rest else cons_head c rest

-- The ASCII white space; TrimSpace also takes away the white space outside of ASCII, which is kept here.
abbrev pub is_space : ℕ → Bool
is_space c = (c == 32) || (leb 9 c && leb c 13)

unfoldable pub trim_left : Str → Str
trim_left [] = []
trim_left (c ∷ s) = let rest = trim_left s in if is_space c then rest else c ∷ s

unfoldable pub trim_right : Str → Str
trim_right [] = []
trim_right (c ∷ s) =
    let rest = trim_right s in
    elim rest [ [] ↦ if is_space c then [] else c ∷ [] | d ∷ ds ↦ c ∷ d ∷ ds ]

abbrev pub trim_space : Str → Str
trim_space s = trim_right (trim_left s)

abbrev pub Without : ℕ → Str → Type 0
Without d s = All (λ c. (c == d) ≡ false) s

pub split-Without : (d : ℕ) (s : Str) → Without d s → split d s ≡ s ∷ []
unfolding split
split-Without d [] h = refl
split-Without d (c ∷ s) (h, t) = rw (h, split-Without d s t)

pub split-first : (d : ℕ) (s rest : Str) → Without d s → split d (s ++ d ∷ rest) ≡ s ∷ split d rest
unfolding split
split-first d [] rest h = let e : (d == d) ≡ true = ground arith in rw e
split-first d (c ∷ s) rest (h, t) = rw (h, split-first d s rest t)

abbrev pub NoSpace : Str → Type 0
NoSpace s = All (λ c. is_space c ≡ false) s

trim_left-NoSpace : (s : Str) → NoSpace s → trim_left s ≡ s
unfolding trim_left
trim_left-NoSpace [] h = refl
trim_left-NoSpace (c ∷ s) (h, t) = rw h

trim_right-NoSpace : (s : Str) → NoSpace s → trim_right s ≡ s
unfolding trim_right
trim_right-NoSpace [] h = refl
trim_right-NoSpace (c ∷ []) (h, t) = rw h
trim_right-NoSpace (c ∷ d ∷ s) (h, t) = rw (trim_right-NoSpace (d ∷ s) t)

pub trim_space-NoSpace : (s : Str) → NoSpace s → trim_space s ≡ s
trim_space-NoSpace s h = rw (trim_left-NoSpace s h, trim_right-NoSpace s h)
