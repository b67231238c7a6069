-- ===== src/Index/Browse/Pattern.antt =====
-- Which paths are the direct children of a folder: what the two LIKE patterns of Children select.
use mathlib.Core.Path.{ap₂}
use discodrive_apps.Base.{
  ℕ, ◌≡◌, refl, ◌∙◌, ap, sym, ◌↔◌, Bool, true, false, ◌&&◌, ◌||◌, not, Option, none, some, List, [],
  ◌∷◌, ◌++◌, map, Str, ◌==◌, if◌then◌else◌, arith,
}
use discodrive_apps.Index.Browse.{
  slash, percent, Token, any_run, lit, tokens, lower, matches, like, escape_like, is_child,
}

-- An escaped text stands for itself, whatever follows it.
tokens-escape_like : (p q : Str) → tokens false (escape_like p ++ q) ≡ map lit p ++ tokens false q
unfolding tokens escape_like
tokens-escape_like [] q = refl
tokens-escape_like (c ∷ p) q = ground (arith, tokens-escape_like p q)

-- What follows the prefix `p` in `s`, letters compared without regard to case.
abbrev strip : Str → Str → Option Str
strip [] s = some s
strip (a ∷ p) [] = none
strip (a ∷ p) (c ∷ s) = if lower a == lower c then strip p s else none

abbrev on_some : (Str → Bool) → Option Str → Bool
on_some f none = false
on_some f (some s) = f s

matches-lits :
    (p : Str) (ts : List Token) (s : Str)
    → matches (map lit p ++ ts) s ≡ on_some (matches ts) (strip p s)
unfolding matches
matches-lits [] ts s = refl
matches-lits (a ∷ p) ts [] = refl
matches-lits (a ∷ p) ts (c ∷ s) = ground (arith, matches-lits p ts s)

-- strings.ContainsRune for one byte
abbrev pub has_byte : ℕ → Str → Bool
has_byte b [] = false
has_byte b (c ∷ s) = (c == b) || has_byte b s

matches-any_run : (s : Str) → matches (any_run ∷ []) s ≡ true
unfolding matches
matches-any_run [] = refl
matches-any_run (c ∷ s) = ground (arith, matches-any_run s)

lower-slash : (c : ℕ) → (lower slash == lower c) ≡ (c == slash)
unfolding lower
lower-slash c = ground arith

matches-slash : (s : Str) → matches (any_run ∷ lit slash ∷ any_run ∷ []) s ≡ has_byte slash s
unfolding matches
matches-slash [] = refl
matches-slash (c ∷ s) = ground (arith, matches-slash s, matches-any_run s, lower-slash c)

-- The name behind a slash, if it is one path element.
abbrev name_behind : Str → Bool
name_behind [] = false
name_behind (c ∷ s) = (c == slash) && not (has_byte slash s)

abbrev below : List Token
below = lit slash ∷ any_run ∷ []

abbrev far_below : List Token
far_below = lit slash ∷ any_run ∷ lit slash ∷ any_run ∷ []

name_behind-matches :
    (o : Option Str)
    → (on_some (matches below) o && not (on_some (matches far_below) o)) ≡ on_some name_behind o
unfolding matches
name_behind-matches none = refl
name_behind-matches (some []) = refl
name_behind-matches (some (c ∷ s)) =
    ground (arith, matches-slash s, matches-any_run s, lower-slash c)

like-escape_like :
    (parent q p : Str)
    → like p (escape_like parent ++ q) ≡ on_some (matches (tokens false q)) (strip parent p)
like-escape_like parent q p =
    rw (tokens-escape_like parent q) (matches-lits parent (tokens false q) p)

is_child-strip :
    (a : ℕ) (parent p : Str) → is_child (a ∷ parent) p ≡ on_some name_behind (strip (a ∷ parent) p)
unfolding is_child tokens
is_child-strip a parent p =
    ap₂ (λ x y. x && not y) (like-escape_like (a ∷ parent) (slash ∷ percent ∷ []) p)
      (like-escape_like (a ∷ parent) (slash ∷ percent ∷ slash ∷ percent ∷ []) p)
    ∙ name_behind-matches (strip (a ∷ parent) p)

-- A path that is read as a child of `parent`: a folder, a slash, and one path element.
abbrev pub ChildOf : Str → Str → Type 0
ChildOf parent p =
    (folder : Str) × (name : Str) × (p ≡ folder ++ slash ∷ name)
    × (map lower folder ≡ map lower parent)
    × (has_byte slash name ≡ false)

strip-ChildOf : (parent p : Str) → on_some name_behind (strip parent p) ≡ true → ChildOf parent p
strip-ChildOf [] [] h = cc
strip-ChildOf [] (c ∷ s) h = ([], s, ground arith, refl, ground arith)
strip-ChildOf (a ∷ parent) [] h = cc
strip-ChildOf (a ∷ parent) (c ∷ s) h =
    let (folder, name, e, same, plain) = strip-ChildOf parent s (ground arith) in
    (c ∷ folder, name, ground arith, ground arith, plain)

ChildOf-strip :
    (parent folder name : Str)
    → map lower folder ≡ map lower parent
    → has_byte slash name ≡ false
    → on_some name_behind (strip parent (folder ++ slash ∷ name)) ≡ true
ChildOf-strip [] [] name same plain = ground arith
ChildOf-strip [] (c ∷ folder) name same plain = cc
ChildOf-strip (a ∷ parent) [] name same plain = cc
ChildOf-strip (a ∷ parent) (c ∷ folder) name same plain =
    ground (arith, ChildOf-strip parent folder name)

-- Below the root, exactly the paths without a slash are selected. Below a folder `parent` (not
-- empty), exactly those that consist of a folder, a slash and one path element, where the folder
-- is `parent` up to the case of ASCII letters; `%`, `_` and `\` in `parent` stand for themselves.
pub is_child_exact :
    (p parent : Str) (a : ℕ)
    → (is_child [] p ≡ not (has_byte slash p))
      × ((is_child (a ∷ parent) p ≡ true) ↔ ChildOf (a ∷ parent) p)
unfolding is_child tokens
is_child_exact p parent a = (
  ap not (matches-slash p),
  (
    λ h. strip-ChildOf (a ∷ parent) p (sym (is_child-strip a parent p) ∙ h),
    λ (folder, name, e, same, plain).
        rw e (is_child-strip a parent _ ∙ ChildOf-strip (a ∷ parent) folder name same plain),
  ),
)
