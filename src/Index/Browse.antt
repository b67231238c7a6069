-- ===== src/Index/Browse.antt =====
-- Browsing: the direct children of a folder, which Children selects by LIKE patterns, and the
-- record of the downloaded copies. SQLite's LIKE takes ASCII letters without regard to case.
pub mod Pattern
use discodrive_apps.Base.{
  ℕ, ◌+◌, ◌≡◌, Bool, true, false, ◌&&◌, ◌||◌, not, Option, none, some, List, [], ◌∷◌, ◌++◌, Str,
  codes, str_eq, ltb, leb, ◌==◌, keep, if◌then◌else◌,
}
use discodrive_apps.Base.Exec.{Result, ok, err, Exec}
use discodrive_apps.Base.Sort.{sort}
use discodrive_apps.Index.{Node, Tables, Index, statement, query}

abbrev pub slash : ℕ
slash = b'/'

abbrev pub backslash : ℕ
backslash = 92

abbrev pub percent : ℕ
percent = b'%'

abbrev pub underscore : ℕ
underscore = b'_'

-- A pattern of LIKE … ESCAPE '\': `%`, `_`, or a byte that stands for itself.
pub data Token : Type 0 where
  any_run any_one : Token
  lit : ℕ → Token

-- The flag is set behind an escape.
unfoldable pub tokens : Bool → Str → List Token
tokens escaped [] = []
tokens true (c ∷ p) = lit c ∷ tokens false p
tokens false (c ∷ p) =
    if c == backslash
    then tokens true p
    else (if c == percent then any_run else if c == underscore then any_one else lit c)
      ∷ tokens false p

unfoldable pub lower : ℕ → ℕ
lower c = if leb b'A' c && leb c b'Z' then c + 32 else c

unfoldable pub matches : List Token → Str → Bool
unfolding lower
matches [] [] = true
matches [] (c ∷ s) = false
matches (any_run ∷ ts) [] = matches ts []
matches (any_run ∷ ts) (c ∷ s) = matches ts (c ∷ s) || matches (any_run ∷ ts) s
matches (any_one ∷ ts) [] = false
matches (any_one ∷ ts) (c ∷ s) = matches ts s
matches (lit a ∷ ts) [] = false
matches (lit a ∷ ts) (c ∷ s) = (lower a == lower c) && matches ts s

-- s LIKE p ESCAPE '\'
abbrev pub like : Str → Str → Bool
like s p = matches (tokens false p) s

unfoldable pub escape_like : Str → Str
escape_like [] = []
escape_like (c ∷ s) =
    let rest = escape_like s in
    if c == backslash || c == percent || c == underscore then backslash ∷ c ∷ rest else c ∷ rest

-- Byte order on texts, as ORDER BY compares them.
unfoldable pub str_less : Str → Str → Bool
str_less s [] = false
str_less [] (b ∷ t) = true
str_less (a ∷ s) (b ∷ t) = if a == b then str_less s t else ltb a b

-- ORDER BY is_dir DESC, rel_path
unfoldable pub row_before : Node → Node → Bool
row_before a b =
    if a.is_dir && not b.is_dir
    then true
    else if not a.is_dir && b.is_dir
    then false
    else str_less a.rel_path b.rel_path

-- The WHERE clause, for the root and for another folder.
unfoldable pub is_child : Str → Str → Bool
is_child [] p = not (like p (percent ∷ slash ∷ percent ∷ []))
is_child (c ∷ parent) p =
    let e = escape_like (c ∷ parent) in
    like p (e ++ slash ∷ percent ∷ []) && not (like p (e ++ slash ∷ percent ∷ slash ∷ percent ∷ []))

unfoldable pub children : Str → Exec Index (List Node)
unfolding statement row_before is_child
children parent = query (λ t. ok (sort row_before (keep (λ n. is_child parent n.rel_path) t.nodes)))
