-- ===== src/Go/Url.antt =====
-- url.PathEscape, url.QueryEscape and what the program takes of url.Values.
use discodrive_apps.Base.{
  ℕ, ◌+◌, ◌/◌, ◌%◌, Bool, ◌&&◌, ◌||◌, [], ◌∷◌, ◌++◌, Str, codes, leb, ltb, ◌==◌, if◌then◌else◌,
}

abbrev hex_digit : ℕ → ℕ
hex_digit d = if ltb d 10 then 48 + d else 55 + d

abbrev percent : ℕ → Str
percent c = 37 ∷ hex_digit ((c / 16) % 16) ∷ hex_digit (c % 16) ∷ []

abbrev pub is_alphanumeric : ℕ → Bool
is_alphanumeric c = (leb 97 c && leb c 122) || ((leb 65 c && leb c 90) || (leb 48 c && leb c 57))

-- - _ . ~
abbrev is_unreserved : ℕ → Bool
is_unreserved c = is_alphanumeric c || ((c == 45) || ((c == 95) || ((c == 46) || (c == 126))))

-- $ & + = : @
abbrev in_segment : ℕ → Bool
in_segment c = (c == 36) || ((c == 38) || ((c == 43) || ((c == 61) || ((c == 58) || (c == 64)))))

unfoldable pub path_escape : Str → Str
path_escape [] = []
path_escape (c ∷ s) =
    (if is_unreserved c || in_segment c then c ∷ [] else percent c) ++ path_escape s

unfoldable pub query_escape : Str → Str
query_escape [] = []
query_escape (c ∷ s) =
    (if c == 32 then 43 ∷ [] else if is_unreserved c then c ∷ [] else percent c) ++ query_escape s

-- key=value
abbrev pub pair : Str → Str → Str
pair key value = query_escape key ++ codes "=" ++ query_escape value
