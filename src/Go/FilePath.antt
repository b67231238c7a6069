-- ===== src/Go/FilePath.antt =====
-- Packages strings, path and path/filepath on a system whose separator is a slash: Split and Join
-- of texts, Clean, Join, Dir, Base and Rel of paths.
pub mod Clean
pub mod Rel
pub mod Names
use mathlib.Core.List.{reverse}
use discodrive_apps.Base.{
  ℕ, ◌≡◌, Bool, true, false, ◌&&◌, ◌||◌, not, List, [], ◌∷◌, ◌++◌, Str, codes, str_eq, ◌==◌,
  if◌then◌else◌, has_prefix,
}
use discodrive_apps.Base.Exec.{Result, ok, err, outside}

abbrev pub slash : ℕ
slash = b'/'

abbrev pub dot : Str
dot = codes "."

abbrev pub dot_dot : Str
dot_dot = codes ".."

abbrev pub cons_head : ℕ → List Str → List Str
cons_head c [] = (c ∷ []) ∷ []
cons_head c (e ∷ es) = (c ∷ e) ∷ es

-- strings.Split(s, "/")
unfoldable pub split : Str → List Str
split [] = [] ∷ []
split (c ∷ s) = let rest = split s in if c == slash then [] ∷ rest else cons_head c rest

-- strings.Join(es, "/")
unfoldable pub join_elements : List Str → Str
join_elements [] = []
join_elements (e ∷ []) = e
join_elements (e ∷ f ∷ es) = e ++ slash ∷ join_elements (f ∷ es)

abbrev pub is_abs : Str → Bool
is_abs s = has_prefix s (slash ∷ [])

-- `..` takes the last element away, unless there is none or it is itself a `..`.
abbrev pub up : Bool → List Str → List Str
up true [] = []
up false [] = dot_dot ∷ []
up rooted (e ∷ es) = if str_eq e dot_dot then dot_dot ∷ e ∷ es else es

-- One element of a path, behind those that are left so far, which stand last one first.
abbrev pub enter : Bool → List Str → Str → List Str
enter rooted done e =
    if str_eq e [] || str_eq e dot
    then done
    else if str_eq e dot_dot
    then up rooted done
    else e ∷ done

unfoldable pub resolve : Bool → List Str → List Str → List Str
resolve rooted done [] = reverse done
resolve rooted done (e ∷ es) = resolve rooted (enter rooted done e) es

abbrev or_dot : Str → Str
or_dot [] = dot
or_dot (c ∷ s) = c ∷ s

unfoldable pub elements : Str → List Str
unfolding split resolve
elements s = resolve (is_abs s) [] (split s)

unfoldable pub clean : Str → Str
unfolding elements join_elements has_prefix
clean s =
    if is_abs s then slash ∷ join_elements (elements s) else or_dot (join_elements (elements s))

-- filepath.Join(a, b)
unfoldable pub join : Str → Str → Str
unfolding clean
join [] [] = []
join [] (c ∷ b) = clean (c ∷ b)
join (c ∷ a) b = clean ((c ∷ a) ++ slash ∷ b)

-- The text up to its last slash, that one included.
abbrev dir_part : Str → Str
dir_part [] = []
dir_part (c ∷ s) =
    let rest = dir_part s in
    elim rest [ [] ↦ if c == slash then c ∷ [] else [] | d ∷ ds ↦ c ∷ d ∷ ds ]

-- filepath.Dir and path.Dir
unfoldable pub dir : Str → Str
unfolding clean
dir s = clean (dir_part s)

abbrev after_last_slash : Str → Str → Str
after_last_slash seen [] = seen
after_last_slash seen (c ∷ s) = after_last_slash (if c == slash then [] else seen ++ c ∷ []) s

abbrev trim_slashes : Str → Str
trim_slashes [] = []
trim_slashes (c ∷ s) =
    let rest = trim_slashes s in
    elim rest [ [] ↦ if c == slash then [] else c ∷ [] | d ∷ ds ↦ c ∷ d ∷ ds ]

abbrev or_slash : Str → Str
or_slash [] = slash ∷ []
or_slash (c ∷ s) = c ∷ s

-- filepath.Base and path.Base
unfoldable pub base : Str → Str
base [] = dot
base (c ∷ s) = or_slash (after_last_slash [] (trim_slashes (c ∷ s)))

abbrev ups : List Str → List Str → List Str
ups [] es = es
ups (b ∷ bs) es = dot_dot ∷ ups bs es

-- What leads from the elements of the base to those of the target. No way leads out of a `..`.
unfoldable pub rel_elements : List Str → List Str → Result (List Str)
rel_elements [] ts = ok ts
rel_elements (b ∷ bs) [] = if str_eq b dot_dot then err (outside 1) else ok (ups (b ∷ bs) [])
rel_elements (b ∷ bs) (t ∷ ts) =
    if str_eq b t
    then rel_elements bs ts
    else if str_eq b dot_dot
    then err (outside 1)
    else ok (ups (b ∷ bs) (t ∷ ts))

abbrev pub same_kind : Bool → Bool → Bool
same_kind true true = true
same_kind false false = true
same_kind _ _ = false

abbrev joined : Result (List Str) → Result Str
joined (ok es) = ok (or_dot (join_elements es))
joined (err e) = err e

-- filepath.Rel(base, target)
unfoldable pub rel : Str → Str → Result Str
unfolding elements join_elements rel_elements has_prefix
rel base target =
    if same_kind (is_abs base) (is_abs target)
    then joined (rel_elements (elements base) (elements target))
    else err (outside 1)
