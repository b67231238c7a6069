-- ===== src/Go/Json.antt =====
-- encoding/json as the program uses it: a document is a tree, and Decode fills the fields of a struct
-- from the members of an object. The text of a document is the parameter of whoever sends or reads it.
-- A number that is negative or no whole number is not written by the program, and is refused here.
use discodrive_apps.Base.{ℕ, ◌+◌, Bool, ◌&&◌, [], ◌∷◌, Str, leb, str_eq, if◌then◌else◌}
use discodrive_apps.Base.Exec.{Result, ok, err, bad_format}

-- An object is a list of its members; what the program builds and reads nests no deeper.
mutual
  pub data Json : Type 0 where
    null : Json
    flag : Bool → Json
    num : ℕ → Json
    other_num : Json
    str : Str → Json
    arr : Items → Json
    obj : Members → Json

  pub data Items : Type 0 where
    nil : Items
    item : Json → Items → Items

  pub data Members : Type 0 where
    empty : Members
    member : Str → Json → Members → Members

-- ASCII letters in lower case: the names of fields are matched without regard to case.
abbrev lower : ℕ → ℕ
lower c = if leb 65 c && leb c 90 then c + 32 else c

unfoldable pub lower_all : Str → Str
lower_all [] = []
lower_all (c ∷ s) = lower c ∷ lower_all s

abbrev pub same_name : Str → Str → Bool
same_name a b = str_eq (lower_all a) (lower_all b)

-- A field of type string, int64 or bool takes a value over the one it has; null leaves it.
abbrev pub as_str : Str → Json → Result Str
as_str old null = ok old
as_str old (str s) = ok s
as_str old _ = err bad_format

abbrev pub as_int : ℕ → Json → Result ℕ
as_int old null = ok old
as_int old (num n) = ok n
as_int old _ = err bad_format

abbrev pub as_bool : Bool → Json → Result Bool
as_bool old null = ok old
as_bool old (flag b) = ok b
as_bool old _ = err bad_format

module _ {A : Type 0} (read : A → Json → Result A) where
  abbrev pub and_then : Result A → (A → Result A) → Result A
  and_then (ok a) f = f a
  and_then (err e) f = err e

  -- The members in their order: a later one of the same name counts.
  unfoldable pub read_members : Str → Members → A → Result A
  read_members name empty old = ok old
  read_members name (member k v ms) old =
      if same_name k name
      then and_then (read old v) (λ a. read_members name ms a)
      else read_members name ms old

  -- The field `name` of a struct, whose value was `zero` before.
  abbrev pub field : Str → A → Json → Result A
  field name zero null = ok zero
  field name zero (obj ms) = read_members name ms zero
  field name zero _ = err bad_format

-- The items of a field that is a slice.
abbrev pub as_items : Items → Json → Result Items
as_items old null = ok nil
as_items old (arr xs) = ok xs
as_items old _ = err bad_format

-- A field that is a struct: its document, of which the fields are read on.
abbrev pub as_object : Json → Json → Result Json
as_object old null = ok old
as_object old (obj ms) = ok (obj ms)
as_object old _ = err bad_format
