-- ===== src/Vault/Tree/Memory.antt =====
-- A storage in memory: the paths that were made, the last one first, with the bytes of a file or without.
use mathlib.Core.List.{Memᴰ, append_assoc}
use discodrive_apps.Base.{
  ◌≡◌, refl, sym, ap, ◌∙◌, Bool, true, false, Bool-cases, inl, inr, Option, none, some, List, [],
  ◌∷◌, ◌++◌, Str, str_eq, str_eq_iff, str_eq_self, ◌==◌, if◌then◌else◌, arith,
}
use discodrive_apps.Base.Exec.{Result, ok, err, not_exist}
use discodrive_apps.Go.FilePath
use discodrive_apps.Go.FilePath.{slash, split}
use discodrive_apps.Go.FilePath.Clean.{IsName, has_slash}
use discodrive_apps.Go.FilePath.Names.{join_names, split-below}
use discodrive_apps.Vault.Tree.{Storage, Entry}
use discodrive_apps.Vault.Tree.Stored.{Stored, IsFolder}

abbrev pub Paths : Type 0
Paths = List (Str × Option Str)

-- What follows a prefix.
unfoldable pub strip : Str → Str → Option Str
strip [] s = some s
strip (a ∷ p) [] = none
strip (a ∷ p) (b ∷ s) = let rest = strip p s in if a == b then rest else none

strip-append : (p s : Str) → strip p (p ++ s) ≡ some s
unfolding strip
strip-append [] s = refl
strip-append (a ∷ p) s = let e : (a == a) ≡ true = ground arith in rw (e, strip-append p s)

abbrev pub is_dir_of : Option Str → Bool
is_dir_of none = true
is_dir_of (some bytes) = false

abbrev pub cons_child : Option Str → Option Str → List Entry → List Entry
cons_child none o es = es
cons_child (some rest) o es =
    if has_slash rest then es else record { name = rest; is_dir = is_dir_of o } ∷ es

unfoldable pub children : Str → Paths → List Entry
children dir [] = []
children dir ((p, o) ∷ ps) = cons_child (strip (dir ++ slash ∷ []) p) o (children dir ps)

abbrev pub or_later : Bool → Option Str → Result Str → Result Str
or_later true (some bytes) later = ok bytes
or_later true none later = later
or_later false o later = later

unfoldable pub content_of : Str → Paths → Result Str
content_of path [] = err not_exist
content_of path ((p, o) ∷ ps) = or_later (str_eq p path) o (content_of path ps)

abbrev pub memory : Storage
memory = record {
  State = Paths;
  list_dir = λ dir ps. ok (children dir ps);
  read_file = content_of;
  make_dir = λ path ps. (ok tt, (path, none) ∷ ps);
  write_file = λ path bytes ps. (ok tt, (path, some bytes) ∷ ps);
  remove = λ path ps. (ok tt, ps);
}

child-head :
    (dir base : Str) (o : Option Str) (ps : Paths)
    → IsName base
    → children dir ((dir ++ slash ∷ base, o) ∷ ps)
      ≡ record { name = base; is_dir = is_dir_of o } ∷ children dir ps
unfolding children
child-head dir base o ps h =
    let e : strip (dir ++ slash ∷ []) (dir ++ slash ∷ base) ≡ some base =
      ap (strip (dir ++ slash ∷ [])) (sym (append_assoc dir (slash ∷ []) base))
      ∙ strip-append (dir ++ slash ∷ []) base in
    rw (e, h.no_slash) refl

Mem-cons_child :
    (r o : Option Str) (e : Entry) (es : List Entry) → Memᴰ e es → Memᴰ e (cons_child r o es)
Mem-cons_child none o e es m = m
Mem-cons_child (some rest) o e es m = elim (Bool-cases (has_slash rest)) [
  | inl h ↦ rw h m
  | inr h ↦ rw h (Memᴰ.tail m)
]

-- The last element of a path.
last_of : List Str → Str
last_of [] = []
last_of (e ∷ []) = e
last_of (e ∷ f ∷ es) = last_of (f ∷ es)

last_of-append : (es : List Str) (e : Str) → last_of (es ++ e ∷ []) ≡ e
unfolding last_of
last_of-append [] e = refl
last_of-append (x ∷ []) e = refl
last_of-append (x ∷ y ∷ es) e = last_of-append (y ∷ es) e

other_path :
    (dir base other name : Str)
    → IsFolder dir
    → IsName base
    → IsFolder other
    → IsName name
    → str_eq base name ≡ false
    → str_eq (FilePath.join other name) (FilePath.join dir base) ≡ false
other_path dir base other name h k l m differ =
    elim (Bool-cases (str_eq (FilePath.join other name) (FilePath.join dir base))) [
      | inr e ↦ e
      | inl e ↦
          let same : other ++ slash ∷ name ≡ dir ++ slash ∷ base =
            sym (join_names other name l m) ∙ (str_eq_iff _ _).0 e ∙ join_names dir base h k in
          let ends : name ≡ base =
            sym (last_of-append (split other) name)
            ∙ ap last_of (sym (split-below other name m) ∙ ap split same ∙ split-below dir base k)
            ∙ last_of-append (split dir) base in
          absurd (ground (arith, differ, ends, str_eq_iff base name))
    ]

or_later-none : (b : Bool) (later : Result Str) → or_later b none later ≡ later
or_later-none true later = refl
or_later-none false later = refl

pub Stored-memory : Stored memory
unfolding content_of children
Stored-memory = record {
  Has = λ dir e ps. Memᴰ e (children dir ps);
  lists = λ dir e ps m. (children dir ps, refl, m);
  write_has = λ dir base bytes ps h k done.
      rw (join_names dir base h k, child-head dir base (some bytes) ps k) (Memᴰ.head refl);
  make_has = λ dir base ps h k done.
      rw (join_names dir base h k, child-head dir base none ps k) (Memᴰ.head refl);
  write_reads = λ path bytes ps h done. rw (str_eq_self path) refl;
  write_keeps_entries = λ path bytes dir e ps done m.
      Mem-cons_child (strip (dir ++ slash ∷ []) path) (some bytes) e (children dir ps) m;
  make_keeps_entries = λ path dir e ps done m.
      Mem-cons_child (strip (dir ++ slash ∷ []) path) none e (children dir ps) m;
  write_keeps = λ dir base other name bytes ps h k l m differ done.
      rw (other_path dir base other name h k l m differ) refl;
  make_keeps = λ made path ps done. or_later-none (str_eq made path) (content_of path ps);
}
