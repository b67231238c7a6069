-- ===== src/World/Memory.antt =====
-- A world in memory, to run the engine in: a table of paths, a feed, and the contents that the
-- server hands out. It renames one path at a time and has one temporary file.
use discodrive_apps.Base.{
  ℕ, ◌≤◌, ◌<◌, ◌≡◌, refl, ◌∙◌, ap, ◌≢◌, ◌⊎◌, true, false, ◌||◌, Option, none, some, List, [], ◌∷◌,
  ◌++◌, Str, codes, str_eq, str_eq_iff, str_eq_self, has_prefix, if◌then◌else◌, arith, ltb,
  Bool-cases, inl, inr,
}
use discodrive_apps.Base.Exec.{Error, Result, ok, err, not_exist, outside}
use discodrive_apps.Go.FilePath
use discodrive_apps.World.{World, Info, Visit, Change, Page, RemoteNode, is_temp_name}
use discodrive_apps.World.Disk.{Disk}

pub data Item : Type 0 where
  file : Str → Item
  folder link : Item

abbrev pub Files : Type 0
Files = Str → Option Item

abbrev update : Files → Str → Option Item → Files
update d p i q = if str_eq p q then i else d q

abbrev info : Item → Info
info (file bytes) = record { is_dir = false; is_symlink = false }
info folder = record { is_dir = true; is_symlink = false }
info link = record { is_dir = false; is_symlink = true }

abbrev look : Option Item → Result Info
look none = err not_exist
look (some i) = ok (info i)

abbrev bytes_of : Option Item → Result Str
bytes_of (some (file bytes)) = ok bytes
bytes_of (some folder) = err (outside 2)
bytes_of (some link) = err (outside 2)
bytes_of none = err not_exist

abbrev content : Option Item → Option Str
content (some (file bytes)) = some bytes
content (some folder) = none
content (some link) = none
content none = none

abbrev made : Option Item → Option Item
made none = some folder
made (some i) = some i

abbrev renamed : Files → Str → Str → Option Item → Result (Unit {0}) × Files
renamed d old new none = (err not_exist, d)
renamed d old new (some i) = (ok tt, update (update d old none) new (some i))

abbrev downloaded : Files → Str → Option Str → Result Str × Files
downloaded d tmp none = (err (outside 3), d)
downloaded d tmp (some bytes) = (ok bytes, update d tmp (some (file bytes)))

abbrev temp_path : Str
temp_path = codes "/t/.kf-tmp-1"

abbrev visits : Files → List Str → List Visit
visits d [] = []
visits d (p ∷ ps) = record { path = p; entry = look (d p) } ∷ visits d ps

abbrev answer : RemoteNode
answer = record { node_id = codes "new"; version = 1; hash = [] }

-- Pages of at most one change each; a push is always accepted.
abbrev pub next_page : ℕ → List Change → Page
next_page since [] = record { changes = []; cursor = since; has_more = false }
next_page since (c ∷ cs) =
    let rest = next_page since cs in
    if ltb since c.seq then record { changes = c ∷ []; cursor = c.seq; has_more = true } else rest

abbrev pub memory : List Change → (Str → Option Str) → List Str → World
memory feed blobs names = record {
  State = Files;
  lstat = λ p d. (look (d p), d);
  stat = λ p d. (look (d p), d);
  mkdir_all = λ p d. (ok tt, update d p (made (d p)));
  remove_all = λ p d.
      (ok tt, λ q. if str_eq p q || has_prefix q (p ++ FilePath.slash ∷ []) then none else d q);
  remove = λ p d. (ok tt, update d p none);
  rename = λ old new d. renamed d old new (d old);
  create_temp = λ dir d. (ok temp_path, update d temp_path (some (file [])));
  close = λ p d. (ok tt, d);
  walk = λ p d. (ok (visits d names), d);
  read = λ p d. (bytes_of (d p), d);
  sha256_hex = λ bytes. 35 ∷ bytes;
  fetch_changes = λ since limit d. (ok (next_page since feed), d);
  download = λ id tmp d. downloaded d tmp (blobs id);
  sync_meta = λ d. (ok 1, d);
  push_file = λ p base bytes d. (ok (answer, false), d);
  ensure_dir = λ p d. (ok answer, d);
  delete_remote = λ p d. (ok tt, d);
  move_node = λ id parent d. (ok tt, d);
  rename_node = λ id name d. (ok tt, d);
}

content-made : (o : Option Item) → content (made o) ≡ content o
content-made none = refl
content-made (some i) = refl

temp_path_named : is_temp_name (FilePath.base temp_path) ≡ true
unfolding FilePath.base has_prefix
temp_path_named = refl

temp_of_made : (tmp : Str) → ok temp_path ≡ ok tmp → is_temp_name (FilePath.base tmp) ≡ true
temp_of_made tmp h = cc (temp_path_named)

not_temp_path : (q : Str) → is_temp_name (FilePath.base q) ≡ false → str_eq temp_path q ≡ false
not_temp_path q h = elim (Bool-cases (str_eq temp_path q)) [
  | inl e ↦
      cc (temp_path_named, ap (λ p. is_temp_name (FilePath.base p)) ((str_eq_iff temp_path q).0 e))
  | inr e ↦ e
]

downloaded_keeps :
    (d : Files) (tmp q : Str) (o : Option Str)
    → tmp ≢ q
    → content ((downloaded d tmp o).1 q) ≡ content (d q)
downloaded_keeps d tmp q none h = refl
downloaded_keeps d tmp q (some bytes) h = ground (arith, str_eq_iff tmp q)

downloaded_writes :
    (d : Files) (tmp bytes : Str) (o : Option Str)
    → (downloaded d tmp o).0 ≡ ok bytes
    → content ((downloaded d tmp o).1 tmp) ≡ some bytes
downloaded_writes d tmp bytes none h = cc
downloaded_writes d tmp bytes (some b) h = rw (str_eq_self tmp) (ground arith)

renamed_fails :
    (d : Files) (old new q : Str) (o : Option Item) (e : Error)
    → (renamed d old new o).0 ≡ err e
    → content ((renamed d old new o).1 q) ≡ content (d q)
renamed_fails d old new q none e h = refl
renamed_fails d old new q (some i) e h = cc

renamed_moves :
    (d : Files) (old new bytes : Str) (o : Option Item)
    → (renamed d old new o).0 ≡ ok tt
    → content o ≡ some bytes
    → content ((renamed d old new o).1 new) ≡ some bytes
renamed_moves d old new bytes none h k = cc
renamed_moves d old new bytes (some i) h k = rw (str_eq_self new) k

made_keeps :
    (d : Files) (p q : Str)
    → (str_eq p q ≡ true) ⊎ (str_eq p q ≡ false)
    → content (update d p (made (d p)) q) ≡ content (d q)
made_keeps d p q (inl e) =
    rw e (content-made (d p) ∙ ap (λ r. content (d r)) ((str_eq_iff p q).0 e))
made_keeps d p q (inr e) = rw e

-- The world in memory changes no other files than the engine relies on.
pub memory-Disk :
    (feed : List Change) (blobs : Str → Option Str) (names : List Str)
    → Disk (memory feed blobs names)
memory-Disk feed blobs names = record {
  file = λ d p. content (d p);
  mkdir_all_keeps = λ p q d. made_keeps d p q (Bool-cases (str_eq p q));
  close_keeps = λ p q d. refl;
  remove_keeps = λ p q d h. ground (arith, str_eq_iff p q);
  create_temp_keeps = λ dir q d h. rw (not_temp_path q h);
  create_temp_named = λ dir tmp d h. temp_of_made tmp h;
  download_keeps = λ id tmp q d h. downloaded_keeps d tmp q (blobs id) h;
  download_writes = λ id tmp bytes d h. downloaded_writes d tmp bytes (blobs id) h;
  rename_fails = λ old new q d e h. renamed_fails d old new q (d old) e h;
  rename_moves = λ old new bytes d h k. renamed_moves d old new bytes (d old) h k;
}

-- Its feed ends at the largest number in it.
abbrev pub Below : ℕ → List Change → Type 0
Below last [] = Unit
Below last (c ∷ cs) = (c.seq ≤ last) × Below last cs

pub next_page_advances :
    (since last : ℕ) (feed : List Change)
    → Below last feed
    → (next_page since feed).has_more ≡ true
    → (since < (next_page since feed).cursor) × ((next_page since feed).cursor ≤ last)
next_page_advances since last [] b h = cc
next_page_advances since last (c ∷ cs) b h = ground (arith, next_page_advances since last cs b.1)
