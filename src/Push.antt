-- ===== src/Push.antt =====
-- daemon/internal/engine/push.go, the pure part: what a local change is, how a deletion and a creation
-- of the same content become a move, and in which order the changes are sent.
pub mod Queues
pub mod Pairing
pub mod Order
use discodrive_apps.Base.{
  ℕ, zero, suc, ◌+◌, Bool, true, false, not, ◌&&◌, Option, none, some, List, [], ◌∷◌, Str, str_eq,
  count_byte, ltb, ◌==◌, if◌then◌else◌,
}
use discodrive_apps.Base.Sort.{sort}
use discodrive_apps.Go.FilePath.{slash}

pub data Op : Type 0 where
  create update delete move : Op

pub record LocalChange : Type 0 where
  pub op : Op
  pub rel_path : Str
  pub old_rel_path : Str
  pub is_dir : Bool
  pub hash : Str
  pub size : ℕ

abbrev is_create : Op → Bool
is_create create = true
is_create _ = false

abbrev is_delete : Op → Bool
is_delete delete = true
is_delete _ = false

-- The files with a known hash take part.
abbrev pub is_source : LocalChange → Bool
is_source c = is_delete c.op && (not c.is_dir && not (str_eq c.hash []))

abbrev pub is_target : LocalChange → Bool
is_target c = is_create c.op && (not c.is_dir && not (str_eq c.hash []))

-- deletesByHash: the queues of all hashes, in one list of indexes with their hashes.
abbrev pub Queue : Type 0
Queue = List (ℕ × Str)

unfoldable pub deletes_by_hash : ℕ → List LocalChange → Queue
deletes_by_hash i [] = []
deletes_by_hash i (c ∷ cs) =
    let rest = deletes_by_hash (suc i) cs in if is_source c then (i, c.hash) ∷ rest else rest

abbrev pub pushed_back : ℕ × Str → Option (ℕ × Queue) → Option (ℕ × Queue)
pushed_back e none = none
pushed_back e (some (j, q)) = some (j, e ∷ q)

-- The first index of the queue of `h`, and the queues without it.
unfoldable pub dequeue : Str → Queue → Option (ℕ × Queue)
dequeue h [] = none
dequeue h ((j, g) ∷ q) =
    let rest = pushed_back (j, g) (dequeue h q) in if str_eq g h then some (j, q) else rest

-- movedFrom: the index of a creation, with that of the deletion it consumes.
abbrev pub Moves : Type 0
Moves = List (ℕ × ℕ)

-- What a change takes from the queues, the queues after it, and the pair that it adds.
abbrev pub taken_by : LocalChange → Queue → Option (ℕ × Queue)
taken_by c q = if is_target c then dequeue c.hash q else none

abbrev pub queues_after : Queue → Option (ℕ × Queue) → Queue
queues_after q none = q
queues_after q (some (j, q')) = q'

abbrev pub with_pair : ℕ → Option (ℕ × Queue) → Moves → Moves
with_pair i none m = m
with_pair i (some (j, q')) m = (i, j) ∷ m

unfoldable pub moved_from : ℕ → List LocalChange → Queue → Moves
moved_from i [] q = []
moved_from i (c ∷ cs) q =
    with_pair i (taken_by c q) (moved_from (suc i) cs (queues_after q (taken_by c q)))

unfoldable pub consumed : ℕ → Moves → Bool
consumed j [] = false
consumed j ((i, k) ∷ m) = if k == j then true else consumed j m

unfoldable pub source_of : ℕ → Moves → Option ℕ
source_of i [] = none
source_of i ((k, j) ∷ m) = if k == i then some j else source_of i m

unfoldable pub change_at : List LocalChange → ℕ → Option LocalChange
change_at [] j = none
change_at (c ∷ cs) zero = some c
change_at (c ∷ cs) (suc j) = change_at cs j

-- changes[j].RelPath; the index is always in range.
abbrev pub path_of : Option LocalChange → Str
path_of none = []
path_of (some c) = c.rel_path

abbrev pub move_to : LocalChange → Str → LocalChange
move_to c old = record {
  op = move;
  rel_path = c.rel_path;
  old_rel_path = old;
  is_dir = false;
  hash = c.hash;
  size = c.size;
}

abbrev pub moved_or_same : List LocalChange → LocalChange → Option ℕ → LocalChange
moved_or_same all c none = c
moved_or_same all c (some j) = move_to c (path_of (change_at all j))

unfoldable pub rewritten : List LocalChange → Moves → ℕ → List LocalChange → List LocalChange
rewritten all m i [] = []
rewritten all m i (c ∷ cs) =
    let rest = rewritten all m (suc i) cs in
    if consumed i m then rest else moved_or_same all c (source_of i m) ∷ rest

unfoldable pub pair_local_moves : List LocalChange → List LocalChange
unfolding deletes_by_hash dequeue moved_from consumed source_of change_at rewritten
pair_local_moves changes =
    rewritten changes (moved_from 0 changes (deletes_by_hash 0 changes)) 0 changes

abbrev pub depth : Str → ℕ
depth rel = count_byte slash rel

abbrev pub rank : Op → ℕ
rank delete = 2
rank move = 1
rank create = 0
rank update = 0

unfoldable pub sent_before : LocalChange → LocalChange → Bool
sent_before a b =
    if rank a.op == rank b.op
    then (if rank a.op == 2
        then ltb (depth b.rel_path) (depth a.rel_path)
        else ltb (depth a.rel_path) (depth b.rel_path))
    else ltb (rank a.op) (rank b.op)

unfoldable pub in_order : List LocalChange → List LocalChange
unfolding sent_before sort
in_order changes = sort sent_before changes
