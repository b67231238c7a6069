-- ===== src/Tests.antt =====
-- A device and a server for the runs: a folder `/r` with one file, and a feed of three changes.
mod Pull
mod Paths
mod Local
mod Content
mod Keys
mod Phone
mod Net
mod Tree
mod Open
mod Whole
use discodrive_apps.Base.{
  ℕ, ◌-◌, ◌≡◌, refl, true, false, Option, none, some, List, [], ◌∷◌, ◌++◌, Str, codes, str_eq,
  if◌then◌else◌, arith, length, take, take-append, replicate, length-append, length-replicate,
}
use discodrive_apps.Go.FilePath
use discodrive_apps.Index.{Index, Tables, Node}
use discodrive_apps.World.{World, Change}
use discodrive_apps.World.Memory.{Files, Item, memory, next_page_advances}
use discodrive_apps.Engine.{Machine}
use discodrive_apps.Engine.Pages.{IsFeed}
use discodrive_apps.Push.{Op, LocalChange}

abbrev pub root : Str
root = codes "/r"

pub clean-root : FilePath.clean root ≡ FilePath.slash ∷ 114 ∷ []
unfolding FilePath.clean FilePath.split FilePath.join_elements FilePath.resolve FilePath.elements
    str_eq
clean-root = refl

abbrev pub fetched : Change
fetched = record {
  seq = 1;
  op = codes "create";
  node_id = codes "n1";
  rel_path = codes "a";
  is_dir = false;
  version = 1;
  content_hash = 35 ∷ codes "new";
  size = 3;
  deleted = false;
}

abbrev pub made : Change
made = record {
  seq = 2;
  op = codes "create";
  node_id = codes "n2";
  rel_path = codes "d";
  is_dir = true;
  version = 1;
  content_hash = [];
  size = 0;
  deleted = false;
}

abbrev pub deleted : Change
deleted = record {
  seq = 3;
  op = codes "delete";
  node_id = codes "n1";
  rel_path = codes "a";
  is_dir = false;
  version = 2;
  content_hash = [];
  size = 0;
  deleted = true;
}

abbrev pub feed : List Change
feed = fetched ∷ made ∷ deleted ∷ []

abbrev pub blobs : Str → Option Str
blobs id = some (codes "new")

abbrev pub device : World
device = memory feed blobs (root ∷ [])

abbrev pub files : Files
files p = if str_eq p (codes "/r/a") then some (Item.file (codes "old")) else some Item.folder

abbrev pub no_tables : Tables
no_tables = record { meta = []; nodes = []; local = [] }

abbrev pub no_index : Index
no_index = record { tables = no_tables; faults = [] }

abbrev pub start : Machine device
start = record { world = files; index = no_index }

pub IsFeed-device : IsFeed device 3
IsFeed-device = record {
  advances = λ since limit s page e b.
      ground
        (arith, next_page_advances since 3 feed (omega arith, (omega arith, (omega arith, tt))));
}

abbrev pub node : Node
node = record {
  node_id = codes "n1";
  rel_path = codes "a";
  is_dir = false;
  version = 1;
  content_hash = 35 ∷ codes "old";
  size = 3;
}

abbrev pub created : LocalChange
created = record {
  op = Op.create;
  rel_path = codes "b";
  old_rel_path = [];
  is_dir = false;
  hash = codes "h";
  size = 3;
}

abbrev pub dropped : LocalChange
dropped = record {
  op = Op.delete;
  rel_path = codes "a";
  old_rel_path = [];
  is_dir = false;
  hash = codes "h";
  size = 3;
}
