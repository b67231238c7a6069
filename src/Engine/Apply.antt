-- ===== src/Engine/Apply.antt =====
-- What applying one change of the feed does to the index, whatever the world outside answers.
use discodrive_apps.Base.{Bool, true, false, Option, none, some, Str, if◌then◌else◌}
use discodrive_apps.Base.Exec.{Result, ok, err, Exec}
use discodrive_apps.Index
use discodrive_apps.Index.{Node, Tables, query, upsert_node, delete_node, statement}
use discodrive_apps.Index.Statements.{query-cases, put-Atomic, delete-Atomic}
use discodrive_apps.World.{World, Info, Change}
use discodrive_apps.Engine.{
  Machine, on_index, abs, rename_dir, move_dir_from, move_dir, apply_dir, rename_file,
  move_file_from, move_file, in_place, discard, close_and_discard, install, fetch_file, apply_file,
  apply_deleted, apply, dir_node, file_node,
}
use discodrive_apps.Engine.Keeps.{
  KeepsTables, Commits, KeepsTables-on_world, Commits-raise, Commits-if, Commits-on_index,
  Commits-bind, keeps_rules,
}

-- What a change says about the index.
abbrev pub put_row : Node → Tables → Tables
put_row n t = record t { nodes = upsert_node n t.nodes }

abbrev pub drop_row : Str → Tables → Tables
drop_row id t = record t { nodes = delete_node id t.nodes }

abbrev pub effect : Change → Tables → Tables
effect c =
    if c.deleted
    then drop_row c.node_id
    else if c.is_dir
    then put_row (dir_node c)
    else put_row (file_node c)

module _ (W : World) (root : Str) where
  KeepsTables-get : (id : Str) → KeepsTables W (on_index W (Index.get id))
  unfolding Index.get
  KeepsTables-get id = record {
    at = λ s. (query-cases (λ t. ok (Index.select_node id t.nodes)) s.index).1;
  }

  KeepsTables-abs : (r : Str) → KeepsTables W (abs W root r)
  unfolding abs
  KeepsTables-abs r = search keeps_rules

  KeepsTables-rename_dir :
      (r : Result Info) (old p : Str) → KeepsTables W (rename_dir W root r old p)
  unfolding rename_dir
  KeepsTables-rename_dir (err e) old p = search keeps_rules
  KeepsTables-rename_dir (ok fi) old p = search keeps_rules

  KeepsTables-move_dir_from : (r : Result Str) (p : Str) → KeepsTables W (move_dir_from W root r p)
  unfolding move_dir_from
  KeepsTables-move_dir_from (err e) p = search keeps_rules
  KeepsTables-move_dir_from (ok old) p = search (keeps_rules, KeepsTables-rename_dir)

  KeepsTables-move_dir :
      (o : Option Node) (c : Change) (p : Str) → KeepsTables W (move_dir W root o c p)
  unfolding move_dir
  KeepsTables-move_dir none c p = search keeps_rules
  KeepsTables-move_dir (some existing) c p =
      search (keeps_rules, KeepsTables-abs, KeepsTables-move_dir_from)

  KeepsTables-rename_file :
      (r : Result Info) (old p : Str) → KeepsTables W (rename_file W root r old p)
  unfolding rename_file
  KeepsTables-rename_file (err e) old p = search keeps_rules
  KeepsTables-rename_file (ok fi) old p = search keeps_rules

  KeepsTables-move_file_from :
      (r : Result Str) (p : Str) → KeepsTables W (move_file_from W root r p)
  unfolding move_file_from
  KeepsTables-move_file_from (err e) p = search keeps_rules
  KeepsTables-move_file_from (ok old) p = search (keeps_rules, KeepsTables-rename_file)

  KeepsTables-move_file :
      (o : Option Node) (c : Change) (p : Str) → KeepsTables W (move_file W root o c p)
  unfolding move_file
  KeepsTables-move_file none c p = search keeps_rules
  KeepsTables-move_file (some existing) c p =
      search (keeps_rules, KeepsTables-abs, KeepsTables-move_file_from)

  KeepsTables-in_place :
      (o : Option Node) (c : Change) (p : Str) → KeepsTables W (in_place W root o c p)
  unfolding in_place
  KeepsTables-in_place none c p = search keeps_rules
  KeepsTables-in_place (some existing) c p = search keeps_rules

  KeepsTables-discard : (tmp : Str) → KeepsTables W (discard W root tmp)
  unfolding discard
  KeepsTables-discard tmp = search keeps_rules

  KeepsTables-close_and_discard : (tmp : Str) → KeepsTables W (close_and_discard W root tmp)
  unfolding close_and_discard
  KeepsTables-close_and_discard tmp = search (keeps_rules, KeepsTables-discard)

  Commits-put : (n : Node) → Commits W (put_row n) (on_index W (Index.put n))
  Commits-put n = Commits-on_index W (put_row n) (Index.put n) (put-Atomic n)

  Commits-install :
      (c : Change) (p tmp bytes : Str)
      → Commits W (put_row (file_node c)) (install W root c p tmp bytes)
  unfolding install
  Commits-install c p tmp bytes =
      search
        (keeps_rules, KeepsTables-discard, Commits-put, Commits-raise, Commits-if, Commits-bind)

  Commits-fetch_file :
      (c : Change) (p : Str) → Commits W (put_row (file_node c)) (fetch_file W root c p)
  unfolding fetch_file
  Commits-fetch_file c p =
      search
        (
          keeps_rules, KeepsTables-discard, KeepsTables-close_and_discard, Commits-install,
          Commits-bind,
        )
        depth 8

  Commits-apply_file :
      (c : Change) (p : Str) → Commits W (put_row (file_node c)) (apply_file W root c p)
  unfolding apply_file
  Commits-apply_file c p = search (
    KeepsTables-get, KeepsTables-move_file, KeepsTables-in_place, Commits-fetch_file, Commits-put,
    Commits-if, Commits-bind,
  )

  Commits-apply_dir :
      (c : Change) (p : Str) → Commits W (put_row (dir_node c)) (apply_dir W root c p)
  unfolding apply_dir
  Commits-apply_dir c p =
      search
        (KeepsTables-get, KeepsTables-move_dir, KeepsTables-on_world, Commits-put, Commits-bind)

  Commits-apply_deleted :
      (c : Change) (p : Str) → Commits W (drop_row c.node_id) (apply_deleted W root c p)
  unfolding apply_deleted
  Commits-apply_deleted c p = search (
    KeepsTables-on_world, Commits-on_index, delete-Atomic, Commits-raise, Commits-if, Commits-bind,
  )

  Commits-choice :
      (b : Bool) (f g : Tables → Tables) (m n : Exec (Machine W) (Unit {0}))
      → Commits W f m
      → Commits W g n
      → Commits W (if b then f else g) (if b then m else n)
  Commits-choice true f g m n k l = k
  Commits-choice false f g m n k l = l

  -- Whatever the file system and the server do: applying a change either succeeds and has made
  -- exactly the change's entry in the index (a deleted node dropped, a folder or a file put under
  -- its new path, version and hash), or it fails and every table is as it was.
  pub Commits-apply : (c : Change) → Commits W (effect c) (apply W root c)
  unfolding apply
  Commits-apply c =
      Commits-bind W (effect c) (abs W root c.rel_path) _ (KeepsTables-abs c.rel_path) λ p.
        Commits-choice c.deleted _ _ _ _ (Commits-apply_deleted c p)
          (Commits-choice c.is_dir _ _ _ _ (Commits-apply_dir c p) (Commits-apply_file c p))
