-- ===== src/Mobile/Copies.antt =====
-- The copies of files that the mobile clients keep, as the index records them.
use discodrive_apps.Base.{
  ℕ, ◌≡◌, refl, ap, ◌∙◌, ◌⊎◌, inl, inr, false, Option, none, some, [], Str, str_eq_self, ltb, arith,
}
use discodrive_apps.Base.Exec.{Error, Result, ok, err, Exec, pure, or_else_undo, continue, ◌>>=◌}
use discodrive_apps.Go.FilePath
use discodrive_apps.Index
use discodrive_apps.Index.{Node, Tables, LocalCopy, select_node, db_error, statement}
use discodrive_apps.Index.Statements.{Atomic, change-Atomic, query-cases}
use discodrive_apps.Index.Copies.{
  set_local, upsert_copy, local_status, local_path_of, find_copy, select_copy-upsert_copy,
}
use discodrive_apps.World.{World}
use discodrive_apps.SafePath
use discodrive_apps.Engine.{Machine, on_world, on_index}
use discodrive_apps.Engine.Keeps.{KeepsTables, KeepsTables-on_world, KeepsTables-undo}
use discodrive_apps.Mobile.{
  Service, fetch_to, download_node, download_as, unpin, unpin_node, cached_state,
}

abbrev pub with_copy : LocalCopy → Tables → Tables
with_copy c t = record t { local = upsert_copy c t.local }

abbrev pub copy_of : Str → Str → ℕ → Str → LocalCopy
copy_of id state version path = record {
  node_id = id;
  state = state;
  version = version;
  path = path;
}

set_local-Atomic :
    (id state : Str) (version : ℕ) (path : Str) (i : Index.Index)
    → Atomic (with_copy (copy_of id state version path)) (set_local id state version path) i
unfolding set_local
set_local-Atomic id state version path i = change-Atomic _ i

module _ (W : World) where
  -- `m` yields `b` and has done `f` to the tables, or it fails and they stay as they were.
  record Yields (f : Tables → Tables) (b : Str) (m : Exec (Machine W) Str) : Type 0 where
    at :
        (s : Machine W)
        → ((m s).0 ≡ ok b) × ((m s).1.index.tables ≡ f s.index.tables)
          ⊎ ((e : Error) × ((m s).0 ≡ err e)) × ((m s).1.index.tables ≡ s.index.tables)

  module _ (f : Tables → Tables) (b : Str) where
    continue-Yields :
        {A : Type 0} (r : Result A) (k : A → Exec (Machine W) Str) (s : Machine W) (t : Tables)
        → ((a : A) → Yields f b (k a))
        → s.index.tables ≡ t
        → ((continue r k s).0 ≡ ok b) × ((continue r k s).1.index.tables ≡ f t)
          ⊎ ((e : Error) × ((continue r k s).0 ≡ err e)) × ((continue r k s).1.index.tables ≡ t)
    continue-Yields (ok a) k s t c same = elim ((c a).at s) [
      | inl (e, h) ↦ inl (e, h ∙ ap f same)
      | inr (e, h) ↦ inr (e, h ∙ same)
    ]
    continue-Yields (err e) k s t c same = inr ((e, refl), same)

    Yields-bind :
        {A : Type 0} (m : Exec (Machine W) A) (k : A → Exec (Machine W) Str)
        → KeepsTables W m
        → ((a : A) → Yields f b (k a))
        → Yields f b (m >>= k)
    Yields-bind m k l c = record {
      at = λ s. continue-Yields (m s).0 k (m s).1 s.index.tables c (l.at s);
    }

  Yields-record :
      (id state : Str) (version : ℕ) (dst : Str)
      → Yields
          (with_copy (copy_of id state version dst))
          dst
          (on_index W (set_local id state version dst) >>= λ u. pure dst)
  Yields-record id state version dst = record {
    at = λ s. elim (set_local-Atomic id state version dst s.index) [
      | inl (e, t) ↦ rw e (inl (refl, t))
      | inr (e, t) ↦ rw e (inr ((db_error, refl), t))
    ];
  }

  module _ (S : Service W) (root : Str) where
    Yields-fetch_to :
        (id state : Str) (version : ℕ) (dst : Str)
        → Yields
            (with_copy (copy_of id state version dst))
            dst
            (fetch_to W S root id state version dst)
    unfolding fetch_to
    Yields-fetch_to id state version dst =
        Yields-bind _ dst (on_world W (W.mkdir_all (FilePath.dir dst))) _ (KeepsTables-on_world W _)
          λ _. Yields-bind _ dst (on_world W (S.create dst)) _ (KeepsTables-on_world W _) λ _.
            Yields-bind _ dst
              (or_else_undo (on_world W (W.download id dst)) (on_world W (W.close dst))) _
              (KeepsTables-undo W _ _ (KeepsTables-on_world W _) (KeepsTables-on_world W _))
              λ _.
                Yields-bind _ dst (on_world W (W.close dst)) _ (KeepsTables-on_world W _)
                  λ _. Yields-record id state version dst

    module _ (id state : Str) (s : Machine W) where
      -- How a download ends, and the tables after it.
      pub data Downloaded : Result Str → Tables → Type 0 where
        unknown : select_node id s.index.tables.nodes ≡ none → Downloaded (ok []) s.index.tables
        recorded :
            (n : Node) (dst : Str)
            → select_node id s.index.tables.nodes ≡ some n
            → (SafePath.join W root n.rel_path s.world).0 ≡ ok dst
            → Downloaded (ok dst) (with_copy (copy_of id state n.version dst) s.index.tables)
        failed : (e : Error) → Downloaded (err e) s.index.tables

      Downloaded-node :
          (o : Option Node) (i : Index.Index)
          → i.tables ≡ s.index.tables
          → select_node id s.index.tables.nodes ≡ o
          → Downloaded
              (download_node W S root id state o (record s { index = i })).0
              (download_node W S root id state o (record s { index = i })).1.index.tables
      unfolding download_node
      Downloaded-node none i same e = rw same (unknown e)
      Downloaded-node (some n) i same e = go (SafePath.join W root n.rel_path s.world).0 refl
        where
          after : W.State
          after = (SafePath.join W root n.rel_path s.world).1

          go :
              (r : Result Str)
              → (SafePath.join W root n.rel_path s.world).0 ≡ r
              → Downloaded
                  (download_node W S root id state (some n) (record s { index = i })).0
                  (download_node W S root id state (some n) (record s { index = i })).1.index.tables
          go (err x) h = rw (h, same) (failed x)
          go (ok dst) h =
              rw h
                (elim ((Yields-fetch_to id state n.version dst).at
                  (record { world = after; index = i })) [
                    | inl (f, t) ↦ rw (f, t, same) (recorded n dst e h)
                    | inr ((x, f), t) ↦ rw (f, t, same) (failed x)
                  ])

      -- A download, and with it a pin, records a copy exactly when it succeeds for a node of the index: the
      -- copy has the node's version, and its path is the one that the check of the server's path accepted.
      -- It succeeds with an empty path, and records nothing, for a node that the index does not have; at
      -- any error the tables are as before.
      pub download_as-Downloaded :
          Downloaded
            (download_as W S root id state s).0
            (download_as W S root id state s).1.index.tables
      unfolding download_as Index.get
      download_as-Downloaded =
          let (answer, same) = query-cases (λ t. ok (select_node id t.nodes)) s.index in
          elim answer [
            | inl e ↦ rw e (
                Downloaded-node (select_node id s.index.tables.nodes) (Index.get id s.index).1 same
                  refl)
            | inr e ↦ rw (e, same) (failed db_error)
          ]

  -- While the database answers, Unpin of a node of the index leaves its copy recorded as cached, at the
  -- path that it had, and shown as up to date with the server, whichever version of the file was
  -- downloaded.
  pub local_status-unpin :
      (w : W.State) (t : Tables) (id : Str) (n : Node)
      → select_node id t.nodes ≡ some n
      → let s : Machine W = record { world = w; index = record { tables = t; faults = [] } } in
        ((unpin W id s).0 ≡ ok tt)
        × ((local_status id n.version (unpin W id s).1.index).0
            ≡ (cached_state, false, (local_path_of id s.index).0))
  unfolding unpin unpin_node Index.get statement local_path_of local_status find_copy set_local
  local_status-unpin w t id n h =
      let fresh : ltb n.version n.version ≡ false = ground arith in
      rw h (refl, rw (select_copy-upsert_copy, str_eq_self id, fresh))
