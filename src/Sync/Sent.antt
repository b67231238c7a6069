-- ===== src/Sync/Sent.antt =====
-- What an upload leaves in the index.
use discodrive_apps.Base.{◌≡◌, refl, inl, inr, Bool, true, false, List, Str}
use discodrive_apps.Base.Exec.{Error, Result, ok, err}
use discodrive_apps.Index
use discodrive_apps.Index.{Node}
use discodrive_apps.Index.Statements.{put-Atomic}
use discodrive_apps.World.{World, RemoteNode}
use discodrive_apps.Engine.{Machine, on_index}
use discodrive_apps.Engine.Apply.{put_row}
use discodrive_apps.Push.{LocalChange}
use discodrive_apps.Detect.{known_at}
use discodrive_apps.Sync.{base_version, pushed_file, record_push, push_content}

module _ (W : World) (root : Str) (known : List Node) (c : LocalChange) (p : Str)
    (s : Machine W) where
  -- What the server answers to the upload of `bytes`.
  abbrev pub upload : Str → Result (RemoteNode × Bool)
  upload bytes =
      (W.push_file c.rel_path (base_version (known_at c.rel_path known)) bytes
        (W.read p s.world).1).0

  -- How an upload ends, from the outcome and the tables after it.
  pub data Sent : Result (Unit {0}) → Index.Tables → Type 0 where
    unread : (e : Error) → (W.read p s.world).0 ≡ err e → Sent (err e) s.index.tables
    refused :
        (bytes : Str) (e : Error)
        → (W.read p s.world).0 ≡ ok bytes
        → upload bytes ≡ err e
        → Sent (err e) s.index.tables
    conflict :
        (bytes : Str) (rn : RemoteNode)
        → (W.read p s.world).0 ≡ ok bytes
        → upload bytes ≡ ok (rn, true)
        → Sent (ok tt) s.index.tables
    accepted :
        (bytes : Str) (rn : RemoteNode)
        → (W.read p s.world).0 ≡ ok bytes
        → upload bytes ≡ ok (rn, false)
        → Sent (ok tt) (put_row (pushed_file c rn) s.index.tables)
    unrecorded :
        (bytes : Str) (rn : RemoteNode) (e : Error)
        → (W.read p s.world).0 ≡ ok bytes
        → upload bytes ≡ ok (rn, false)
        → Sent (err e) s.index.tables

  -- The index takes in the server's answer to an upload exactly when the server accepted the bytes that
  -- were read from the file without a conflict (and the database takes the entry). After a conflict the
  -- push goes on and the tables are as before; when the file cannot be read, the server refuses or the
  -- database fails, the push ends with an error and the tables are as before.
  pub push_content-Sent :
      Sent (push_content W root known c p s).0 (push_content W root known c p s).1.index.tables
  unfolding push_content record_push
  push_content-Sent = go (W.read p s.world).0 refl
    where
      recorded :
          (bytes : Str) (rn : RemoteNode) (w : W.State)
          → (W.read p s.world).0 ≡ ok bytes
          → upload bytes ≡ ok (rn, false)
          → Sent
              (on_index W (Index.put (pushed_file c rn)) (record s { world = w })).0
              (on_index W (Index.put (pushed_file c rn)) (record s { world = w })).1.index.tables
      recorded bytes rn w e h = elim (put-Atomic (pushed_file c rn) s.index) [
        | inl (o, t) ↦ rw (o, t) (accepted bytes rn e h)
        | inr (o, t) ↦ rw (o, t) (unrecorded bytes rn _ e h)
      ]

      answered :
          (bytes : Str) (b : Bool) (rn : RemoteNode)
          → (W.read p s.world).0 ≡ ok bytes
          → upload bytes ≡ ok (rn, b)
          → Sent
              (push_content W root known c p s).0
              (push_content W root known c p s).1.index.tables
      answered bytes true rn e h = rw (e, h) (conflict bytes rn e h)
      answered bytes false rn e h =
          rw (e, h)
            (recorded bytes rn
              (W.push_file c.rel_path (base_version (known_at c.rel_path known)) bytes
                (W.read p s.world).1).1
              e h)

      sent :
          (bytes : Str) (r : Result (RemoteNode × Bool))
          → (W.read p s.world).0 ≡ ok bytes
          → upload bytes ≡ r
          → Sent
              (push_content W root known c p s).0
              (push_content W root known c p s).1.index.tables
      sent bytes (ok (rn, b)) e h = answered bytes b rn e h
      sent bytes (err x) e h = rw (e, h) (refused bytes x e h)

      go :
          (r : Result Str)
          → (W.read p s.world).0 ≡ r
          → Sent
              (push_content W root known c p s).0
              (push_content W root known c p s).1.index.tables
      go (ok bytes) e = sent bytes (upload bytes) e refl
      go (err x) e = rw e (unread x e)
