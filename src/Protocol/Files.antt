-- ===== src/Protocol/Files.antt =====
-- daemon/internal/protocol/client.go: the requests of the synchronization: the feed, the content of files,
-- and what the engine's Sink asks for.
use discodrive_apps.Base.{
  ℕ, zero, suc, ◌-◌, Bool, true, false, ◌||◌, Option, none, some, List, [], ◌∷◌, ◌++◌, Str, codes,
  length, drop, ◌==◌, if◌then◌else◌,
}
use discodrive_apps.Base.Exec.{
  with_ok, Error, Result, ok, err, outside, Exec, pure, lift, gets, attempt, ◌>>=◌, ◌>>◌,
}
use discodrive_apps.Go.Json.{
  Json, Items, field, as_str, as_int, as_bool, as_items, as_object, member, empty, nil, item,
}
use discodrive_apps.Go.Strconv.{format_int}
use discodrive_apps.Go.Url.{path_escape, query_escape, pair}
use discodrive_apps.World.{Change, Page, RemoteNode}
use discodrive_apps.Protocol.{
  Http, Client, Session, Request, Reply, Reader, bearer, scope_of, decode, expect, do_plain,
  authorized, json_request,
}

abbrev pub get_method : Str
get_method = codes "GET"

abbrev pub put_method : Str
put_method = codes "PUT"

abbrev pub post_method : Str
post_method = codes "POST"

abbrev pub delete_method : Str
delete_method = codes "DELETE"

-- changeJSON, and the change of the engine that is made of it.
unfoldable pub change_of : Json → Result Change
change_of d = with_ok (field as_int (codes "seq") 0 d) λ seq.
    with_ok (field as_str (codes "op") [] d) λ op.
      with_ok (field as_str (codes "node_id") [] d) λ node_id.
        with_ok (field as_str (codes "path") [] d) λ path.
          with_ok (field as_bool (codes "is_dir") false d) λ is_dir.
            with_ok (field as_int (codes "version") 0 d) λ version.
              with_ok (field as_str (codes "content_hash") [] d) λ content_hash.
                with_ok (field as_int (codes "size") 0 d) λ size.
                  with_ok (field as_bool (codes "deleted") false d) λ deleted. ok (record {
                    seq = seq;
                    op = op;
                    node_id = node_id;
                    rel_path = path;
                    is_dir = is_dir;
                    version = version;
                    content_hash = content_hash;
                    size = size;
                    deleted = deleted;
                  })

unfoldable pub changes_of : Items → Result (List Change)
changes_of nil = ok []
changes_of (item d xs) = with_ok (change_of d) λ c. with_ok (changes_of xs) λ cs. ok (c ∷ cs)

unfoldable pub page_of : Json → Result Page
page_of d = with_ok (field as_items (codes "changes") nil d) λ xs. with_ok (changes_of xs) λ cs.
    with_ok (field as_int (codes "cursor") 0 d) λ cursor.
      with_ok (field as_bool (codes "has_more") false d)
        λ has_more. ok (record { changes = cs; cursor = cursor; has_more = has_more })

-- The field `node` of an answer.
unfoldable pub node_of : Json → Result RemoteNode
node_of d = with_ok (field as_object (codes "node") Json.null d) λ n.
    with_ok (field as_str (codes "id") [] n) λ id.
      with_ok (field as_int (codes "version") 0 n)
        λ version. ok (record { node_id = id; version = version; hash = [] })

-- The node of an answer, and whether it is conflicted.
unfoldable pub pushed_of : Json → Result (RemoteNode × Bool)
pushed_of d =
    with_ok (node_of d)
      λ n. with_ok (field as_bool (codes "conflicted") false d) λ conflicted. ok (n, conflicted)

-- A body that can be sent more than once.
pub data Body : Type 0 where
  rewound : ℕ → Body
  buffered : Str → Body

abbrev pub is_streamed : Body → Bool
is_streamed (rewound start) = true
is_streamed (buffered bytes) = false

abbrev pub version_header : Option ℕ → List (Str × Str)
version_header none = []
version_header (some v) = (codes "X-Base-Version", format_int v) ∷ []

abbrev pub time_header : Option Str → List (Str × Str)
time_header none = []
time_header (some t) = (codes "X-Modified-At", t) ∷ []

abbrev pub or_english : Str → Str
or_english [] = codes "en"
or_english (x ∷ s) = x ∷ s

module _ (H : Http) where
  -- The next operation of the reader fails or not.
  abbrev pub next_fault : List Bool → Reader → Result (Unit {0}) × Reader
  next_fault [] r = (ok tt, r)
  next_fault (true ∷ fs) r = (err (outside 0), record r { faults = fs })
  next_fault (false ∷ fs) r = (ok tt, record r { faults = fs })

  unfoldable pub reader_works : Exec (Session H) (Unit {0})
  reader_works s = let (o, r) = next_fault s.reader.faults s.reader in (o, record s { reader = r })

  abbrev pub move_to : ℕ → Reader → Reader
  move_to n r = record r { offset = n }

  unfoldable pub at_offset : (Reader → ℕ) → Exec (Session H) ℕ
  at_offset f s = let n = f s.reader in (ok n, record s { reader = move_to n s.reader })

  -- Seek from the current position by 0, to the end, and to a place.
  abbrev pub seek_current : Exec (Session H) ℕ
  seek_current = reader_works >> at_offset (λ r. r.offset)

  abbrev pub seek_end : Exec (Session H) ℕ
  seek_end = reader_works >> at_offset (λ r. length r.bytes)

  abbrev pub seek_start : ℕ → Exec (Session H) ℕ
  seek_start n = reader_works >> at_offset (λ r. n)

  -- What a reader yields from its position on.
  abbrev pub remaining : Reader → Str
  remaining r = drop r.offset r.bytes

  -- What is left of that by others who read from it too.
  abbrev pub available : Reader → Str
  available r = r.others (remaining r)

  -- io.ReadAll
  unfoldable pub read_all : Exec (Session H) Str
  read_all = do
    reader_works
    bytes ← gets (λ s. available s.reader)
    at_offset (λ r. length r.bytes)
    pure bytes

  unfoldable pub measure : Exec (Session H) (Body × ℕ)
  measure = do
    start ← seek_current
    end ← seek_end
    seek_start start
    pure (rewound start, end - start)

  unfoldable pub buffer : Exec (Session H) (Body × ℕ)
  buffer = do bytes ← read_all; pure (buffered bytes, length bytes)

  abbrev pub measured : Result (Body × ℕ) → Exec (Session H) (Body × ℕ)
  measured (ok b) = pure b
  measured (err e) = buffer

  -- The body of what is left of the reader, and its length.
  unfoldable pub replayable_body : Exec (Session H) (Body × ℕ)
  replayable_body = do
    seekable ← gets (λ s. s.reader.seekable)
    if seekable then (do r ← attempt measure; measured r) else buffer

  -- The bytes that a fresh reader of the body yields at an attempt.
  unfoldable pub new_body : Body → ℕ → Exec (Session H) Str
  new_body (buffered bytes) n = pure bytes
  new_body (rewound start) zero = gets (λ s. available s.reader)
  new_body (rewound start) (suc n) = do seek_start start; gets (λ s. available s.reader)

  module _ (c : Client) where
    unfoldable pub changes : ℕ → ℕ → Exec (Session H) Page
    changes since limit = do
      p ← do_plain H c get_method (
          codes "/sync/changes?"
          ++ pair (codes "limit") (format_int limit)
          ++ codes "&"
          ++ pair (codes "since") (format_int since))
      expect H (p.status == 200) (codes "/sync/changes") p (lift (decode H page_of p))

    -- What was written of the content, and how the copying has ended.
    unfoldable pub download : Str → Exec (Session H) (Str × Option Error)
    download node_id = do
      p ← do_plain H c get_method (codes "/files/" ++ path_escape node_id ++ codes "/content")
      expect H ((p.status == 206) || (p.status == 200))
          (codes "/files/" ++ node_id ++ codes "/content") p (pure (p.body, p.broken))

    abbrev pub push_request : Str → Option ℕ → Option Str → ℕ → Bool → Str → Str → Request
    push_request path base modified size streamed body tok = record {
      method = put_method;
      url = c.base_url ++ codes "/sync/file?path=" ++ query_escape path;
      header = bearer tok ∷ (scope_of c ++ (version_header base ++ time_header modified));
      body = body;
      content_length = size;
      streamed = streamed;
    }

    -- One attempt's request of PushFile.
    unfoldable pub build_push :
        Str → Option ℕ → Option Str → Body × ℕ → ℕ → Str → Exec (Session H) Request
    build_push path base modified (b, size) n tok = do
      body ← new_body b n
      pure (push_request path base modified size (is_streamed b) body tok)

    -- `modified` is the modification time, formatted, unless it is zero.
    unfoldable pub push_file : Str → Option ℕ → Option Str → Exec (Session H) (RemoteNode × Bool)
    push_file path base modified = do
      b ← replayable_body
      p ← authorized H c (build_push path base modified b)
      expect H (p.status == 201) (codes "PUT /sync/file") p (lift (decode H pushed_of p))

    unfoldable pub ensure_dir : Str → Exec (Session H) RemoteNode
    ensure_dir path =
        let raw = H.text (Json.obj (member (codes "path") (Json.str path) empty)) in
        do
          p ←
              authorized H c
                (λ n tok. pure (json_request H c post_method (codes "/sync/dir") raw tok))
          expect H (p.status == 201) (codes "POST /sync/dir") p (lift (decode H node_of p))

    unfoldable pub delete_remote : Str → Exec (Session H) (Unit {0})
    delete_remote path = do
      p ← do_plain H c delete_method (codes "/sync/file?path=" ++ query_escape path)
      expect H ((p.status == 200) || (p.status == 204)) (codes "DELETE /sync/file") p (pure tt)

    -- The stream of events is the body of the answer.
    unfoldable pub events : Exec (Session H) Reply
    events = do_plain H c get_method (codes "/sync/events")

    -- The source returns "en" beside an error.
    unfoldable pub language : Exec (Session H) Str
    language = do
      p ← do_plain H c get_method (codes "/me/language")
      expect H (p.status == 200) (codes "/me/language") p
          (lift (with_ok (decode H (field as_str (codes "language") []) p) λ l. ok (or_english l)))

    unfoldable pub sync_meta : Exec (Session H) ℕ
    sync_meta = do
      p ← do_plain H c get_method (codes "/sync/meta")
      expect H (p.status == 200) (codes "/sync/meta") p
          (lift (decode H (field as_int (codes "scope_epoch") 0) p))
