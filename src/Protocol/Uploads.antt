-- ===== src/Protocol/Uploads.antt =====
-- daemon/internal/protocol/client.go: the REST operations on nodes, and the uploads: in chunks, or of a
-- whole file in one multipart request.
use discodrive_apps.Base.{
  ℕ, ◌+◌, Bool, true, false, ◌&&◌, Option, none, some, [], ◌∷◌, ◌++◌, Str, codes, length, leb, ltb,
  if◌then◌else◌,
}
use discodrive_apps.Base.Exec.{with_ok, Result, ok, err, bad_format, Exec, pure, lift, ◌>>=◌}
use discodrive_apps.Go.Json.{Json, Members, field, as_str, as_int, member, empty}
use discodrive_apps.Go.Multipart
use discodrive_apps.Go.Multipart.{is_boundary, write_field, create_form_file}
use discodrive_apps.Go.Strconv.{format_int}
use discodrive_apps.Go.Url.{path_escape}
use discodrive_apps.Protocol.{
  Http, Client, Session, Request, Reply, bearer, scope_of, decode, expect, do_plain, do_json,
  authorized,
}
use discodrive_apps.Protocol.Files.{
  put_method, post_method, delete_method, get_method, Body, replayable_body, read_all, new_body,
  is_streamed,
}

abbrev pub patch_method : Str
patch_method = codes "PATCH"

-- A status of the class 2xx.
abbrev pub is_success : Reply → Bool
is_success p = leb 200 p.status && ltb p.status 300

-- A member that is written unless the text is empty.
abbrev pub member_unless_empty : Str → Str → Members → Members
member_unless_empty key [] ms = ms
member_unless_empty key (x ∷ s) ms = member key (Json.str (x ∷ s)) ms

-- A modification time that is zero is no member.
abbrev pub modified_member : Option Str → Members → Members
modified_member none ms = ms
modified_member (some t) ms = member (codes "modified_at") (Json.str t) ms

-- parent_id is null at the root.
abbrev pub parent_or_null : Str → Json
parent_or_null [] = Json.null
parent_or_null (x ∷ s) = Json.str (x ∷ s)

-- The id of an upload, and the next chunk to send.
unfoldable pub started_of : Json → Result (Str × ℕ)
started_of d =
    with_ok (field as_str (codes "upload_id") [] d)
      λ id. with_ok (field as_int (codes "next_chunk") 0 d) λ next. ok (id, next)

abbrev pub text_or_empty : Option Str → Str
text_or_empty none = []
text_or_empty (some t) = t

-- The fields of a multipart body in their order, before the part of the file, and whether that part is the first.
abbrev parent_field : Str → Str → Str
parent_field b [] = []
parent_field b (x ∷ parent) = write_field b true (codes "parent_id") (x ∷ parent)

abbrev name_first : Str → Bool
name_first [] = true
name_first (x ∷ parent) = false

abbrev modified_field : Str → Str → Str
modified_field b [] = []
modified_field b (x ∷ t) = write_field b false (codes "modified_at") (x ∷ t)

abbrev pub fields : Str → Str → Str → Str → Str
fields b parent name modified =
    parent_field b parent
    ++ write_field b (name_first parent) (codes "name") name
    ++ modified_field b modified
    ++ create_form_file b false (codes "file") name

-- What the goroutine writes into the pipe.
unfoldable pub multipart_body : Str → Str → Str → Str → Str → Str
multipart_body b parent name modified bytes =
    fields b parent name modified ++ bytes ++ Multipart.close b

-- The bytes that countingWriter counts.
unfoldable pub multipart_overhead : Str → Str → Str → Str → Result ℕ
multipart_overhead b parent name modified =
    if is_boundary b
    then ok (length (fields b parent name modified ++ Multipart.close b))
    else err bad_format

module _ (H : Http) (c : Client) where
  -- okClose
  abbrev pub ok_close : Reply → Str → Exec (Session H) (Unit {0})
  ok_close p what = expect H (is_success p) what p (pure tt)

  unfoldable pub upload_init : Str → Str → ℕ → Option Str → Exec (Session H) (Str × ℕ)
  upload_init parent name size modified = do
    p ← do_json H c post_method (codes "/upload/init") (
        Json.obj (
          modified_member modified (
            member (codes "name") (Json.str name) (
              member_unless_empty (codes "parent_id") parent
                (member (codes "size") (Json.num size) empty)))))
    expect H (is_success p) (codes "/upload/init") p (lift (decode H started_of p))

  abbrev pub chunk_request : Str → ℕ → Str → Str → Request
  chunk_request upload_id n bytes tok = record {
    method = put_method;
    url =
        c.base_url ++ codes "/upload/" ++ path_escape upload_id ++ codes "/chunk/" ++ format_int n;
    header = bearer tok ∷ (codes "Content-Type", codes "application/octet-stream") ∷ scope_of c;
    body = bytes;
    content_length = length bytes;
    streamed = false;
  }

  unfoldable pub upload_chunk : Str → ℕ → Exec (Session H) ℕ
  upload_chunk upload_id n = do
    bytes ← read_all H
    p ← authorized H c (λ attempt tok. pure (chunk_request upload_id n bytes tok))
    expect H (is_success p) (codes "/upload chunk") p
        (lift (decode H (field as_int (codes "next_chunk") 0) p))

  unfoldable pub upload_status : Str → Exec (Session H) ℕ
  upload_status upload_id = do
    p ← do_plain H c get_method (codes "/upload/" ++ path_escape upload_id)
    expect H (is_success p) (codes "/upload status") p
        (lift (decode H (field as_int (codes "next_chunk") 0) p))

  unfoldable pub upload_complete : Str → Exec (Session H) (Unit {0})
  upload_complete upload_id = do
    p ← do_plain H c post_method (codes "/upload/" ++ path_escape upload_id ++ codes "/complete")
    ok_close p (codes "/upload complete")

  unfoldable pub upload_abort : Str → Exec (Session H) (Unit {0})
  upload_abort upload_id = do
    p ← do_plain H c delete_method (codes "/upload/" ++ path_escape upload_id)
    ok_close p (codes "/upload abort")

  unfoldable pub create_folder : Str → Str → Exec (Session H) (Unit {0})
  create_folder parent name = do
    p ← do_json H c post_method (codes "/files/folder") (
        Json.obj (
          member (codes "name") (Json.str name)
            (member_unless_empty (codes "parent_id") parent empty)))
    ok_close p (codes "POST /files/folder")

  unfoldable pub rename_node : Str → Str → Exec (Session H) (Unit {0})
  rename_node id name = do
    p ←
        do_json H c patch_method (codes "/files/" ++ path_escape id ++ codes "/rename")
          (Json.obj (member (codes "name") (Json.str name) empty))
    ok_close p (codes "PATCH rename")

  unfoldable pub move_node : Str → Str → Exec (Session H) (Unit {0})
  move_node id parent = do
    p ←
        do_json H c patch_method (codes "/files/" ++ path_escape id ++ codes "/move")
          (Json.obj (member (codes "parent_id") (parent_or_null parent) empty))
    ok_close p (codes "PATCH move")

  unfoldable pub delete_node : Str → Exec (Session H) (Unit {0})
  delete_node id = do
    p ← do_plain H c delete_method (codes "/files/" ++ path_escape id)
    ok_close p (codes "DELETE /files")

  abbrev pub upload_request : Str → Str → ℕ → Bool → Str → Request
  upload_request b body size streamed tok = record {
    method = post_method;
    url = c.base_url ++ codes "/files/upload";
    header =
        bearer tok
        ∷ (codes "Content-Type", codes "multipart/form-data; boundary=" ++ b)
        ∷ scope_of c;
    body = body;
    content_length = size;
    streamed = streamed;
  }

  -- One attempt's request of UploadFile. `boundaries n` is the random boundary drawn for the attempt `n`.
  unfoldable pub build_upload :
      Str → Str → Str → (ℕ → Str) → Body × ℕ → ℕ → Str → Exec (Session H) Request
  build_upload parent name modified boundaries (b, size) n tok = do
    bytes ← new_body H b n
    overhead ← lift (multipart_overhead (boundaries n) parent name modified)
    let body = multipart_body (boundaries n) parent name modified bytes
    pure (upload_request (boundaries n) body (overhead + size) (is_streamed b) tok)

  unfoldable pub upload_file : Str → Str → Option Str → (ℕ → Str) → Exec (Session H) (Unit {0})
  upload_file parent name modified boundaries = do
    b ← replayable_body H
    p ← authorized H c (build_upload parent name (text_or_empty modified) boundaries b)
    ok_close p (codes "POST /files/upload")
