-- ===== src/Protocol/Calls.antt =====
-- Every operation of the client: how many requests it sends, and what they carry.
use discodrive_apps.Base.{
  ℕ, ◌≤◌, ◌≡◌, refl, Bool, Option, none, some, List, [], ◌∷◌, ◌++◌, Str, str_eq, All, codes, length,
  arith,
}
use discodrive_apps.Base.Exec.{Result, Exec, pure, lift, ◌>>=◌}
use discodrive_apps.Base.Ends.{Ends-both, Leads-pure, Leads-lift, Leads-bind}
use discodrive_apps.Protocol.{Http, Request, Reply, Session, Client, scope_of, expect}
use discodrive_apps.Protocol.Files
use discodrive_apps.Protocol.Files.{
  Body, build_push, replayable_body, new_body, measure, buffer, measured, read_all, reader_works,
  at_offset, seek_current, seek_end, seek_start, version_header, time_header, rewound, buffered,
  remaining,
}
use discodrive_apps.Protocol.Uploads
use discodrive_apps.Protocol.Uploads.{build_upload, multipart_overhead, chunk_request}
use discodrive_apps.Protocol.Still.{Still-read_all, Still-replayable_body, Still-new_body}
use discodrive_apps.Protocol.Sent.{recording, here}
use discodrive_apps.Protocol.Attempts.{Token-first}
use discodrive_apps.Protocol.Requests.{
  Allowed, Fresh, Sends, Sends-then, Sends-after, scope_of-append, Leads-Still, header_of,
  Allowed-bearer, scope_of-value, Sends-authorized, Sends-do_plain, Sends-json_request,
  Sends-do_json, Expect-lift, Expect-pure,
}

module _ (H : Http) (c : Client) where
  -- The operations that the client offers, at their arguments.
  pub data Operation : (A : Type 0) → Exec (Session (recording H)) A → Type 1 where
    changes : (since limit : ℕ) → Operation _ (Files.changes (recording H) c since limit)
    download : (id : Str) → Operation _ (Files.download (recording H) c id)
    push_file :
        (path : Str) (base : Option ℕ) (modified : Option Str)
        → Operation _ (Files.push_file (recording H) c path base modified)
    ensure_dir : (path : Str) → Operation _ (Files.ensure_dir (recording H) c path)
    delete_remote : (path : Str) → Operation _ (Files.delete_remote (recording H) c path)
    events : Operation _ (Files.events (recording H) c)
    language : Operation _ (Files.language (recording H) c)
    sync_meta : Operation _ (Files.sync_meta (recording H) c)
    upload_init :
        (parent name : Str) (size : ℕ) (modified : Option Str)
        → Operation _ (Uploads.upload_init (recording H) c parent name size modified)
    upload_chunk : (id : Str) (n : ℕ) → Operation _ (Uploads.upload_chunk (recording H) c id n)
    upload_status : (id : Str) → Operation _ (Uploads.upload_status (recording H) c id)
    upload_complete : (id : Str) → Operation _ (Uploads.upload_complete (recording H) c id)
    upload_abort : (id : Str) → Operation _ (Uploads.upload_abort (recording H) c id)
    create_folder :
        (parent name : Str) → Operation _ (Uploads.create_folder (recording H) c parent name)
    rename_node : (id name : Str) → Operation _ (Uploads.rename_node (recording H) c id name)
    move_node : (id parent : Str) → Operation _ (Uploads.move_node (recording H) c id parent)
    delete_node : (id : Str) → Operation _ (Uploads.delete_node (recording H) c id)
    upload_file :
        (parent name : Str) (modified : Option Str) (boundaries : ℕ → Str)
        → Operation _ (Uploads.upload_file (recording H) c parent name modified boundaries)

  module _ (start : H.State) (first : Str) (log : List Request) where
    Sends-decoded :
        {A : Type 0} (m : Exec (Session (recording H)) Reply) (b : Reply → Bool)
        (what : Reply → Str) (r : Reply → Result A)
        → Sends H c start first log m
        → Sends H c start first log (m >>= λ p. expect (recording H) (b p) (what p) p (lift (r p)))
    Sends-decoded m b what r h =
        Sends-then H c start first log m _ h
          (λ p. Expect-lift H c start first log (b p) (what p) p (r p))

    Sends-closed :
        {A : Type 0} (m : Exec (Session (recording H)) Reply) (b : Reply → Bool)
        (what : Reply → Str) (a : Reply → A)
        → Sends H c start first log m
        → Sends H c start first log (m >>= λ p. expect (recording H) (b p) (what p) p (pure (a p)))
    Sends-closed m b what a h =
        Sends-then H c start first log m _ h
          (λ p. Expect-pure H c start first log (b p) (what p) p (a p))

    push_scope :
        (base : Option ℕ) (modified : Option Str)
        → header_of (codes "X-Discodrive-Scope") (version_header base ++ time_header modified)
          ≡ none
    unfolding header_of str_eq
    push_scope none none = refl
    push_scope none (some t) = refl
    push_scope (some v) none = refl
    push_scope (some v) (some t) = refl

    Sends-push_file :
        (path : Str) (base : Option ℕ) (modified : Option Str)
        → Sends H c start first log (Files.push_file (recording H) c path base modified)
    unfolding Files.push_file build_push
    Sends-push_file path base modified =
        Sends-after H c start first log _ _ (Still-replayable_body (recording H)) λ b.
          Sends-decoded _ _ _ _ (
            Sends-authorized H c start first log (build_push (recording H) c path base modified b)
              λ a m tok t.
                Leads-bind _ _
                  (Leads-Still H c start first log m _ (Still-new_body (recording H) b.0 a))
                  λ body. Leads-pure _ (λ s w. (
                    w,
                    Allowed-bearer H c start first log tok _ _ t refl
                        (scope_of-append H c start first log _ (push_scope base modified)),
                  )))

    Sends-upload_file :
        (parent name : Str) (modified : Option Str) (boundaries : ℕ → Str)
        → Sends H c start first log
            (Uploads.upload_file (recording H) c parent name modified boundaries)
    unfolding Uploads.upload_file build_upload header_of str_eq
    Sends-upload_file parent name modified boundaries =
        Sends-after H c start first log _ _ (Still-replayable_body (recording H)) λ b.
          Sends-closed _ _ _ _ (
            Sends-authorized H c start first log _ λ a m tok t.
              Leads-bind _ _
                (Leads-Still H c start first log m _ (Still-new_body (recording H) b.0 a))
                λ body. Leads-bind _ _ (Leads-lift _ (λ o s w. w) (λ e s w. w.0)) λ overhead.
                  Leads-pure _ (λ s w. (
                    w,
                    Allowed-bearer H c start first log tok _ (_ ∷ scope_of c) t refl
                        (scope_of-value H c start first log),
                  )))

    Sends-upload_chunk :
        (id : Str) (n : ℕ) → Sends H c start first log (Uploads.upload_chunk (recording H) c id n)
    unfolding Uploads.upload_chunk header_of str_eq
    Sends-upload_chunk id n =
        Sends-after H c start first log _ _ (Still-read_all (recording H)) λ bytes.
          Sends-decoded _ _ _ _ (
            Sends-authorized H c start first log _ λ a m tok t. Leads-pure _ (λ s w. (
              w,
              Allowed-bearer H c start first log tok _ (_ ∷ scope_of c) t refl
                  (scope_of-value H c start first log),
            )))

    Operation-Sends :
        {A : Type 0} (m : Exec (Session (recording H)) A)
        → Operation A m
        → Sends H c start first log m
    unfolding Files.changes Files.download Files.ensure_dir Files.delete_remote Files.events
        Files.language Files.sync_meta Uploads.upload_init Uploads.upload_status
        Uploads.upload_complete Uploads.upload_abort Uploads.create_folder Uploads.rename_node
        Uploads.move_node Uploads.delete_node
    Operation-Sends m (changes since limit) =
        Sends-decoded _ _ _ _ (Sends-do_plain H c start first log _ _)
    Operation-Sends m (download id) = Sends-closed _ _ _ _ (Sends-do_plain H c start first log _ _)
    Operation-Sends m (push_file path base modified) = Sends-push_file path base modified
    Operation-Sends m (ensure_dir path) =
        Sends-decoded _ _ _ _ (Sends-json_request H c start first log _ _ _)
    Operation-Sends m (delete_remote path) =
        Sends-closed _ _ _ _ (Sends-do_plain H c start first log _ _)
    Operation-Sends m events = Sends-do_plain H c start first log _ _
    Operation-Sends m language = Sends-decoded _ _ _ _ (Sends-do_plain H c start first log _ _)
    Operation-Sends m sync_meta = Sends-decoded _ _ _ _ (Sends-do_plain H c start first log _ _)
    Operation-Sends m (upload_init parent name size modified) =
        Sends-decoded _ _ _ _ (Sends-do_json H c start first log _ _ _)
    Operation-Sends m (upload_chunk id n) = Sends-upload_chunk id n
    Operation-Sends m (upload_status id) =
        Sends-decoded _ _ _ _ (Sends-do_plain H c start first log _ _)
    Operation-Sends m (upload_complete id) =
        Sends-closed _ _ _ _ (Sends-do_plain H c start first log _ _)
    Operation-Sends m (upload_abort id) =
        Sends-closed _ _ _ _ (Sends-do_plain H c start first log _ _)
    Operation-Sends m (create_folder parent name) =
        Sends-closed _ _ _ _ (Sends-do_json H c start first log _ _ _)
    Operation-Sends m (rename_node id name) =
        Sends-closed _ _ _ _ (Sends-do_json H c start first log _ _ _)
    Operation-Sends m (move_node id parent) =
        Sends-closed _ _ _ _ (Sends-do_json H c start first log _ _ _)
    Operation-Sends m (delete_node id) =
        Sends-closed _ _ _ _ (Sends-do_plain H c start first log _ _)
    Operation-Sends m (upload_file parent name modified boundaries) =
        Sends-upload_file parent name modified boundaries

  sent :
      {A : Type 0} (m : Exec (Session (recording H)) A)
      → Operation A m
      → (s : Session (recording H)) → Fresh H c s.http.0 s.jwt s.http.1 4 (m s).1
  sent m o s =
      let none_yet : Fresh H c s.http.0 s.jwt s.http.1 0 s = record {
        new = [];
        log = refl;
        reached = here;
        few = omega arith;
        good = tt;
      } in
      Ends-both (Fresh H c s.http.0 s.jwt s.http.1 4) (m s) (
        (Operation-Sends s.http.0 s.jwt s.http.1 m o).at s
          (none_yet, tt, Token-first H c s.http.0 s.jwt))

  -- Whatever the server answers, an operation of the client sends at most four requests: for each of two
  -- attempts the request itself, and the exchange of the device token before it. Each of them is the
  -- exchange of the device token, or it carries as the bearer a token of the session, and the header of
  -- the sync scope exactly when the client is a scoped one. A token of the session is the one that was
  -- cached before, or one that the server has answered to the exchange of the device token since the operation began.
  pub Operation-Allowed :
      {A : Type 0} (m : Exec (Session (recording H)) A)
      → Operation A m
      → (s : Session (recording H))
      → (new : List Request) × ((m s).1.http.1 ≡ new ++ s.http.1)
        × (length new ≤ 4)
        × All (Allowed H c s.http.0 s.jwt) new
  Operation-Allowed m o s = let w = sent m o s in (w.new, w.log, w.few, w.good)
