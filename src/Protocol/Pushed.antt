-- ===== src/Protocol/Pushed.antt =====
-- The requests of PushFile and of UploadFile, whose reader works.
use discodrive_apps.Base.{◌≡◌, ◌⊎◌, true, List, [], ◌∷◌, ◌++◌, Str, All, length}
use discodrive_apps.Base.Exec.{Result, ok, err, Exec}
use discodrive_apps.Base.Ends.{Ends}
use discodrive_apps.Go.Multipart
use discodrive_apps.Protocol.{Http, Request, Reader, Session, Client, token_request}
use discodrive_apps.Protocol.Files.{replayable_body, remaining}
use discodrive_apps.Protocol.Uploads.{multipart_body}
use discodrive_apps.Protocol.Sent.{recording, Sent}
use discodrive_apps.Protocol.Whole.{Stops, Alone, Holds, Ready}

-- The reader works: its operations do not fail, and nobody else reads from it. If it is an io.Seeker, so that
-- it is read again for a second attempt, the transport has stopped reading it when Do returns.
pub record Readable (H : Http) (r : Reader) : Type 0 where
  pub works : r.faults ≡ []
  pub alone : Alone r
  pub stops : r.seekable ≡ true → Stops H

module _ (H : Http) (Good : Request → Type 0) (before : H.State × List Request) (c : Client)
    (Made : Request → Type 0) where
  -- What the preparation of a body leads to, from a reader that works.
  abbrev Prepared : Session (recording H) → Type 0
  Prepared s =
      Ends
        (λ b u.
          Ready H Good s.reader.bytes s.reader.offset before c s.jwt b.0 0 0 u
          × Holds H s.reader.bytes s.reader.offset b)
        (λ e. Sent H Good before 0) (replayable_body (recording H) s)

module _ (H : Http) (c : Client) (s : Session (recording H)) (readable : Readable H s.reader) where
  -- A request whose body is the rest of the caller's reader, as long as it says; and one that is this or the
  -- exchange of the token.
  abbrev pub CarriesRest : Request → Type 0
  CarriesRest q =
      (q.body ≡ remaining H s.reader) × (q.content_length ≡ length (remaining H s.reader))

  abbrev pub Pushes : Request → Type 0
  Pushes q = (q ≡ token_request H c) ⊎ CarriesRest q

  -- A request whose body is the form around the rest of the caller's reader, as long as it says; and one that
  -- is this or the exchange of the token.
  abbrev pub CarriesForm : Str → Str → Str → Request → Type 0
  CarriesForm parent name modified q =
      (boundary : Str) × (q.body
        ≡ multipart_body boundary parent name modified (remaining H s.reader))
      × (q.content_length ≡ length q.body)

  abbrev pub Forms : Str → Str → Str → Request → Type 0
  Forms parent name modified q = (q ≡ token_request H c) ⊎ CarriesForm parent name modified q

  -- The last request is made of the reader, if the action has succeeded.
  abbrev pub Last : {A : Type 0} → (Request → Type 0) → Result A → List Request → Type 0
  Last Made (ok a) new = (q : Request) × (older : List Request) × (new ≡ q ∷ older) × Made q
  Last Made (err e) new = Unit {0}

  -- The requests that an action has sent, all of them good.
  abbrev pub SendsAll :
      {A : Type 0} → (Good Made : Request → Type 0) → Result A × Session (recording H) → Type 0
  SendsAll Good Made x =
      (new : List Request) × (x.1.http.1 ≡ new ++ s.http.1) × All Good new × Last Made x.0 new
