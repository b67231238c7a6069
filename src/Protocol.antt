-- ===== src/Protocol.antt =====
-- daemon/internal/protocol/client.go: the client of the server's HTTP interface: the token of a session and
-- the requests that carry it. The network, the server and the text of a JSON document are an interface.
pub mod Files
pub mod Pair
pub mod Uploads
pub mod Sent
pub mod Attempts
pub mod Still
pub mod Requests
pub mod Calls
pub mod Whole
pub mod Pushed
pub mod Renewal
use discodrive_apps.Base.{
  ℕ, zero, suc, ◌+◌, Bool, true, false, ◌&&◌, Option, none, some, List, [], ◌∷◌, ◌++◌, Str, codes,
  length, str_eq, ◌==◌, if◌then◌else◌,
}
use discodrive_apps.Base.Exec.{
  Error, Result, ok, err, bad_format, bad_status, not_authorized, Exec, pure, raise, lift, gets,
  continue, ◌>>=◌, ◌>>◌,
}
use discodrive_apps.Go.Json
use discodrive_apps.Go.Json.{Json, field, as_str, member, empty}

pub record Request : Type 0 where
  pub method : Str
  pub url : Str
  pub header : List (Str × Str)
  pub body : Str
  pub content_length : ℕ
  -- The body is read from the caller's reader while the request is sent.
  pub streamed : Bool

-- How reading the body ends stands in `broken`.
pub record Reply : Type 0 where
  pub status : ℕ
  pub body : Str
  pub broken : Option Error

pub record Http : Type 1 where
  pub State : Type 0
  -- http.Client.Do
  pub send : Request → Exec State Reply
  -- How much of the body Do reads, when it is read from the caller's reader.
  pub reads : Request → State → ℕ
  -- Do may return before the transport has stopped reading the body (net/http closes a body, maybe later,
  -- when it has): what the transport then leaves, of the rest of the caller's reader, to who reads it next.
  pub leaves : Request → State → Str → Str
  -- json.Marshal, and the document that a Decoder reads first.
  pub text : Json → Str
  pub parse : Str → Option Json

-- The reader that a caller hands over: its bytes and its position, whether it is an io.Seeker, and which
-- of its next operations fail. `others` is what those who still read from it leave of its rest.
pub record Reader : Type 0 where
  pub bytes : Str
  pub offset : ℕ
  pub seekable : Bool
  pub faults : List Bool
  pub others : Str → Str

pub record Client : Type 0 where
  pub base_url : Str
  pub device_token : Str
  pub send_scope : Bool

-- What changes: the network, the cached session token and the reader of the caller.
pub record Session (H : Http) : Type 0 where
  pub http : H.State
  pub jwt : Str
  pub reader : Reader

abbrev pub scope_header : Str × Str
scope_header = (codes "X-Discodrive-Scope", codes "1")

abbrev pub new_client : Str → Str → Client
new_client base_url device_token = record {
  base_url = base_url;
  device_token = device_token;
  send_scope = true;
}

abbrev pub new_unscoped : Str → Str → Client
new_unscoped base_url device_token = record {
  base_url = base_url;
  device_token = device_token;
  send_scope = false;
}

abbrev pub json_type : Str × Str
json_type = (codes "Content-Type", codes "application/json")

abbrev pub bearer : Str → Str × Str
bearer tok = (codes "Authorization", codes "Bearer " ++ tok)

abbrev pub scope_of : Client → List (Str × Str)
scope_of c = if c.send_scope then scope_header ∷ [] else []

module _ (H : Http) where
  abbrev pub advance : Request → H.State → Reader → Reader
  advance q h r =
      if q.streamed then record r { offset = r.offset + H.reads q h; others = H.leaves q h } else r

  -- The answer of the server to a request.
  unfoldable pub send : Request → Exec (Session H) Reply
  send q s =
      let (r, h) = H.send q s.http in (r, record s { http = h; reader = advance q s.http s.reader })

  unfoldable pub set_jwt : Str → Exec (Session H) (Unit {0})
  set_jwt tok s = (ok tt, record s { jwt = tok })

  abbrev pub clear_jwt : Exec (Session H) (Unit {0})
  clear_jwt = set_jwt []

  -- Decode: a field of the document, and a field of a struct in it.
  abbrev pub read_document : {A : Type 0} → (Json → Result A) → Option Json → Result A
  read_document read none = err bad_format
  read_document read (some d) = read d

  abbrev pub decode : {A : Type 0} → (Json → Result A) → Reply → Result A
  decode read p = read_document read (H.parse p.body)

  -- An answer whose status is not the one expected is an error.
  unfoldable pub expect :
      {A : Type 0} → Bool → Str → Reply → Exec (Session H) A → Exec (Session H) A
  expect expected what p m = if expected then m else raise (bad_status what p.status)

  -- After an answer 401 to the first attempt the token is forgotten and the loop goes on.
  unfoldable pub again_after_401 : ℕ → Exec (Session H) Reply → Reply → Exec (Session H) Reply
  again_after_401 attempt again p =
      if (p.status == 401) && (attempt == 0) then clear_jwt >> again else pure p

  module _ (c : Client) where
    abbrev pub token_request : Request
    token_request =
        let body =
          H.text (Json.obj (member (codes "device_token") (Json.str c.device_token) empty)) in
        record {
          method = codes "POST";
          url = c.base_url ++ codes "/auth/device/token";
          header = json_type ∷ [];
          body = body;
          content_length = length body;
          streamed = false;
        }

    -- What the answer of the token exchange leads to.
    unfoldable pub take_token : Reply → Exec (Session H) Str
    take_token p =
        expect (p.status == 200) (codes "device token exchange") p
          (do tok ← lift (decode (field as_str (codes "token") []) p); set_jwt tok; pure tok)

    unfoldable pub token_or_exchange : Str → Exec (Session H) Str
    token_or_exchange [] = do p ← send token_request; take_token p
    token_or_exchange (x ∷ tok) = pure (x ∷ tok)

    unfoldable pub token : Exec (Session H) Str
    token = do tok ← gets (λ s. s.jwt); token_or_exchange tok

    -- The loop that the requests share: at most two attempts, the second after an answer 401 to the first,
    -- with a new token. `build` makes the request of an attempt for a token.
    unfoldable pub attempts : ℕ → ℕ → (ℕ → Str → Exec (Session H) Request) → Exec (Session H) Reply
    attempts zero attempt build = raise not_authorized
    attempts (suc left) attempt build =
        let again = attempts left (suc attempt) build in
        do tok ← token; q ← build attempt tok; p ← send q; again_after_401 attempt again p

    abbrev pub authorized : (ℕ → Str → Exec (Session H) Request) → Exec (Session H) Reply
    authorized build = attempts 2 0 build

    abbrev pub plain_request : Str → Str → Str → Request
    plain_request method path tok = record {
      method = method;
      url = c.base_url ++ path;
      header = bearer tok ∷ scope_of c;
      body = [];
      content_length = 0;
      streamed = false;
    }

    -- do
    unfoldable pub do_plain : Str → Str → Exec (Session H) Reply
    do_plain method path = authorized (λ attempt tok. pure (plain_request method path tok))

    abbrev pub json_request : Str → Str → Str → Str → Request
    json_request method path raw tok = record {
      method = method;
      url = c.base_url ++ path;
      header = bearer tok ∷ json_type ∷ scope_of c;
      body = raw;
      content_length = length raw;
      streamed = false;
    }

    unfoldable pub do_json : Str → Str → Json → Exec (Session H) Reply
    do_json method path body =
        let raw = H.text body in authorized (λ attempt tok. pure (json_request method path raw tok))
