-- ===== src/Protocol/Requests.antt =====
-- How many requests an operation of the client sends, and what they carry.
use discodrive_apps.Base.{
  ℕ, ◌≡◌, refl, Bool, Option, none, some, List, [], ◌∷◌, ◌++◌, Str, Bool-cases, inl, inr, codes,
  str_eq, if◌then◌else◌, arith,
}
use discodrive_apps.Base.Exec.{Result, Exec, pure, lift, ◌>>=◌}
use discodrive_apps.Base.Ends.{Ends-split, Leads, Leads-pure, Leads-lift, Leads-weaken, Leads-bind}
use discodrive_apps.Go.Json.{Json}
use discodrive_apps.Protocol.{
  Http, Request, Reply, Session, Client, token_request, json_type, plain_request, json_request,
  bearer, scope_of, do_plain, do_json, authorized, expect,
}
use discodrive_apps.Protocol.Still.{Still}
use discodrive_apps.Protocol.Sent.{recording, Sent, Sent-mono, Sent-same, Leads-expect}
use discodrive_apps.Protocol.Attempts.{Token, After, Leads-attempts}

-- The value of a header.
unfoldable pub header_of : Str → List (Str × Str) → Option Str
header_of name [] = none
header_of name ((k, v) ∷ hs) = if str_eq k name then some v else header_of name hs

module _ (H : Http) (c : Client) (start : H.State) (first : Str) where
  abbrev scope_value : Option Str
  scope_value = if c.send_scope then some (codes "1") else none

  -- The exchange of the device token, or a request with a token of the session, and with the header of the
  -- scope exactly when the client is a scoped one.
  pub data Allowed (q : Request) : Type 0 where
    exchange : q ≡ token_request H c → Allowed q
    with_token :
        (tok : Str)
        → Token H c start first tok
        → header_of (codes "Authorization") q.header ≡ some (codes "Bearer " ++ tok)
        → header_of (codes "X-Discodrive-Scope") q.header ≡ scope_value
        → Allowed q

  module _ (log : List Request) where
    abbrev before : H.State × List Request
    before = (start, log)

    abbrev pub Grown : ℕ → Session (recording H) → Type 0
    Grown n = After H c Allowed (λ a r. Unit {0}) before first 0 n

    abbrev pub Fresh : ℕ → Session (recording H) → Type 0
    Fresh = Sent H Allowed before

    abbrev pub Sends : {A : Type 0} → Exec (Session (recording H)) A → Type 0
    Sends m = Leads (Grown 0) m (λ a. Fresh 4) (λ e. Fresh 4)

    pub Allowed-bearer :
        (tok : Str) (q : Request) (hs : List (Str × Str))
        → Token H c start first tok
        → q.header ≡ bearer tok ∷ hs
        → header_of (codes "X-Discodrive-Scope") hs ≡ scope_value
        → Allowed q
    unfolding header_of str_eq
    Allowed-bearer tok q hs t e h = with_token tok t (rw e) (rw (e, h))

    pub scope_of-value : header_of (codes "X-Discodrive-Scope") (scope_of c) ≡ scope_value
    unfolding header_of str_eq
    scope_of-value = elim (Bool-cases c.send_scope) [ inl e ↦ rw e | inr e ↦ rw e ]

    pub scope_of-append :
        (hs : List (Str × Str))
        → header_of (codes "X-Discodrive-Scope") hs ≡ none
        → header_of (codes "X-Discodrive-Scope") (scope_of c ++ hs) ≡ scope_value
    unfolding header_of str_eq
    scope_of-append hs h = elim (Bool-cases c.send_scope) [ inl e ↦ rw e | inr e ↦ rw (e, h) ]

    -- An action that leaves the network alone.
    pub Leads-Still :
        {A : Type 0} (n : ℕ) (m : Exec (Session (recording H)) A)
        → Still (recording H) m
        → Leads (Grown n) m (λ a. Grown n) (λ e. Fresh n)
    Leads-Still n m k = record {
      at = λ s (w, t, j).
          let kept = Sent-same H Allowed before (k.at s) w in
          Ends-split (Grown n) (Fresh n) (m s).0 (m s).1 (kept, tt, rw (k.token s) j) kept;
    }

    pub Sends-after :
        {A B : Type 0} (m : Exec (Session (recording H)) A) (f : A → Exec (Session (recording H)) B)
        → Still (recording H) m
        → ((a : A) → Sends (f a))
        → Sends (m >>= f)
    Sends-after m f k h =
        Leads-bind m f
          (Leads-weaken (λ a s w. w) (λ e s. Sent-mono H Allowed before s (omega arith))
            (Leads-Still 0 m k))
          h

    -- The loop of the attempts, when the requests are made without sending anything.
    pub Sends-authorized :
        (build : ℕ → Str → Exec (Session (recording H)) Request)
        → ((b m : ℕ) (tok : Str)
            → Token H c start first tok
            → Leads (Grown m) (build b tok) (λ q s. Grown m s × Allowed q) (λ e. Fresh m))
        → Sends (authorized (recording H) c build)
    Sends-authorized build h =
        Leads-weaken (λ p s w. w.sent) (λ e s w. w)
          (Leads-attempts H c Allowed (λ a r. Unit {0}) before first (λ q. Unit {0}) (exchange refl)
            (λ a n q h r k. k) (λ a r k. k) build 2 0 0
            (λ b m tok t. Leads-weaken (λ q s w. (w.0, w.1, tt)) (λ e s w. w) (h b m tok t)))

    pub Sends-do_plain : (method path : Str) → Sends (do_plain (recording H) c method path)
    unfolding do_plain
    Sends-do_plain method path =
        Sends-authorized (λ a tok. pure (plain_request (recording H) c method path tok))
          λ b m tok t.
            Leads-pure _ (λ s w. (w, Allowed-bearer tok _ (scope_of c) t refl scope_of-value))

    pub Sends-json_request :
        (method path raw : Str)
        → Sends (
            authorized
              (recording H)
              c
              (λ a tok. pure (json_request (recording H) c method path raw tok)))
    unfolding header_of str_eq
    Sends-json_request method path raw = Sends-authorized _ λ b m tok t.
        Leads-pure _
          (λ s w. (w, Allowed-bearer tok _ (json_type ∷ scope_of c) t refl scope_of-value))

    pub Sends-do_json :
        (method path : Str) (body : Json) → Sends (do_json (recording H) c method path body)
    unfolding do_json
    Sends-do_json method path body = Sends-json_request method path (H.text body)

    -- What the operations do with the answer sends nothing.
    pub Sends-then :
        {A B : Type 0} (m : Exec (Session (recording H)) A) (f : A → Exec (Session (recording H)) B)
        → Sends m
        → ((a : A) → Leads (Fresh 4) (f a) (λ b. Fresh 4) (λ e. Fresh 4))
        → Sends (m >>= f)
    Sends-then m f l h = Leads-bind m f l h

    pub Expect-lift :
        {A : Type 0} (b : Bool) (what : Str) (p : Reply) (r : Result A)
        → Leads (Fresh 4) (expect (recording H) b what p (lift r)) (λ a. Fresh 4) (λ e. Fresh 4)
    Expect-lift b what p r =
        Leads-expect (recording H) (λ a. Fresh 4) (λ e. Fresh 4) b what p _ (λ e s w. w)
          (Leads-lift r (λ a s w. w) (λ e s w. w))

    pub Expect-pure :
        {A : Type 0} (b : Bool) (what : Str) (p : Reply) (a : A)
        → Leads (Fresh 4) (expect (recording H) b what p (pure a)) (λ a. Fresh 4) (λ e. Fresh 4)
    Expect-pure b what p a =
        Leads-expect (recording H) (λ a. Fresh 4) (λ e. Fresh 4) b what p _ (λ e s w. w)
          (Leads-pure a (λ s w. w))
