-- ===== src/Protocol/Renewal.antt =====
-- A session token that has run out is renewed within the operation that needs it.
use discodrive_apps.Base.{
  ℕ, ◌≡◌, refl, Bool, true, false, ◌&&◌, some, [], ◌∷◌, ◌++◌, Str, str_eq, codes, ◌==◌,
}
use discodrive_apps.Base.Exec.{Error, Result, ok, err, Exec, pure}
use discodrive_apps.Base.Ends.{Ends, Leads, Leads-pure, Leads-weaken, Leads-bind, Leads-if}
use discodrive_apps.Go.Json.{Json, field, as_str}
use discodrive_apps.Protocol.{
  Http, Request, Reply, Session, Client, send, set_jwt, token_request, take_token,
  token_or_exchange, token, again_after_401, attempts, authorized, decode, expect, plain_request,
  json_request, do_plain, do_json,
}
use discodrive_apps.Protocol.Requests.{header_of}

-- The server is reached, it gives a session token for the device token, and it does not refuse with 401 a
-- request whose token it has just given.
pub record Serves (H : Http) (c : Client) : Type 1 where
  pub Accepts : Str → H.State → Type 0
  pub reply : Request → H.State → Reply
  pub answers : (q : Request) (h : H.State) → (H.send q h).0 ≡ ok (reply q h)
  pub given : H.State → Str
  pub exchanges : (h : H.State) → ((reply (token_request H c) h).status == 200) ≡ true
  pub decodes :
      (h : H.State)
      → decode H (field as_str (codes "token") []) (reply (token_request H c) h) ≡ ok (given h)
  pub accepts : (h : H.State) → Accepts (given h) (H.send (token_request H c) h).1
  pub serves :
      (q : Request) (h : H.State) (tok : Str)
      → header_of (codes "Authorization") q.header ≡ some (codes "Bearer " ++ tok)
      → Accepts tok h
      → ((reply q h).status == 401) ≡ false

and_true : (b : Bool) → (b && (0 == 0)) ≡ false → b ≡ false
and_true true h = h
and_true false h = h

module _ (H : Http) (c : Client) (server : Serves H c) where
  abbrev Any : Session H → Type 0
  Any s = Unit {0}

  abbrev Never : Error → Session H → Type 0
  Never e s = ⊥

  -- What is known after a request, from a state of the network.
  Leads-reply :
      (P : Session H → Type 0) (Q : Reply → Session H → Type 0) (q : Request)
      → ((s : Session H) → P s → Q (server.reply q s.http) (send H q s).1)
      → Leads P (send H q) Q Never
  unfolding send
  Leads-reply P Q q h = record { at = λ s p. rw (server.answers q s.http) (h s p) }

  -- The answer to an exchange is the token that the server has given.
  abbrev Gives : Reply → Session H → Type 0
  Gives p s =
      (tok : Str) × ((p.status == 200) ≡ true)
      × (decode H (field as_str (codes "token") []) p ≡ ok tok)
      × server.Accepts tok s.http

  Leads-exchange : Leads Any (send H (token_request H c)) Gives Never
  unfolding send
  Leads-exchange = Leads-reply Any Gives (token_request H c) (λ s t.
      (server.given s.http, server.exchanges s.http, server.decodes s.http, server.accepts s.http))

  Leads-take_token :
      (p : Reply) → Leads (Gives p) (take_token H c p) (λ tok s. server.Accepts tok s.http) Never
  unfolding take_token expect set_jwt
  Leads-take_token p = record { at = λ s (tok, e, d, a). rw (e, d) a }

  Leads-token_fresh : Leads (λ s. s.jwt ≡ []) (token H c) (λ tok s. server.Accepts tok s.http) Never
  unfolding token token_or_exchange
  Leads-token_fresh = record {
    at = λ s e. rw e ((Leads-bind _ _ Leads-exchange Leads-take_token).at _ tt);
  }

  Leads-token : Leads Any (token H c) (λ tok. Any) Never
  unfolding token token_or_exchange
  Leads-token = record { at = λ s t. go s s.jwt refl }
    where
      go :
          (s : Session H) (jwt : Str)
          → s.jwt ≡ jwt
          → Ends (λ tok. Any) Never (token_or_exchange H c jwt s)
      go s [] e =
          (Leads-weaken (λ tok u a. tt) (λ e u a. a)
              (Leads-bind _ _ Leads-exchange Leads-take_token)).at
            s tt
      go s (x ∷ tok) e = tt

  -- An answer that the operation gets.
  abbrev Accepted : Reply → Session H → Type 0
  Accepted p s = (p.status == 401) ≡ false

  module _ (make : Str → Request)
      (carries : (tok : Str)
        → header_of (codes "Authorization") (make tok).header ≡ some (codes "Bearer " ++ tok)) where
    abbrev build : ℕ → Str → Exec (Session H) Request
    build n tok = pure (make tok)

    second : Leads (λ s. s.jwt ≡ []) (attempts H c 1 1 build) Accepted Never
    unfolding attempts again_after_401 set_jwt
    second = Leads-bind _ _ Leads-token_fresh λ tok.
        Leads-bind _ _
          (Leads-reply _ (λ p s. Accepted p s) (make tok)
            (λ s a. server.serves (make tok) s.http tok (carries tok) a))
          λ p. record { at = λ s a. rw a a }

    Leads-authorized : Leads Any (authorized H c build) Accepted Never
    unfolding attempts again_after_401 set_jwt
    Leads-authorized = Leads-bind _ _ Leads-token λ tok.
        Leads-bind _ _ (Leads-reply _ (λ p. Any) (make tok) (λ s a. tt)) λ p.
          Leads-if ((p.status == 401) && (0 == 0)) _ _
            (λ yes. Leads-bind (set_jwt H []) _ (record { at = λ s t. refl }) (λ u. second))
            (λ no. Leads-pure p (λ s t. and_true (p.status == 401) no))

  Ends-ok :
      (x : Result Reply × Session H)
      → Ends Accepted Never x
      → (p : Reply) × (x.0 ≡ ok p) × ((p.status == 401) ≡ false)
  Ends-ok (ok p, s) h = (p, refl, h)
  Ends-ok (err e, s) h = elim h [ ]

  -- An operation without a body or with a JSON body gets an answer, and not a 401, whatever token is cached:
  -- a good one, none, or one that has run out. The server is reached, gives a session
  -- token for the device token, and does not refuse a token that it has just given.
  pub renewed :
      (method path : Str) (body : Json) (s : Session H)
      → ((p : Reply) × ((do_plain H c method path s).0 ≡ ok p) × ((p.status == 401) ≡ false))
        × ((p : Reply) × ((do_json H c method path body s).0 ≡ ok p) × ((p.status == 401) ≡ false))
  unfolding do_plain do_json header_of str_eq
  renewed method path body s = (
    Ends-ok _ ((Leads-authorized (plain_request H c method path) (λ tok. refl)).at s tt),
    Ends-ok _
        ((Leads-authorized (json_request H c method path (H.text body)) (λ tok. refl)).at s tt),
  )
