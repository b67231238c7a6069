-- ===== src/Protocol/Pair.antt =====
-- daemon/internal/protocol/pair.go: the pairing of a device, two requests without a session. The wait between
-- two polls, which the context may cut short, is an action of the network's state; the loop is on fuel.
use discodrive_apps.Base.{
  ℕ, zero, suc, refl, false, [], ◌∷◌, ◌++◌, Str, codes, length, str_eq, ◌==◌, if◌then◌else◌,
}
use discodrive_apps.Base.Exec.{
  with_ok, Result, ok, err, unfinished, bad_status, Exec, pure, raise, lift, ◌>>=◌, ◌>>◌,
}
use discodrive_apps.Base.Fuel.{Agrees, self_Agrees, bind_Agrees, if_Agrees}
use discodrive_apps.Go.Json.{Json, field, as_str, as_int, member, empty}
use discodrive_apps.Protocol.{Http, Request, Reply, json_type, decode}

pub record Pairing : Type 0 where
  pub device_code : Str
  pub user_code : Str
  pub verification_uri : Str
  pub interval : ℕ
  pub expires_in : ℕ

abbrev pairing_of : Json → Result Pairing
pairing_of d = with_ok (field as_str (codes "device_code") [] d) λ device_code.
    with_ok (field as_str (codes "user_code") [] d) λ user_code.
      with_ok (field as_str (codes "verification_uri") [] d) λ verification_uri.
        with_ok (field as_int (codes "interval") 0 d) λ interval.
          with_ok (field as_int (codes "expires_in") 0 d) λ expires_in. ok (record {
            device_code = device_code;
            user_code = user_code;
            verification_uri = verification_uri;
            interval = interval;
            expires_in = expires_in;
          })

-- A field of an answer whose error is dropped.
abbrev or_empty : Result Str → Str
or_empty (ok s) = s
or_empty (err e) = []

module _ (H : Http) where
  abbrev pair_request : Str → Str → Json → Request
  pair_request server_url path d =
      let body = H.text d in
      record {
        method = codes "POST";
        url = server_url ++ path;
        header = json_type ∷ [];
        body = body;
        content_length = length body;
        streamed = false;
      }

  -- The names of a map are written in their order.
  unfoldable pub pair_init : Str → Str → Str → Exec H.State Pairing
  pair_init server_url name kind = do
    p ← H.send (
        pair_request server_url (codes "/pair/init") (
          Json.obj
            (member (codes "kind") (Json.str kind) (member (codes "name") (Json.str name) empty))))
    if p.status == 201
        then lift (decode H pairing_of p)
        else raise (bad_status (codes "/pair/init") p.status)

  abbrev text_field : Str → Reply → Str
  text_field name p = or_empty (decode H (field as_str name []) p)

  module _ (wait : Exec H.State (Unit {0})) (server_url device_code : Str) where
    -- What an answer leads to; `again` is the rest of the loop.
    unfoldable pub polled : Exec H.State Str → Reply → Exec H.State Str
    polled again p =
        let status = text_field (codes "status") p in
        if str_eq status (codes "approved")
        then pure (text_field (codes "device_token") p)
        else if str_eq status (codes "pending")
        then wait >> again
        else raise (bad_status status p.status)

    unfoldable pub pair_poll : ℕ → Exec H.State Str
    pair_poll zero = raise unfinished
    pair_poll (suc fuel) =
        let again = pair_poll fuel in
        do
          p ← H.send (
              pair_request server_url (codes "/pair/token")
                (Json.obj (member (codes "device_code") (Json.str device_code) empty)))
          polled again p

    polled-Agrees :
        (again again' : Exec H.State Str)
        → Agrees again again'
        → (p : Reply) → Agrees (polled again p) (polled again' p)
    unfolding polled
    polled-Agrees again again' h p =
        let status = text_field (codes "status") p in
        if_Agrees (str_eq status (codes "approved")) _ _ _ _
          (self_Agrees (pure (text_field (codes "device_token") p)))
          (if_Agrees (str_eq status (codes "pending")) _ _ _ _ (bind_Agrees wait _ _ λ _. h)
            (self_Agrees (raise (bad_status status p.status))))

    -- A poll that has ended by itself does the same with one step of fuel more.
    pub pair_poll-Agrees : (fuel : ℕ) → Agrees (pair_poll fuel) (pair_poll (suc fuel))
    unfolding pair_poll
    pair_poll-Agrees zero = λ s h. absurd (h refl)
    pair_poll-Agrees (suc fuel) =
        bind_Agrees
          (H.send (
            pair_request server_url (codes "/pair/token")
              (Json.obj (member (codes "device_code") (Json.str device_code) empty))))
          _ _ λ p. polled-Agrees (pair_poll fuel) (pair_poll (suc fuel)) (pair_poll-Agrees fuel) p
