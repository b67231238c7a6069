-- ===== src/Protocol/Attempts.antt =====
-- What the loop of the attempts sends.
use discodrive_apps.Base.{
  ℕ, zero, suc, ◌+◌, ◌*◌, ◌≡◌, refl, ap, Bool, true, false, if◌then◌else◌, ◌⊎◌, ◌&&◌, inl, inr,
  List, [], ◌∷◌, Str, codes, length, ◌==◌, arith,
}
use discodrive_apps.Base.Exec.{Error, Result, ok, err, Exec}
use discodrive_apps.Base.Ends.{
  Ends, Ends-split, Leads, Leads-pure, Leads-lift_eq, Leads-from, Leads-raise, Leads-gets, Leads-if,
  Leads-weaken, Leads-bind,
}
use discodrive_apps.Go.Json.{field, as_str}
use discodrive_apps.Protocol.{
  decode, expect, Http, Request, Reply, Reader, Session, Client, send, set_jwt, token_request,
  take_token, token_or_exchange, token, attempts, advance, again_after_401,
}
use discodrive_apps.Protocol.Sent.{
  recording, Later, Ended, Ended-mono, Ended-grown, Sent, Sent-mono, Sent-same, Sent-grown,
}

-- The tokens of a session that began with `first` as the cached one: this one, unless there was none, and
-- what the server has answered to the exchange of the device token, in a state that the network got into by
-- requests from `start` on.
pub data Token (H : Http) (c : Client) (start : H.State) (first : Str) : Str → Type 0 where
  cached : (x : ℕ) (tok : Str) → first ≡ x ∷ tok → Token H c start first (x ∷ tok)
  issued :
      (tok : Str) (p : Reply) (h : H.State)
      → Later H start h
      → (H.send (token_request H c) h).0 ≡ ok p
      → (p.status == 200) ≡ true
      → decode H (field as_str (codes "token") []) p ≡ ok tok
      → Token H c start first tok

pub Token-first :
    (H : Http) (c : Client) (start : H.State) (jwt : Str) → (jwt ≡ []) ⊎ Token H c start jwt jwt
Token-first H c start [] = inl refl
Token-first H c start (x ∷ jwt) = inr (cached x jwt refl)

-- `Good` is what every request has to be, and `Kept n` what is known of the caller's reader before the
-- attempt `n`.
module _ (H : Http) (c : Client) (Good : Request → Type 0) (Kept : ℕ → Reader → Type 0)
    (before : H.State × List Request) (first : Str) where
  -- The cached token, if there is one.
  abbrev pub Caches : Str → Type 0
  Caches jwt = (jwt ≡ []) ⊎ Token H c before.0 first jwt

  abbrev pub After : ℕ → ℕ → Session (recording H) → Type 0
  After a n s = Sent H Good before n s × Kept a s.reader × Caches s.jwt

  abbrev Few : ℕ → Session (recording H) → Type 0
  Few = Sent H Good before

  module _ (Made : Request → Type 0) (exchanged : Good (token_request H c))
      (moves : (a n : ℕ) (q : Request) (h : H.State) (r : Reader)
        → Kept a r
        → Kept (suc a) (record r { offset = n; others = H.leaves q h }))
      (stays : (a : ℕ) (r : Reader) → Kept a r → Kept (suc a) r) where
    Kept-advance :
        (a : ℕ) (q : Request) (h : H.State × List Request) (r : Reader)
        → Kept a r
        → Kept (suc a) (advance (recording H) q h r)
    Kept-advance a q h r k = pick q.streamed (moves a _ q h.0 r k) (stays a r k)
      where
        pick :
            {u v : Reader} (b : Bool)
            → Kept (suc a) u
            → Kept (suc a) v
            → Kept (suc a) (if b then u else v)
        pick true k l = k
        pick false k l = l

    -- The last request was that of an attempt.
    abbrev Done : ℕ → Session (recording H) → Type 0
    Done = Ended H Good before Made

    -- The request of an attempt.
    Leads-send :
        (a n : ℕ) (q : Request)
        → Good q
        → Made q
        → Leads
            (After a n)
            (send (recording H) q)
            (λ p s. After (suc a) (suc n) s × Done (suc n) s)
            (λ e. Few (suc n))
    unfolding send
    Leads-send a n q g m = record {
      at = λ s (w, k, j).
          let grown = Sent-grown H Good before q refl g w in
          Ends-split (λ s. After (suc a) (suc n) s × Done (suc n) s) (Few (suc n)) _ _
            (
              (grown, Kept-advance a q s.http s.reader k, j),
              Ended-grown H Good before Made q refl g m w,
            )
            (Sent-grown H Good before q refl g w);
    }

    -- An answer to the exchange of the token.
    abbrev Answers : Reply → Type 0
    Answers p = (h : H.State) × Later H before.0 h × ((H.send (token_request H c) h).0 ≡ ok p)

    -- The exchange of the token does not touch the reader.
    Leads-exchange :
        (a n : ℕ)
        → Leads
            (After a n)
            (send (recording H) (token_request H c))
            (λ p s. After a (suc n) s × Answers p)
            (λ e. Few (suc n))
    unfolding send
    Leads-exchange a n = record {
      at = λ s (w, k, j).
          go s.http.0 w.reached (H.send (token_request H c) s.http.0).0 refl _
            (Sent-grown H Good before _ refl exchanged w, k, j);
    }
      where
        go :
            (h : H.State)
            → Later H before.0 h
            → (r : Result Reply) → (H.send (token_request H c) h).0 ≡ r
            → (u : Session (recording H)) → After a (suc n) u
            → Ends (λ p s. After a (suc n) s × Answers p) (λ e. Few (suc n)) (r, u)
        go h l (ok p) e u w = (w, (h, l, e))
        go h l (err x) e u w = w.0

    Leads-set_jwt :
        (a n : ℕ) (tok : Str)
        → Caches tok
        → Leads (After a n) (set_jwt (recording H) tok) (λ u. After a n) (λ e. Few n)
    unfolding set_jwt
    Leads-set_jwt a n tok j = record {
      at = λ s (w, k, old). (Sent-same H Good before refl w, k, j);
    }

    Leads-take_token :
        (a n : ℕ) (p : Reply)
        → Leads
            (λ s. After a n s × Answers p)
            (take_token (recording H) c p)
            (λ tok s. After a n s × Token H c before.0 first tok)
            (λ e. Few n)
    unfolding take_token expect
    Leads-take_token a n p =
        Leads-if (p.status == 200) _ _
          (λ good.
            Leads-bind _ _
              (Leads-lift_eq {Q = λ tok s. After a n s × Token H c before.0 first tok}
                (decode H (field as_str (codes "token") []) p)
                (λ tok e s (w, (h, l, f)). (w, issued tok p h l f good e)) (λ e s w. w.0.0))
              λ tok. record {
                at = λ s (w, t).
                    (Leads-bind _ _ (Leads-set_jwt a n tok (inr t))
                        λ u. Leads-pure tok (λ s w. (w, t))).at
                      s w;
              })
          (λ bad. Leads-raise _ (λ s w. w.0.0))

    Leads-token_or_exchange :
        (a n : ℕ) (jwt : Str)
        → Leads
            (λ s. After a n s × Caches jwt)
            (token_or_exchange (recording H) c jwt)
            (λ tok s. After a (suc n) s × Token H c before.0 first tok)
            (λ e. Few (suc n))
    unfolding token_or_exchange
    Leads-token_or_exchange a n [] =
        Leads-bind _ _ (Leads-from (λ s w. w.0) (Leads-exchange a n)) (Leads-take_token a (suc n))
    Leads-token_or_exchange a n (x ∷ tok) =
        Leads-pure _
          (λ s ((w, k, j), t). ((Sent-mono H Good before s (omega arith) w, k, j), is_token t))
      where
        is_token : Caches (x ∷ tok) → Token H c before.0 first (x ∷ tok)
        is_token (inl e) = absurd (omega (arith, ap length e))
        is_token (inr t) = t

    Leads-token :
        (a n : ℕ)
        → Leads
            (After a n)
            (token (recording H) c)
            (λ tok s. After a (suc n) s × Token H c before.0 first tok)
            (λ e. Few (suc n))
    unfolding token
    Leads-token a n =
        Leads-bind _ _ (Leads-gets {Q = λ t s. After a n s × Caches t} _ (λ s w. (w, w.2)))
          (Leads-token_or_exchange a n)

    Leads-again :
        (E : Error → Session (recording H) → Type 0) (Q : Reply → Session (recording H) → Type 0)
        (a b n : ℕ) (again : Exec (Session (recording H)) Reply) (p : Reply)
        → ((s : Session (recording H)) → Done n s → Q p s)
        → ((e : Error) (s : Session (recording H)) → Few n s → E e s)
        → Leads (After b n) again Q E
        → Leads (λ s. After b n s × Done n s) (again_after_401 (recording H) a again p) Q E
    unfolding again_after_401
    Leads-again E Q a b n again p h k l =
        Leads-if ((p.status == 401) && (a == 0)) _ _
          (λ yes.
            Leads-bind _ _
              (Leads-from (λ s w. w.0)
                (Leads-weaken (λ u s w. w) k (Leads-set_jwt b n [] (inl refl))))
              (λ u. l))
          (λ no. Leads-pure p (λ s w. h s w.1))

    -- An attempt sends the exchange at most, and its request.
    pub Leads-attempts :
        (build : ℕ → Str → Exec (Session (recording H)) Request) (left a n : ℕ)
        → ((b m : ℕ) (tok : Str)
            → Token H c before.0 first tok
            → Leads (After b m) (build b tok) (λ q s. After b m s × Good q × Made q) (λ e. Few m))
        → Leads
            (After a n)
            (attempts (recording H) c left a build)
            (λ p. Done (n + 2 * left))
            (λ e. Few (n + 2 * left))
    unfolding attempts
    Leads-attempts build zero a n h =
        Leads-raise _ (λ s (w, k, j). Sent-mono H Good before s (omega arith) w)
    Leads-attempts build (suc left) a n h =
        Leads-bind _ _
          (Leads-weaken (λ tok s w. w) (λ e s. Sent-mono H Good before s (omega arith))
            (Leads-token a n))
          λ tok.
            Leads-bind {Q = λ q s. After a (suc n) s × Good q × Made q} _ _
              (record {
                at = λ s (w, t).
                    let made : Leads (After a (suc n)) (build a tok)
                        (λ q s. After a (suc n) s × Good q × Made q) (λ e. Few (n + 2 * suc left)) =
                      Leads-weaken (λ q s w. w) (λ e s. Sent-mono H Good before s (omega arith))
                        (h a (suc n) tok t) in
                    made.at s w;
              })
              λ q. record {
                at = λ s (w, g, m).
                    (Leads-bind (send (recording H) q) _
                        (Leads-weaken (λ q s w. w) (λ e s. Sent-mono H Good before s (omega arith))
                          (Leads-send a (suc n) q g m))
                        λ p.
                          Leads-again (λ e. Few (n + 2 * suc left)) (λ p. Done (n + 2 * suc left)) a
                            (suc a) (suc (suc n)) _ p
                            (λ s. Ended-mono H Good before Made s (omega arith))
                            (λ e s. Sent-mono H Good before s (omega arith))
                            (Leads-weaken (λ p s. Ended-mono H Good before Made s (omega arith))
                              (λ e s. Sent-mono H Good before s (omega arith))
                              (Leads-attempts build left (suc a) (suc (suc n)) h))).at
                      s w;
              }
