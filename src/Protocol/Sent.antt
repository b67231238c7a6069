-- ===== src/Protocol/Sent.antt =====
-- What the client sends while an operation runs, seen by a transport that records the requests.
use discodrive_apps.Base.{
  ℕ, suc, ◌≤◌, ◌≡◌, refl, ap, ◌∙◌, Bool, true, false, List, ◌∷◌, ◌++◌, Str, All, length, arith,
}
use discodrive_apps.Base.Exec.{Error, Exec}
use discodrive_apps.Base.Ends.{Leads}
use discodrive_apps.Protocol.{Http, Request, Reply, Session, expect}

-- The transport `H`, with the requests that were sent, the last one first.
abbrev pub recording : Http → Http
recording H = record {
  State = H.State × List Request;
  send = λ q s. let (r, h) = H.send q s.0 in (r, (h, q ∷ s.1));
  reads = λ q s. H.reads q s.0;
  leaves = λ q s. H.leaves q s.0;
  text = H.text;
  parse = H.parse;
}

-- The states that the network gets into by requests, from the state `start` on.
pub data Later (H : Http) (start : H.State) : H.State → Type 0 where
  here : Later H start start
  after : (q : Request) (h : H.State) → Later H start h → Later H start (H.send q h).1

module _ (H : Http) where
  pub Leads-expect :
      {A : Type 0} {P : Session H → Type 0} (Q : A → Session H → Type 0)
      (E : Error → Session H → Type 0) (b : Bool) (what : Str) (p : Reply) (m : Exec (Session H) A)
      → ((e : Error) (s : Session H) → P s → E e s)
      → Leads P m Q E
      → Leads P (expect H b what p m) Q E
  unfolding expect
  Leads-expect Q E true what p m h l = l
  Leads-expect Q E false what p m h l = record { at = λ s w. h _ s w }

  -- `Good` is what every request has to be.
  module _ (Good : Request → Type 0) (before : H.State × List Request) where
    -- At most `n` requests were sent since, all of them good.
    pub record Sent (n : ℕ) (s : Session (recording H)) : Type 0 where
      pub new : List Request
      pub log : s.http.1 ≡ new ++ before.1
      pub reached : Later H before.0 s.http.0
      pub few : length new ≤ n
      pub good : All Good new

    -- The same, and the last one of them is one that `Made` tells of.
    pub record Ended (Made : Request → Type 0) (n : ℕ) (s : Session (recording H)) : Type 0 where
      pub sent : Sent n s
      pub last : Request
      pub older : List Request
      pub order : sent.new ≡ last ∷ older
      pub made : Made last

    pub Sent-mono : {m n : ℕ} (s : Session (recording H)) → m ≤ n → Sent m s → Sent n s
    Sent-mono s h w = record {
      new = w.new;
      log = w.log;
      reached = w.reached;
      few = omega (arith, w.few);
      good = w.good;
    }

    -- The state `u` has the network of the state `s`.
    pub Sent-same : {n : ℕ} {s u : Session (recording H)} → u.http ≡ s.http → Sent n s → Sent n u
    Sent-same e w = record {
      new = w.new;
      log = ap (λ x. x.1) e ∙ w.log;
      reached = rw e w.reached;
      few = w.few;
      good = w.good;
    }

    pub Sent-grown :
        {n : ℕ} {s u : Session (recording H)} (q : Request)
        → u.http ≡ ((H.send q s.http.0).1, q ∷ s.http.1)
        → Good q
        → Sent n s
        → Sent (suc n) u
    Sent-grown {s = s} q e g w = record {
      new = q ∷ w.new;
      log = rw (e, w.log);
      reached = rw e (after q s.http.0 w.reached);
      few = omega (arith, w.few);
      good = (g, w.good);
    }

    pub Ended-mono :
        (Made : Request → Type 0) {m n : ℕ} (s : Session (recording H))
        → m ≤ n
        → Ended Made m s
        → Ended Made n s
    unfolding Sent-mono
    Ended-mono Made s h w = record {
      sent = Sent-mono s h w.sent;
      last = w.last;
      older = w.older;
      order = w.order;
      made = w.made;
    }

    pub Ended-grown :
        (Made : Request → Type 0) {n : ℕ} {s u : Session (recording H)} (q : Request)
        → u.http ≡ ((H.send q s.http.0).1, q ∷ s.http.1)
        → Good q
        → Made q
        → Sent n s
        → Ended Made (suc n) u
    unfolding Sent-grown
    Ended-grown Made {s = s} q e g m w = record {
      sent = Sent-grown {s = s} q e g w;
      last = q;
      older = w.new;
      order = refl;
      made = m;
    }
