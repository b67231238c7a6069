-- ===== src/Protocol/Whole.antt =====
-- PushFile and UploadFile send the whole of what the caller handed over, with its length, at the first
-- attempt and at the second.
use discodrive_apps.Base.{
  ℕ, zero, suc, ◌≡◌, refl, ◌∙◌, Bool, true, false, List, [], ◌∷◌, Str, length, drop,
}
use discodrive_apps.Base.Exec.{Result, Exec, lift}
use discodrive_apps.Base.Ends.{
  Ends-split, Leads, Leads-pure, Leads-gets, Leads-lift, Leads-bind, Leads-weaken,
}
use discodrive_apps.Protocol.{
  Http, Request, Reply, Reader, Session, Client, authorized, token_request, expect,
}
use discodrive_apps.Protocol.Files.{
  Body, rewound, buffered, new_body, reader_works, at_offset, seek_start, next_fault,
}
use discodrive_apps.Protocol.Sent.{recording, Ended, Sent, Sent-same, Leads-expect}
use discodrive_apps.Protocol.Attempts.{After, Leads-attempts}

-- The transport has stopped reading a body when Do returns, so that all of the rest is left to the next one
-- who reads it. net/http does not promise this.
abbrev pub Stops : Http → Type 0
Stops H = (q : Request) (h : H.State) (rest : Str) → H.leaves q h rest ≡ rest

-- Nobody else reads from the reader.
abbrev pub Alone : Reader → Type 0
Alone r = (rest : Str) → r.others rest ≡ rest

-- A body made of a reader that held `bytes` and stood at `start`; one that is read again needs a transport that
-- has stopped.
pub data Holds (H : Http) (bytes : Str) (start : ℕ) : Body × ℕ → Type 0 where
  rewinds :
      (size : ℕ)
      → size ≡ length (drop start bytes)
      → Stops H
      → Holds H bytes start (rewound start, size)
  copied :
      (copy : Str) (size : ℕ)
      → copy ≡ drop start bytes
      → size ≡ length (drop start bytes)
      → Holds H bytes start (buffered copy, size)

-- What is known of the reader before an attempt: before the first one, a body that is rewound has
-- its reader where it stood.
abbrev pub Stands : Body → ℕ → Reader → Type 0
Stands (rewound start) n r = r.offset ≡ n
Stands (buffered copy) n r = Unit {0}

-- A body that is rewound has a reader that nobody else reads from.
abbrev pub Own : Body → Reader → Type 0
Own (rewound start) r = Alone r
Own (buffered copy) r = Unit {0}

abbrev pub At : Body → Str → ℕ → ℕ → Reader → Type 0
At b bytes start zero r = (r.bytes ≡ bytes) × Own b r × Stands b start r
At b bytes start (suc n) r = (r.bytes ≡ bytes) × Own b r

Own-faults : (b : Body) (r : Reader) (fs : List Bool) → Own b r → Own b (record r { faults = fs })
Own-faults (rewound start) r fs h = h
Own-faults (buffered copy) r fs h = tt

Own-offset : (b : Body) (r : Reader) (n : ℕ) → Own b r → Own b (record r { offset = n })
Own-offset (rewound start) r n h = h
Own-offset (buffered copy) r n h = tt

module _ (H : Http) (Good : Request → Type 0) (bytes : Str) (start : ℕ)
    (before : H.State × List Request) (c : Client) (first : Str) where
  abbrev pub Few : ℕ → Session (recording H) → Type 0
  Few = Sent H Good before

  module _ (b : Body) where
    abbrev pub Ready : ℕ → ℕ → Session (recording H) → Type 0
    Ready a n s = After H c Good (At b bytes start) before first a n s

    next_fault-bytes :
        (fs : List Bool) (r : Reader) → (next_fault (recording H) fs r).1.bytes ≡ r.bytes
    next_fault-bytes [] r = refl
    next_fault-bytes (true ∷ fs) r = refl
    next_fault-bytes (false ∷ fs) r = refl

    next_fault-Own :
        (fs : List Bool) (r : Reader) → Own b r → Own b (next_fault (recording H) fs r).1
    next_fault-Own [] r h = h
    next_fault-Own (true ∷ fs) r h = Own-faults b r fs h
    next_fault-Own (false ∷ fs) r h = Own-faults b r fs h

    Leads-works :
        (a n : ℕ)
        → Leads (Ready (suc a) n) (reader_works (recording H)) (λ o. Ready (suc a) n) (λ e. Few n)
    unfolding reader_works
    Leads-works a n = record {
      at = λ s (w, (k, o), j).
          Ends-split (Ready (suc a) n) (Few n) _ _
            (
              Sent-same H Good before refl w,
              (
                next_fault-bytes s.reader.faults s.reader ∙ k,
                next_fault-Own s.reader.faults s.reader o,
              ),
              j,
            )
            (Sent-same H Good before refl w);
    }

    Leads-seek_start :
        (a n : ℕ)
        → Leads
            (Ready (suc a) n)
            (seek_start (recording H) start)
            (λ o s. Ready (suc a) n s × (s.reader.offset ≡ start))
            (λ e. Few n)
    unfolding at_offset
    Leads-seek_start a n = Leads-bind _ _ (Leads-works a n) (λ u. record {
      at = λ s (w, (k, o), j).
          ((Sent-same H Good before refl w, (k, Own-offset b s.reader start o), j), refl);
    })

  -- At every attempt a fresh reader of the body yields all of it.
  pub Leads-new_body :
      (b : Body × ℕ) (a n : ℕ)
      → Holds H bytes start b
      → Leads
          (Ready b.0 a n)
          (new_body (recording H) b.0 a)
          (λ body s. Ready b.0 a n s × (body ≡ drop start bytes))
          (λ e. Few n)
  unfolding new_body
  Leads-new_body b zero n (rewinds size e stops) =
      Leads-gets _ (λ s (w, (k, o, p), j). ((w, (k, o, p), j), o _ ∙ rw (k, p)))
  Leads-new_body b (suc a) n (rewinds size e stops) =
      Leads-bind _ _ (Leads-seek_start (rewound start) a n)
        (λ o. Leads-gets _ (λ s ((w, (k, o), j), e). ((w, (k, o), j), o _ ∙ rw (k, e))))
  Leads-new_body b a n (copied copy size e f) = Leads-pure copy (λ s w. (w, e))

  -- The loop of the attempts, when `build` makes good requests of the body.
  pub Leads-built :
      (Made : Request → Type 0) (b : Body × ℕ)
      (build : ℕ → Str → Exec (Session (recording H)) Request)
      → Holds H bytes start b
      → Good (token_request H c)
      → ((q : Request) → Made q → Good q)
      → ((a n : ℕ) (tok : Str)
          → Leads (Ready b.0 a n) (build a tok) (λ q s. Ready b.0 a n s × Made q) (λ e. Few n))
      → Leads
          (Ready b.0 0 0)
          (authorized (recording H) c build)
          (λ p. Ended H Good before Made 4)
          (λ e. Few 4)
  Leads-built Made b build holds g good h =
      Leads-attempts H c Good (At b.0 bytes start) before first Made g moves stays build 2 0 0
        (λ a n tok t. Leads-weaken (λ q s w. (w.0, good q w.1, w.1)) (λ e s w. w) (h a n tok))
    where
      left :
          {b : Body × ℕ} (q : Request) (h : H.State) (n : ℕ) (r : Reader)
          → Holds H bytes start b
          → Own b.0 (record r { offset = n; others = H.leaves q h })
      left q h n r (rewinds size e stops) = stops q h
      left q h n r (copied copy size e f) = tt

      moves :
          (a n : ℕ) (q : Request) (h : H.State) (r : Reader)
          → At b.0 bytes start a r
          → At b.0 bytes start (suc a) (record r { offset = n; others = H.leaves q h })
      moves zero n q h r (k, o, p) = (k, left q h n r holds)
      moves (suc a) n q h r (k, o) = (k, left q h n r holds)

      stays : (a : ℕ) (r : Reader) → At b.0 bytes start a r → At b.0 bytes start (suc a) r
      stays zero r (k, o, p) = (k, o)
      stays (suc a) r k = k

  pub Leads-expect-lift :
      {A : Type 0} (Made : Request → Type 0) (b : Bool) (what : Str) (p : Reply) (r : Result A)
      → Leads
          (Ended H Good before Made 4)
          (expect (recording H) b what p (lift r))
          (λ a. Ended H Good before Made 4)
          (λ e. Few 4)
  Leads-expect-lift Made b what p r =
      Leads-expect (recording H) (λ a. Ended H Good before Made 4) (λ e. Few 4) b what p _
        (λ e s w. w.sent) (Leads-lift r (λ a s w. w) (λ e s w. w.sent))
