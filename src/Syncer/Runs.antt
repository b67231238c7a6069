-- ===== src/Syncer/Runs.antt =====
-- What holds of the loop at any time: the order and the times of its reports, and that it goes on.
use discodrive_apps.Base.{
  ℕ, zero, suc, ◌+◌, ◌-◌, ◌*◌, ◌^◌, ◌≤◌, ◌≡◌, refl, ap, ◌⊎◌, inl, inr, Bool, true, false, List, [],
  ◌∷◌, Str, Bool-cases, leb, ltb, if◌then◌else◌, arith,
}
use discodrive_apps.Base.Exec.{Result, ok, err}
use discodrive_apps.World.{World}
use discodrive_apps.Engine.{Machine}
use discodrive_apps.Sync.{sync_once}
use discodrive_apps.Syncer.{
  SyncState, idle, syncing, offline, Status, Phase, waiting, running, sleeping, second, Loop,
  finished, on_trigger, pass_ends, woken, Step, ticked, notified, triggered, debounced, ended,
  slept, Reachable, start, step,
}

-- How many passes have failed in a row, as the reports tell.
abbrev counted : SyncState → ℕ → ℕ
counted idle n = 0
counted syncing n = n
counted offline n = suc n

abbrev pub streak : List Status → ℕ
streak [] = 0
streak (st ∷ sts) = counted st.state (streak sts)

-- The wait after so many failures: 1, 2, 4, 8, 16 seconds, and 32 from then on.
abbrev pub wait_after : ℕ → ℕ
wait_after n = if leb n 6 then second * 2 ^ (n - 1) else 32 * second

-- What the next report may be.
abbrev pub Turn : SyncState → Status → ℕ → Type 0
Turn idle st earliest = st.state ≡ syncing
Turn syncing st earliest = (st.state ≡ idle) ⊎ (st.state ≡ offline)
Turn offline st earliest = (st.state ≡ syncing) × (earliest ≤ st.updated_at)

abbrev pub Follows : Status → List Status → Type 0
Follows st [] = st.state ≡ syncing
Follows st (last ∷ sts) =
    Turn last.state st (last.updated_at + wait_after (counted last.state (streak sts)))

abbrev pub Paced : List Status → Type 0
Paced [] = Unit
Paced (st ∷ sts) = Follows st sts × Paced sts

abbrev pub Shows : SyncState → List Status → Type 0
Shows x [] = ⊥
Shows x (st ∷ sts) = st.state ≡ x

abbrev pub reported_at : List Status → ℕ
reported_at [] = 0
reported_at (st ∷ sts) = st.updated_at

-- After a failure another pass is on its way: a trigger is waiting or the timer is armed.
abbrev pub Retries : Bool → Bool → Bool → Type 0
Retries true trigger pending = (trigger ≡ true) ⊎ (pending ≡ true)
Retries false trigger pending = Unit

Retries-trigger : (failing pending : Bool) → Retries failing true pending
Retries-trigger true pending = inl refl
Retries-trigger false pending = tt

Retries-pending : (failing trigger : Bool) → Retries failing trigger true
Retries-pending true trigger = inr refl
Retries-pending false trigger = tt

-- A pass that begins now would be in order.
abbrev pub MayBegin : ℕ → List Status → Type 0
MayBegin now =
    Follows (record { state = syncing; last_sync = 0; last_error = []; updated_at = now })

Turn-later :
    (x : SyncState) (now earliest : ℕ)
    → Turn x (record { state = syncing; last_sync = 0; last_error = []; updated_at = now }) earliest
    → Turn x
        (record { state = syncing; last_sync = 0; last_error = []; updated_at = suc now })
        earliest
Turn-later idle now earliest h = refl
Turn-later syncing now earliest (inl e) = inl e
Turn-later syncing now earliest (inr e) = inr e
Turn-later offline now earliest (e, h) = (refl, omega arith)

begin_later : (now : ℕ) (sts : List Status) → MayBegin now sts → MayBegin (suc now) sts
begin_later now [] h = refl
begin_later now (last ∷ sts) h = Turn-later last.state now _ h

begin_after :
    (now : ℕ) (sts : List Status)
    → Shows offline sts
    → reported_at sts + wait_after (streak sts) ≤ now
    → MayBegin now sts
begin_after now [] e h = elim e [ ]
begin_after now (last ∷ sts) e h = rw e (refl, rw e at h)

result_Follows :
    (st : Status) (sts : List Status)
    → Shows syncing sts
    → (st.state ≡ idle) ⊎ (st.state ≡ offline)
    → Follows st sts
result_Follows st [] e h = elim e [ ]
result_Follows st (last ∷ sts) e h = rw e h

positive : (n : ℕ) → true ≡ ltb 0 (suc n)
positive n = ground arith

longest : (n : ℕ) → 7 ≤ n → wait_after n ≡ 32 * second
longest n h = let e : leb n 6 ≡ false = ground arith in rw e

doubled :
    (n : ℕ)
    → (if ltb (wait_after (suc n)) (30 * second)
        then wait_after (suc n) * 2
        else wait_after (suc n))
      ≡ wait_after (suc (suc n))
doubled zero = refl
doubled (suc zero) = refl
doubled (suc (suc zero)) = refl
doubled (suc (suc (suc zero))) = refl
doubled (suc (suc (suc (suc zero)))) = refl
doubled (suc (suc (suc (suc (suc zero))))) = refl
doubled (suc (suc (suc (suc (suc (suc n)))))) = rw (
  longest (suc (suc (suc (suc (suc (suc (suc n))))))) (omega arith),
  longest (suc (suc (suc (suc (suc (suc (suc (suc n)))))))) (omega arith),
)

module _ (W : World) (root : Str) (can_move : Bool) (fuel : ℕ) where
  -- Where the loop stands, beside its reports. At the select another pass may begin, and after a failure
  -- one is on its way; the sleep ends exactly the wait after the report of the failure.
  abbrev pub Stands : Phase → Loop W root can_move fuel → Type 0
  Stands waiting s =
      MayBegin s.clock s.written
      × (s.backoff ≡ wait_after (suc (streak s.written)))
      × Retries s.failing s.trigger s.pending
  Stands running s = Shows syncing s.written × (s.backoff ≡ wait_after (suc (streak s.written)))
  Stands (sleeping until) s =
      Shows offline s.written
      × (until ≡ reported_at s.written + wait_after (streak s.written))
      × (s.backoff ≡ wait_after (streak s.written))
      × (1 ≤ streak s.written)

  pub record Fine (s : Loop W root can_move fuel) : Type 0 where
    pub paced : Paced s.written
    pub flagged : s.failing ≡ ltb 0 (streak s.written)
    pub stands : Stands s.phase s

  Stands-ticked :
      (x : Phase) (s : Loop W root can_move fuel)
      → Stands x s
      → Stands x (record s { clock = suc s.clock })
  Stands-ticked waiting s (b, e, r) = (begin_later s.clock s.written b, e, r)
  Stands-ticked running s h = h
  Stands-ticked (sleeping until) s h = h

  Stands-notified :
      (x : Phase) (s : Loop W root can_move fuel)
      → Stands x s
      → Stands x (record s { trigger = true })
  Stands-notified waiting s (b, e, r) = (b, e, Retries-trigger s.failing s.pending)
  Stands-notified running s h = h
  Stands-notified (sleeping until) s h = h

  Fine-triggered :
      (s : Loop W root can_move fuel)
      → Fine s
      → s.phase ≡ waiting
      → Fine (on_trigger W root can_move fuel s)
  Fine-triggered s h e =
      let (b, k, r) = rw e at h.stands in
      elim (Bool-cases s.pending) [
        | inl p ↦ rw p (record {
          paced = h.paced;
          flagged = h.flagged;
          stands = rw e (b, k, Retries-pending s.failing false);
        })
        | inr p ↦ rw p (record {
          paced = h.paced;
          flagged = h.flagged;
          stands = rw e (b, k, Retries-pending s.failing false);
        })
      ]

  Fine-finished :
      (s : Loop W root can_move fuel) (r : Result (Unit {0}))
      → Paced s.written
      → Stands running s
      → Fine (finished W root can_move fuel s r)
  Fine-finished s (ok a) h (k, b) = record {
    paced = (result_Follows _ s.written k (inl refl), h);
    flagged = refl;
    stands = (refl, refl, tt);
  }
  Fine-finished s (err x) h (k, b) = record {
    paced = (result_Follows _ s.written k (inr refl), h);
    flagged = positive (streak s.written);
    stands = (refl, ap (λ x. s.clock + x) b, b, omega arith);
  }

  Fine-woken :
      (until : ℕ) (s : Loop W root can_move fuel)
      → Fine s
      → s.phase ≡ sleeping until
      → until ≤ s.clock
      → Fine (woken W root can_move fuel s)
  Fine-woken until s h e past =
      let (k, u, b, f) = rw e at h.stands in
      record {
        paced = h.paced;
        flagged = h.flagged;
        stands = (
          begin_after s.clock s.written k (omega arith),
          next s.backoff (streak s.written) b f,
          Retries-trigger s.failing s.pending,
        );
      }
    where
      next :
          (b n : ℕ)
          → b ≡ wait_after n
          → 1 ≤ n
          → (if ltb b (30 * second) then b * 2 else b) ≡ wait_after (suc n)
      next b zero e f = absurd (omega arith)
      next b (suc n) e f = rw e (doubled n)

  Fine-Step : (s t : Loop W root can_move fuel) → Fine s → Step W root can_move fuel s t → Fine t
  unfolding pass_ends
  Fine-Step s t h (ticked _) = record {
    paced = h.paced;
    flagged = h.flagged;
    stands = Stands-ticked s.phase s h.stands;
  }
  Fine-Step s t h (notified _) = record {
    paced = h.paced;
    flagged = h.flagged;
    stands = Stands-notified s.phase s h.stands;
  }
  Fine-Step s t h (triggered _ e f) = Fine-triggered s h e
  Fine-Step s t h (debounced _ e f g) =
      let (b, k, r) = rw e at h.stands in
      record { paced = (b, h.paced); flagged = h.flagged; stands = (refl, k) }
  Fine-Step s t h (ended _ e) =
      let (r, m) = sync_once W root can_move fuel s.machine in
      Fine-finished (record s { machine = m }) r h.paced (rw e at h.stands)
  Fine-Step s t h (slept until _ e past) = Fine-woken until s h e past

  -- Whatever notifications come and however the passes end: the reports alternate between `syncing` and the
  -- result of the pass, `idle` after a success and `offline` after a failure; between the `offline` of
  -- a failure and the next `syncing` lies at least the wait, which is 1, 2, 4, 8, 16 seconds for the
  -- first failures in a row and 32 for every further one, and 1 again after a success; while the loop
  -- sleeps, the sleep is for exactly this wait; and at the select after a failure another pass is on
  -- its way (a trigger is waiting or the timer is armed).
  pub Reachable-Fine :
      (m : Machine W) (s : Loop W root can_move fuel) → Reachable W root can_move fuel m s → Fine s
  Reachable-Fine m s start = record { paced = tt; flagged = refl; stands = (refl, refl, tt) }
  Reachable-Fine m t (step s _ r st) = Fine-Step s t (Reachable-Fine m s r) st
