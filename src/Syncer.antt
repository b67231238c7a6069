-- ===== src/Syncer.antt =====
-- daemon/internal/syncer/syncer.go: the loop Run, which debounces the triggers, runs a pass and sleeps longer
-- after each failure, and daemon/internal/syncer/status.go: what it reports. The watcher of the folder, the
-- event stream of the server and the ticker only call `notify`, at any time, also during a pass and a sleep.
-- Time is in milliseconds. When the context is cancelled the loop ends, and makes no further step.
pub mod Runs
use discodrive_apps.Base.{
  ℕ, suc, ◌+◌, ◌*◌, ◌≤◌, ◌≡◌, Bool, true, false, List, [], ◌∷◌, Str, ltb, if◌then◌else◌,
}
use discodrive_apps.Base.Exec.{Error, Result, ok, err}
use discodrive_apps.World.{World}
use discodrive_apps.Engine.{Machine}
use discodrive_apps.Sync.{sync_once}

pub data SyncState : Type 0 where
  idle syncing offline : SyncState

-- Status; the process and the text of the error are not looked at again.
pub record Status : Type 0 where
  pub state : SyncState
  pub last_sync : ℕ
  pub last_error : List Error
  pub updated_at : ℕ

-- Where Run stands: at its select, in SyncOnce, or in time.Sleep, which ends at a time or later.
pub data Phase : Type 0 where
  waiting : Phase
  running : Phase
  sleeping : ℕ → Phase

-- time.Second
abbrev pub second : ℕ
second = 1000

module _ (W : World) (root : Str) (can_move : Bool) (fuel : ℕ) where
  -- The variables of Run, and the clock. `trigger` is the channel of one place, `pending` goes with the
  -- armed timer, which fires at `due`, and `written` are the reports, the last one first.
  pub record Loop : Type 0 where
    pub machine : Machine W
    pub clock : ℕ
    pub phase : Phase
    pub trigger : Bool
    pub pending : Bool
    pub due : ℕ
    pub backoff : ℕ
    pub failing : Bool
    pub written : List Status

  -- notify: a trigger that is waiting is enough.
  abbrev pub notify : Loop → Loop
  notify s = record s { trigger = true }

  abbrev pub write_status : SyncState → ℕ → List Error → Loop → Loop
  write_status state last_sync last_error s = record s {
    written =
        record {
          state = state;
          last_sync = last_sync;
          last_error = last_error;
          updated_at = s.clock;
        }
        ∷ s.written;
  }

  -- case <-trigger
  abbrev pub on_trigger : Loop → Loop
  on_trigger s =
      if s.pending
      then record s { trigger = false }
      else record s { trigger = false; pending = true; due = s.clock + 500 }

  -- case <-debounce.C, as far as the pass.
  abbrev pub on_debounce : Loop → Loop
  on_debounce s = record (write_status syncing 0 [] s) { pending = false; phase = running }

  -- The result of SyncOnce, as far as the sleep.
  abbrev pub finished : Loop → Result (Unit {0}) → Loop
  finished s (err e) = record (write_status offline 0 (e ∷ []) s) {
    failing = true;
    phase = sleeping (s.clock + s.backoff);
  }
  finished s (ok a) = record (write_status idle s.clock [] s) {
    failing = false;
    backoff = second;
    phase = waiting;
  }

  unfoldable pub pass_ends : Loop → Loop
  pass_ends s =
      let (r, m) = sync_once W root can_move fuel s.machine in finished (record s { machine = m }) r

  -- What follows the sleep.
  abbrev pub woken : Loop → Loop
  woken s = notify (record s {
    backoff = if ltb s.backoff (30 * second) then s.backoff * 2 else s.backoff;
    phase = waiting;
  })

  -- The loop begins with a notification.
  abbrev pub started : Machine W → Loop
  started m = record {
    machine = m;
    clock = 0;
    phase = waiting;
    trigger = true;
    pending = false;
    due = 0;
    backoff = second;
    failing = false;
    written = [];
  }

  -- What may happen: time passes; a notification comes; a trigger is taken; the timer fires; a pass and a
  -- sleep end.
  pub data Step : Loop → Loop → Type 0 where
    ticked : (s : Loop) → Step s (record s { clock = suc s.clock })
    notified : (s : Loop) → Step s (notify s)
    triggered : (s : Loop) → s.phase ≡ waiting → s.trigger ≡ true → Step s (on_trigger s)
    debounced :
        (s : Loop) → s.phase ≡ waiting → s.pending ≡ true → s.due ≤ s.clock → Step s (on_debounce s)
    ended : (s : Loop) → s.phase ≡ running → Step s (pass_ends s)
    slept : (until : ℕ) (s : Loop) → s.phase ≡ sleeping until → until ≤ s.clock → Step s (woken s)

  pub data Reachable (m : Machine W) : Loop → Type 0 where
    start : Reachable m (started m)
    step : (s t : Loop) → Reachable m s → Step s t → Reachable m t
