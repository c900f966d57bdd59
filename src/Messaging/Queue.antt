-- ===== src/Messaging/Queue.antt =====
-- src/messaging/queue.ts. A job is a number; what its task does is the environment's, which reports
-- its end by `finish`. `accepted`, `started` and `rejected` record what callers can observe.
pub mod Invariant
pub mod Scheduling
mod Tests
use whats_multi.Errors.{Result, ok, err, send_failed, error_of}
use whats_multi.Prelude.{
  ℕ, ◌+◌, ◌-◌, ◌*◌, ◌<◌, max, ◌≡◌, Bool, true, false, ◌&&◌, Option, none, some, List, [], ◌∷◌, ◌++◌,
  leb, ◌==◌, if◌then◌else◌, length, is_empty, Text,
}

-- SendConfig of src/config.ts.
pub record SendConfig : Type 0 where
  pub concurrency : ℕ
  pub min_delay_ms : ℕ
  pub timeout_ms : ℕ
  pub max_queue : ℕ

-- A job that took a slot, the start that was reserved for it, and how long it slept first.
pub record Launch : Type 0 where
  pub job : ℕ
  pub start : ℕ
  pub wait : ℕ

pub record SendQueue : Type 0 where
  pub session_id : Text
  pub config : SendConfig
  pub open config use *
  pub waiting : List ℕ
  pub running : ℕ
  pub last_start : Option ℕ  -- none for -Infinity
  pub closed : Bool
  pub idle_waiters : ℕ  -- pending `drain` calls
  pub drained : ℕ  -- `drain` calls that have resolved
  pub accepted : List ℕ  -- in order of `push`
  pub started : List Launch  -- the latest first
  pub rejected : List ℕ  -- by `close`, in order

unfoldable pub new_queue : Text → SendConfig → SendQueue
new_queue session_id config = record {
  session_id = session_id;
  config = config;
  waiting = [];
  running = 0;
  last_start = none;
  closed = false;
  idle_waiters = 0;
  drained = 0;
  accepted = [];
  started = [];
  rejected = [];
}

unfoldable pub size : SendQueue → ℕ
size q = length q.waiting

unfoldable pub is_idle : SendQueue → Bool
is_idle q = q.running == 0 && is_empty q.waiting

-- `Math.max(now, lastStart + minDelayMs)`
abbrev pub start_at : Option ℕ → ℕ → ℕ → ℕ
start_at none delay now = now
start_at (some last) delay now = max now (last + delay)

abbrev launch : List ℕ → (now later : ℕ) → SendQueue → SendQueue
launch [] now later q = q
launch (job ∷ rest) now later q =
    let start = start_at q.last_start q.min_delay_ms now in
    record q {
      waiting = rest;
      running = q.running + 1;
      last_start = some start;
      started = record { job = job; start = start; wait = start - later } ∷ q.started;
    }

-- The part of `#pump` up to the job's run; `now` and `later` are its two clock readings.
unfoldable pub pump : (now later : ℕ) → SendQueue → SendQueue
pump now later q = if leb q.concurrency q.running then q else launch q.waiting now later q

unfoldable pub settle_idle : SendQueue → SendQueue
settle_idle q =
    if is_idle q then record q { idle_waiters = 0; drained = q.drained + q.idle_waiters } else q

unfoldable pub push : ℕ → (now later : ℕ) → SendQueue → Result SendQueue
push job now later q =
    if q.closed
    then err (error_of send_failed q.session_id)
    else if leb q.max_queue (length q.waiting)
    then err (error_of send_failed q.session_id)
    else ok (
        pump now later
          (record q { waiting = q.waiting ++ job ∷ []; accepted = q.accepted ++ job ∷ [] }))

-- The `finally` of `#pump`, when the run of a job has ended in whatever way.
unfoldable pub finish : (now later : ℕ) → SendQueue → SendQueue
finish now later q =
    let q' : SendQueue = record q { running = q.running - 1 } in
    if is_empty q'.waiting then settle_idle q' else pump now later q'

unfoldable pub drain : SendQueue → SendQueue
drain q =
    if is_idle q
    then record q { drained = q.drained + 1 }
    else record q { idle_waiters = q.idle_waiters + 1 }

unfoldable pub close : SendQueue → SendQueue
close q = settle_idle (record q { closed = true; waiting = []; rejected = q.rejected ++ q.waiting })

-- What can happen to a queue: a call, or the end of a job that runs.
pub data Step : SendQueue → SendQueue → Type 0 where
  pushes : {q q' : SendQueue} (job now later : ℕ) → push job now later q ≡ ok q' → Step q q'
  finishes : {q : SendQueue} (now later : ℕ) → 0 < q.running → Step q (finish now later q)
  drains : {q : SendQueue} → Step q (drain q)
  closes : {q : SendQueue} → Step q (close q)

pub data Reach (q : SendQueue) : SendQueue → Type 0 where
  here : Reach q q
  next : {r s : SendQueue} → Reach q r → Step r s → Reach q s
