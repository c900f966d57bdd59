-- ===== src/Events.antt =====
-- src/events/emitter.ts, with the EventEmitter of Node under it: `on` appends, `off` takes the latest
-- instance of a function away, and an emit calls those that were attached when it began, in order.
-- A listener is known by a number; it returns, throws, or returns a promise that is rejected. That a
-- listener calls the bus while it runs is left out.
pub mod Laws
pub mod Twice
mod Tests
use whats_multi.Errors.{ErrorCode, listener_failed, Thrown, ours, foreign}
use whats_multi.Prelude.{
  ℕ, ◌+◌, Bool, true, false, not, ◌&&◌, ◌||◌, Option, none, some, List, [], ◌∷◌, ◌++◌, ◌==◌,
  if◌then◌else◌, length, keep, Text, codes, text_eq,
}

-- The function that `#wrap` makes, by its identity and what it closes over.
pub record Wrapper : Type 0 where
  pub ref : ℕ
  pub event : Text
  pub listener : ℕ
  pub once : Bool

-- What an event carries: the driver's data, or the code of a reported failure.
pub data Payload : Type 0 where
  plain : ℕ → Payload
  failure : ErrorCode → Payload

-- What ran, and what was logged.
pub data Trace : Type 0 where
  called : ℕ → Text → Trace
  processed : ℕ → Trace
  logged : Text → Trace

pub data Outcome : Type 0 where
  returns : Outcome
  throws : Thrown → Outcome
  rejects : Thrown → Outcome

-- `attached` is Node's, in its order; `wrappers` is the cache of `#wrap`; `traces` has the latest
-- first; `rejected` are the promises whose `catch` has still to run.
pub record Bus : Type 0 where
  pub attached : List Wrapper
  pub wrappers : List Wrapper
  pub batch_listeners : List ℕ
  pub traces : List Trace
  pub rejected : List (Thrown × Text)
  pub next_ref : ℕ

unfoldable pub new_bus : Bus
new_bus = record {
  attached = [];
  wrappers = [];
  batch_listeners = [];
  traces = [];
  rejected = [];
  next_ref = 0;
}

abbrev pub is_for : Text → ℕ → Wrapper → Bool
is_for event listener w = text_eq w.event event && w.listener == listener

-- `this.#wrappers.get(listener)?.get(event)`
unfoldable pub cached : Text → ℕ → List Wrapper → Option Wrapper
cached event listener [] = none
cached event listener (w ∷ ws) =
    let rest = cached event listener ws in if is_for event listener w then some w else rest

abbrev pub same : Wrapper → Wrapper → Bool
same v w = v.ref == w.ref && is_for v.event v.listener w

unfoldable pub present : Wrapper → List Wrapper → Bool
present v [] = false
present v (w ∷ ws) = same v w || present v ws

-- `removeListener`: the latest instance goes.
unfoldable pub remove_last : Wrapper → List Wrapper → List Wrapper
unfolding present
remove_last v [] = []
remove_last v (w ∷ ws) =
    let rest = remove_last v ws in
    if present v ws then w ∷ rest else if same v w then ws else w ∷ ws

-- `on` and `once` with `#wrap`: a wrapper that is cached is used again.
unfoldable pub register : Bool → Text → ℕ → Bus → Bus
unfolding cached
register once event listener b = elim (cached event listener b.wrappers) [
  | some w ↦ record b { attached = b.attached ++ w ∷ [] }
  | none ↦
      let w : Wrapper = record {
        ref = b.next_ref;
        event = event;
        listener = listener;
        once = once;
      } in
      record b {
        attached = b.attached ++ w ∷ [];
        wrappers = w ∷ b.wrappers;
        next_ref = b.next_ref + 1;
      }
]

unfoldable pub on : Text → ℕ → Bus → Bus
unfolding register
on event listener b = register false event listener b

unfoldable pub once : Text → ℕ → Bus → Bus
unfolding register
once event listener b = register true event listener b

unfoldable pub off : Text → ℕ → Bus → Bus
unfolding cached remove_last
off event listener b = elim (cached event listener b.wrappers) [
  | none ↦ b
  | some w ↦ record b {
    attached = remove_last w b.attached;
    wrappers = keep (λ v. not (is_for event listener v)) b.wrappers;
  }
]

-- The cache of `#wrap` stays as it is.
unfoldable pub remove_all_listeners : Option Text → Bus → Bus
remove_all_listeners none b = record b { attached = []; batch_listeners = [] }
remove_all_listeners (some event) b = record b {
  attached = keep (λ w. not (text_eq w.event event)) b.attached;
}

unfoldable pub listeners : Text → Bus → List Wrapper
listeners event b = keep (λ w. text_eq w.event event) b.attached

unfoldable pub listener_count : Text → Bus → ℕ
unfolding listeners
listener_count event b = length (listeners event b)

abbrev pub among : ℕ → List ℕ → Bool
among n [] = false
among n (x ∷ xs) = x == n || among n xs

-- `process` and the function that it returns.
unfoldable pub process : ℕ → Bus → Bus
process n b =
    if among n b.batch_listeners
    then b
    else record b { batch_listeners = b.batch_listeners ++ n ∷ [] }

unfoldable pub unprocess : ℕ → Bus → Bus
unprocess n b = record b { batch_listeners = keep (λ m. not (m == n)) b.batch_listeners }

abbrev pub error_event : Text
error_event = codes "session.error"

-- The payload of `#emitError`.
abbrev pub error_payload : Thrown → Payload
error_payload (ours e) = failure e.code
error_payload (foreign detail) = failure listener_failed

unfoldable pub trace : Trace → Bus → Bus
trace t b = record b { traces = t ∷ b.traces }

-- `#guard` with `#report` for a listener of `session.error`, whose failure is only logged.
unfoldable pub guard_error : Outcome → Bus → Bus
unfolding trace
guard_error returns b = b
guard_error (throws e) b = trace (logged error_event) b
guard_error (rejects e) b = record b { rejected = b.rejected ++ (e, error_event) ∷ [] }

-- The wrapper's own body, up to the guard.
unfoldable pub enter : Wrapper → Bus → Bus
unfolding off trace
enter w b = trace (called w.listener w.event) (if w.once then off w.event w.listener b else b)

module _ (behave : ℕ → Text → Payload → Outcome) (behave_batch : ℕ → Outcome) where
  unfoldable pub run_errors : List Wrapper → Payload → Bus → Bus
  unfolding guard_error enter
  run_errors [] p b = b
  run_errors (w ∷ ws) p b =
      run_errors ws p (guard_error (behave w.listener error_event p) (enter w b))

  -- `#report`
  unfoldable pub report : Thrown → Text → Bus → Bus
  unfolding run_errors trace listeners
  report e source b =
      let l = trace (logged source) b in
      if text_eq source error_event
      then l
      else run_errors (listeners error_event l) (error_payload e) l

  -- `#guard`
  unfoldable pub guard : Outcome → Text → Bus → Bus
  unfolding report
  guard returns source b = b
  guard (throws e) source b = report e source b
  guard (rejects e) source b = record b { rejected = b.rejected ++ (e, source) ∷ [] }

  -- Node's `emit` over the listeners that it began with.
  unfoldable pub run : Text → Payload → List Wrapper → Bus → Bus
  unfolding guard enter
  run event p [] b = b
  run event p (w ∷ ws) b = run event p ws (guard (behave w.listener event p) event (enter w b))

  unfoldable pub run_batch : List ℕ → Bus → Bus
  unfolding guard trace
  run_batch [] b = b
  run_batch (n ∷ ns) b =
      run_batch ns (guard (behave_batch n) (codes "process") (trace (processed n) b))

  -- The entries of a batch, one whose data is undefined being passed over.
  unfoldable pub run_events : List (Text × Option Payload) → Bus → Bus
  unfolding run listeners
  run_events [] b = b
  run_events ((event, none) ∷ rest) b = run_events rest b
  run_events ((event, some p) ∷ rest) b = run_events rest (run event p (listeners event b) b)

  unfoldable pub emit_batch : List (Text × Option Payload) → Bus → Bus
  unfolding run_events run_batch
  emit_batch events b = let l = run_events events b in run_batch l.batch_listeners l

  unfoldable pub emit : Text → Payload → Bus → Bus
  unfolding emit_batch
  emit event p b = emit_batch ((event, some p) ∷ []) b

  -- The `catch` of the promise that was rejected first.
  unfoldable pub settle : Bus → Bus
  unfolding report
  settle b = after b.rejected
    where
      after : List (Thrown × Text) → Bus
      after [] = b
      after ((e, source) ∷ rest) = report e source (record b { rejected = rest })
