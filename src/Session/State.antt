-- ===== src/Session/State.antt =====
-- src/session/state.ts over the tables of src/generated/states.ts.
pub mod Laws
pub mod Traces
use whats_multi.Errors.{Result, ok, err, illegal_transition, error_of}
use whats_multi.Prelude.{Bool, true, false, Option, none, some, List, [], ◌∷◌, if◌then◌else◌, Text}

-- `opened` is the state `open`, a reserved word here.
pub data SessionState : Type 0 where
  idle connecting awaiting_scan opened closing closed logged_out : SessionState

pub data SessionTrigger : Type 0 where
  connected disconnected fenced logged_out qr qr_exhausted reconnect reset : SessionTrigger
  restart_required start stop stopped : SessionTrigger

abbrev pub initial_state : SessionState
initial_state = idle

-- TRANSITIONS; anything absent is an illegal move.
abbrev pub transitions : SessionState → SessionTrigger → Option SessionState
transitions idle start = some connecting
transitions connecting qr = some awaiting_scan
transitions connecting connected = some opened
transitions connecting stop = some closing
transitions connecting disconnected = some closed
transitions connecting fenced = some closed
transitions connecting SessionTrigger.logged_out = some SessionState.logged_out
transitions awaiting_scan restart_required = some connecting
transitions awaiting_scan connected = some opened
transitions awaiting_scan qr = some awaiting_scan
transitions awaiting_scan stop = some closing
transitions awaiting_scan disconnected = some closed
transitions awaiting_scan qr_exhausted = some closed
transitions awaiting_scan fenced = some closed
transitions awaiting_scan SessionTrigger.logged_out = some SessionState.logged_out
transitions opened stop = some closing
transitions opened disconnected = some closed
transitions opened fenced = some closed
transitions opened SessionTrigger.logged_out = some SessionState.logged_out
transitions closing stopped = some closed
transitions closed start = some connecting
transitions closed reconnect = some connecting
transitions closed SessionTrigger.logged_out = some SessionState.logged_out
transitions SessionState.logged_out reset = some idle
transitions _ _ = none

unfoldable pub next_state : SessionState → SessionTrigger → Option SessionState
next_state from trigger = transitions from trigger

-- SENDABLE_STATES, PAIRABLE_STATES and TERMINAL_STATES have one entry each.
unfoldable pub is_sendable : SessionState → Bool
is_sendable opened = true
is_sendable _ = false

unfoldable pub is_pairable : SessionState → Bool
is_pairable awaiting_scan = true
is_pairable _ = false

unfoldable pub is_terminal : SessionState → Bool
is_terminal SessionState.logged_out = true
is_terminal _ = false

pub record Transition : Type 0 where
  pub from : SessionState
  pub to : SessionState
  pub trigger : SessionTrigger

-- `notified` lists what `onTransition` was called with, the latest first.
pub record SessionMachine : Type 0 where
  pub session_id : Text
  pub state : SessionState
  pub notified : List Transition

-- The constructor, behind its check of the id (Config.is_valid_session_id).
unfoldable pub new_machine : Text → SessionMachine
new_machine id = record { session_id = id; state = initial_state; notified = [] }

unfoldable pub can : SessionMachine → SessionTrigger → Bool
unfolding next_state
can m trigger = elim (next_state m.state trigger) [ none ↦ false | some to ↦ true ]

unfoldable pub apply : SessionMachine → SessionTrigger → Result (Transition × SessionMachine)
unfolding next_state
apply m trigger = elim (next_state m.state trigger) [
  | none ↦ err (error_of illegal_transition m.session_id)
  | some to ↦
      let transition : Transition = record { from = m.state; to = to; trigger = trigger } in
      ok (transition, record m { state = to; notified = transition ∷ m.notified })
]

abbrev applied :
    SessionMachine → Result (Transition × SessionMachine) → Option Transition × SessionMachine
applied m (ok (transition, m')) = (some transition, m')
applied m (err e) = (none, m)

unfoldable pub try_apply : SessionMachine → SessionTrigger → Option Transition × SessionMachine
unfolding can apply
try_apply m trigger = if can m trigger then applied m (apply m trigger) else (none, m)
