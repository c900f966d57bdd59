-- ===== src/Session/Runtime.antt =====
-- src/session/session.ts. A method is split where it awaits: each function is what runs up to the
-- next await, and the answer that it awaited is an argument of the function that continues it. The
-- driver's sockets are numbers; `events` is what was emitted, the latest first.
pub mod Connection
pub mod Lifecycle
pub mod Moves
pub mod Stopping
pub mod Disconnects
pub mod Fencing
pub mod Scanning
pub mod Invariant
pub mod EventTurns
pub mod CallTurns
pub mod Steps
pub mod Races
mod Tests
use whats_multi.Lock.{LockToken}
use whats_multi.Messaging.Queue.{SendConfig, SendQueue, new_queue}
use whats_multi.Session.State.{
  SessionState, opened, awaiting_scan, closed, connecting, SessionTrigger, disconnected, Transition,
  SessionMachine, new_machine, try_apply, is_sendable, is_pairable,
}
use whats_multi.Session.Cause.{DisconnectCause}
use whats_multi.Session.Reconnect.{ReconnectConfig, ReconnectPolicy, new_policy}
use whats_multi.Errors.{ErrorCode, Result, ok, err, client_destroyed, session_not_ready, error_of}
use whats_multi.Prelude.{
  ℕ, ◌+◌, Bool, false, Option, none, some, List, [], ◌∷◌, if◌then◌else◌, Text,
}

-- The settings that the session reads; `locks` says that there is a lock provider and that locking
-- is enabled.
pub record SessionConfig : Type 0 where
  pub reconnect : ReconnectConfig
  pub send : SendConfig
  pub qr_max_attempts : ℕ
  pub pairing_enabled : Bool
  pub locks : Bool

pub data SessionEvent : Type 0 where
  state : Transition → SessionEvent
  qr : (attempt : ℕ) → SessionEvent
  pairing_code : (code phone_number : Text) → SessionEvent
  reconnecting : (attempt delay_ms : ℕ) → DisconnectCause → SessionEvent
  logged_out : DisconnectCause → SessionEvent
  fenced : (owner : Text) → SessionEvent
  error : ErrorCode → SessionEvent

-- `attached` stands for `#detach`, the handle that takes our listener off the socket; `timer` and
-- `heartbeat` for the two timers. `opening` is true while `#openSocket` awaits its socket, and
-- `purges` counts the calls of `auth.purge()`.
pub record Session : Type 0 where
  pub session_id : Text
  pub config : SessionConfig
  pub machine : SessionMachine
  pub policy : ReconnectPolicy
  pub queue : SendQueue
  pub socket : Option ℕ
  pub attached : Bool
  pub timer : Option ℕ
  pub held : Option LockToken
  pub heartbeat : Bool
  pub suppress_reconnect : Bool
  pub destroyed : Bool
  pub qr_attempt : ℕ
  pub saw_qr : Bool
  pub pairing_pending : Bool
  pub opening : Bool
  pub purges : ℕ
  pub events : List SessionEvent

unfoldable pub new_session : Text → SessionConfig → (seed : ℕ) → Session
unfolding new_machine new_policy new_queue
new_session id config seed = record {
  session_id = id;
  config = config;
  machine = new_machine id;
  policy = new_policy config.reconnect seed;
  queue = new_queue id config.send;
  socket = none;
  attached = false;
  timer = none;
  held = none;
  heartbeat = false;
  suppress_reconnect = false;
  destroyed = false;
  qr_attempt = 0;
  saw_qr = false;
  pairing_pending = false;
  opening = false;
  purges = 0;
  events = [];
}

abbrev pub emit : SessionEvent → Session → Session
emit event s = record s { events = event ∷ s.events }

abbrev pub noted : Option Transition → List SessionEvent → List SessionEvent
noted none events = events
noted (some t) events = state t ∷ events

-- `#machine.tryApply`, whose `onTransition` emits `session.state`.
unfoldable pub try_move : SessionTrigger → Session → Session
try_move trigger s =
    let (t, machine) = try_apply s.machine trigger in
    record s { machine = machine; events = noted t s.events }

unfoldable pub assert_alive : Session → Result (Unit {0})
assert_alive s = if s.destroyed then err (error_of client_destroyed s.session_id) else ok tt

-- `#requireOpen`
unfoldable pub require_open : Session → Result ℕ
unfolding is_sendable
require_open s = elim s.socket [
  | none ↦ err (error_of session_not_ready s.session_id)
  | some socket ↦
      if is_sendable s.machine.state
      then ok socket
      else err (error_of session_not_ready s.session_id)
]

unfoldable pub clear_timer : Session → Session
clear_timer s = record s { timer = none }

unfoldable pub detach_events : Session → Session
detach_events s = record s { attached = false }

-- `#closeSocket`; a failure of `socket.end` is only logged.
unfoldable pub close_socket : Session → Session
close_socket s = record s { attached = false; socket = none }

-- `#releaseLock`; a failure of `release` is only logged.
unfoldable pub release_lock : Session → Session
release_lock s = record s { heartbeat = false; held = none }

unfoldable pub purge_auth : Session → Session
purge_auth s = record s { purges = s.purges + 1 }
