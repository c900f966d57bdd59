-- ===== src/Session/Runtime/Tests.antt =====
-- One session, `desk`, through its life: `live` is open over socket 7 with a lock until 9000.
use whats_multi.Lock.{LockToken}
use whats_multi.Messaging.Queue.{push, pump, new_queue}
use whats_multi.Messaging.Jid.{normalize_phone_number}
use whats_multi.Session.State.{
  idle, SessionState, connecting, awaiting_scan, opened, closed, Transition, start, apply,
  next_state, is_sendable, is_pairable,
}
use whats_multi.Session.Cause.{
  connection_lost, logged_out, decision_for, disconnect_actions, purges_creds,
}
use whats_multi.Session.Reconnect.{plan, plan_backoff, new_policy}
use whats_multi.Session.Runtime.{
  Session, SessionConfig, SessionEvent, new_session, assert_alive, require_open,
}
use whats_multi.Session.Runtime.Connection.{
  DriverEvent, closed_by, deliver_all, open_socket, socket_opened, close_with, reconnect_fired,
}
use whats_multi.Session.Runtime.Lifecycle.{
  start_session, lock_answered, stop_session, logout_begin, logout_refused, lost, renew_begin,
  renew_answered, send, pairing_begin,
}
use whats_multi.Session.Runtime.Stopping.{AtRest, stop_rests}
use whats_multi.Session.Runtime.Disconnects.{purging_close, retried_close_reopens}
use whats_multi.Session.Runtime.Fencing.{Decided, renewal_decides}
use whats_multi.Session.Runtime.Steps.{locks}
use whats_multi.Session.Runtime.Races.{stop_during_lock, logout_refused_deaf}
use whats_multi.Utils.Random.{mulberry32}
use whats_multi.Utils.Backoff.{backoff_delay, exp_ms}
use whats_multi.Errors.{ok}
use whats_multi.Prelude.{◌≡◌, refl, ◌↔◌, inr, true, false, none, some, List, [], ◌∷◌, Text, codes}

abbrev settings : SessionConfig
settings = record {
  reconnect = record {
    enabled = true;
    backoff = record { base_ms = 1000; cap_ms = 60000; floor_ms = 250 };
    max_attempts = 0;
  };
  send = record { concurrency = 1; min_delay_ms = 0; timeout_ms = 60000; max_queue = 10 };
  qr_max_attempts = 5;
  pairing_enabled = true;
  locks = true;
}

abbrev desk : Text
desk = codes "desk"

abbrev token : LockToken
token = record {
  key = codes "session:desk";
  token = codes "t1";
  owner = codes "a1";
  expires_at = 9000;
}

-- The session in a state, with a socket and the lock.
abbrev in_state : SessionState → Session
in_state st = record (new_session desk settings 1) {
  machine = record { session_id = desk; state = st; notified = [] };
  socket = some 7;
  attached = true;
  held = some token;
  heartbeat = true;
  saw_qr = true;
}

abbrev live : Session
live = in_state opened

stop_rests_example : AtRest (stop_session live) × ((stop_session live).machine.state ≡ closed)
unfolding new_session
stop_rests_example = stop_rests live

abbrev stopped_desk : Session
stopped_desk = stop_session live

purging_close_example :
    let s' = close_with (decision_for logged_out) live in
    (s'.machine.state ≡ SessionState.logged_out)
    × (s'.socket ≡ none)
    × (s'.attached ≡ false)
    × (s'.purges ≡ 1)
    × (s'.timer ≡ none)
    × (s'.policy ≡ live.policy)
    × (s'.held ≡ some token)
unfolding new_session purges_creds
purging_close_example = purging_close logged_out live (inr (inr refl)) refl

-- The first draw of the seed 1 is 720 ms (spec/vectors/backoff.json).
retried_close_reopens_example :
    let s' = close_with (decision_for connection_lost) live in
    let fired = reconnect_fired s' in
    (s'.timer ≡ some 720)
    × (s'.socket ≡ none)
    × (s'.held ≡ some token)
    × (s'.purges ≡ 0)
    × (fired.machine.state ≡ connecting)
    × (fired.opening ≡ true)
    × (fired.timer ≡ none)
    × (fired.socket ≡ none)
    × (fired.held ≡ some token)
    × (fired.purges ≡ 0)
unfolding new_session plan plan_backoff new_policy decision_for disconnect_actions purges_creds
    mulberry32 backoff_delay exp_ms
retried_close_reopens_example =
    retried_close_reopens connection_lost live (inr (inr refl)) refl refl refl

-- The answer for `token` comes after a stop.
renewal_decides_example :
    ((renew_begin live).0 ≡ some token
      ↔ ((live.held ≡ some token) × (live.destroyed ≡ false) × (live.config.locks ≡ true)))
    × ((renew_begin live).1 ≡ record live { heartbeat = false })
    × Decided lost 5000 token stopped_desk
        (renew_answered lost (codes "b1") 5000 token stopped_desk)
unfolding new_session
renewal_decides_example = renewal_decides lost (codes "b1") 5000 token live stopped_desk

abbrev fresh_token : LockToken
fresh_token = record token { expires_at = 14000 }

stop_during_lock_example :
    let s' = socket_opened 8 (lock_answered (some token) (stop_session (in_state connecting))).1 in
    (s'.machine.state ≡ closed)
    × (s'.socket ≡ some 8)
    × (s'.attached ≡ true)
    × (s'.held ≡ some token)
    × (s'.heartbeat ≡ true)
    × (s'.suppress_reconnect ≡ false)
stop_during_lock_example = stop_during_lock (in_state connecting) token 8 refl

-- `desk` waits for its reconnect timer, and is started by hand.
abbrev waiting : Session
waiting = record (in_state closed) { socket = none; attached = false; timer = some 720 }

abbrev restart : Transition
restart = record { from = closed; to = connecting; trigger = start }

abbrev restarted : Session
restarted = record waiting {
  machine = record { session_id = desk; state = connecting; notified = restart ∷ [] };
  opening = true;
  events = SessionEvent.state restart ∷ [];
}

start_waiting : start_session waiting ≡ ok restarted
unfolding start_session assert_alive apply next_state open_socket new_session new_queue
start_waiting = refl

abbrev unlinking : Session
unlinking = record live { suppress_reconnect = true; timer = none; attached = false }

logout_live : logout_begin live ≡ ok unlinking
unfolding logout_begin assert_alive require_open is_sendable new_session
logout_live = refl

abbrev closes : List DriverEvent
closes =
    closed_by (record {
      output_status = some 428;
      direct_status = none;
      message = codes "Connection Terminated";
    })
    ∷ []

logout_refused_deaf_example :
    let later = deliver_all closes (logout_refused unlinking) in
    (later ≡ logout_refused unlinking)
    × (later.machine ≡ live.machine)
    × (later.socket ≡ some 7)
    × (later.events ≡ live.events)
    × (later.timer ≡ none)
    × (later.suppress_reconnect ≡ false)
logout_refused_deaf_example = logout_refused_deaf live closes logout_live

-- Job 31 is sent over the empty queue, and starts at once.
abbrev sending : Session
sending = record live {
  queue = record live.queue {
    running = 1;
    last_start = some 100;
    accepted = 31 ∷ [];
    started = record { job = 31; start = 100; wait = 0 } ∷ [];
  };
}

send_live : send 31 100 100 live ≡ ok sending
unfolding send assert_alive require_open is_sendable push pump new_session new_queue
send_live = refl

abbrev scanning : Session
scanning = in_state awaiting_scan

abbrev number : Text
number = codes "15551234567"

pairing_scanning : pairing_begin number scanning ≡ ok (record scanning { pairing_pending = true })
unfolding pairing_begin normalize_phone_number assert_alive is_pairable new_session
pairing_scanning = refl

-- `desk` from its creation to `open`.
abbrev begin : Transition
begin = record { from = idle; to = connecting; trigger = start }

abbrev created : Session
created = new_session desk settings 1

abbrev begun : Session
begun = record created {
  machine = record { session_id = desk; state = connecting; notified = begin ∷ [] };
  events = SessionEvent.state begin ∷ [];
}
