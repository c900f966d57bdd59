-- ===== src/Session/Runtime/Lifecycle.antt =====
-- src/session/session.ts: start, stop, logout, remove, reset, destroy, send and the lock.
use whats_multi.Lock.{LockToken}
use whats_multi.Messaging.Queue.{new_queue, push, close}
use whats_multi.Messaging.Jid.{normalize_phone_number}
use whats_multi.Session.State.{
  SessionTrigger, disconnected, start, stop, stopped, apply, is_pairable,
}
use whats_multi.Session.Cause
use whats_multi.Session.Reconnect
use whats_multi.Session.Runtime.{
  Session, SessionEvent, emit, try_move, assert_alive, require_open, clear_timer, detach_events,
  close_socket, release_lock, purge_auth,
}
use whats_multi.Session.Runtime.Connection.{open_socket}
use whats_multi.Errors.{
  Result, ok, err, session_locked, pairing_unavailable, pairing_in_progress, error_of,
}
use whats_multi.Prelude.{
  ℕ, Bool, true, false, not, ◌&&◌, ◌||◌, Option, none, some, ◌∷◌, ltb, if◌then◌else◌, Text,
}

-- `#machine.apply`, which throws where `tryApply` would return null.
abbrev move : SessionTrigger → Session → Result Session
move trigger s = elim (apply s.machine trigger) [
  | err e ↦ err e
  | ok (t, machine) ↦ ok (record s { machine = machine; events = SessionEvent.state t ∷ s.events })
]

-- Whether `#acquireLock` goes to the provider.
abbrev pub needs_lock : Session → Bool
needs_lock s = s.config.locks && (elim s.held [ none ↦ true | some t ↦ false ])

-- `start` up to its first await: the provider's answer, or the socket when no lock is needed.
unfoldable pub start_session : Session → Result Session
unfolding assert_alive apply open_socket
start_session s = elim (assert_alive s) [
  | err e ↦ err e
  | ok _ ↦ elim (move start s) [
    | err e ↦ err e
    | ok s' ↦
        let ready : Session = record s' {
          queue = if s'.queue.closed then new_queue s'.session_id s'.config.send else s'.queue;
        } in
        ok (if needs_lock ready then ready else open_socket ready)
  ]
]

-- The provider's answer to `acquire`: with the lock the heartbeat starts and the socket is opened,
-- without it `start` fails with SESSION_LOCKED.
unfoldable pub lock_answered : Option LockToken → Session → Result Session × Session
unfolding open_socket
lock_answered none s = (err (error_of session_locked s.session_id), try_move disconnected s)
lock_answered (some token) s =
    let s' = open_socket (record s { held = some token; heartbeat = true }) in (ok s', s')

-- `stop` up to its wait for the sends that are running.
unfoldable pub stop_begin : Session → Session
unfolding clear_timer
stop_begin s =
    let s' = try_move stop (clear_timer (record s { suppress_reconnect = true })) in
    record s' { queue = close s'.queue }

-- And from there on.
unfoldable pub stop_end : Session → Session
unfolding close_socket release_lock
stop_end s = try_move stopped (release_lock (close_socket s))

-- `stop` when nothing else happens while it waits.
unfoldable pub stop_session : Session → Session
unfolding stop_begin stop_end
stop_session s = stop_end (stop_begin s)

-- `logout` up to its wait for the driver.
unfoldable pub logout_begin : Session → Result Session
unfolding assert_alive require_open clear_timer detach_events
logout_begin s = elim (assert_alive s) [
  | err e ↦ err e
  | ok _ ↦ elim (require_open s) [
    | err e ↦ err e
    | ok socket ↦ ok (detach_events (clear_timer (record s { suppress_reconnect = true })))
  ]
]

-- The driver has failed to unlink: `logout` throws LOGOUT_FAILED after this.
unfoldable pub logout_refused : Session → Session
logout_refused s = record s { suppress_reconnect = false }

-- The driver has unlinked the device.
unfoldable pub logout_done : Session → Session
unfolding close_socket release_lock purge_auth
logout_done s =
    emit (SessionEvent.logged_out Cause.logged_out)
      (purge_auth (try_move SessionTrigger.logged_out (release_lock (close_socket s))))

unfoldable pub remove_session : Session → Session
unfolding stop_session purge_auth
remove_session s = purge_auth (stop_session s)

unfoldable pub reset_session : Session → Result Session
unfolding assert_alive apply Reconnect.reset
reset_session s = elim (assert_alive s) [
  | err e ↦ err e
  | ok _ ↦ elim (move SessionTrigger.reset s) [
    | err e ↦ err e
    | ok s' ↦ ok (record s' { qr_attempt = 0; saw_qr = false; policy = Reconnect.reset s'.policy })
  ]
]

unfoldable pub destroy_session : Session → Session
unfolding stop_session
destroy_session s = if s.destroyed then s else stop_session (record s { destroyed = true })

-- `send`: the checks on the way in, then the queue of the session.
unfoldable pub send : (job now later : ℕ) → Session → Result Session
unfolding assert_alive require_open push
send job now later s = elim (assert_alive s) [
  | err e ↦ err e
  | ok _ ↦ elim (require_open s) [
    | err e ↦ err e
    | ok socket ↦ elim (push job now later s.queue) [
      | err e ↦ err e
      | ok queue ↦ ok (record s { queue = queue })
    ]
  ]
]

-- `requestPairingCode` up to its call of the driver, with the phone number.
unfoldable pub pairing_begin : Text → Session → Result Session
unfolding assert_alive is_pairable
pairing_begin phone s = elim (assert_alive s) [
  | err e ↦ err e
  | ok _ ↦ elim s.socket [
    | none ↦ err (error_of pairing_unavailable s.session_id)
    | some socket ↦
        if not (is_pairable s.machine.state) || not s.saw_qr
        then err (error_of pairing_unavailable s.session_id)
        else if s.pairing_pending
        then err (error_of pairing_in_progress s.session_id)
        else elim (normalize_phone_number phone) [
          | err e ↦ err e
          | ok d ↦ ok (record s { pairing_pending = true })
        ]
  ]
]

-- What the driver has answered to it: a code, or a failure that is rethrown.
unfoldable pub pairing_answered : Option Text → (digits : Text) → Session → Session
pairing_answered none digits s = record s { pairing_pending = false }
pairing_answered (some code) digits s = emit (SessionEvent.pairing_code code digits) s

-- `#onFenced`, where `owner` is what `inspect` names.
unfoldable pub on_fenced : Text → Session → Session
unfolding close_socket clear_timer
on_fenced owner s =
    let lost : Session = record s { held = none; suppress_reconnect = true; heartbeat = false } in
    emit (SessionEvent.fenced owner)
      (close_socket (try_move SessionTrigger.fenced (clear_timer lost)))

-- The provider's answer to `renew`: the refreshed token, null, or an error.
pub data Renewal : Type 0 where
  renewed : LockToken → Renewal
  lost : Renewal
  unanswered : Renewal

-- `#renew` up to its await: the token that it asks for, none if it returns.
unfoldable pub renew_begin : Session → Option LockToken × Session
renew_begin s =
    let fired : Session = record s { heartbeat = false } in
    (if s.destroyed || not s.config.locks then none else s.held, fired)

-- `#renew` from the answer on, with the token that was asked for and the clock reading of the
-- `catch`. What the session has become meanwhile is not looked at.
unfoldable pub renew_answered : Renewal → Text → ℕ → LockToken → Session → Session
unfolding on_fenced
renew_answered (renewed token) owner now asked s = record s { held = some token; heartbeat = true }
renew_answered lost owner now asked s = on_fenced owner s
renew_answered unanswered owner now asked s =
    if ltb asked.expires_at now then on_fenced owner s else record s { heartbeat = true }
