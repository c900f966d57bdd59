-- ===== src/Session/Runtime/Connection.antt =====
-- src/session/session.ts: opening the socket, the driver's events, and reconnecting.
use whats_multi.Session.State.{
  SessionState, closed, connecting, SessionTrigger, disconnected, connected, reconnect,
  qr_exhausted,
}
use whats_multi.Session.Cause.{
  DisconnectDecision, DriverError, decide_disconnect, disconnect_trigger,
}
use whats_multi.Session.Reconnect.{ReconnectPlan, retry, refuse, plan, reset}
use whats_multi.Session.Runtime.{
  Session, SessionEvent, emit, try_move, close_socket, detach_events, purge_auth,
}
use whats_multi.Errors.{session_failed}
use whats_multi.Prelude.{
  ℕ, ◌+◌, Bool, true, false, not, ◌||◌, none, some, List, [], ◌∷◌, ltb, if◌then◌else◌,
}

-- `#openSocket` up to its await of the socket.
unfoldable pub open_socket : Session → Session
open_socket s = record s { suppress_reconnect = false; opening = true }

-- `#openSocket` when the factory has made the socket.
unfoldable pub socket_opened : ℕ → Session → Session
socket_opened socket s = record s { opening = false; socket = some socket; attached = true }

-- When it has failed during `start`: `start` rethrows after this.
unfoldable pub open_failed : Session → Session
open_failed s = try_move disconnected (record s { opening = false })

-- When it has failed during a reconnect, which reports the error.
unfoldable pub reopen_failed : Session → Session
reopen_failed s =
    emit (SessionEvent.error session_failed) (try_move disconnected (record s { opening = false }))

unfoldable pub on_qr : Session → Session
on_qr s =
    let seen : Session = record s {
      saw_qr = true;
      pairing_pending = false;
      qr_attempt = s.qr_attempt + 1;
    } in
    let s' = try_move SessionTrigger.qr seen in
    if ltb s.config.qr_max_attempts s'.qr_attempt
    then close_socket (try_move qr_exhausted (record s' { suppress_reconnect = true }))
    else if not s.config.pairing_enabled
    then emit (SessionEvent.qr s'.qr_attempt) s'
    else s'

unfoldable pub on_open : Session → Session
unfolding reset
on_open s =
    let s' = try_move connected s in
    record s' { policy = reset s'.policy; qr_attempt = 0; pairing_pending = false }

abbrev pub planned : ReconnectPlan → Session → Session
planned (refuse cause reason) s = s
planned (retry cause attempt delay) s =
    let s' = emit (SessionEvent.reconnecting attempt delay cause) s in
    record s' { timer = some delay }

-- `#onClose` for a cause that has been resolved.
unfoldable pub close_with : DisconnectDecision → Session → Session
close_with decision s =
    let moved = try_move (disconnect_trigger decision.cause s.machine.state) s in
    let gone : Session = record (detach_events moved) { socket = none } in
    let s' =
      if decision.purge_creds
      then emit (SessionEvent.logged_out decision.cause) (purge_auth gone)
      else gone in
    if s'.suppress_reconnect
    then s'
    else let (result, policy) = plan s'.policy decision.cause in
      planned result (record s' { policy = policy })

unfoldable pub on_close : DriverError → Session → Session
unfolding decide_disconnect
on_close error s = close_with (decide_disconnect error) s

-- What the driver's batches bring: a QR, an open connection, a closed one.
pub data DriverEvent : Type 0 where
  scanned opened : DriverEvent
  closed_by : DriverError → DriverEvent

abbrev pub handle : DriverEvent → Session → Session
handle scanned s = on_qr s
handle opened s = on_open s
handle (closed_by error) s = on_close error s

-- An event of the session's socket, heard while the listener of `#openSocket` is on it.
unfoldable pub deliver : DriverEvent → Session → Session
unfolding on_qr on_open on_close
deliver e s = if s.attached then handle e s else s

unfoldable pub deliver_all : List DriverEvent → Session → Session
unfolding deliver
deliver_all [] s = s
deliver_all (e ∷ es) s = deliver_all es (deliver e s)

abbrev pub is_closed : SessionState → Bool
is_closed closed = true
is_closed _ = false

abbrev pub is_connecting : SessionState → Bool
is_connecting connecting = true
is_connecting _ = false

-- The reconnect timer has fired.
unfoldable pub reconnect_fired : Session → Session
reconnect_fired s =
    let fired : Session = record s { timer = none } in
    if fired.suppress_reconnect || fired.destroyed
    then fired
    else let s' = if is_closed fired.machine.state then try_move reconnect fired else fired in
      if is_connecting s'.machine.state then open_socket s' else s'
