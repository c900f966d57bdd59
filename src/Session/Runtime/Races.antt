-- ===== src/Session/Runtime/Races.antt =====
-- Calls that arrive while another call awaits. Each is stated for every session that can be there.
use whats_multi.Lock.{LockToken}
use whats_multi.Session.State.{connecting, closed, apply, next_state}
use whats_multi.Session.Runtime.{Session, assert_alive, clear_timer, detach_events}
use whats_multi.Session.Runtime.Connection.{
  DriverEvent, handle, deliver, deliver_all, open_socket, socket_opened, reconnect_fired,
}
use whats_multi.Session.Runtime.Lifecycle.{
  start_session, lock_answered, stop_session, logout_begin, logout_refused, on_fenced, needs_lock,
}
use whats_multi.Session.Runtime.Stopping.{stop_rests}
use whats_multi.Session.Runtime.Disconnects.{fired_opens}
use whats_multi.Session.Runtime.Fencing.{on_fenced-state, on_fenced-HasGivenUp, HasGivenUp}
use whats_multi.Errors.{ok}
use whats_multi.Prelude.{
  ℕ, ◌≡◌, refl, sym, ap, ◌∙◌, true, false, none, some, List, [], ◌∷◌, arith, if◌then◌else◌, Text,
}

-- A stop that completes while `start` awaits the lock does not hold: from a session that was
-- connecting, the answers that `start` still gets leave it with a socket and the lock, in `closed`.
pub stop_during_lock :
    (s : Session) (token : LockToken) (socket : ℕ)
    → s.machine.state ≡ connecting
    → let s' = socket_opened socket (lock_answered (some token) (stop_session s)).1 in
      (s'.machine.state ≡ closed)
      × (s'.socket ≡ some socket)
      × (s'.attached ≡ true)
      × (s'.held ≡ some token)
      × (s'.heartbeat ≡ true)
      × (s'.suppress_reconnect ≡ false)
unfolding socket_opened lock_answered open_socket
stop_during_lock s token socket here = ground (arith, stop_rests s)

-- A session that is fenced while it awaits a socket still takes that socket: it then has a socket
-- and a listener without the lock.
fenced_during_open :
    (s : Session) (owner : Text) (socket : ℕ)
    → s.machine.state ≡ connecting
    → let s' = socket_opened socket (on_fenced owner s) in
      (s'.machine.state ≡ closed)
      × (s'.socket ≡ some socket)
      × (s'.attached ≡ true)
      × (s'.held ≡ none)
unfolding socket_opened HasGivenUp
fenced_during_open s owner socket here =
    ground (arith, on_fenced-state owner s, on_fenced-HasGivenUp owner s)

started :
    (s : Session) {s' : Session}
    → s.machine.state ≡ closed
    → needs_lock s ≡ false
    → start_session s ≡ ok s'
    → (s'.timer ≡ s.timer)
      × (s'.machine.state ≡ connecting)
      × (s'.suppress_reconnect ≡ false)
      × (s'.destroyed ≡ false)
unfolding start_session assert_alive apply next_state open_socket
started s here unlocked h = ground arith

-- `start` during a backoff leaves the reconnect timer armed: when it fires, a second socket is
-- asked for while the first is there.
start_during_backoff :
    (s : Session) {s' : Session} (delay socket : ℕ)
    → s.machine.state ≡ closed
    → s.timer ≡ some delay
    → needs_lock s ≡ false
    → start_session s ≡ ok s'
    → let fired = reconnect_fired (socket_opened socket s') in
      (s'.timer ≡ some delay)
      × (fired.machine.state ≡ connecting)
      × (fired.socket ≡ some socket)
      × (fired.opening ≡ true)
unfolding socket_opened
start_during_backoff s {s' = s'} delay socket here armed unlocked h =
    let begun = started s here unlocked h in
    ground (
      arith,
      begun,
      fired_opens (socket_opened socket s') (ground (arith, begun)) (ground (arith, begun))
          (ground (arith, begun)),
    )

refused_fields :
    (s : Session) {s' : Session}
    → logout_begin s ≡ ok s'
    → let refused = logout_refused s' in
      (refused.machine ≡ s.machine)
      × (refused.socket ≡ s.socket)
      × (refused.events ≡ s.events)
      × (refused.timer ≡ none)
      × (refused.suppress_reconnect ≡ false)
      × (refused.attached ≡ false)
unfolding logout_begin logout_refused clear_timer detach_events
refused_fields s h = ground arith

unheard : (es : List DriverEvent) (s : Session) → s.attached ≡ false → deliver_all es s ≡ s
unfolding deliver_all deliver
unheard [] s deaf = refl
unheard (e ∷ es) s deaf =
    sym (ap (λ b. deliver_all es (if b then handle e s else s)) (sym deaf)) ∙ unheard es s deaf

-- A logout that the driver refuses leaves the session in its state and with its socket, and no later
-- event of the driver changes anything any more, not even that the connection has closed.
pub logout_refused_deaf :
    (s : Session) {s' : Session} (es : List DriverEvent)
    → logout_begin s ≡ ok s'
    → let later = deliver_all es (logout_refused s') in
      (later ≡ logout_refused s')
      × (later.machine ≡ s.machine)
      × (later.socket ≡ s.socket)
      × (later.events ≡ s.events)
      × (later.timer ≡ none)
      × (later.suppress_reconnect ≡ false)
unfolding logout_begin logout_refused
logout_refused_deaf s {s' = s'} es h =
    let (machine, socket, events, timer, suppressed, deaf) = refused_fields s h in
    rw (unheard es (logout_refused s') deaf) (refl, machine, socket, events, timer, suppressed)
