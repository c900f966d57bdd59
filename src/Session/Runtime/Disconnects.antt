-- ===== src/Session/Runtime/Disconnects.antt =====
-- What a disconnect does to the session, up to the reconnect it causes.
use whats_multi.Session.State.{
  SessionState, SessionMachine, connecting, awaiting_scan, opened, closed, next_state, try_apply,
  can, apply,
}
use whats_multi.Session.Cause.{
  DisconnectCause, DisconnectDecision, purges_creds, decision_for, disconnect_trigger,
}
use whats_multi.Session.Cause.Laws.{disconnect_lands}
use whats_multi.Session.Reconnect.{ReconnectPolicy, ReconnectRefusal, retry, refuse, plan}
use whats_multi.Session.Runtime.{Session, try_move, detach_events, purge_auth}
use whats_multi.Session.Runtime.Connection.{close_with, reconnect_fired, open_socket}
use whats_multi.Session.Runtime.Moves.{landing, try_move_state}
use whats_multi.Prelude.{ℕ, ◌+◌, ◌≡◌, refl, ap, ◌∙◌, ◌⊎◌, true, false, none, some, arith}

-- The states in which the session has a socket.
abbrev pub IsLive : SessionState → Type 0
IsLive st = (st ≡ connecting) ⊎ (st ≡ awaiting_scan) ⊎ (st ≡ opened)

close-machine :
    (decision : DisconnectDecision) (s : Session)
    → (close_with decision s).machine
      ≡ (try_move (disconnect_trigger decision.cause s.machine.state) s).machine
unfolding close_with detach_events purge_auth
close-machine decision s = ground arith

close-state :
    (cause : DisconnectCause) (s : Session) {to : SessionState}
    → next_state s.machine.state (disconnect_trigger cause s.machine.state) ≡ some to
    → (close_with (decision_for cause) s).machine.state ≡ to
unfolding next_state decision_for
close-state cause s lands =
    ap SessionMachine.state (close-machine (decision_for cause) s)
    ∙ try_move_state (disconnect_trigger cause s.machine.state) s
    ∙ (rw (lands, landing) refl)

close_lands :
    (cause : DisconnectCause) (s : Session)
    → IsLive s.machine.state
    → let to = (close_with (decision_for cause) s).machine.state in
      ((purges_creds cause ≡ true) × (to ≡ SessionState.logged_out))
      ⊎ ((purges_creds cause ≡ false) × ((to ≡ closed) ⊎ (to ≡ connecting)))
close_lands cause s live =
    ground (arith, close-state cause s (disconnect_lands cause s.machine.state live))

plan-purging :
    (p : ReconnectPolicy) (cause : DisconnectCause)
    → purges_creds cause ≡ true
    → plan p cause ≡ (refuse cause ReconnectRefusal.terminal, p)
unfolding plan
plan-purging p cause purging = ground arith

close-purging :
    (cause : DisconnectCause) (s : Session)
    → purges_creds cause ≡ true
    → let s' = close_with (decision_for cause) s in
      (s'.socket ≡ none)
      × (s'.attached ≡ false)
      × (s'.purges ≡ s.purges + 1)
      × (s'.timer ≡ s.timer)
      × (s'.policy ≡ s.policy)
      × (s'.held ≡ s.held)
unfolding close_with detach_events purge_auth decision_for try_move
close-purging cause s purging = ground (arith, plan-purging s.policy cause purging)

-- A cause that deletes the credentials, in a state with a socket: the session ends in `logged_out`
-- without a socket, the credentials are deleted once, and no reconnect is planned.
pub purging_close :
    (cause : DisconnectCause) (s : Session)
    → IsLive s.machine.state
    → purges_creds cause ≡ true
    → let s' = close_with (decision_for cause) s in
      (s'.machine.state ≡ SessionState.logged_out)
      × (s'.socket ≡ none)
      × (s'.attached ≡ false)
      × (s'.purges ≡ s.purges + 1)
      × (s'.timer ≡ s.timer)
      × (s'.policy ≡ s.policy)
      × (s'.held ≡ s.held)
purging_close cause s live purging =
    ground (arith, close_lands cause s live, close-purging cause s purging)

retry_keeps :
    (p : ReconnectPolicy) (cause : DisconnectCause) {attempt delay : ℕ}
    → (plan p cause).0 ≡ retry cause attempt delay
    → purges_creds cause ≡ false
unfolding plan
retry_keeps p cause h = ground arith

close-retried :
    (cause : DisconnectCause) (s : Session) {attempt delay : ℕ}
    → s.suppress_reconnect ≡ false
    → (plan s.policy cause).0 ≡ retry cause attempt delay
    → let s' = close_with (decision_for cause) s in
      (s'.timer ≡ some delay)
      × (s'.socket ≡ none)
      × (s'.held ≡ s.held)
      × (s'.purges ≡ s.purges)
      × (s'.suppress_reconnect ≡ false)
      × (s'.destroyed ≡ s.destroyed)
unfolding close_with detach_events purge_auth decision_for try_move
close-retried cause s wanted h = ground (arith, retry_keeps s.policy cause h)

pub fired_opens :
    (s : Session)
    → s.suppress_reconnect ≡ false
    → s.destroyed ≡ false
    → (s.machine.state ≡ closed) ⊎ (s.machine.state ≡ connecting)
    → let s' = reconnect_fired s in
      (s'.machine.state ≡ connecting)
      × (s'.opening ≡ true)
      × (s'.timer ≡ none)
      × (s'.socket ≡ s.socket)
      × (s'.held ≡ s.held)
      × (s'.purges ≡ s.purges)
unfolding reconnect_fired open_socket try_move try_apply can apply next_state
fired_opens s wanted alive h = ground arith

-- A disconnect whose cause is retried, with the timer that follows: while the session is in a state
-- with a socket, not suppressed and not destroyed, the close arms the timer with the plan's delay
-- and gives up the socket, but neither the lock nor the credentials; and when the timer fires, the
-- session asks for a new socket in `connecting`, still holding both.
pub retried_close_reopens :
    (cause : DisconnectCause) (s : Session) {attempt delay : ℕ}
    → IsLive s.machine.state
    → s.suppress_reconnect ≡ false
    → s.destroyed ≡ false
    → (plan s.policy cause).0 ≡ retry cause attempt delay
    → let s' = close_with (decision_for cause) s in
      let fired = reconnect_fired s' in
      (s'.timer ≡ some delay)
      × (s'.socket ≡ none)
      × (s'.held ≡ s.held)
      × (s'.purges ≡ s.purges)
      × (fired.machine.state ≡ connecting)
      × (fired.opening ≡ true)
      × (fired.timer ≡ none)
      × (fired.socket ≡ none)
      × (fired.held ≡ s.held)
      × (fired.purges ≡ s.purges)
retried_close_reopens cause s live wanted alive h =
    let keeps = retry_keeps s.policy cause h in
    let closing = close-retried cause s wanted h in
    let s' = close_with (decision_for cause) s in
    ground (
      arith,
      closing,
      fired_opens s' (ground (arith, closing)) (ground (arith, closing))
          (ground (arith, close_lands cause s live, keeps)),
    )
