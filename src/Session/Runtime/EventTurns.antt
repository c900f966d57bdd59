-- ===== src/Session/Runtime/EventTurns.antt =====
-- The driver's events, the timers and the renewals keep the invariant.
use whats_multi.Lock.{LockToken}
use whats_multi.Session.State.{SessionTrigger, qr_exhausted, reconnect}
use whats_multi.Session.Cause.{DisconnectDecision, disconnect_trigger}
use whats_multi.Session.Runtime.{
  Session, SessionEvent, try_move, emit, detach_events, clear_timer, purge_auth,
}
use whats_multi.Session.Runtime.Connection.{
  planned, is_closed, is_connecting, open_socket, on_qr, close_with, reconnect_fired,
}
use whats_multi.Session.Runtime.Lifecycle.{
  on_fenced, renew_begin, renew_answered, Renewal, renewed, lost, unanswered,
}
use whats_multi.Session.Reconnect.{ReconnectPlan, retry, refuse}
use whats_multi.Prelude.{
  ℕ, ◌+◌, ◌≡◌, refl, Bool, true, false, not, ◌||◌, none, ltb, if◌then◌else◌, Text,
}
use whats_multi.Session.Runtime.Invariant.{Inv, try_move-Inv, close_socket-Inv, if-Inv}

pub on_qr-Inv : (late : Bool) (s : Session) → Inv late s → Inv late (on_qr s)
unfolding Inv on_qr
on_qr-Inv late s v =
    let seen : Session = record s {
      saw_qr = true;
      pairing_pending = false;
      qr_attempt = s.qr_attempt + 1;
    } in
    let v' = try_move-Inv late SessionTrigger.qr seen v in
    if-Inv late (ltb s.config.qr_max_attempts (try_move SessionTrigger.qr seen).qr_attempt) _ _
      (close_socket-Inv late _ (
        try_move-Inv late qr_exhausted
          (record (try_move SessionTrigger.qr seen) { suppress_reconnect = true }) v'))
      (if-Inv late (not s.config.pairing_enabled) _ _ v' v')

pub planned-Inv :
    (late : Bool) (result : ReconnectPlan) (s : Session) → Inv late s → Inv late (planned result s)
unfolding Inv
planned-Inv late (refuse cause reason) s v = v
planned-Inv late (retry cause attempt delay) s v = v

-- The socket that has closed is gone with its listener.
abbrev gone : Session → Session
gone s = record (detach_events s) { socket = none }

gone-Inv : (late : Bool) (s : Session) → Inv late s → Inv late (gone s)
unfolding Inv detach_events
gone-Inv late s (lock, socket, same, linked) = (lock, (λ e. cc), same, linked)

pub close_with-Inv :
    (late : Bool) (decision : DisconnectDecision) (s : Session)
    → Inv late s
    → Inv late (close_with decision s)
unfolding Inv close_with purge_auth
close_with-Inv late decision s v =
    let moved = try_move (disconnect_trigger decision.cause s.machine.state) s in
    let v' = gone-Inv late moved (try_move-Inv late _ s v) in
    let w =
      if-Inv late decision.purge_creds
        (emit (SessionEvent.logged_out decision.cause) (purge_auth (gone moved))) (gone moved) v'
        v' in
    if-Inv late _ _ _ w (planned-Inv late _ _ w)

pub reconnect_fired-Inv : (late : Bool) (s : Session) → Inv late s → Inv late (reconnect_fired s)
unfolding Inv reconnect_fired open_socket
reconnect_fired-Inv late s v =
    let fired : Session = record s { timer = none } in
    let moved = if is_closed s.machine.state then try_move reconnect fired else fired in
    let w =
      if-Inv late (is_closed s.machine.state) (try_move reconnect fired) fired
        (try_move-Inv late reconnect fired v) v in
    let opened = if is_connecting moved.machine.state then open_socket moved else moved in
    let w' = if-Inv late (is_connecting moved.machine.state) (open_socket moved) moved w w in
    if-Inv late (s.suppress_reconnect || s.destroyed) fired opened v w'

on_fenced-Inv :
    (late : Bool) (owner : Text) (s : Session) → Inv late s → Inv late (on_fenced owner s)
unfolding Inv on_fenced clear_timer
on_fenced-Inv late owner s (lock, socket, same, linked) =
    let left : Session = record s {
      held = none;
      suppress_reconnect = true;
      heartbeat = false;
      timer = none;
    } in
    close_socket-Inv late (try_move SessionTrigger.fenced left)
      (try_move-Inv late SessionTrigger.fenced left ((λ e. cc), socket, same, linked))

pub renew_begin-Inv : (late : Bool) (s : Session) → Inv late s → Inv late (renew_begin s).1
unfolding Inv renew_begin
renew_begin-Inv late s (lock, socket, same, linked) = ((λ _ e. cc), socket, same, linked)

pub renew_answered-Inv :
    (late : Bool) (answer : Renewal) (owner : Text) (now : ℕ) (asked : LockToken) (s : Session)
    → (answer ≡ unanswered → s.held ≡ none → late ≡ true)
    → Inv late s
    → Inv late (renew_answered answer owner now asked s)
unfolding Inv renew_answered
renew_answered-Inv late (renewed token) owner now asked s h (lock, socket, same, linked) =
    ((λ _ _ e. cc), socket, same, linked)
renew_answered-Inv late lost owner now asked s h v = on_fenced-Inv late owner s v
renew_answered-Inv late unanswered owner now asked s h (lock, socket, same, linked) =
    if-Inv late (ltb asked.expires_at now) (on_fenced owner s) (record s { heartbeat = true })
      (on_fenced-Inv late owner s (lock, socket, same, linked))
      ((λ timely _ gone. let missed = h refl gone in cc), socket, same, linked)
