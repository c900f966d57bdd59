-- ===== src/Session/Runtime/Stopping.antt =====
-- What `stop` leaves behind, and that neither a late timer nor a late close event undoes it.
use whats_multi.Messaging.Queue.{SendQueue, close, settle_idle}
use whats_multi.Session.State.{stop, stopped}
use whats_multi.Session.Runtime.{
  Session, try_move, close_socket, release_lock, clear_timer, detach_events, purge_auth,
}
use whats_multi.Session.Runtime.Connection.{reconnect_fired, close_with}
use whats_multi.Session.Runtime.Lifecycle.{stop_session, stop_begin, stop_end}
use whats_multi.Session.Cause.{DisconnectDecision}
use whats_multi.Session.Runtime.Moves.{landing, after_stop, try_move_state, stop_lands}
use whats_multi.Prelude.{◌≡◌, refl, ap, ◌∙◌, true, false, none, arith}

-- Nothing of the session is running: no socket, listener, lock, heartbeat or timer is left, its
-- queue takes no jobs, and it will not reconnect.
unfoldable pub AtRest : Session → Type 0
AtRest s =
    (s.socket ≡ none)
    × (s.attached ≡ false)
    × (s.held ≡ none)
    × (s.heartbeat ≡ false)
    × (s.timer ≡ none)
    × (s.suppress_reconnect ≡ true)
    × (s.queue.closed ≡ true)

close-closed : (q : SendQueue) → (close q).closed ≡ true
unfolding close settle_idle
close-closed q = ground arith

-- A stop that nothing interrupts leaves every session, whatever its state, at rest, in `closed` if
-- it was connecting, awaiting a scan, open or closing and in the same state otherwise.
pub stop_rests :
    (s : Session)
    → AtRest (stop_session s) × ((stop_session s).machine.state ≡ after_stop s.machine.state)
unfolding AtRest stop_session stop_begin stop_end try_move
stop_rests s =
    let closing_down : Session = clear_timer (record s { suppress_reconnect = true }) in
    let begun = stop_begin s in
    (
      (refl, refl, refl, refl, refl, refl, close-closed s.queue),
      try_move_state stopped (release_lock (close_socket begun))
          ∙ ap (λ st. landing st stopped) (try_move_state stop closing_down)
          ∙ stop_lands s.machine.state,
    )

-- At a session at rest a reconnect timer whose callback was already queued still does nothing: no
-- socket is asked for and the state stays.
rest_outlives_timer :
    (s : Session)
    → AtRest s
    → let fired = reconnect_fired s in
      AtRest fired × (fired.machine ≡ s.machine) × (fired.opening ≡ s.opening)
unfolding AtRest reconnect_fired
rest_outlives_timer s at_rest = ground arith

-- A late close event of the driver does not make a session at rest reconnect either, whatever its
-- cause: nothing is planned and the session is still at rest.
rest_outlives_close :
    (s : Session) (decision : DisconnectDecision)
    → AtRest s
    → AtRest (close_with decision s) × ((close_with decision s).policy ≡ s.policy)
unfolding AtRest close_with try_move detach_events purge_auth
rest_outlives_close s decision at_rest = ground arith
