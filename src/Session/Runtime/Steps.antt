-- ===== src/Session/Runtime/Steps.antt =====
-- The turns of one session in any order.
use whats_multi.Lock.{LockToken}
use whats_multi.Session.State.{SessionTrigger}
use whats_multi.Session.Cause.{DriverError}
use whats_multi.Session.Reconnect.{ReconnectPlan, ReconnectPolicy}
use whats_multi.Session.Runtime.{
  Session, SessionEvent, try_move, emit, close_socket, release_lock, purge_auth,
}
use whats_multi.Session.Runtime.Connection.{
  planned, socket_opened, open_failed, reopen_failed, on_qr, on_open, on_close, reconnect_fired,
}
use whats_multi.Session.Runtime.Lifecycle.{
  start_session, lock_answered, stop_begin, stop_end, logout_begin, logout_refused, logout_done,
  reset_session, send, pairing_begin, pairing_answered, renew_begin, renew_answered, Renewal,
  unanswered,
}
use whats_multi.Errors.{ok}
use whats_multi.Prelude.{ℕ, ◌≡◌, Bool, true, Option, none, [], ◌∷◌, Text}
use whats_multi.Session.Runtime.Invariant.{states_of}

-- One turn: a call that is accepted, the continuation of one that has waited, an event of the
-- driver, or a timer. Nothing is assumed about their order. A renewal that the provider does not
-- answer, in a session that has given up its lock meanwhile, is a turn only if `late` is true.
pub data Step (late : Bool) : Session → Session → Type 0 where
  starts : {s s' : Session} → start_session s ≡ ok s' → Step late s s'
  locks : {s : Session} (answer : Option LockToken) → Step late s (lock_answered answer s).1
  opens : {s : Session} (socket : ℕ) → Step late s (socket_opened socket s)
  fails_open : {s : Session} → Step late s (open_failed s)
  fails_reopen : {s : Session} → Step late s (reopen_failed s)
  scans : {s : Session} → Step late s (on_qr s)
  connects : {s : Session} → Step late s (on_open s)
  disconnects : {s : Session} (error : DriverError) → Step late s (on_close error s)
  reconnects : {s : Session} → Step late s (reconnect_fired s)
  begins_stop : {s : Session} → Step late s (stop_begin s)
  ends_stop : {s : Session} → Step late s (stop_end s)
  destroys : {s : Session} → Step late s (record s { destroyed = true })
  begins_logout : {s s' : Session} → logout_begin s ≡ ok s' → Step late s s'
  refuses_logout : {s : Session} → Step late s (logout_refused s)
  ends_logout : {s : Session} → Step late s (logout_done s)
  purges : {s : Session} → Step late s (purge_auth s)
  resets : {s s' : Session} → reset_session s ≡ ok s' → Step late s s'
  sends : {s s' : Session} (job now later : ℕ) → send job now later s ≡ ok s' → Step late s s'
  asks_code : {s s' : Session} (phone : Text) → pairing_begin phone s ≡ ok s' → Step late s s'
  gets_code :
      {s : Session} (code : Option Text) (digits : Text)
      → Step late s (pairing_answered code digits s)
  begins_renewal : {s : Session} → Step late s (renew_begin s).1
  answers_renewal :
      {s : Session} (answer : Renewal) (owner : Text) (now : ℕ) (asked : LockToken)
      → (answer ≡ unanswered → s.held ≡ none → late ≡ true)
      → Step late s (renew_answered answer owner now asked s)
  -- Parts of the turns above, which other turns can part where the code awaits between them.
  closes_socket : {s : Session} → Step late s (close_socket s)
  releases_lock : {s : Session} → Step late s (release_lock s)
  moves : {s : Session} (trigger : SessionTrigger) → Step late s (try_move trigger s)
  emits :
      {s : Session} (event : SessionEvent)
      → states_of (event ∷ []) ≡ []
      → Step late s (emit event s)
  plans :
      {s : Session} (result : ReconnectPlan) (policy : ReconnectPolicy)
      → Step late s (planned result (record s { policy = policy }))

pub data Reach (late : Bool) (s : Session) : Session → Type 0 where
  here : Reach late s s
  next : {r t : Session} → Reach late s r → Step late r t → Reach late s t
