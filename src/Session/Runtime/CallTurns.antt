-- ===== src/Session/Runtime/CallTurns.antt =====
-- The calls, and what they have waited for, keep the invariant.
use whats_multi.Lock.{LockToken}
use whats_multi.Session.State.{
  SessionTrigger, disconnected, stop, stopped, start, SessionMachine, try_apply, can, apply,
}
use whats_multi.Session.State.Traces.{Linked}
use whats_multi.Session.Runtime.{
  Session, assert_alive, try_move, close_socket, detach_events, clear_timer, release_lock,
  purge_auth,
}
use whats_multi.Session.Runtime.Connection.{open_socket}
use whats_multi.Session.Runtime.Lifecycle.{
  start_session, lock_answered, stop_begin, stop_end, logout_begin, logout_done, reset_session,
  send, pairing_begin, pairing_answered,
}
use whats_multi.Errors.{ok}
use whats_multi.Prelude.{
  ℕ, ◌≡◌, sym, ap, subst, ◌∙◌, Bool, true, false, Option, none, some, arith, Text,
}
use whats_multi.Session.Runtime.Invariant.{
  Inv, states_of, try_move-Inv, close_socket-Inv, release_lock-Inv,
}

-- All that `Inv` reads is the same.
abbrev Agrees : Session → Session → Type 0
Agrees r s =
    (s.heartbeat ≡ r.heartbeat)
    × (s.held ≡ r.held)
    × (s.attached ≡ r.attached)
    × (s.socket ≡ r.socket)
    × (s.events ≡ r.events)
    × (s.machine ≡ r.machine)

pub Agrees-Inv : (late : Bool) (r s : Session) → Agrees r s → Inv late r → Inv late s
unfolding Inv
Agrees-Inv late r s (heartbeat, held, attached, socket, events, machine) (l, k, same, linked) = (
  (λ t e h. l t (sym heartbeat ∙ e) (sym held ∙ h)),
  (λ e h. k (sym attached ∙ e) (sym socket ∙ h)),
  ap states_of events ∙ same ∙ ap SessionMachine.notified (sym machine),
  subst (λ m. Linked m.state m.notified) (sym machine) linked,
)

-- What an accepted `start` or `reset` does to those fields is the move of the machine.
pub start_session-Agrees :
    (s : Session) {s' : Session} → start_session s ≡ ok s' → Agrees (try_move start s) s'
unfolding start_session assert_alive open_socket try_move try_apply can apply
start_session-Agrees s h = ground arith

pub reset_session-Agrees :
    (s : Session) {s' : Session}
    → reset_session s ≡ ok s'
    → Agrees (try_move SessionTrigger.reset s) s'
unfolding reset_session assert_alive try_move try_apply can apply
reset_session-Agrees s h = ground arith

pub send-Agrees :
    (job now later : ℕ) (s : Session) {s' : Session} → send job now later s ≡ ok s' → Agrees s s'
unfolding send
send-Agrees job now later s h = ground arith

pub pairing_begin-Agrees :
    (phone : Text) (s : Session) {s' : Session} → pairing_begin phone s ≡ ok s' → Agrees s s'
unfolding pairing_begin
pairing_begin-Agrees phone s h = ground arith

pub stop_begin-Inv : (late : Bool) (s : Session) → Inv late s → Inv late (stop_begin s)
unfolding Inv stop_begin clear_timer
stop_begin-Inv late s v =
    try_move-Inv late stop (record s { suppress_reconnect = true; timer = none }) v

abbrev close_listener : Session → Session
close_listener s = record s { attached = false }

close_listener-Inv : (late : Bool) (s : Session) → Inv late s → Inv late (close_listener s)
unfolding Inv
close_listener-Inv late s (lock, socket, same, linked) = (lock, (λ e. cc), same, linked)

logout_begin-Agrees :
    (s : Session) {s' : Session} → logout_begin s ≡ ok s' → Agrees (close_listener s) s'
unfolding logout_begin detach_events clear_timer
logout_begin-Agrees s h = ground arith

pub logout_begin-Inv :
    (late : Bool) (s : Session) {s' : Session} → logout_begin s ≡ ok s' → Inv late s → Inv late s'
logout_begin-Inv late s {s' = s'} h v =
    Agrees-Inv late (close_listener s) s' (logout_begin-Agrees s h) (close_listener-Inv late s v)

pub logout_done-Inv : (late : Bool) (s : Session) → Inv late s → Inv late (logout_done s)
unfolding Inv logout_done purge_auth
logout_done-Inv late s v =
    try_move-Inv late SessionTrigger.logged_out (release_lock (close_socket s))
      (release_lock-Inv late (close_socket s) (close_socket-Inv late s v))

pub stop_end-Inv : (late : Bool) (s : Session) → Inv late s → Inv late (stop_end s)
unfolding stop_end
stop_end-Inv late s v =
    try_move-Inv late stopped (release_lock (close_socket s))
      (release_lock-Inv late (close_socket s) (close_socket-Inv late s v))

pub lock_answered-Inv :
    (late : Bool) (answer : Option LockToken) (s : Session)
    → Inv late s
    → Inv late (lock_answered answer s).1
unfolding Inv lock_answered open_socket
lock_answered-Inv late none s v = try_move-Inv late disconnected s v
lock_answered-Inv late (some token) s (lock, socket, same, linked) =
    ((λ _ h. cc), socket, same, linked)

pub pairing_answered-Inv :
    (late : Bool) (code : Option Text) (digits : Text) (s : Session)
    → Inv late s
    → Inv late (pairing_answered code digits s)
unfolding Inv pairing_answered
pairing_answered-Inv late none digits s v = v
pairing_answered-Inv late (some code) digits s v = v
