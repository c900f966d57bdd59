-- ===== src/Session/Runtime/Invariant.antt =====
-- What holds of a session between its turns, and the moves that keep it.
use whats_multi.Session.State.{
  SessionState, SessionTrigger, next_state, SessionMachine, Transition, try_apply, can, apply,
}
use whats_multi.Session.State.Traces.{Linked}
use whats_multi.Session.Runtime.{
  Session, SessionEvent, emit, try_move, noted, close_socket, release_lock,
}
use whats_multi.Prelude.{
  ◌≡◌, refl, sym, ap, subst, ◌∙◌, ◌≢◌, inl, inr, Bool, true, false, Option, none, some, List, [],
  ◌∷◌, if◌then◌else◌, Option-cases,
}

-- The transitions among the events, the latest first.
abbrev pub states_of : List SessionEvent → List Transition
states_of [] = []
states_of (SessionEvent.state t ∷ events) = t ∷ states_of events
states_of (event ∷ events) = states_of events

-- Unless `late` is true, a heartbeat runs only for a lock that is held; we listen only on a socket
-- that we have; and the emitted transitions are the machine's own, which lead along the table from
-- `idle` to its state.
unfoldable pub Inv : Bool → Session → Type 0
Inv late s =
    (late ≡ false → s.heartbeat ≡ true → s.held ≢ none)
    × (s.attached ≡ true → s.socket ≢ none)
    × (states_of s.events ≡ s.machine.notified)
    × Linked s.machine.state s.machine.notified

try_apply-none :
    (m : SessionMachine) (trigger : SessionTrigger)
    → next_state m.state trigger ≡ none
    → try_apply m trigger ≡ (none, m)
unfolding try_apply can
try_apply-none m trigger e = rw (e, try_apply, can) refl

abbrev edge : SessionMachine → SessionTrigger → SessionState → Transition
edge m trigger to = record { from = m.state; to = to; trigger = trigger }

try_apply-some :
    (m : SessionMachine) (trigger : SessionTrigger) (to : SessionState)
    → next_state m.state trigger ≡ some to
    → try_apply m trigger ≡ (
      some (edge m trigger to),
      record m { state = to; notified = edge m trigger to ∷ m.notified },
    )
unfolding try_apply can apply
try_apply-some m trigger to e = rw (e, try_apply, can, apply) refl

-- `try_move` with the answer of the machine in its place.
abbrev moved_by : Option Transition × SessionMachine → Session → Session
moved_by (t, machine) s = record s { machine = machine; events = noted t s.events }

try_move-moved_by :
    (trigger : SessionTrigger) (s : Session)
    → try_move trigger s ≡ moved_by (try_apply s.machine trigger) s
unfolding try_move
try_move-moved_by trigger s = refl

pub try_move-Inv :
    (late : Bool) (trigger : SessionTrigger) (s : Session)
    → Inv late s
    → Inv late (try_move trigger s)
unfolding Inv
try_move-Inv late trigger s (lock, socket, same, linked) =
    elim (Option-cases (next_state s.machine.state trigger)) [
      | inl e ↦
          subst (Inv late)
            (sym (
              try_move-moved_by trigger s
              ∙ ap (λ a. moved_by a s) (try_apply-none s.machine trigger e)))
            (lock, socket, same, linked)
      | inr (to, e) ↦
          subst (Inv late)
            (sym (
              try_move-moved_by trigger s
              ∙ ap (λ a. moved_by a s) (try_apply-some s.machine trigger to e)))
            (lock, socket, ap (λ ts. edge s.machine trigger to ∷ ts) same, (refl, e, linked))
    ]

-- Giving up the socket, the lock or both, and emitting what is no transition, keeps it.
pub close_socket-Inv : (late : Bool) (s : Session) → Inv late s → Inv late (close_socket s)
unfolding Inv close_socket
close_socket-Inv late s (lock, socket, same, linked) = (lock, (λ e. cc), same, linked)

pub release_lock-Inv : (late : Bool) (s : Session) → Inv late s → Inv late (release_lock s)
unfolding Inv release_lock
release_lock-Inv late s (lock, socket, same, linked) = ((λ e. cc), socket, same, linked)

pub if-Inv :
    (late : Bool) (b : Bool) (q r : Session)
    → Inv late q
    → Inv late r
    → Inv late (if b then q else r)
if-Inv late true q r v w = v
if-Inv late false q r v w = w

pub emit-Inv :
    (late : Bool) (event : SessionEvent) (s : Session)
    → states_of (event ∷ []) ≡ []
    → Inv late s
    → Inv late (emit event s)
unfolding Inv
emit-Inv late (SessionEvent.state t) s other v = cc
emit-Inv late event s other v = v
