-- ===== src/Session/State/Laws.antt =====
-- Which moves the transition table allows, and what the machine does with an illegal one.
use whats_multi.Errors.{ok, err, illegal_transition, error_of}
use whats_multi.Session.State.{
  Transition, SessionState, idle, connecting, awaiting_scan, closed, SessionTrigger, connected,
  reset, start, next_state, is_sendable, is_terminal, SessionMachine, can, apply, try_apply,
}
use whats_multi.Prelude.{◌≡◌, ◌⊎◌, inl, inr, true, none, some, ◌∷◌, arith, Option-cases}

abbrev pub moved : SessionMachine → SessionTrigger → SessionState → SessionMachine
moved m trigger to = record m {
  state = to;
  notified = record { from = m.state; to = to; trigger = trigger } ∷ m.notified;
}

-- Where the table has no edge, `apply` fails with ILLEGAL_TRANSITION and `try_apply` returns null
-- and leaves the machine as it was; where it has one, both return the same transition, move to its
-- target and notify exactly once.
apply-try_apply :
    (m : SessionMachine) (trigger : SessionTrigger)
    → ((next_state m.state trigger ≡ none)
        × (apply m trigger ≡ err (error_of illegal_transition m.session_id))
        × (try_apply m trigger ≡ (none, m)))
      ⊎ ((t : Transition) × (next_state m.state trigger ≡ some t.to)
          × (apply m trigger ≡ ok (t, moved m trigger t.to))
          × (try_apply m trigger ≡ (some t, moved m trigger t.to)))
unfolding can apply try_apply
apply-try_apply m trigger = elim (Option-cases (next_state m.state trigger)) [
  | inl e ↦ inl (e, ground arith, ground arith)
  | inr (to, e) ↦
      inr (record { from = m.state; to = to; trigger = trigger }, e, ground arith, ground arith)
]

-- A session starts once: `start` is accepted only when it is idle or closed, and `start` again is
-- refused in the state that it leads to.
start_once :
    (s : SessionState) {to : SessionState}
    → next_state s start ≡ some to
    → ((s ≡ idle) ⊎ (s ≡ closed)) × (to ≡ connecting) × (next_state to start ≡ none)
unfolding next_state
start_once s h = ground arith

-- Sends become legal only by `connected`, and only from a state with a live socket.
open_only_by_connected :
    (s : SessionState) (trigger : SessionTrigger) {to : SessionState}
    → next_state s trigger ≡ some to
    → is_sendable to ≡ true
    → (trigger ≡ connected) × ((s ≡ connecting) ⊎ (s ≡ awaiting_scan))
unfolding next_state is_sendable
open_only_by_connected s trigger h o = ground arith

-- A terminal state is left by `reset` alone, and then for `idle`; `reset` moves no other state.
terminal_only_reset :
    (s : SessionState) (trigger : SessionTrigger) {to : SessionState}
    → next_state s trigger ≡ some to
    → (is_terminal s ≡ true → (trigger ≡ reset) × (to ≡ idle))
      × (trigger ≡ reset → is_terminal s ≡ true)
unfolding next_state is_terminal
terminal_only_reset s trigger h = (λ t. ground arith, λ t. ground arith)
