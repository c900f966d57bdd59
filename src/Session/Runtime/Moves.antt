-- ===== src/Session/Runtime/Moves.antt =====
-- What `try_move` does to a session, in terms of the table of transitions.
use whats_multi.Session.State.{
  SessionState, SessionTrigger, idle, connecting, awaiting_scan, opened, closing, closed, stop,
  stopped, fenced, transitions, try_apply, can, apply, next_state,
}
use whats_multi.Session.Runtime.{Session, try_move}
use whats_multi.Prelude.{◌≡◌, refl, none, some, arith, Option-cases}

-- The state after a trigger that is ignored where the table has no entry for it.
abbrev pub landing : SessionState → SessionTrigger → SessionState
landing from trigger = elim (transitions from trigger) [ none ↦ from | some to ↦ to ]

pub try_move_state :
    (trigger : SessionTrigger) (s : Session)
    → (try_move trigger s).machine.state ≡ landing s.machine.state trigger
unfolding try_move try_apply can apply next_state
try_move_state trigger s = ground (arith, Option-cases (transitions s.machine.state trigger))

-- `stop` and then `stopped`.
abbrev pub after_stop : SessionState → SessionState
after_stop connecting = closed
after_stop awaiting_scan = closed
after_stop opened = closed
after_stop closing = closed
after_stop other = other

pub stop_lands : (from : SessionState) → landing (landing from stop) stopped ≡ after_stop from
stop_lands idle = refl
stop_lands connecting = refl
stop_lands awaiting_scan = refl
stop_lands opened = refl
stop_lands closing = refl
stop_lands closed = refl
stop_lands SessionState.logged_out = refl

-- Where `fenced` leads to: a session that holds the lock is in one of the first three.
abbrev pub after_fencing : SessionState → SessionState
after_fencing connecting = closed
after_fencing awaiting_scan = closed
after_fencing opened = closed
after_fencing other = other

pub fence_lands : (from : SessionState) → landing from fenced ≡ after_fencing from
fence_lands idle = refl
fence_lands connecting = refl
fence_lands awaiting_scan = refl
fence_lands opened = refl
fence_lands closing = refl
fence_lands closed = refl
fence_lands SessionState.logged_out = refl
