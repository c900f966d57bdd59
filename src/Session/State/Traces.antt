-- ===== src/Session/State/Traces.antt =====
-- The machine over every sequence of triggers, each applied by `tryApply`.
use whats_multi.Session.State.{
  SessionState, idle, connecting, awaiting_scan, opened, closing, closed, SessionTrigger, connected,
  reset, start, stopped, initial_state, next_state, Transition, SessionMachine, new_machine, can,
  apply, try_apply,
}
use whats_multi.Prelude.{◌≡◌, refl, inl, inr, some, List, [], ◌∷◌, Option-cases, Text}

unfoldable pub try_all : SessionMachine → List SessionTrigger → SessionMachine
try_all m [] = m
try_all m (trigger ∷ rest) = try_all (try_apply m trigger).1 rest

-- The notifications, latest first, lead along edges of the table from `idle` to the state.
abbrev pub Linked : SessionState → List Transition → Type 0
Linked s [] = s ≡ initial_state
Linked s (t ∷ ts) = (t.to ≡ s) × (next_state t.from t.trigger ≡ some t.to) × Linked t.from ts

try_apply-Linked :
    (m : SessionMachine) (trigger : SessionTrigger)
    → Linked m.state m.notified
    → Linked (try_apply m trigger).1.state (try_apply m trigger).1.notified
unfolding can apply try_apply
try_apply-Linked m trigger h = elim (Option-cases (next_state m.state trigger)) [
  | inl e ↦ rw (e, try_apply, can) h
  | inr (to, e) ↦ rw (e, try_apply, can, apply) (refl, e, h)
]

try_all-Linked :
    (m : SessionMachine) (ts : List SessionTrigger)
    → Linked m.state m.notified
    → Linked (try_all m ts).state (try_all m ts).notified
unfolding try_all
try_all-Linked m [] h = h
try_all-Linked m (t ∷ ts) h = try_all-Linked (try_apply m t).1 ts (try_apply-Linked m t h)

-- Whatever triggers a new machine is given, legal or not, what `onTransition` was told is a path of
-- the transition table from `idle` to the machine's state, with no gap.
notified-Linked :
    (id : Text) (ts : List SessionTrigger)
    → let m = try_all (new_machine id) ts in Linked m.state m.notified
unfolding new_machine
notified-Linked id ts = try_all-Linked _ ts refl

abbrev way : SessionState → List SessionTrigger
way idle = start ∷ connected ∷ []
way connecting = connected ∷ []
way awaiting_scan = connected ∷ []
way opened = []
way closing = stopped ∷ start ∷ connected ∷ []
way closed = start ∷ connected ∷ []
way SessionState.logged_out = reset ∷ start ∷ connected ∷ []

opened_by_way :
    (id : Text) (s : SessionState) (log : List Transition)
    → (try_all (record { session_id = id; state = s; notified = log }) (way s)).state ≡ opened
unfolding try_all try_apply can apply next_state
opened_by_way id idle log = refl
opened_by_way id connecting log = refl
opened_by_way id awaiting_scan log = refl
opened_by_way id opened log = refl
opened_by_way id closing log = refl
opened_by_way id closed log = refl
opened_by_way id SessionState.logged_out log = refl

-- The machine has no dead end: from any state some triggers lead it to `open`.
no_dead_end : (m : SessionMachine) → (ts : List SessionTrigger) × ((try_all m ts).state ≡ opened)
no_dead_end m = (way m.state, opened_by_way m.session_id m.state m.notified)
