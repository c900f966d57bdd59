-- ===== src/Messaging/Queue/Invariant.antt =====
-- What holds of a queue between any two steps.
use mathlib.Core.List.{append-nil, append_assoc}
use whats_multi.Errors.{ok}
use whats_multi.Messaging.Queue.{
  SendQueue, SendConfig, Launch, is_idle, pump, settle_idle, push, finish, drain, close, new_queue,
  Step, pushes, finishes, drains, closes, Reach, here, next,
}
use whats_multi.Prelude.{
  ℕ, ◌≤◌, ◌<◌, ◌≡◌, ◌≢◌, true, false, List, [], ◌∷◌, ◌++◌, arith, length, length-append, Text,
}

-- The jobs in the order in which they took a slot.
abbrev pub order : List Launch → List ℕ
order [] = []
order (l ∷ ls) = order ls ++ l.job ∷ []

abbrev first : List ℕ → List ℕ
first [] = []
first (job ∷ rest) = job ∷ []

abbrev others : List ℕ → List ℕ
others [] = []
others (job ∷ rest) = rest

pub record Inv (q : SendQueue) : Type 0 where
  pub slots : q.running ≤ q.concurrency
  pub bounded : length q.waiting ≤ q.max_queue
  pub busy : q.waiting ≢ [] → q.running ≡ q.concurrency
  pub closed_empty : q.closed ≡ true → q.waiting ≡ []
  pub open_rejects : q.closed ≡ false → q.rejected ≡ []
  pub awaited : 0 < q.idle_waiters → is_idle q ≡ false
  pub conserved : q.accepted ≡ order q.started ++ (q.rejected ++ q.waiting)

new_queue-Inv : (id : Text) (c : SendConfig) → Inv (new_queue id c)
unfolding new_queue is_idle
new_queue-Inv id c = ground arith

push-Inv :
    (job now later : ℕ) (q : SendQueue) {q' : SendQueue}
    → Inv q
    → push job now later q ≡ ok q'
    → Inv q'
unfolding push pump is_idle
push-Inv job now later q v h = ground (
  arith,
  length-append q.waiting (job ∷ []),
  append_assoc (order q.started) (q.rejected ++ q.waiting) (job ∷ []),
  append_assoc q.rejected q.waiting (job ∷ []),
  append-nil (order q.started),
  append-nil (order q.started ++ job ∷ []),
)

pub finish-Inv : (now later : ℕ) (q : SendQueue) → 0 < q.running → Inv q → Inv (finish now later q)
unfolding finish pump settle_idle is_idle
finish-Inv now later q h v =
    ground (arith, append_assoc (order q.started) (first q.waiting) (others q.waiting))

drain-Inv : (q : SendQueue) → Inv q → Inv (drain q)
unfolding drain is_idle
drain-Inv q v = ground arith

close-Inv : (q : SendQueue) → Inv q → Inv (close q)
unfolding close settle_idle is_idle
close-Inv q v = ground (arith, append-nil (q.rejected ++ q.waiting))

Step-Inv : {q q' : SendQueue} → Step q q' → Inv q → Inv q'
Step-Inv {q} (pushes job now later h) v = push-Inv job now later q v h
Step-Inv {q} (finishes now later h) v = finish-Inv now later q h v
Step-Inv {q} drains v = drain-Inv q v
Step-Inv {q} closes v = close-Inv q v

reach-Inv : {q r : SendQueue} → Inv q → Reach q r → Inv r
reach-Inv v here = v
reach-Inv v (next r s) = Step-Inv s (reach-Inv v r)

-- In every state that a new queue can reach: at most `concurrency` jobs run, at most `max_queue`
-- wait, and none waits while a slot is free; a closed queue has nobody waiting; a pending `drain`
-- belongs to a queue that is not idle; and every accepted job, in order of acceptance and exactly
-- once, has started, was rejected by `close`, or still waits.
pub new_queue-Reach :
    (id : Text) (c : SendConfig) {q : SendQueue} → Reach (new_queue id c) q → Inv q
new_queue-Reach id c r = reach-Inv (new_queue-Inv id c) r
