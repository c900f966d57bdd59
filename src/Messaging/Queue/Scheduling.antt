-- ===== src/Messaging/Queue/Scheduling.antt =====
-- The rate of the starts, and the progress of a queue that is served.
use whats_multi.Errors.{ok}
use whats_multi.Messaging.Queue.{
  SendQueue, SendConfig, Launch, launch, is_idle, start_at, pump, settle_idle, push, finish, drain,
  close, new_queue, Step, pushes, finishes, drains, closes, Reach, here, next,
}
use whats_multi.Messaging.Queue.Invariant.{Inv, finish-Inv, new_queue-Reach}
use whats_multi.Prelude.{
  ℕ, ◌+◌, ◌-◌, ◌≤◌, ◌<◌, ◌≡◌, refl, sym, subst, inl, inr, true, Option, none, some, List, [], ◌∷◌,
  ◌++◌, arith, leb, Bool-cases, length, is_empty, Text,
}

-- The latest start is `last`, and each one lies at least `delay` behind the one before.
abbrev pub Spaced : ℕ → Option ℕ → List Launch → Type 0
Spaced delay last [] = last ≡ none
Spaced delay last (l ∷ ls) =
    (last ≡ some l.start)
    × (elim ls [ [] ↦ Unit {0} | l' ∷ rest ↦ l'.start + delay ≤ l.start ])
    × ((before : Option ℕ) × Spaced delay before ls)

abbrev IsSpaced : SendQueue → Type 0
IsSpaced q = Spaced q.min_delay_ms q.last_start q.started

Spaced-cons :
    (delay now wait job : ℕ) (last : Option ℕ) (ls : List Launch)
    → Spaced delay last ls
    → Spaced delay
        (some (start_at last delay now))
        (record { job = job; start = start_at last delay now; wait = wait } ∷ ls)
Spaced-cons delay now wait job last [] h = (refl, tt, (last, h))
Spaced-cons delay now wait job last (l ∷ ls) h = (refl, rw (h.0) (omega arith), (last, h))

launch-IsSpaced :
    (ws : List ℕ) (now later : ℕ) (q : SendQueue) → IsSpaced q → IsSpaced (launch ws now later q)
launch-IsSpaced [] now later q h = h
launch-IsSpaced (job ∷ ws) now later q h =
    Spaced-cons q.min_delay_ms now (start_at q.last_start q.min_delay_ms now - later) job
      q.last_start q.started h

pump-IsSpaced : (now later : ℕ) (q : SendQueue) → IsSpaced q → IsSpaced (pump now later q)
unfolding pump
pump-IsSpaced now later q h = elim (Bool-cases (leb q.concurrency q.running)) [
  | inl full ↦ rw (full, pump) h
  | inr room ↦ rw (room, pump) (launch-IsSpaced q.waiting now later q h)
]

settle_idle-IsSpaced : (q : SendQueue) → IsSpaced q → IsSpaced (settle_idle q)
unfolding settle_idle
settle_idle-IsSpaced q h = elim (Bool-cases (is_idle q)) [
  | inl e ↦ rw (e, settle_idle) h
  | inr e ↦ rw (e, settle_idle) h
]

pushed :
    (job now later : ℕ) (q : SendQueue) {q' : SendQueue}
    → push job now later q ≡ ok q'
    → q'
      ≡ pump now later
          (record q { waiting = q.waiting ++ job ∷ []; accepted = q.accepted ++ job ∷ [] })
unfolding push
pushed job now later q e = ground arith

push-IsSpaced :
    (job now later : ℕ) (q : SendQueue) {q' : SendQueue}
    → IsSpaced q
    → push job now later q ≡ ok q'
    → IsSpaced q'
push-IsSpaced job now later q h e =
    subst IsSpaced (sym (pushed job now later q e)) (pump-IsSpaced now later _ h)

finish-IsSpaced : (now later : ℕ) (q : SendQueue) → IsSpaced q → IsSpaced (finish now later q)
unfolding finish
finish-IsSpaced now later q h = elim (Bool-cases (is_empty q.waiting)) [
  | inl e ↦ rw (e, finish) (settle_idle-IsSpaced _ h)
  | inr e ↦ rw (e, finish) (pump-IsSpaced now later _ h)
]

Step-IsSpaced : {q q' : SendQueue} → Step q q' → IsSpaced q → IsSpaced q'
unfolding close drain
Step-IsSpaced {q} (pushes job now later e) h = push-IsSpaced job now later q h e
Step-IsSpaced {q} (finishes now later _) h = finish-IsSpaced now later q h
Step-IsSpaced {q} drains h = elim (Bool-cases (is_idle q)) [
  | inl e ↦ rw (e, drain) h
  | inr e ↦ rw (e, drain) h
]
Step-IsSpaced {q} closes h = settle_idle-IsSpaced _ h

reach-IsSpaced : {q r : SendQueue} → IsSpaced q → Reach q r → IsSpaced r
reach-IsSpaced h here = h
reach-IsSpaced h (next r s) = Step-IsSpaced s (reach-IsSpaced h r)

-- Whatever the clock readings, also under concurrency, two successive starts of a queue lie at
-- least `min_delay_ms` apart.
starts_lie_apart :
    (id : Text) (c : SendConfig) {q : SendQueue}
    → Reach (new_queue id c) q
    → Spaced q.min_delay_ms q.last_start q.started
unfolding new_queue
starts_lie_apart id c r = reach-IsSpaced refl r

-- Work left: jobs that wait and jobs that run.
abbrev pub work : SendQueue → ℕ
work q = length q.waiting + q.running

finish-work :
    (now later : ℕ) (q : SendQueue)
    → Inv q
    → 0 < q.concurrency
    → 0 < q.running
    → (work (finish now later q) + 1 ≡ work q) × ((finish now later q).concurrency ≡ q.concurrency)
unfolding finish pump settle_idle is_idle
finish-work now later q v c r = ground arith

running_of_work : (q : SendQueue) → Inv q → 0 < q.concurrency → 0 < work q → 0 < q.running
running_of_work q v c w = ground arith

-- One job after another ends, at the given clock readings.
unfoldable pub finish_all : List (ℕ × ℕ) → SendQueue → SendQueue
finish_all [] q = q
finish_all ((now, later) ∷ rest) q = finish_all rest (finish now later q)

finish_all-idle :
    (ends : List (ℕ × ℕ)) (q : SendQueue)
    → Inv q
    → 0 < q.concurrency
    → work q ≡ length ends
    → is_idle (finish_all ends q) ≡ true
unfolding finish_all
finish_all-idle [] q v c w = unfold is_idle in ground arith
finish_all-idle ((now, later) ∷ ends) q v c w =
    let r = running_of_work q v c (omega arith) in
    let (less, same) = finish-work now later q v c r in
    finish_all-idle ends (finish now later q) (finish-Inv now later q r v) (omega (arith, same))
      (omega (arith, less))

-- A queue is never stuck: from any state that a new queue with a slot can reach, the ends of as
-- many jobs as wait and run leave it idle, at whatever times they come.
pub queue_drains :
    (id : Text) (c : SendConfig) {q : SendQueue} (ends : List (ℕ × ℕ))
    → Reach (new_queue id c) q
    → 0 < q.concurrency
    → work q ≡ length ends
    → is_idle (finish_all ends q) ≡ true
queue_drains id c {q} ends r p w = finish_all-idle ends q (new_queue-Reach id c r) p w
