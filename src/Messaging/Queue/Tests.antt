-- ===== src/Messaging/Queue/Tests.antt =====
-- A queue with one slot and two places: the jobs 1, 2 and 3 are pushed at 100, and a fourth refused.
use whats_multi.Errors.{ok, err, send_failed, error_of}
use whats_multi.Messaging.Queue.{
  SendConfig, SendQueue, new_queue, size, is_idle, pump, settle_idle, push, finish, close, Reach,
  here, next, pushes, finishes,
}
use whats_multi.Messaging.Queue.Invariant.{Inv, new_queue-Reach}
use whats_multi.Messaging.Queue.Scheduling.{finish_all, queue_drains}
use whats_multi.Prelude.{◌≡◌, refl, true, some, [], ◌∷◌, arith, Text, codes}

abbrev config : SendConfig
config = record { concurrency = 1; min_delay_ms = 50; timeout_ms = 60000; max_queue = 2 }

abbrev desk : Text
desk = codes "desk"

abbrev first_started : SendQueue
first_started = record (new_queue desk config) {
  running = 1;
  last_start = some 100;
  accepted = 1 ∷ [];
  started = record { job = 1; start = 100; wait = 0 } ∷ [];
}

abbrev second_waits : SendQueue
second_waits = record first_started { waiting = 2 ∷ []; accepted = 1 ∷ 2 ∷ [] }

abbrev third_waits : SendQueue
third_waits = record first_started { waiting = 2 ∷ 3 ∷ []; accepted = 1 ∷ 2 ∷ 3 ∷ [] }

push_first : push 1 100 100 (new_queue desk config) ≡ ok first_started
unfolding push pump new_queue
push_first = refl

push_second : push 2 100 100 first_started ≡ ok second_waits
unfolding push pump new_queue
push_second = refl

push_third : push 3 100 100 second_waits ≡ ok third_waits
unfolding push pump new_queue
push_third = refl

-- maxQueue
push_fourth : push 4 100 100 third_waits ≡ err (error_of send_failed desk)
unfolding push new_queue
push_fourth = refl

-- The second job ends its wait 50 ms after the first start.
finish_first :
    (finish 120 120 third_waits).started
    ≡ record { job = 2; start = 150; wait = 30 } ∷ first_started.started
unfolding finish pump new_queue
finish_first = refl

close_third : (close third_waits).rejected ≡ 2 ∷ 3 ∷ []
unfolding close settle_idle is_idle new_queue
close_third = refl

size_third : size third_waits ≡ 2
unfolding size
size_third = refl

reach_third : Reach (new_queue desk config) third_waits
reach_third =
    next (next (next here (pushes 1 100 100 push_first)) (pushes 2 100 100 push_second))
      (pushes 3 100 100 push_third)

new_queue-Reach_example : Inv third_waits
new_queue-Reach_example = new_queue-Reach desk config reach_third

reach_second_start : Reach (new_queue desk config) (finish 120 120 third_waits)
reach_second_start = next reach_third (finishes 120 120 (omega arith))

queue_drains_example :
    is_idle (finish_all ((120, 120) ∷ (160, 160) ∷ (170, 170) ∷ []) third_waits) ≡ true
unfolding new_queue
queue_drains_example =
    queue_drains desk config ((120, 120) ∷ (160, 160) ∷ (170, 170) ∷ []) reach_third (omega arith)
      refl
