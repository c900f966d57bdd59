-- ===== src/Webhook/Delivery/Tests.antt =====
-- A queue over one delivery that may be tried twice, signed with a checksum.
use whats_multi.Utils.Backoff.{backoff_delay, exp_ms}
use whats_multi.Webhook.Signature.{sign_payload}
use whats_multi.Webhook.Signature.Tests.{checksum}
use whats_multi.Webhook.Delivery.{
  DeliveryConfig, Delivery, DeliveryQueue, WebhookEvent, Outcome, answered, failed, posting,
  sleeping, stopped, new_queue, enqueue, respond, judge, is_retryable_status, dead_letter, wake,
  expire, expired, pump, Reach, here, next, enqueues, responds,
}
use whats_multi.Webhook.Delivery.Invariant.{Inv}
use whats_multi.Webhook.Delivery.Ledger.{
  Batch, count, events_of, lettered, all_given, all_taken, new_queue-Accounted,
}
use whats_multi.Webhook.Delivery.Rest.{drive, comes_to_rest}
use whats_multi.Webhook.Delivery.Shutdown.{abort_sleeps_first}
use whats_multi.Prelude.{
  ℕ, ◌+◌, ◌≡◌, refl, Bool, true, false, none, some, List, [], ◌∷◌, arith, length, codes,
}

abbrev config : DeliveryConfig
config = record {
  secret = codes "hush";
  max_queue = 3;
  drain_timeout_ms = 5000;
  retry = record {
    backoff = record { base_ms = 1000; cap_ms = 60000; floor_ms = 250 };
    max_attempts = 2;
  };
}

abbrev batch : List WebhookEvent
batch = record { event = codes "state"; session_id = codes "desk"; ts = 7 } ∷ []

abbrev first_delivery : Delivery
first_delivery = record {
  id = codes "d1";
  t = 12;
  body = codes "{}";
  signature = (sign_payload checksum (codes "hush") (codes "{}") 12).header;
  events = batch;
  attempts = 1;
}

abbrev in_flight : DeliveryQueue
in_flight = enqueue checksum (codes "d1") batch (some (codes "{}")) 12345 (new_queue config)

abbrev reach_flight : Reach checksum (new_queue config) in_flight
reach_flight = next here (enqueues (codes "d1") batch (some (codes "{}")) 12345)

queued : in_flight.queue ≡ first_delivery ∷ []
unfolding enqueue pump expired new_queue
queued = refl

-- A first 503 is retried, a second one dead-lettered, and a 400 at once.
busy_twice :
    (respond
      (answered false 503 none)
      16000
      0
      (wake 15000 (respond (answered false 503 none) 13000 0 in_flight))).dead_lettered
    ≡ 1
unfolding respond judge is_retryable_status wake pump expired enqueue new_queue backoff_delay exp_ms
    dead_letter
busy_twice = refl

bad_request : (respond (answered false 400 none) 13000 0 in_flight).dead_lettered ≡ 1
unfolding respond judge is_retryable_status pump expired enqueue new_queue dead_letter
bad_request = refl

posting_flight : in_flight.phase ≡ posting
unfolding enqueue pump expired new_queue
posting_flight = refl

-- The batch is accepted by the receiver.
abbrev landed : DeliveryQueue
landed = respond (answered true 200 none) 13000 0 in_flight

abbrev reach_landed : Reach checksum (new_queue config) landed
reach_landed = next reach_flight (responds (answered true 200 none) 13000 0 posting_flight)

abbrev any_batch : Batch → Bool
any_batch b = true

new_queue-Accounted_example :
    (count any_batch (all_given reach_landed)
      ≡ count any_batch (all_taken reach_landed)
        + count any_batch (lettered landed.letters)
        + count any_batch (events_of landed.queue))
    × (landed.delivered ≡ length (all_taken reach_landed))
    × Inv landed
new_queue-Accounted_example = new_queue-Accounted any_batch checksum config reach_landed

abbrev replies : List (Outcome × (ℕ × ℕ))
replies =
    (failed, (13000, 9))
    ∷ (failed, (14000, 9))
    ∷ (failed, (15000, 9))
    ∷ (failed, (16000, 9))
    ∷ (failed, (17000, 9))
    ∷ []

comes_to_rest_example :
    ((drive checksum config replies in_flight).phase ≡ stopped)
    × ((drive checksum config replies in_flight).queue ≡ [])
unfolding enqueue pump expired new_queue
comes_to_rest_example = comes_to_rest checksum config replies reach_flight (omega arith)

abort_sleeps_first_example :
    let q' = respond failed 18000 9 (expire in_flight) in
    (q'.phase ≡ sleeping)
    × (q'.queue ≡ first_delivery ∷ [])
    × (q'.dead_lettered ≡ in_flight.dead_lettered)
    × ((wake 19000 q').queue ≡ [])
    × ((wake 19000 q').dead_lettered ≡ in_flight.dead_lettered + 1)
unfolding enqueue pump expired new_queue backoff_delay exp_ms
abort_sleeps_first_example =
    abort_sleeps_first in_flight first_delivery [] 18000 9 19000 refl refl (omega arith)
      (omega arith)
