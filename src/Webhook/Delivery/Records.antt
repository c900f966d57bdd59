-- ===== src/Webhook/Delivery/Records.antt =====
-- The data of src/webhook/delivery.ts.
use whats_multi.Utils.Backoff.{BackoffConfig}
use whats_multi.Prelude.{ℕ, Bool, Option, List, Text}

-- Without its `data`, which only the encoder reads.
pub record WebhookEvent : Type 0 where
  pub event : Text
  pub session_id : Text
  pub ts : ℕ

pub record RetryConfig : Type 0 where
  pub backoff : BackoffConfig
  pub max_attempts : ℕ

pub record DeliveryConfig : Type 0 where
  pub secret : Text
  pub max_queue : ℕ
  pub drain_timeout_ms : ℕ
  pub retry : RetryConfig

pub record Delivery : Type 0 where
  pub id : Text
  pub t : ℕ
  pub body : Text
  pub signature : Text
  pub events : List WebhookEvent
  pub attempts : ℕ

pub data DeadLetterReason : Type 0 where
  overflow rejected exhausted encode shutdown : DeadLetterReason

pub record DeadLetter : Type 0 where
  pub reason : DeadLetterReason
  pub events : List WebhookEvent
  pub attempts : ℕ
  pub status : Option ℕ
  pub delivery : Option Delivery

-- Where the pump is: not running, waiting for `#post`, or waiting in `#sleep`.
pub data Phase : Type 0 where
  stopped posting sleeping : Phase

-- `letters` is what `onDeadLetter` was called with, `settled` the deliveries that left the queue,
-- `signed` the ids in the order of `enqueue`; these and `given` record what happened.
pub record DeliveryQueue : Type 0 where
  pub config : DeliveryConfig
  pub queue : List Delivery
  pub phase : Phase
  pub closing : Bool
  pub deadline : Option ℕ
  pub delivered : ℕ
  pub dead_lettered : ℕ
  pub retries : ℕ
  pub letters : List DeadLetter
  pub given : ℕ
  pub signed : List Text
  pub settled : List Text
