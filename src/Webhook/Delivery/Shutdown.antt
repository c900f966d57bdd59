-- ===== src/Webhook/Delivery/Shutdown.antt =====
-- How a shutdown ends.
use whats_multi.Utils.Backoff.{backoff_delay}
use whats_multi.Webhook.Delivery.{
  Delivery, DeliveryQueue, posting, sleeping, failed, expired, flush_from, flush, pump, dead_letter,
  respond, judge, wake, expire,
}
use whats_multi.Webhook.Delivery.Progress.{flush_from-empties}
use whats_multi.Prelude.{ℕ, ◌+◌, ◌<◌, ◌≡◌, refl, ap, ◌∙◌, some, List, [], ◌∷◌, arith, length}

flush_from-letters :
    (ds : List Delivery) (q : DeliveryQueue)
    → (flush_from ds q).dead_lettered ≡ q.dead_lettered + length ds
unfolding flush_from dead_letter
flush_from-letters [] q = omega arith
flush_from-letters (d ∷ ds) q = omega (arith, flush_from-letters ds _)

abbrev asleep : DeliveryQueue → DeliveryQueue
asleep q = record q { deadline = some 0; retries = q.retries + 1; phase = sleeping }

aborted :
    (q : DeliveryQueue) (d : Delivery) (rest : List Delivery) (now draw : ℕ)
    → q.queue ≡ d ∷ rest
    → q.phase ≡ posting
    → d.attempts < q.config.retry.max_attempts
    → 0 < backoff_delay d.attempts q.config.retry.backoff draw
    → respond failed now draw (expire q) ≡ asleep q
unfolding respond judge expire
aborted q d rest now draw e p more positive = ground arith

wake_expired :
    (q : DeliveryQueue) (d : Delivery) (rest : List Delivery) (later : ℕ)
    → q.queue ≡ d ∷ rest
    → q.deadline ≡ some 0
    → wake later q ≡ flush_from (d ∷ rest) q
unfolding wake pump flush expired
wake_expired q d rest later e x = ground arith

-- When the grace ends during a request whose delivery has an attempt left, the aborted request is
-- counted as a failure like any other: the pump first sleeps its whole backoff, with everything
-- still queued and nothing dead-lettered, and only when it wakes does it dead-letter all of it.
pub abort_sleeps_first :
    (q : DeliveryQueue) (d : Delivery) (rest : List Delivery) (now draw later : ℕ)
    → q.queue ≡ d ∷ rest
    → q.phase ≡ posting
    → d.attempts < q.config.retry.max_attempts
    → 0 < backoff_delay d.attempts q.config.retry.backoff draw
    → let q' = respond failed now draw (expire q) in
      (q'.phase ≡ sleeping)
      × (q'.queue ≡ d ∷ rest)
      × (q'.dead_lettered ≡ q.dead_lettered)
      × ((wake later q').queue ≡ [])
      × ((wake later q').dead_lettered ≡ q.dead_lettered + length (d ∷ rest))
abort_sleeps_first q d rest now draw later e p more positive =
    let same = aborted q d rest now draw e p more positive in
    let woken = wake_expired (asleep q) d rest later e refl in
    (
      ap (λ r. r.phase) same,
      ap (λ r. r.queue) same ∙ e,
      ap (λ r. r.dead_lettered) same,
      ap (λ r. (wake later r).queue) same
          ∙ ap (λ r. r.queue) woken
          ∙ (flush_from-empties (d ∷ rest) (asleep q)).0,
      ap (λ r. (wake later r).dead_lettered) same
          ∙ ap (λ r. r.dead_lettered) woken
          ∙ flush_from-letters (d ∷ rest) (asleep q),
    )
