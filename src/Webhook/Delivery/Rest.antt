-- ===== src/Webhook/Delivery/Rest.antt =====
-- The pump comes to rest, whatever the receiver answers.
use whats_multi.Utils.Backoff.{backoff_delay}
use whats_multi.Webhook.Delivery.{
  DeliveryConfig, Delivery, DeliveryQueue, Phase, stopped, posting, sleeping, Outcome, failed,
  Verdict, accepted, final, again, delay_of, on_head, settle, flush, dead_letter, expired, pump,
  post, new_queue, respond, judge, wake, responds, wakes, Reach, next,
}
use whats_multi.Webhook.Delivery.Invariant.{new_queue-Inv}
use whats_multi.Prelude.{
  ℕ, ◌+◌, ◌-◌, ◌*◌, ◌≤◌, ◌<◌, ◌≡◌, refl, ap, ◌∙◌, ◌≢◌, inl, inr, true, false, not, ◌&&◌, List, [],
  ◌∷◌, arith, leb, ◌==◌, Bool-cases, length, is_empty, Text,
}
use whats_multi.Webhook.Delivery.Progress.{Alive, new_queue-Alive, flush_from-empties, can_retry}

module _ (hmac : Text → Text → Text) (c : DeliveryConfig) where
  -- The rounds that are left: two for each attempt, two for each delivery, one for a request.
  abbrev pub weights : List Delivery → ℕ
  weights [] = 0
  weights (d ∷ ds) = 2 * (c.retry.max_attempts - d.attempts) + 2 + weights ds

  abbrev pub in_flight : Phase → ℕ
  in_flight posting = 1
  in_flight _ = 0

  abbrev pub measure : DeliveryQueue → ℕ
  measure q = weights q.queue + in_flight q.phase

  flush-measure : (q : DeliveryQueue) → measure (flush q) ≡ 0
  unfolding flush
  flush-measure q = let (empty, stop, same) = flush_from-empties q.queue q in rw (empty, stop) refl

  weights_pos : (ds : List Delivery) → can_retry c.retry.max_attempts ds ≡ true → 0 < weights ds
  weights_pos [] h = cc
  weights_pos (d ∷ ds) h = omega arith

  -- Starting the head costs at most the request, and nothing if it has an attempt left.
  post-measure :
      (ds : List Delivery) (q : DeliveryQueue)
      → q.queue ≡ ds
      → (measure (post ds q) ≤ weights ds + 1)
        × (can_retry c.retry.max_attempts ds ≡ true → measure (post ds q) < weights ds)
  post-measure [] q e = (ground arith, λ h. cc)
  post-measure (d ∷ ds) q e = (omega arith, λ h. ground arith)

  pump-measure :
      (now : ℕ) (q : DeliveryQueue)
      → (measure (pump now q) ≤ weights q.queue + 1)
        × (can_retry c.retry.max_attempts q.queue ≡ true → measure (pump now q) < weights q.queue)
  unfolding pump
  pump-measure now q = elim (Bool-cases (not (is_empty q.queue) && expired now q)) [
    | inl late ↦ rw (late, pump) (rw (flush-measure q) (omega arith, λ h. weights_pos q.queue h))
    | inr early ↦ rw (early, pump) (post-measure q.queue q refl)
  ]

  settle-measure :
      (verdict : Verdict) (now draw : ℕ) (d : Delivery) (rest : List Delivery) (q : DeliveryQueue)
      → q.queue ≡ d ∷ rest
      → q.config ≡ c
      → q.phase ≡ posting
      → measure (settle verdict now draw d rest q) < measure q
  unfolding dead_letter
  settle-measure accepted now draw d rest q e same p =
      rw (e, p) (omega (arith, (pump-measure now _).0))
  settle-measure (final status) now draw d rest q e same p =
      rw (e, p) (omega (arith, (pump-measure now _).0))
  settle-measure (again status after) now draw d rest q e same p =
      let total : measure q ≡ weights (d ∷ rest) + 1 = rw (e, p) refl in
      elim (Bool-cases (leb q.config.retry.max_attempts d.attempts)) [
        | inl spent ↦ rw spent (omega (arith, total, (pump-measure now _).0))
        | inr more ↦
            let left : can_retry c.retry.max_attempts q.queue ≡ true = ground (arith, same, e) in
            elim (Bool-cases
              (delay_of after (backoff_delay d.attempts q.config.retry.backoff draw) == 0)) [
                | inl at_once ↦ rw (more, at_once) (omega (arith, (pump-measure now _).1 left))
                | inr later ↦ rw (more, later) (omega (arith, total, ap weights e))
              ]
      ]

  on_head-measure :
      (outcome : Outcome) (now draw : ℕ) (ds : List Delivery) (q : DeliveryQueue)
      → q.queue ≡ ds
      → Alive hmac c q
      → q.phase ≡ posting
      → 0 < length ds
      → measure (on_head outcome now draw ds q) < measure q
  on_head-measure outcome now draw [] q e v p h = elim h [ ]
  on_head-measure outcome now draw (d ∷ rest) q e v p h =
      settle-measure (judge outcome) now draw d rest q e v.same p

  -- What the environment brings next: the answer to a request, or nothing that matters to a sleep.
  abbrev pub turn : Phase → Outcome × (ℕ × ℕ) → DeliveryQueue → DeliveryQueue
  turn posting (outcome, (now, draw)) q = respond outcome now draw q
  turn sleeping (outcome, (now, draw)) q = wake now q
  turn stopped t q = q

  unfoldable pub drive : List (Outcome × (ℕ × ℕ)) → DeliveryQueue → DeliveryQueue
  drive [] q = q
  drive (t ∷ ts) q = drive ts (turn q.phase t q)

  turn-Reach :
      (phase : Phase) (t : Outcome × (ℕ × ℕ)) (q : DeliveryQueue)
      → q.phase ≡ phase
      → Reach hmac (new_queue c) q
      → Reach hmac (new_queue c) (turn phase t q)
  turn-Reach posting (outcome, (now, draw)) q e r = next r (responds outcome now draw e)
  turn-Reach sleeping (outcome, (now, draw)) q e r = next r (wakes now e)
  turn-Reach stopped t q e r = r

  length_of_filled : (ds : List Delivery) → is_empty ds ≡ false → 0 < length ds
  length_of_filled [] h = cc
  length_of_filled (d ∷ ds) h = omega arith

  turn-measure :
      (phase : Phase) (t : Outcome × (ℕ × ℕ)) (q : DeliveryQueue)
      → q.phase ≡ phase
      → phase ≢ stopped
      → Reach hmac (new_queue c) q
      → measure (turn phase t q) < measure q
  unfolding respond wake
  turn-measure stopped t q e ne r = absurd (ne refl)
  turn-measure posting (outcome, (now, draw)) q e ne r =
      on_head-measure outcome now draw q.queue q refl (new_queue-Alive hmac c r) e
        (length_of_filled q.queue ((new_queue-Inv hmac c r).running (ground arith)))
  turn-measure sleeping (outcome, (now, draw)) q e ne r =
      omega (arith, (pump-measure now q).1 ((new_queue-Alive hmac c r).asleep e))

  turn_stopped :
      (phase : Phase) (t : Outcome × (ℕ × ℕ)) (q : DeliveryQueue)
      → phase ≡ stopped
      → turn phase t q ≡ q
  turn_stopped stopped t q e = refl
  turn_stopped posting t q e = absurd (ground arith)
  turn_stopped sleeping t q e = absurd (ground arith)

  drive_stopped :
      (ts : List (Outcome × (ℕ × ℕ))) (q : DeliveryQueue) → q.phase ≡ stopped → drive ts q ≡ q
  unfolding drive
  drive_stopped [] q e = refl
  drive_stopped (t ∷ ts) q e = ap (drive ts) (turn_stopped q.phase t q e) ∙ drive_stopped ts q e

  abbrev AtRest : DeliveryQueue → Type 0
  AtRest q = (q.phase ≡ stopped) × (q.queue ≡ [])

  drive_rests :
      (ts : List (Outcome × (ℕ × ℕ))) (q : DeliveryQueue) (phase : Phase)
      → q.phase ≡ phase
      → Reach hmac (new_queue c) q
      → measure q ≤ length ts
      → AtRest (drive ts q)
  unfolding drive
  drive_rests ts q stopped e r m =
      rw (drive_stopped ts q e) (e, (new_queue-Alive hmac c r).resting e)
  drive_rests [] q posting e r m =
      absurd (omega (arith, turn-measure posting (failed, (0, 0)) q e (λ s. ground arith) r))
  drive_rests [] q sleeping e r m =
      absurd (omega (arith, turn-measure sleeping (failed, (0, 0)) q e (λ s. ground arith) r))
  drive_rests (t ∷ ts) q posting e r m =
      drive_rests ts (turn q.phase t q) (turn q.phase t q).phase refl
        (turn-Reach q.phase t q refl r)
        (omega (arith, turn-measure q.phase t q refl (λ s. ground arith) r))
  drive_rests (t ∷ ts) q sleeping e r m =
      drive_rests ts (turn q.phase t q) (turn q.phase t q).phase refl
        (turn-Reach q.phase t q refl r)
        (omega (arith, turn-measure q.phase t q refl (λ s. ground arith) r))

  -- Whatever a receiver answers, every queued delivery is settled in the end: from any state that a
  -- new queue can reach, as many answers and ended sleeps as `measure` counts leave the queue empty
  -- and the pump stopped.
  pub comes_to_rest :
      (ts : List (Outcome × (ℕ × ℕ))) {q : DeliveryQueue}
      → Reach hmac (new_queue c) q
      → measure q ≤ length ts
      → ((drive ts q).phase ≡ stopped) × ((drive ts q).queue ≡ [])
  comes_to_rest ts {q} r m = drive_rests ts q q.phase refl r m
