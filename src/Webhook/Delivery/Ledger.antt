-- ===== src/Webhook/Delivery/Ledger.antt =====
-- Where each batch went: what was given against what the receiver took, the dead letter got and the
-- queue still holds.
use whats_multi.Utils.Backoff.{backoff_delay}
use whats_multi.Webhook.Delivery.{
  DeliveryConfig, Delivery, DeliveryQueue, DeadLetter, Phase, stopped, posting, sleeping,
  WebhookEvent, Outcome, answered, failed, final, again, delay_of, on_head, settle, accept,
  flush_from, flush, dead_letter, expired, pump, post, new_queue, enqueue, respond, judge,
  is_retryable_status, wake, expire, close, Step, enqueues, responds, wakes, expires, closes, Reach,
  here, next,
}
use whats_multi.Webhook.Delivery.Invariant.{Inv, new_queue-Inv}
use whats_multi.Prelude.{
  ℕ, ◌+◌, ◌≡◌, refl, ap, ◌∙◌, inl, inr, Bool, true, false, not, ◌&&◌, Option, none, some, List, [],
  ◌∷◌, ◌++◌, arith, leb, ◌==◌, if◌then◌else◌, Bool-cases, length, is_empty, length-append, Text,
}

abbrev pub Batch : Type 0
Batch = List WebhookEvent

-- The batches of a test, with their multiplicity.
abbrev pub count : (Batch → Bool) → List Batch → ℕ
count p [] = 0
count p (b ∷ bs) = (if p b then 1 else 0) + count p bs

abbrev pub events_of : List Delivery → List Batch
events_of [] = []
events_of (d ∷ ds) = d.events ∷ events_of ds

abbrev pub lettered : List DeadLetter → List Batch
lettered [] = []
lettered (l ∷ ls) = l.events ∷ lettered ls

-- The batch that a response with a status of success acknowledges: that of the head.
abbrev pub taken : Outcome → List Delivery → List Batch
taken (answered true status after) (d ∷ rest) = d.events ∷ []
taken _ _ = []

-- What a turn was given, and what it got acknowledged.
abbrev pub given_to : {hmac : Text → Text → Text} {q r : DeliveryQueue} → Step hmac q r → List Batch
given_to (enqueues id events body now) = if is_empty events then [] else events ∷ []
given_to _ = []

abbrev pub taken_from :
    {hmac : Text → Text → Text} {q r : DeliveryQueue} → Step hmac q r → List Batch
taken_from {hmac} {q} (responds outcome now draw e) = taken outcome q.queue
taken_from _ = []

-- Over a run, the latest first.
abbrev pub all_given :
    {hmac : Text → Text → Text} {q r : DeliveryQueue} → Reach hmac q r → List Batch
all_given here = []
all_given (next r s) = given_to s ++ all_given r

abbrev pub all_taken :
    {hmac : Text → Text → Text} {q r : DeliveryQueue} → Reach hmac q r → List Batch
all_taken here = []
all_taken (next r s) = taken_from s ++ all_taken r

module _ (p : Batch → Bool) where
  count-append : (bs cs : List Batch) → count p (bs ++ cs) ≡ count p bs + count p cs
  count-append [] cs = omega arith
  count-append (b ∷ bs) cs = omega (arith, count-append bs cs)

  events_of-append :
      (ds : List Delivery) (d : Delivery)
      → count p (events_of (ds ++ d ∷ [])) ≡ count p (events_of ds) + count p (d.events ∷ [])
  events_of-append [] d = omega arith
  events_of-append (x ∷ ds) d = omega (arith, events_of-append ds d)

  -- What is not acknowledged: with the dead letter or in the queue.
  abbrev left : DeliveryQueue → ℕ
  left q = count p (lettered q.letters) + count p (events_of q.queue)

  -- The turn from `q` to `r` was given `g` and got `t` acknowledged.
  abbrev Moved : List Batch → List Batch → DeliveryQueue → DeliveryQueue → Type 0
  Moved g t q r = (left q + count p g ≡ count p t + left r) × (r.delivered ≡ q.delivered + length t)

  flush_from-Moved :
      (ds : List Delivery) (q : DeliveryQueue)
      → (left (flush_from ds q) ≡ count p (lettered q.letters) + count p (events_of ds))
        × ((flush_from ds q).delivered ≡ q.delivered)
  unfolding flush_from dead_letter
  flush_from-Moved [] q = (omega arith, refl)
  flush_from-Moved (d ∷ ds) q = let (w, k) = flush_from-Moved ds _ in (w ∙ omega arith, k)

  flush-Moved : (q : DeliveryQueue) → Moved [] [] q (flush q)
  unfolding flush
  flush-Moved q = let (w, k) = flush_from-Moved q.queue q in (omega (arith, w), omega (arith, k))

  post-Moved : (q : DeliveryQueue) → Moved [] [] q (post q.queue q)
  post-Moved q = ground arith

  pump-Moved : (now : ℕ) (q : DeliveryQueue) → Moved [] [] q (pump now q)
  unfolding pump
  pump-Moved now q = elim (Bool-cases (not (is_empty q.queue) && expired now q)) [
    | inl late ↦ rw (late, pump) (flush-Moved q)
    | inr early ↦ rw (early, pump) (post-Moved q)
  ]

  then_pump :
      (g t : List Batch) (now : ℕ) (q r : DeliveryQueue) → Moved g t q r → Moved g t q (pump now r)
  then_pump g t now q r (w, k) =
      let (v, j) = pump-Moved now r in (omega (arith, w, v), omega (arith, k, j))

  expire-Moved : (q : DeliveryQueue) → Moved [] [] q (expire q)
  unfolding expire
  expire-Moved q = ground (arith, flush-Moved (record q { deadline = some 0 }))

  close-Moved : (now : ℕ) (q : DeliveryQueue) → Moved [] [] q (close now q)
  unfolding close
  close-Moved now q = ground (
    arith,
    expire-Moved (record q { closing = true; deadline = some (now + q.config.drain_timeout_ms) }),
  )

  pushed :
      (q : DeliveryQueue) (d : Delivery)
      → left (record q { queue = q.queue ++ d ∷ []; signed = q.signed ++ d.id ∷ [] })
        ≡ left q + count p (d.events ∷ [])
  pushed q d = omega (arith, events_of-append q.queue d)

  accept-Moved :
      (hmac : Text → Text → Text) (id body : Text) (events : Batch) (now : ℕ) (q : DeliveryQueue)
      (phase : Phase)
      → q.phase ≡ phase
      → Moved (events ∷ []) [] q (accept hmac id body events now q)
  accept-Moved hmac id body events now q stopped e =
      rw e (then_pump (events ∷ []) [] now q _ (omega (arith, pushed q _), omega arith))
  accept-Moved hmac id body events now q posting e = rw e (omega (arith, pushed q _), omega arith)
  accept-Moved hmac id body events now q sleeping e = rw e (omega (arith, pushed q _), omega arith)

  enqueue-Moved :
      (hmac : Text → Text → Text) (id : Text) (events : Batch) (body : Option Text) (now : ℕ)
      (q : DeliveryQueue)
      → Moved (if is_empty events then [] else events ∷ []) [] q (enqueue hmac id events body now q)
  unfolding enqueue dead_letter
  enqueue-Moved hmac id [] body now q = ground arith
  enqueue-Moved hmac id (x ∷ events) none now q = ground arith
  enqueue-Moved hmac id (x ∷ events) (some body) now q = ground (
    arith,
    accept-Moved hmac id body (x ∷ events) now (record q { given = q.given + 1 }) q.phase refl,
  )

  final-Moved :
      (status now draw : ℕ) (d : Delivery) (rest : List Delivery) (q : DeliveryQueue)
      → q.queue ≡ d ∷ rest
      → Moved [] [] q (settle (final status) now draw d rest q)
  unfolding dead_letter
  final-Moved status now draw d rest q e =
      let split = ap (λ ds. count p (events_of ds)) e in
      then_pump [] [] now q _ (omega (arith, split), omega arith)

  again-Moved :
      (status after : Option ℕ) (now draw : ℕ) (d : Delivery) (rest : List Delivery)
      (q : DeliveryQueue)
      → q.queue ≡ d ∷ rest
      → Moved [] [] q (settle (again status after) now draw d rest q)
  unfolding dead_letter
  again-Moved status after now draw d rest q e =
      let split = ap (λ ds. count p (events_of ds)) e in
      elim (Bool-cases (leb q.config.retry.max_attempts d.attempts)) [
        | inl spent ↦ rw spent (then_pump [] [] now q _ (omega (arith, split), omega arith))
        | inr more ↦
            elim (Bool-cases
              (delay_of after (backoff_delay d.attempts q.config.retry.backoff draw) == 0)) [
                | inl at_once ↦
                    rw (more, at_once) (then_pump [] [] now q _ (omega arith, omega arith))
                | inr later ↦ rw (more, later) (omega arith, omega arith)
              ]
      ]

  on_head-Moved :
      (outcome : Outcome) (now draw : ℕ) (ds : List Delivery) (q : DeliveryQueue)
      → q.queue ≡ ds
      → Moved [] (taken outcome ds) q (on_head outcome now draw ds q)
  unfolding judge
  on_head-Moved failed now draw [] q e = (omega arith, omega arith)
  on_head-Moved (answered true status after) now draw [] q e = (omega arith, omega arith)
  on_head-Moved (answered false status after) now draw [] q e = (omega arith, omega arith)
  on_head-Moved failed now draw (d ∷ rest) q e = again-Moved none none now draw d rest q e
  on_head-Moved (answered true status after) now draw (d ∷ rest) q e =
      let split = ap (λ ds. count p (events_of ds)) e in
      then_pump [] (d.events ∷ []) now q _ (omega (arith, split), omega arith)
  on_head-Moved (answered false status after) now draw (d ∷ rest) q e =
      elim (Bool-cases (is_retryable_status status)) [
        | inl more ↦ rw (more, judge) (again-Moved (some status) after now draw d rest q e)
        | inr final_one ↦ rw (final_one, judge) (final-Moved status now draw d rest q e)
      ]

  Step-Moved :
      {hmac : Text → Text → Text} {q r : DeliveryQueue} (s : Step hmac q r)
      → Moved (given_to s) (taken_from s) q r
  unfolding wake respond
  Step-Moved {hmac} {q} (enqueues id events body now) = enqueue-Moved hmac id events body now q
  Step-Moved {hmac} {q} (responds outcome now draw e) =
      on_head-Moved outcome now draw q.queue q refl
  Step-Moved {hmac} {q} (wakes now e) = pump-Moved now q
  Step-Moved {hmac} {q} (expires e) = expire-Moved q
  Step-Moved {hmac} {q} (closes now) = close-Moved now q

  reach-Moved :
      {hmac : Text → Text → Text} {q r : DeliveryQueue} (s : Reach hmac q r)
      → Moved (all_given s) (all_taken s) q r
  reach-Moved here = (omega arith, omega arith)
  reach-Moved (next r s) =
      let (w, k) = reach-Moved r in
      let (v, j) = Step-Moved s in
      (
        omega (
          arith,
          w,
          v,
          count-append (given_to s) (all_given r),
          count-append (taken_from s) (all_taken r),
        ),
        omega (arith, k, j, length-append (taken_from s) (all_taken r)),
      )

  -- In every state that a new queue can reach: each batch that was given has been acknowledged by a
  -- response with a status of success, or has gone with its events to the dead letter, or is still
  -- queued, and as often as it was given; the counters of given, delivered and dead-lettered batches
  -- say so; deliveries leave in the order in which they were signed, and none is skipped; and the pump
  -- runs only over a queue that is not empty.
  pub new_queue-Accounted :
      (hmac : Text → Text → Text) (c : DeliveryConfig) {q : DeliveryQueue}
      (r : Reach hmac (new_queue c) q)
      → (count p (all_given r)
          ≡ count p (all_taken r) + count p (lettered q.letters) + count p (events_of q.queue))
        × (q.delivered ≡ length (all_taken r))
        × Inv q
  unfolding new_queue
  new_queue-Accounted hmac c r =
      let (w, k) = reach-Moved r in (omega (arith, w), omega (arith, k), new_queue-Inv hmac c r)
