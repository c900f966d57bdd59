-- ===== src/Webhook/Delivery/Progress.antt =====
-- Deliveries keep their signature, and the pump never stops or sleeps over one that it could send.
use whats_multi.Utils.Backoff.{backoff_delay}
use whats_multi.Webhook.Signature.{sign_payload}
use whats_multi.Webhook.Delivery.{
  DeliveryConfig, Delivery, DeliveryQueue, DeadLetter, Phase, stopped, posting, sleeping,
  WebhookEvent, Outcome, Verdict, accepted, final, again, delay_of, on_head, settle, accept,
  flush_from, flush, dead_letter, expired, pump, post, new_queue, enqueue, respond, judge, wake,
  expire, close, Step, enqueues, responds, wakes, expires, closes, Reach, here, next,
}
use whats_multi.Prelude.{
  ℕ, ◌+◌, ◌≡◌, refl, subst, ◌∙◌, inl, inr, Bool, true, false, not, ◌&&◌, Option, none, some, List,
  [], ◌∷◌, ◌++◌, arith, ltb, leb, ◌==◌, if◌then◌else◌, Bool-cases, length, is_empty, All,
  All-append, Text,
}

pub flush_from-empties :
    (ds : List Delivery) (q : DeliveryQueue)
    → ((flush_from ds q).queue ≡ [])
      × ((flush_from ds q).phase ≡ stopped)
      × ((flush_from ds q).config ≡ q.config)
unfolding flush_from dead_letter
flush_from-empties [] q = (refl, refl, refl)
flush_from-empties (d ∷ ds) q = flush_from-empties ds _

abbrev pub IsSigned : (Text → Text → Text) → DeliveryConfig → Delivery → Type 0
IsSigned hmac c d = d.signature ≡ (sign_payload hmac c.secret d.body d.t).header

abbrev pub can_retry : ℕ → List Delivery → Bool
can_retry most [] = false
can_retry most (d ∷ ds) = ltb d.attempts most

module _ (hmac : Text → Text → Text) (c : DeliveryConfig) where
  -- Every queued delivery carries the signature of its own body and time under the secret; the pump
  -- is stopped only over an empty queue, and sleeps only if the head has an attempt left.
  pub record Alive (q : DeliveryQueue) : Type 0 where
    pub same : q.config ≡ c
    pub signed : All (IsSigned hmac c) q.queue
    pub resting : q.phase ≡ stopped → q.queue ≡ []
    pub asleep : q.phase ≡ sleeping → can_retry c.retry.max_attempts q.queue ≡ true

  flush-Alive : (q : DeliveryQueue) → q.config ≡ c → Alive (flush q)
  unfolding flush
  flush-Alive q e =
      let (empty, stop, same) = flush_from-empties q.queue q in
      record {
        same = same ∙ e;
        signed = rw empty tt;
        resting = λ _. empty;
        asleep = λ s. absurd (ground arith);
      }

  post-Alive :
      (ds : List Delivery) (q : DeliveryQueue)
      → q.queue ≡ ds
      → q.config ≡ c
      → All (IsSigned hmac c) ds
      → Alive (post ds q)
  post-Alive [] q e same h = record {
    same = same;
    signed = rw e tt;
    resting = λ _. e;
    asleep = λ s. absurd (ground arith);
  }
  post-Alive (d ∷ ds) q e same h = record {
    same = same;
    signed = h;
    resting = λ s. absurd (ground arith);
    asleep = λ s. absurd (ground arith);
  }

  pump-Alive :
      (now : ℕ) (q : DeliveryQueue)
      → q.config ≡ c
      → All (IsSigned hmac c) q.queue
      → Alive (pump now q)
  unfolding pump
  pump-Alive now q same h = elim (Bool-cases (not (is_empty q.queue) && expired now q)) [
    | inl late ↦ rw (late, pump) (flush-Alive q same)
    | inr early ↦ rw (early, pump) (post-Alive q.queue q refl same h)
  ]

  settle-Alive :
      (verdict : Verdict) (now draw : ℕ) (d : Delivery) (rest : List Delivery) (q : DeliveryQueue)
      → q.queue ≡ d ∷ rest
      → Alive q
      → Alive (settle verdict now draw d rest q)
  unfolding dead_letter
  settle-Alive accepted now draw d rest q e v =
      pump-Alive now _ v.same (subst (All (IsSigned hmac c)) e v.signed).1
  settle-Alive (final status) now draw d rest q e v =
      pump-Alive now _ v.same (subst (All (IsSigned hmac c)) e v.signed).1
  settle-Alive (again status after) now draw d rest q e v =
      elim (Bool-cases (leb q.config.retry.max_attempts d.attempts)) [
        | inl spent ↦
            rw spent (pump-Alive now _ v.same (subst (All (IsSigned hmac c)) e v.signed).1)
        | inr more ↦
            elim (Bool-cases
              (delay_of after (backoff_delay d.attempts q.config.retry.backoff draw) == 0)) [
                | inl at_once ↦ rw (more, at_once) (pump-Alive now _ v.same v.signed)
                | inr later ↦
                    rw (more, later)
                      (record {
                        same = v.same;
                        signed = v.signed;
                        resting = λ s. absurd (ground arith);
                        asleep = λ _. ground (arith, v.same, e);
                      })
              ]
      ]

  on_head-Alive :
      (outcome : Outcome) (now draw : ℕ) (ds : List Delivery) (q : DeliveryQueue)
      → q.queue ≡ ds
      → Alive q
      → Alive (on_head outcome now draw ds q)
  unfolding dead_letter
  on_head-Alive outcome now draw [] q e v = v
  on_head-Alive outcome now draw (d ∷ rest) q e v =
      settle-Alive (judge outcome) now draw d rest q e v

  respond-Alive :
      (outcome : Outcome) (now draw : ℕ) (q : DeliveryQueue)
      → Alive q
      → Alive (respond outcome now draw q)
  unfolding respond
  respond-Alive outcome now draw q v = on_head-Alive outcome now draw q.queue q refl v

  can_retry-append :
      (most : ℕ) (ds es : List Delivery)
      → can_retry most ds ≡ true
      → can_retry most (ds ++ es) ≡ true
  can_retry-append most [] es h = cc
  can_retry-append most (d ∷ ds) es h = h

  accept-Alive :
      (id body : Text) (events : List WebhookEvent) (now : ℕ) (q : DeliveryQueue) (phase : Phase)
      → q.phase ≡ phase
      → Alive q
      → Alive (accept hmac id body events now q)
  accept-Alive id body events now q stopped e v = rw e (
      pump-Alive now _ v.same
        (All-append (IsSigned hmac c) q.queue _ v.signed (rw v.same refl, tt)))
  accept-Alive id body events now q posting e v = rw e (record {
    same = v.same;
    signed = All-append (IsSigned hmac c) q.queue _ v.signed (rw v.same refl, tt);
    resting = λ s. absurd (ground arith);
    asleep = λ s. absurd (ground arith);
  })
  accept-Alive id body events now q sleeping e v = rw e (record {
    same = v.same;
    signed = All-append (IsSigned hmac c) q.queue _ v.signed (rw v.same refl, tt);
    resting = λ s. absurd (ground arith);
    asleep = λ _. can_retry-append c.retry.max_attempts q.queue _ (v.asleep e);
  })

  counted-Alive : (n : ℕ) (q : DeliveryQueue) → Alive q → Alive (record q { given = n })
  counted-Alive n q v = record {
    same = v.same;
    signed = v.signed;
    resting = v.resting;
    asleep = v.asleep;
  }

  dead_letter-Alive :
      (letter : DeadLetter) (q : DeliveryQueue) → Alive q → Alive (dead_letter letter q)
  unfolding dead_letter
  dead_letter-Alive letter q v = record {
    same = v.same;
    signed = v.signed;
    resting = v.resting;
    asleep = v.asleep;
  }

  if-Alive : (b : Bool) (q r : DeliveryQueue) → Alive q → Alive r → Alive (if b then q else r)
  if-Alive true q r v w = v
  if-Alive false q r v w = w

  enqueue-Alive :
      (id : Text) (events : List WebhookEvent) (body : Option Text) (now : ℕ) (q : DeliveryQueue)
      → Alive q
      → Alive (enqueue hmac id events body now q)
  unfolding enqueue
  enqueue-Alive id [] body now q v = v
  enqueue-Alive id (x ∷ events) none now q v =
      let v' = counted-Alive (q.given + 1) q v in
      if-Alive q.closing _ _ (dead_letter-Alive _ _ v') (dead_letter-Alive _ _ v')
  enqueue-Alive id (x ∷ events) (some body) now q v =
      let v' = counted-Alive (q.given + 1) q v in
      if-Alive q.closing _ _ (dead_letter-Alive _ _ v') (
        if-Alive (leb q.config.max_queue (length q.queue)) _ _ (dead_letter-Alive _ _ v')
          (accept-Alive id body (x ∷ events) now _ q.phase refl v'))

  expire-Alive : (q : DeliveryQueue) → Alive q → Alive (expire q)
  unfolding expire
  expire-Alive q v = ground (arith, flush-Alive (record q { deadline = some 0 }) v.same)

  close-Alive : (now : ℕ) (q : DeliveryQueue) → Alive q → Alive (close now q)
  unfolding close
  close-Alive now q v = ground (
    arith,
    expire-Alive (record q { closing = true; deadline = some (now + q.config.drain_timeout_ms) })
        (record { same = v.same; signed = v.signed; resting = v.resting; asleep = v.asleep }),
  )

  Step-Alive : {q r : DeliveryQueue} → Step hmac q r → Alive q → Alive r
  unfolding wake
  Step-Alive {q} (enqueues id events body now) v = enqueue-Alive id events body now q v
  Step-Alive {q} (responds outcome now draw e) v = respond-Alive outcome now draw q v
  Step-Alive {q} (wakes now e) v = pump-Alive now q v.same v.signed
  Step-Alive {q} (expires e) v = expire-Alive q v
  Step-Alive {q} (closes now) v = close-Alive now q v

  reach-Alive : {q r : DeliveryQueue} → Alive q → Reach hmac q r → Alive r
  reach-Alive v here = v
  reach-Alive v (next r s) = Step-Alive s (reach-Alive v r)

  -- In every state that a new queue can reach, whatever was retried, a queued delivery still carries
  -- the signature of its body and signing time under the secret; the pump is stopped only when
  -- nothing is queued, and sleeps only for a delivery that has an attempt left.
  pub new_queue-Alive : {q : DeliveryQueue} → Reach hmac (new_queue c) q → Alive q
  unfolding new_queue
  new_queue-Alive r =
      reach-Alive
        (record {
          same = refl;
          signed = tt;
          resting = λ _. refl;
          asleep = λ s. absurd (ground arith);
        })
        r
