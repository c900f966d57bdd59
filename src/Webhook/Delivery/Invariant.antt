-- ===== src/Webhook/Delivery/Invariant.antt =====
-- Nothing is dropped quietly, and nothing is reordered.
use mathlib.Core.List.{append_assoc}
use whats_multi.Utils.Backoff.{backoff_delay}
use whats_multi.Webhook.Delivery.{
  DeliveryConfig, Delivery, DeliveryQueue, Phase, stopped, posting, sleeping, WebhookEvent, Outcome,
  Verdict, accepted, final, again, delay_of, on_head, settle, accept, flush_from, flush,
  dead_letter, expired, pump, post, new_queue, enqueue, respond, judge, wake, expire, close, Step,
  enqueues, responds, wakes, expires, closes, Reach, here, next,
}
use whats_multi.Prelude.{
  ℕ, ◌+◌, ◌-◌, ◌<◌, ◌≡◌, refl, sym, ap, ◌∙◌, ◌≢◌, inl, inr, true, false, not, ◌&&◌, Option, none,
  some, List, [], ◌∷◌, ◌++◌, arith, leb, ◌==◌, Bool-cases, length, is_empty, length-append, Text,
}

abbrev pub ids : List Delivery → List Text
ids [] = []
ids (d ∷ ds) = d.id ∷ ids ds

pub record Inv (q : DeliveryQueue) : Type 0 where
  pub reported : q.dead_lettered ≡ length q.letters
  pub conserved : q.given ≡ q.delivered + q.dead_lettered + length q.queue
  pub ordered : q.signed ≡ q.settled ++ ids q.queue
  pub running : q.phase ≢ stopped → is_empty q.queue ≡ false

flush_from-Inv :
    (ds : List Delivery) (q : DeliveryQueue)
    → q.dead_lettered ≡ length q.letters
    → q.given ≡ q.delivered + q.dead_lettered + length ds
    → q.signed ≡ q.settled ++ ids ds
    → Inv (flush_from ds q)
unfolding flush_from dead_letter
flush_from-Inv [] q r c o = record {
  reported = r;
  conserved = c;
  ordered = o;
  running = λ h. absurd (h refl);
}
flush_from-Inv (d ∷ ds) q r c o =
    flush_from-Inv ds _ (omega (arith)) (omega arith)
      (o ∙ sym (append_assoc q.settled (d.id ∷ []) (ids ds)))

-- All of the invariant but its last field, which the pump restores.
abbrev Core : DeliveryQueue → Type 0
Core q =
    (q.dead_lettered ≡ length q.letters)
    × (q.given ≡ q.delivered + q.dead_lettered + length q.queue)
    × (q.signed ≡ q.settled ++ ids q.queue)

flush-Inv : (q : DeliveryQueue) → Core q → Inv (flush q)
unfolding flush
flush-Inv q (r, c, o) = flush_from-Inv q.queue q r c o

post-Inv : (q : DeliveryQueue) → Core q → Inv (post q.queue q)
post-Inv q (r, c, o) = ground arith

pump-Inv : (now : ℕ) (q : DeliveryQueue) → Core q → Inv (pump now q)
unfolding pump
pump-Inv now q h = elim (Bool-cases (not (is_empty q.queue) && expired now q)) [
  | inl late ↦ rw (late, pump) (flush-Inv q h)
  | inr early ↦ rw (early, pump) (post-Inv q h)
]

ids-append : (ds : List Delivery) (d : Delivery) → ids (ds ++ d ∷ []) ≡ ids ds ++ d.id ∷ []
ids-append [] d = refl
ids-append (x ∷ ds) d = ap (λ l. x.id ∷ l) (ids-append ds d)

is_empty-snoc : (ds : List Delivery) (d : Delivery) → is_empty (ds ++ d ∷ []) ≡ false
is_empty-snoc [] d = refl
is_empty-snoc (x ∷ ds) d = refl

-- The state behind the push, before the pump.
push-Core :
    (q : DeliveryQueue) (d : Delivery)
    → Core (record q { given = q.given - 1 })
    → 0 < q.given
    → Core (record q { queue = q.queue ++ d ∷ []; signed = q.signed ++ d.id ∷ [] })
push-Core q d (r, c, o) p = (
  r,
  omega (arith, length-append q.queue (d ∷ [])),
  ap (λ l. l ++ d.id ∷ []) o
      ∙ append_assoc q.settled (ids q.queue) (d.id ∷ [])
      ∙ ap (◌++◌ q.settled) (sym (ids-append q.queue d)),
)

accept-Inv :
    (hmac : Text → Text → Text) (id body : Text) (events : List WebhookEvent) (now : ℕ)
    (q : DeliveryQueue) (phase : Phase)
    → q.phase ≡ phase
    → Core (record q { given = q.given - 1 })
    → 0 < q.given
    → Inv (accept hmac id body events now q)
accept-Inv hmac id body events now q stopped e h p = rw e (pump-Inv now _ (push-Core q _ h p))
accept-Inv hmac id body events now q posting e h p =
    let (r, c, o) = push-Core q _ h p in
    rw e
      (record { reported = r; conserved = c; ordered = o; running = λ _. is_empty-snoc q.queue _ })
accept-Inv hmac id body events now q sleeping e h p =
    let (r, c, o) = push-Core q _ h p in
    rw e
      (record { reported = r; conserved = c; ordered = o; running = λ _. is_empty-snoc q.queue _ })

enqueue-Inv :
    (hmac : Text → Text → Text) (id : Text) (events : List WebhookEvent) (body : Option Text)
    (now : ℕ) (q : DeliveryQueue)
    → Inv q
    → Inv (enqueue hmac id events body now q)
unfolding enqueue dead_letter
enqueue-Inv hmac id [] body now q v = v
enqueue-Inv hmac id (x ∷ events) none now q v = ground arith
enqueue-Inv hmac id (x ∷ events) (some body) now q v = ground (
  arith,
  accept-Inv hmac id body (x ∷ events) now (record q { given = q.given + 1 }) q.phase refl
      (v.reported, omega (arith, v.conserved), v.ordered),
)

expire-Inv : (q : DeliveryQueue) → Inv q → Inv (expire q)
unfolding expire
expire-Inv q v =
    ground (arith, flush-Inv (record q { deadline = some 0 }) (v.reported, v.conserved, v.ordered))

close-Inv : (now : ℕ) (q : DeliveryQueue) → Inv q → Inv (close now q)
unfolding close
close-Inv now q v = ground (
  arith,
  expire-Inv (record q { closing = true; deadline = some (now + q.config.drain_timeout_ms) })
      (record {
        reported = v.reported;
        conserved = v.conserved;
        ordered = v.ordered;
        running = v.running;
      }),
)

settle-Inv :
    (verdict : Verdict) (now draw : ℕ) (d : Delivery) (rest : List Delivery) (q : DeliveryQueue)
    → q.queue ≡ d ∷ rest
    → Inv q
    → Inv (settle verdict now draw d rest q)
unfolding dead_letter
settle-Inv accepted now draw d rest q e v =
    pump-Inv now _
      (ground arith, ground arith, ground (arith, append_assoc q.settled (d.id ∷ []) (ids rest)))
settle-Inv (final status) now draw d rest q e v =
    pump-Inv now _
      (ground arith, ground arith, ground (arith, append_assoc q.settled (d.id ∷ []) (ids rest)))
settle-Inv (again status after) now draw d rest q e v =
    elim (Bool-cases (leb q.config.retry.max_attempts d.attempts)) [
      | inl spent ↦ rw spent (
          pump-Inv now _ (
            ground arith,
            ground arith,
            ground (arith, append_assoc q.settled (d.id ∷ []) (ids rest)),
          ))
      | inr more ↦
          elim (Bool-cases
            (delay_of after (backoff_delay d.attempts q.config.retry.backoff draw) == 0)) [
              | inl at_once ↦
                  rw (more, at_once) (pump-Inv now _ (v.reported, v.conserved, v.ordered))
              | inr later ↦
                  rw (more, later)
                    (record {
                      reported = v.reported;
                      conserved = v.conserved;
                      ordered = v.ordered;
                      running = λ _. ground arith;
                    })
            ]
    ]

on_head-Inv :
    (outcome : Outcome) (now draw : ℕ) (ds : List Delivery) (q : DeliveryQueue)
    → q.queue ≡ ds
    → Inv q
    → Inv (on_head outcome now draw ds q)
unfolding dead_letter
on_head-Inv outcome now draw [] q e v = v
on_head-Inv outcome now draw (d ∷ rest) q e v = settle-Inv (judge outcome) now draw d rest q e v

respond-Inv :
    (outcome : Outcome) (now draw : ℕ) (q : DeliveryQueue)
    → Inv q
    → Inv (respond outcome now draw q)
unfolding respond
respond-Inv outcome now draw q v = on_head-Inv outcome now draw q.queue q refl v

Step-Inv : {hmac : Text → Text → Text} {q r : DeliveryQueue} → Step hmac q r → Inv q → Inv r
unfolding wake
Step-Inv {hmac} {q} (enqueues id events body now) v = enqueue-Inv hmac id events body now q v
Step-Inv {hmac} {q} (responds outcome now draw e) v = respond-Inv outcome now draw q v
Step-Inv {hmac} {q} (wakes now e) v = pump-Inv now q (v.reported, v.conserved, v.ordered)
Step-Inv {hmac} {q} (expires e) v = expire-Inv q v
Step-Inv {hmac} {q} (closes now) v = close-Inv now q v

reach-Inv : {hmac : Text → Text → Text} {q r : DeliveryQueue} → Inv q → Reach hmac q r → Inv r
reach-Inv v here = v
reach-Inv v (next r s) = Step-Inv s (reach-Inv v r)

-- In every state that a new queue can reach, each batch that was given has been delivered, has been
-- handed to the dead letter, or is still queued, and the counters say so; each dead letter counted
-- has been handed over; deliveries leave in the order in which they were signed, and none is
-- skipped; and the pump runs only over a queue that is not empty.
pub new_queue-Inv :
    (hmac : Text → Text → Text) (c : DeliveryConfig) {q : DeliveryQueue}
    → Reach hmac (new_queue c) q
    → Inv q
unfolding new_queue
new_queue-Inv hmac c r =
    reach-Inv
      (record { reported = refl; conserved = refl; ordered = refl; running = λ h. absurd (h refl) })
      r
