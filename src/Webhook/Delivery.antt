-- ===== src/Webhook/Delivery.antt =====
-- src/webhook/delivery.ts. Each turn of the event loop is a function: a call (`enqueue`, `close`),
-- the end of the grace (`expire`), the answer to a request (`respond`) and the end of a sleep
-- (`wake`). `now` is the clock reading of a turn, `draw` the numerator of its random number over
-- 2 ^ 32, and `body` what `encodeEnvelope` returned, none if it threw.
pub mod Invariant
pub mod Ledger
pub mod Progress
pub mod Rest
pub mod Shutdown
mod Records
pub use Records.*
mod Tests
use whats_multi.Utils.Backoff.{BackoffConfig, backoff_delay}
use whats_multi.Webhook.Signature.{sign_payload}
use whats_multi.Prelude.{
  ℕ, ◌+◌, ◌/◌, ◌≡◌, Bool, true, false, not, ◌&&◌, ◌||◌, Option, none, some, List, [], ◌∷◌, ◌++◌,
  leb, ◌==◌, if◌then◌else◌, length, is_empty, Text,
}

unfoldable pub new_queue : DeliveryConfig → DeliveryQueue
new_queue config = record {
  config = config;
  queue = [];
  phase = stopped;
  closing = false;
  deadline = none;
  delivered = 0;
  dead_lettered = 0;
  retries = 0;
  letters = [];
  given = 0;
  signed = [];
  settled = [];
}

unfoldable pub is_retryable_status : ℕ → Bool
is_retryable_status status = leb 500 status || status == 408 || status == 429

unfoldable pub expired : ℕ → DeliveryQueue → Bool
expired now q = elim q.deadline [ none ↦ false | some deadline ↦ leb deadline now ]

unfoldable pub dead_letter : DeadLetter → DeliveryQueue → DeliveryQueue
dead_letter letter q = record q {
  dead_lettered = q.dead_lettered + 1;
  letters = letter ∷ q.letters;
}

abbrev pub letter_of : DeadLetterReason → Option ℕ → Delivery → DeadLetter
letter_of reason status d = record {
  reason = reason;
  events = d.events;
  attempts = d.attempts;
  status = status;
  delivery = some d;
}

-- `#queue.shift()` of the delivery `d`.
abbrev shifted : Delivery → List Delivery → DeliveryQueue → DeliveryQueue
shifted d rest q = record q { queue = rest; settled = q.settled ++ d.id ∷ [] }

unfoldable pub flush_from : List Delivery → DeliveryQueue → DeliveryQueue
flush_from [] q = record q { queue = []; phase = stopped }
flush_from (d ∷ rest) q =
    flush_from rest (dead_letter (letter_of shutdown none d) (shifted d rest q))

-- `#flush`, after which the pump has ended too.
unfoldable pub flush : DeliveryQueue → DeliveryQueue
flush q = flush_from q.queue q

abbrev post : List Delivery → DeliveryQueue → DeliveryQueue
post [] q = record q { phase = stopped }
post (d ∷ rest) q = record q {
  queue = record d { attempts = d.attempts + 1 } ∷ rest;
  phase = posting;
}

-- The head of the loops in `#pump` and `#deliver`: on an expired shutdown all that is pending is
-- dead-lettered, the head by `#deliver` or with the others by `#flush`, as the same letter.
unfoldable pub pump : ℕ → DeliveryQueue → DeliveryQueue
pump now q = if not (is_empty q.queue) && expired now q then flush q else post q.queue q

abbrev refused : DeadLetterReason → List WebhookEvent → DeadLetter
refused reason events = record {
  reason = reason;
  events = events;
  attempts = 0;
  status = none;
  delivery = none;
}

-- A fresh delivery at the end of the queue, and the pump started if it was not running.
abbrev accept :
    (Text → Text → Text) → (id body : Text) → List WebhookEvent → ℕ → DeliveryQueue → DeliveryQueue
accept hmac id body events now q =
    let t = now / 1000 in
    let d : Delivery = record {
      id = id;
      t = t;
      body = body;
      signature = (sign_payload hmac q.config.secret body t).header;
      events = events;
      attempts = 0;
    } in
    let q' : DeliveryQueue = record q { queue = q.queue ++ d ∷ []; signed = q.signed ++ id ∷ [] } in
    elim q.phase [ stopped ↦ pump now q' | _ ↦ q' ]

abbrev enqueue_encoded :
    (Text → Text → Text)
    → Text
    → List WebhookEvent
    → Option Text
    → ℕ
    → DeliveryQueue
    → DeliveryQueue
enqueue_encoded hmac id events none now q = dead_letter (refused encode events) q
enqueue_encoded hmac id events (some body) now q =
    if leb q.config.max_queue (length q.queue)
    then dead_letter (refused overflow events) q
    else accept hmac id body events now q

unfoldable pub enqueue :
    (Text → Text → Text)
    → Text
    → List WebhookEvent
    → Option Text
    → ℕ
    → DeliveryQueue
    → DeliveryQueue
enqueue hmac id events body now q =
    if is_empty events
    then q
    else let q' : DeliveryQueue = record q { given = q.given + 1 } in
      if q.closing
      then dead_letter (refused shutdown events) q'
      else enqueue_encoded hmac id events body now q'

-- What `#post` makes of a request: a response, with its `Retry-After` in ms, or a thrown error.
pub data Outcome : Type 0 where
  answered : (is_ok : Bool) (status : ℕ) (retry_after_ms : Option ℕ) → Outcome
  failed : Outcome

pub data Verdict : Type 0 where
  accepted : Verdict
  final : ℕ → Verdict
  again : (status retry_after_ms : Option ℕ) → Verdict

unfoldable pub judge : Outcome → Verdict
unfolding is_retryable_status
judge failed = again none none
judge (answered true status after) = accepted
judge (answered false status after) =
    if is_retryable_status status then again (some status) after else final status

-- `result.retryAfterMs ?? backoffDelay(…)`
abbrev delay_of : Option ℕ → ℕ → ℕ
delay_of none computed = computed
delay_of (some ms) computed = ms

-- The rest of the round in `#deliver` for the head `d`.
abbrev settle : Verdict → (now draw : ℕ) → Delivery → List Delivery → DeliveryQueue → DeliveryQueue
settle accepted now draw d rest q =
    pump now (let q' = shifted d rest q in record q' { delivered = q.delivered + 1 })
settle (final status) now draw d rest q =
    pump now (dead_letter (letter_of rejected (some status) d) (shifted d rest q))
settle (again status after) now draw d rest q =
    if leb q.config.retry.max_attempts d.attempts
    then pump now (dead_letter (letter_of exhausted status d) (shifted d rest q))
    else let q' : DeliveryQueue = record q { retries = q.retries + 1 } in
      if delay_of after (backoff_delay d.attempts q.config.retry.backoff draw) == 0
      then pump now q'
      else record q' { phase = sleeping }

abbrev on_head : Outcome → (now draw : ℕ) → List Delivery → DeliveryQueue → DeliveryQueue
on_head outcome now draw [] q = q
on_head outcome now draw (d ∷ rest) q = settle (judge outcome) now draw d rest q

-- The request of the head has come to its end.
unfoldable pub respond : Outcome → (now draw : ℕ) → DeliveryQueue → DeliveryQueue
respond outcome now draw q = on_head outcome now draw q.queue q

-- The sleep has ended, by its timer or by `#wake`.
unfoldable pub wake : ℕ → DeliveryQueue → DeliveryQueue
wake now q = pump now q

abbrev flush_stopped : Phase → DeliveryQueue → DeliveryQueue
flush_stopped stopped q = flush q
flush_stopped _ q = q

-- `#expire`: the abort of a request and the end of a sleep come back as `respond failed` and `wake`.
unfoldable pub expire : DeliveryQueue → DeliveryQueue
expire q = let q' : DeliveryQueue = record q { deadline = some 0 } in flush_stopped q.phase q'

-- `close` up to its wait for `idle`; a positive grace ends by `expire`.
unfoldable pub close : ℕ → DeliveryQueue → DeliveryQueue
close now q =
    if q.closing
    then q
    else let q' : DeliveryQueue = record q {
      closing = true;
      deadline = some (now + q.config.drain_timeout_ms);
    } in
      if q.config.drain_timeout_ms == 0 then expire q' else q'

-- The turns that can follow one another, each in the phase in which it can happen.
pub data Step (hmac : Text → Text → Text) : DeliveryQueue → DeliveryQueue → Type 0 where
  enqueues :
      {q : DeliveryQueue} (id : Text) (events : List WebhookEvent) (body : Option Text) (now : ℕ)
      → Step hmac q (enqueue hmac id events body now q)
  responds :
      {q : DeliveryQueue} (outcome : Outcome) (now draw : ℕ)
      → q.phase ≡ posting
      → Step hmac q (respond outcome now draw q)
  wakes : {q : DeliveryQueue} (now : ℕ) → q.phase ≡ sleeping → Step hmac q (wake now q)
  expires : {q : DeliveryQueue} → q.closing ≡ true → Step hmac q (expire q)
  closes : {q : DeliveryQueue} (now : ℕ) → Step hmac q (close now q)

pub data Reach (hmac : Text → Text → Text) (q : DeliveryQueue) : DeliveryQueue → Type 0 where
  here : Reach hmac q q
  next : {r s : DeliveryQueue} → Reach hmac q r → Step hmac r s → Reach hmac q s
