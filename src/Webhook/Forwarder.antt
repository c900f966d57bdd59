-- ===== src/Webhook/Forwarder.antt =====
-- src/webhook/index.ts: the batch window in front of the delivery queue. `batches` are the calls of
-- the queue's `enqueue`, in order; `timer` is whether the window's timer runs. The URL parser is the
-- platform's.
pub mod Options
pub mod Laws
pub mod Runs
mod Tests
use whats_multi.Webhook.Delivery.{WebhookEvent}
use whats_multi.Webhook.Envelope.{to_webhook_events}
use whats_multi.Prelude.{
  ℕ, zero, suc, Bool, true, false, Option, List, [], ◌∷◌, ◌++◌, leb, ◌==◌, if◌then◌else◌, length,
  Text,
}

pub record Forwarder : Type 0 where
  pub batch_window_ms : ℕ
  pub max_batch_size : ℕ
  pub allow : Option (List Text)
  pub ready : Bool
  pub subscribed : Bool
  pub timer : Bool
  pub pending : List WebhookEvent
  pub batches : List (List WebhookEvent)
  pub closed : Bool

unfoldable pub new_forwarder : ℕ → ℕ → Option (List Text) → Forwarder
new_forwarder batch_window_ms max_batch_size allow = record {
  batch_window_ms = batch_window_ms;
  max_batch_size = max_batch_size;
  allow = allow;
  ready = false;
  subscribed = false;
  timer = false;
  pending = [];
  batches = [];
  closed = false;
}

module _ {ℓ} {A : Type ℓ} where
  abbrev pub take : ℕ → List A → List A
  take zero xs = []
  take (suc n) [] = []
  take (suc n) (x ∷ xs) = x ∷ take n xs

  abbrev pub drop : ℕ → List A → List A
  drop zero xs = xs
  drop (suc n) [] = []
  drop (suc n) (x ∷ xs) = drop n xs

  -- The slices of the loop in `post`. As many rounds as there are items are enough.
  unfoldable pub slices : ℕ → ℕ → List A → List (List A)
  slices zero n xs = []
  slices (suc fuel) n [] = []
  slices (suc fuel) n (x ∷ xs) = take n (x ∷ xs) ∷ slices fuel n (drop n (x ∷ xs))

unfoldable pub post : List WebhookEvent → Forwarder → Forwarder
unfolding slices
post events f =
    if f.ready
    then record f { batches = f.batches ++ slices (length events) f.max_batch_size events }
    else f

abbrev post_pending : List WebhookEvent → Forwarder → Forwarder
post_pending [] f = f
post_pending (e ∷ es) f = post (e ∷ es) (record f { pending = [] })

unfoldable pub flush : Forwarder → Forwarder
unfolding post
flush f = post_pending f.pending (record f { timer = false })

-- `collect` behind the conversion of its batch.
abbrev collected : List WebhookEvent → Forwarder → Forwarder
collected [] f = f
collected (e ∷ es) f =
    let now = post (e ∷ es) f in
    let waiting : Forwarder = record f { pending = f.pending ++ (e ∷ es) } in
    let full = flush waiting in
    if f.batch_window_ms == 0
    then now
    else if leb f.max_batch_size (length waiting.pending)
    then full
    else record waiting { timer = true }

unfoldable pub collect : Text → ℕ → List (Text × Bool) → Forwarder → Forwarder
unfolding post flush
collect session_id ts batch f =
    if f.subscribed then collected (to_webhook_events f.allow session_id ts batch) f else f

unfoldable pub setup : Forwarder → Forwarder
setup f = record f { ready = true; subscribed = true }

unfoldable pub dispose : Forwarder → Forwarder
unfolding flush
dispose f = record (flush (record f { subscribed = false })) { closed = true }
