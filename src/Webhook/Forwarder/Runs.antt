-- ===== src/Webhook/Forwarder/Runs.antt =====
-- A forwarder over any sequence of batches, timers and calls.
use mathlib.Core.List.{append-nil}
use whats_multi.Webhook.Delivery.{WebhookEvent}
use whats_multi.Webhook.Envelope.{to_webhook_events}
use whats_multi.Webhook.Forwarder.{
  Forwarder, new_forwarder, post, flush, collect, setup, dispose, post_pending,
}
use whats_multi.Webhook.Forwarder.Laws.{flat, Inv, collected-Inv, flushed}
use whats_multi.Errors.{ok}
use whats_multi.Webhook.Delivery.{DeliveryConfig}
use whats_multi.Webhook.Forwarder.Options.{WebhookOptions, webhook, webhook-Starts}
use whats_multi.Prelude.{
  ℕ, suc, ◌≡◌, refl, sym, ap, subst, ◌∙◌, Bool, true, false, Option, List, [], ◌∷◌, ◌++◌, arith,
  if◌then◌else◌, if-true, Text,
}

-- A batch of the bus with the events that it adds, a call of `flush` or the window's timer, and the
-- end.
pub data Move (f : Forwarder) : Forwarder → List WebhookEvent → Type 0 where
  collects :
      (session_id : Text) (ts : ℕ) (batch : List (Text × Bool))
      → f.subscribed ≡ true
      → Move f (collect session_id ts batch f) (to_webhook_events f.allow session_id ts batch)
  flushes : Move f (flush f) []
  disposes : Move f (dispose f) []

-- With all the events that were collected on the way.
pub data Reach (f : Forwarder) : Forwarder → List WebhookEvent → Type 0 where
  here : Reach f f []
  after :
      {g h : Forwarder} {seen new : List WebhookEvent}
      → Reach f g seen
      → Move g h new
      → Reach f h (seen ++ new)

dispose-Inv :
    (n : ℕ) (f : Forwarder) (seen : List WebhookEvent) → Inv n f seen → Inv n (dispose f) seen
unfolding dispose
dispose-Inv n f seen v =
    let idle : Inv n (record f { subscribed = false }) seen = record {
      size = v.size;
      set_up = v.set_up;
      kept = v.kept;
      batched = v.batched;
      short = v.short;
      unbuffered = v.unbuffered;
      timed = v.timed;
    } in
    let w = flushed n (record f { subscribed = false }) seen idle in
    record {
      size = w.size;
      set_up = w.set_up;
      kept = w.kept;
      batched = w.batched;
      short = w.short;
      unbuffered = w.unbuffered;
      timed = w.timed;
    }

Move-Inv :
    (n : ℕ) {f g : Forwarder} {seen new : List WebhookEvent}
    → Inv n f seen
    → Move f g new
    → Inv n g (seen ++ new)
unfolding collect
Move-Inv n {f} {g} {seen} v (collects session_id ts batch on) =
    let events = to_webhook_events f.allow session_id ts batch in
    subst (λ x. Inv n x (seen ++ events)) (if-true f.subscribed _ _ on)
      (collected-Inv n events f seen v)
Move-Inv n {f} {g} {seen} v flushes =
    subst (Inv n (flush f)) (sym (append-nil seen)) (flushed n f seen v)
Move-Inv n {f} {g} {seen} v disposes =
    subst (Inv n (dispose f)) (sym (append-nil seen)) (dispose-Inv n f seen v)

setup-Inv :
    (window n : ℕ) (allow : Option (List Text))
    → Inv n (setup (new_forwarder window (suc n) allow)) []
unfolding setup new_forwarder
setup-Inv window n allow = record {
  size = refl;
  set_up = refl;
  kept = refl;
  batched = tt;
  short = omega arith;
  unbuffered = λ h. refl;
  timed = λ h. absurd (cc);
}

setup-Reach :
    (window n : ℕ) (allow : Option (List Text)) {f : Forwarder} {seen : List WebhookEvent}
    → Reach (setup (new_forwarder window (suc n) allow)) f seen
    → Inv n f seen
setup-Reach window n allow here = setup-Inv window n allow
setup-Reach window n allow (after r mv) = Move-Inv n (setup-Reach window n allow r) mv

post-pending : (es : List WebhookEvent) (f : Forwarder) → (post es f).pending ≡ f.pending
unfolding post
post-pending es f = of_ready f.ready _
  where
    of_ready :
        (b : Bool) (x : List (List WebhookEvent))
        → (if b then record f { batches = x } else f).pending ≡ f.pending
    of_ready true x = refl
    of_ready false x = refl

post-subscribed : (es : List WebhookEvent) (f : Forwarder) → (post es f).subscribed ≡ f.subscribed
unfolding post
post-subscribed es f = of_ready f.ready _
  where
    of_ready :
        (b : Bool) (x : List (List WebhookEvent))
        → (if b then record f { batches = x } else f).subscribed ≡ f.subscribed
    of_ready true x = refl
    of_ready false x = refl

post_pending-empties :
    (p : List WebhookEvent) (f : Forwarder)
    → f.pending ≡ p
    → ((post_pending p f).pending ≡ []) × ((post_pending p f).subscribed ≡ f.subscribed)
post_pending-empties [] f h = (h, refl)
post_pending-empties (e ∷ es) f h = (
  post-pending (e ∷ es) (record f { pending = [] }),
  post-subscribed (e ∷ es) (record f { pending = [] }),
)

emptied : (f : Forwarder) → ((dispose f).pending ≡ []) × ((dispose f).subscribed ≡ false)
unfolding dispose flush
emptied f = post_pending-empties f.pending (record f { subscribed = false; timer = false }) refl

module _ (parse_url : Text → Option Text) (o : WebhookOptions) (config : Text × ℕ × DeliveryConfig)
    (f g : Forwarder) (seen : List WebhookEvent) where
  -- A webhook whose options were accepted hands over each collected event once and in order, whatever
  -- the sequence of batches, windows and calls: what was handed over and what is pending are together
  -- what was collected, each batch is filled and no larger than allowed, fewer events than that are
  -- pending, and while any are, the timer of the window runs.
  pub webhook-Reach :
      webhook parse_url o ≡ ok (config, f) → Reach (setup f) g seen → (n : ℕ) × Inv n g seen
  webhook-Reach h r =
      let (window, n, allow, same, _) = webhook-Starts parse_url o config f h in
      (n, setup-Reach window n allow (subst (λ x. Reach (setup x) g seen) same r))

  -- At its end it has handed over all that it ever collected, holds nothing back and listens no more.
  dispose_flushes :
      webhook parse_url o ≡ ok (config, f)
      → Reach (setup f) g seen
      → (flat (dispose g).batches ≡ seen)
        × ((dispose g).pending ≡ [])
        × ((dispose g).subscribed ≡ false)
  dispose_flushes h r =
      let (n, v) = webhook-Reach h r in
      let w = dispose-Inv n g seen v in
      let (nothing, deaf) = emptied g in
      (
        sym (append-nil (flat (dispose g).batches))
            ∙ ap (λ t. flat (dispose g).batches ++ t) (sym nothing)
            ∙ w.kept,
        nothing,
        deaf,
      )
