-- ===== src/Webhook/Forwarder/Options.antt =====
-- The options of src/webhook/index.ts. Settings are read as in src/config.ts; `parse_url` gives the
-- protocol that the platform's URL parser finds, none where it throws.
use whats_multi.Config.Values.{Input, words, num, num-ok, and_then, and_then-ok}
use whats_multi.Errors.{Result, ok, err, invalid_config, bare_error}
use whats_multi.Webhook.Delivery.{RetryConfig, DeliveryConfig}
use whats_multi.Webhook.Envelope.{one_of, forwardable_events}
use whats_multi.Webhook.Forwarder.{Forwarder, new_forwarder}
use whats_multi.Prelude.{
  ℕ, suc, ◌-◌, ◌≡◌, sym, ap, ◌∙◌, Bool, true, ◌&&◌, ◌||◌, Option, none, some, List, [], ◌∷◌, arith,
  ltb, if◌then◌else◌, Text, codes, text_eq,
}

pub record WebhookOptions : Type 0 where
  pub url : Input
  pub secret : Input
  pub events : Option (List Text)
  pub timeout_ms : Input
  pub batch_window_ms : Input
  pub max_batch_size : Input
  pub max_queue : Input
  pub drain_timeout_ms : Input
  pub max_attempts : Input
  pub base_ms : Input
  pub cap_ms : Input
  pub floor_ms : Input

abbrev invalid {ℓ} : {A : Type ℓ} → Result A
invalid = err (bare_error invalid_config)

-- The check of `secret`.
unfoldable pub secret_of : Input → Result Text
secret_of (words (c ∷ s)) = ok (c ∷ s)
secret_of _ = invalid

unfoldable pub all_forwardable : List Text → Bool
all_forwardable [] = true
all_forwardable (name ∷ names) = one_of name forwardable_events && all_forwardable names

unfoldable pub allow_list : Option (List Text) → Result (Option (List Text))
unfolding all_forwardable
allow_list none = ok none
allow_list (some names) = if all_forwardable names then ok (some names) else invalid

unfoldable pub resolve_retry : WebhookOptions → Result RetryConfig
resolve_retry o = and_then (num o.max_attempts 5 1) λ attempts.
    and_then (num o.base_ms 1000 100) λ base. and_then (num o.cap_ms 60_000 1000) λ top.
      and_then (num o.floor_ms 250 0) λ floor.
        if ltb top base
        then invalid
        else ok (record {
          backoff = record { base_ms = base; cap_ms = top; floor_ms = floor };
          max_attempts = attempts;
        })

module _ (parse_url : Text → Option Text) where
  unfoldable pub url_of : Input → Result Text
  url_of (words (c ∷ s)) = elim (parse_url (c ∷ s)) [
    | none ↦ invalid
    | some protocol ↦
        if text_eq protocol (codes "http:") || text_eq protocol (codes "https:")
        then ok (c ∷ s)
        else invalid
  ]
  url_of _ = invalid

  -- `resolve`: the destination, the request timeout and what the queue reads.
  unfoldable pub resolve : WebhookOptions → Result (Text × ℕ × DeliveryConfig)
  unfolding secret_of url_of resolve_retry
  resolve o = and_then (secret_of o.secret) λ secret. and_then (resolve_retry o) λ retry.
      and_then (url_of o.url) λ url. and_then (num o.timeout_ms 10_000 1000) λ timeout.
        and_then (num o.max_queue 1000 1) λ max_queue.
          and_then (num o.drain_timeout_ms 5000 0) λ drain. ok (
            url,
            timeout,
            record {
              secret = secret;
              max_queue = max_queue;
              drain_timeout_ms = drain;
              retry = retry;
            },
          )

  -- `webhook`, as far as it makes its state.
  unfoldable pub webhook : WebhookOptions → Result ((Text × ℕ × DeliveryConfig) × Forwarder)
  unfolding resolve allow_list
  webhook o = and_then (resolve o) λ config. and_then (allow_list o.events) λ allow.
      and_then (num o.batch_window_ms 0 0) λ window.
        and_then (num o.max_batch_size 100 1) λ size. ok (config, new_forwarder window size allow)

  -- What an accepted webhook starts as.
  abbrev pub Starts : WebhookOptions → Forwarder → Type 0
  Starts o f =
      (window : ℕ) × (n : ℕ) × (allow : Option (List Text)) × (f
        ≡ new_forwarder window (suc n) allow)
      × (allow_list o.events ≡ ok allow)

  pub webhook-Starts :
      (o : WebhookOptions) (config : Text × ℕ × DeliveryConfig) (f : Forwarder)
      → webhook o ≡ ok (config, f)
      → Starts o f
  unfolding webhook
  webhook-Starts o config f h =
      let (c, _, h1) = and_then-ok (resolve o) _ (config, f) h in
      let (allow, a, h2) = and_then-ok (allow_list o.events) _ (config, f) h1 in
      let (window, w, h3) = and_then-ok (num o.batch_window_ms 0 0) _ (config, f) h2 in
      let (size, s, h4) = and_then-ok (num o.max_batch_size 100 1) _ (config, f) h3 in
      let least = num-ok o.max_batch_size 100 1 size (omega arith) s in
      let same : new_forwarder window size allow ≡ f =
        ap (made (new_forwarder window size allow)) h4 in
      let size_is : size ≡ suc (size - 1) = omega arith in
      (window, size - 1, allow, sym same ∙ ap (λ k. new_forwarder window k allow) size_is, a)
    where
      made : Forwarder → Result ((Text × ℕ × DeliveryConfig) × Forwarder) → Forwarder
      made d (ok (_, f)) = f
      made d (err e) = d
