-- ===== src/Webhook/Forwarder/Tests.antt =====
-- A webhook with a window and batches of two, given three messages.
use whats_multi.Config.Values.{absent, natural, words, num}
use whats_multi.Errors.{ok}
use whats_multi.Webhook.Delivery.{WebhookEvent, DeliveryConfig}
use whats_multi.Webhook.Envelope.{to_webhook_events, forwardable_events, baileys_event_to_wire}
use whats_multi.Webhook.Forwarder.{Forwarder, new_forwarder, collect, setup}
use whats_multi.Webhook.Forwarder.Laws.{Inv}
use whats_multi.Webhook.Forwarder.Options.{WebhookOptions, webhook}
use whats_multi.Webhook.Forwarder.Runs.{Reach, here, after, collects, webhook-Reach}
use whats_multi.Prelude.{
  ℕ, ◌≡◌, refl, Bool, true, false, Option, none, some, List, [], ◌∷◌, ◌++◌, Text, codes, lookup,
}

abbrev options : WebhookOptions
options = record {
  url = words (codes "http://x");
  secret = words (codes "s");
  events = none;
  timeout_ms = absent;
  batch_window_ms = natural 50;
  max_batch_size = natural 2;
  max_queue = absent;
  drain_timeout_ms = absent;
  max_attempts = absent;
  base_ms = absent;
  cap_ms = absent;
  floor_ms = absent;
}

abbrev parse_url : Text → Option Text
parse_url s = some (codes "http:")

abbrev made : Forwarder
made = new_forwarder 50 2 none

abbrev config : Text × ℕ × DeliveryConfig
config = (
  codes "http://x",
  10_000,
  record {
    secret = codes "s";
    max_queue = 1000;
    drain_timeout_ms = 5000;
    retry = record {
      backoff = record { base_ms = 1000; cap_ms = 60_000; floor_ms = 250 };
      max_attempts = 5;
    };
  },
)

accepted : webhook parse_url options ≡ ok (config, made)
unfolding webhook num
accepted = refl

-- One message and an event that stays in the process.
abbrev batch : List (Text × Bool)
batch = (codes "messages.upsert", true) ∷ (codes "creds.update", true) ∷ (codes "qr", false) ∷ []

abbrev message : WebhookEvent
message = record { event = codes "message.received"; session_id = codes "desk"; ts = 7 }

converted : to_webhook_events none (codes "desk") 7 batch ≡ message ∷ []
unfolding to_webhook_events forwardable_events baileys_event_to_wire lookup
converted = refl

abbrev once : Forwarder
once = collect (codes "desk") 7 batch (setup made)

abbrev once_seen : List WebhookEvent
once_seen = [] ++ to_webhook_events none (codes "desk") 7 batch

run : Reach (setup made) once once_seen
unfolding setup new_forwarder
run = after here (collects (codes "desk") 7 batch refl)

webhook-Reach_example : (n : ℕ) × Inv n once once_seen
webhook-Reach_example = webhook-Reach parse_url options config made once once_seen accepted run
