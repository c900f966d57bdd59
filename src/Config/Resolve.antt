-- ===== src/Config/Resolve.antt =====
-- `resolveConfig` of src/config.ts. `generated` is what `generateInstanceId` returns; an overlooked
-- block is one whose settings are all absent. Every refusal is the same error but for its text.
use whats_multi.Config.Values.{
  Input, Amount, part, LogLevel, silent, info, num, ratio, bool, str, level, and_then,
}
use whats_multi.Errors.{Result, ok, err, invalid_config, bare_error}
use whats_multi.Messaging.Queue.{SendConfig}
use whats_multi.Session.Reconnect.{ReconnectConfig}
use whats_multi.Prelude.{ℕ, Bool, true, false, ltb, if◌then◌else◌, Text, codes}

pub record QrConfig : Type 0 where
  pub timeout_ms : ℕ
  pub max_attempts : ℕ
  pub print : Bool

pub record PairingConfig : Type 0 where
  pub enabled : Bool
  pub show_notification : Bool
  pub client_display_name : Text

pub record LockConfig : Type 0 where
  pub enabled : Bool
  pub ttl_ms : ℕ
  pub renew_ratio : Amount

pub record LoadConfig : Type 0 where
  pub concurrency : ℕ
  pub auto_start : Bool

pub record ResolvedConfig : Type 0 where
  pub instance_id : Text
  pub log_level : LogLevel
  pub driver_log_level : LogLevel
  pub reconnect : ReconnectConfig
  pub qr : QrConfig
  pub pairing : PairingConfig
  pub send : SendConfig
  pub lock : LockConfig
  pub load : LoadConfig

-- The settings by their names, a block's before the next block's.
pub record WhatsMultiConfig : Type 0 where
  pub instance_id : Input
  pub log_level : Input
  pub driver_log_level : Input
  pub reconnect_enabled : Input
  pub base_ms : Input
  pub cap_ms : Input
  pub floor_ms : Input
  pub reconnect_attempts : Input
  pub qr_timeout_ms : Input
  pub qr_attempts : Input
  pub qr_print : Input
  pub pairing_enabled : Input
  pub show_notification : Input
  pub client_display_name : Input
  pub send_concurrency : Input
  pub min_delay_ms : Input
  pub send_timeout_ms : Input
  pub max_queue : Input
  pub lock_enabled : Input
  pub ttl_ms : Input
  pub renew_ratio : Input
  pub load_concurrency : Input
  pub auto_start : Input

-- `rest` of the default ratio, 0.33.
abbrev pub default_ratio : Amount
default_ratio = part 0 33

-- DEFAULT_CONFIG, with the generated instance id.
unfoldable pub default_config : Text → ResolvedConfig
default_config generated = record {
  instance_id = generated;
  log_level = info;
  driver_log_level = silent;
  reconnect = record {
    enabled = true;
    backoff = record { base_ms = 1000; cap_ms = 60_000; floor_ms = 250 };
    max_attempts = 0;
  };
  qr = record { timeout_ms = 60_000; max_attempts = 5; print = false };
  pairing = record {
    enabled = false;
    show_notification = true;
    client_display_name = codes "Chrome (Linux)";
  };
  send = record { concurrency = 1; min_delay_ms = 0; timeout_ms = 30_000; max_queue = 1000 };
  lock = record { enabled = true; ttl_ms = 30_000; renew_ratio = default_ratio };
  load = record { concurrency = 8; auto_start = false };
}

unfoldable pub resolve_reconnect : WhatsMultiConfig → Result ReconnectConfig
resolve_reconnect input = and_then (bool input.reconnect_enabled true) λ enabled.
    and_then (num input.base_ms 1000 100) λ base. and_then (num input.cap_ms 60_000 1000) λ cap_.
      and_then (num input.floor_ms 250 0) λ floor.
        and_then (num input.reconnect_attempts 0 0) λ attempts.
          if ltb cap_ base
          then err (bare_error invalid_config)
          else ok (record {
            enabled = enabled;
            backoff = record { base_ms = base; cap_ms = cap_; floor_ms = floor };
            max_attempts = attempts;
          })

unfoldable pub resolve_lock : WhatsMultiConfig → Result LockConfig
resolve_lock input = and_then (bool input.lock_enabled true) λ enabled.
    and_then (num input.ttl_ms 30_000 5000) λ ttl.
      and_then (ratio input.renew_ratio default_ratio)
        λ renew. ok (record { enabled = enabled; ttl_ms = ttl; renew_ratio = renew })

unfoldable pub resolve_qr : WhatsMultiConfig → Result QrConfig
resolve_qr input = and_then (num input.qr_timeout_ms 60_000 5000) λ timeout.
    and_then (num input.qr_attempts 5 1) λ attempts.
      and_then (bool input.qr_print false)
        λ print. ok (record { timeout_ms = timeout; max_attempts = attempts; print = print })

unfoldable pub resolve_pairing : WhatsMultiConfig → Result PairingConfig
resolve_pairing input = and_then (bool input.pairing_enabled false) λ enabled.
    and_then (bool input.show_notification true) λ shown.
      and_then (str input.client_display_name (codes "Chrome (Linux)")) λ name.
        ok (record { enabled = enabled; show_notification = shown; client_display_name = name })

unfoldable pub resolve_send : WhatsMultiConfig → Result SendConfig
resolve_send input = and_then (num input.send_concurrency 1 1) λ concurrency.
    and_then (num input.min_delay_ms 0 0) λ delay.
      and_then (num input.send_timeout_ms 30_000 1000) λ timeout.
        and_then (num input.max_queue 1000 1) λ max_queue. ok (record {
          concurrency = concurrency;
          min_delay_ms = delay;
          timeout_ms = timeout;
          max_queue = max_queue;
        })

unfoldable pub resolve_load : WhatsMultiConfig → Result LoadConfig
resolve_load input = and_then (num input.load_concurrency 8 1) λ concurrency.
    and_then (bool input.auto_start false)
      λ auto. ok (record { concurrency = concurrency; auto_start = auto })

unfoldable pub resolve_config : Text → WhatsMultiConfig → Result ResolvedConfig
unfolding resolve_reconnect resolve_lock resolve_qr resolve_pairing resolve_send resolve_load
resolve_config generated input = and_then (resolve_reconnect input) λ reconnect.
    and_then (resolve_lock input) λ lock. and_then (str input.instance_id generated) λ instance_id.
      and_then (level input.log_level info) λ log_level.
        and_then (level input.driver_log_level silent) λ driver_log_level.
          and_then (resolve_qr input) λ qr. and_then (resolve_pairing input) λ pairing.
            and_then (resolve_send input) λ send. and_then (resolve_load input) λ load. ok (record {
              instance_id = instance_id;
              log_level = log_level;
              driver_log_level = driver_log_level;
              reconnect = reconnect;
              qr = qr;
              pairing = pairing;
              send = send;
              lock = lock;
              load = load;
            })
