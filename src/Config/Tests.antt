-- ===== src/Config/Tests.antt =====
-- A configuration with a base of 2 s and a ratio of one half, and two that are refused.
use whats_multi.Config.Values.{
  natural, fractional, part, silent, info, num, ratio, bool, str, level,
}
use whats_multi.Config.Resolve.{ResolvedConfig, WhatsMultiConfig, resolve_config}
use whats_multi.Config.Bounds.{IsValid, no_settings, resolve_config-IsValid}
use whats_multi.Errors.{ok, err, invalid_config, bare_error}
use whats_multi.Prelude.{◌≡◌, refl, true, false, Text, codes}

abbrev host : Text
host = codes "host:1:abc"

abbrev slow : WhatsMultiConfig
slow = record no_settings { base_ms = natural 2000; renew_ratio = fractional 0 50 }

abbrev slow_resolved : ResolvedConfig
slow_resolved = record {
  instance_id = host;
  log_level = info;
  driver_log_level = silent;
  reconnect = record {
    enabled = true;
    backoff = record { base_ms = 2000; cap_ms = 60_000; floor_ms = 250 };
    max_attempts = 0;
  };
  qr = record { timeout_ms = 60_000; max_attempts = 5; print = false };
  pairing = record {
    enabled = false;
    show_notification = true;
    client_display_name = codes "Chrome (Linux)";
  };
  send = record { concurrency = 1; min_delay_ms = 0; timeout_ms = 30_000; max_queue = 1000 };
  lock = record { enabled = true; ttl_ms = 30_000; renew_ratio = part 0 50 };
  load = record { concurrency = 8; auto_start = false };
}

accepted : resolve_config host slow ≡ ok slow_resolved
unfolding resolve_config num bool str ratio level
accepted = refl

low_cap :
    resolve_config host (record no_settings { base_ms = natural 5000; cap_ms = natural 1000 })
    ≡ err (bare_error invalid_config)
unfolding resolve_config num bool str ratio level
low_cap = refl

whole_ratio :
    resolve_config host (record no_settings { renew_ratio = natural 1 })
    ≡ err (bare_error invalid_config)
unfolding resolve_config num bool str ratio level
whole_ratio = refl

resolve_config-IsValid_example : IsValid slow_resolved
resolve_config-IsValid_example = resolve_config-IsValid host slow slow_resolved refl accepted
