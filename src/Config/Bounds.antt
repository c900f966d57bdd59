-- ===== src/Config/Bounds.antt =====
-- What every configuration that `resolveConfig` accepts satisfies.
use whats_multi.Config.Values.{
  absent, silent, info, num, ratio, bool, str, level, IsRatio, num-ok, str-ok, ratio-ok,
  and_then-ok,
}
use whats_multi.Config.Resolve.{
  QrConfig, PairingConfig, LockConfig, LoadConfig, ResolvedConfig, WhatsMultiConfig, default_ratio,
  default_config, resolve_reconnect, resolve_lock, resolve_qr, resolve_pairing, resolve_send,
  resolve_load, resolve_config,
}
use whats_multi.Errors.{Result, ok, err}
use whats_multi.Messaging.Queue.{SendConfig}
use whats_multi.Session.Reconnect.{ReconnectConfig}
use whats_multi.Prelude.{◌≤◌, ◌≡◌, refl, ap, subst, true, false, [], arith, is_empty, Text, codes}

-- The ranges of spec/config.yaml.
pub record IsValid (c : ResolvedConfig) : Type 0 where
  pub named : is_empty c.instance_id ≡ false
  pub base : 100 ≤ c.reconnect.backoff.base_ms
  pub capped : c.reconnect.backoff.base_ms ≤ c.reconnect.backoff.cap_ms
  pub scans : (5000 ≤ c.qr.timeout_ms) × (1 ≤ c.qr.max_attempts)
  pub displayed : is_empty c.pairing.client_display_name ≡ false
  pub lanes : (1 ≤ c.send.concurrency) × (1000 ≤ c.send.timeout_ms) × (1 ≤ c.send.max_queue)
  pub lease : (5000 ≤ c.lock.ttl_ms) × IsRatio c.lock.renew_ratio
  pub loads : 1 ≤ c.load.concurrency

reconnect-ok :
    (input : WhatsMultiConfig) (c : ReconnectConfig)
    → resolve_reconnect input ≡ ok c
    → (100 ≤ c.backoff.base_ms) × (c.backoff.base_ms ≤ c.backoff.cap_ms)
unfolding resolve_reconnect
reconnect-ok input c h =
    let (e, _, h1) = and_then-ok (bool input.reconnect_enabled true) _ c h in
    let (base, b, h2) = and_then-ok (num input.base_ms 1000 100) _ c h1 in
    let (top, t, h3) = and_then-ok (num input.cap_ms 60_000 1000) _ c h2 in
    let (floor, f, h4) = and_then-ok (num input.floor_ms 250 0) _ c h3 in
    let (attempts, a, h5) = and_then-ok (num input.reconnect_attempts 0 0) _ c h4 in
    let least = num-ok input.base_ms 1000 100 base (omega arith) b in ground arith

lock-ok :
    (input : WhatsMultiConfig) (c : LockConfig)
    → resolve_lock input ≡ ok c
    → (5000 ≤ c.ttl_ms) × IsRatio c.renew_ratio
unfolding resolve_lock
lock-ok input c h =
    let (e, _, h1) = and_then-ok (bool input.lock_enabled true) _ c h in
    let (ttl, t, h2) = and_then-ok (num input.ttl_ms 30_000 5000) _ c h1 in
    let (renew, r, h3) = and_then-ok (ratio input.renew_ratio default_ratio) _ c h2 in
    let least = num-ok input.ttl_ms 30_000 5000 ttl (omega arith) t in
    let same : record { enabled = e; ttl_ms = ttl; renew_ratio = renew } ≡ c = cc in
    subst (λ (x : LockConfig). (5000 ≤ x.ttl_ms) × IsRatio x.renew_ratio) same
      (least, ratio-ok input.renew_ratio default_ratio renew r)

qr-ok :
    (input : WhatsMultiConfig) (c : QrConfig)
    → resolve_qr input ≡ ok c
    → (5000 ≤ c.timeout_ms) × (1 ≤ c.max_attempts)
unfolding resolve_qr
qr-ok input c h =
    let (timeout, t, h1) = and_then-ok (num input.qr_timeout_ms 60_000 5000) _ c h in
    let (attempts, a, h2) = and_then-ok (num input.qr_attempts 5 1) _ c h1 in
    let (print, p, h3) = and_then-ok (bool input.qr_print false) _ c h2 in
    let long = num-ok input.qr_timeout_ms 60_000 5000 timeout (omega arith) t in
    let some_try = num-ok input.qr_attempts 5 1 attempts (omega arith) a in ground arith

pairing-ok :
    (input : WhatsMultiConfig) (c : PairingConfig)
    → resolve_pairing input ≡ ok c
    → is_empty c.client_display_name ≡ false
unfolding resolve_pairing
pairing-ok input c h =
    let (enabled, e, h1) = and_then-ok (bool input.pairing_enabled false) _ c h in
    let (shown, s, h2) = and_then-ok (bool input.show_notification true) _ c h1 in
    let (name, n, h3) =
      and_then-ok (str input.client_display_name (codes "Chrome (Linux)")) _ c h2 in
    let filled = str-ok input.client_display_name (codes "Chrome (Linux)") name refl n in
    let same : name ≡ c.client_display_name = ap shown_name h3 in
    subst (λ (t : Text). is_empty t ≡ false) same filled
  where
    shown_name : Result PairingConfig → Text
    shown_name (ok c) = c.client_display_name
    shown_name (err e) = []

send-ok :
    (input : WhatsMultiConfig) (c : SendConfig)
    → resolve_send input ≡ ok c
    → (1 ≤ c.concurrency) × (1000 ≤ c.timeout_ms) × (1 ≤ c.max_queue)
unfolding resolve_send
send-ok input c h =
    let (concurrency, a, h1) = and_then-ok (num input.send_concurrency 1 1) _ c h in
    let (delay, d, h2) = and_then-ok (num input.min_delay_ms 0 0) _ c h1 in
    let (timeout, t, h3) = and_then-ok (num input.send_timeout_ms 30_000 1000) _ c h2 in
    let (queue, q, h4) = and_then-ok (num input.max_queue 1000 1) _ c h3 in
    let lanes = num-ok input.send_concurrency 1 1 concurrency (omega arith) a in
    let long = num-ok input.send_timeout_ms 30_000 1000 timeout (omega arith) t in
    let room = num-ok input.max_queue 1000 1 queue (omega arith) q in ground arith

load-ok :
    (input : WhatsMultiConfig) (c : LoadConfig) → resolve_load input ≡ ok c → 1 ≤ c.concurrency
unfolding resolve_load
load-ok input c h =
    let (concurrency, a, h1) = and_then-ok (num input.load_concurrency 8 1) _ c h in
    let (auto, b, h2) = and_then-ok (bool input.auto_start false) _ c h1 in
    let lanes = num-ok input.load_concurrency 8 1 concurrency (omega arith) a in ground arith

-- Every configuration that is accepted is in range: a named instance, a backoff whose cap is not below
-- its base, a lock that is renewed before it lapses, and at least one lane, attempt and place in each
-- queue.
pub resolve_config-IsValid :
    (generated : Text) (input : WhatsMultiConfig) (c : ResolvedConfig)
    → is_empty generated ≡ false
    → resolve_config generated input ≡ ok c
    → IsValid c
unfolding resolve_config
resolve_config-IsValid generated input c named h =
    let (reconnect, r, h1) = and_then-ok (resolve_reconnect input) _ c h in
    let (lock, l, h2) = and_then-ok (resolve_lock input) _ c h1 in
    let (id, i, h3) = and_then-ok (str input.instance_id generated) _ c h2 in
    let (log, _, h4) = and_then-ok (level input.log_level info) _ c h3 in
    let (driver, _, h5) = and_then-ok (level input.driver_log_level silent) _ c h4 in
    let (qr, q, h6) = and_then-ok (resolve_qr input) _ c h5 in
    let (pairing, p, h7) = and_then-ok (resolve_pairing input) _ c h6 in
    let (send, s, h8) = and_then-ok (resolve_send input) _ c h7 in
    let (load, o, h9) = and_then-ok (resolve_load input) _ c h8 in
    let made : ResolvedConfig = record {
      instance_id = id;
      log_level = log;
      driver_log_level = driver;
      reconnect = reconnect;
      qr = qr;
      pairing = pairing;
      send = send;
      lock = lock;
      load = load;
    } in
    let same : made ≡ c = ap (resolved made) h9 in
    let (least, capped) = reconnect-ok input reconnect r in
    subst IsValid same (record {
      named = str-ok input.instance_id generated id named i;
      base = least;
      capped = capped;
      scans = qr-ok input qr q;
      displayed = pairing-ok input pairing p;
      lanes = send-ok input send s;
      lease = lock-ok input lock l;
      loads = load-ok input load o;
    })
  where
    resolved : ResolvedConfig → Result ResolvedConfig → ResolvedConfig
    resolved d (ok c) = c
    resolved d (err e) = d

abbrev pub no_settings : WhatsMultiConfig
no_settings = record {
  instance_id = absent;
  log_level = absent;
  driver_log_level = absent;
  reconnect_enabled = absent;
  base_ms = absent;
  cap_ms = absent;
  floor_ms = absent;
  reconnect_attempts = absent;
  qr_timeout_ms = absent;
  qr_attempts = absent;
  qr_print = absent;
  pairing_enabled = absent;
  show_notification = absent;
  client_display_name = absent;
  send_concurrency = absent;
  min_delay_ms = absent;
  send_timeout_ms = absent;
  max_queue = absent;
  lock_enabled = absent;
  ttl_ms = absent;
  renew_ratio = absent;
  load_concurrency = absent;
  auto_start = absent;
}

-- Without any setting the configuration is the default one, under a generated name.
resolve_config-default :
    (generated : Text) → resolve_config generated no_settings ≡ ok (default_config generated)
unfolding resolve_config default_config num bool str ratio level
resolve_config-default generated = refl
