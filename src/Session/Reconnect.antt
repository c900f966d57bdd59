-- ===== src/Session/Reconnect.antt =====
-- src/session/reconnect.ts. The policy draws its jitter from a mulberry32 state of its own
-- (`createRandom`), which each call of `plan` that computes a delay advances.
pub mod Laws
use whats_multi.Utils.Random.{mulberry32}
use whats_multi.Utils.Backoff.{BackoffConfig, backoff_delay}
use whats_multi.Session.Cause.{
  DisconnectCause, DisconnectAction, reconnect_immediate, reconnect_backoff, decision_for,
}
use whats_multi.Prelude.{ℕ, ◌+◌, Bool, not, ◌&&◌, ltb, if◌then◌else◌}

-- ReconnectConfig of src/config.ts; `max_attempts` 0 means unlimited.
pub record ReconnectConfig : Type 0 where
  pub enabled : Bool
  pub backoff : BackoffConfig
  pub max_attempts : ℕ

pub data ReconnectRefusal : Type 0 where
  terminal disabled exhausted : ReconnectRefusal

pub data ReconnectPlan : Type 0 where
  retry : DisconnectCause → (attempt delay_ms : ℕ) → ReconnectPlan
  refuse : DisconnectCause → ReconnectRefusal → ReconnectPlan

pub record ReconnectPolicy : Type 0 where
  pub config : ReconnectConfig
  pub attempt : ℕ
  pub seed : ℕ

unfoldable pub new_policy : ReconnectConfig → ℕ → ReconnectPolicy
new_policy config seed = record { config = config; attempt = 0; seed = seed }

unfoldable pub reset : ReconnectPolicy → ReconnectPolicy
reset p = record p { attempt = 0 }

-- The last part of `plan`: a delayed retry, unless the attempts are used up.
unfoldable pub plan_backoff : ReconnectPolicy → DisconnectCause → ReconnectPlan × ReconnectPolicy
plan_backoff p cause =
    let attempt = p.attempt + 1 in
    let (seed, draw) = mulberry32 p.seed in
    if ltb 0 p.config.max_attempts && ltb p.config.max_attempts attempt
    then (refuse cause exhausted, p)
    else (
      retry cause attempt (backoff_delay attempt p.config.backoff draw),
      record p { attempt = attempt; seed = seed },
    )

abbrev plan_action :
    DisconnectAction → ReconnectPolicy → DisconnectCause → ReconnectPlan × ReconnectPolicy
plan_action DisconnectAction.terminal p cause = (refuse cause ReconnectRefusal.terminal, p)
plan_action reconnect_immediate p cause =
    if not p.config.enabled then (refuse cause disabled, p) else (retry cause p.attempt 0, p)
plan_action reconnect_backoff p cause =
    if not p.config.enabled then (refuse cause disabled, p) else plan_backoff p cause

unfoldable pub plan : ReconnectPolicy → DisconnectCause → ReconnectPlan × ReconnectPolicy
unfolding plan_backoff decision_for
plan p cause = plan_action (decision_for cause).action p cause
