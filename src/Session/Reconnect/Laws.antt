-- ===== src/Session/Reconnect/Laws.antt =====
-- Which disconnects are retried, when, and how often.
use whats_multi.Utils.Random.{mulberry32, mulberry32_bounds}
use whats_multi.Utils.Backoff.{backoff_delay, backoff_delay_bounds}
use whats_multi.Session.Cause.{
  DisconnectCause, DisconnectAction, reconnect_immediate, reconnect_backoff, disconnect_actions,
}
use whats_multi.Session.Reconnect.{
  ReconnectPolicy, ReconnectPlan, retry, refuse, disabled, exhausted, ReconnectRefusal, plan, reset,
}
use whats_multi.Prelude.{
  ℕ, suc, ◌+◌, ◌≤◌, ◌<◌, max, ◌≡◌, ◌≢◌, ◌⊎◌, true, false, List, [], ◌∷◌, arith,
}

-- `plan` refuses a terminal cause whatever the configuration, any other cause when reconnecting is
-- disabled, and a backoff cause when a finite number of attempts is used up; a refusal changes
-- nothing. An immediate cause is retried at once and costs no attempt, and a backoff cause costs
-- one.
plan_cases :
    (p : ReconnectPolicy) (cause : DisconnectCause)
    → let (result, p') = plan p cause in
      let spent = (0 < p.config.max_attempts) × (p.config.max_attempts ≤ p.attempt) in
      ((disconnect_actions cause ≡ DisconnectAction.terminal)
        × (result ≡ refuse cause ReconnectRefusal.terminal)
        × (p' ≡ p))
      ⊎ ((disconnect_actions cause ≢ DisconnectAction.terminal)
          × (p.config.enabled ≡ false)
          × (result ≡ refuse cause disabled)
          × (p' ≡ p))
      ⊎ ((disconnect_actions cause ≡ reconnect_immediate)
          × (p.config.enabled ≡ true)
          × (result ≡ retry cause p.attempt 0)
          × (p' ≡ p))
      ⊎ ((disconnect_actions cause ≡ reconnect_backoff)
          × (p.config.enabled ≡ true)
          × spent
          × (result ≡ refuse cause exhausted)
          × (p' ≡ p))
      ⊎ ((disconnect_actions cause ≡ reconnect_backoff)
          × (p.config.enabled ≡ true)
          × (¬ spent)
          × (result
              ≡ retry cause
                  (p.attempt + 1)
                  (backoff_delay (p.attempt + 1) p.config.backoff (mulberry32 p.seed).1))
          × (p'.attempt ≡ p.attempt + 1)
          × (p'.config ≡ p.config))
unfolding plan
plan_cases p cause = ground arith

-- Every delay that `plan` answers is at least the floor and at most the larger of floor and cap,
-- but for an immediate retry, which waits 0.
plan_delay_bounds :
    (p : ReconnectPolicy) (cause : DisconnectCause) {attempt delay : ℕ}
    → (plan p cause).0 ≡ retry cause attempt delay
    → ((disconnect_actions cause ≡ reconnect_immediate) × (delay ≡ 0))
      ⊎ ((p.config.backoff.floor_ms ≤ delay)
          × (delay ≤ max p.config.backoff.floor_ms p.config.backoff.cap_ms))
unfolding plan
plan_delay_bounds p cause h = ground (
  arith,
  mulberry32_bounds p.seed,
  backoff_delay_bounds (p.attempt + 1) p.config.backoff (mulberry32 p.seed).1,
)

-- A run of disconnects with no successful open in between.
unfoldable pub plan_all :
    ReconnectPolicy → List DisconnectCause → List ReconnectPlan × ReconnectPolicy
plan_all p [] = ([], p)
plan_all p (cause ∷ rest) =
    let (result, p') = plan p cause in let (results, q) = plan_all p' rest in (result ∷ results, q)

-- The retries that consumed an attempt: all but those of an immediate cause.
abbrev pub delayed : List ReconnectPlan → ℕ
delayed [] = 0
delayed (refuse cause reason ∷ rest) = delayed rest
delayed (retry cause attempt delay ∷ rest) =
    let n = delayed rest in elim (disconnect_actions cause) [ reconnect_backoff ↦ suc n | _ ↦ n ]

plan_step :
    (p : ReconnectPolicy) (cause : DisconnectCause) (rest : List ReconnectPlan)
    → let (result, p') = plan p cause in
      (p.attempt + delayed (result ∷ rest) ≡ p'.attempt + delayed rest)
      × (p'.config ≡ p.config)
      × (p.attempt ≤ p.config.max_attempts
          → 0 < p.config.max_attempts
          → p'.attempt ≤ p.config.max_attempts)
unfolding plan
plan_step p cause rest = ground arith

plan_all_counts :
    (p : ReconnectPolicy) (causes : List DisconnectCause)
    → let (results, q) = plan_all p causes in
      (p.attempt + delayed results ≡ q.attempt)
      × (p.attempt ≤ p.config.max_attempts
          → 0 < p.config.max_attempts
          → q.attempt ≤ p.config.max_attempts)
unfolding plan_all
plan_all_counts p [] = ground arith
plan_all_counts p (cause ∷ rest) =
    let (result, p') = plan p cause in
    ground (arith, plan_step p cause (plan_all p' rest).0, plan_all_counts p' rest)

-- With a finite number of attempts, no run of disconnects without a successful open between them
-- is answered with more delayed retries than that number; the attempts count them exactly.
delayed_bounded :
    (p : ReconnectPolicy) (causes : List DisconnectCause)
    → 0 < p.config.max_attempts
    → let (results, q) = plan_all (reset p) causes in
      (delayed results ≡ q.attempt) × (delayed results ≤ p.config.max_attempts)
unfolding reset
delayed_bounded p causes h =
    let (counted, bounded) = plan_all_counts (reset p) causes in
    omega (arith, counted, bounded (omega arith) h)
