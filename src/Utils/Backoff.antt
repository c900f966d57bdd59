-- ===== src/Utils/Backoff.antt =====
-- src/utils/backoff.ts. `rand()` is a fraction with denominator 2 ^ 32, which is what mulberry32
-- returns; `draw` is its numerator. The product is exact in the source as long as the window is
-- below 2 ^ 21 ms.
use native.Mathlib.Nat.{pow-le-pow_right, mul-le-mul_left, mul-le-mul_right}
use whats_multi.Utils.Random.{two_32}
use whats_multi.Prelude.{ℕ, ◌+◌, ◌-◌, ◌*◌, ◌/◌, ◌^◌, ◌≤◌, ◌<◌, min, ◌≡◌, arith, leb, if◌then◌else◌}

pub record BackoffConfig : Type 0 where
  pub base_ms : ℕ
  pub cap_ms : ℕ
  pub floor_ms : ℕ

-- `Math.max(0, Math.min(attempt - 1, 30))`: `-` stops at 0, as `Math.max` makes it.
abbrev shift_of : ℕ → ℕ
shift_of attempt = min (attempt - 1) 30

unfoldable pub exp_ms : ℕ → BackoffConfig → ℕ
exp_ms attempt c = min c.cap_ms (c.base_ms * 2 ^ shift_of attempt)

unfoldable pub backoff_delay : ℕ → BackoffConfig → ℕ → ℕ
backoff_delay attempt c draw =
    let e = exp_ms attempt c in
    if leb e c.floor_ms then c.floor_ms else c.floor_ms + draw * (e - c.floor_ms) / two_32

exp_ms-le : (attempt : ℕ) (c : BackoffConfig) → exp_ms attempt c ≤ c.cap_ms
unfolding exp_ms
exp_ms-le attempt c = omega arith

jitter_lt : (draw width : ℕ) → draw < two_32 → 0 < width → draw * width / two_32 < width
jitter_lt draw width h w =
    omega (arith, mul-le-mul_right width (let p : draw ≤ 4294967295 = omega arith in p))

-- A delay is never below the floor; it is the floor itself while the exponential window lies below
-- it, and otherwise inside the window, whose end it never reaches and which the cap bounds.
pub backoff_delay_bounds :
    (attempt : ℕ) (c : BackoffConfig) (draw : ℕ)
    → draw < two_32
    → let d = backoff_delay attempt c draw in
      (c.floor_ms ≤ d)
      × (exp_ms attempt c ≤ c.floor_ms → d ≡ c.floor_ms)
      × (c.floor_ms < exp_ms attempt c → (d < exp_ms attempt c) × (d < c.cap_ms))
unfolding backoff_delay
backoff_delay_bounds attempt c draw h =
    ground (arith, exp_ms-le attempt c, jitter_lt draw (exp_ms attempt c - c.floor_ms))

-- The window only grows with the attempts, and stops growing at the cap.
exp_ms_mono :
    (a b : ℕ) (c : BackoffConfig) → a ≤ b → (exp_ms a c ≤ exp_ms b c) × (exp_ms b c ≤ c.cap_ms)
unfolding exp_ms
exp_ms_mono a b c h =
    let g : 2 ^ shift_of a ≤ 2 ^ shift_of b = pow-le-pow_right (omega arith) (omega arith) in
    (omega (arith, mul-le-mul_left c.base_ms g), omega arith)
