-- ===== src/Utils/Tests.antt =====
-- The first values of spec/vectors/backoff.json (the default settings with the seed 1), and three
-- items in two lanes.
use whats_multi.Utils.Random.{mulberry32}
use whats_multi.Utils.Backoff.{BackoffConfig, backoff_delay, exp_ms}
use whats_multi.Utils.Concurrency.{take_next, launch_lanes, map_limit}
use whats_multi.Prelude.{ℕ, zero, suc, ◌+◌, ◌≡◌, refl, List, [], ◌∷◌}

abbrev defaults : BackoffConfig
defaults = record { base_ms = 1000; cap_ms = 60000; floor_ms = 250 }

abbrev delays : ℕ → ℕ → ℕ → List ℕ
delays zero attempt seed = []
delays (suc n) attempt seed =
    let (seed_after, draw) = mulberry32 seed in
    backoff_delay attempt defaults draw ∷ delays n (attempt + 1) seed_after

vectors : delays 4 1 1 ≡ 720 ∷ 254 ∷ 2227 ∷ 7853 ∷ []
unfolding mulberry32 backoff_delay exp_ms
vectors = refl

launched : (map_limit 3 2).running ≡ 1 ∷ 0 ∷ []
unfolding map_limit launch_lanes take_next
launched = refl
