-- ===== src/Utils/Concurrency.antt =====
-- src/utils/concurrency.ts. A lane is one of the `run` loops; what a worker returns is not looked
-- at, only whether it fails. `running`, `done` and `failed` hold the indices of the workers.
pub mod Laws
use whats_multi.Prelude.{ℕ, zero, suc, ◌+◌, min, max, ◌≡◌, List, [], ◌∷◌, ◌++◌, ltb, if◌then◌else◌}

pub record Fanout : Type 0 where
  pub total : ℕ
  pub width : ℕ
  pub cursor : ℕ
  pub running : List ℕ
  pub done : List ℕ
  pub failed : List ℕ

-- The head of the loop: a lane takes the next item, or ends.
unfoldable pub take_next : Fanout → Fanout
take_next f =
    if ltb f.cursor f.total
    then record f { cursor = f.cursor + 1; running = f.cursor ∷ f.running }
    else f

unfoldable pub launch_lanes : ℕ → Fanout → Fanout
launch_lanes zero f = f
launch_lanes (suc lanes) f = launch_lanes lanes (take_next f)

-- `mapLimit` up to its await.
unfoldable pub map_limit : (items limit : ℕ) → Fanout
map_limit items limit =
    let width = max 1 (min limit items) in
    launch_lanes width
      (record { total = items; width = width; cursor = 0; running = []; done = []; failed = [] })

-- The worker `index` has returned, and its lane goes on.
unfoldable pub worker_done : (before after : List ℕ) → (index : ℕ) → Fanout → Fanout
worker_done before after index f =
    take_next (record f { running = before ++ after; done = index ∷ f.done })

-- It has thrown, which ends its lane and rejects the result.
unfoldable pub worker_failed : (before after : List ℕ) → (index : ℕ) → Fanout → Fanout
worker_failed before after index f = record f {
  running = before ++ after;
  failed = index ∷ f.failed;
}

pub data Step : Fanout → Fanout → Type 0 where
  returns :
      {f : Fanout} (before after : List ℕ) (index : ℕ)
      → f.running ≡ before ++ (index ∷ after)
      → Step f (worker_done before after index f)
  throws :
      {f : Fanout} (before after : List ℕ) (index : ℕ)
      → f.running ≡ before ++ (index ∷ after)
      → Step f (worker_failed before after index f)

pub data Reach (f : Fanout) : Fanout → Type 0 where
  here : Reach f f
  next : {g h : Fanout} → Reach f g → Step g h → Reach f h
