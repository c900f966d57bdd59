-- ===== src/Utils/Concurrency/Laws.antt =====
-- How many workers run, and that none is skipped.
use whats_multi.Utils.Concurrency.{
  Fanout, take_next, launch_lanes, map_limit, worker_done, worker_failed, Step, returns, throws,
  Reach, here, next,
}
use whats_multi.Prelude.{
  ℕ, zero, suc, ◌+◌, ◌≤◌, ◌<◌, min, max, ◌≡◌, refl, ap, ◌∙◌, List, [], ◌∷◌, ◌++◌, arith, length,
  length-append,
}

-- A lane is busy, has failed, or has found no item left.
pub record Inv (f : Fanout) : Type 0 where
  pub counted : length f.running + length f.done + length f.failed ≡ f.cursor
  pub inside : f.cursor ≤ f.total
  pub limited : length f.running + length f.failed ≤ f.width
  pub busy : f.cursor < f.total → length f.running + length f.failed ≡ f.width

abbrev Launched : ℕ → Fanout → Fanout → Type 0
Launched more f g =
    (length g.running ≡ g.cursor)
    × (g.done ≡ [])
    × (g.failed ≡ [])
    × (g.total ≡ f.total)
    × (g.width ≡ f.width)
    × (g.cursor ≡ min (f.cursor + more) f.total)

launch_lanes-Launched :
    (more : ℕ) (f : Fanout)
    → length f.running ≡ f.cursor
    → f.done ≡ []
    → f.failed ≡ []
    → f.cursor ≤ f.total
    → Launched more f (launch_lanes more f)
unfolding launch_lanes
launch_lanes-Launched zero f r d e c = (r, d, e, refl, refl, omega arith)
launch_lanes-Launched (suc more) f r d e c =
    let g = take_next f in
    let taken : (length g.running ≡ g.cursor)
        × (g.done ≡ [])
        × (g.failed ≡ [])
        × (g.total ≡ f.total)
        × (g.width ≡ f.width)
        × (g.cursor ≡ min (f.cursor + 1) f.total) =
      unfold take_next in ground arith in
    let (gr, gd, ge, gt, gw, gc) = taken in
    let (hr, hd, he, ht, hw, hc) = launch_lanes-Launched more g gr gd ge (omega arith) in
    (hr, hd, he, ht ∙ gt, hw ∙ gw, omega (arith, hc, gc, gt))

map_limit-Inv : (items limit : ℕ) → Inv (map_limit items limit)
unfolding map_limit
map_limit-Inv items limit =
    let width = max 1 (min limit items) in
    let start : Fanout = record {
      total = items;
      width = width;
      cursor = 0;
      running = [];
      done = [];
      failed = [];
    } in
    let (r, d, e, t, w, c) = launch_lanes-Launched width start refl refl refl (omega arith) in
    record {
      counted = ground (arith, r, d, e);
      inside = omega (arith, t, c);
      limited = ground (arith, r, e, w, c, t);
      busy = λ h. ground (arith, r, e, w, c, t);
    }

worker_done-Inv :
    (f : Fanout) (before after : List ℕ) (index : ℕ)
    → f.running ≡ before ++ (index ∷ after)
    → Inv f
    → Inv (worker_done before after index f)
unfolding worker_done take_next
worker_done-Inv f before after index e v =
    ground (arith, ap length e, length-append before (index ∷ after), length-append before after)

worker_failed-Inv :
    (f : Fanout) (before after : List ℕ) (index : ℕ)
    → f.running ≡ before ++ (index ∷ after)
    → Inv f
    → Inv (worker_failed before after index f)
unfolding worker_failed
worker_failed-Inv f before after index e v =
    ground (arith, ap length e, length-append before (index ∷ after), length-append before after)

reach-Inv : {f g : Fanout} → Inv f → Reach f g → Inv g
reach-Inv v here = v
reach-Inv v (next {g} r (returns before after index e)) =
    worker_done-Inv g before after index e (reach-Inv v r)
reach-Inv v (next {g} r (throws before after index e)) =
    worker_failed-Inv g before after index e (reach-Inv v r)

-- In every state that a fan-out can reach: the workers that run and the lanes that have failed are
-- together no more than the width that was started with; every item below the cursor has one worker
-- that runs, has returned or has failed; and while items are left, each lane that has not failed is
-- busy.
map_limit-Reach : (items limit : ℕ) {f : Fanout} → Reach (map_limit items limit) f → Inv f
map_limit-Reach items limit r = reach-Inv (map_limit-Inv items limit) r

-- From `f` a worker can fail, and after that another item is started.
abbrev pub StartsMore : Fanout → Type 0
StartsMore f =
    (g : Fanout) × (h : Fanout) × Reach f g
    × (0 < length g.failed)
    × Step g h
    × (h.cursor ≡ g.cursor + 1)
    × (0 < length h.failed)

next_starts : (f : Fanout) → f.cursor < f.total → (take_next f).cursor ≡ f.cursor + 1
unfolding take_next
next_starts f h = ground arith

next-failed : (f : Fanout) → (take_next f).failed ≡ f.failed
unfolding take_next
next-failed f = ground arith

two_run :
    (f : Fanout) (workers : List ℕ)
    → f.running ≡ workers
    → 2 ≤ length workers
    → f.cursor < f.total
    → StartsMore f
unfolding worker_failed worker_done
two_run f [] e h c = absurd (omega arith)
two_run f (a ∷ []) e h c = absurd (omega arith)
two_run f (a ∷ b ∷ rest) e h c =
    let g = worker_failed [] (b ∷ rest) a f in
    let after : Fanout = record g { running = rest; done = b ∷ g.done } in
    (
      g,
      worker_done [] rest b g,
      next here (throws [] (b ∷ rest) a e),
      omega arith,
      returns [] rest b refl,
      next_starts after c,
      rw (next-failed after) (omega arith),
    )

-- A failure does not stop the others: with a limit of at least 2 and more items than that, a
-- worker can fail, and the end of another one still starts the next item.
failure_stops_one_lane :
    (items limit : ℕ) → 2 ≤ limit → limit < items → StartsMore (map_limit items limit)
unfolding map_limit
failure_stops_one_lane items limit two many =
    let width = max 1 (min limit items) in
    let start : Fanout = record {
      total = items;
      width = width;
      cursor = 0;
      running = [];
      done = [];
      failed = [];
    } in
    let (r, d, e, t, w, c) = launch_lanes-Launched width start refl refl refl (omega arith) in
    let f = launch_lanes width start in
    two_run f f.running refl (omega (arith, r, c, t)) (omega (arith, c, t))
