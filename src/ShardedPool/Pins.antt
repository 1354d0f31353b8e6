-- ===== src/ShardedPool/Pins.antt =====
-- The pins of the frames of buffer_pool_v3.rs, counted over the threads.
use meridian_space_academy_c.Prelude.{
  ℕ, zero, suc, ◌+◌, ◌≤◌, ◌<◌, ◌≡◌, refl, Option, none, some, ◌==◌, if◌then◌else◌, arith,
}
use native.Mathlib.Decide.{ℕ_discrete}
use meridian_space_academy_c.PageStore.{PageId}
use meridian_space_academy_c.ShardedPool.{update}
use meridian_space_academy_c.ShardedPool.Agents.{
  Agent, idle, holding, flushing, dirty_seen, flushed_page, flush_done, choosing, scanning, waiting,
  awaiting, ending, reserved, clean, fetched, filled, removed, published, failing, restored,
  unpinned,
}
use meridian_space_academy_c.ShardedPool.Shape.{guarding}

-- The frame on which an agent has a pin.
abbrev pub pins : Agent → Option ℕ
pins idle = none
pins (holding id i) = some i
pins (flushing id i) = some i
pins (dirty_seen id i) = some i
pins (flushed_page id i) = some i
pins (flush_done id i) = some i
pins (choosing id mode n) = none
pins (scanning id mode n) = none
pins (waiting id mode k t) = none
pins (awaiting k t) = none
pins (reserved id mode v) = some v.index
pins (clean id mode v) = some v.index
pins (fetched id mode v b) = some v.index
pins (filled id v) = some v.index
pins (removed id v) = some v.index
pins (published id v) = some v.index
pins (failing id v) = some v.index
pins (restored id v) = some v.index
pins (unpinned id) = none
pins ending = none

abbrev pub weight : ℕ → Option ℕ → ℕ
weight i none = 0
weight i (some k) = if k == i then 1 else 0

-- The pins of the first `n` agents on the frame `i`.
unfoldable pub total : ℕ → ℕ → (ℕ → Agent) → ℕ
total i zero ag = 0
total i (suc n) ag = total i n ag + weight i (pins (ag n))

total-beyond :
    (i n : ℕ) (ag : ℕ → Agent) (j : ℕ) (a : Agent)
    → n ≤ j
    → total i n (update ag j a) ≡ total i n ag
unfolding total
total-beyond i zero ag j a le = refl
total-beyond i (suc n) ag j a le = ground (arith, total-beyond i n ag j a)

pub total-update :
    (i n : ℕ) (ag : ℕ → Agent) (j : ℕ) (a : Agent)
    → j < n
    → total i n (update ag j a) + weight i (pins (ag j)) ≡ total i n ag + weight i (pins a)
unfolding total
total-update i zero ag j a lt = absurd (omega (arith, lt))
total-update i (suc n) ag j a lt = elim (ℕ_discrete j n) [
  | yes last ↦ ground (arith, total-beyond i n ag j a, last)
  | no ne ↦ ground (arith, total-update i n ag j a, ne, lt)
]

weight_small : (i : ℕ) (o : Option ℕ) → weight i o ≤ 1
weight_small i none = omega arith
weight_small i (some k) = ground arith

pub total_small : (i n : ℕ) (ag : ℕ → Agent) → total i n ag ≤ n
unfolding total
total_small i zero ag = omega arith
total_small i (suc n) ag = omega (arith, total_small i n ag, weight_small i (pins (ag n)))

pub total-one : (i n : ℕ) (ag : ℕ → Agent) (j : ℕ) → j < n → weight i (pins (ag j)) ≤ total i n ag
unfolding total
total-one i zero ag j lt = absurd (omega (arith, lt))
total-one i (suc n) ag j lt = elim (ℕ_discrete j n) [
  | yes last ↦ ground (arith, last)
  | no ne ↦ omega (arith, total-one i n ag j (omega (arith, lt, ne)))
]

pub total_idle : (i n : ℕ) → total i n (λ j. idle) ≡ 0
unfolding total
total_idle i zero = refl
total_idle i (suc n) = omega (arith, total_idle i n)

-- An agent has a pin on the frame that it guards.
pub pins-guarding : (a : Agent) (id : PageId) (i : ℕ) → guarding a ≡ some (id, i) → pins a ≡ some i
pins-guarding idle id i e = ground (arith, e)
pins-guarding (holding q k) id i e = ground (arith, e)
pins-guarding (flushing q k) id i e = ground (arith, e)
pins-guarding (dirty_seen q k) id i e = ground (arith, e)
pins-guarding (flushed_page q k) id i e = ground (arith, e)
pins-guarding (flush_done q k) id i e = ground (arith, e)
pins-guarding (choosing q m n) id i e = ground (arith, e)
pins-guarding (scanning q m n) id i e = ground (arith, e)
pins-guarding (waiting q m k t) id i e = ground (arith, e)
pins-guarding (awaiting k t) id i e = ground (arith, e)
pins-guarding (reserved q m v) id i e = ground (arith, e)
pins-guarding (clean q m v) id i e = ground (arith, e)
pins-guarding (fetched q m v b) id i e = ground (arith, e)
pins-guarding (filled q v) id i e = ground (arith, e)
pins-guarding (removed q v) id i e = ground (arith, e)
pins-guarding (published q v) id i e = ground (arith, e)
pins-guarding (failing q v) id i e = ground (arith, e)
pins-guarding (restored q v) id i e = ground (arith, e)
pins-guarding (unpinned q) id i e = ground (arith, e)
pins-guarding ending id i e = ground (arith, e)
