-- ===== src/ShardedPool/Phases.antt =====
-- How far a load of buffer_pool_v3.rs has come, and which `Pending` a thread waits for.
use meridian_space_academy_c.Prelude.{ℕ, ◌≤◌, ◌≡◌, Option, none, some, arith}
use meridian_space_academy_c.PageStore.{PageId}
use meridian_space_academy_c.ShardedPool.Agents.{
  Agent, idle, holding, flushing, dirty_seen, flushed_page, flush_done, choosing, scanning, waiting,
  awaiting, reserved, clean, fetched, filled, removed, published, failing, restored, unpinned,
  ending,
}
use meridian_space_academy_c.ShardedPool.Shape.{evicts, claims, leaves}

-- 1 for a load that looks for a frame, and 2 from when it has one until it finishes its `Pending`.
abbrev pub phase : Agent → ℕ
phase idle = 0
phase (holding q k) = 0
phase (flushing q k) = 0
phase (dirty_seen q k) = 0
phase (flushed_page q k) = 0
phase (flush_done q k) = 0
phase (choosing q m n) = 1
phase (scanning q m n) = 1
phase (waiting q m k t) = 1
phase (awaiting k t) = 0
phase (reserved q m v) = 2
phase (clean q m v) = 2
phase (fetched q m v b) = 2
phase (filled q v) = 2
phase (removed q v) = 2
phase (published q v) = 2
phase (failing q v) = 2
phase (restored q v) = 2
phase (unpinned q) = 2
phase ending = 2

-- The least phase that the other thread is in, that thread, and the number of its `Pending`.
abbrev pub awaits : Agent → Option (ℕ × ℕ × ℕ)
awaits (waiting id mode k t) = some (2, k, t)
awaits (awaiting k t) = some (1, k, t)
awaits a = none

pub record Phases (a : Agent) : Type 0 where
  pub of_evicts : (i : ℕ) → evicts a ≡ some i → 2 ≤ phase a
  pub of_claims : (id : PageId) → claims a ≡ some id → 1 ≤ phase a
  pub of_leaves : (id : PageId) → leaves a ≡ some id → 2 ≤ phase a
  pub waits_not : 2 ≤ phase a → awaits a ≡ none

pub Agent-Phases : (a : Agent) → Phases a
Agent-Phases idle = record {
  of_evicts = λ i e. ground (arith, e);
  of_claims = λ id e. ground (arith, e);
  of_leaves = λ id e. ground (arith, e);
  waits_not = λ le. ground (arith, le);
}
Agent-Phases (holding q k) = record {
  of_evicts = λ i e. ground (arith, e);
  of_claims = λ id e. ground (arith, e);
  of_leaves = λ id e. ground (arith, e);
  waits_not = λ le. ground (arith, le);
}
Agent-Phases (flushing q k) = record {
  of_evicts = λ i e. ground (arith, e);
  of_claims = λ id e. ground (arith, e);
  of_leaves = λ id e. ground (arith, e);
  waits_not = λ le. ground (arith, le);
}
Agent-Phases (dirty_seen q k) = record {
  of_evicts = λ i e. ground (arith, e);
  of_claims = λ id e. ground (arith, e);
  of_leaves = λ id e. ground (arith, e);
  waits_not = λ le. ground (arith, le);
}
Agent-Phases (flushed_page q k) = record {
  of_evicts = λ i e. ground (arith, e);
  of_claims = λ id e. ground (arith, e);
  of_leaves = λ id e. ground (arith, e);
  waits_not = λ le. ground (arith, le);
}
Agent-Phases (flush_done q k) = record {
  of_evicts = λ i e. ground (arith, e);
  of_claims = λ id e. ground (arith, e);
  of_leaves = λ id e. ground (arith, e);
  waits_not = λ le. ground (arith, le);
}
Agent-Phases (choosing q m n) = record {
  of_evicts = λ i e. ground (arith, e);
  of_claims = λ id e. ground (arith, e);
  of_leaves = λ id e. ground (arith, e);
  waits_not = λ le. ground (arith, le);
}
Agent-Phases (scanning q m n) = record {
  of_evicts = λ i e. ground (arith, e);
  of_claims = λ id e. ground (arith, e);
  of_leaves = λ id e. ground (arith, e);
  waits_not = λ le. ground (arith, le);
}
Agent-Phases (waiting q m k t) = record {
  of_evicts = λ i e. ground (arith, e);
  of_claims = λ id e. ground (arith, e);
  of_leaves = λ id e. ground (arith, e);
  waits_not = λ le. ground (arith, le);
}
Agent-Phases (awaiting k t) = record {
  of_evicts = λ i e. ground (arith, e);
  of_claims = λ id e. ground (arith, e);
  of_leaves = λ id e. ground (arith, e);
  waits_not = λ le. ground (arith, le);
}
Agent-Phases (reserved q m v) = record {
  of_evicts = λ i e. ground (arith, e);
  of_claims = λ id e. ground (arith, e);
  of_leaves = λ id e. ground (arith, e);
  waits_not = λ le. ground (arith, le);
}
Agent-Phases (clean q m v) = record {
  of_evicts = λ i e. ground (arith, e);
  of_claims = λ id e. ground (arith, e);
  of_leaves = λ id e. ground (arith, e);
  waits_not = λ le. ground (arith, le);
}
Agent-Phases (fetched q m v b) = record {
  of_evicts = λ i e. ground (arith, e);
  of_claims = λ id e. ground (arith, e);
  of_leaves = λ id e. ground (arith, e);
  waits_not = λ le. ground (arith, le);
}
Agent-Phases (filled q v) = record {
  of_evicts = λ i e. ground (arith, e);
  of_claims = λ id e. ground (arith, e);
  of_leaves = λ id e. ground (arith, e);
  waits_not = λ le. ground (arith, le);
}
Agent-Phases (removed q v) = record {
  of_evicts = λ i e. ground (arith, e);
  of_claims = λ id e. ground (arith, e);
  of_leaves = λ id e. ground (arith, e);
  waits_not = λ le. ground (arith, le);
}
Agent-Phases (published q v) = record {
  of_evicts = λ i e. ground (arith, e);
  of_claims = λ id e. ground (arith, e);
  of_leaves = λ id e. ground (arith, e);
  waits_not = λ le. ground (arith, le);
}
Agent-Phases (failing q v) = record {
  of_evicts = λ i e. ground (arith, e);
  of_claims = λ id e. ground (arith, e);
  of_leaves = λ id e. ground (arith, e);
  waits_not = λ le. ground (arith, le);
}
Agent-Phases (restored q v) = record {
  of_evicts = λ i e. ground (arith, e);
  of_claims = λ id e. ground (arith, e);
  of_leaves = λ id e. ground (arith, e);
  waits_not = λ le. ground (arith, le);
}
Agent-Phases (unpinned q) = record {
  of_evicts = λ i e. ground (arith, e);
  of_claims = λ id e. ground (arith, e);
  of_leaves = λ id e. ground (arith, e);
  waits_not = λ le. ground (arith, le);
}
Agent-Phases ending = record {
  of_evicts = λ i e. ground (arith, e);
  of_claims = λ id e. ground (arith, e);
  of_leaves = λ id e. ground (arith, e);
  waits_not = λ le. ground (arith, le);
}
