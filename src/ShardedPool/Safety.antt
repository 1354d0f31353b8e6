-- ===== src/ShardedPool/Safety.antt =====
-- What the guards and the loads of buffer_pool_v3.rs may rely on while other threads run.
use meridian_space_academy_c.Prelude.{
  ℕ, ◌+◌, ◌^◌, ◌≤◌, ◌<◌, ◌≡◌, inl, inr, ap, none, some, Option-cases, ltb, ltb→lt, arith,
  Bool-cases,
}
use meridian_space_academy_c.Result.{ok}
use meridian_space_academy_c.PageStore.{PageId, PageStore, same_page_iff}
use meridian_space_academy_c.ShardedPool.{empty, valid, ready, Victim, Shared, new, restore}
use meridian_space_academy_c.ShardedPool.Pieces.{put_back_in, restore_goes}
use meridian_space_academy_c.ShardedPool.Agents.{Agent, holding, failing, System, Reach}
use meridian_space_academy_c.ShardedPool.Shape.{guarding, evicts, claims}
use meridian_space_academy_c.ShardedPool.Pins.{total-one, pins-guarding}
use meridian_space_academy_c.ShardedPool.Effects.{states}
use meridian_space_academy_c.ShardedPool.Invariant.{Inv}
use meridian_space_academy_c.ShardedPool.Runs.{reached}

-- The frame `i` of the pool is pinned, and it is the frame of the page `id`, also in the table.
pub record Guarded {S : Type 0} (p : Shared S) (id : PageId) (i : ℕ) : Type 0 where
  pub bound : i < p.frame_count
  pub state : (p.frames i).state ≡ valid id
  pub entry : p.table id ≡ some (ready i)
  pub pinned : 1 ≤ (p.frames i).pin_count

-- Two threads on one page, or on one frame, of which the first is loading.
pub data Overlap (a b : Agent) : Type 0 where
  both_load : (id : PageId) → claims a ≡ some id → claims b ≡ some id → Overlap a b
  page_guarded :
      (id : PageId) (i : ℕ) → claims a ≡ some id → guarding b ≡ some (id, i) → Overlap a b
  both_reserve : (i : ℕ) → evicts a ≡ some i → evicts b ≡ some i → Overlap a b
  frame_guarded :
      (id : PageId) (i : ℕ) → evicts a ≡ some i → guarding b ≡ some (id, i) → Overlap a b

module _ {S : Type 0} {n : ℕ} {p : Shared S} {ag : ℕ → Agent} (inv : Inv n p ag) where
  apart : (j k : ℕ) → Overlap (ag j) (ag k) → j ≡ k
  apart j k (both_load id a b) =
      ground (arith, inv.shape.to_loading id j a, inv.shape.to_loading id k b)
  apart j k (page_guarded id i a b) =
      ground
        (arith, inv.shape.to_loading id j a, inv.shape.to_ready id i (inv.shape.guard k id i b))
  apart j k (both_reserve i a b) =
      ground (arith, inv.shape.to_evicting i j a, inv.shape.to_evicting i k b)
  apart j k (frame_guarded id i a b) =
      ground (arith, inv.shape.to_evicting i j a, inv.shape.guard k id i b)

  pub guards : (j : ℕ) (id : PageId) (i : ℕ) → guarding (ag j) ≡ some (id, i) → Guarded p id i
  guards j id i e =
      let has : states p i ≡ valid id = inv.shape.guard j id i e in
      record {
        bound = elim (Bool-cases (ltb i p.frame_count)) [
          | inl lt ↦ ltb→lt i p.frame_count lt
          | inr ge ↦ ground (arith, inv.shape.outside i, has, ge)
        ];
        state = has;
        entry = inv.shape.to_ready id i has;
        pinned = elim (Bool-cases (ltb j n)) [
          | inl lt ↦ grind (
            arith,
            inv.counted i,
            total-one i n ag j (ltb→lt j n lt),
            pins-guarding (ag j) id i e,
          )
          | inr ge ↦ ground (arith, inv.rest j, e, ge)
        ];
      }

back_in :
    {S : Type 0} (p : Shared S) (v : Victim)
    → (states (put_back_in p v) v.index
        ≡ elim v.old_page_id [ none ↦ empty | some old ↦ valid old ])
      × ((old : PageId)
          → v.old_page_id ≡ some old
          → (put_back_in p v).table old ≡ some (ready v.index))
back_in p v = elim (Option-cases v.old_page_id) [
  | inl e ↦ (rw e (ground arith), λ old e'. absurd (ground (arith, e, e')))
  | inr (q, e) ↦ (rw e (ground arith), λ old e'. rw e (ground (arith, e, e', same_page_iff q old)))
]

module _ {S : Type 0} (io : PageStore S) (n capacity : ℕ) (few : n + 1 < 2 ^ 32) (store : S)
    {p : Shared S} (made : new capacity store ≡ ok p) {s : System S} (run : Reach io n p s) where
  -- In a pool that `new` made and that fewer than 2^32 - 1 threads have used in any order: the
  -- frame of a guard exists, has the page of the guard, is the frame that the table gives for that
  -- page, and is pinned.
  pub holding-Guarded :
      (j : ℕ) (id : PageId) (i : ℕ) → s.agents j ≡ holding id i → Guarded s.pool id i
  holding-Guarded j id i e =
      guards (reached io n few capacity store p s made run) j id i (ap guarding e)

  -- In a pool that `new` made and that fewer than 2^32 - 1 threads have used in any order:
  -- `restore_failed_load` does not panic, since the entry of the page that left is there and is this
  -- load's. It gives the frame its state of before, and a page that left its entry.
  pub restore-ok :
      (j : ℕ) (id : PageId) (v : Victim)
      → s.agents j ≡ failing id v
      → (q : Shared S) × (restore s.pool v j ≡ ok q)
        × (states q v.index ≡ elim v.old_page_id [ none ↦ empty | some old ↦ valid old ])
        × ((old : PageId) → v.old_page_id ≡ some old → q.table old ≡ some (ready v.index))
  restore-ok j id v e =
      let inv = reached io n few capacity store p s made run in
      let (state, entry) = back_in s.pool v in
      (put_back_in s.pool v, restore_goes inv j id v.index v.old_page_id e, state, entry)

  -- In a pool that `new` made and that fewer than 2^32 - 1 threads have used in any order: while a
  -- thread loads a page no other loads it or has a guard on it, and while a thread has reserved a
  -- frame no other has reserved it or has a guard on it.
  pub loads-apart : (j k : ℕ) → Overlap (s.agents j) (s.agents k) → j ≡ k
  loads-apart j k overlap = apart (reached io n few capacity store p s made run) j k overlap
