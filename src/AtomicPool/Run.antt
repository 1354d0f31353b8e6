-- ===== src/AtomicPool/Run.antt =====
-- Sequences of calls on the pools of buffer_pool.rs and buffer_pool_v2.rs.
use meridian_space_academy_c.Prelude.{ℕ, ◌≡◌, ◌∙◌, refl, ap, Option, List, [], ◌∷◌}
use meridian_space_academy_c.Result.{Result, ok, err, panic, ◌>>=◌}
use meridian_space_academy_c.PageStore.{PageId, PageStore}
use meridian_space_academy_c.ClockPool.{BufferPoolInner, BufferPoolShared, AccessMode, PageGuard}
use meridian_space_academy_c.ClockPool
use meridian_space_academy_c.AtomicPool.{
  BufferPoolV2Shared, flush_all, fetch_page, guard_read, guard_write, guard_drop, new,
}
use meridian_space_academy_c.AtomicPool.Recall.{recall_pool, new-recall}
use meridian_space_academy_c.AtomicPool.Fetch.{Calm, fetch_page-recall}
use meridian_space_academy_c.AtomicPool.Flush.{
  flush_all-recall, guard_read-recall, guard_write-recall, guard_drop-recall,
}

-- A call of the pool or of a guard.
pub data Call : Type 0 where
  fetch : PageId → AccessMode → Call
  flush : Call
  read write : PageGuard → (List ℕ → List ℕ) → Call
  drop : PageGuard → Call

pub data Answer : Type 0 where
  fetched : Result PageGuard → Answer
  done : Result (Unit {0}) → Answer
  bytes : Option (List ℕ) → Answer

module _ {S : Type 0} (io : PageStore S) where
  abbrev pub call : BufferPoolShared S → Call → BufferPoolShared S × Answer
  call p (fetch id mode) = let (p', r) = ClockPool.fetch_page io p id mode in (p', fetched r)
  call p flush = let (p', r) = ClockPool.flush_all io p in (p', done r)
  call p (read g f) = (p, bytes (ClockPool.guard_read g p.inner f))
  call p (write g f) =
      let (s, r) = ClockPool.guard_write g p.inner (λ b. (f b, b)) in
      (record { store = p.store; inner = s }, bytes r)
  call p (drop g) =
      let (s, r) = ClockPool.guard_drop g p.inner in (record { store = p.store; inner = s }, done r)

  abbrev pub call_v2 : BufferPoolV2Shared S → Call → BufferPoolV2Shared S × Answer
  call_v2 p (fetch id mode) = let (p', r) = fetch_page io p id mode in (p', fetched r)
  call_v2 p flush = let (p', r) = flush_all io p in (p', done r)
  call_v2 p (read g f) = (p, bytes (guard_read g p f))
  call_v2 p (write g f) = let (p', r) = guard_write g p (λ b. (f b, b)) in (p', bytes r)
  call_v2 p (drop g) = let (p', r) = guard_drop g p in (p', done r)

  unfoldable pub run : BufferPoolShared S → List Call → List Answer
  run p [] = []
  run p (c ∷ cs) = let (p', a) = call p c in a ∷ run p' cs

  unfoldable pub run_v2 : BufferPoolV2Shared S → List Call → List Answer
  run_v2 p [] = []
  run_v2 p (c ∷ cs) = let (p', a) = call_v2 p c in a ∷ run_v2 p' cs

  module _ (calm : Calm io) where
    call-recall :
        (p : BufferPoolShared S) (c : Call)
        → call_v2 (recall_pool p) c ≡ (let (p', a) = call p c in (recall_pool p', a))
    call-recall p (fetch id mode) =
        ap (λ x. (x.0, fetched x.1)) ((fetch_page-recall io calm id p mode).1)
    call-recall p flush = ap (λ x. (x.0, done x.1)) (flush_all-recall io p)
    call-recall p (read g f) = ap (λ x. (recall_pool p, bytes x)) (guard_read-recall io g p f)
    call-recall p (write g f) =
        ap (λ x. (x.0, bytes x.1)) (guard_write-recall io g p (λ b. (f b, b)))
    call-recall p (drop g) = ap (λ x. (x.0, done x.1)) (guard_drop-recall io g p)

    run-recall : (p : BufferPoolShared S) (cs : List Call) → run_v2 (recall_pool p) cs ≡ run p cs
    unfolding run run_v2
    run-recall p [] = refl
    run-recall p (c ∷ cs) =
        ap (λ x. x.1 ∷ run_v2 x.0 cs) (call-recall p c)
        ∙ ap (◌∷◌ (call p c).1) (run-recall (call p c).0 cs)

  -- Over a store that does not panic: a new pool of buffer_pool_v2.rs gives to every sequence of calls,
  -- each run to its end, the answers that a new pool of buffer_pool.rs gives.
  pub run-new-recall :
      Calm io
      → (n : ℕ) (store : S) (cs : List Call)
      → (new n store >>= λ p. ok (run_v2 p cs)) ≡ (ClockPool.new n store >>= λ p. ok (run p cs))
  run-new-recall calm n store cs = rw (new-recall n store) (go (ClockPool.new n store))
    where
      go :
          (x : Result (BufferPoolShared S))
          → ((x >>= λ p. ok (recall_pool p)) >>= λ p. ok (run_v2 p cs)) ≡ (x >>= λ p. ok (run p cs))
      go (ok p) = ap ok (run-recall calm p cs)
      go (err e) = refl
      go panic = refl
