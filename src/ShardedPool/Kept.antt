-- ===== src/ShardedPool/Kept.antt =====
-- Which pieces of buffer_pool_v3.rs change the bytes of a frame that has a guard.
use meridian_space_academy_c.Prelude.{
  ℕ, leb, ◌+◌, ◌^◌, ◌<◌, ◌≡◌, ◌≢◌, ◌∙◌, ◌⊎◌, inl, inr, refl, sym, ap, subst, Option, some, List,
  arith, Option-cases,
}
use native.Mathlib.Decide.{ℕ_discrete}
use meridian_space_academy_c.Result.{ok}
use meridian_space_academy_c.PageStore.{PageId, PageStore}
use meridian_space_academy_c.ShardedPool.{
  Victim, Shared, new, pinned, pin_ready, claim, fill, remove_old, publish, count_miss, release,
  unclaim, pin_flush, guard_write, finish_pending,
}
use meridian_space_academy_c.ShardedPool.Agents.{
  Agent, holding, System, Step, pick, Reach, Move, hit, miss, try, exhaust, pass_over, wait_load,
  retry, give_up, wait_loading, wait_leaving, wait_evicting, wake, write_back, write_fails, read,
  read_fails, take, remove, show, finish, put_back, unpin, drop_claim, end, write, drop, pin_valid,
  see_clean, see_dirty, flush, flush_fails, clear, flushed,
}
use meridian_space_academy_c.ShardedPool.Shape.{guarding, evicts}
use meridian_space_academy_c.ShardedPool.Effects.{
  Reservation, refused, of_empty, of_valid, try_reserve-cases, write_old-Rests, read_new-Rests,
  flush_page-Rests, clear_dirty-Rests,
}
use meridian_space_academy_c.ShardedPool.Invariant.{Inv}
use meridian_space_academy_c.ShardedPool.Pieces.{accessed_bytes, put_back_in, restore_goes}
use meridian_space_academy_c.ShardedPool.Runs.{reached}

-- The bytes of the frame `i` are as they were, or a guard of the thread `j` on it wrote them.
abbrev Kept : {S : Type 0} → Shared S → Agent → ℕ → Shared S → Type 0
Kept p a i p' =
    ((p'.frames i).bytes ≡ (p.frames i).bytes)
    ⊎ ((id : PageId) × (b : List ℕ) × (a ≡ holding id i) × (p' ≡ guard_write p i b))

module _ {S : Type 0} where
  Reservation-bytes :
      {p : Shared S} {i j : ℕ} {p' : Shared S} {v : Option Victim}
      → Reservation p i j p' v
      → (k : ℕ) → (p'.frames k).bytes ≡ (p.frames k).bytes
  Reservation-bytes (refused spares) k = spares.looked.rests.bytes_kept k
  Reservation-bytes (of_empty free z) k = ground arith
  Reservation-bytes (of_valid old has z) k = ground arith

  put_back-bytes :
      (p : Shared S) (v : Victim) (k : ℕ) → ((put_back_in p v).frames k).bytes ≡ (p.frames k).bytes
  put_back-bytes p v k = elim (Option-cases v.old_page_id) [
    | inl e ↦ rw e (ground arith)
    | inr (old, e) ↦ rw e (ground arith)
  ]

module _ {S : Type 0} (io : PageStore S) {n : ℕ} {p : Shared S} {ag : ℕ → Agent} (inv : Inv n p ag)
    (j i : ℕ) where
  Move-Kept :
      (a : Agent) (p' : Shared S) (a' : Agent)
      → ag j ≡ a
      → evicts a ≢ some i
      → Move io p j a p' a'
      → Kept p a i p'
  unfolding pin_ready claim fill remove_old publish count_miss release unclaim pin_flush guard_write
      finish_pending
  Move-Kept a p' a' at free (hit id k mode e) =
      inl (ground (arith, accessed_bytes (pinned (p.frames k)) mode))
  Move-Kept a p' a' at free (miss id mode e) = inl refl
  Move-Kept a p' a' at free (try id mode tries k snapshot more lt_k) =
      inl (Reservation-bytes (try_reserve-cases p k j (leb p.frame_count tries) snapshot) i)
  Move-Kept a p' a' at free (exhaust id mode tries e) = inl refl
  Move-Kept a p' a' at free (pass_over id mode k lt_k e) = inl refl
  Move-Kept a p' a' at free (wait_load id mode k l lt_k e) = inl refl
  Move-Kept a p' a' at free (retry id mode k t e) = inl refl
  Move-Kept a p' a' at free (give_up id mode k e) = inl refl
  Move-Kept a p' a' at free (wait_loading id k e) = inl refl
  Move-Kept a p' a' at free (wait_leaving id k e) = inl refl
  Move-Kept a p' a' at free (wait_evicting k l lt_k e) = inl refl
  Move-Kept a p' a' at free (wake k t e) = inl refl
  Move-Kept a p' a' at free (write_back id mode v e) =
      inl (let rests = write_old-Rests io p v in rests.bytes_kept i)
  Move-Kept a p' a' at free (write_fails id mode v c e) =
      inl (let rests = write_old-Rests io p v in rests.bytes_kept i)
  Move-Kept a p' a' at free (read id mode v b e) =
      inl (let rests = read_new-Rests io p id in rests.bytes_kept i)
  Move-Kept a p' a' at free (read_fails id mode v c e) =
      inl (let rests = read_new-Rests io p id in rests.bytes_kept i)
  Move-Kept a p' a' at free (take id mode v b unread) = inl (ground (arith, free))
  Move-Kept a p' a' at free (remove id v) = inl refl
  Move-Kept a p' a' at free (show id v) = inl (ground arith)
  Move-Kept a p' a' at free (finish id v) = inl refl
  Move-Kept a p' a' at free (put_back id v q e) =
      let same : put_back_in p v ≡ q =
        ground (arith, restore_goes inv j id v.index v.old_page_id at, e) in
      inl (sym (ap (λ x. (x.frames i).bytes) same) ∙ put_back-bytes p v i)
  Move-Kept a p' a' at free (unpin id v) = inl (ground arith)
  Move-Kept a p' a' at free (drop_claim id) = inl refl
  Move-Kept a p' a' at free end = inl refl
  Move-Kept a p' a' at free (write id k b unread) = elim (ℕ_discrete k i) [
    | yes here ↦ inr (id, b, ap (holding id) here, ap (λ x. guard_write p x b) here)
    | no ne ↦ inl (ground (arith, ne))
  ]
  Move-Kept a p' a' at free (drop id k) = inl (ground arith)
  Move-Kept a p' a' at free (pin_valid id k lt_k e) = inl (ground arith)
  Move-Kept a p' a' at free (see_clean id k e) = inl refl
  Move-Kept a p' a' at free (see_dirty id k e) = inl refl
  Move-Kept a p' a' at free (flush id k e) =
      inl (let rests = flush_page-Rests io p id k in rests.bytes_kept i)
  Move-Kept a p' a' at free (flush_fails id k c e) =
      inl (let rests = flush_page-Rests io p id k in rests.bytes_kept i)
  Move-Kept a p' a' at free (clear id k) =
      inl (let rests = clear_dirty-Rests p k in rests.bytes_kept i)
  Move-Kept a p' a' at free (flushed id k) = inl (ground arith)

module _ {S : Type 0} (io : PageStore S) (n capacity : ℕ) (few : n + 1 < 2 ^ 32) (store : S)
    {p : Shared S} (made : new capacity store ≡ ok p) {s : System S} (run : Reach io n p s) where
  -- In a pool that `new` made and that fewer than 2^32 - 1 threads have used in any order: the next
  -- piece of any thread leaves the bytes of a guard's frame as they are, unless it is the `write` of a
  -- guard on the same page and frame.
  pub guarded-Kept :
      (k : ℕ) (id : PageId) (i : ℕ)
      → guarding (s.agents k) ≡ some (id, i)
      → {t : System S} → Step io n s t
      → ((t.pool.frames i).bytes ≡ (s.pool.frames i).bytes)
        ⊎ ((j : ℕ) × (b : List ℕ) × (s.agents j ≡ holding id i) × (t.pool ≡ guard_write s.pool i b))
  guarded-Kept k id i e (pick j {p = q} {a} lt m) =
      let inv = reached io n few capacity store p s made run in
      let free : evicts (s.agents j) ≢ some i =
        λ x. ground (arith, inv.shape.to_evicting i j x, inv.shape.guard k id i e) in
      elim (Move-Kept io inv j i (s.agents j) q a refl free m) [
        | inl same ↦ inl same
        | inr (other, b, holds, wrote) ↦
            let there = inv.shape.guard j other i (ap guarding holds) in
            let one : other ≡ id = ground (arith, there, inv.shape.guard k id i e) in
            inr (j, b, subst (λ x. s.agents j ≡ holding x i) one holds, wrote)
      ]
