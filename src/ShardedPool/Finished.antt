-- ===== src/ShardedPool/Finished.antt =====
-- What the pieces of buffer_pool_v3.rs do not change: which `Pending`s are finished.
use meridian_space_academy_c.Prelude.{
  ℕ, ◌≡◌, inl, inr, refl, Option, arith, Option-cases, Bool-cases,
}
use meridian_space_academy_c.Result.{Result-cases, ok, case_reply}
use meridian_space_academy_c.PageStore.{PageId, PageStore}
use meridian_space_academy_c.ShardedPool.{
  Victim, Shared, restore, write_dirty, write_old, read_new, flush_page, is_leaving,
}
use meridian_space_academy_c.ShardedPool.Effects.{Reservation, refused, of_empty, of_valid}

module _ {S : Type 0} where
  pub Reservation-finished :
      {p : Shared S} {i j : ℕ} {p' : Shared S} {v : Option Victim}
      → Reservation p i j p' v
      → p'.finished ≡ p.finished
  Reservation-finished (refused spares) = spares.looked.finished_kept
  Reservation-finished (of_empty free z) = refl
  Reservation-finished (of_valid old has z) = refl

  pub restore-finished :
      (p : Shared S) (v : Victim) (j : ℕ) (q : Shared S)
      → restore p v j ≡ ok q
      → q.finished ≡ p.finished
  unfolding restore
  restore-finished p v j q e = elim (Option-cases v.old_page_id) [
    | inl none_left ↦ ground (arith, none_left, e)
    | inr (old, has) ↦ elim (Option-cases (p.table old)) [
      | inl free ↦ ground (arith, has, free, e)
      | inr (entry, there) ↦ elim (Bool-cases (is_leaving j entry)) [
        | inl mine ↦ ground (arith, has, there, mine, e)
        | inr other ↦ ground (arith, has, there, other, e)
      ]
    ]
  ]

module _ {S : Type 0} (io : PageStore S) (p : Shared S) where
  write_dirty-finished : (id : PageId) (i : ℕ) → (write_dirty io p id i).0.finished ≡ p.finished
  unfolding write_dirty
  write_dirty-finished id i = elim (Bool-cases (p.frames i).dirty) [
    | inr fails ↦ rw (fails, write_dirty) refl
    | inl holds ↦ elim (Result-cases (io.write_page p.store id (p.frames i).bytes).1) [
      | inl (t, e) ↦ rw (holds, e, write_dirty, case_reply) refl
      | inr (inl (c, e)) ↦ rw (holds, e, write_dirty, case_reply) refl
      | inr (inr e) ↦ rw (holds, e, write_dirty, case_reply) refl
    ]
  ]

  pub flush_page-finished : (id : PageId) (i : ℕ) → (flush_page io p id i).0.finished ≡ p.finished
  unfolding flush_page
  flush_page-finished id i = elim (Result-cases (io.write_page p.store id (p.frames i).bytes).1) [
    | inl (t, e) ↦ rw (e, flush_page, case_reply) refl
    | inr (inl (c, e)) ↦ rw (e, flush_page, case_reply) refl
    | inr (inr e) ↦ rw (e, flush_page, case_reply) refl
  ]

  pub write_old-finished : (v : Victim) → (write_old io p v).0.finished ≡ p.finished
  unfolding write_old
  write_old-finished v = elim (Option-cases v.old_page_id) [
    | inl e ↦ rw (e, write_old) refl
    | inr (old, e) ↦ rw (e, write_old) (write_dirty-finished old v.index)
  ]

  pub read_new-finished : (id : PageId) → (read_new io p id).0.finished ≡ p.finished
  unfolding read_new
  read_new-finished id = elim (Result-cases (io.read_page p.store id).1) [
    | inl (b, e) ↦ rw (e, read_new, case_reply) refl
    | inr (inl (c, e)) ↦ rw (e, read_new, case_reply) refl
    | inr (inr e) ↦ rw (e, read_new, case_reply) refl
  ]
