-- ===== src/ShardedPool/Pieces.antt =====
-- The invariant after the single pieces of a thread in buffer_pool_v3.rs.
use meridian_space_academy_c.Prelude.{
  ℕ, ◌+◌, ◌^◌, ◌<◌, ◌≡◌, ◌∙◌, inl, inr, refl, sym, ap, subst, Option, none, some, List, arith,
}
use meridian_space_academy_c.Result.{ok}
use meridian_space_academy_c.PageStore.{PageId}
use meridian_space_academy_c.ClockPool.{AccessMode, normal, bulk_read}
use meridian_space_academy_c.ShardedPool.{
  empty, valid, ready, leaving, with_state, finish_pending, Frame, Victim, Shared, update,
  record_access, pinned, pin_ready, claim, reserve, with_entry, fill, remove_old, publish,
  count_miss, restore, release, unclaim, pin_flush, guard_write,
}
use meridian_space_academy_c.ShardedPool.Agents.{
  Agent, idle, holding, flushing, choosing, reserved, fetched, filled, removed, published, failing,
  restored, ending, chosen,
}
use meridian_space_academy_c.ShardedPool.Shape.{
  guarding, evicts, claims, leaves, claimed, unclaimed,
}
use meridian_space_academy_c.ShardedPool.Taking.{
  reserved_empty, reserved_valid, old_gone, shown, emptied,
}
use meridian_space_academy_c.ShardedPool.Pins.{pins}
use meridian_space_academy_c.ShardedPool.Effects.{
  states, Rests, Reservation, refused, of_empty, of_valid, still,
}
use meridian_space_academy_c.ShardedPool.Invariant.{
  Inv, rebuild, calm-Inv, stay-Inv, added, given_back, unguarded,
}

pub accessed_state : (f : Frame) (m : AccessMode) → (record_access f m).state ≡ f.state
unfolding record_access
accessed_state f normal = refl
accessed_state f bulk_read = refl

pub accessed_bytes : (f : Frame) (m : AccessMode) → (record_access f m).bytes ≡ f.bytes
unfolding record_access
accessed_bytes f normal = refl
accessed_bytes f bulk_read = refl

pub accessed_dirty : (f : Frame) (m : AccessMode) → (record_access f m).dirty ≡ f.dirty
unfolding record_access
accessed_dirty f normal = refl
accessed_dirty f bulk_read = refl

accessed_pins : (f : Frame) (m : AccessMode) → (record_access f m).pin_count ≡ f.pin_count
unfolding record_access
accessed_pins f normal = refl
accessed_pins f bulk_read = refl

-- The pool after a `restore` that does not panic.
abbrev pub put_back_in : {S : Type 0} → Shared S → Victim → Shared S
put_back_in p v = elim v.old_page_id [
  | none ↦ with_state p v.index empty
  | some old ↦ with_entry (with_state p v.index (valid old)) old (some (ready v.index))
]

-- The load of the thread `j` does not panic there.
pub restore_goes :
    {S : Type 0} {n : ℕ} {p : Shared S} {ag : ℕ → Agent}
    → Inv n p ag
    → (j : ℕ) (id : PageId) (i : ℕ) (old : Option PageId)
    → let v : Victim = record { index = i; old_page_id = old } in
      ag j ≡ failing id v → restore p v j ≡ ok (put_back_in p v)
unfolding restore
restore_goes inv j id i none at = refl
restore_goes inv j id i (some old) at = ground (arith, inv.shape.to_leaving old j (ap leaves at))

module _ {S : Type 0} {n : ℕ} {p : Shared S} {ag : ℕ → Agent} (few : n + 1 < 2 ^ 32)
    (inv : Inv n p ag) (j : ℕ) (lt : j < n) where
  pub hit-Inv :
      (id : PageId) (i : ℕ) (mode : AccessMode)
      → ag j ≡ idle
      → p.table id ≡ some (ready i)
      → Inv n (pin_ready p i mode) (update ag j (holding id i))
  unfolding pin_ready
  hit-Inv id i mode at e =
      calm-Inv few inv j lt (holding id i) (pin_ready p i mode)
        (record {
          states_kept = λ k. ground (arith, accessed_state (pinned (p.frames i)) mode);
          table = refl;
          count = refl;
        })
        (sym (ap evicts at)) (sym (ap claims at)) (sym (ap leaves at))
        (λ q k g. ground (arith, inv.shape.of_ready id i e, g))
        (λ k. ground (arith, accessed_pins (pinned (p.frames i)) mode, added few inv j lt i, at))

  pub flush_pin-Inv :
      (id : PageId) (i : ℕ)
      → ag j ≡ idle
      → states p i ≡ valid id
      → Inv n (pin_flush p i) (update ag j (flushing id i))
  unfolding pin_flush
  flush_pin-Inv id i at e =
      calm-Inv few inv j lt (flushing id i) (pin_flush p i)
        (record { states_kept = λ k. ground arith; table = refl; count = refl })
        (sym (ap evicts at)) (sym (ap claims at)) (sym (ap leaves at))
        (λ q k g. ground (arith, e, g)) (λ k. ground (arith, added few inv j lt i, at))

  pub release-Inv :
      (i : ℕ) (a : Agent)
      → pins (ag j) ≡ some i
      → pins a ≡ none
      → guarding a ≡ none
      → evicts a ≡ evicts (ag j)
      → claims a ≡ claims (ag j)
      → leaves a ≡ leaves (ag j)
      → Inv n (release p i) (update ag j a)
  unfolding release
  release-Inv i a had none_now unguarding ev cl lv =
      calm-Inv few inv j lt a (release p i)
        (record { states_kept = λ k. ground arith; table = refl; count = refl }) ev cl lv
        (λ q k g. ground (arith, unguarding, g))
        (λ k. ground (arith, given_back few inv j lt i had, had, none_now))

  pub miss-Inv :
      (id : PageId) (mode : AccessMode)
      → ag j ≡ idle
      → p.table id ≡ none
      → Inv n (claim p id j) (update ag j (choosing id mode 0))
  unfolding claim
  miss-Inv id mode at free =
      rebuild few inv j lt (choosing id mode 0) (claim p id j)
        (claimed inv.shape j (choosing id mode 0) id (states p) (λ i. refl) free
          (sym (ap evicts at)) (ap claims at) refl (sym (ap leaves at)) refl)
        (λ k. ground (arith, at))

  pub unclaim-Inv :
      (id : PageId)
      → claims (ag j) ≡ some id
      → evicts (ag j) ≡ none
      → leaves (ag j) ≡ none
      → pins (ag j) ≡ none
      → Inv n (unclaim p id) (update ag j ending)
  unfolding unclaim
  unclaim-Inv id had ev lv pn =
      rebuild few inv j lt ending (unclaim p id)
        (unclaimed inv.shape j ending id had (sym ev) refl (sym lv) refl) (λ k. ground (arith, pn))

  pub fill-Inv :
      (id : PageId) (mode : AccessMode) (v : Victim) (b : List ℕ)
      → ag j ≡ fetched id mode v b
      → Inv n (fill p v b mode) (update ag j (filled id v))
  unfolding fill
  fill-Inv id mode v b at =
      calm-Inv few inv j lt (filled id v) (fill p v b mode)
        (record { states_kept = λ k. ground arith; table = refl; count = refl })
        (sym (ap evicts at)) (sym (ap claims at)) (sym (ap leaves at)) (λ q k g. ground (arith, g))
        (λ k. ground (arith, at))

  pub guard_write-Inv :
      (id : PageId) (i : ℕ) (b : List ℕ)
      → ag j ≡ holding id i
      → Inv n (guard_write p i b) (update ag j (holding id i))
  unfolding guard_write
  guard_write-Inv id i b at =
      calm-Inv few inv j lt (holding id i) (guard_write p i b)
        (record { states_kept = λ k. ground arith; table = refl; count = refl })
        (sym (ap evicts at)) (sym (ap claims at)) (sym (ap leaves at))
        (λ q k g. inv.shape.guard j q k (ap guarding at ∙ g)) (λ k. ground (arith, at))

  pub try-Inv :
      (id : PageId) (mode : AccessMode) (tries i : ℕ) {p' : Shared S} {v : Option Victim}
      → ag j ≡ choosing id mode tries
      → i < p.frame_count
      → Reservation p i j p' v
      → Inv n p' (update ag j (chosen id mode (tries + 1) v))
  try-Inv id mode tries i {p'} at lt_i (refused spares) =
      stay-Inv few inv j lt (choosing id mode (tries + 1)) p' spares.looked.rests
        (sym (ap evicts at)) (sym (ap claims at)) (sym (ap leaves at)) (sym (ap pins at))
        (sym (ap guarding at))
  try-Inv id mode tries i at lt_i (of_empty free z) =
      let v : Victim = record { index = i; old_page_id = none } in
      rebuild few inv j lt (reserved id mode v) (reserve p i j)
        (reserved_empty inv.shape j (reserved id mode v) i (states (reserve p i j))
          (λ k. ground arith) lt_i free (ap evicts at) refl (sym (ap claims at))
          (sym (ap leaves at)) refl)
        (λ k. ground (arith, at, z))
  try-Inv id mode tries i at lt_i (of_valid old has z) =
      let v : Victim = record { index = i; old_page_id = some old } in
      rebuild few inv j lt (reserved id mode v) (with_entry (reserve p i j) old (some (leaving j)))
        (reserved_valid inv.shape j (reserved id mode v) i old (states (reserve p i j))
          (λ k. ground arith) lt_i has (unguarded few inv j lt i z) (ap evicts at) refl
          (sym (ap claims at)) (ap leaves at) refl refl)
        (λ k. ground (arith, at, z))

  pub remove_old-Inv :
      (id : PageId) (i : ℕ) (old : Option PageId)
      → let v : Victim = record { index = i; old_page_id = old } in
        ag j ≡ filled id v → Inv n (remove_old p v) (update ag j (removed id v))
  unfolding remove_old
  remove_old-Inv id i none at =
      stay-Inv few inv j lt (removed id (record { index = i; old_page_id = none })) p (still p)
        (sym (ap evicts at)) (sym (ap claims at)) (sym (ap leaves at)) (sym (ap pins at))
        (sym (ap guarding at))
  remove_old-Inv id i (some old) at =
      let v : Victim = record { index = i; old_page_id = some old } in
      rebuild few inv j lt (removed id v) (remove_old p v)
        (old_gone inv.shape j (removed id v) old (ap leaves at) (sym (ap evicts at))
          (sym (ap claims at)) refl refl)
        (λ k. ground (arith, at))

  pub publish-Inv :
      (id : PageId) (v : Victim)
      → ag j ≡ removed id v
      → Inv n (publish p id v) (update ag j (published id v))
  unfolding publish
  publish-Inv id v at =
      rebuild few inv j lt (published id v) (publish p id v)
        (shown inv.shape j (published id v) v.index id (states (publish p id v)) (λ k. ground arith)
          (ap evicts at) refl (inl (ap claims at, refl, ap leaves at)) refl refl)
        (λ k. ground (arith, at))

  pub count_miss-Inv :
      (id : PageId) (v : Victim)
      → ag j ≡ published id v
      → Inv n (count_miss (finish_pending p j) v) (update ag j (holding id v.index))
  unfolding count_miss finish_pending
  count_miss-Inv id v at =
      stay-Inv few inv j lt (holding id v.index) (count_miss (finish_pending p j) v)
        (record {
          keeps = record { states_kept = λ k. refl; table = refl; count = refl };
          pins_kept = λ k. refl;
          bytes_kept = λ k. refl;
        })
        (sym (ap evicts at)) (sym (ap claims at)) (sym (ap leaves at)) (sym (ap pins at))
        (sym (ap guarding at))

  restored_Inv :
      (id : PageId) (i : ℕ) (old : Option PageId)
      → let v : Victim = record { index = i; old_page_id = old } in
        ag j ≡ failing id v → Inv n (put_back_in p v) (update ag j (restored id v))
  restored_Inv id i none at =
      let v : Victim = record { index = i; old_page_id = none } in
      rebuild few inv j lt (restored id v) (put_back_in p v)
        (emptied inv.shape j (restored id v) i (states (put_back_in p v)) (λ k. ground arith)
          (ap evicts at) refl (sym (ap claims at)) (sym (ap leaves at)) refl)
        (λ k. ground (arith, at))
  restored_Inv id i (some old) at =
      let v : Victim = record { index = i; old_page_id = some old } in
      rebuild few inv j lt (restored id v) (put_back_in p v)
        (shown inv.shape j (restored id v) i old (states (put_back_in p v)) (λ k. ground arith)
          (ap evicts at) refl (inr (ap leaves at, sym (ap claims at))) refl refl)
        (λ k. ground (arith, at))

  pub restore-Inv :
      (id : PageId) (v : Victim) (p' : Shared S)
      → ag j ≡ failing id v
      → restore p v j ≡ ok p'
      → Inv n p' (update ag j (restored id v))
  restore-Inv id v p' at e =
      let same : put_back_in p v ≡ p' =
        ground (arith, restore_goes inv j id v.index v.old_page_id at, e) in
      subst (λ q. Inv n q (update ag j (restored id v))) same
        (restored_Inv id v.index v.old_page_id at)

  pub rests-Inv :
      (a a' : Agent) (p' : Shared S)
      → ag j ≡ a
      → Rests p p'
      → evicts a' ≡ evicts a
      → claims a' ≡ claims a
      → leaves a' ≡ leaves a
      → pins a' ≡ pins a
      → guarding a' ≡ guarding a
      → Inv n p' (update ag j a')
  rests-Inv a a' p' at rests ev cl lv pn gd =
      stay-Inv few inv j lt a' p' rests (ev ∙ sym (ap evicts at)) (cl ∙ sym (ap claims at))
        (lv ∙ sym (ap leaves at)) (pn ∙ sym (ap pins at)) (gd ∙ sym (ap guarding at))
