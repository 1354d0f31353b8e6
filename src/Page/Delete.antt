-- ===== src/Page/Delete.antt =====
-- `delete` of project1/page.rs on a valid page.
use meridian_space_academy_c.Prelude.{
  ℕ, ◌+◌, ◌≤◌, ◌<◌, ◌≡◌, ◌≢◌, ◌∙◌, ◌⊎◌, inl, inr, refl, sym, none, true, false, arith, ◌==◌,
  if◌then◌else◌,
}
use native.Mathlib.Decide.{dec_lt, ℕ_discrete}
use meridian_space_academy_c.Config.{page_size, tombstone}
use meridian_space_academy_c.Result.{ok}
use meridian_space_academy_c.Page.{Page, record_count, record_region_offset, slot_base, delete}
use meridian_space_academy_c.Page.Writes.{
  content, slot, with_slot, read_slot-slot, write_slot-with_slot, size-with_slot,
  slot-with_slot_self, slot-with_slot_ne, content-with_slot, record_count-with_slot,
  offset-with_slot, title-with_slot,
}
use meridian_space_academy_c.Page.Valid.{
  live_length, live_total, SlotIn, IsValid, lookup, live_total-change,
}

-- `q` is `p` without the record of the slot `i`.
pub record Deleted (p : Page) (i : ℕ) (q : Page) : Type 0 where
  pub valid : IsValid q
  pub reads : (j : ℕ) → lookup q j ≡ (if j == i then none else lookup p j)
  pub title : content q 0 9 ≡ content p 0 9

module _ (p : Page) (i : ℕ) (v : IsValid p) (lt : i < record_count p) where
  dead : Page
  dead = with_slot p i tombstone 0

  inside : slot_base i + 4 ≤ record_region_offset p
  inside = omega (arith, v.fits)

  slot_self : slot dead i ≡ (tombstone, 0)
  unfolding dead
  slot_self =
      slot-with_slot_self p i tombstone 0 (omega (arith, v.top, v.size)) (omega arith) (omega arith)

  slot_other : (j : ℕ) → j ≢ i → slot dead j ≡ slot p j
  unfolding dead
  slot_other j ne = slot-with_slot_ne p i tombstone 0 j (λ e. ne (sym e))

  counted : record_count dead ≡ record_count p
  unfolding dead
  counted = record_count-with_slot p i tombstone 0

  offset_lem : record_region_offset dead ≡ record_region_offset p
  unfolding dead
  offset_lem = offset-with_slot p i tombstone 0

  dead-slots : (j : ℕ) → j < record_count p → SlotIn dead j
  dead-slots j h = elim (ℕ_discrete j i) [
    | yes e ↦ rw (e, slot_self) (inl refl)
    | no ne ↦ rw (slot_other j ne, offset_lem) (v.slots j h)
  ]

  dead-room : live_total dead (record_count p) 0 + record_region_offset p ≤ page_size
  unfolding live_length
  dead-room = omega (
    arith,
    live_total-change p dead (record_count p) 0 i (omega arith) (omega arith)
        (λ j lo hi ne. slot_other j ne),
    v.room,
    none_left,
  )
    where
      none_left : live_length dead i ≡ 0
      none_left = ground (arith, slot_self)

  dead-lookup : (j : ℕ) → j ≢ i → lookup dead j ≡ lookup p j
  unfolding lookup dead
  dead-lookup j ne = ground (
    arith,
    counted,
    slot_other j ne,
    v.slots j,
    content-with_slot p i tombstone 0 (slot p j).0 (slot p j).1,
    inside,
  )

  dead-gone : lookup dead i ≡ none
  unfolding lookup
  dead-gone = ground (arith, slot_self)

  dead-reads : (j : ℕ) → lookup dead j ≡ (if j == i then none else lookup p j)
  dead-reads j = elim (ℕ_discrete j i) [
    | yes e ↦ ground (arith, dead-gone)
    | no ne ↦ ground (arith, dead-lookup j ne)
  ]

  dead-Deleted : Deleted p i dead
  dead-Deleted = record {
    valid = record {
      size = unfold dead in (size-with_slot p i tombstone 0 ∙ v.size);
      fits = rw (counted, offset_lem) v.fits;
      top = rw offset_lem v.top;
      slots = rw counted dead-slots;
      room = rw (counted, offset_lem) dead-room;
    };
    reads = dead-reads;
    title = unfold dead in title-with_slot p i tombstone 0;
  }

  delete-dead : (slot p i).0 ≢ tombstone → delete p i ≡ ok (dead, true)
  unfolding delete dead
  delete-dead ne =
      ground
        (arith, read_slot-slot p i, write_slot-with_slot p i tombstone 0, inside, v.top, v.size)

-- On a valid page `delete` never panics. It returns `false`, and leaves the page as it was, exactly
-- when the slot holds no record; otherwise it returns `true`, the slot is empty, every other slot
-- holds what it held, and the page stays valid.
pub delete-Deleted :
    (p : Page) (i : ℕ)
    → IsValid p
    → ((lookup p i ≡ none) × (delete p i ≡ ok (p, false)))
      ⊎ ((lookup p i ≢ none) × (q : Page) × (delete p i ≡ ok (q, true)) × Deleted p i q)
unfolding delete lookup
delete-Deleted p i v = elim (dec_lt i (record_count p)) [
  | no ge ↦ inl (ground arith, ground arith)
  | yes lt ↦ elim (ℕ_discrete (slot p i).0 tombstone) [
    | yes e ↦ inl (ground arith, ground (arith, read_slot-slot p i, v.fits, v.top, v.size))
    | no ne ↦ inr (ground arith, dead p i v lt, delete-dead p i v lt ne, dead-Deleted p i v lt)
  ]
]
