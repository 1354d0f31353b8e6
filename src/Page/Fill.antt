-- ===== src/Page/Fill.antt =====
-- A record in an empty slot of a valid page of project1/page.rs.
use meridian_space_academy_c.Prelude.{
  ℕ, ◌+◌, ◌-◌, ◌≤◌, ◌<◌, ◌≡◌, ◌≢◌, ◌∙◌, ◌⊎◌, inl, inr, none, some, List, length, arith, ◌==◌,
  if◌then◌else◌,
}
use native.Mathlib.Decide.{dec_lt, ℕ_discrete}
use meridian_space_academy_c.Config.{page_size, tombstone}
use meridian_space_academy_c.Page.{Page, record_count, record_region_offset, slot_base}
use meridian_space_academy_c.Page.Writes.{size_of, content, slot}
use meridian_space_academy_c.Page.Valid.{
  live_length, live_total, SlotIn, IsValid, lookup, live_total-change,
}
use meridian_space_academy_c.Page.Place.{
  placed, size-placed, record_count-placed, offset-placed, slot-placed_self, slot-placed,
  content-placed, content-placed_self, title-placed,
}

-- `q` is `p` with the record in the slot `i`, which was empty; nothing else is different.
pub record Inserted (p : Page) (bytes : List ℕ) (q : Page) (i : ℕ) : Type 0 where
  pub valid : IsValid q
  pub fresh : lookup p i ≡ none
  pub reads : (j : ℕ) → lookup q j ≡ (if j == i then some bytes else lookup p j)
  pub title : content q 0 9 ≡ content p 0 9

-- A page to place a record on: `p` itself, or `p` with one more slot.
module _ (p : Page) (v : IsValid p) (i count : ℕ) (bytes : List ℕ) (p' : Page)
    (size : size_of p' ≡ page_size) (counts : record_count p' ≡ count)
    (offsets : record_region_offset p' ≡ record_region_offset p) (inside : i < count)
    (grown : record_count p ≤ count) (new_is_i : (j : ℕ) → j < count → j ≢ i → j < record_count p)
    (fits : slot_base count + length bytes ≤ record_region_offset p)
    (slots : (j : ℕ) → slot p' j ≡ slot p j)
    (contents : (a n : ℕ) → 17 ≤ a → content p' a n ≡ content p a n)
    (total : live_total p count 0 ≡ live_total p (record_count p) 0 + live_length p i)
    (empty : lookup p i ≡ none) (titles : content p' 0 9 ≡ content p 0 9) where
  start : ℕ
  start = record_region_offset p - length bytes

  here_fits : slot_base i + 4 + length bytes ≤ record_region_offset p'
  here_fits = omega arith

  top : record_region_offset p' ≤ page_size
  top = omega (arith, v.top)

  slot_self : slot (placed p' i bytes) i ≡ (start, length bytes)
  unfolding start
  slot_self = rw (← offsets) (slot-placed_self p' i bytes size here_fits top)

  slot_other : (j : ℕ) → j < count → j ≢ i → slot (placed p' i bytes) j ≡ slot p j
  slot_other j lt ne = slot-placed p' i bytes size here_fits top j (omega arith) ne ∙ slots j

  counted : record_count (placed p' i bytes) ≡ count
  counted = record_count-placed p' i bytes size here_fits top ∙ counts

  offset_lem : record_region_offset (placed p' i bytes) ≡ start
  unfolding start
  offset_lem = rw (← offsets) (offset-placed p' i bytes size here_fits top)

  placed-slots : (j : ℕ) → j < count → SlotIn (placed p' i bytes) j
  unfolding start
  placed-slots j lt = elim (ℕ_discrete j i) [
    | yes e ↦ rw (e, offset_lem, slot_self) (inr (omega arith, omega (arith, v.top)))
    | no ne ↦ rw (slot_other j lt ne, offset_lem) (widen (v.slots j (new_is_i j lt ne)))
  ]
    where
      widen :
          SlotIn p j
          → ((slot p j).0 ≡ tombstone)
            ⊎ ((start ≤ (slot p j).0) × ((slot p j).0 + (slot p j).1 ≤ page_size))
      widen (inl t) = inl t
      widen (inr (lo, hi)) = inr (omega arith, hi)

  placed-room : live_total (placed p' i bytes) count 0 + start ≤ page_size
  unfolding start live_length
  placed-room = omega (
    arith,
    live_total-change p (placed p' i bytes) count 0 i (omega arith) (omega arith)
        (λ j lo hi ne. slot_other j (omega arith) ne),
    v.room,
    live_at_most,
  )
    where
      live_at_most : live_length (placed p' i bytes) i ≤ length bytes
      live_at_most = ground (arith, slot_self)

  placed-IsValid : IsValid (placed p' i bytes)
  unfolding start
  placed-IsValid = record {
    size = size-placed p' i bytes size here_fits top;
    fits = rw (counted, offset_lem) (omega arith);
    top = rw offset_lem (omega (arith, v.top));
    slots = rw counted placed-slots;
    room = rw (counted, offset_lem) placed-room;
  }

  -- The old records stand behind the old start of the region.
  placed-others : (j : ℕ) → j ≢ i → lookup (placed p' i bytes) j ≡ lookup p j
  unfolding lookup start
  placed-others j ne = elim (dec_lt j (record_count p)) [
    | yes lt ↦ ground (
      arith,
      counted,
      slot_other j (omega arith) ne,
      v.slots j lt,
      content-placed p' i bytes size here_fits top (slot p j).0 (slot p j).1,
      contents (slot p j).0 (slot p j).1,
    )
    | no ge ↦ ground (arith, counted, new_is_i j)
  ]

  placed-here : lookup (placed p' i bytes) i ≡ some bytes
  unfolding lookup start
  placed-here =
      ground (arith, counted, slot_self, offsets, content-placed_self p' i bytes size here_fits top)

  placed-reads :
      (j : ℕ) → lookup (placed p' i bytes) j ≡ (if j == i then some bytes else lookup p j)
  placed-reads j = elim (ℕ_discrete j i) [
    | yes e ↦ ground (arith, placed-here)
    | no ne ↦ ground (arith, placed-others j ne)
  ]

  pub placed-Inserted : Inserted p bytes (placed p' i bytes) i
  placed-Inserted = record {
    valid = placed-IsValid;
    fresh = empty;
    reads = placed-reads;
    title = title-placed p' i bytes size here_fits top ∙ titles;
  }
