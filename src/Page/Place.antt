-- ===== src/Page/Place.antt =====
-- `place` of project1/page.rs: a record below the region, its slot, and the new start of the region.
use meridian_space_academy_c.Prelude.{
  ℕ, ◌+◌, ◌-◌, ◌%◌, ◌^◌, ◌≤◌, ◌≡◌, ◌≢◌, ◌∙◌, List, length, arith,
}
use meridian_space_academy_c.Config.{page_size}
use meridian_space_academy_c.Result.{ok}
use meridian_space_academy_c.Bytes.Buffer.{copy_from_slice_fits}
use meridian_space_academy_c.Page.{Page, record_count, record_region_offset, slot_base, place}
use meridian_space_academy_c.Page.Writes.{
  size_of, content, slot, with_bytes, with_slot, with_offset, write_slot-with_slot,
  set_record_region_offset-with_offset, size-with_bytes, size-with_slot, size-with_offset,
  content-with_bytes_self, content-with_bytes, content-with_slot, content-with_offset,
  slot-with_bytes, slot-with_slot_self, slot-with_slot_ne, slot-with_offset,
  record_count-with_bytes, record_count-with_slot, record_count-with_offset, offset-with_offset,
  offset-with_slot, offset-with_bytes, title-with_bytes, title-with_slot, title-with_offset,
}

-- A record at `start` with its slot.
unfoldable pub recorded : Page → ℕ → ℕ → List ℕ → Page
recorded p i start bytes = with_slot (with_bytes p start bytes) i start (length bytes)

unfoldable pub placed : Page → ℕ → List ℕ → Page
placed p i bytes =
    let start = record_region_offset p - length bytes in
    with_offset (recorded p i start bytes) start

-- The record goes where the directory, with the slot in it, does not reach.
module _ (p : Page) (i start : ℕ) (bytes : List ℕ) (size : size_of p ≡ page_size)
    (fits : slot_base i + 4 ≤ start) (top : start + length bytes ≤ page_size) where
  pub size-recorded : size_of (recorded p i start bytes) ≡ page_size
  unfolding recorded
  size-recorded = grind (arith, size-with_bytes, size-with_slot)

  pub record_count-recorded : record_count (recorded p i start bytes) ≡ record_count p
  unfolding recorded
  record_count-recorded = grind (arith, record_count-with_slot, record_count-with_bytes)

  pub offset-recorded : record_region_offset (recorded p i start bytes) ≡ record_region_offset p
  unfolding recorded
  offset-recorded = grind (arith, offset-with_slot, offset-with_bytes)

  pub slot-recorded_self : slot (recorded p i start bytes) i ≡ (start, length bytes)
  unfolding recorded
  slot-recorded_self = grind (arith, size-with_bytes, slot-with_slot_self)

  -- The other slots below the record are as before, and so are the bytes behind it.
  pub slot-recorded :
      (j : ℕ) → slot_base j + 4 ≤ start → j ≢ i → slot (recorded p i start bytes) j ≡ slot p j
  unfolding recorded
  slot-recorded j h ne = grind (
    arith,
    slot-with_slot_ne (with_bytes p start bytes) i start (length bytes) j,
    slot-with_bytes,
  )

  pub content-recorded :
      (a n : ℕ) → start + length bytes ≤ a → content (recorded p i start bytes) a n ≡ content p a n
  unfolding recorded
  content-recorded a n h = grind (arith, content-with_slot, content-with_bytes)

  pub content-recorded_self : content (recorded p i start bytes) start (length bytes) ≡ bytes
  unfolding recorded
  content-recorded_self = grind (arith, content-with_slot, content-with_bytes_self)

  pub title-recorded : content (recorded p i start bytes) 0 9 ≡ content p 0 9
  unfolding recorded
  title-recorded =
      title-with_slot (with_bytes p start bytes) i start (length bytes)
      ∙ title-with_bytes p start bytes (omega arith)

module _ (p : Page) (i : ℕ) (bytes : List ℕ) (size : size_of p ≡ page_size)
    (fits : slot_base i + 4 + length bytes ≤ record_region_offset p)
    (top : record_region_offset p ≤ page_size) where
  start_fits : slot_base i + 4 ≤ record_region_offset p - length bytes
  start_fits = omega arith

  end_fits : record_region_offset p - length bytes + length bytes ≤ page_size
  end_fits = omega arith

  -- Neither the subtraction nor an index goes wrong.
  pub place-placed : place p i bytes ≡ ok (placed p i bytes)
  unfolding place placed recorded with_bytes
  place-placed =
      let narrow : length bytes % 2 ^ 16 ≡ length bytes = omega arith in
      let start = record_region_offset p - length bytes in
      let b = with_bytes p start bytes in
      rw narrow (
        ground (
          arith,
          copy_from_slice_fits p.data_bytes start bytes,
          size-with_bytes p start bytes,
          size-with_slot b i start (length bytes),
          write_slot-with_slot b i start (length bytes),
          set_record_region_offset-with_offset (with_slot b i start (length bytes)) start,
        ))

  pub size-placed : size_of (placed p i bytes) ≡ page_size
  unfolding placed
  size-placed = size-with_offset _ _ ∙ size-recorded p i _ bytes size start_fits end_fits

  pub record_count-placed : record_count (placed p i bytes) ≡ record_count p
  unfolding placed
  record_count-placed =
      record_count-with_offset _ _ ∙ record_count-recorded p i _ bytes size start_fits end_fits

  pub offset-placed :
      record_region_offset (placed p i bytes) ≡ record_region_offset p - length bytes
  unfolding placed
  offset-placed =
      offset-with_offset _ _ (omega (arith, size-recorded p i _ bytes size start_fits end_fits))
        (omega arith)

  pub slot-placed_self :
      slot (placed p i bytes) i ≡ (record_region_offset p - length bytes, length bytes)
  unfolding placed
  slot-placed_self =
      slot-with_offset _ _ i ∙ slot-recorded_self p i _ bytes size start_fits end_fits

  pub slot-placed :
      (j : ℕ)
      → slot_base j + 4 + length bytes ≤ record_region_offset p
      → j ≢ i
      → slot (placed p i bytes) j ≡ slot p j
  unfolding placed
  slot-placed j h ne =
      slot-with_offset _ _ j ∙ slot-recorded p i _ bytes size start_fits end_fits j (omega arith) ne

  pub content-placed :
      (a n : ℕ) → record_region_offset p ≤ a → content (placed p i bytes) a n ≡ content p a n
  unfolding placed
  content-placed a n h =
      content-with_offset _ _ a n (omega arith)
      ∙ content-recorded p i _ bytes size start_fits end_fits a n (omega arith)

  pub content-placed_self :
      content (placed p i bytes) (record_region_offset p - length bytes) (length bytes) ≡ bytes
  unfolding placed
  content-placed_self =
      content-with_offset _ _ _ (length bytes) (omega arith)
      ∙ content-recorded_self p i _ bytes size start_fits end_fits

  pub title-placed : content (placed p i bytes) 0 9 ≡ content p 0 9
  unfolding placed
  title-placed = title-with_offset _ _ ∙ title-recorded p i _ bytes size start_fits end_fits
