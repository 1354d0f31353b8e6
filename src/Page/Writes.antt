-- ===== src/Page/Writes.antt =====
-- The writes of project1/page.rs on a page of the right size, as total functions, and what each
-- leaves alone.
use meridian_space_academy_c.Prelude.{ℕ, ◌+◌, ◌^◌, ◌≤◌, ◌<◌, ◌≡◌, ◌≢◌, List, length, arith}
use native.Mathlib.Decide.{dec_lt}
use meridian_space_academy_c.Result.{ok}
use meridian_space_academy_c.Bytes.Slice.{
  slice, splice, length-splice, length-slice, slice-splice_self, slice-splice_before,
  slice-splice_behind,
}
use meridian_space_academy_c.Bytes.Word.{
  to_le_bytes, from_le_bytes, length-to_le_bytes, from_le_bytes-to_le_bytes,
}
use meridian_space_academy_c.Bytes.Buffer.{copy_from_slice_fits}
use meridian_space_academy_c.Page.{
  Page, record_count, set_record_count, record_region_offset, set_record_region_offset, slot_base,
  index_range, read_slot, write_slot,
}

abbrev pub size_of : Page → ℕ
size_of p = length p.data_bytes

-- The bytes of a range, and the entry of a slot.
unfoldable pub content : Page → ℕ → ℕ → List ℕ
content p a n = slice p.data_bytes a n

unfoldable pub slot : Page → ℕ → ℕ × ℕ
slot p i = (
  from_le_bytes (slice p.data_bytes (slot_base i) 2),
  from_le_bytes (slice p.data_bytes (slot_base i + 2) 2),
)

unfoldable pub with_bytes : Page → ℕ → List ℕ → Page
with_bytes p a bytes = record { data_bytes = splice p.data_bytes a bytes }

unfoldable pub with_count : Page → ℕ → Page
with_count p c = record { data_bytes = splice p.data_bytes 9 (to_le_bytes 2 c) }

unfoldable pub with_offset : Page → ℕ → Page
with_offset p o = record { data_bytes = splice p.data_bytes 11 (to_le_bytes 2 o) }

unfoldable pub with_slot : Page → ℕ → ℕ → ℕ → Page
with_slot p i o l = record {
  data_bytes =
      splice (splice p.data_bytes (slot_base i) (to_le_bytes 2 o)) (slot_base i + 2)
        (to_le_bytes 2 l);
}

module _ (p : Page) where
  pub index_range-content : (a n : ℕ) → a + n ≤ size_of p → index_range p a n ≡ ok (content p a n)
  unfolding index_range content
  index_range-content a n h = ground arith

  pub length-content : (a n : ℕ) → a + n ≤ size_of p → length (content p a n) ≡ n
  unfolding content
  length-content a n h = length-slice p.data_bytes a n h

  pub read_slot-slot : (i : ℕ) → slot_base i + 4 ≤ size_of p → read_slot p i ≡ ok (slot p i)
  unfolding read_slot slot content
  read_slot-slot i h =
      ground (arith, index_range-content (slot_base i) 2, index_range-content (slot_base i + 2) 2)

  pub write_slot-with_slot :
      (i o l : ℕ) → slot_base i + 4 ≤ size_of p → write_slot p i o l ≡ ok (with_slot p i o l)
  unfolding write_slot with_slot
  write_slot-with_slot i o l h =
      grind (arith, copy_from_slice_fits, length-splice, length-to_le_bytes)

  pub set_record_count-with_count :
      (c : ℕ) → 17 ≤ size_of p → set_record_count p c ≡ ok (with_count p c)
  unfolding set_record_count with_count
  set_record_count-with_count c h = grind (arith, copy_from_slice_fits, length-to_le_bytes)

  pub set_record_region_offset-with_offset :
      (o : ℕ) → 17 ≤ size_of p → set_record_region_offset p o ≡ ok (with_offset p o)
  unfolding set_record_region_offset with_offset
  set_record_region_offset-with_offset o h = grind (arith, copy_from_slice_fits, length-to_le_bytes)

  pub size-with_bytes : (a : ℕ) (bytes : List ℕ) → size_of (with_bytes p a bytes) ≡ size_of p
  unfolding with_bytes
  size-with_bytes a bytes = length-splice p.data_bytes a bytes

  pub size-with_count : (c : ℕ) → size_of (with_count p c) ≡ size_of p
  unfolding with_count
  size-with_count c = length-splice p.data_bytes 9 (to_le_bytes 2 c)

  pub size-with_offset : (o : ℕ) → size_of (with_offset p o) ≡ size_of p
  unfolding with_offset
  size-with_offset o = length-splice p.data_bytes 11 (to_le_bytes 2 o)

  pub size-with_slot : (i o l : ℕ) → size_of (with_slot p i o l) ≡ size_of p
  unfolding with_slot
  size-with_slot i o l = simp length-splice

  -- Records

  pub content-with_bytes_self :
      (a : ℕ) (bytes : List ℕ) (n : ℕ)
      → length bytes ≡ n
      → a + n ≤ size_of p
      → content (with_bytes p a bytes) a n ≡ bytes
  unfolding content with_bytes
  content-with_bytes_self a bytes n e h = slice-splice_self p.data_bytes a bytes n e h

  pub content-with_bytes :
      (a : ℕ) (bytes : List ℕ) (b n : ℕ)
      → a + length bytes ≤ b
      → content (with_bytes p a bytes) b n ≡ content p b n
  unfolding content with_bytes
  content-with_bytes a bytes b n h = slice-splice_behind p.data_bytes a bytes b n h

  pub content-with_count : (c a n : ℕ) → 17 ≤ a → content (with_count p c) a n ≡ content p a n
  unfolding content with_count
  content-with_count c a n h = grind (arith, slice-splice_behind, length-to_le_bytes)

  pub content-with_offset : (o a n : ℕ) → 17 ≤ a → content (with_offset p o) a n ≡ content p a n
  unfolding content with_offset
  content-with_offset o a n h = grind (arith, slice-splice_behind, length-to_le_bytes)

  pub content-with_slot :
      (i o l a n : ℕ) → slot_base i + 4 ≤ a → content (with_slot p i o l) a n ≡ content p a n
  unfolding content with_slot
  content-with_slot i o l a n h = grind (arith, slice-splice_behind, length-to_le_bytes)

  -- Slots

  pub slot-with_bytes :
      (a : ℕ) (bytes : List ℕ) (i : ℕ)
      → slot_base i + 4 ≤ a
      → slot (with_bytes p a bytes) i ≡ slot p i
  unfolding slot with_bytes
  slot-with_bytes a bytes i h = grind (arith, slice-splice_before)

  pub slot-with_count : (c i : ℕ) → slot (with_count p c) i ≡ slot p i
  unfolding slot with_count
  slot-with_count c i = grind (arith, slice-splice_behind, length-to_le_bytes)

  pub slot-with_offset : (o i : ℕ) → slot (with_offset p o) i ≡ slot p i
  unfolding slot with_offset
  slot-with_offset o i = grind (arith, slice-splice_behind, length-to_le_bytes)

  pub slot-with_slot_self :
      (i o l : ℕ)
      → slot_base i + 4 ≤ size_of p
      → o < 256 ^ 2
      → l < 256 ^ 2
      → slot (with_slot p i o l) i ≡ (o, l)
  unfolding slot with_slot
  slot-with_slot_self i o l h ho hl = grind (
    arith, slice-splice_before, slice-splice_self, length-splice, length-to_le_bytes,
    from_le_bytes-to_le_bytes,
  )

  slot-with_slot_above : (i o l j : ℕ) → i < j → slot (with_slot p i o l) j ≡ slot p j
  unfolding slot with_slot
  slot-with_slot_above i o l j h = grind (arith, slice-splice_behind, length-to_le_bytes)

  slot-with_slot_below : (i o l j : ℕ) → j < i → slot (with_slot p i o l) j ≡ slot p j
  unfolding slot with_slot
  slot-with_slot_below i o l j h = grind (arith, slice-splice_before)

  pub slot-with_slot_ne : (i o l j : ℕ) → i ≢ j → slot (with_slot p i o l) j ≡ slot p j
  slot-with_slot_ne i o l j h = elim (dec_lt i j) [
    | yes lt ↦ slot-with_slot_above i o l j lt
    | no ge ↦ slot-with_slot_below i o l j (omega arith)
  ]

  -- The header

  pub record_count-with_count :
      (c : ℕ) → 17 ≤ size_of p → c < 256 ^ 2 → record_count (with_count p c) ≡ c
  unfolding record_count with_count
  record_count-with_count c h hc =
      grind (arith, slice-splice_self, length-to_le_bytes, from_le_bytes-to_le_bytes)

  pub record_count-with_offset : (o : ℕ) → record_count (with_offset p o) ≡ record_count p
  unfolding record_count with_offset
  record_count-with_offset o = grind (arith, slice-splice_before)

  pub record_count-with_bytes :
      (a : ℕ) (bytes : List ℕ) → 17 ≤ a → record_count (with_bytes p a bytes) ≡ record_count p
  unfolding record_count with_bytes
  record_count-with_bytes a bytes h = grind (arith, slice-splice_before)

  pub record_count-with_slot : (i o l : ℕ) → record_count (with_slot p i o l) ≡ record_count p
  unfolding record_count with_slot
  record_count-with_slot i o l = grind (arith, slice-splice_before)

  pub offset-with_offset :
      (o : ℕ) → 17 ≤ size_of p → o < 256 ^ 2 → record_region_offset (with_offset p o) ≡ o
  unfolding record_region_offset with_offset
  offset-with_offset o h ho =
      grind (arith, slice-splice_self, length-to_le_bytes, from_le_bytes-to_le_bytes)

  pub offset-with_count : (c : ℕ) → record_region_offset (with_count p c) ≡ record_region_offset p
  unfolding record_region_offset with_count
  offset-with_count c = grind (arith, slice-splice_behind, length-to_le_bytes)

  pub offset-with_bytes :
      (a : ℕ) (bytes : List ℕ)
      → 17 ≤ a
      → record_region_offset (with_bytes p a bytes) ≡ record_region_offset p
  unfolding record_region_offset with_bytes
  offset-with_bytes a bytes h = grind (arith, slice-splice_before)

  pub offset-with_slot :
      (i o l : ℕ) → record_region_offset (with_slot p i o l) ≡ record_region_offset p
  unfolding record_region_offset with_slot
  offset-with_slot i o l = grind (arith, slice-splice_before)

  -- The magic, the page number and the page type

  pub title-with_bytes :
      (a : ℕ) (bytes : List ℕ) → 9 ≤ a → content (with_bytes p a bytes) 0 9 ≡ content p 0 9
  unfolding content with_bytes
  title-with_bytes a bytes h = slice-splice_before p.data_bytes a bytes 0 9 h

  pub title-with_count : (c : ℕ) → content (with_count p c) 0 9 ≡ content p 0 9
  unfolding content with_count
  title-with_count c = slice-splice_before p.data_bytes 9 _ 0 9 (omega arith)

  pub title-with_offset : (o : ℕ) → content (with_offset p o) 0 9 ≡ content p 0 9
  unfolding content with_offset
  title-with_offset o = slice-splice_before p.data_bytes 11 _ 0 9 (omega arith)

  pub title-with_slot : (i o l : ℕ) → content (with_slot p i o l) 0 9 ≡ content p 0 9
  unfolding content with_slot
  title-with_slot i o l = grind (arith, slice-splice_before)
