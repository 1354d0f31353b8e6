-- ===== src/SlottedPage.antt =====
-- crates/database-track/src/module1/part3/slotted_page.rs: the first slotted page. `data` is the
-- one field, as in project1's `Page`, so the type is shared; every method is written out here.
pub mod Agree
pub mod Fresh
mod Tests
use meridian_space_academy_c.Prelude.{
  ℕ, zero, suc, ◌+◌, ◌-◌, ◌*◌, ◌%◌, ◌^◌, Bool, true, false, Option, none, some, List, [], ◌∷◌, ◌++◌,
  length, replicate, ltb, leb, ◌==◌, if◌then◌else◌,
}
use meridian_space_academy_c.Config.{page_size, page_header_size, slot_size, tombstone}
use meridian_space_academy_c.Result.{Result, ok, panic, ◌>>=◌, checked_sub}
use meridian_space_academy_c.Bytes.Slice.{slice}
use meridian_space_academy_c.Bytes.Word.{to_le_bytes, from_le_bytes}
use meridian_space_academy_c.Bytes.Buffer.{copy_from_slice}
use meridian_space_academy_c.Header.{records}
use meridian_space_academy_c.PageFile
use meridian_space_academy_c.Page.{Page}

abbrev pub SlottedPage : Type 0
SlottedPage = Page

unfoldable pub new : ℕ → Result SlottedPage
new page_id = do
  bytes ← PageFile.serialize (PageFile.new page_id records) (replicate page_size 0)
  ok (record { data_bytes = bytes })

unfoldable pub slot_count : SlottedPage → ℕ
slot_count p = from_le_bytes (slice p.data_bytes 9 2)

unfoldable pub set_slot_count : SlottedPage → ℕ → Result SlottedPage
set_slot_count p count = do
  bytes ← copy_from_slice p.data_bytes 9 (to_le_bytes 2 count)
  ok (record { data_bytes = bytes })

unfoldable pub record_region_start : SlottedPage → ℕ
record_region_start p = from_le_bytes (slice p.data_bytes 11 2)

unfoldable pub set_record_region_start : SlottedPage → ℕ → Result SlottedPage
set_record_region_start p offset = do
  bytes ← copy_from_slice p.data_bytes 11 (to_le_bytes 2 offset)
  ok (record { data_bytes = bytes })

-- `self.data[start..start + n]`
unfoldable pub range_of : SlottedPage → ℕ → ℕ → Result (List ℕ)
range_of p start n =
    if leb (start + n) (length p.data_bytes) then ok (slice p.data_bytes start n) else panic

unfoldable pub read_slot : SlottedPage → ℕ → Result (ℕ × ℕ)
read_slot p slot_id = do
  let base = page_header_size + slot_id * slot_size
  offset ← range_of p base 2
  len ← range_of p (base + 2) 2
  ok (from_le_bytes offset, from_le_bytes len)

unfoldable pub write_slot : SlottedPage → ℕ → ℕ → ℕ → Result SlottedPage
write_slot p slot_id offset len = do
  let base = page_header_size + slot_id * slot_size
  b1 ← copy_from_slice p.data_bytes base (to_le_bytes 2 offset)
  b2 ← copy_from_slice b1 (base + 2) (to_le_bytes 2 len)
  ok (record { data_bytes = b2 })

-- A subtraction that stops at 0, as `saturating_sub`.
unfoldable pub free_space : SlottedPage → ℕ
free_space p = record_region_start p - (page_header_size + slot_count p * slot_size)

-- The loop of `find_free_slot` over the `n` slots from `i` on, and what follows it: `count + 1` is
-- on a `u16`.
unfoldable pub free_slot_from : SlottedPage → ℕ → ℕ → Result (SlottedPage × ℕ)
free_slot_from p zero count =
    if count == 0xffff then panic else (set_slot_count p (count + 1) >>= λ q. ok (q, count))
free_slot_from p (suc n) i =
    let rest = free_slot_from p n (suc i) in
    (read_slot p i >>= λ s. if s.0 == tombstone then ok (p, i) else rest)

unfoldable pub find_free_slot : SlottedPage → Result (SlottedPage × ℕ)
find_free_slot p = free_slot_from p (slot_count p) 0

unfoldable pub insert : SlottedPage → List ℕ → Result (SlottedPage × Option ℕ)
insert p bytes = if ltb (free_space p) (length bytes + slot_size) then ok (p, none) else do
  (q, slot_id) ← find_free_slot p
  new_offset ← checked_sub (record_region_start q) (length bytes % 2 ^ 16)
  b ← copy_from_slice q.data_bytes new_offset bytes
  q1 ← write_slot (record { data_bytes = b }) slot_id new_offset (length bytes % 2 ^ 16)
  q2 ← set_record_region_start q1 new_offset
  ok (q2, some slot_id)

unfoldable pub get : SlottedPage → ℕ → Result (Option (List ℕ))
get p slot_id = if leb (slot_count p) slot_id then ok none else do
  (offset, len) ← read_slot p slot_id
  if offset == tombstone then ok none else do bytes ← range_of p offset len; ok (some bytes)

unfoldable pub delete : SlottedPage → ℕ → Result (SlottedPage × Bool)
delete p slot_id = if leb (slot_count p) slot_id then ok (p, false) else do
  (offset, _) ← read_slot p slot_id
  if offset == tombstone
      then ok (p, false)
      else do q ← write_slot p slot_id tombstone 0; ok (q, true)

-- The two loops of `compact`: the copies of the records, and their new places from the end down.
unfoldable pub collect_live : SlottedPage → ℕ → ℕ → Result (List (ℕ × List ℕ))
collect_live p zero i = ok []
collect_live p (suc n) i = do
  (offset, len) ← read_slot p i
  here ←
      (if offset == tombstone
        then ok []
        else do bytes ← range_of p offset len; ok ((i, bytes) ∷ []))
  rest ← collect_live p n (suc i)
  ok (here ++ rest)

unfoldable pub rewrite_live : List (ℕ × List ℕ) → SlottedPage → ℕ → Result (SlottedPage × ℕ)
rewrite_live [] p cursor = ok (p, cursor)
rewrite_live ((slot_id, bytes) ∷ more) p cursor = do
  cursor' ← checked_sub cursor (length bytes % 2 ^ 16)
  b ← copy_from_slice p.data_bytes cursor' bytes
  q ← write_slot (record { data_bytes = b }) slot_id cursor' (length bytes % 2 ^ 16)
  rewrite_live more q cursor'

unfoldable pub compact : SlottedPage → Result SlottedPage
compact p = do
  live ← collect_live p (slot_count p) 0
  (q, cursor) ← rewrite_live live p page_size
  set_record_region_start q cursor
