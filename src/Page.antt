-- ===== src/Page.antt =====
-- `Page` of crates/database-track/src/module1/project1/page.rs: records of any length on a page of
-- 4096 bytes, behind a directory of slots that grows up while the records grow down.
-- Methods that change the page return it; a panic is an index out of bounds or an overflow.
pub mod Writes
pub mod Valid
pub mod Place
pub mod Fill
pub mod Insert
pub mod Delete
pub mod Records
pub mod Relocate
pub mod Compact
pub mod InsertCompacting
pub mod Load
pub mod History
mod Tests
use meridian_space_academy_c.Prelude.{
  ℕ, zero, suc, ◌+◌, ◌-◌, ◌*◌, ◌%◌, ◌^◌, Bool, true, false, not, ◌&&◌, ◌||◌, Option, none, some,
  List, [], ◌∷◌, ◌++◌, length, replicate, ltb, leb, ◌==◌, if◌then◌else◌,
}
use meridian_space_academy_c.Config.{page_size, page_header_size, slot_size, tombstone}
use meridian_space_academy_c.Result.{
  Result, ok, err, panic, bad_page_header, bad_slot_bounds, ◌>>=◌, fail_if, checked_sub,
}
use meridian_space_academy_c.Bytes.Slice.{slice}
use meridian_space_academy_c.Bytes.Word.{to_le_bytes, from_le_bytes}
use meridian_space_academy_c.Bytes.Buffer.{copy_from_slice}
use meridian_space_academy_c.Header.{PageType, PageHeader, discriminant}
use meridian_space_academy_c.Header

infixl 5 ◌>>◌
abbrev ◌>>◌ {ℓ} : {A : Type ℓ} → Result (Unit {0}) → Result A → Result A
m >> k = m >>= λ _. k

-- `data: [u8; PAGE_SIZE]`
pub record Page : Type 0 where
  pub data_bytes : List ℕ

-- `[0u8; PAGE_SIZE]`
unfoldable pub zeroed : List ℕ
zeroed = replicate page_size 0

unfoldable pub new : ℕ → Result Page
new page_no = do
  bytes ← Header.serialize (Header.new page_no PageType.records) zeroed
  ok (record { data_bytes = bytes })

unfoldable pub initialize : List ℕ → ℕ → Result (List ℕ)
initialize page page_no = Header.serialize (Header.new page_no PageType.records) page

unfoldable pub record_count : Page → ℕ
record_count p = from_le_bytes (slice p.data_bytes 9 2)

unfoldable pub set_record_count : Page → ℕ → Result Page
set_record_count p count = do
  bytes ← copy_from_slice p.data_bytes 9 (to_le_bytes 2 count)
  ok (record { data_bytes = bytes })

unfoldable pub record_region_offset : Page → ℕ
record_region_offset p = from_le_bytes (slice p.data_bytes 11 2)

unfoldable pub set_record_region_offset : Page → ℕ → Result Page
set_record_region_offset p offset = do
  bytes ← copy_from_slice p.data_bytes 11 (to_le_bytes 2 offset)
  ok (record { data_bytes = bytes })

abbrev pub slot_base : ℕ → ℕ
slot_base slot_id = page_header_size + slot_id * slot_size

-- `&self.data[start..end]`
unfoldable pub index_range : Page → ℕ → ℕ → Result (List ℕ)
index_range p start n =
    if leb (start + n) (length p.data_bytes) then ok (slice p.data_bytes start n) else panic

unfoldable pub read_slot : Page → ℕ → Result (ℕ × ℕ)
read_slot p slot_id = do
  offset ← index_range p (slot_base slot_id) 2
  len ← index_range p (slot_base slot_id + 2) 2
  ok (from_le_bytes offset, from_le_bytes len)

unfoldable pub write_slot : Page → ℕ → ℕ → ℕ → Result Page
write_slot p slot_id offset len = do
  b1 ← copy_from_slice p.data_bytes (slot_base slot_id) (to_le_bytes 2 offset)
  b2 ← copy_from_slice b1 (slot_base slot_id + 2) (to_le_bytes 2 len)
  ok (record { data_bytes = b2 })

unfoldable pub free_space : Page → ℕ
free_space p = record_region_offset p - (page_header_size + record_count p * slot_size)

-- `(i..i + n).find(|&i| self.read_slot(i).0 == TOMBSTONE)`
unfoldable pub find_tombstone : Page → ℕ → ℕ → Result (Option ℕ)
find_tombstone p zero i = ok none
find_tombstone p (suc n) i =
    let rest = find_tombstone p n (suc i) in
    (read_slot p i >>= λ s. if s.0 == tombstone then ok (some i) else rest)

-- The bytes that a record wants: a new slot only if no deleted one is there.
abbrev pub needed_for : List ℕ → Option ℕ → ℕ
needed_for bytes none = length bytes + slot_size
needed_for bytes (some _) = length bytes

-- `record_count + 1` on a `u16`
unfoldable pub take_slot : Page → Option ℕ → ℕ → Result (Page × ℕ)
take_slot p (some id) count = ok (p, id)
take_slot p none count =
    if count == 0xffff then panic else (set_record_count p (count + 1) >>= λ q. ok (q, count))

unfoldable pub place : Page → ℕ → List ℕ → Result Page
place p slot_id bytes = do
  new_offset ← checked_sub (record_region_offset p) (length bytes % 2 ^ 16)
  b ← copy_from_slice p.data_bytes new_offset bytes
  q ← write_slot (record { data_bytes = b }) slot_id new_offset (length bytes % 2 ^ 16)
  set_record_region_offset q new_offset

unfoldable pub insert : Page → List ℕ → Result (Page × Option ℕ)
insert p bytes = if ltb 0xffff (length bytes) then ok (p, none) else do
  reused ← find_tombstone p (record_count p) 0
  if ltb (free_space p) (needed_for bytes reused) then ok (p, none) else do
    (q, slot_id) ← take_slot p reused (record_count p)
    q' ← place q slot_id bytes
    ok (q', some slot_id)

-- The sum of the lengths of the slots from `i` on that are not deleted.
unfoldable pub sum_live : Page → ℕ → ℕ → Result ℕ
sum_live p zero i = ok 0
sum_live p (suc n) i = read_slot p i >>= λ s.
    sum_live p n (suc i) >>= λ rest. ok ((if s.0 == tombstone then 0 else s.1) + rest)

-- The copies of the records from `i` on that are not deleted.
unfoldable pub live_records : Page → ℕ → ℕ → Result (List (ℕ × List ℕ))
live_records p zero i = ok []
live_records p (suc n) i = do
  (offset, len) ← read_slot p i
  here ←
      (if offset == tombstone
        then ok []
        else do bytes ← index_range p offset len; ok ((i, bytes) ∷ []))
  rest ← live_records p n (suc i)
  ok (here ++ rest)

-- The loop that writes them from the end of the page, `cursor` downwards.
unfoldable pub relocate : List (ℕ × List ℕ) → Page → ℕ → Result (Page × ℕ)
relocate [] p cursor = ok (p, cursor)
relocate ((slot_id, bytes) ∷ more) p cursor = do
  cursor' ← checked_sub cursor (length bytes % 2 ^ 16)
  b ← copy_from_slice p.data_bytes cursor' bytes
  q ← write_slot (record { data_bytes = b }) slot_id cursor' (length bytes % 2 ^ 16)
  relocate more q cursor'

unfoldable pub compact : Page → Result Page
compact p = do
  live ← live_records p (record_count p) 0
  (q, cursor) ← relocate live p page_size
  set_record_region_offset q cursor

unfoldable pub insert_compacting : Page → List ℕ → Result (Page × Option ℕ)
insert_compacting p bytes = do
  (q, slot) ← insert p bytes
  elim slot [
    | some slot_id ↦ ok (q, some slot_id)
    | none ↦ if ltb 0xffff (length bytes) then ok (q, none) else do
      reused ← find_tombstone q (record_count q) 0
      live_bytes ← sum_live q (record_count q) 0
      records_bytes ← checked_sub page_size (record_region_offset q)
      let reclaimable = records_bytes - live_bytes
      if ltb (free_space q + reclaimable) (needed_for bytes reused)
          then ok (q, none)
          else do q' ← compact q; insert q' bytes
  ]

unfoldable pub get : Page → ℕ → Result (Option (List ℕ))
get p slot_id = if leb (record_count p) slot_id then ok none else do
  (offset, len) ← read_slot p slot_id
  if offset == tombstone then ok none else do bytes ← index_range p offset len; ok (some bytes)

unfoldable pub delete : Page → ℕ → Result (Page × Bool)
delete p slot_id = if leb (record_count p) slot_id then ok (p, false) else do
  (offset, _) ← read_slot p slot_id
  if offset == tombstone
      then ok (p, false)
      else do q ← write_slot p slot_id tombstone 0; ok (q, true)

-- The loop of `from_bytes` over the slots from `i` on.
unfoldable pub check_slots : Page → ℕ → ℕ → ℕ → Result (Unit {0})
check_slots p upper zero i = ok tt
check_slots p upper (suc n) i = do
  (offset, len) ← read_slot p i
  fail_if (not (offset == tombstone) && (ltb offset upper || ltb page_size (offset + len)))
      bad_slot_bounds
  check_slots p upper n (suc i)

unfoldable pub from_bytes : List ℕ → ℕ → Result Page
from_bytes bytes expected_page_no = do
  header ← Header.deserialize bytes
  let lower = page_header_size + header.record_count * slot_size
  let upper = header.free_space_offset
  fail_if
      (not (header.page_no == expected_page_no)
        || not (discriminant header.page_type == 1)
        || ltb upper lower
        || ltb page_size upper)
      bad_page_header
  let page : Page = record { data_bytes = bytes }
  check_slots page upper header.record_count 0
  ok page

unfoldable pub copy_to : Page → List ℕ → Result (List ℕ)
copy_to p dest = copy_from_slice dest 0 p.data_bytes
