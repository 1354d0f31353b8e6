-- ===== src/Page/Tests.antt =====
-- project1/page.rs on concrete pages.
use meridian_space_academy_c.Prelude.{
  ℕ, ◌≤◌, ◌<◌, ◌≡◌, ◌≢◌, ◌⊎◌, ap, refl, none, some, true, false, List, [], ◌∷◌, replicate, arith,
}
use meridian_space_academy_c.Config.{page_size}
use meridian_space_academy_c.Result.{Result, ok, err, panic, Error, ◌>>=◌}
use meridian_space_academy_c.Bytes.Slice.{slice, splice}
use meridian_space_academy_c.Bytes.Word.{to_le_bytes, from_le_bytes}
use meridian_space_academy_c.Bytes.Buffer.{copy_from_slice, bytes_eq}
use meridian_space_academy_c.Header
use meridian_space_academy_c.Page.{
  Page, zeroed, new, record_count, set_record_count, record_region_offset, set_record_region_offset,
  index_range, read_slot, write_slot, free_space, needed_for, find_tombstone, take_slot, place,
  insert, sum_live, live_records, relocate, compact, insert_compacting, get, delete, check_slots,
  from_bytes,
}
use meridian_space_academy_c.Page.Valid.{IsValid, lookup, get-lookup}
use meridian_space_academy_c.Page.Fill.{Inserted}
use meridian_space_academy_c.Page.Insert.{reusable, insert-Inserted}
use meridian_space_academy_c.Page.Delete.{Deleted, delete-Deleted}
use meridian_space_academy_c.Page.Compact.{Compacted, compact-Compacted}
use meridian_space_academy_c.Page.InsertCompacting.{demand, insert_compacting-Inserted}
use meridian_space_academy_c.Page.Load.{Accepted, page_of, from_bytes-Accepted}
use meridian_space_academy_c.Page.History.{Call, inserts, deletes, step, run, run-new-from_bytes}

program : Unit {0}
unfolding zeroed replicate slice splice to_le_bytes from_le_bytes copy_from_slice bytes_eq
    Header.serialize Header.deserialize new record_count set_record_count record_region_offset
    set_record_region_offset index_range read_slot write_slot free_space find_tombstone take_slot
    place insert sum_live live_records relocate compact insert_compacting get delete check_slots
    from_bytes step run
program = tt

-- Two records, of which the first is deleted.
abbrev calls : List Call
calls = inserts (1 ∷ 2 ∷ 3 ∷ []) ∷ inserts (4 ∷ []) ∷ deletes 0 ∷ []

abbrev history : Result Page
history = new 7 >>= λ q. run q calls

second_record : (history >>= λ p. get p 1) ≡ ok (some (4 ∷ []))
unfolding program
second_record = refl

first_deleted : (history >>= λ p. get p 0) ≡ ok none
unfolding program
first_deleted = refl

-- Compaction moves the second record to the end of the page.
compacted_offset : (history >>= λ p. compact p >>= λ q. ok (record_region_offset q)) ≡ ok 4095
unfolding program
compacted_offset = refl

abbrev page_or : Result Page → Page
page_or (ok p) = p
page_or (err e) = page_of []
page_or panic = page_of []

abbrev used : Page
used = page_or history

used-IsValid : IsValid used
used-IsValid = let (p, e, v, _) = run-new-from_bytes 7 calls (omega arith) in rw (ap page_or e) v

get-lookup_example : get used 1 ≡ ok (lookup used 1)
get-lookup_example = get-lookup used 1 used-IsValid

insert-Inserted_example :
    ((free_space used < needed_for (9 ∷ 8 ∷ []) (reusable used))
      × (insert used (9 ∷ 8 ∷ []) ≡ ok (used, none)))
    ⊎ ((needed_for (9 ∷ 8 ∷ []) (reusable used) ≤ free_space used)
        × (q : Page) × (i : ℕ) × (insert used (9 ∷ 8 ∷ []) ≡ ok (q, some i))
        × Inserted used (9 ∷ 8 ∷ []) q i)
insert-Inserted_example = insert-Inserted used (9 ∷ 8 ∷ []) used-IsValid

delete-Deleted_example :
    ((lookup used 1 ≡ none) × (delete used 1 ≡ ok (used, false)))
    ⊎ ((lookup used 1 ≢ none) × (q : Page) × (delete used 1 ≡ ok (q, true)) × Deleted used 1 q)
delete-Deleted_example = delete-Deleted used 1 used-IsValid

compact-Compacted_example : (q : Page) × (compact used ≡ ok q) × Compacted used q
compact-Compacted_example = compact-Compacted used used-IsValid

insert_compacting-Inserted_example :
    ((page_size < demand used (9 ∷ [])) × (insert_compacting used (9 ∷ []) ≡ ok (used, none)))
    ⊎ ((demand used (9 ∷ []) ≤ page_size)
        × (q : Page) × (i : ℕ) × (insert_compacting used (9 ∷ []) ≡ ok (q, some i))
        × Inserted used (9 ∷ []) q i)
insert_compacting-Inserted_example = insert_compacting-Inserted used (9 ∷ []) used-IsValid

from_bytes-Accepted_example :
    ((from_bytes used.data_bytes 7 ≡ ok used) × Accepted used.data_bytes 7)
    ⊎ ((x : Error) × (from_bytes used.data_bytes 7 ≡ err x) × (¬ Accepted used.data_bytes 7))
from_bytes-Accepted_example = from_bytes-Accepted used.data_bytes 7 used-IsValid.size

run-new-from_bytes_example :
    (p : Page) × (history ≡ ok p) × IsValid p × (from_bytes p.data_bytes 7 ≡ ok p)
run-new-from_bytes_example = run-new-from_bytes 7 calls (omega arith)
