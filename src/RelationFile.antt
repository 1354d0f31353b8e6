-- ===== src/RelationFile.antt =====
-- crates/database-track/src/module1/project1/relation_file.rs: the pages of a relation in a file.
-- `crc32fast::hash` is the parameter `hash`. A call that fills a buffer gives the buffer as it
-- leaves it, also with an error; `allocate_page` is one step under its lock.
pub mod Stored
pub mod Access
pub mod Write
pub mod Allocate
mod Tests
use meridian_space_academy_c.Prelude.{
  ℕ, ◌+◌, ◌-◌, ◌*◌, ◌/◌, ◌%◌, ◌^◌, Bool, true, false, List, [], ◌∷◌, length, replicate, ltb, leb,
  ◌==◌, if◌then◌else◌,
}
use meridian_space_academy_c.Config.{page_header_size}
use meridian_space_academy_c.Result.{
  Result, ok, err, panic, misaligned_file, too_many_pages, offset_overflow, checksum_mismatch,
  case_reply, ◌>>=◌,
}
use meridian_space_academy_c.Bytes.Slice.{slice}
use meridian_space_academy_c.Bytes.Word.{to_le_bytes, from_le_bytes}
use meridian_space_academy_c.Bytes.Buffer.{copy_from_slice}
use meridian_space_academy_c.Disk.{File, metadata_len, read_exact_at, write_all_at}
use meridian_space_academy_c.PageStore.{PageId}

pub record RelationFile : Type 0 where
  pub relation_id : ℕ
  pub file : File
  pub page_size : ℕ

abbrev pub with_file : RelationFile → File → RelationFile
with_file rf f = record rf { file = f }

-- A division by a page size of 0 panics.
unfoldable pub page_count : RelationFile → RelationFile × Result ℕ
page_count rf =
    case_reply (metadata_len rf.file)
      (λ f file_len. (
        with_file rf f,
        (if rf.page_size == 0
            then panic
            else if (file_len % rf.page_size) == 0
            then (if ltb (file_len / rf.page_size) (2 ^ 32)
                then ok (file_len / rf.page_size)
                else err too_many_pages)
            else err misaligned_file),
      ))
      (λ f e. (with_file rf f, err e)) (λ f. (with_file rf f, panic))

-- `u64::from(page_no).checked_mul(self.page_size as u64)`
unfoldable pub offset_of : ℕ → ℕ → Result ℕ
offset_of page_no page_size =
    if ltb (page_no * page_size) (2 ^ 64) then ok (page_no * page_size) else err offset_overflow

unfoldable pub read_page : RelationFile → ℕ → List ℕ → (RelationFile × List ℕ) × Result (Unit {0})
read_page rf page_no buf =
    if length buf == rf.page_size
    then elim (offset_of page_no rf.page_size) [
      | ok offset ↦
          let ((f, buf'), r) = read_exact_at rf.file offset buf in ((with_file rf f, buf'), r)
      | err e ↦ ((rf, buf), err e)
      | panic ↦ ((rf, buf), panic)
    ]
    else ((rf, buf), panic)

unfoldable pub write_page : RelationFile → ℕ → List ℕ → RelationFile × Result (Unit {0})
write_page rf page_no buf =
    if length buf == rf.page_size
    then elim (offset_of page_no rf.page_size) [
      | ok offset ↦ let (f, r) = write_all_at rf.file offset buf in (with_file rf f, r)
      | err e ↦ (rf, err e)
      | panic ↦ (rf, panic)
    ]
    else (rf, panic)

module _ (hash : List ℕ → ℕ) where
  unfoldable pub compute_checksum : List ℕ → Result ℕ
  compute_checksum page_buf =
      if ltb (length page_buf) page_header_size
      then panic
      else ok (hash (slice page_buf page_header_size (length page_buf - page_header_size)))

  -- The comparison of `read_and_verify_page`, on the buffer that was read.
  unfoldable pub verify : ℕ → List ℕ → Result (Unit {0})
  verify page_no buf = do
    stored ← (if ltb (length buf) 17 then panic else ok (from_le_bytes (slice buf 13 4)))
    computed ← compute_checksum buf
    if stored == computed then ok tt else err (checksum_mismatch page_no stored computed)

  unfoldable pub read_and_verify_page :
      RelationFile → ℕ → List ℕ → (RelationFile × List ℕ) × Result (Unit {0})
  read_and_verify_page rf page_no buf =
      case_reply (read_page rf page_no buf) (λ x _. (x, verify page_no x.1)) (λ x e. (x, err e))
        (λ x. (x, panic))

  -- The checksum is written into the caller's buffer.
  unfoldable pub write_page_with_checksum :
      RelationFile → ℕ → List ℕ → (RelationFile × List ℕ) × Result (Unit {0})
  write_page_with_checksum rf page_no buf =
      elim (compute_checksum buf >>= λ c. copy_from_slice buf 13 (to_le_bytes 4 c)) [
        | ok buf' ↦ let (rf', r) = write_page rf page_no buf' in ((rf', buf'), r)
        | err e ↦ ((rf, buf), err e)
        | panic ↦ ((rf, buf), panic)
      ]

-- The length is asked for twice, as the code does.
unfoldable pub allocate_page : RelationFile → RelationFile × Result PageId
allocate_page rf =
    case_reply (metadata_len rf.file)
      (λ f file_len.
        case_reply (page_count (with_file rf f))
          (λ rf' new_page_no.
            let (f', r) = write_all_at rf'.file file_len (replicate rf.page_size 0) in
            (
              with_file rf' f',
              r >>= λ _. ok (record { relation_id = rf.relation_id; page_no = new_page_no }),
            ))
          (λ rf' e. (rf', err e)) (λ rf'. (rf', panic)))
      (λ f e. (with_file rf f, err e)) (λ f. (with_file rf f, panic))
