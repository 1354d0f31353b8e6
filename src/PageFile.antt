-- ===== src/PageFile.antt =====
-- crates/database-track/src/module1/part1/page.rs: the page header, and pages in one database file.
-- `crc32fast::hash` is the parameter `hash`.
-- The header has the fields of project1's, and is written by the same code; only `new` differs.
pub mod Agree
pub mod Total
mod Tests
use meridian_space_academy_c.Prelude.{
  ℕ, ◌+◌, ◌-◌, ◌*◌, ◌/◌, ◌%◌, ◌^◌, Bool, true, false, not, List, [], ◌∷◌, length, replicate, ltb,
  leb, ◌==◌, if◌then◌else◌, ◌≡◌, refl,
}
use meridian_space_academy_c.Config.{page_header_size, magic_bytes}
use meridian_space_academy_c.Result.{
  Result, ok, err, panic, short_header, bad_magic, bad_page_type, misaligned_file, too_many_pages,
  checksum_mismatch, ◌>>=◌, fail_if, case_reply,
}
use meridian_space_academy_c.Bytes.Slice.{slice}
use meridian_space_academy_c.Bytes.Word.{to_le_bytes, from_le_bytes}
use meridian_space_academy_c.Bytes.Buffer.{copy_from_slice, byte_at, bytes_eq}
use meridian_space_academy_c.Header.{PageType, PageHeader, discriminant, page_type_of}
use meridian_space_academy_c.Header
use meridian_space_academy_c.Disk.{File, metadata_len, seek_start, seek_end, read_exact, write_all}

infixl 5 ◌>>◌
abbrev ◌>>◌ {ℓ} : {A : Type ℓ} → Result (Unit {0}) → Result A → Result A
m >> k = m >>= λ _. k

-- `free_space_offset` is the end of the header.
unfoldable pub new : ℕ → PageType → PageHeader
new page_id page_type = record {
  magic = magic_bytes;
  page_no = page_id;
  page_type = page_type;
  record_count = 0;
  free_space_offset = page_header_size;
  checksum = 0;
}

unfoldable pub serialize : PageHeader → List ℕ → Result (List ℕ)
serialize h buf = do
  b1 ← copy_from_slice buf 0 h.magic
  b2 ← copy_from_slice b1 4 (to_le_bytes 4 h.page_no)
  b3 ← copy_from_slice b2 8 (discriminant h.page_type ∷ [])
  b4 ← copy_from_slice b3 9 (to_le_bytes 2 h.record_count)
  b5 ← copy_from_slice b4 11 (to_le_bytes 2 h.free_space_offset)
  copy_from_slice b5 13 (to_le_bytes 4 h.checksum)

unfoldable pub deserialize : List ℕ → Result PageHeader
deserialize buf = do
  fail_if (ltb (length buf) 17) short_header
  fail_if (not (bytes_eq (slice buf 0 4) magic_bytes)) bad_magic
  page_type ← page_type_of (byte_at buf 8)
  ok (record {
    magic = magic_bytes;
    page_no = from_le_bytes (slice buf 4 4);
    page_type = page_type;
    record_count = from_le_bytes (slice buf 9 2);
    free_space_offset = from_le_bytes (slice buf 11 2);
    checksum = from_le_bytes (slice buf 13 4);
  })

pub serialize-eq : (h : PageHeader) (buf : List ℕ) → serialize h buf ≡ Header.serialize h buf
unfolding serialize Header.serialize
serialize-eq h buf = refl

pub record PageFile : Type 0 where
  pub file : File
  pub page_size : ℕ

abbrev pub with_file : PageFile → File → PageFile
with_file pf f = record pf { file = f }

unfoldable pub page_count : PageFile → PageFile × Result ℕ
page_count pf =
    case_reply (metadata_len pf.file)
      (λ f file_len. (
        with_file pf f,
        (if pf.page_size == 0
            then panic
            else if (file_len % pf.page_size) == 0
            then (if ltb (file_len / pf.page_size) (2 ^ 32)
                then ok (file_len / pf.page_size)
                else err too_many_pages)
            else err misaligned_file),
      ))
      (λ f e. (with_file pf f, err e)) (λ f. (with_file pf f, panic))

-- `u64::from(page_id) * self.page_size as u64`, which panics where it overflows.
unfoldable pub offset_of : ℕ → ℕ → Result ℕ
offset_of page_id page_size =
    if ltb (page_id * page_size) (2 ^ 64) then ok (page_id * page_size) else panic

-- The seek that stands before every read and write of a page.
unfoldable pub seek_page : PageFile → ℕ → ℕ → PageFile × Result (Unit {0})
seek_page pf page_id len =
    if len == pf.page_size
    then elim (offset_of page_id pf.page_size) [
      | ok offset ↦ let (f, r) = seek_start pf.file offset in (with_file pf f, r >>= λ _. ok tt)
      | err e ↦ (pf, err e)
      | panic ↦ (pf, panic)
    ]
    else (pf, panic)

unfoldable pub read_page : PageFile → ℕ → List ℕ → (PageFile × List ℕ) × Result (Unit {0})
read_page pf page_id buf =
    case_reply (seek_page pf page_id (length buf))
      (λ pf' _. let ((f, buf'), r) = read_exact pf'.file buf in ((with_file pf' f, buf'), r))
      (λ pf' e. ((pf', buf), err e)) (λ pf'. ((pf', buf), panic))

unfoldable pub write_page : PageFile → ℕ → List ℕ → PageFile × Result (Unit {0})
write_page pf page_id buf =
    case_reply (seek_page pf page_id (length buf))
      (λ pf' _. let (f, r) = write_all pf'.file buf in (with_file pf' f, r)) (λ pf' e. (pf', err e))
      (λ pf'. (pf', panic))

module _ (hash : List ℕ → ℕ) where
  unfoldable pub compute_checksum : List ℕ → Result ℕ
  compute_checksum page_buf =
      if ltb (length page_buf) page_header_size
      then panic
      else ok (hash (slice page_buf page_header_size (length page_buf - page_header_size)))

  -- The comparison of `read_and_verify_page`, on the buffer that was read.
  unfoldable pub verify : ℕ → List ℕ → Result (Unit {0})
  verify page_id buf = do
    stored ← (if ltb (length buf) 17 then panic else ok (from_le_bytes (slice buf 13 4)))
    computed ← compute_checksum buf
    if stored == computed then ok tt else err (checksum_mismatch page_id stored computed)

  unfoldable pub read_and_verify_page :
      PageFile → ℕ → List ℕ → (PageFile × List ℕ) × Result (Unit {0})
  read_and_verify_page pf page_id buf =
      case_reply (read_page pf page_id buf) (λ x _. (x, verify page_id x.1)) (λ x e. (x, err e))
        (λ x. (x, panic))

  -- The checksum is written into the caller's buffer.
  unfoldable pub write_page_with_checksum :
      PageFile → ℕ → List ℕ → (PageFile × List ℕ) × Result (Unit {0})
  write_page_with_checksum pf page_id buf =
      elim (compute_checksum buf >>= λ c. copy_from_slice buf 13 (to_le_bytes 4 c)) [
        | ok buf' ↦ let (pf', r) = write_page pf page_id buf' in ((pf', buf'), r)
        | err e ↦ ((pf, buf), err e)
        | panic ↦ ((pf, buf), panic)
      ]

-- `as u32` cuts the number off.
unfoldable pub allocate_page : PageFile → PageFile × Result ℕ
allocate_page pf =
    case_reply (seek_end pf.file)
      (λ f file_len.
        if pf.page_size == 0
        then (with_file pf f, panic)
        else (let (f', r) = write_all f (replicate pf.page_size 0) in
            (with_file pf f', r >>= λ _. ok ((file_len / pf.page_size) % 2 ^ 32))))
      (λ f e. (with_file pf f, err e)) (λ f. (with_file pf f, panic))
