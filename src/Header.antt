-- ===== src/Header.antt =====
-- `PageHeader` and `PageType` of crates/database-track/src/module1/project1/page.rs: the first 17
-- bytes of a page.
pub mod RoundTrip
mod Tests
use meridian_space_academy_c.Prelude.{ℕ, List, [], ◌∷◌, length, ltb, ◌==◌, not, if◌then◌else◌}
use meridian_space_academy_c.Config.{page_size, page_header_size, magic_bytes}
use meridian_space_academy_c.Result.{
  Result, ok, err, short_header, bad_magic, bad_page_type, ◌>>=◌, fail_if,
}
use meridian_space_academy_c.Bytes.Slice.{slice}
use meridian_space_academy_c.Bytes.Word.{to_le_bytes, from_le_bytes}
use meridian_space_academy_c.Bytes.Buffer.{copy_from_slice, byte_at, bytes_eq}

infixl 5 ◌>>◌
abbrev ◌>>◌ {ℓ} : {A : Type ℓ} → Result (Unit {0}) → Result A → Result A
m >> k = m >>= λ _. k

pub data PageType : Type 0 where
  file_header records index free overflow : PageType

-- The discriminants of `#[repr(u8)]`.
abbrev pub discriminant : PageType → ℕ
discriminant file_header = 0
discriminant records = 1
discriminant index = 2
discriminant free = 3
discriminant overflow = 4

pub page_type_of : ℕ → Result PageType
page_type_of b =
    if b == 0
    then ok file_header
    else if b == 1
    then ok records
    else if b == 2
    then ok index
    else if b == 3
    then ok free
    else if b == 4
    then ok overflow
    else err bad_page_type

pub record PageHeader : Type 0 where
  pub magic : List ℕ
  pub page_no : ℕ
  pub page_type : PageType
  pub record_count : ℕ
  pub free_space_offset : ℕ
  pub checksum : ℕ

abbrev pub new : ℕ → PageType → PageHeader
new page_no page_type = record {
  magic = magic_bytes;
  page_no = page_no;
  page_type = page_type;
  record_count = 0;
  free_space_offset = page_size;
  checksum = 0;
}

unfoldable pub serialize : PageHeader → List ℕ → Result (List ℕ)
serialize h buf = do
  b1 ← copy_from_slice buf 0 h.magic
  b2 ← copy_from_slice b1 4 (to_le_bytes 4 h.page_no)
  b3 ← copy_from_slice b2 8 (discriminant h.page_type ∷ [])
  b4 ← copy_from_slice b3 9 (to_le_bytes 2 h.record_count)
  b5 ← copy_from_slice b4 11 (to_le_bytes 2 h.free_space_offset)
  copy_from_slice b5 13 (to_le_bytes 4 h.checksum)

unfoldable pub deserialize : List ℕ → Result PageHeader
deserialize buf = do
  fail_if (ltb (length buf) page_header_size) short_header
  fail_if (not (bytes_eq (slice buf 0 4) magic_bytes)) bad_magic
  page_type ← page_type_of (byte_at buf 8)
  ok (record {
    magic = magic_bytes;
    page_no = from_le_bytes (slice buf 4 4);
    page_type = page_type;
    record_count = from_le_bytes (slice buf 9 2);
    free_space_offset = from_le_bytes (slice buf 11 2);
    checksum = from_le_bytes (slice buf 13 4);
  })
