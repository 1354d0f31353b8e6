-- ===== src/Header/Tests.antt =====
-- The page header on a concrete buffer.
use meridian_space_academy_c.Prelude.{
  ℕ, ◌≤◌, ◌≡◌, ◌⊎◌, refl, List, [], ◌∷◌, length, replicate, arith,
}
use meridian_space_academy_c.Result.{ok, err, Error, bad_magic}
use meridian_space_academy_c.Bytes.Slice.{slice, splice}
use meridian_space_academy_c.Bytes.Word.{to_le_bytes, from_le_bytes}
use meridian_space_academy_c.Bytes.Buffer.{copy_from_slice, bytes_eq}
use meridian_space_academy_c.Header.{PageHeader, records, new, serialize, deserialize}
use meridian_space_academy_c.Header.RoundTrip.{
  IsHeader, deserialize-serialize_header, serialize-deserialize_header,
}

program : Unit {0}
unfolding replicate slice splice to_le_bytes from_le_bytes copy_from_slice bytes_eq serialize
    deserialize
program = tt

abbrev header : PageHeader
header = record (new 258 records) { record_count = 3; free_space_offset = 4000 }

abbrev buffer : List ℕ
buffer = 1 ∷ 2 ∷ 3 ∷ 4 ∷ 5 ∷ 6 ∷ 7 ∷ 8 ∷ 9 ∷ 10 ∷ 11 ∷ 12 ∷ 13 ∷ 14 ∷ 15 ∷ 16 ∷ 17 ∷ 18 ∷ []

header_bytes :
    serialize header buffer
    ≡ ok
        (0x4f ∷ 0x4f ∷ 0x52 ∷ 0x31 ∷ 2 ∷ 1 ∷ 0 ∷ 0 ∷ 1 ∷ 3 ∷ 0 ∷ 160 ∷ 15 ∷ 0 ∷ 0 ∷ 0 ∷ 0 ∷ 18 ∷ [])
unfolding program
header_bytes = refl

wrong_magic : deserialize buffer ≡ err bad_magic
unfolding program
wrong_magic = refl

header-IsHeader : IsHeader header
header-IsHeader = record {
  magic = refl;
  page_no = omega arith;
  record_count = omega arith;
  free_space_offset = omega arith;
  checksum = omega arith;
}

deserialize-serialize_header_example :
    (b : List ℕ) × (serialize header buffer ≡ ok b)
    × (deserialize b ≡ ok header)
    × (length b ≡ length buffer)
    × ((a n : ℕ) → 17 ≤ a → slice b a n ≡ slice buffer a n)
deserialize-serialize_header_example =
    deserialize-serialize_header header buffer header-IsHeader (omega arith)

serialize-deserialize_header_example :
    ((x : Error) × (deserialize buffer ≡ err x))
    ⊎ ((h : PageHeader) × (deserialize buffer ≡ ok h) × (serialize h buffer ≡ ok buffer))
serialize-deserialize_header_example = serialize-deserialize_header buffer (omega arith)
