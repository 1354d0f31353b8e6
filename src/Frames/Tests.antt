-- ===== src/Frames/Tests.antt =====
-- project5/frame.rs on a short stream, with big-endian words.
use meridian_space_academy_c.Prelude.{
  Has, ◌↔◌, some, ℕ, ◌+◌, ◌≡◌, ◌∙◌, refl, ap, List, [], ◌∷◌, ◌++◌, length, length-append, arith,
}
use mathlib.Core.List.{reverse, reverse-cons, reverse-reverse}
use meridian_space_academy_c.Result.{ok}
use meridian_space_academy_c.Bytes.Word.{
  to_le_bytes, from_le_bytes, length-to_le_bytes, from_le_bytes-to_le_bytes,
}
use meridian_space_academy_c.Frames.{
  Words, FrameHeader, Draws, create_at, try_extract_frame, deduplicate_indices,
}
use meridian_space_academy_c.Frames.Deduplicate.{FirstAfter, deduplicate_indices-FirstAfter}
use meridian_space_academy_c.Frames.Extract.{Fits, drawn, try_extract_frame-create_at}

length-reverse : (xs : List ℕ) → length (reverse xs) ≡ length xs
length-reverse [] = refl
length-reverse (x ∷ xs) =
    omega
      (arith, ap length (reverse-cons x xs), length-append (reverse xs) (x ∷ []), length-reverse xs)

abbrev big_endian : Words
big_endian = record {
  put = λ w v. reverse (to_le_bytes w v);
  get = λ bytes. from_le_bytes (reverse bytes);
  length-put = λ w v. length-reverse (to_le_bytes w v) ∙ length-to_le_bytes w v;
  get-put = λ w v lt.
      ap from_le_bytes (reverse-reverse (to_le_bytes w v)) ∙ from_le_bytes-to_le_bytes w v lt;
}

abbrev draws : Draws
draws = record { sequence = 300; satellite_id = 42; flags = 0x81; fill = 0 ∷ 61 ∷ 30 ∷ [] }

draws-Fits : Fits draws 5 1700000000000
draws-Fits = record {
  timestamp_ms = omega arith;
  sequence = omega arith;
  satellite_id = omega arith;
  station_id = omega arith;
  flags = omega arith;
  some_bytes = omega arith;
  few = omega arith;
}

abbrev before : List ℕ
before = 1 ∷ 2 ∷ []

abbrev behind : List ℕ
behind = 13 ∷ 10 ∷ []

try_extract_frame-create_at_example :
    try_extract_frame big_endian (record {
      bytes = before ++ (create_at big_endian draws 5 1700000000000 ++ behind);
      position = 2;
    })
    ≡ (
      record {
        bytes = before ++ (create_at big_endian draws 5 1700000000000 ++ behind);
        position = 29;
      },
      ok (drawn draws 5 1700000000000),
    )
try_extract_frame-create_at_example =
    try_extract_frame-create_at big_endian draws 5 1700000000000 before behind draws-Fits

abbrev header : ℕ → ℕ → FrameHeader
header satellite number = record {
  timestamp_ms = 1000 + number;
  sequence = number;
  satellite_id = satellite;
  byte_count = some 3;
  station_id = 1;
  flags = 0;
}

-- The third header comes again.
abbrev headers : List FrameHeader
headers = header 7 1 ∷ header 8 1 ∷ header 7 2 ∷ header 7 2 ∷ header 7 3 ∷ []

deduplicate_indices-FirstAfter_example :
    Has 3 (deduplicate_indices headers) ↔ FirstAfter [] headers 3
deduplicate_indices-FirstAfter_example = deduplicate_indices-FirstAfter headers 3
