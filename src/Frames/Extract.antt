-- ===== src/Frames/Extract.antt =====
-- `create_at` and `try_extract_frame` of project5/frame.rs.
use meridian_space_academy_c.Prelude.{
  ℕ, suc, ◌+◌, ◌-◌, ◌^◌, ◌≤◌, ◌<◌, ◌≡◌, ◌∙◌, refl, sym, ap, false, some, List, [], ◌∷◌, ◌++◌,
  length, length-append, map, get_elem?, ◌==◌, ltb, arith,
}
use meridian_space_academy_c.Result.{ok}
use meridian_space_academy_c.Bytes.Slice.{
  slice, concat, offset, slice-concat, slice-slice, slice-append_left, slice-append_right,
}
use meridian_space_academy_c.Frames.{
  Words, Frame, Draws, alnum, get_payload, create_at, try_extract_frame,
}

length-concat : {A : Type 0} (ps : List (List A)) → length (concat ps) ≡ offset ps (length ps)
unfolding concat offset
length-concat [] = refl
length-concat (p ∷ ps) = length-append p (concat ps) ∙ ap (◌+◌ (length p)) (length-concat ps)

length-map : {A B : Type 0} (f : A → B) (xs : List A) → length (map f xs) ≡ length xs
length-map f [] = refl
length-map f (x ∷ xs) = ap suc (length-map f xs)

-- A range inside the middle of three lists.
slice_inside :
    {A : Type 0} (pre xs rest : List A) (a k n : ℕ)
    → a ≡ length pre + k
    → k + n ≤ length xs
    → slice (pre ++ (xs ++ rest)) a n ≡ slice xs k n
slice_inside pre xs rest a k n e fits =
    slice-append_right pre (xs ++ rest) a k n e
    ∙ sym (slice-slice (xs ++ rest) (length xs) k n fits)
    ∙ ap (λ d. slice d k n) (slice-append_left xs rest (length xs) refl)

-- The drawn values fit their types, and the payload is not empty.
pub record Fits (d : Draws) (station timestamp : ℕ) : Type 0 where
  pub timestamp_ms : timestamp < 2 ^ 64
  pub sequence : d.sequence < 2 ^ 64
  pub satellite_id : d.satellite_id < 2 ^ 32
  pub station_id : station < 2 ^ 8
  pub flags : d.flags < 2 ^ 8
  pub some_bytes : 0 < length d.fill
  pub few : length d.fill < 2 ^ 16

-- The frame that `create_at` writes.
abbrev pub drawn : Draws → ℕ → ℕ → Frame
drawn d station timestamp = record {
  header = record {
    timestamp_ms = timestamp;
    sequence = d.sequence;
    satellite_id = d.satellite_id;
    byte_count = some (length d.fill);
    station_id = station;
    flags = d.flags;
  };
  payload = map alnum d.fill;
}

module _ (words : Words) (d : Draws) (station timestamp : ℕ) (pre rest : List ℕ)
    (fits : Fits d station timestamp) where
  abbrev parts : List (List ℕ)
  parts =
      words.put 8 timestamp
      ∷ words.put 8 d.sequence
      ∷ words.put 4 d.satellite_id
      ∷ words.put 2 (length d.fill)
      ∷ words.put 1 station
      ∷ words.put 1 d.flags
      ∷ map alnum d.fill
      ∷ []

  abbrev frame : List ℕ
  frame = create_at words d station timestamp

  abbrev stream : List ℕ
  stream = pre ++ (frame ++ rest)

  length-frame : length frame ≡ 24 + length d.fill
  unfolding create_at offset
  length-frame = omega (
    arith,
    length-concat parts,
    words.length-put 8 timestamp,
    words.length-put 8 d.sequence,
    words.length-put 4 d.satellite_id,
    words.length-put 2 (length d.fill),
    words.length-put 1 station,
    words.length-put 1 d.flags,
    length-map alnum d.fill,
  )

  length-stream : length stream ≡ length pre + (24 + length d.fill) + length rest
  length-stream =
      omega (arith, length-append pre (frame ++ rest), length-append frame rest, length-frame)

  part_at :
      (i : ℕ) (p : List ℕ) (a k n : ℕ)
      → get_elem? parts i ≡ some p
      → offset parts i ≡ k
      → a ≡ length pre + k
      → length p ≡ n
      → k + n ≤ 24 + length d.fill
      → slice stream a n ≡ p
  unfolding create_at
  part_at i p a k n e o here l h =
      slice_inside pre frame rest a k n here (omega (arith, length-frame))
      ∙ slice-concat parts i p k n e o l

  word_at :
      (i w v a k : ℕ)
      → get_elem? parts i ≡ some (words.put w v)
      → offset parts i ≡ k
      → a ≡ length pre + k
      → v < 256 ^ w
      → k + w ≤ 24
      → words.get (slice stream a w) ≡ v
  word_at i w v a k e o here lt h =
      ap words.get (part_at i (words.put w v) a k w e o here (words.length-put w v) (omega arith))
      ∙ words.get-put w v lt

  -- Wherever it stands in a stream, a frame that `create_at` wrote is read back whole: its header, its
  -- payload of letters and digits, and the position behind it.
  pub try_extract_frame-create_at :
      try_extract_frame words (record {
        bytes = pre ++ (create_at words d station timestamp ++ rest);
        position = length pre;
      })
      ≡ (
        record {
          bytes = pre ++ (create_at words d station timestamp ++ rest);
          position = length pre + (24 + length d.fill);
        },
        ok (drawn d station timestamp),
      )
  unfolding try_extract_frame get_payload offset
  try_extract_frame-create_at =
      let p = length pre in
      let l8 = words.length-put 8 timestamp in
      let l16 = words.length-put 8 d.sequence in
      let l20 = words.length-put 4 d.satellite_id in
      let l22 = words.length-put 2 (length d.fill) in
      let l23 = words.length-put 1 station in
      let l24 = words.length-put 1 d.flags in
      let behind : p + 8 + 8 + 4 + 2 + 1 + 1 + length d.fill ≡ p + (24 + length d.fill) =
        omega arith in
      let enough : ltb (length stream - p) 24 ≡ false = ground (arith, length-stream) in
      let counted : (length d.fill == 0) ≡ false = ground (arith, fits.some_bytes) in
      let there : ltb (length stream - (p + 8 + 8 + 4 + 2 + 1 + 1)) (length d.fill) ≡ false =
        ground (arith, length-stream) in
      rw
        (
          enough,
          word_at 0 8 timestamp p 0 refl refl (omega arith) fits.timestamp_ms (omega arith),
          word_at 1 8 d.sequence (p + 8) 8 refl (omega (arith, l8)) refl fits.sequence
              (omega arith),
          word_at 2 4 d.satellite_id (p + 8 + 8) 16 refl (omega (arith, l8, l16)) (omega arith)
              fits.satellite_id (omega arith),
          word_at 3 2 (length d.fill) (p + 8 + 8 + 4) 20 refl (omega (arith, l8, l16, l20))
              (omega arith) fits.few (omega arith),
          word_at 4 1 station (p + 8 + 8 + 4 + 2) 22 refl (omega (arith, l8, l16, l20, l22))
              (omega arith) fits.station_id (omega arith),
          word_at 5 1 d.flags (p + 8 + 8 + 4 + 2 + 1) 23 refl
              (omega (arith, l8, l16, l20, l22, l23)) (omega arith) fits.flags (omega arith),
          counted,
        )
        (rw
          (
            there,
            part_at 6 (map alnum d.fill) (p + 8 + 8 + 4 + 2 + 1 + 1) 24 (length d.fill) refl
                (omega (arith, l8, l16, l20, l22, l23, l24)) (omega arith) (length-map alnum d.fill)
                (omega arith),
          )
          (ap (λ n. (record { bytes = stream; position = n }, ok (drawn d station timestamp)))
            behind))
