-- ===== src/Frames.antt =====
-- crates/foundation-track/src/module5/project5/frame.rs: the frames of a ground station, as bytes and as
-- headers with payloads. The crate `bytes` writes and reads the words of a header: `Words` is what the
-- code uses of it. The random numbers of a frame are an argument.
pub mod Extract
pub mod Deduplicate
mod Tests
use meridian_space_academy_c.Prelude.{
  ℕ, zero, suc, ◌+◌, ◌-◌, ◌/◌, ◌%◌, ◌^◌, ◌<◌, ◌≡◌, Bool, true, false, ◌&&◌, ◌||◌, Option, none,
  some, List, [], ◌∷◌, length, get_elem?, map, ◌==◌, ltb, if◌then◌else◌,
}
use meridian_space_academy_c.Result.{Result, ok, err, panic, incomplete, case_reply}
use meridian_space_academy_c.Bytes.Slice.{slice, concat}

-- `put_u64`, `put_u32`, `put_u16`, `put_u8` and the reads: a word of `w` bytes is read back.
pub record Words : Type 0 where
  pub put : ℕ → ℕ → List ℕ
  pub get : List ℕ → ℕ
  pub length-put : (w v : ℕ) → length (put w v) ≡ w
  pub get-put : (w v : ℕ) → v < 256 ^ w → get (put w v) ≡ v

pub record FrameHeader : Type 0 where
  pub timestamp_ms : ℕ
  pub sequence : ℕ
  pub satellite_id : ℕ
  -- `Option<NonZeroU16>`
  pub byte_count : Option ℕ
  pub station_id : ℕ
  pub flags : ℕ

pub record Frame : Type 0 where
  pub header : FrameHeader
  pub payload : List ℕ

-- `Cursor<&[u8]>`
pub record Cursor : Type 0 where
  pub bytes : List ℕ
  pub position : ℕ

abbrev pub remaining : Cursor → ℕ
remaining c = length c.bytes - c.position

-- What `create_at` draws: the payload before it is made readable has the drawn length.
pub record Draws : Type 0 where
  pub sequence : ℕ
  pub satellite_id : ℕ
  pub flags : ℕ
  pub fill : List ℕ

-- `ALNUM[(b % 62) as usize]`
unfoldable pub alnum : ℕ → ℕ
alnum b =
    let n = b % 62 in if ltb n 26 then n + 65 else if ltb n 52 then n - 26 + 97 else n - 52 + 48

-- `&src.get_ref()[start..i]` for the first line end at `i` or behind, with `n` places left.
unfoldable pub find_line : ℕ → ℕ → List ℕ → Option ℕ
find_line zero i bytes = none
find_line (suc n) i bytes =
    let rest = find_line n (suc i) bytes in
    let is_at : ℕ → ℕ → Bool = λ k b. elim (get_elem? bytes k) [ none ↦ false | some x ↦ x == b ] in
    if is_at i 13 && is_at (i + 1) 10 then some i else rest

unfoldable pub get_payload : Cursor → Option ℕ → Cursor × Result (List ℕ)
get_payload c (some n) =
    if ltb (remaining c) n
    then (c, err incomplete)
    else (record c { position = c.position + n }, ok (slice c.bytes c.position n))
get_payload c none = elim (find_line (length c.bytes - 1 - c.position) c.position c.bytes) [
  | none ↦ (c, err incomplete)
  | some i ↦ (record c { position = i + 2 }, ok (slice c.bytes c.position (i - c.position)))
]

module _ (words : Words) where
  unfoldable pub create_at : Draws → ℕ → ℕ → List ℕ
  create_at d station_id timestamp_ms = concat (
      words.put 8 timestamp_ms
      ∷ words.put 8 d.sequence
      ∷ words.put 4 d.satellite_id
      ∷ words.put 2 (length d.fill)
      ∷ words.put 1 station_id
      ∷ words.put 1 d.flags
      ∷ map alnum d.fill
      ∷ [])

  -- `get_u64` and its kin, where enough bytes are left.
  abbrev pub get_word : ℕ → Cursor → Cursor × ℕ
  get_word w c = (record c { position = c.position + w }, words.get (slice c.bytes c.position w))

  unfoldable pub try_extract_frame : Cursor → Cursor × Result Frame
  try_extract_frame c0 =
      if ltb (remaining c0) 24
      then (c0, err incomplete)
      else (let (c1, timestamp_ms) = get_word 8 c0 in
          let (c2, sequence) = get_word 8 c1 in
          let (c3, satellite_id) = get_word 4 c2 in
          let (c4, byte_count) = get_word 2 c3 in
          let (c5, station_id) = get_word 1 c4 in
          let (c6, flags) = get_word 1 c5 in
          let non_zero : Option ℕ = if byte_count == 0 then none else some byte_count in
          case_reply (get_payload c6 non_zero)
            (λ c payload. (
              c,
              ok (record {
                header = record {
                  timestamp_ms = timestamp_ms;
                  sequence = sequence;
                  satellite_id = satellite_id;
                  byte_count = non_zero;
                  station_id = station_id;
                  flags = flags;
                };
                payload = payload;
              }),
            ))
            (λ c e. (c, err e)) (λ c. (c, panic)))

-- `flags & 0x80 == 0`
unfoldable pub validate : FrameHeader → Bool
validate h = ((h.flags / 128) % 2) == 0

abbrev pub same_key : FrameHeader → FrameHeader → Bool
same_key g h = (g.satellite_id == h.satellite_id) && (g.sequence == h.sequence)

-- `seen` has the headers whose key was inserted.
unfoldable pub is_seen : FrameHeader → List FrameHeader → Bool
is_seen h [] = false
is_seen h (g ∷ seen) = same_key g h || is_seen h seen

unfoldable pub deduplicate_from : List FrameHeader → ℕ → List FrameHeader → List ℕ
deduplicate_from seen i [] = []
deduplicate_from seen i (h ∷ hs) =
    let again = deduplicate_from seen (suc i) hs in
    let first = i ∷ deduplicate_from (h ∷ seen) (suc i) hs in
    if is_seen h seen then again else first

unfoldable pub deduplicate_indices : List FrameHeader → List ℕ
deduplicate_indices = deduplicate_from [] 0
