-- ===== src/Tle.antt =====
-- crates/database-track/src/module1/project1/tle.rs: the record of a tracked object and its 82 bytes.
pub mod RoundTrip
mod Tests
use meridian_space_academy_c.Prelude.{ℕ, ◌+◌, List, [], ◌∷◌, length, leb, ◌==◌, not, if◌then◌else◌}
use meridian_space_academy_c.Result.{Result, ok, panic, bad_tle_length, ◌>>=◌, fail_if, Error}
use meridian_space_academy_c.Bytes.Slice.{slice, concat}
use meridian_space_academy_c.Bytes.Word.{to_le_bytes, from_le_bytes}

infixl 5 ◌>>◌
abbrev ◌>>◌ {ℓ} : {A : Type ℓ} → Result (Unit {0}) → Result A → Result A
m >> k = m >>= λ _. k

-- An `f64` is the number of its 64 bits: `to_le_bytes` and `from_le_bytes` keep them.
pub record TleRecord : Type 0 where
  pub norad_id : ℕ
  pub intl_designator : List ℕ
  pub epoch : ℕ
  pub mean_motion : ℕ
  pub eccentricity : ℕ
  pub inclination : ℕ
  pub raan : ℕ
  pub arg_perigee : ℕ
  pub mean_anomaly : ℕ
  pub bstar : ℕ
  pub element_set : ℕ
  pub rev_number : ℕ

abbrev pub serialized_size : ℕ
serialized_size = 82

-- The arguments of the calls of `extend_from_slice`, in order.
abbrev pub parts : TleRecord → List (List ℕ)
parts r =
    to_le_bytes 4 r.norad_id
    ∷ r.intl_designator
    ∷ to_le_bytes 8 r.epoch
    ∷ to_le_bytes 8 r.mean_motion
    ∷ to_le_bytes 8 r.eccentricity
    ∷ to_le_bytes 8 r.inclination
    ∷ to_le_bytes 8 r.raan
    ∷ to_le_bytes 8 r.arg_perigee
    ∷ to_le_bytes 8 r.mean_anomaly
    ∷ to_le_bytes 8 r.bstar
    ∷ to_le_bytes 2 r.element_set
    ∷ to_le_bytes 4 r.rev_number
    ∷ []

unfoldable pub serialize : TleRecord → List ℕ
serialize r = concat (parts r)

-- The next `n` bytes, and the cursor behind them.
unfoldable pub take : ℕ → List ℕ → ℕ → Result (List ℕ × ℕ)
take n buf cursor =
    if leb (cursor + n) (length buf) then ok (slice buf cursor n, cursor + n) else panic

unfoldable pub deserialize : List ℕ → Result TleRecord
unfolding take
deserialize buf = do
  fail_if (not (length buf == serialized_size)) bad_tle_length
  (norad_id, c1) ← take 4 buf 0
  (intl_designator, c2) ← take 8 buf c1
  (epoch, c3) ← take 8 buf c2
  (mean_motion, c4) ← take 8 buf c3
  (eccentricity, c5) ← take 8 buf c4
  (inclination, c6) ← take 8 buf c5
  (raan, c7) ← take 8 buf c6
  (arg_perigee, c8) ← take 8 buf c7
  (mean_anomaly, c9) ← take 8 buf c8
  (bstar, c10) ← take 8 buf c9
  (element_set, c11) ← take 2 buf c10
  (rev_number, _) ← take 4 buf c11
  ok (record {
    norad_id = from_le_bytes norad_id;
    intl_designator = intl_designator;
    epoch = from_le_bytes epoch;
    mean_motion = from_le_bytes mean_motion;
    eccentricity = from_le_bytes eccentricity;
    inclination = from_le_bytes inclination;
    raan = from_le_bytes raan;
    arg_perigee = from_le_bytes arg_perigee;
    mean_anomaly = from_le_bytes mean_anomaly;
    bstar = from_le_bytes bstar;
    element_set = from_le_bytes element_set;
    rev_number = from_le_bytes rev_number;
  })
