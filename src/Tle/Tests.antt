-- ===== src/Tle/Tests.antt =====
-- tle.rs on a concrete record.
use meridian_space_academy_c.Prelude.{ℕ, ◌≡◌, ◌≢◌, ◌⊎◌, refl, [], ◌∷◌, length, arith}
use meridian_space_academy_c.Result.{ok, err, bad_tle_length}
use meridian_space_academy_c.Bytes.Slice.{slice, concat}
use meridian_space_academy_c.Bytes.Word.{to_le_bytes, from_le_bytes}
use meridian_space_academy_c.Tle.{TleRecord, serialize, deserialize}
use meridian_space_academy_c.Tle.RoundTrip.{IsTle, deserialize-serialize, serialize-deserialize}

-- The space station, with an epoch and a mean motion as bit patterns.
abbrev station : TleRecord
station = record {
  norad_id = 25544;
  intl_designator = 57 ∷ 56 ∷ 48 ∷ 54 ∷ 55 ∷ 65 ∷ 0 ∷ 0 ∷ [];
  epoch = 0x40d77b6000000000;
  mean_motion = 0x402f000000000000;
  eccentricity = 0;
  inclination = 1;
  raan = 2;
  arg_perigee = 3;
  mean_anomaly = 4;
  bstar = 5;
  element_set = 999;
  rev_number = 70000;
}

station-IsTle : IsTle station
station-IsTle = record {
  norad_id = omega arith;
  intl_designator = refl;
  epoch = omega arith;
  mean_motion = omega arith;
  eccentricity = omega arith;
  inclination = omega arith;
  raan = omega arith;
  arg_perigee = omega arith;
  mean_anomaly = omega arith;
  bstar = omega arith;
  element_set = omega arith;
  rev_number = omega arith;
}

read_back : deserialize (serialize station) ≡ ok station
unfolding serialize deserialize concat slice to_le_bytes from_le_bytes
read_back = refl

deserialize-serialize_example :
    (length (serialize station) ≡ 82) × (deserialize (serialize station) ≡ ok station)
deserialize-serialize_example = deserialize-serialize station station-IsTle

serialize-deserialize_example :
    ((length {A = ℕ} (1 ∷ 2 ∷ []) ≢ 82) × (deserialize (1 ∷ 2 ∷ []) ≡ err bad_tle_length))
    ⊎ ((length {A = ℕ} (1 ∷ 2 ∷ []) ≡ 82)
        × (r : TleRecord) × (deserialize (1 ∷ 2 ∷ []) ≡ ok r)
        × (serialize r ≡ 1 ∷ 2 ∷ []))
serialize-deserialize_example = serialize-deserialize (1 ∷ 2 ∷ []) (omega arith)
