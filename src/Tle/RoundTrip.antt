-- ===== src/Tle/RoundTrip.antt =====
-- Reading back the records of tle.rs.
use meridian_space_academy_c.Prelude.{
  ℕ, ◌+◌, ◌^◌, ◌≤◌, ◌<◌, ◌≡◌, refl, ap, ◌∙◌, ◌≢◌, ◌⊎◌, inl, inr, some, List, ◌++◌, length,
  length-append, get_elem?, arith, All,
}
use mathlib.Core.List.{append-nil}
use native.Mathlib.Decide.{ℕ_discrete}
use meridian_space_academy_c.Result.{ok, err, bad_tle_length}
use meridian_space_academy_c.Bytes.Slice.{
  slice, concat, offset, slice-concat, slice-All, length-slice, slice-append-slice, slice_whole,
}
use meridian_space_academy_c.Bytes.Word.{
  IsByte, to_le_bytes, from_le_bytes, length-to_le_bytes, from_le_bytes-to_le_bytes,
  to_le_bytes-from_le_bytes,
}
use meridian_space_academy_c.Tle.{TleRecord, parts, serialize, deserialize}

-- The fields fit their types.
pub record IsTle (r : TleRecord) : Type 0 where
  pub norad_id : r.norad_id < 256 ^ 4
  pub intl_designator : length r.intl_designator ≡ 8
  pub epoch : r.epoch < 256 ^ 8
  pub mean_motion : r.mean_motion < 256 ^ 8
  pub eccentricity : r.eccentricity < 256 ^ 8
  pub inclination : r.inclination < 256 ^ 8
  pub raan : r.raan < 256 ^ 8
  pub arg_perigee : r.arg_perigee < 256 ^ 8
  pub mean_anomaly : r.mean_anomaly < 256 ^ 8
  pub bstar : r.bstar < 256 ^ 8
  pub element_set : r.element_set < 256 ^ 2
  pub rev_number : r.rev_number < 256 ^ 4

-- The field at a record of bytes `buf`, read by its range.
abbrev view : List ℕ → TleRecord
view buf = record {
  norad_id = from_le_bytes (slice buf 0 4);
  intl_designator = slice buf 4 8;
  epoch = from_le_bytes (slice buf 12 8);
  mean_motion = from_le_bytes (slice buf 20 8);
  eccentricity = from_le_bytes (slice buf 28 8);
  inclination = from_le_bytes (slice buf 36 8);
  raan = from_le_bytes (slice buf 44 8);
  arg_perigee = from_le_bytes (slice buf 52 8);
  mean_anomaly = from_le_bytes (slice buf 60 8);
  bstar = from_le_bytes (slice buf 68 8);
  element_set = from_le_bytes (slice buf 76 2);
  rev_number = from_le_bytes (slice buf 78 4);
}

pub deserialize-view : (buf : List ℕ) → length buf ≡ 82 → deserialize buf ≡ ok (view buf)
unfolding deserialize
deserialize-view buf h = rw h refl

module _ (r : TleRecord) (v : IsTle r) where
  length-serialize : length (serialize r) ≡ 82
  unfolding serialize concat
  length-serialize = simp (length-append, length-to_le_bytes, v.intl_designator)

  word :
      (i n x : ℕ) (a : ℕ)
      → get_elem? (parts r) i ≡ some (to_le_bytes n x)
      → offset (parts r) i ≡ a
      → x < 256 ^ n
      → from_le_bytes (slice (serialize r) a n) ≡ x
  unfolding serialize
  word i n x a e o h =
      ap from_le_bytes (slice-concat (parts r) i _ a n e o (length-to_le_bytes n x))
      ∙ from_le_bytes-to_le_bytes n x h

  view-serialize : view (serialize r) ≡ r
  unfolding offset to_le_bytes serialize
  view-serialize = λ i. record {
    norad_id = word 0 4 r.norad_id 0 refl refl v.norad_id i;
    intl_designator = slice-concat (parts r) 1 r.intl_designator 4 8 refl refl v.intl_designator i;
    epoch = word 2 8 r.epoch 12 refl (omega arith) v.epoch i;
    mean_motion = word 3 8 r.mean_motion 20 refl (omega arith) v.mean_motion i;
    eccentricity = word 4 8 r.eccentricity 28 refl (omega arith) v.eccentricity i;
    inclination = word 5 8 r.inclination 36 refl (omega arith) v.inclination i;
    raan = word 6 8 r.raan 44 refl (omega arith) v.raan i;
    arg_perigee = word 7 8 r.arg_perigee 52 refl (omega arith) v.arg_perigee i;
    mean_anomaly = word 8 8 r.mean_anomaly 60 refl (omega arith) v.mean_anomaly i;
    bstar = word 9 8 r.bstar 68 refl (omega arith) v.bstar i;
    element_set = word 10 2 r.element_set 76 refl (omega arith) v.element_set i;
    rev_number = word 11 4 r.rev_number 78 refl (omega arith) v.rev_number i;
  }

  -- Every record whose fields fit their types is written as 82 bytes, and reading these gives the
  -- record back.
  pub deserialize-serialize : (length (serialize r) ≡ 82) × (deserialize (serialize r) ≡ ok r)
  deserialize-serialize =
      (length-serialize, deserialize-view (serialize r) length-serialize ∙ ap ok view-serialize)

module _ (buf : List ℕ) (bytes : All IsByte buf) (size : length buf ≡ 82) where
  field_bytes :
      (a n : ℕ) → a + n ≤ 82 → to_le_bytes n (from_le_bytes (slice buf a n)) ≡ slice buf a n
  field_bytes a n h =
      to_le_bytes-from_le_bytes (slice buf a n) n (length-slice buf a n (omega arith))
        (slice-All IsByte buf a n bytes)

  then_field :
      (a n : ℕ) (xs : List ℕ) (b m : ℕ)
      → b ≡ a + n
      → b + m ≡ 82
      → xs ≡ slice buf b m
      → to_le_bytes n (from_le_bytes (slice buf a n)) ++ xs ≡ slice buf a (n + m)
  then_field a n xs b m e h p =
      rw (field_bytes a n (omega arith), p, e) (slice-append-slice buf a n m)

  serialize-view : serialize (view buf) ≡ buf
  unfolding serialize concat
  serialize-view =
      then_field 0 4 _ 4 78 refl refl (
        ap (◌++◌ (slice buf 4 8)) (
          then_field 12 8 _ 20 62 refl refl (
            then_field 20 8 _ 28 54 refl refl (
              then_field 28 8 _ 36 46 refl refl (
                then_field 36 8 _ 44 38 refl refl (
                  then_field 44 8 _ 52 30 refl refl (
                    then_field 52 8 _ 60 22 refl refl (
                      then_field 60 8 _ 68 14 refl refl (
                        then_field 68 8 _ 76 6 refl refl (
                          then_field 76 2 _ 78 4 refl refl
                            (rw append-nil (field_bytes 78 4 (omega arith))))))))))))
        ∙ slice-append-slice buf 4 8 70)
      ∙ slice_whole buf 82 size

-- Bytes of another length than 82 are refused; of that length every buffer is accepted, and the
-- record that it gives is written as the same bytes. So reading never panics.
pub serialize-deserialize :
    (buf : List ℕ)
    → All IsByte buf
    → ((length buf ≢ 82) × (deserialize buf ≡ err bad_tle_length))
      ⊎ ((length buf ≡ 82) × (r : TleRecord) × (deserialize buf ≡ ok r) × (serialize r ≡ buf))
serialize-deserialize buf bytes = elim (ℕ_discrete (length buf) 82) [
  | yes e ↦ inr (e, view buf, deserialize-view buf e, serialize-view buf bytes e)
  | no n ↦ inl (n, unfold deserialize in ground arith)
]
