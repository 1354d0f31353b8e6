-- ===== src/Header/RoundTrip.antt =====
-- Reading back the page header of project1/page.rs.
use meridian_space_academy_c.Prelude.{
  ℕ, ◌+◌, ◌^◌, ◌%◌, ◌≤◌, ◌<◌, ◌≡◌, ◌≢◌, ◌⊎◌, inl, inr, refl, sym, ap, ◌∙◌, List, [], ◌∷◌, length,
  arith, All,
}
use meridian_space_academy_c.Config.{magic_bytes}
use meridian_space_academy_c.Result.{ok, err, panic, Error, Result-cases}
use meridian_space_academy_c.Bytes.Slice.{
  slice, splice, slice-All, length-slice, splice-slice, length-splice, slice-splice_self,
  slice-splice_before, slice-splice_behind,
}
use meridian_space_academy_c.Bytes.Word.{
  IsByte, to_le_bytes, from_le_bytes, length-to_le_bytes, from_le_bytes-to_le_bytes,
  to_le_bytes-from_le_bytes, from_le_bytes-lt,
}
use meridian_space_academy_c.Bytes.Buffer.{
  copy_from_slice_fits, byte_at, bytes_eq_refl, eq_of_bytes_eq,
}
use meridian_space_academy_c.Header.{
  PageType, file_header, records, index, free, overflow, discriminant, page_type_of, PageHeader,
  serialize, deserialize,
}
use native.Mathlib.Nat.{add-zero}

-- The fields fit their types, and the magic is the constant.
pub record IsHeader (h : PageHeader) : Type 0 where
  pub magic : h.magic ≡ magic_bytes
  pub page_no : h.page_no < 256 ^ 4
  pub record_count : h.record_count < 256 ^ 2
  pub free_space_offset : h.free_space_offset < 256 ^ 2
  pub checksum : h.checksum < 256 ^ 4

page_type_of-discriminant : (t : PageType) → page_type_of (discriminant t) ≡ ok t
unfolding page_type_of
page_type_of-discriminant file_header = refl
page_type_of-discriminant records = refl
page_type_of-discriminant index = refl
page_type_of-discriminant free = refl
page_type_of-discriminant overflow = refl

-- The buffer that `serialize` leaves, if it is long enough.
pub written : PageHeader → List ℕ → List ℕ
written h buf =
    let b1 = splice buf 0 h.magic in
    let b2 = splice b1 4 (to_le_bytes 4 h.page_no) in
    let b3 = splice b2 8 (discriminant h.page_type ∷ []) in
    let b4 = splice b3 9 (to_le_bytes 2 h.record_count) in
    let b5 = splice b4 11 (to_le_bytes 2 h.free_space_offset) in
    splice b5 13 (to_le_bytes 4 h.checksum)

ruleset field_laws =
    (arith, slice-splice_self, slice-splice_before, length-splice, length-to_le_bytes)

module _ (h : PageHeader) (buf : List ℕ) (v : IsHeader h) (size : 17 ≤ length buf) where
  serialize-written : serialize h buf ≡ ok (written h buf)
  unfolding serialize written
  serialize-written = grind (arith, copy_from_slice_fits, length-splice, length-to_le_bytes)

  pub length-written : length (written h buf) ≡ length buf
  unfolding written
  length-written = simp length-splice

  module _ (a n : ℕ) where
    -- The bytes behind the header stay as they were.
    pub written_body : 17 ≤ a → slice (written h buf) a n ≡ slice buf a n
    unfolding written
    written_body b = grind (arith, slice-splice_behind, length-splice, length-to_le_bytes, v.magic)

  written_fields :
      (slice (written h buf) 0 4 ≡ magic_bytes)
      × (slice (written h buf) 4 4 ≡ to_le_bytes 4 h.page_no)
      × (slice (written h buf) 8 1 ≡ discriminant h.page_type ∷ [])
      × (slice (written h buf) 9 2 ≡ to_le_bytes 2 h.record_count)
      × (slice (written h buf) 11 2 ≡ to_le_bytes 2 h.free_space_offset)
      × (slice (written h buf) 13 4 ≡ to_le_bytes 4 h.checksum)
  unfolding written
  written_fields = (
    grind field_laws,
    grind field_laws,
    grind field_laws,
    grind field_laws,
    grind field_laws,
    grind field_laws,
  )

  written_type : page_type_of (byte_at (written h buf) 8) ≡ ok h.page_type
  unfolding from_le_bytes
  written_type = rw (written_fields.2, add-zero) (page_type_of-discriminant h.page_type)

  deserialize-written : deserialize (written h buf) ≡ ok h
  unfolding deserialize
  deserialize-written = ground (
    arith,
    length-written,
    written_fields,
    written_type,
    bytes_eq_refl magic_bytes,
    from_le_bytes-to_le_bytes 4 h.page_no,
    from_le_bytes-to_le_bytes 2 h.record_count,
    from_le_bytes-to_le_bytes 2 h.free_space_offset,
    from_le_bytes-to_le_bytes 4 h.checksum,
  )

  -- A header whose fields fit their types, written over the front of a buffer of at least 17 bytes,
  -- is read back as it was; the bytes behind it and the length of the buffer do not change.
  pub deserialize-serialize_header :
      (b : List ℕ) × (serialize h buf ≡ ok b)
      × (deserialize b ≡ ok h)
      × (length b ≡ length buf)
      × ((a n : ℕ) → 17 ≤ a → slice b a n ≡ slice buf a n)
  deserialize-serialize_header =
      (written h buf, serialize-written, deserialize-written, length-written, written_body)

-- What a successful `deserialize` says of the buffer.
pub record Reads (buf : List ℕ) (h : PageHeader) : Type 0 where
  pub size : 17 ≤ length buf
  pub magic : slice buf 0 4 ≡ magic_bytes
  pub page_type : byte_at buf 8 ≡ discriminant h.page_type
  pub fields : h ≡ record {
    magic = magic_bytes;
    page_no = from_le_bytes (slice buf 4 4);
    page_type = h.page_type;
    record_count = from_le_bytes (slice buf 9 2);
    free_space_offset = from_le_bytes (slice buf 11 2);
    checksum = from_le_bytes (slice buf 13 4);
  }

page_type_of-ok : (b : ℕ) (t : PageType) → page_type_of b ≡ ok t → b ≡ discriminant t
unfolding page_type_of
page_type_of-ok b file_header h = ground arith
page_type_of-ok b records h = ground arith
page_type_of-ok b index h = ground arith
page_type_of-ok b free h = ground arith
page_type_of-ok b overflow h = ground arith

page_type_of-ne-panic : (b : ℕ) → page_type_of b ≢ panic
unfolding page_type_of
page_type_of-ne-panic b = ground arith

pub deserialize-Reads : (buf : List ℕ) (h : PageHeader) → deserialize buf ≡ ok h → Reads buf h
unfolding deserialize
deserialize-Reads buf h e = record {
  size = ground arith;
  magic = ground (arith, eq_of_bytes_eq (slice buf 0 4) magic_bytes);
  page_type = ground (arith, page_type_of-ok (byte_at buf 8) h.page_type);
  fields = ground arith;
}

pub deserialize-ok :
    (buf : List ℕ) (t : PageType)
    → 17 ≤ length buf
    → slice buf 0 4 ≡ magic_bytes
    → byte_at buf 8 ≡ discriminant t
    → (h : PageHeader) × (deserialize buf ≡ ok h) × Reads buf h
unfolding deserialize
deserialize-ok buf t size magic type_lem =
    let h : PageHeader = record {
      magic = magic_bytes;
      page_no = from_le_bytes (slice buf 4 4);
      page_type = t;
      record_count = from_le_bytes (slice buf 9 2);
      free_space_offset = from_le_bytes (slice buf 11 2);
      checksum = from_le_bytes (slice buf 13 4);
    } in
    (
      h,
      ground (arith, bytes_eq_refl magic_bytes, page_type_of-discriminant t),
      record { size = size; magic = magic; page_type = type_lem; fields = refl },
    )

module _ (buf : List ℕ) (bytes : All IsByte buf) {h : PageHeader} (r : Reads buf h) where
  field-lt : (a n : ℕ) → a + n ≤ 17 → from_le_bytes (slice buf a n) < 256 ^ n
  field-lt a n fits =
      from_le_bytes-lt (slice buf a n) n (length-slice buf a n (omega (arith, r.size)))
        (slice-All IsByte buf a n bytes)

  pub Reads-IsHeader : IsHeader h
  Reads-IsHeader = record {
    magic = ap (λ x. x.magic) r.fields;
    page_no = rw (ap (λ x. x.page_no) r.fields) (field-lt 4 4 (omega arith));
    record_count = rw (ap (λ x. x.record_count) r.fields) (field-lt 9 2 (omega arith));
    free_space_offset = rw (ap (λ x. x.free_space_offset) r.fields) (field-lt 11 2 (omega arith));
    checksum = rw (ap (λ x. x.checksum) r.fields) (field-lt 13 4 (omega arith));
  }

  -- To write a field that was read changes nothing.
  same_word :
      (a n v : ℕ)
      → v ≡ from_le_bytes (slice buf a n)
      → a + n ≤ 17
      → splice buf a (to_le_bytes n v) ≡ buf
  same_word a n v e fits =
      let inside : a + n ≤ length buf = omega (arith, r.size) in
      rw
        (
          e,
          to_le_bytes-from_le_bytes (slice buf a n) n (length-slice buf a n inside)
              (slice-All IsByte buf a n bytes),
        )
        (splice-slice buf a n inside)

  same_byte : splice buf 8 (discriminant h.page_type ∷ []) ≡ buf
  unfolding to_le_bytes
  same_byte =
      let small : discriminant h.page_type < 256 ^ 1 =
        rw (← r.page_type) (field-lt 8 1 (omega arith)) in
      let fits : discriminant h.page_type % 256 ≡ discriminant h.page_type = omega arith in
      rw fits at (same_word 8 1 (discriminant h.page_type) (sym r.page_type) (omega arith))

  same_magic : splice buf 0 h.magic ≡ buf
  same_magic =
      rw (ap (λ x. x.magic) r.fields, ← r.magic) (splice-slice buf 0 4 (omega (arith, r.size)))

  written_same : written h buf ≡ buf
  unfolding written
  written_same = cc (
    same_magic,
    same_word 4 4 h.page_no (ap (λ x. x.page_no) r.fields) (omega arith),
    same_byte,
    same_word 9 2 h.record_count (ap (λ x. x.record_count) r.fields) (omega arith),
    same_word 11 2 h.free_space_offset (ap (λ x. x.free_space_offset) r.fields) (omega arith),
    same_word 13 4 h.checksum (ap (λ x. x.checksum) r.fields) (omega arith),
  )

pub deserialize-ne-panic : (buf : List ℕ) → deserialize buf ≢ panic
unfolding deserialize
deserialize-ne-panic buf = ground (arith, page_type_of-ne-panic (byte_at buf 8))

-- Reading any buffer of bytes gives a header or an error and never panics, and a header that was
-- read is written over the same buffer without a change.
pub serialize-deserialize_header :
    (buf : List ℕ)
    → All IsByte buf
    → ((x : Error) × (deserialize buf ≡ err x))
      ⊎ ((h : PageHeader) × (deserialize buf ≡ ok h) × (serialize h buf ≡ ok buf))
serialize-deserialize_header buf bytes = elim (Result-cases (deserialize buf)) [
  | inl (h, e) ↦
      let r = deserialize-Reads buf h e in
      inr (
        h,
        e,
        serialize-written h buf (Reads-IsHeader buf bytes r) r.size
            ∙ ap ok (written_same buf bytes r),
      )
  | inr (inl (x, e)) ↦ inl (x, e)
  | inr (inr e) ↦ absurd (deserialize-ne-panic buf e)
]
