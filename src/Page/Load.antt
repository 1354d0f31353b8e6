-- ===== src/Page/Load.antt =====
-- `from_bytes` of project1/page.rs: what it accepts.
use meridian_space_academy_c.Prelude.{
  ℕ, zero, suc, ◌+◌, ◌*◌, ◌≤◌, ◌<◌, ◌≡◌, ◌∙◌, ◌⊎◌, inl, inr, refl, ap, List, length, arith, Bool,
  true, false, not, ◌&&◌, ◌||◌, ltb, ◌==◌, Bool-cases, if◌then◌else◌,
}
use native.Mathlib.Decide.{ℕ_discrete}
use meridian_space_academy_c.Config.{page_size, magic_bytes, tombstone}
use meridian_space_academy_c.Result.{
  ok, err, Error, bad_slot_bounds, bad_page_header, Result-cases, ◌>>=◌,
}
use meridian_space_academy_c.Bytes.Slice.{slice}
use meridian_space_academy_c.Bytes.Word.{from_le_bytes}
use meridian_space_academy_c.Bytes.Buffer.{byte_at}
use meridian_space_academy_c.Header.{PageHeader, discriminant, records}
use meridian_space_academy_c.Header
use meridian_space_academy_c.Header.RoundTrip.{
  Reads, deserialize-Reads, deserialize-ok, deserialize-ne-panic,
}
use meridian_space_academy_c.Page.{
  Page, record_count, record_region_offset, slot_base, check_slots, from_bytes,
}
use meridian_space_academy_c.Page.Writes.{size_of, slot, read_slot-slot}
use meridian_space_academy_c.Page.Valid.{SlotIn}

abbrev pub page_of : List ℕ → Page
page_of bytes = record { data_bytes = bytes }

-- The checks of `from_bytes` and of the header that it reads.
pub record Accepted (bytes : List ℕ) (page_no : ℕ) : Type 0 where
  pub magic : slice bytes 0 4 ≡ magic_bytes
  pub page_no_lem : from_le_bytes (slice bytes 4 4) ≡ page_no
  pub page_type : byte_at bytes 8 ≡ discriminant records
  pub fits : slot_base (record_count (page_of bytes)) ≤ record_region_offset (page_of bytes)
  pub top : record_region_offset (page_of bytes) ≤ page_size
  pub slots : (i : ℕ) → i < record_count (page_of bytes) → SlotIn (page_of bytes) i

-- The test of the loop on a slot.
abbrev out_of_bounds : Page → ℕ → Bool
out_of_bounds p i =
    not ((slot p i).0 == tombstone)
    && (ltb (slot p i).0 (record_region_offset p) || ltb page_size ((slot p i).0 + (slot p i).1))

out_of_bounds-SlotIn :
    (p : Page) (i : ℕ)
    → ((out_of_bounds p i ≡ false) × SlotIn p i) ⊎ ((out_of_bounds p i ≡ true) × (¬ SlotIn p i))
out_of_bounds-SlotIn p i = elim (Bool-cases (out_of_bounds p i)) [
  | inl e ↦ inr (e, λ h. ground (arith, h))
  | inr e ↦ inl (e, ground arith)
]

-- The loop ends with `Ok` if all slots are in bounds, and with the error if one is not.
check_slots-SlotIn :
    (p : Page) (n i : ℕ)
    → slot_base (i + n) ≤ size_of p
    → ((check_slots p (record_region_offset p) n i ≡ ok tt)
        × ((j : ℕ) → i ≤ j → j < i + n → SlotIn p j))
      ⊎ ((check_slots p (record_region_offset p) n i ≡ err bad_slot_bounds)
          × (j : ℕ) × (j < i + n)
          × (¬ SlotIn p j))
unfolding check_slots
check_slots-SlotIn p zero i h = inl (refl, λ j lo hi. absurd (omega arith))
check_slots-SlotIn p (suc n) i h = elim (out_of_bounds-SlotIn p i) [
  | inr (bad, out) ↦ inr (rw (read_slot-slot p i (omega arith), bad) refl, i, omega arith, out)
  | inl (good, within) ↦ elim (check_slots-SlotIn p n (suc i) (omega arith)) [
    | inl (e, rest) ↦ inl (
      rw (read_slot-slot p i (omega arith), good) e,
      λ j lo hi. elim (ℕ_discrete i j) [
        | yes same ↦ rw (← same) within
        | no ne ↦ rest j (omega arith) (omega arith)
      ],
    )
    | inr (e, j, lt, out) ↦ inr (rw (read_slot-slot p i (omega arith), good) e, j, omega arith, out)
  ]
]

module _ (bytes : List ℕ) (page_no : ℕ) (size : length bytes ≡ page_size) where
  abbrev page : Page
  page = page_of bytes

  -- The tests on a header that was read.
  header_bad : PageHeader → Bool
  header_bad h =
      not (h.page_no == page_no)
      || not (discriminant h.page_type == 1)
      || ltb h.free_space_offset (17 + h.record_count * 4)
      || ltb page_size h.free_space_offset

  from_bytes-step :
      (h : PageHeader)
      → Header.deserialize bytes ≡ ok h
      → from_bytes bytes page_no ≡ (
          if header_bad h
          then err bad_page_header
          else (check_slots page h.free_space_offset h.record_count 0 >>= λ _. ok page))
  unfolding from_bytes header_bad
  from_bytes-step h e = ground arith

  module _ (h : PageHeader) (e : Header.deserialize bytes ≡ ok h) where
    reads : Reads bytes h
    reads = deserialize-Reads bytes h e

    count_lem : h.record_count ≡ record_count page
    count_lem = unfold record_count in ap (λ x. x.record_count) reads.fields

    offset_lem : h.free_space_offset ≡ record_region_offset page
    offset_lem = unfold record_region_offset in ap (λ x. x.free_space_offset) reads.fields

    header_bad-Accepted : header_bad h ≡ true → ¬ Accepted bytes page_no
    unfolding header_bad
    header_bad-Accepted bad a = ground (
      arith,
      count_lem,
      offset_lem,
      ap (λ x. x.page_no) reads.fields,
      reads.page_type,
      a.page_no_lem,
      a.page_type,
      a.fits,
      a.top,
    )

    header_good :
        header_bad h ≡ false
        → (from_le_bytes (slice bytes 4 4) ≡ page_no)
          × (byte_at bytes 8 ≡ 1)
          × (slot_base (record_count page) ≤ record_region_offset page)
          × (record_region_offset page ≤ page_size)
    unfolding header_bad
    header_good good =
        ground (arith, count_lem, offset_lem, ap (λ x. x.page_no) reads.fields, reads.page_type)

    loaded :
        ((from_bytes bytes page_no ≡ ok page) × Accepted bytes page_no)
        ⊎ ((x : Error) × (from_bytes bytes page_no ≡ err x) × (¬ Accepted bytes page_no))
    loaded = elim (Bool-cases (header_bad h)) [
      | inl bad ↦ inr (bad_page_header, from_bytes-step h e ∙ rw bad refl, header_bad-Accepted bad)
      | inr good ↦
          let (no_lem, type_lem, fits, top) = header_good good in
          elim (check_slots-SlotIn page (record_count page) 0 (omega arith)) [
            | inl (ran, all) ↦ inl (
              from_bytes-step h e ∙ rw (good, count_lem, offset_lem, ran) refl,
              record {
                magic = reads.magic;
                page_no_lem = no_lem;
                page_type = type_lem;
                fits = fits;
                top = top;
                slots = λ i lt. all i (omega arith) (omega arith);
              },
            )
            | inr (ran, j, lt, out) ↦ inr (
              bad_slot_bounds,
              from_bytes-step h e ∙ rw (good, count_lem, offset_lem, ran) refl,
              λ a. out (a.slots j (omega arith)),
            )
          ]
    ]

-- On the bytes of a page `from_bytes` never panics: it returns the page over these bytes exactly when
-- the magic, the page number and the page type are the expected ones, the directory ends at or before
-- the start of the records, that start is on the page, and every slot is deleted or has its record
-- between that start and the end of the page. On all other bytes it returns an error.
pub from_bytes-Accepted :
    (bytes : List ℕ) (page_no : ℕ)
    → length bytes ≡ page_size
    → ((from_bytes bytes page_no ≡ ok (page_of bytes)) × Accepted bytes page_no)
      ⊎ ((x : Error) × (from_bytes bytes page_no ≡ err x) × (¬ Accepted bytes page_no))
from_bytes-Accepted bytes page_no size = elim (Result-cases (Header.deserialize bytes)) [
  | inl (h, e) ↦ loaded bytes page_no size h e
  | inr (inl (x, e)) ↦ inr (
    x,
    unfold from_bytes in rw e refl,
    λ a.
        let (h, e', _) = deserialize-ok bytes records (omega arith) a.magic a.page_type in
        cc (e, e'),
  )
  | inr (inr e) ↦ absurd (deserialize-ne-panic bytes e)
]
