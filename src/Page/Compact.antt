-- ===== src/Page/Compact.antt =====
-- `compact` of project1/page.rs on a valid page.
use meridian_space_academy_c.Prelude.{
  ℕ, zero, suc, ◌+◌, ◌≤◌, ◌<◌, ◌≡◌, ◌≢◌, ◌∙◌, ◌⊎◌, ◌↔◌, inl, inr, refl, none, some, length, arith,
}
use native.Mathlib.Decide.{dec_lt, ℕ_discrete}
use meridian_space_academy_c.Config.{page_size, tombstone}
use meridian_space_academy_c.Result.{ok}
use meridian_space_academy_c.Page.{
  Page, record_count, record_region_offset, slot_base, relocate, compact,
}
use meridian_space_academy_c.Page.Writes.{
  content, slot, with_offset, set_record_region_offset-with_offset, size-with_offset,
  slot-with_offset, content-with_offset, record_count-with_offset, offset-with_offset,
  length-content, title-with_offset,
}
use meridian_space_academy_c.Page.Valid.{
  live_length, live_total, SlotIn, IsValid, lookup, first_free,
}
use meridian_space_academy_c.Page.Insert.{reusable}
use meridian_space_academy_c.Page.Records.{
  Records, find, collected, live_records-collected, collected-Between, bytes_of-collected,
  find-collected,
}
use meridian_space_academy_c.Page.Relocate.{Relocated, relocate-Relocated}

-- `q` holds the records of `p` in the same slots, and wastes no byte behind the start of the region.
pub record Compacted (p q : Page) : Type 0 where
  pub valid : IsValid q
  pub same : (j : ℕ) → lookup q j ≡ lookup p j
  pub count : record_count q ≡ record_count p
  pub total : live_total q (record_count q) 0 ≡ live_total p (record_count p) 0
  pub tight : record_region_offset q + live_total q (record_count q) 0 ≡ page_size
  pub reuses : reusable q ≡ reusable p
  pub title : content q 0 9 ≡ content p 0 9

-- Slots with the same lengths have the same total.
live_total-same :
    (p q : Page) (n i : ℕ)
    → ((j : ℕ) → i ≤ j → j < i + n → live_length q j ≡ live_length p j)
    → live_total q n i ≡ live_total p n i
unfolding live_total
live_total-same p q zero i h = refl
live_total-same p q (suc n) i h = omega (
  arith,
  h i (omega arith) (omega arith),
  live_total-same p q n (suc i) (λ j lo hi. h j (omega arith) (omega arith)),
)

first_free-same :
    (p q : Page) (n i : ℕ)
    → ((j : ℕ) → i ≤ j → j < i + n → ((slot q j).0 ≡ tombstone) ↔ ((slot p j).0 ≡ tombstone))
    → first_free q n i ≡ first_free p n i
unfolding first_free
first_free-same p q zero i h = refl
first_free-same p q (suc n) i h =
    let here = h i (omega arith) (omega arith) in
    ground (
      arith,
      here.0,
      here.1,
      first_free-same p q n (suc i) (λ j lo hi. h j (omega arith) (omega arith)),
    )

module _ (p : Page) (v : IsValid p) where
  abbrev live : Records
  live = collected p (record_count p) 0

  module _ (q' : Page) (c' : ℕ) (r : Relocated live p page_size q' c') where
    result : Page
    result = with_offset q' c'

    cursor_lem : c' + live_total p (record_count p) 0 ≡ page_size
    cursor_lem = omega (arith, r.cursor, bytes_of-collected p v (record_count p) 0 (omega arith))

    -- The new start of the records is behind the directory and at most the old one.
    cursor_fits : slot_base (record_count p) ≤ c'
    cursor_fits = omega (arith, cursor_lem, v.room, v.fits)

    -- A slot of the result: deleted as before, or over its record.
    slot_cases :
        (j : ℕ)
        → j < record_count p
        → ((slot result j ≡ slot p j) × ((slot p j).0 ≡ tombstone))
          ⊎ ((c' ≤ (slot result j).0)
              × ((slot result j).0 + (slot result j).1 ≤ page_size)
              × ((slot result j).1 ≡ (slot p j).1)
              × ((slot p j).0 ≢ tombstone)
              × (content result (slot result j).0 (slot result j).1
                  ≡ content p (slot p j).0 (slot p j).1))
    unfolding result
    slot_cases j lt = elim (ℕ_discrete (slot p j).0 tombstone) [
      | yes dead ↦ inl (slot-with_offset q' c' j ∙ r.stays j lt (found ∙ empty dead), dead)
      | no alive ↦
          let bytes = content p (slot p j).0 (slot p j).1 in
          let len : length bytes ≡ (slot p j).1 =
            ground (arith, v.slots j lt, v.size, length-content p (slot p j).0 (slot p j).1) in
          let (lo, hi, l, c) = r.moved j bytes (found ∙ full alive) in
          inr (
            rw (slot-with_offset q' c' j) lo,
            rw (slot-with_offset q' c' j) (omega arith),
            rw (slot-with_offset q' c' j) (l ∙ len),
            alive,
            rw (slot-with_offset q' c' j, l)
                (content-with_offset q' c' (slot q' j).0 (length bytes) (omega (arith, cursor_fits))
                  ∙ c),
          )
    ]
      where
        found : find live j ≡ lookup p j
        found = find-collected p v (record_count p) 0 j (omega arith) (omega arith) (omega arith)

        empty : (slot p j).0 ≡ tombstone → lookup p j ≡ none
        empty dead = unfold lookup in ground arith

        full : (slot p j).0 ≢ tombstone → lookup p j ≡ some (content p (slot p j).0 (slot p j).1)
        full alive = unfold lookup in ground arith

    counted : record_count result ≡ record_count p
    unfolding result
    counted = record_count-with_offset q' c' ∙ r.count

    offset_lem : record_region_offset result ≡ c'
    unfolding result
    offset_lem = offset-with_offset q' c' (omega (arith, r.size)) (omega (arith, cursor_lem))

    lengths_same : (j : ℕ) → j < record_count p → live_length result j ≡ live_length p j
    unfolding live_length
    lengths_same j lt = ground (arith, slot_cases j lt)

    total_lem : live_total result (record_count p) 0 ≡ live_total p (record_count p) 0
    total_lem =
        live_total-same p result (record_count p) 0 (λ j lo hi. lengths_same j (omega arith))

    result-slots : (j : ℕ) → j < record_count p → SlotIn result j
    result-slots j lt = elim (slot_cases j lt) [
      | inl (e, dead) ↦ rw e (inl dead)
      | inr (lo, hi, _, _, _) ↦ rw offset_lem (inr (lo, hi))
    ]

    result-lookup : (j : ℕ) → lookup result j ≡ lookup p j
    unfolding lookup
    result-lookup j = elim (dec_lt j (record_count p)) [
      | yes lt ↦ ground (arith, counted, slot_cases j lt)
      | no ge ↦ ground (arith, counted)
    ]

    deleted_same :
        (j : ℕ) → j < record_count p → ((slot result j).0 ≡ tombstone) ↔ ((slot p j).0 ≡ tombstone)
    deleted_same j lt = (λ d. ground (arith, slot_cases j lt), λ d. ground (arith, slot_cases j lt))

    result-reuses : reusable result ≡ reusable p
    unfolding reusable
    result-reuses =
        rw counted
          (first_free-same p result (record_count p) 0 (λ j lo hi. deleted_same j (omega arith)))

    result-Compacted : Compacted p result
    result-Compacted = record {
      valid = record {
        size = unfold result in (size-with_offset q' c' ∙ r.size);
        fits = rw (counted, offset_lem) cursor_fits;
        top = rw offset_lem (omega (arith, cursor_lem));
        slots = rw counted result-slots;
        room = rw (counted, offset_lem) (omega (arith, total_lem, cursor_lem));
      };
      same = result-lookup;
      count = counted;
      total = rw counted total_lem;
      tight = rw (counted, offset_lem) (omega (arith, total_lem, cursor_lem));
      reuses = result-reuses;
      title = unfold result in (title-with_offset q' c' ∙ r.title);
    }

    finished : relocate live p page_size ≡ ok (q', c') → compact p ≡ ok result
    unfolding compact result
    finished e = ground (
      arith,
      live_records-collected p v (record_count p) 0,
      set_record_region_offset-with_offset q' c',
      r.size,
    )

  relocated :
      (q' : Page) × (c' : ℕ) × (relocate live p page_size ≡ ok (q', c'))
      × Relocated live p page_size q' c'
  relocated =
      relocate-Relocated live p page_size 0
        (collected-Between p v (record_count p) 0 (record_count p) (omega arith)) v.size
        (omega arith)
        (omega (arith, bytes_of-collected p v (record_count p) 0 (omega arith), v.room, v.fits))

-- On a valid page `compact` never panics. Every slot holds the record that it held, the page stays
-- valid, and the records fill the page from the new start of their region to its end: no byte behind
-- that start is wasted.
pub compact-Compacted : (p : Page) → IsValid p → (q : Page) × (compact p ≡ ok q) × Compacted p q
compact-Compacted p v =
    let (q', c', e, r) = relocated p v in
    (result p v q' c' r, finished p v q' c' r e, result-Compacted p v q' c' r)
