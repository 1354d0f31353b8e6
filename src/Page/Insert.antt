-- ===== src/Page/Insert.antt =====
-- `insert` of project1/page.rs on a valid page.
use meridian_space_academy_c.Prelude.{
  ℕ, ◌+◌, ◌≤◌, ◌<◌, ◌≡◌, refl, ◌∙◌, ◌⊎◌, inl, inr, Option, none, some, List, length, arith,
  Option-cases,
}
use native.Mathlib.Decide.{dec_lt}
use meridian_space_academy_c.Result.{ok}
use meridian_space_academy_c.Page.{
  Page, record_count, record_region_offset, find_tombstone, slot_base, free_space, needed_for,
  take_slot, place, insert,
}
use meridian_space_academy_c.Page.Writes.{
  with_count, set_record_count-with_count, size-with_count, slot-with_count, content-with_count,
  record_count-with_count, offset-with_count, title-with_count,
}
use meridian_space_academy_c.Page.Valid.{
  live_length, IsValid, lookup, first_free, find_tombstone-first_free, first_free-some,
  live_total-suc,
}
use meridian_space_academy_c.Page.Place.{placed, place-placed}
use meridian_space_academy_c.Page.Fill.{Inserted, placed-Inserted}

-- The slot that `insert` reuses, if there is one.
unfoldable pub reusable : Page → Option ℕ
reusable p = first_free p (record_count p) 0

module _ (p : Page) (bytes : List ℕ) (v : IsValid p) where
  found : find_tombstone p (record_count p) 0 ≡ ok (reusable p)
  unfolding reusable
  found = find_tombstone-first_free p (record_count p) 0 (omega (arith, v.fits, v.top, v.size))

  -- A deleted slot is taken again.
  reuse :
      (i : ℕ)
      → reusable p ≡ some i
      → length bytes ≤ free_space p
      → (place p i bytes ≡ ok (placed p i bytes)) × Inserted p bytes (placed p i bytes) i
  unfolding reusable lookup live_length free_space
  reuse i e h =
      let (lo, hi, dead) = first_free-some p (record_count p) 0 i e in
      let fits : slot_base (record_count p) + length bytes ≤ record_region_offset p =
        omega (arith, v.fits) in
      (
        place-placed p i bytes v.size (omega arith) v.top,
        placed-Inserted p v i (record_count p) bytes p v.size refl refl (omega arith) (omega arith)
            (λ j lt ne. lt) fits (λ j. refl) (λ a n h. refl) (ground arith) (ground arith) refl,
      )

  -- Otherwise the directory grows by one.
  grow :
      length bytes + 4 ≤ free_space p
      → let p' = with_count p (record_count p + 1) in
        (take_slot p none (record_count p) ≡ ok (p', record_count p))
        × (place p' (record_count p) bytes ≡ ok (placed p' (record_count p) bytes))
        × Inserted p bytes (placed p' (record_count p) bytes) (record_count p)
  unfolding lookup free_space take_slot
  grow h =
      let count = record_count p in
      let p' = with_count p (count + 1) in
      let size = size-with_count p (count + 1) ∙ v.size in
      let counts =
        record_count-with_count p (count + 1) (omega (arith, v.size)) (omega (arith, v.top)) in
      let offsets = offset-with_count p (count + 1) in
      let fits : slot_base (count + 1) + length bytes ≤ record_region_offset p =
        omega (arith, v.fits) in
      (
        ground (arith, set_record_count-with_count p (count + 1), v.size, v.top),
        place-placed p' count bytes size (omega (arith, offsets)) (omega (arith, offsets, v.top)),
        placed-Inserted p v count (count + 1) bytes p' size counts offsets (omega arith)
            (omega arith) (λ j lt ne. omega arith) fits (slot-with_count p (count + 1))
            (content-with_count p (count + 1)) (ground (arith, live_total-suc p count 0))
            (ground arith) (title-with_count p (count + 1)),
      )

  refused : free_space p < needed_for bytes (reusable p) → insert p bytes ≡ ok (p, none)
  unfolding insert
  refused less = ground (arith, found)

  free_space-le : free_space p ≤ 4096
  unfolding free_space
  free_space-le = omega (arith, v.top)

  accepted :
      needed_for bytes (reusable p) ≤ free_space p
      → (q : Page) × (i : ℕ) × (insert p bytes ≡ ok (q, some i)) × Inserted p bytes q i
  unfolding insert
  accepted room = elim (Option-cases (reusable p)) [
    | inr (i, e) ↦
        let (placing, filled) = reuse i e (rw e at room) in
        let taken : take_slot p (some i) (record_count p) ≡ ok (p, i) = unfold take_slot in refl in
        (placed p i bytes, i, ground (arith, found, e, taken, placing, free_space-le), filled)
    | inl e ↦
        let (taken, placing, filled) = grow (rw e at room) in
        (
          placed (with_count p (record_count p + 1)) (record_count p) bytes,
          record_count p,
          ground (arith, found, e, taken, placing, free_space-le),
          filled,
        )
  ]

-- On a valid page `insert` never panics. It refuses a record, and leaves the page as it was, exactly
-- when the free space is less than the record's length, with four bytes more for a new slot if no
-- deleted one is there. Otherwise it fills one slot that held nothing, changes no other record, and
-- the page stays valid.
pub insert-Inserted :
    (p : Page) (bytes : List ℕ)
    → IsValid p
    → ((free_space p < needed_for bytes (reusable p)) × (insert p bytes ≡ ok (p, none)))
      ⊎ ((needed_for bytes (reusable p) ≤ free_space p)
          × (q : Page) × (i : ℕ) × (insert p bytes ≡ ok (q, some i))
          × Inserted p bytes q i)
insert-Inserted p bytes v = elim (dec_lt (free_space p) (needed_for bytes (reusable p))) [
  | yes less ↦ inl (less, refused p bytes v less)
  | no room ↦
      let enough : needed_for bytes (reusable p) ≤ free_space p = omega arith in
      let (q, i, e, filled) = accepted p bytes v enough in inr (enough, q, i, e, filled)
]
