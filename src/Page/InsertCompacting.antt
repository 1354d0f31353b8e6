-- ===== src/Page/InsertCompacting.antt =====
-- `insert_compacting` of project1/page.rs on a valid page.
use meridian_space_academy_c.Prelude.{
  ℕ, ◌+◌, ◌≤◌, ◌<◌, ◌≡◌, ◌∙◌, ◌⊎◌, inl, inr, none, some, List, length, arith,
}
use native.Mathlib.Decide.{dec_le}
use meridian_space_academy_c.Config.{page_size}
use meridian_space_academy_c.Result.{ok}
use meridian_space_academy_c.Page.{
  Page, record_count, slot_base, free_space, needed_for, compact, insert, insert_compacting,
}
use meridian_space_academy_c.Page.Valid.{
  IsValid, live_total, find_tombstone-first_free, sum_live-live_total,
}
use meridian_space_academy_c.Page.Fill.{Inserted}
use meridian_space_academy_c.Page.Insert.{reusable, insert-Inserted}
use meridian_space_academy_c.Page.Compact.{Compacted, compact-Compacted}

-- The bytes of the directory, of the records, and of what a new record wants.
abbrev pub demand : Page → List ℕ → ℕ
demand p bytes =
    slot_base (record_count p) + live_total p (record_count p) 0 + needed_for bytes (reusable p)

module _ (p : Page) (bytes : List ℕ) (v : IsValid p) where
  needed-le : length bytes ≤ needed_for bytes (reusable p)
  needed-le = ground arith

  -- The refusal of `insert`, and the test that follows it.
  too_big : page_size < demand p bytes → insert_compacting p bytes ≡ ok (p, none)
  unfolding insert_compacting free_space reusable
  too_big big = elim (insert-Inserted p bytes v) [
    | inl (less, e) ↦ ground (
      arith,
      e,
      find_tombstone-first_free p (record_count p) 0,
      sum_live-live_total p (record_count p) 0,
      v.size,
      v.fits,
      v.top,
      v.room,
    )
    | inr (room, q, i, e, filled) ↦ absurd (omega (arith, v.room, v.fits))
  ]

  Inserted-Compacted :
      {q q' : Page} {i : ℕ} → Compacted p q → Inserted q bytes q' i → Inserted p bytes q' i
  Inserted-Compacted {i = i} c f = record {
    valid = f.valid;
    fresh = rw (← c.same i) f.fresh;
    reads = λ j. rw (← c.same j) (f.reads j);
    title = f.title ∙ c.title;
  }

  -- After the compaction the record goes in.
  after_compact :
      {q : Page}
      → Compacted p q
      → demand p bytes ≤ page_size
      → (q' : Page) × (i : ℕ) × (insert q bytes ≡ ok (q', some i)) × Inserted q bytes q' i
  unfolding free_space
  after_compact {q} c small = elim (insert-Inserted q bytes c.valid) [
    | inr (room, q', i, e, filled) ↦ (q', i, e, filled)
    | inl (less, e) ↦
        let less' : free_space q < needed_for bytes (reusable p) = rw c.reuses at less in
        absurd (omega (arith, c.tight, c.total, c.count))
  ]

  compacting :
      {q q' : Page} {i : ℕ}
      → demand p bytes ≤ page_size
      → insert p bytes ≡ ok (p, none)
      → compact p ≡ ok q
      → insert q bytes ≡ ok (q', some i)
      → insert_compacting p bytes ≡ ok (q', some i)
  unfolding insert_compacting free_space reusable
  compacting small e c e' = ground (
    arith,
    find_tombstone-first_free p (record_count p) 0,
    sum_live-live_total p (record_count p) 0,
    needed-le,
    v.size,
    v.fits,
    v.top,
    v.room,
  )

  fits :
      demand p bytes ≤ page_size
      → (q : Page) × (i : ℕ) × (insert_compacting p bytes ≡ ok (q, some i)) × Inserted p bytes q i
  fits small = elim (insert-Inserted p bytes v) [
    | inr (room, q, i, e, filled) ↦ (q, i, unfold insert_compacting in ground (arith, e), filled)
    | inl (less, e) ↦
        let (q, done, c) = compact-Compacted p v in
        let (q', i, e', filled) = after_compact c small in
        (q', i, compacting small e done e', Inserted-Compacted c filled)
  ]

-- On a valid page `insert_compacting` never panics. It refuses a record, and leaves the page as it
-- was, exactly when the header, the directory, the records and what the new record wants (its bytes,
-- and four for a slot if no deleted one is there) are more than the page. Otherwise it fills one slot
-- that held nothing, changes no other record, and the page stays valid.
pub insert_compacting-Inserted :
    (p : Page) (bytes : List ℕ)
    → IsValid p
    → ((page_size < demand p bytes) × (insert_compacting p bytes ≡ ok (p, none)))
      ⊎ ((demand p bytes ≤ page_size)
          × (q : Page) × (i : ℕ) × (insert_compacting p bytes ≡ ok (q, some i))
          × Inserted p bytes q i)
insert_compacting-Inserted p bytes v = elim (dec_le (demand p bytes) page_size) [
  | yes small ↦ let (q, i, e, filled) = fits p bytes v small in inr (small, q, i, e, filled)
  | no big ↦ inl (omega arith, too_big p bytes v (omega arith))
]
