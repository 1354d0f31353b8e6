-- ===== src/RelationFile/Allocate.antt =====
-- `page_count` and `allocate_page` of project1/relation_file.rs.
use meridian_space_academy_c.Prelude.{
  ℕ, ◌*◌, ◌/◌, ◌%◌, ◌^◌, ◌<◌, ◌≡◌, ◌∙◌, ◌⊎◌, inl, inr, refl, sym, ap, List, length, replicate,
  length-replicate, arith,
}
use native.Mathlib.Decide.{dec_lt, ℕ_discrete}
use meridian_space_academy_c.Result.{
  Result, ok, err, Error, device, misaligned_file, too_many_pages,
}
use meridian_space_academy_c.Bytes.Slice.{slice}
use meridian_space_academy_c.Disk.{
  File, fate_of, called, metadata_len, metadata_len-works, metadata_len-fails, write_all_at-works,
  write_all_at-fails,
}
use meridian_space_academy_c.Disk.Overlay.{
  overlay, slice-overlay_self, slice-overlay_apart, length-overlay_le,
}
use meridian_space_academy_c.PageStore.{PageId}
use meridian_space_academy_c.RelationFile.{RelationFile, with_file, page_count, allocate_page}
use meridian_space_academy_c.RelationFile.Stored.{Holds, Fate-cases}
use meridian_space_academy_c.RelationFile.Access.{content}
use meridian_space_academy_c.RelationFile.Write.{overlay_reaches}

-- The outcome of `allocate_page`: no page changes, and without an error there is one page more, of
-- zeros, whose number is the count of the pages before.
pub record Allocated (rf rf' : RelationFile) (r : Result PageId) : Type 0 where
  pub others :
      (j : ℕ) (c : List ℕ)
      → Holds (content rf) rf.page_size j c
      → Holds (content rf') rf.page_size j c
  pub answer :
      ((k : ℕ) × (r ≡ ok (record { relation_id = rf.relation_id; page_no = k }))
        × (length (content rf) ≡ k * rf.page_size)
        × Holds (content rf') rf.page_size k (replicate rf.page_size 0))
      ⊎ ((e : Error) × (r ≡ err e))

metadata_len-cases :
    (f : File)
    → (metadata_len f ≡ (called f, ok (length f.content)))
      ⊎ ((e : Error) × (metadata_len f ≡ (called f, err e)))
metadata_len-cases f = elim (Fate-cases (fate_of f.fates)) [
  | inl e ↦ inl (metadata_len-works f e)
  | inr (n, c, e) ↦ inr (device c, metadata_len-fails f n c e)
]

page_count-cases :
    (rf : RelationFile)
    → 0 < rf.page_size
    → ((k : ℕ) × (page_count rf ≡ (with_file rf (called rf.file), ok k))
        × (length (content rf) ≡ k * rf.page_size))
      ⊎ ((e : Error) × (page_count rf ≡ (with_file rf (called rf.file), err e)))
unfolding page_count
page_count-cases rf pos = elim (metadata_len-cases rf.file) [
  | inr (e, failed) ↦ inr (e, rw failed refl)
  | inl counted ↦ elim (ℕ_discrete (length (content rf) % rf.page_size) 0) [
    | no ne ↦ inr (misaligned_file, rw counted (ground (arith, ne, pos)))
    | yes even ↦ elim (dec_lt (length (content rf) / rf.page_size) (2 ^ 32)) [
      | yes lt ↦ inl (
        length (content rf) / rf.page_size,
        rw counted (ground (arith, even, pos, lt)),
        grind (arith, even, pos),
      )
      | no ge ↦ inr (too_many_pages, rw counted (ground (arith, even, pos, ge)))
    ]
  ]
]

module _ (rf : RelationFile) (pos : 0 < rf.page_size) where
  abbrev Allocates : RelationFile × Result PageId → Type 0
  Allocates x = Allocated rf x.0 x.1

  Allocated-failed :
      (rf' : RelationFile) (e : Error) → content rf' ≡ content rf → Allocates (rf', err e)
  Allocated-failed rf' e same = record { others = λ j c h. rw same h; answer = inr (e, refl) }

  -- The pages in the file end before the place where the new one is written.
  kept :
      (bs : List ℕ) (j : ℕ) (c : List ℕ)
      → Holds (content rf) rf.page_size j c
      → Holds (overlay (content rf) (length (content rf)) bs) rf.page_size j c
  kept bs j c (fits, same) = (
    omega (arith, fits, length-overlay_le (content rf) (length (content rf)) bs),
    slice-overlay_apart (content rf) (length (content rf)) bs (j * rf.page_size) rf.page_size fits
          (inl fits)
        ∙ same,
  )

  abbrev zeros : List ℕ
  zeros = replicate rf.page_size 0

  grown :
      (f : File) (k : ℕ)
      → length (content rf) ≡ k * rf.page_size
      → Allocates (
        with_file rf (record f { content = overlay (content rf) (length (content rf)) zeros }),
        ok (record { relation_id = rf.relation_id; page_no = k }),
      )
  grown f k e =
      let size : length zeros ≡ rf.page_size = length-replicate rf.page_size 0 in
      record {
        others = kept zeros;
        answer = inl (
          k,
          refl,
          e,
          (
            omega (
              arith,
              e,
              size,
              overlay_reaches (content rf) (length (content rf)) zeros (omega (arith, size, pos)),
            ),
            ap (λ a. slice (overlay (content rf) (length (content rf)) zeros) a rf.page_size)
                  (sym e)
                ∙ ap
                    (slice (overlay (content rf) (length (content rf)) zeros) (length (content rf)))
                    (sym size)
                ∙ slice-overlay_self (content rf) (length (content rf)) zeros,
          ),
        );
      }

  -- `allocate_page` for a page size above 0 never panics. Without an error the file had a whole
  -- number of pages, which is the number of the new page, and that page is zeros; no other page
  -- changes, with or without an error.
  pub allocate_page-Allocated : Allocates (allocate_page rf)
  unfolding allocate_page
  allocate_page-Allocated = elim (metadata_len-cases rf.file) [
    | inr (e, failed) ↦ rw (failed, allocate_page) (Allocated-failed _ e refl)
    | inl counted ↦
        let f1 = called rf.file in
        elim (page_count-cases (with_file rf f1) pos) [
          | inr (e, failed) ↦ rw (counted, failed, allocate_page) (Allocated-failed _ e refl)
          | inl (k, pages, size) ↦
              let f2 = called f1 in
              elim (Fate-cases (fate_of f2.fates)) [
                | inl e ↦
                    rw
                      (
                        counted,
                        pages,
                        write_all_at-works f2 (length (content rf)) zeros e,
                        allocate_page,
                      )
                      (grown (called f2) k size)
                | inr (n, c, e) ↦
                    rw
                      (
                        counted,
                        pages,
                        write_all_at-fails f2 (length (content rf)) zeros n c e,
                        allocate_page,
                      )
                      (record { others = kept (slice zeros 0 n); answer = inr (device c, refl) })
              ]
        ]
  ]
