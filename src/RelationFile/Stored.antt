-- ===== src/RelationFile/Stored.antt =====
-- What a file of pages holds, and the checksum in a page.
use meridian_space_academy_c.Prelude.{
  ℕ, ◌+◌, ◌-◌, ◌*◌, ◌^◌, ◌≤◌, ◌<◌, ◌≡◌, ◌≢◌, ◌∙◌, ◌⊎◌, inl, inr, refl, sym, ap, List, length, arith,
  lt→ltb,
}
use native.Mathlib.Decide.{dec_lt}
use meridian_space_academy_c.Bytes.Slice.{
  slice, splice, length-splice, slice-splice_self, slice-splice_behind,
}
use meridian_space_academy_c.Bytes.Word.{
  to_le_bytes, from_le_bytes, from_le_bytes-to_le_bytes, length-to_le_bytes,
}
use meridian_space_academy_c.Result.{ok, err, offset_overflow}
use meridian_space_academy_c.RelationFile.{offset_of}
use meridian_space_academy_c.Disk.{Fate, works, fails}
use meridian_space_academy_c.Disk.Overlay.{
  overlay, length-overlay_le, slice-overlay_apart, peek, peek-overlay_apart,
}

-- The page `k` of the file is there, and is `b`.
abbrev pub Holds : List ℕ → ℕ → ℕ → List ℕ → Type 0
Holds d page_size k b =
    (k * page_size + page_size ≤ length d) × (slice d (k * page_size) page_size ≡ b)

-- Two pages do not overlap.
pages_apart : (ps j k : ℕ) → j ≢ k → (j * ps + ps ≤ k * ps) ⊎ (k * ps + ps ≤ j * ps)
pages_apart ps j k ne = elim (dec_lt j k) [
  | yes lt ↦ inl (grind arith)
  | no ge ↦ let lt : k < j = omega arith in inr (grind arith)
]

-- A write inside another page leaves a page as it is, also where it was cut short.
pub Holds-overlay :
    (d : List ℕ) (ps j k : ℕ) (b bs : List ℕ)
    → j ≢ k
    → length bs ≤ ps
    → Holds d ps j b
    → Holds (overlay d (k * ps) bs) ps j b
Holds-overlay d ps j k b bs ne short (fits, same) = (
  omega (arith, fits, length-overlay_le d (k * ps) bs),
  slice-overlay_apart d (k * ps) bs (j * ps) ps fits
        (elim (pages_apart ps j k ne) [ inl before ↦ inl before | inr behind ↦ inr (omega arith) ])
      ∙ same,
)

pub peek-overlay_page :
    (d : List ℕ) (ps j k : ℕ) (bs : List ℕ)
    → j ≢ k
    → length bs ≤ ps
    → peek (overlay d (k * ps) bs) (j * ps) ps ≡ peek d (j * ps) ps
peek-overlay_page d ps j k bs ne short =
    peek-overlay_apart d (k * ps) bs (j * ps) ps
      (elim (pages_apart ps j k ne) [ inl before ↦ inl before | inr behind ↦ inr (omega arith) ])

module _ (hash : List ℕ → ℕ) where
  -- The checksum of the bytes behind the header.
  abbrev pub body_hash : List ℕ → ℕ
  body_hash b = hash (slice b 17 (length b - 17))

  abbrev pub IsVerified : List ℕ → Type 0
  IsVerified b = from_le_bytes (slice b 13 4) ≡ body_hash b

  -- The page with its checksum in the header.
  unfoldable pub stamp : List ℕ → List ℕ
  stamp b = splice b 13 (to_le_bytes 4 (body_hash b))

  pub length-stamp : (b : List ℕ) → length (stamp b) ≡ length b
  unfolding stamp
  length-stamp b = length-splice b 13 (to_le_bytes 4 (body_hash b))

  pub stamp-IsVerified : (b : List ℕ) → 17 ≤ length b → body_hash b < 2 ^ 32 → IsVerified (stamp b)
  unfolding stamp
  stamp-IsVerified b long small =
      let word = to_le_bytes 4 (body_hash b) in
      let four : length word ≡ 4 = length-to_le_bytes 4 (body_hash b) in
      let body : slice (splice b 13 word) 17 (length b - 17) ≡ slice b 17 (length b - 17) =
        slice-splice_behind b 13 word 17 (length b - 17) (omega (arith, four)) in
      ap from_le_bytes (slice-splice_self b 13 word 4 four (omega arith))
      ∙ from_le_bytes-to_le_bytes 4 (body_hash b) (omega arith)
      ∙ sym (
          ap (λ n. hash (slice (splice b 13 word) 17 (n - 17))) (length-splice b 13 word)
          ∙ ap hash body)

pub Fate-cases : (f : Fate) → (f ≡ works) ⊎ ((n : ℕ) × (c : ℕ) × (f ≡ fails n c))
Fate-cases works = inl refl
Fate-cases (fails n c) = inr (n, c, refl)

pub offset_of-small : (k ps : ℕ) → k * ps < 2 ^ 64 → offset_of k ps ≡ ok (k * ps)
unfolding offset_of
offset_of-small k ps lt = rw (lt→ltb (k * ps) (2 ^ 64) lt) refl

pub offset_of-big : (k ps : ℕ) → 2 ^ 64 ≤ k * ps → offset_of k ps ≡ err offset_overflow
unfolding offset_of
offset_of-big k ps big = ground (arith, big)
