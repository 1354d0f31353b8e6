-- ===== src/RelationFile/Access.antt =====
-- Reading the pages of project1/relation_file.rs.
use meridian_space_academy_c.Prelude.{
  ℕ, ◌+◌, ◌*◌, ◌^◌, ◌≤◌, ◌<◌, ◌≡◌, ◌∙◌, ◌⊎◌, inl, inr, refl, sym, List, length, arith,
}
use native.Mathlib.Decide.{dec_lt, ℕ_discrete}
use meridian_space_academy_c.Result.{
  Result, ok, err, device, unexpected_eof, offset_overflow, checksum_mismatch,
}
use meridian_space_academy_c.Bytes.Slice.{slice, length-slice}
use meridian_space_academy_c.Bytes.Word.{from_le_bytes}
use meridian_space_academy_c.Disk.{
  Fate, works, fails, fate_of, called, filled_from, read_exact_at-works, read_exact_at-fails,
}
use meridian_space_academy_c.Disk.Overlay.{splice_all}
use meridian_space_academy_c.RelationFile.{
  RelationFile, with_file, read_page, compute_checksum, verify, read_and_verify_page,
}
use meridian_space_academy_c.RelationFile.Stored.{
  Holds, body_hash, IsVerified, Fate-cases, offset_of-small, offset_of-big,
}

abbrev pub content : RelationFile → List ℕ
content rf = rf.file.content

abbrev pub fate : RelationFile → Fate
fate rf = fate_of rf.file.fates

module _ (hash : List ℕ → ℕ) where
  -- The outcome of `read_and_verify_page`: the file stays, and the answer tells why.
  pub record Reads (rf : RelationFile) (k : ℕ) (r : (RelationFile × List ℕ) × Result (Unit {0}))
      : Type 0 where
    pub same : content r.0.0 ≡ content rf
    pub size : r.0.0.page_size ≡ rf.page_size
    pub answer :
        ((r.1 ≡ ok tt) × Holds (content rf) rf.page_size k r.0.1 × IsVerified hash r.0.1)
        ⊎ (((s c : ℕ) × (b : List ℕ) × (r.1 ≡ err (checksum_mismatch k s c))
              × Holds (content rf) rf.page_size k b
              × (¬ IsVerified hash b))
            ⊎ (((r.1 ≡ err unexpected_eof)
                  × (length (content rf) < k * rf.page_size + rf.page_size))
                ⊎ (((r.1 ≡ err offset_overflow) × (2 ^ 64 ≤ k * rf.page_size))
                    ⊎ ((n : ℕ) × (c : ℕ) × (r.1 ≡ err (device c)) × (fate rf ≡ fails n c)))))

  verify-cases :
      (k : ℕ) (b : List ℕ)
      → 17 ≤ length b
      → ((verify hash k b ≡ ok tt) × IsVerified hash b)
        ⊎ ((s : ℕ) × (c : ℕ) × (verify hash k b ≡ err (checksum_mismatch k s c))
            × (¬ IsVerified hash b))
  unfolding verify compute_checksum
  verify-cases k b long = elim (ℕ_discrete (from_le_bytes (slice b 13 4)) (body_hash hash b)) [
    | yes e ↦ inl (ground (arith, e), e)
    | no ne ↦ inr (from_le_bytes (slice b 13 4), body_hash hash b, ground (arith, ne), ne)
  ]

  module _ (rf : RelationFile) (k : ℕ) (buf : List ℕ) (full : length buf ≡ rf.page_size)
      (long : 17 ≤ rf.page_size) where
    -- The page in the buffer, if it is in the file.
    filled :
        k * rf.page_size + rf.page_size ≤ length (content rf)
        → filled_from rf.file (k * rf.page_size) buf (length buf)
          ≡ slice (content rf) (k * rf.page_size) rf.page_size
    filled fits = rw full (
        splice_all buf (slice (content rf) (k * rf.page_size) rf.page_size)
          (length-slice (content rf) (k * rf.page_size) rf.page_size fits ∙ sym full))

    read_page-page :
        k * rf.page_size < 2 ^ 64
        → fate rf ≡ works
        → k * rf.page_size + rf.page_size ≤ length (content rf)
        → read_page rf k buf ≡ (
          (with_file rf (called rf.file), slice (content rf) (k * rf.page_size) rf.page_size),
          ok tt,
        )
    unfolding read_page
    read_page-page lt e fits = ground (
      arith,
      offset_of-small k rf.page_size lt,
      full,
      read_exact_at-works rf.file (k * rf.page_size) buf e,
      filled fits,
      fits,
    )

    read_page-eof :
        k * rf.page_size < 2 ^ 64
        → fate rf ≡ works
        → length (content rf) < k * rf.page_size + rf.page_size
        → read_page rf k buf ≡ (
          (with_file rf (called rf.file), filled_from rf.file (k * rf.page_size) buf (length buf)),
          err unexpected_eof,
        )
    unfolding read_page
    read_page-eof lt e short = ground (
      arith,
      offset_of-small k rf.page_size lt,
      full,
      read_exact_at-works rf.file (k * rf.page_size) buf e,
      short,
    )

    read_page-fails :
        (n c : ℕ)
        → k * rf.page_size < 2 ^ 64
        → fate rf ≡ fails n c
        → read_page rf k buf ≡ (
          (with_file rf (called rf.file), filled_from rf.file (k * rf.page_size) buf n),
          err (device c),
        )
    unfolding read_page
    read_page-fails n c lt e = ground (
      arith,
      offset_of-small k rf.page_size lt,
      full,
      read_exact_at-fails rf.file (k * rf.page_size) buf n c e,
    )

    read_page-overflow :
        2 ^ 64 ≤ k * rf.page_size → read_page rf k buf ≡ ((rf, buf), err offset_overflow)
    unfolding read_page
    read_page-overflow big = ground (arith, offset_of-big k rf.page_size big, full)

    Reads-page :
        k * rf.page_size < 2 ^ 64
        → fate rf ≡ works
        → k * rf.page_size + rf.page_size ≤ length (content rf)
        → Reads rf k (read_and_verify_page hash rf k buf)
    unfolding read_and_verify_page
    Reads-page lt e fits =
        let b = slice (content rf) (k * rf.page_size) rf.page_size in
        let size : length b ≡ rf.page_size =
          length-slice (content rf) (k * rf.page_size) rf.page_size fits in
        rw (read_page-page lt e fits) (record {
          same = refl;
          size = refl;
          answer = elim (verify-cases k b (omega (arith, size, long))) [
            | inl (r, good) ↦ inl (r, (fits, refl), good)
            | inr (s, c, r, bad) ↦ inr (inl (s, c, b, r, (fits, refl), bad))
          ];
        })

    -- `read_and_verify_page` into a buffer of a page never panics and leaves the file as it was. It
    -- succeeds exactly with the page of the file, whose checksum is right; an error says that it is not,
    -- that the file ends before the page, that the offset overflows, or that the system refused.
    pub read_and_verify_page-Reads : Reads rf k (read_and_verify_page hash rf k buf)
    unfolding read_and_verify_page
    read_and_verify_page-Reads = elim (dec_lt (k * rf.page_size) (2 ^ 64)) [
      | no big ↦
          let big' : 2 ^ 64 ≤ k * rf.page_size = omega arith in
          rw (read_page-overflow big')
            (record { same = refl; size = refl; answer = inr (inr (inr (inl (refl, big')))) })
      | yes lt ↦ elim (Fate-cases (fate rf)) [
        | inr (n, c, e) ↦
            rw (read_page-fails n c lt e)
              (record { same = refl; size = refl; answer = inr (inr (inr (inr (n, c, refl, e)))) })
        | inl e ↦ elim (dec_lt (length (content rf)) (k * rf.page_size + rf.page_size)) [
          | yes short ↦
              rw (read_page-eof lt e short)
                (record { same = refl; size = refl; answer = inr (inr (inl (refl, short))) })
          | no fits ↦ Reads-page lt e (omega arith)
        ]
      ]
    ]
