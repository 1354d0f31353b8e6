-- ===== src/RelationFile/Write.antt =====
-- Writing the pages of project1/relation_file.rs.
use meridian_space_academy_c.Prelude.{
  ℕ, ◌+◌, ◌*◌, ◌^◌, ◌≤◌, ◌<◌, ◌≡◌, ◌≢◌, ◌∙◌, ◌⊎◌, inl, inr, refl, sym, ap, List, [], ◌∷◌, length,
  arith,
}
use native.Mathlib.Decide.{dec_lt}
use meridian_space_academy_c.Result.{Result, ok, err, Error, ◌>>=◌, offset_overflow, device}
use meridian_space_academy_c.Bytes.Slice.{slice, length-slice_le}
use meridian_space_academy_c.Bytes.Word.{to_le_bytes, length-to_le_bytes}
use meridian_space_academy_c.Bytes.Buffer.{copy_from_slice, copy_from_slice_fits}
use meridian_space_academy_c.Disk.{File, called, write_all_at-works, write_all_at-fails}
use meridian_space_academy_c.Disk.Overlay.{overlay, peek, slice-overlay_self, length-overlay}
use meridian_space_academy_c.RelationFile.{
  RelationFile, with_file, write_page, compute_checksum, read_and_verify_page,
  write_page_with_checksum,
}
use meridian_space_academy_c.RelationFile.Stored.{
  Holds, Holds-overlay, peek-overlay_page, body_hash, stamp, length-stamp, stamp-IsVerified,
  Fate-cases, offset_of-small, offset_of-big,
}
use meridian_space_academy_c.RelationFile.Access.{content, fate, Reads, read_and_verify_page-Reads}

-- The outcome of writing the bytes `b` to the page `k`: no other page changes, and without an error
-- the page is `b`.
pub record Stores (rf : RelationFile) (k : ℕ) (b : List ℕ) (rf' : RelationFile)
    (r : Result (Unit {0})) : Type 0 where
  pub size : rf'.page_size ≡ rf.page_size
  pub others :
      (j : ℕ) (c : List ℕ)
      → j ≢ k
      → Holds (content rf) rf.page_size j c
      → Holds (content rf') rf.page_size j c
  -- Nor does what a page would have if the file grew over it.
  pub pages :
      (j : ℕ)
      → j ≢ k
      → peek (content rf') (j * rf.page_size) rf.page_size
        ≡ peek (content rf) (j * rf.page_size) rf.page_size
  pub answer :
      ((r ≡ ok tt) × Holds (content rf') rf.page_size k b × (k * rf.page_size < 2 ^ 64))
      ⊎ ((e : Error) × (r ≡ err e))

pub overlay_reaches :
    (d : List ℕ) (a : ℕ) (bs : List ℕ) → 0 < length bs → a + length bs ≤ length (overlay d a bs)
overlay_reaches d a [] pos = absurd (omega arith)
overlay_reaches d a (b ∷ bs) pos = omega (arith, length-overlay d a b bs)

module _ (rf : RelationFile) (k : ℕ) (b : List ℕ) (full : length b ≡ rf.page_size)
    (some_bytes : 0 < rf.page_size) where
  written : File → File
  written f = record f { content = overlay (content rf) (k * rf.page_size) b }

  Stores-written :
      (f : File) → k * rf.page_size < 2 ^ 64 → Stores rf k b (with_file rf (written f)) (ok tt)
  unfolding written
  Stores-written f lt = record {
    size = refl;
    others = λ j c ne h. Holds-overlay (content rf) rf.page_size j k c b ne (omega arith) h;
    pages = λ j ne. peek-overlay_page (content rf) rf.page_size j k b ne (omega arith);
    answer = inl (
      refl,
      (
        omega (arith, overlay_reaches (content rf) (k * rf.page_size) b (omega arith)),
        ap (λ n. slice (overlay (content rf) (k * rf.page_size) b) (k * rf.page_size) n) (sym full)
            ∙ slice-overlay_self (content rf) (k * rf.page_size) b,
      ),
      lt,
    );
  }

  Stores-torn :
      (f : File) (n : ℕ) (e : Error)
      → Stores rf k b
          (with_file rf
            (record f { content = overlay (content rf) (k * rf.page_size) (slice b 0 n) }))
          (err e)
  Stores-torn f n e = record {
    size = refl;
    others = λ j c ne h.
        Holds-overlay (content rf) rf.page_size j k c (slice b 0 n) ne
          (omega (arith, length-slice_le b 0 n)) h;
    pages = λ j ne.
        peek-overlay_page (content rf) rf.page_size j k (slice b 0 n) ne
          (omega (arith, length-slice_le b 0 n));
    answer = inr (e, refl);
  }

  abbrev StoredBy : RelationFile × Result (Unit {0}) → Type 0
  StoredBy x = Stores rf k b x.0 x.1

  write_page-Stores : StoredBy (write_page rf k b)
  unfolding write_page
  write_page-Stores = elim (dec_lt (k * rf.page_size) (2 ^ 64)) [
    | no big ↦
        let eq : write_page rf k b ≡ (rf, err offset_overflow) =
          ground (arith, offset_of-big k rf.page_size (omega arith), full) in
        rw eq (record {
          size = refl;
          others = λ j c ne h. h;
          pages = λ j ne. refl;
          answer = inr (offset_overflow, refl);
        })
    | yes lt ↦ elim (Fate-cases (fate rf)) [
      | inl e ↦
          let eq : write_page rf k b ≡ (with_file rf (written (called rf.file)), ok tt) =
            unfold written in
            ground (
              arith,
              offset_of-small k rf.page_size lt,
              full,
              write_all_at-works rf.file (k * rf.page_size) b e,
            ) in
          rw eq (Stores-written (called rf.file) lt)
      | inr (n, c, e) ↦
          let f = record (called rf.file) {
            content = overlay (content rf) (k * rf.page_size) (slice b 0 n);
          } in
          let eq : write_page rf k b ≡ (with_file rf f, err (device c)) = ground (
            arith,
            offset_of-small k rf.page_size lt,
            full,
            write_all_at-fails rf.file (k * rf.page_size) b n c e,
          ) in
          rw eq (Stores-torn (called rf.file) n (device c))
    ]
  ]

module _ (hash : List ℕ → ℕ) (rf : RelationFile) (k : ℕ) (buf : List ℕ)
    (full : length buf ≡ rf.page_size) (long : 17 ≤ rf.page_size) where
  pub stamped :
      (compute_checksum hash buf >>= λ c. copy_from_slice buf 13 (to_le_bytes 4 c))
      ≡ ok (stamp hash buf)
  unfolding compute_checksum stamp
  stamped = ground (
    arith,
    full,
    long,
    copy_from_slice_fits buf 13 (to_le_bytes 4 (body_hash hash buf)),
    length-to_le_bytes 4 (body_hash hash buf),
  )

  -- `write_page_with_checksum` on a buffer of a page never panics, and puts the checksum into the
  -- buffer. Without an error the page in the file is that buffer; with one, all other pages are as
  -- they were, even if the write was cut short.
  pub write_page_with_checksum-Stores :
      let r = write_page_with_checksum hash rf k buf in
      (r.0.1 ≡ stamp hash buf) × Stores rf k (stamp hash buf) r.0.0 r.1
  unfolding write_page_with_checksum
  write_page_with_checksum-Stores =
      rw (stamped, write_page_with_checksum)
        (refl, write_page-Stores rf k (stamp hash buf) (length-stamp hash buf ∙ full) (omega arith))

module _ (hash : List ℕ → ℕ) (small : (b : List ℕ) → hash b < 2 ^ 32) (rf : RelationFile) (k : ℕ)
    (buf into : List ℕ) (full : length buf ≡ rf.page_size) (full' : length into ≡ rf.page_size)
    (long : 17 ≤ rf.page_size) where
  abbrev after_write : (RelationFile × List ℕ) × Result (Unit {0})
  after_write = write_page_with_checksum hash rf k buf

  abbrev then_read : (RelationFile × List ℕ) × Result (Unit {0})
  then_read = read_and_verify_page hash after_write.0.0 k into

  Reads-Stores :
      Stores rf k (stamp hash buf) after_write.0.0 after_write.1
      → Reads hash after_write.0.0 k then_read
      → after_write.1 ≡ ok tt
      → ((then_read.1 ≡ ok tt) × (then_read.0.1 ≡ stamp hash buf))
        ⊎ ((c : ℕ) × (then_read.1 ≡ err (device c)))
  Reads-Stores w r e = elim w.answer [
    | inr (er, e') ↦ absurd (ground (arith, e, e'))
    | inl (_, (fits, holds), lt) ↦ elim r.answer [
      | inl (done, (_, there), _) ↦
          inl (done, sym there ∙ ap (λ n. slice (content after_write.0.0) (k * n) n) w.size ∙ holds)
      | inr (inl (s, c, b, _, (_, there), bad)) ↦
          let same : b ≡ stamp hash buf =
            sym there ∙ ap (λ n. slice (content after_write.0.0) (k * n) n) w.size ∙ holds in
          absurd (bad (rw same (stamp-IsVerified hash buf (omega arith) (small _))))
      | inr (inr (inl (_, short))) ↦ absurd (grind (arith, rw w.size at short, fits))
      | inr (inr (inr (inl (_, big)))) ↦ absurd (grind (arith, rw w.size at big, lt))
      | inr (inr (inr (inr (n, c, failed, _)))) ↦ inr (c, failed)
    ]
  ]

  -- With a hash of 32 bits: after a `write_page_with_checksum` that succeeds, a
  -- `read_and_verify_page` of the same page into any buffer of a page gives the bytes that were
  -- written, with their checksum in the header, unless the system refuses the read.
  pub read-write_page :
      after_write.1 ≡ ok tt
      → ((then_read.1 ≡ ok tt) × (then_read.0.1 ≡ stamp hash buf))
        ⊎ ((c : ℕ) × (then_read.1 ≡ err (device c)))
  read-write_page =
      let (_, w) = write_page_with_checksum-Stores hash rf k buf full long in
      Reads-Stores w (
        read_and_verify_page-Reads hash after_write.0.0 k into (full' ∙ sym w.size)
          (omega (arith, w.size)))
