-- ===== src/PageFile/Total.antt =====
-- The answers of the reads and writes of part1/page.rs, whatever the system refuses.
use meridian_space_academy_c.Prelude.{
  ℕ, ◌+◌, ◌-◌, ◌*◌, ◌^◌, ◌≤◌, ◌<◌, ◌≡◌, ◌∙◌, ◌⊎◌, inl, inr, refl, List, length, arith, lt→ltb, leb,
  Bool-cases,
}
use meridian_space_academy_c.Result.{Result, ok, err, Error, checksum_mismatch, ◌>>=◌}
use meridian_space_academy_c.Bytes.Slice.{slice, length-splice}
use meridian_space_academy_c.Bytes.Word.{to_le_bytes, from_le_bytes}
use meridian_space_academy_c.Bytes.Buffer.{copy_from_slice}
use meridian_space_academy_c.Disk.{
  fate_of, File, seek_start, read_exact, read_exact_at, write_all, write_all_at,
}
use meridian_space_academy_c.RelationFile
use meridian_space_academy_c.RelationFile.Write.{stamped}
use meridian_space_academy_c.RelationFile.Stored.{Fate-cases, stamp, length-stamp}
use native.Mathlib.Decide.{ℕ_discrete}
use meridian_space_academy_c.PageFile.{
  PageFile, with_file, offset_of, seek_page, read_page, write_page, compute_checksum, verify,
  read_and_verify_page, write_page_with_checksum,
}

-- A call answers: it leaves a state of which `P` holds, and gives a value or an error.
abbrev pub Answers : {X : Type 0} → (X → Type 0) → X × Result (Unit {0}) → Type 0
Answers P x = P x.0 × ((x.1 ≡ ok tt) ⊎ ((e : Error) × (x.1 ≡ err e)))

-- The page size stays.
abbrev pub Sized : ℕ → PageFile → Type 0
Sized ps pf = pf.page_size ≡ ps

-- So does the length of the buffer, which is a page.
abbrev pub Roomy : ℕ → PageFile × List ℕ → Type 0
Roomy ps x = (x.0.page_size ≡ ps) × (length x.1 ≡ ps)

-- The last part of an answer.
abbrev Says : Result (Unit {0}) → Type 0
Says r = (r ≡ ok tt) ⊎ ((e : Error) × (r ≡ err e))

read_exact-answers :
    (f : File) (buf : List ℕ)
    → (length (read_exact f buf).0.1 ≡ length buf) × Says (read_exact f buf).1
unfolding read_exact read_exact_at
read_exact-answers f buf = elim (Fate-cases (fate_of f.fates)) [
  | inl w ↦ elim (Bool-cases (leb (f.cursor + length buf) (length f.content))) [
    | inl t ↦ rw (w, read_exact, read_exact_at, t) (length-splice buf 0 _, inl refl)
    | inr t ↦ rw (w, read_exact, read_exact_at, t) (length-splice buf 0 _, inr (_, refl))
  ]
  | inr (n, c, w) ↦ rw (w, read_exact, read_exact_at) (length-splice buf 0 _, inr (_, refl))
]

write_all-answers : (f : File) (buf : List ℕ) → Says (write_all f buf).1
unfolding write_all write_all_at
write_all-answers f buf = elim (Fate-cases (fate_of f.fates)) [
  | inl w ↦ rw (w, write_all, write_all_at) (inl refl)
  | inr (n, c, w) ↦ rw (w, write_all, write_all_at) (inr (_, refl))
]

module _ (pf : PageFile) (k : ℕ) (fits : k * pf.page_size < 2 ^ 64) where
  sought :
      (len : ℕ)
      → len ≡ pf.page_size
      → seek_page pf k len
        ≡ (let (f, r) = seek_start pf.file (k * pf.page_size) in (with_file pf f, r >>= λ _. ok tt))
  unfolding seek_page offset_of
  sought len full = ground (arith, full, lt→ltb (k * pf.page_size) (2 ^ 64) fits)

  seek_page-Answers :
      (len : ℕ) → len ≡ pf.page_size → Answers (Sized pf.page_size) (seek_page pf k len)
  unfolding seek_start
  seek_page-Answers len full = rw (sought len full) (elim (Fate-cases (fate_of pf.file.fates)) [
    | inl e ↦ rw (e, seek_start) (refl, inl refl)
    | inr (n, c, e) ↦ rw (e, seek_start) (refl, inr (_, refl))
  ])

  read_page-Answers :
      (buf : List ℕ) → length buf ≡ pf.page_size → Answers (Roomy pf.page_size) (read_page pf k buf)
  unfolding read_page
  read_page-Answers buf full =
      let sp = seek_page pf k (length buf) in
      let (size, how) = seek_page-Answers (length buf) full in
      elim how [
        | inr (c, e) ↦ rw (e, read_page) ((size, full), inr (c, refl))
        | inl e ↦
            let (room, how') = read_exact-answers sp.0.file buf in
            rw (e, read_page) ((size, room ∙ full), how')
      ]

  write_page-Answers :
      (buf : List ℕ)
      → length buf ≡ pf.page_size
      → Answers (Sized pf.page_size) (write_page pf k buf)
  unfolding write_page
  write_page-Answers buf full =
      let (size, how) = seek_page-Answers (length buf) full in
      elim how [
        | inr (c, e) ↦ rw (e, write_page) (size, inr (c, refl))
        | inl e ↦
            rw (e, write_page) (size, write_all-answers (seek_page pf k (length buf)).0.file buf)
      ]

  module _ (hash : List ℕ → ℕ) (long : 17 ≤ pf.page_size) (buf : List ℕ)
      (full : length buf ≡ pf.page_size) where
    verify-answers :
        (b : List ℕ)
        → 17 ≤ length b
        → (verify hash k b ≡ ok tt) ⊎ ((e : Error) × (verify hash k b ≡ err e))
    unfolding verify compute_checksum
    verify-answers b enough =
        elim (ℕ_discrete (from_le_bytes (slice b 13 4)) (hash (slice b 17 (length b - 17)))) [
          | yes e ↦ inl (ground (arith, e))
          | no ne ↦ inr (
            checksum_mismatch k (from_le_bytes (slice b 13 4)) (hash (slice b 17 (length b - 17))),
            ground (arith, ne),
          )
        ]

    pub read_and_verify_page-Answers :
        Answers (Roomy pf.page_size) (read_and_verify_page hash pf k buf)
    unfolding read_and_verify_page
    read_and_verify_page-Answers =
        let (good, how) = read_page-Answers buf full in
        elim how [
          | inr (c, e) ↦ rw (e, read_and_verify_page) (good, inr (c, refl))
          | inl e ↦
              rw (e, read_and_verify_page)
                (good, verify-answers (read_page pf k buf).0.1 (omega (arith, good.1, long)))
        ]

    stamped_here :
        (compute_checksum hash buf >>= λ c. copy_from_slice buf 13 (to_le_bytes 4 c))
        ≡ ok (stamp hash buf)
    unfolding compute_checksum RelationFile.compute_checksum
    stamped_here =
        stamped hash (record { relation_id = 0; file = pf.file; page_size = pf.page_size }) k buf
          full long

    pub write_page_with_checksum-Answers :
        Answers (Roomy pf.page_size) (write_page_with_checksum hash pf k buf)
    unfolding write_page_with_checksum compute_checksum
    write_page_with_checksum-Answers =
        let size = length-stamp hash buf ∙ full in
        let (good, how) = write_page-Answers (stamp hash buf) size in
        rw (stamped_here, write_page_with_checksum) ((good, size), how)
