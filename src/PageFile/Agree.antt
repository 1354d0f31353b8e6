-- ===== src/PageFile/Agree.antt =====
-- part1/page.rs beside project1/relation_file.rs, while the system refuses no call.
use meridian_space_academy_c.Prelude.{
  ℕ, ◌+◌, ◌*◌, ◌^◌, ◌≤◌, ◌<◌, ◌≡◌, ◌∙◌, refl, List, [], length, arith, leb, lt→ltb, if◌then◌else◌,
}
use meridian_space_academy_c.Result.{Result, ok, err, panic, unexpected_eof, ◌>>=◌, case_reply}
use meridian_space_academy_c.Bytes.Word.{to_le_bytes}
use meridian_space_academy_c.Bytes.Buffer.{copy_from_slice}
use meridian_space_academy_c.Disk.Overlay.{overlay}
use meridian_space_academy_c.Disk.{
  File, filled_from, seek_start, read_exact, write_all, read_exact_at, write_all_at,
}
use meridian_space_academy_c.PageFile.{
  PageFile, offset_of, seek_page, read_page, write_page, compute_checksum, verify,
  read_and_verify_page, write_page_with_checksum,
}
use meridian_space_academy_c.RelationFile.{RelationFile}
use meridian_space_academy_c.RelationFile
use meridian_space_academy_c.RelationFile.Stored.{offset_of-small, stamp, length-stamp}
use meridian_space_academy_c.RelationFile.Write.{stamped}

-- A file on which every call works, as the one and as the other.
abbrev pub quiet : List ℕ → ℕ → File
quiet d at = record { content = d; cursor = at; fates = [] }

abbrev pub page_file : List ℕ → ℕ → ℕ → PageFile
page_file d at ps = record { file = quiet d at; page_size = ps }

abbrev pub relation_file : ℕ → List ℕ → ℕ → ℕ → RelationFile
relation_file id d at ps = record { relation_id = id; file = quiet d at; page_size = ps }

-- A reply of the one and a reply of the other: the same bytes in the file and in the buffer, and the
-- same answer.
pub record SameReply (x : (PageFile × List ℕ) × Result (Unit {0}))
    (y : (RelationFile × List ℕ) × Result (Unit {0})) : Type 0 where
  pub content : x.0.0.file.content ≡ y.0.0.file.content
  pub buffer : x.0.1 ≡ y.0.1
  pub answer : x.1 ≡ y.1

module _ (d : List ℕ) (at ps id k : ℕ) (fits : k * ps < 2 ^ 64) (buf : List ℕ)
    (full : length buf ≡ ps) where
  sought : seek_page (page_file d at ps) k (length buf) ≡ (page_file d (k * ps) ps, ok tt)
  unfolding seek_page offset_of seek_start
  sought = ground (arith, full, lt→ltb (k * ps) (2 ^ 64) fits)

  at_offset : RelationFile.read_page (relation_file id d at ps) k buf ≡ (
      let ((f, buf'), r) = read_exact_at (quiet d at) (k * ps) buf in
      ((RelationFile.with_file (relation_file id d at ps) f, buf'), r))
  unfolding RelationFile.read_page
  at_offset = ground (arith, full, offset_of-small k ps fits)

  abbrev filled : List ℕ
  filled = filled_from (quiet d at) (k * ps) buf (length buf)

  abbrev reached : Result (Unit {0})
  reached = if leb (k * ps + length buf) (length d) then ok tt else err unexpected_eof

  here :
      read_page (page_file d at ps) k buf
      ≡ ((page_file d (k * ps + length buf) ps, filled), reached)
  unfolding read_page read_exact read_exact_at
  here = rw (sought, read_page) refl

  there :
      RelationFile.read_page (relation_file id d at ps) k buf
      ≡ ((relation_file id d at ps, filled), reached)
  unfolding read_exact_at
  there = at_offset

  verify-eq : (hash : List ℕ → ℕ) (b : List ℕ) → verify hash k b ≡ RelationFile.verify hash k b
  unfolding verify RelationFile.verify compute_checksum RelationFile.compute_checksum
  verify-eq hash b = refl

  -- Reading and verifying a page gives the same buffer and the same answer, also where the file ends
  -- before the page or the checksum is wrong.
  pub read_and_verify_page-eq :
      (hash : List ℕ → ℕ)
      → SameReply
          (read_and_verify_page hash (page_file d at ps) k buf)
          (RelationFile.read_and_verify_page hash (relation_file id d at ps) k buf)
  unfolding read_and_verify_page RelationFile.read_and_verify_page
  read_and_verify_page-eq hash = rw (here, there) (go reached)
    where
      go :
          (r : Result (Unit {0}))
          → SameReply
              (case_reply
                ((page_file d (k * ps + length buf) ps, filled), r)
                (λ x _. (x, verify hash k x.1))
                (λ x e. (x, err e))
                (λ x. (x, panic)))
              (case_reply
                ((relation_file id d at ps, filled), r)
                (λ x _. (x, RelationFile.verify hash k x.1))
                (λ x e. (x, err e))
                (λ x. (x, panic)))
      go (ok u) = record { content = refl; buffer = refl; answer = verify-eq hash filled }
      go (err e) = record { content = refl; buffer = refl; answer = refl }
      go panic = record { content = refl; buffer = refl; answer = refl }

module _ (d : List ℕ) (at ps id k : ℕ) (fits : k * ps < 2 ^ 64) (buf : List ℕ)
    (full : length buf ≡ ps) (long : 17 ≤ ps) (hash : List ℕ → ℕ) where
  full_stamp : length (stamp hash buf) ≡ ps
  full_stamp = length-stamp hash buf ∙ full

  abbrev after : List ℕ
  after = overlay d (k * ps) (stamp hash buf)

  stamped_here :
      (compute_checksum hash buf >>= λ c. copy_from_slice buf 13 (to_le_bytes 4 c))
      ≡ ok (stamp hash buf)
  unfolding compute_checksum RelationFile.compute_checksum
  stamped_here = stamped hash (relation_file id d at ps) k buf full long

  wrote_here :
      write_page (page_file d at ps) k (stamp hash buf)
      ≡ (page_file after (k * ps + length (stamp hash buf)) ps, ok tt)
  unfolding write_page write_all write_all_at
  wrote_here = rw (sought d at ps id k fits (stamp hash buf) full_stamp, write_page) refl

  wrote_there :
      RelationFile.write_page (relation_file id d at ps) k (stamp hash buf)
      ≡ (relation_file id after at ps, ok tt)
  unfolding RelationFile.write_page write_all_at
  wrote_there = ground (arith, full_stamp, offset_of-small k ps fits)

  -- Writing a page of at least 17 bytes leaves the same bytes in the file and in the buffer.
  pub write_page_with_checksum-eq :
      SameReply
        (write_page_with_checksum hash (page_file d at ps) k buf)
        (RelationFile.write_page_with_checksum hash (relation_file id d at ps) k buf)
  unfolding write_page_with_checksum RelationFile.write_page_with_checksum
  write_page_with_checksum-eq =
      rw
        (
          stamped_here,
          stamped hash (relation_file id d at ps) k buf full long,
          wrote_here,
          wrote_there,
          write_page_with_checksum,
          RelationFile.write_page_with_checksum,
        )
        (record { content = refl; buffer = refl; answer = refl })
