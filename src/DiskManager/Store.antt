-- ===== src/DiskManager/Store.antt =====
-- The disk manager of project1/disk_manager.rs as the store of a buffer pool. A pool gives
-- `write_page` a copy of its bytes, so it does not see the checksum that is written into them.
use meridian_space_academy_c.Prelude.{
  ℕ, ◌-◌, ◌*◌, ◌≡◌, ◌∙◌, inl, inr, refl, sym, ap, List, ◌++◌, length, replicate, length-replicate,
  arith,
}
use meridian_space_academy_c.Config.{page_size}
use meridian_space_academy_c.Result.{ok, err, panic, case_reply}
use meridian_space_academy_c.Bytes.Slice.{
  slice, length-slice, slice_whole, slice-splice_before, slice-splice_behind,
}
use meridian_space_academy_c.Bytes.Word.{to_le_bytes, length-to_le_bytes}
use meridian_space_academy_c.Disk.Overlay.{peek, length-peek, peek-slice}
use meridian_space_academy_c.PageStore.{PageId, PageStore}
use meridian_space_academy_c.ClockPool.Invariant.{Shown, Faithful}
use meridian_space_academy_c.RelationFile.Stored.{stamp, body_hash}
use meridian_space_academy_c.RelationFile.Access.{content}
use meridian_space_academy_c.DiskManager.{DiskManager, handle, read_page, write_page}
use meridian_space_academy_c.DiskManager.Pages.{
  HoldsPage, page_at, write_page-Wrote, read_page-Read,
}

-- A page of a pool is an array of `PAGE_SIZE` bytes: what a list of another length stands for.
abbrev pub fit : List ℕ → List ℕ
fit b = peek b 0 page_size

-- All of a page but the checksum.
abbrev pub unstamped : List ℕ → List ℕ
unstamped b = slice b 0 13 ++ slice b 17 (page_size - 17)

abbrev pub disk_store : (List ℕ → ℕ) → PageStore DiskManager
disk_store hash = record {
  read_page = λ dm id.
      let ((dm', b), r) = read_page hash dm id (replicate page_size 0) in
      case_reply (dm', r) (λ s _. (s, ok b)) (λ s e. (s, err e)) (λ s. (s, panic));
  write_page = λ dm id b. let ((dm', _), r) = write_page hash dm id (fit b) in (dm', r);
}

abbrev pub disk_pages : Shown DiskManager
disk_pages = record {
  contents = λ dm id. unstamped (page_at dm id);
  visible = λ b. unstamped (fit b);
}

module _ (hash : List ℕ → ℕ) where
  unstamped-stamp : (b : List ℕ) → unstamped (stamp hash b) ≡ unstamped b
  unfolding stamp
  unstamped-stamp b =
      let word = to_le_bytes 4 (body_hash hash b) in
      let four : length word ≡ 4 = length-to_le_bytes 4 (body_hash hash b) in
      ap (λ x. x ++ slice (stamp hash b) 17 (page_size - 17))
        (slice-splice_before b 13 word 0 13 (omega arith))
      ∙ ap (λ x. slice b 0 13 ++ x)
          (slice-splice_behind b 13 word 17 (page_size - 17) (omega (arith, four)))

  page_at-HoldsPage :
      (dm : DiskManager) (id : PageId) (b : List ℕ) → HoldsPage dm id b → page_at dm id ≡ b
  page_at-HoldsPage dm id b (fits, same) =
      peek-slice (content (handle dm id)) (id.page_no * page_size) page_size fits ∙ same

  fit-HoldsPage : (dm : DiskManager) (id : PageId) (b : List ℕ) → HoldsPage dm id b → fit b ≡ b
  fit-HoldsPage dm id b (fits, same) =
      let size : length b ≡ page_size =
        ap length (sym same)
        ∙ length-slice (content (handle dm id)) (id.page_no * page_size) page_size fits in
      peek-slice b 0 page_size (omega (arith, size)) ∙ slice_whole b page_size size

  -- For any hash, the disk manager is a faithful store up to the checksums, which it writes into the
  -- pages: it does not panic, a read gives the page or an error, a write that succeeds has stored the
  -- page, and no call changes another page, also where a write is cut short.
  pub disk_store-Faithful : Faithful (disk_store hash) disk_pages
  disk_store-Faithful = record {
    reads = λ dm id.
        let zeros = replicate page_size 0 in
        let r = read_page hash dm id zeros in
        let read = read_page-Read hash dm id zeros (length-replicate page_size 0) in
        (
          r.0.0,
          elim read.answer [
            | inl (good, h, _) ↦ inl (
              r.0.1,
              rw (good, case_reply) refl,
              ap unstamped (page_at-HoldsPage dm id r.0.1 h ∙ sym (fit-HoldsPage dm id r.0.1 h)),
            )
            | inr (e, failed) ↦ inr (e, rw (failed, case_reply) refl)
          ],
          λ q. ap (λ c. unstamped (peek c (q.page_no * page_size) page_size)) (read.same q),
        );
    writes = λ dm id b.
        let r = write_page hash dm id (fit b) in
        let wrote = write_page-Wrote hash dm id (fit b) (length-peek b 0 page_size) in
        (
          r.0.0,
          elim wrote.answer [
            | inl (good, h) ↦ inl (
              rw good refl,
              ap unstamped (page_at-HoldsPage r.0.0 id (stamp hash (fit b)) h)
                  ∙ unstamped-stamp (fit b),
            )
            | inr (e, failed) ↦ inr (e, rw failed refl)
          ],
          λ q ne. ap unstamped (wrote.pages q ne),
        );
  }
