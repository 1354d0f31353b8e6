-- ===== src/DiskManager/Tests.antt =====
-- project1/disk_manager.rs on empty files.
use meridian_space_academy_c.Prelude.{
  ℕ, ◌≡◌, ◌≢◌, ◌⊎◌, refl, List, [], ◌∷◌, replicate, length-replicate, arith,
}
use meridian_space_academy_c.Result.{Error, ok, err}
use meridian_space_academy_c.Bytes.Slice.{splice}
use meridian_space_academy_c.Bytes.Word.{to_le_bytes}
use meridian_space_academy_c.Bytes.Buffer.{copy_from_slice}
use meridian_space_academy_c.Disk.{write_all_at}
use meridian_space_academy_c.PageStore.{PageId}
use meridian_space_academy_c.RelationFile.{offset_of, compute_checksum, write_page_with_checksum}
use meridian_space_academy_c.RelationFile
use meridian_space_academy_c.RelationFile.Stored.{stamp}
use meridian_space_academy_c.DiskManager.{
  DiskManager, is_open, create_relation, get_relation, read_page, write_page,
}
use meridian_space_academy_c.DiskManager.Pages.{writes, read-writes-write_page}
use meridian_space_academy_c.ClockPool.Invariant.{Faithful}
use meridian_space_academy_c.DiskManager.Store.{disk_store, disk_pages, disk_store-Faithful}

abbrev hash : List ℕ → ℕ
hash b = 258

abbrev empty : DiskManager
empty = record {
  files = λ r s. record { content = []; cursor = 0; fates = [] };
  open_relations = [];
  opens = [];
}

abbrev first : PageId
first = record { relation_id = 1; page_no = 0 }

abbrev second : PageId
second = record { relation_id = 1; page_no = 1 }

abbrev bytes : List ℕ
bytes = replicate 4096 9

wrote : (write_page hash empty first bytes).1 ≡ ok tt
unfolding write_page get_relation is_open create_relation write_page_with_checksum
    RelationFile.write_page compute_checksum offset_of copy_from_slice to_le_bytes write_all_at
    splice replicate
wrote = refl

read-writes-write_page_example :
    let r =
      read_page hash
        (writes hash (write_page hash empty first bytes).0.0 ((second, bytes) ∷ []))
        first
        bytes in
    ((r.1 ≡ ok tt) × (r.0.1 ≡ stamp hash bytes)) ⊎ ((e : Error) × (r.1 ≡ err e))
read-writes-write_page_example =
    read-writes-write_page hash empty first bytes bytes ((second, bytes) ∷ [])
      (length-replicate 4096 9) (length-replicate 4096 9) (length-replicate 4096 9, tt) (ne, tt)
      wrote
  where
    ne : second ≢ first
    ne e = ground (arith, e)

disk_store-Faithful_example : Faithful (disk_store hash) disk_pages
disk_store-Faithful_example = disk_store-Faithful hash
