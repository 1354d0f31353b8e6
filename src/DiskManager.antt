-- ===== src/DiskManager.antt =====
-- crates/database-track/src/module1/project1/disk_manager.rs: the files of the relations, and the
-- `PageStore` over them. A `RelationFile` is named by its relation and its segment, which are its path:
-- two handles of one path have the same file. `opens` is what becomes of the next calls of `open`.
pub mod Pages
pub mod Store
mod Tests
use meridian_space_academy_c.Prelude.{
  ℕ, ◌/◌, Bool, true, false, ◌&&◌, ◌||◌, List, [], ◌∷◌, ◌==◌, if◌then◌else◌,
}
use meridian_space_academy_c.Config.{page_size, pages_per_file}
use meridian_space_academy_c.Result.{Result, ok, err, panic, device, case_reply}
use meridian_space_academy_c.Disk.{Fate, works, fails, File, fate_of, later}
use meridian_space_academy_c.PageStore.{PageId}
use meridian_space_academy_c.RelationFile.{
  RelationFile, read_and_verify_page, write_page_with_checksum,
}

pub record DiskManager : Type 0 where
  pub files : ℕ → ℕ → File
  pub open_relations : List (ℕ × ℕ)
  pub opens : List Fate

unfoldable pub get_segment_idx : ℕ → ℕ
get_segment_idx page_no = page_no / pages_per_file

unfoldable pub is_open : ℕ → ℕ → List (ℕ × ℕ) → Bool
is_open r s [] = false
is_open r s ((r', s') ∷ l) = ((r' == r) && (s' == s)) || is_open r s l

-- The handle on the file of the page.
abbrev pub handle : DiskManager → PageId → RelationFile
handle dm id = record {
  relation_id = id.relation_id;
  file = dm.files id.relation_id (get_segment_idx id.page_no);
  page_size = page_size;
}

-- The files after a call on that handle.
abbrev pub put_file : DiskManager → PageId → File → DiskManager
put_file dm id f = record dm {
  files =
      λ r s. if (r == id.relation_id) && (s == get_segment_idx id.page_no) then f else dm.files r s;
}

-- A file that is not there is made, which an empty one stands for.
unfoldable pub create_relation : DiskManager → PageId → DiskManager × Result RelationFile
create_relation dm id = elim (fate_of dm.opens) [
  | works ↦ (
    record dm {
      open_relations = (id.relation_id, get_segment_idx id.page_no) ∷ dm.open_relations;
      opens = later dm.opens;
    },
    ok (handle dm id),
  )
  | fails n c ↦ (record dm { opens = later dm.opens }, err (device c))
]

-- The second look under the write lock sees what the first saw, since the call is one step.
unfoldable pub get_relation : DiskManager → PageId → DiskManager × Result RelationFile
get_relation dm id =
    if is_open id.relation_id (get_segment_idx id.page_no) dm.open_relations
    then (dm, ok (handle dm id))
    else create_relation dm id

module _ (hash : List ℕ → ℕ) where
  unfoldable pub read_page :
      DiskManager → PageId → List ℕ → (DiskManager × List ℕ) × Result (Unit {0})
  read_page dm id dest =
      case_reply (get_relation dm id)
        (λ dm' rf.
          let ((rf', dest'), r) = read_and_verify_page hash rf id.page_no dest in
          ((put_file dm' id rf'.file, dest'), r))
        (λ dm' e. ((dm', dest), err e)) (λ dm'. ((dm', dest), panic))

  unfoldable pub write_page :
      DiskManager → PageId → List ℕ → (DiskManager × List ℕ) × Result (Unit {0})
  write_page dm id src =
      case_reply (get_relation dm id)
        (λ dm' rf.
          let ((rf', src'), r) = write_page_with_checksum hash rf id.page_no src in
          ((put_file dm' id rf'.file, src'), r))
        (λ dm' e. ((dm', src), err e)) (λ dm'. ((dm', src), panic))
