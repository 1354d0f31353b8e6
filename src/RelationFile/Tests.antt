-- ===== src/RelationFile/Tests.antt =====
-- project1/relation_file.rs on a file of small pages, with a hash that is the same for all bytes.
use meridian_space_academy_c.Prelude.{
  ℕ, ◌≡◌, ◌⊎◌, refl, List, [], ◌∷◌, replicate, length-replicate, arith,
}
use meridian_space_academy_c.Result.{ok, err, device}
use meridian_space_academy_c.Bytes.Slice.{slice, splice}
use meridian_space_academy_c.Bytes.Word.{to_le_bytes}
use meridian_space_academy_c.Bytes.Buffer.{copy_from_slice}
use meridian_space_academy_c.Disk.{works, fails, write_all_at}
use meridian_space_academy_c.RelationFile.{
  RelationFile, offset_of, write_page, compute_checksum, read_and_verify_page,
  write_page_with_checksum, allocate_page,
}
use meridian_space_academy_c.RelationFile.Stored.{stamp}
use meridian_space_academy_c.RelationFile.Access.{Reads, read_and_verify_page-Reads}
use meridian_space_academy_c.RelationFile.Write.{read-write_page}
use meridian_space_academy_c.RelationFile.Allocate.{Allocated, allocate_page-Allocated}

abbrev hash : List ℕ → ℕ
hash b = 258

-- The second call on the file fails after three bytes.
abbrev relation : RelationFile
relation = record {
  relation_id = 3;
  file = record { content = replicate 40 1; cursor = 0; fates = works ∷ fails 3 5 ∷ [] };
  page_size = 20;
}

abbrev page : List ℕ
page = replicate 20 9

read_and_verify_page-Reads_example :
    Reads hash relation 1 (read_and_verify_page hash relation 1 page)
read_and_verify_page-Reads_example =
    read_and_verify_page-Reads hash relation 1 page (length-replicate 20 9) (omega arith)

wrote : (write_page_with_checksum hash relation 1 page).1 ≡ ok tt
unfolding write_page_with_checksum write_page compute_checksum offset_of copy_from_slice to_le_bytes
    write_all_at slice splice replicate
wrote = refl

read-write_page_example :
    let x =
      read_and_verify_page hash
        (write_page_with_checksum hash relation 1 page).0.0
        1
        (replicate 20 0) in
    ((x.1 ≡ ok tt) × (x.0.1 ≡ stamp hash page)) ⊎ ((c : ℕ) × (x.1 ≡ err (device c)))
read-write_page_example =
    read-write_page hash (λ b. omega arith) relation 1 page (replicate 20 0) (length-replicate 20 9)
      (length-replicate 20 0) (omega arith) wrote

allocate_page-Allocated_example :
    Allocated relation (allocate_page relation).0 (allocate_page relation).1
allocate_page-Allocated_example = allocate_page-Allocated relation (omega arith)
