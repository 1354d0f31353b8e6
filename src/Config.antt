-- ===== src/Config.antt =====
-- crates/database-track/src/module1/config.rs.
use meridian_space_academy_c.Prelude.{ℕ, ◌/◌, ◌*◌, List, [], ◌∷◌}

abbrev pub page_size : ℕ
page_size = 4096

abbrev pub page_header_size : ℕ
page_header_size = 17

abbrev segment_size : ℕ
segment_size = 1024 * 1024 * 1024

abbrev pub pages_per_file : ℕ
pages_per_file = segment_size / page_size

-- "OOR1"
abbrev pub magic_bytes : List ℕ
magic_bytes = 0x4f ∷ 0x4f ∷ 0x52 ∷ 0x31 ∷ []

abbrev pub slot_size : ℕ
slot_size = 4

-- The offset of a deleted slot.
abbrev pub tombstone : ℕ
tombstone = 0xffff

abbrev pub max_usage_count : ℕ
max_usage_count = 5
