-- ===== src/Bytes.antt =====
-- Byte slices as lists of numbers: `&buf[a..a + n]`, `copy_from_slice` into a part of a buffer, and
-- the little-endian and big-endian words of `to_le_bytes` and `to_be_bytes`.
pub mod Slice
pub mod Word
pub mod Buffer
