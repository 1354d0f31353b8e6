-- ===== src/Bytes/Buffer.antt =====
-- Buffers whose ranges are checked: a range outside the buffer panics.
use meridian_space_academy_c.Prelude.{
  ℕ, ◌+◌, ◌≤◌, ◌≡◌, Bool, true, false, ◌&&◌, List, [], ◌∷◌, ◌==◌, leb, if◌then◌else◌, length, arith,
  refl,
}
use meridian_space_academy_c.Result.{Result, ok, panic}
use meridian_space_academy_c.Bytes.Slice.{slice, splice}
use meridian_space_academy_c.Bytes.Word.{from_le_bytes}

-- `buf[a..a + src.len()].copy_from_slice(src)`
unfoldable pub copy_from_slice : List ℕ → ℕ → List ℕ → Result (List ℕ)
copy_from_slice buf a src =
    if leb (a + length src) (length buf) then ok (splice buf a src) else panic

pub copy_from_slice_fits :
    (buf : List ℕ) (a : ℕ) (src : List ℕ)
    → a + length src ≤ length buf
    → copy_from_slice buf a src ≡ ok (splice buf a src)
unfolding copy_from_slice
copy_from_slice_fits buf a src h = ground arith

-- `buf[i]`, for an index that the caller has checked.
abbrev pub byte_at : List ℕ → ℕ → ℕ
byte_at buf i = from_le_bytes (slice buf i 1)

-- `==` of byte slices
unfoldable pub bytes_eq : List ℕ → List ℕ → Bool
bytes_eq [] [] = true
bytes_eq (x ∷ xs) (y ∷ ys) = (x == y) && bytes_eq xs ys
bytes_eq _ _ = false

pub bytes_eq_refl : (xs : List ℕ) → bytes_eq xs xs ≡ true
unfolding bytes_eq
bytes_eq_refl [] = refl
bytes_eq_refl (x ∷ xs) = ground (arith, bytes_eq_refl xs)

pub eq_of_bytes_eq : (xs ys : List ℕ) → bytes_eq xs ys ≡ true → xs ≡ ys
unfolding bytes_eq
eq_of_bytes_eq [] [] h = refl
eq_of_bytes_eq [] (y ∷ ys) h = ground arith
eq_of_bytes_eq (x ∷ xs) [] h = ground arith
eq_of_bytes_eq (x ∷ xs) (y ∷ ys) h = ground (arith, eq_of_bytes_eq xs ys)
