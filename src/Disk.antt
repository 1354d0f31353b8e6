-- ===== src/Disk.antt =====
-- What crates/database-track uses of `std::fs::File`. The operating system may let any call fail:
-- a file carries what becomes of the next calls, and calls behind the end of that list succeed. A
-- call that fails may have moved some bytes first.
pub mod Overlay
use meridian_space_academy_c.Prelude.{
  ℕ, ◌+◌, ◌-◌, ◌≡◌, refl, Bool, true, false, List, [], ◌∷◌, length, leb, if◌then◌else◌,
}
use meridian_space_academy_c.Result.{Result, ok, err, Error, device, unexpected_eof}
use meridian_space_academy_c.Bytes.Slice.{slice, splice}
use meridian_space_academy_c.Disk.Overlay.{overlay}

-- `fails n c`: the call moves `n` bytes at most and then fails with the code `c`.
pub data Fate : Type 0 where
  works : Fate
  fails : ℕ → ℕ → Fate

pub record File : Type 0 where
  pub content : List ℕ
  pub cursor : ℕ
  pub fates : List Fate

abbrev pub fate_of : List Fate → Fate
fate_of [] = works
fate_of (x ∷ xs) = x

abbrev pub later : List Fate → List Fate
later [] = []
later (x ∷ xs) = xs

-- The file after a call.
abbrev pub called : File → File
called f = record f { fates = later f.fates }

unfoldable pub metadata_len : File → File × Result ℕ
metadata_len f = elim (fate_of f.fates) [
  | works ↦ (called f, ok (length f.content))
  | fails n c ↦ (called f, err (device c))
]

-- The buffer that a read leaves, if it read `n` bytes.
abbrev pub filled_from : File → ℕ → List ℕ → ℕ → List ℕ
filled_from f offset buf n = splice buf 0 (slice f.content offset n)

unfoldable pub read_exact_at : File → ℕ → List ℕ → (File × List ℕ) × Result (Unit {0})
read_exact_at f offset buf = elim (fate_of f.fates) [
  | works ↦ (
    (called f, filled_from f offset buf (length buf)),
    (if leb (offset + length buf) (length f.content) then ok tt else err unexpected_eof),
  )
  | fails n c ↦ ((called f, filled_from f offset buf n), err (device c))
]

unfoldable pub write_all_at : File → ℕ → List ℕ → File × Result (Unit {0})
write_all_at f offset bytes = elim (fate_of f.fates) [
  | works ↦ (record (called f) { content = overlay f.content offset bytes }, ok tt)
  | fails n c ↦
      (record (called f) { content = overlay f.content offset (slice bytes 0 n) }, err (device c))
]

unfoldable pub seek_start : File → ℕ → File × Result ℕ
seek_start f offset = elim (fate_of f.fates) [
  | works ↦ (record (called f) { cursor = offset }, ok offset)
  | fails n c ↦ (called f, err (device c))
]

unfoldable pub seek_end : File → File × Result ℕ
seek_end f = elim (fate_of f.fates) [
  | works ↦ (record (called f) { cursor = length f.content }, ok (length f.content))
  | fails n c ↦ (called f, err (device c))
]

-- At the cursor, which moves on.
unfoldable pub read_exact : File → List ℕ → (File × List ℕ) × Result (Unit {0})
read_exact f buf =
    let ((f', buf'), r) = read_exact_at f f.cursor buf in
    ((record f' { cursor = f'.cursor + length buf }, buf'), r)

unfoldable pub write_all : File → List ℕ → File × Result (Unit {0})
write_all f bytes =
    let (f', r) = write_all_at f f.cursor bytes in
    (record f' { cursor = f'.cursor + length bytes }, r)

module _ (f : File) (offset : ℕ) where
  pub read_exact_at-works :
      (buf : List ℕ)
      → fate_of f.fates ≡ works
      → read_exact_at f offset buf ≡ (
        (called f, filled_from f offset buf (length buf)),
        (if leb (offset + length buf) (length f.content) then ok tt else err unexpected_eof),
      )
  unfolding read_exact_at
  read_exact_at-works buf e = rw (e, read_exact_at) refl

  pub read_exact_at-fails :
      (buf : List ℕ) (n c : ℕ)
      → fate_of f.fates ≡ fails n c
      → read_exact_at f offset buf ≡ ((called f, filled_from f offset buf n), err (device c))
  unfolding read_exact_at
  read_exact_at-fails buf n c e = rw (e, read_exact_at) refl

  pub write_all_at-works :
      (bytes : List ℕ)
      → fate_of f.fates ≡ works
      → write_all_at f offset bytes
        ≡ (record (called f) { content = overlay f.content offset bytes }, ok tt)
  unfolding write_all_at
  write_all_at-works bytes e = rw (e, write_all_at) refl

  pub write_all_at-fails :
      (bytes : List ℕ) (n c : ℕ)
      → fate_of f.fates ≡ fails n c
      → write_all_at f offset bytes ≡ (
        record (called f) { content = overlay f.content offset (slice bytes 0 n) },
        err (device c),
      )
  unfolding write_all_at
  write_all_at-fails bytes n c e = rw (e, write_all_at) refl

pub metadata_len-works :
    (f : File) → fate_of f.fates ≡ works → metadata_len f ≡ (called f, ok (length f.content))
unfolding metadata_len
metadata_len-works f e = rw (e, metadata_len) refl

pub metadata_len-fails :
    (f : File) (n c : ℕ) → fate_of f.fates ≡ fails n c → metadata_len f ≡ (called f, err (device c))
unfolding metadata_len
metadata_len-fails f n c e = rw (e, metadata_len) refl
