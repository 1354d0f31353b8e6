-- ===== src/Bytes/Word.antt =====
-- `to_le_bytes` and `from_le_bytes` of the unsigned words of `n` bytes.
use meridian_space_academy_c.Prelude.{
  ℕ, zero, suc, ◌+◌, ◌*◌, ◌/◌, ◌%◌, ◌^◌, ◌<◌, ◌≡◌, refl, ap, List, [], ◌∷◌, arith, length, All,
}
use native.Mathlib.Nat.{pow-suc}

abbrev pub IsByte : ℕ → Type 0
IsByte b = b < 256

unfoldable pub to_le_bytes : ℕ → ℕ → List ℕ
to_le_bytes zero v = []
to_le_bytes (suc n) v = (v % 256) ∷ to_le_bytes n (v / 256)

unfoldable pub from_le_bytes : List ℕ → ℕ
from_le_bytes [] = 0
from_le_bytes (b ∷ bs) = b + 256 * from_le_bytes bs

pub length-to_le_bytes : (n v : ℕ) → length (to_le_bytes n v) ≡ n
unfolding to_le_bytes
length-to_le_bytes zero v = refl
length-to_le_bytes (suc n) v = ap suc (length-to_le_bytes n (v / 256))

pub to_le_bytes-IsByte : (n v : ℕ) → All IsByte (to_le_bytes n v)
unfolding to_le_bytes
to_le_bytes-IsByte zero v = tt
to_le_bytes-IsByte (suc n) v = (omega arith, to_le_bytes-IsByte n (v / 256))

pub from_le_bytes-to_le_bytes : (n v : ℕ) → v < 256 ^ n → from_le_bytes (to_le_bytes n v) ≡ v
unfolding from_le_bytes to_le_bytes
from_le_bytes-to_le_bytes zero v h = omega arith
from_le_bytes-to_le_bytes (suc n) v h =
    let p : v < 256 ^ n * 256 = rw pow-suc at h in
    omega (arith, from_le_bytes-to_le_bytes n (v / 256) (omega arith))

pub from_le_bytes-lt :
    (bs : List ℕ) (n : ℕ) → length bs ≡ n → All IsByte bs → from_le_bytes bs < 256 ^ n
unfolding from_le_bytes
from_le_bytes-lt [] zero e h = omega arith
from_le_bytes-lt [] (suc n) e h = absurd (omega arith)
from_le_bytes-lt (b ∷ bs) zero e h = absurd (omega arith)
from_le_bytes-lt (b ∷ bs) (suc n) e h =
    rw pow-suc (omega (arith, from_le_bytes-lt bs n (omega arith) h.1))

pub to_le_bytes-from_le_bytes :
    (bs : List ℕ) (n : ℕ) → length bs ≡ n → All IsByte bs → to_le_bytes n (from_le_bytes bs) ≡ bs
unfolding from_le_bytes to_le_bytes
to_le_bytes-from_le_bytes [] zero e h = refl
to_le_bytes-from_le_bytes [] (suc n) e h = absurd (omega arith)
to_le_bytes-from_le_bytes (b ∷ bs) zero e h = absurd (omega arith)
to_le_bytes-from_le_bytes (b ∷ bs) (suc n) e h =
    let low : (b + 256 * from_le_bytes bs) % 256 ≡ b = omega arith in
    let high : (b + 256 * from_le_bytes bs) / 256 ≡ from_le_bytes bs = omega arith in
    rw (low, high) (ap (◌∷◌ b) (to_le_bytes-from_le_bytes bs n (omega arith) h.1))
