-- ===== src/Result.antt =====
-- The outcomes of the program's fallible code: a value, an `Err` of `std::io` or of the pool, or a
-- panic (an index out of bounds, an arithmetic overflow, an `unwrap`, an `unreachable!`).
use meridian_space_academy_c.Prelude.{
  ℕ, ◌-◌, ◌≡◌, ◌⊎◌, inl, inr, refl, Bool, true, false, ltb, if◌then◌else◌,
}

-- One constructor for each error that the code raises. `device` is an error of the operating
-- system or of a store that the code calls.
pub data Error : Type 0 where
  short_header bad_magic bad_page_type incomplete bad_page_header bad_slot_bounds : Error
  bad_tle_length misaligned_file too_many_pages offset_overflow unexpected_eof : Error
  checksum_mismatch : ℕ → ℕ → ℕ → Error
  pool_exhausted stale_handle all_frames_pinned : Error
  device : ℕ → Error

pub data Result {ℓ} (A : Type ℓ) : Type ℓ where
  ok : A → Result A
  err : Error → Result A
  panic : Result A

infixl 5 ◌>>=◌
abbrev pub ◌>>=◌ {ℓ κ} : {A : Type ℓ} {B : Type κ} → Result A → (A → Result B) → Result B
ok a >>= f = f a
err e >>= f = err e
panic >>= f = panic

-- `assert!`
abbrev pub assert : Bool → Result (Unit {0})
assert true = ok tt
assert false = panic

-- `if test { return Err(e) }`
abbrev pub fail_if : Bool → Error → Result (Unit {0})
fail_if true e = err e
fail_if false e = ok tt

-- Subtraction on an unsigned type, which panics where it would go below zero.
abbrev pub checked_sub : ℕ → ℕ → Result ℕ
checked_sub a b = if ltb a b then panic else ok (a - b)

pub Result-cases {ℓ} :
    {A : Type ℓ} (r : Result A)
    → ((a : A) × (r ≡ ok a)) ⊎ (((e : Error) × (r ≡ err e)) ⊎ (r ≡ panic))
Result-cases (ok a) = inl (a, refl)
Result-cases (err e) = inr (inl (e, refl))
Result-cases panic = inr (inr refl)

-- `match` on the result of a call that returns the state beside it.
abbrev pub case_reply {ℓ κ ι} :
    {X : Type ℓ} {A : Type κ} {Y : Type ι}
    → X × Result A
    → (X → A → Y)
    → (X → Error → Y)
    → (X → Y)
    → Y
case_reply (s, ok a) on_ok on_err on_panic = on_ok s a
case_reply (s, err e) on_ok on_err on_panic = on_err s e
case_reply (s, panic) on_ok on_err on_panic = on_panic s

pub >>=-assoc {ℓ κ ι} :
    {A : Type ℓ} {B : Type κ} {C : Type ι} (m : Result A) (f : A → Result B) (g : B → Result C)
    → ((m >>= f) >>= g) ≡ (m >>= λ a. f a >>= g)
>>=-assoc (ok a) f g = refl
>>=-assoc (err e) f g = refl
>>=-assoc panic f g = refl
