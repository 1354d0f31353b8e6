-- ===== src/Page/Valid.antt =====
-- The invariant of project1/page.rs, and what a valid page holds.
use meridian_space_academy_c.Prelude.{
  ℕ, zero, suc, ◌+◌, ◌≤◌, ◌<◌, ◌≡◌, ◌≢◌, refl, ap, ◌⊎◌, Option, none, some, List, arith, leb, ◌==◌,
  if◌then◌else◌,
}
use native.Mathlib.Decide.{ℕ_discrete}
use native.Mathlib.Nat.{add-zero}
use meridian_space_academy_c.Config.{page_size, tombstone}
use meridian_space_academy_c.Result.{ok}
use meridian_space_academy_c.Page.{
  Page, record_count, record_region_offset, slot_base, find_tombstone, sum_live, get,
}
use meridian_space_academy_c.Page.Writes.{
  size_of, content, slot, index_range-content, read_slot-slot,
}

-- The bytes that the record of a slot takes.
unfoldable pub live_length : Page → ℕ → ℕ
live_length p i = if (slot p i).0 == tombstone then 0 else (slot p i).1

-- Those of the `n` slots from `i` on.
unfoldable pub live_total : Page → ℕ → ℕ → ℕ
live_total p zero i = 0
live_total p (suc n) i = live_length p i + live_total p n (suc i)

-- The record of a slot that is not deleted stands between the start of the records and the end of
-- the page.
abbrev pub SlotIn : Page → ℕ → Type 0
SlotIn p i =
    ((slot p i).0 ≡ tombstone)
    ⊎ ((record_region_offset p ≤ (slot p i).0) × ((slot p i).0 + (slot p i).1 ≤ page_size))

pub record IsValid (p : Page) : Type 0 where
  pub size : size_of p ≡ page_size
  pub fits : slot_base (record_count p) ≤ record_region_offset p
  pub top : record_region_offset p ≤ page_size
  pub slots : (i : ℕ) → i < record_count p → SlotIn p i
  -- The records do not take more than the region behind its start.
  pub room : live_total p (record_count p) 0 + record_region_offset p ≤ page_size

-- The record of a slot, if there is one.
unfoldable pub lookup : Page → ℕ → Option (List ℕ)
lookup p i =
    if leb (record_count p) i
    then none
    else if (slot p i).0 == tombstone
    then none
    else some (content p (slot p i).0 (slot p i).1)

-- The first deleted slot among the `n` from `i` on.
unfoldable pub first_free : Page → ℕ → ℕ → Option ℕ
first_free p zero i = none
first_free p (suc n) i = if (slot p i).0 == tombstone then some i else first_free p n (suc i)

module _ (p : Page) where
  pub find_tombstone-first_free :
      (n i : ℕ) → slot_base (i + n) ≤ size_of p → find_tombstone p n i ≡ ok (first_free p n i)
  unfolding find_tombstone first_free
  find_tombstone-first_free zero i h = refl
  find_tombstone-first_free (suc n) i h =
      ground (arith, read_slot-slot p i, find_tombstone-first_free n (suc i))

  pub sum_live-live_total :
      (n i : ℕ) → slot_base (i + n) ≤ size_of p → sum_live p n i ≡ ok (live_total p n i)
  unfolding sum_live live_total live_length
  sum_live-live_total zero i h = refl
  sum_live-live_total (suc n) i h =
      ground (arith, read_slot-slot p i, sum_live-live_total n (suc i))

  -- A slot that `first_free` finds is in range and deleted; if it finds none, none is deleted.
  pub first_free-some :
      (n i k : ℕ) → first_free p n i ≡ some k → (i ≤ k) × (k < i + n) × ((slot p k).0 ≡ tombstone)
  unfolding first_free
  first_free-some zero i k e = absurd (ground arith)
  first_free-some (suc n) i k e = ground (arith, first_free-some n (suc i) k)

  pub first_free-none :
      (n i : ℕ) → first_free p n i ≡ none → (j : ℕ) → i ≤ j → j < i + n → (slot p j).0 ≢ tombstone
  unfolding first_free
  first_free-none zero i e j lo hi = absurd (omega arith)
  first_free-none (suc n) i e j lo hi = grind (arith, first_free-none n (suc i))

  -- On a valid page `get` never panics: it returns the record of the slot, or `None`.
  pub get-lookup : (i : ℕ) → IsValid p → get p i ≡ ok (lookup p i)
  unfolding get lookup
  get-lookup i v =
      ground (arith, v.slots i, read_slot-slot p i, index_range-content p (slot p i).0 (slot p i).1)

module _ (p q : Page) where
  -- Slots that agree have the same bytes.
  pub live_total-agree :
      (n i : ℕ)
      → ((j : ℕ) → i ≤ j → j < i + n → slot q j ≡ slot p j)
      → live_total q n i ≡ live_total p n i
  unfolding live_total live_length
  live_total-agree zero i h = refl
  live_total-agree (suc n) i h =
      let here = h i (omega arith) (omega arith) in
      rw (here, live_total-agree n (suc i) (λ j lo hi. h j (omega arith) (omega arith)))

  live_length-agree : (i : ℕ) → slot q i ≡ slot p i → live_length q i ≡ live_length p i
  unfolding live_length
  live_length-agree i e = rw e

  -- If all but one agree, the totals differ by what that one has.
  pub live_total-change :
      (n i k : ℕ)
      → i ≤ k
      → k < i + n
      → ((j : ℕ) → i ≤ j → j < i + n → j ≢ k → slot q j ≡ slot p j)
      → live_total q n i + live_length p k ≡ live_total p n i + live_length q k
  unfolding live_total
  live_total-change zero i k lo hi h = absurd (omega arith)
  live_total-change (suc n) i k lo hi h = elim (ℕ_discrete k i) [
    | yes e ↦
        let rest =
          live_total-agree n (suc i) (λ j l u. h j (omega arith) (omega arith) (omega arith)) in
        rw (e, rest) (omega arith)
    | no ne ↦
        let here = live_length-agree i (h i (omega arith) (omega arith) (omega arith)) in
        let rest =
          live_total-change n (suc i) k (omega arith) (omega arith)
            (λ j l u. h j (omega arith) (omega arith)) in
        omega (arith, here, rest)
  ]

pub live_total-suc :
    (p : Page) (n i : ℕ) → live_total p (suc n) i ≡ live_total p n i + live_length p (i + n)
unfolding live_total
live_total-suc p zero i = omega (arith, ap (live_length p) (add-zero i))
live_total-suc p (suc n) i =
    omega (arith, live_total-suc p n (suc i), ap (live_length p) (shift i n))
  where
    shift : (i n : ℕ) → suc i + n ≡ i + suc n
    shift i n = omega arith
