-- ===== src/Page/Records.antt =====
-- The first loop of `compact` in project1/page.rs: the copies of the records.
use meridian_space_academy_c.Prelude.{
  ℕ, zero, suc, ◌+◌, ◌≤◌, ◌<◌, ◌≡◌, refl, Option, none, some, List, [], ◌∷◌, inl, inr, length,
  arith, Bool-cases, ◌==◌, if◌then◌else◌,
}
use native.Mathlib.Decide.{ℕ_discrete}
use meridian_space_academy_c.Config.{tombstone}
use meridian_space_academy_c.Result.{ok}
use meridian_space_academy_c.Page.{Page, record_count, live_records}
use meridian_space_academy_c.Page.Writes.{
  content, slot, read_slot-slot, index_range-content, length-content,
}
use meridian_space_academy_c.Page.Valid.{live_length, live_total, IsValid, lookup}

abbrev pub Records : Type 0
Records = List (ℕ × List ℕ)

unfoldable pub bytes_of : Records → ℕ
bytes_of [] = 0
bytes_of ((i, bytes) ∷ l) = length bytes + bytes_of l

unfoldable pub find : Records → ℕ → Option (List ℕ)
find [] j = none
find ((i, bytes) ∷ l) j = if i == j then some bytes else find l j

-- The ids grow along the list, from `lo` on and below `hi`.
abbrev pub Between : ℕ → ℕ → Records → Type 0
Between lo hi [] = Unit {0}
Between lo hi ((i, bytes) ∷ l) = (lo ≤ i) × (i < hi) × Between (suc i) hi l

Between-mono : (k lo hi : ℕ) (l : Records) → k ≤ lo → Between lo hi l → Between k hi l
Between-mono k lo hi [] h b = tt
Between-mono k lo hi ((i, bytes) ∷ l) h (a, c, rest) = (omega arith, c, rest)

pub find_below : (lo hi j : ℕ) (l : Records) → Between lo hi l → j < lo → find l j ≡ none
unfolding find
find_below lo hi j [] b h = refl
find_below lo hi j ((i, bytes) ∷ l) (a, c, rest) h = ground (arith, find_below (suc i) hi j l rest)

-- The records of the `n` slots from `i` on.
pub collected : Page → ℕ → ℕ → Records
collected p zero i = []
collected p (suc n) i =
    if (slot p i).0 == tombstone
    then collected p n (suc i)
    else (i, content p (slot p i).0 (slot p i).1) ∷ collected p n (suc i)

module _ (p : Page) (v : IsValid p) where
  pub live_records-collected :
      (n i : ℕ) → i + n ≤ record_count p → live_records p n i ≡ ok (collected p n i)
  unfolding live_records collected
  live_records-collected zero i h = refl
  live_records-collected (suc n) i h = ground (
    arith,
    v.slots i,
    v.size,
    v.fits,
    v.top,
    read_slot-slot p i,
    index_range-content p (slot p i).0 (slot p i).1,
    live_records-collected n (suc i),
  )

  pub collected-Between : (n i hi : ℕ) → i + n ≤ hi → Between i hi (collected p n i)
  unfolding collected
  collected-Between zero i hi h = tt
  collected-Between (suc n) i hi h =
      let rest = collected-Between n (suc i) hi (omega arith) in
      elim (Bool-cases ((slot p i).0 == tombstone)) [
        | inl dead ↦ rw dead (Between-mono i (suc i) hi _ (omega arith) rest)
        | inr live ↦ rw live (omega arith, omega arith, rest)
      ]

  pub bytes_of-collected :
      (n i : ℕ) → i + n ≤ record_count p → bytes_of (collected p n i) ≡ live_total p n i
  unfolding bytes_of collected live_total live_length
  bytes_of-collected zero i h = refl
  bytes_of-collected (suc n) i h = ground (
    arith,
    v.slots i,
    v.size,
    length-content p (slot p i).0 (slot p i).1,
    bytes_of-collected n (suc i),
  )

  pub find-collected :
      (n i j : ℕ)
      → i ≤ j
      → j < i + n
      → i + n ≤ record_count p
      → find (collected p n i) j ≡ lookup p j
  unfolding find collected lookup
  find-collected zero i j lo hi h = absurd (omega arith)
  find-collected (suc n) i j lo hi h = elim (ℕ_discrete i j) [
    | yes e ↦ ground (
      arith,
      e,
      find_below (suc i) (suc i + n) j (collected p n (suc i)),
      collected-Between n (suc i) (suc i + n),
    )
    | no ne ↦ ground (arith, find-collected n (suc i) j)
  ]
