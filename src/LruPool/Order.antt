-- ===== src/LruPool/Order.antt =====
-- The order of use in part2/buffer_pool.rs.
use meridian_space_academy_c.Prelude.{
  Has, ℕ, zero, suc, ◌+◌, ◌≤◌, ◌<◌, ◌≡◌, ◌≢◌, ◌⊎◌, inl, inr, refl, ap, some, List, [], ◌∷◌, ◌++◌,
  get_elem?, All, ◌==◌, if◌then◌else◌, arith, ltb, leb,
}
use native.Mathlib.Decide.{ℕ_discrete, dec_lt}
use meridian_space_academy_c.Result.{Result, ok, err, pool_exhausted}
use meridian_space_academy_c.LruPool.{Frame, find_evict_target, without, move_to_front, indices}

-- How often the frame `i` stands in the order.
unfoldable pub count : ℕ → List ℕ → ℕ
count i [] = 0
count i (j ∷ l) = (if j == i then 1 else 0) + count i l

-- Every frame stands once in the order, and nothing else does.
abbrev pub IsOrder : ℕ → List ℕ → Type 0
IsOrder n l = (i : ℕ) → count i l ≡ (if ltb i n then 1 else 0)

-- The frame `i` is there and is pinned, or is not.
abbrev pub Pinned : List Frame → ℕ → Type 0
Pinned fs i = (f : Frame) × (get_elem? fs i ≡ some f) × (f.pin_count ≢ 0)

abbrev pub Unpinned : List Frame → ℕ → Type 0
Unpinned fs i = (f : Frame) × (get_elem? fs i ≡ some f) × (f.pin_count ≡ 0)

-- The target stands in the order before none but pinned frames; without a target all are pinned.
abbrev pub Target : List Frame → List ℕ → Result ℕ → Type 0
Target fs l r =
    ((i : ℕ) × (xs : List ℕ) × (ys : List ℕ) × (r ≡ ok i)
      × (l ≡ xs ++ (i ∷ ys))
      × Unpinned fs i
      × All (Pinned fs) ys)
    ⊎ ((r ≡ err pool_exhausted) × All (Pinned fs) l)

-- When the order has only indices of frames, the frame that is evicted is not pinned and all that were
-- used less recently are; there is an error exactly when all frames of the order are pinned.
pub find_evict_target-Target :
    (fs : List Frame) (l : List ℕ)
    → ((i : ℕ) → Has i l → (f : Frame) × (get_elem? fs i ≡ some f))
    → Target fs l (find_evict_target fs l)
unfolding find_evict_target
find_evict_target-Target fs [] there = inr (refl, tt)
find_evict_target-Target fs (i ∷ l) there =
    elim (find_evict_target-Target fs l (λ j h. there j (inr h))) [
      | inl (j, xs, ys, e, at, free, pinned) ↦
          inl (j, i ∷ xs, ys, rw e refl, ap (◌∷◌ i) at, free, pinned)
      | inr (e, pinned) ↦
          let (f, under) = there i (inl refl) in
          elim (ℕ_discrete f.pin_count 0) [
            | yes z ↦ inl (i, [], l, rw (e, under) (ground (arith, z)), refl, (f, under, z), pinned)
            | no ne ↦ inr (rw (e, under) (ground (arith, ne)), ((f, under, ne), pinned))
          ]
    ]

Has-count : (i : ℕ) (l : List ℕ) → Has i l → 1 ≤ count i l
unfolding count
Has-count i [] h = elim h [ ]
Has-count i (j ∷ l) (inl e) = ground (arith, e)
Has-count i (j ∷ l) (inr h) = ground (arith, Has-count i l h)

pub Has-below : (n i : ℕ) (l : List ℕ) → IsOrder n l → Has i l → i < n
Has-below n i l order h = elim (dec_lt i n) [
  | yes lt ↦ lt
  | no ge ↦ absurd (ground (arith, order i, Has-count i l h, ge))
]

count-without : (i j : ℕ) (l : List ℕ) → count j (without i l) ≡ (if i == j then 0 else count j l)
unfolding count without
count-without i j [] = ground arith
count-without i j (k ∷ l) = ground (arith, count-without i j l)

pub move_to_front-IsOrder :
    (n i : ℕ) (l : List ℕ) → i < n → IsOrder n l → IsOrder n (move_to_front i l)
unfolding count
move_to_front-IsOrder n i l lt order j = ground (arith, count-without i j l, order j, lt)

count-indices :
    (n i j : ℕ) → count j (indices n i) ≡ (if leb i j then (if ltb j (i + n) then 1 else 0) else 0)
unfolding count indices
count-indices zero i j = ground arith
count-indices (suc n) i j = ground (arith, count-indices n (suc i) j)

pub indices-IsOrder : (n : ℕ) → IsOrder n (indices n 0)
indices-IsOrder n j = ground (arith, count-indices n 0 j)
