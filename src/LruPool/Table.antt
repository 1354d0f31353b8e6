-- ===== src/LruPool/Table.antt =====
-- `HashMap<u32, usize>` of part2/buffer_pool.rs as an association list.
use meridian_space_academy_c.Prelude.{
  ℕ, ◌≡◌, Option, none, some, List, [], ◌∷◌, ◌==◌, if◌then◌else◌, arith,
}

unfoldable pub lookup : ℕ → List (ℕ × ℕ) → Option ℕ
lookup k [] = none
lookup k ((j, i) ∷ t) = if j == k then some i else lookup k t

unfoldable pub remove : ℕ → List (ℕ × ℕ) → List (ℕ × ℕ)
remove k [] = []
remove k ((j, i) ∷ t) = if j == k then remove k t else (j, i) ∷ remove k t

unfoldable pub insert : ℕ → ℕ → List (ℕ × ℕ) → List (ℕ × ℕ)
insert k i t = (k, i) ∷ remove k t

pub lookup-remove :
    (k q : ℕ) (t : List (ℕ × ℕ)) → lookup q (remove k t) ≡ (if k == q then none else lookup q t)
unfolding lookup remove
lookup-remove k q [] = ground arith
lookup-remove k q ((j, i) ∷ t) = ground (arith, lookup-remove k q t)

pub lookup-insert :
    (k q i : ℕ) (t : List (ℕ × ℕ))
    → lookup q (insert k i t) ≡ (if k == q then some i else lookup q t)
unfolding lookup insert
lookup-insert k q i t = ground (arith, lookup-remove k q t)
