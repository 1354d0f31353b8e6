-- ===== src/ShardedPool/Shards.antt =====
-- The shards of the table in buffer_pool_v3.rs.
use meridian_space_academy_c.Prelude.{
  ℕ, zero, suc, ◌+◌, ◌-◌, ◌*◌, ◌/◌, ◌%◌, ◌^◌, ◌≤◌, ◌<◌, min, ◌≡◌, ◌∙◌, inl, inr, refl, sym, ap,
  subst, false, leb, leb→le, if◌then◌else◌, arith, Bool-cases,
}
use native.Mathlib.Decide.{ℕ_discrete}
use Prim.Native.Nat.{bit_and, bit_and-bitwise, digits}
use native.Mathlib.Nat.{
  div-add-mod', add-mul-mod_self_right, mod-eq_of_lt, mod-lt, pow-le-pow_right,
}

-- `next_power_of_two`, with fuel for the doublings.
unfoldable pub double_until : ℕ → ℕ → ℕ → ℕ
double_until zero p n = p
double_until (suc f) p n = let rest = double_until f (2 * p) n in if leb n p then p else rest

unfoldable pub next_power_of_two : ℕ → ℕ
next_power_of_two n = double_until 64 1 n

unfoldable pub shard_count : ℕ → ℕ
shard_count capacity = next_power_of_two (min capacity 32)

-- `hash` is what the hasher gives for the page.
unfoldable pub shard_index : ℕ → ℕ → ℕ
shard_index hash shards = bit_and hash (shards - 1)

double_mod : (c m d : ℕ) → 0 < m → d ≤ 1 → (c * 2 + d) % (2 * m) ≡ c % m * 2 + d
double_mod c m d pos le =
    ap (λ x. x % (2 * m)) (grind (arith, div-add-mod' c m))
    ∙ add-mul-mod_self_right (c % m * 2 + d) (c / m) (2 * m)
    ∙ mod-eq_of_lt (omega (arith, mod-lt c pos, le))

power_pos : (k : ℕ) → 0 < 2 ^ k
power_pos zero = omega arith
power_pos (suc k) = omega (arith, power_pos k)

halved : (k : ℕ) → (2 ^ suc k - 1) / 2 ≡ 2 ^ k - 1
halved k = omega (arith, power_pos k)

odd : (k : ℕ) → (2 ^ suc k - 1) % 2 ≡ 1
odd k = omega (arith, power_pos k)

whole : (a k : ℕ) → (a / 2 * 2 + a % 2) % (2 * 2 ^ k) ≡ a % 2 ^ suc k
whole a k = grind (arith, div-add-mod' a 2)

digits-mask : (n a k : ℕ) → a ≤ n → digits (λ b. zero) min n a (2 ^ k - 1) ≡ a % 2 ^ k
digits-mask zero zero k le = sym (mod-eq_of_lt (power_pos k))
digits-mask zero (suc a) k le = absurd (omega (arith, le))
digits-mask (suc n) zero k le = sym (mod-eq_of_lt (power_pos k))
digits-mask (suc n) (suc a) zero le =
    omega (arith, digits-mask n (suc a / 2) zero (omega (arith, le)))
digits-mask (suc n) (suc a) (suc k) le =
    rw (halved k, odd k, digits-mask n (suc a / 2) k (omega (arith, le)))
      (omega (
        arith,
        double_mod (suc a / 2) (2 ^ k) (suc a % 2) (power_pos k) (omega arith),
        whole (suc a) k,
      ))

mask-mod : (k a : ℕ) → bit_and a (2 ^ k - 1) ≡ a % 2 ^ k
mask-mod k a = bit_and-bitwise a (2 ^ k - 1) ∙ digits-mask a a k (omega arith)

-- From a power of two on, the doublings end at the first power of two that is large enough.
double_until-power :
    (f k p n : ℕ)
    → p ≡ 2 ^ k
    → n ≤ 2 ^ (k + f)
    → (m : ℕ) × (double_until f p n ≡ 2 ^ m) × (n ≤ 2 ^ m) × (k ≤ m) × (k < m → 2 ^ m < 2 * n)
unfolding double_until
double_until-power zero k p n is le =
    (k, is, grind (arith, le), omega arith, λ h. absurd (omega (arith, h)))
double_until-power (suc f) k p n is le = elim (Bool-cases (leb n p)) [
  | inl small ↦ (
    k,
    rw (small, double_until) is,
    ground (arith, small, is),
    omega arith,
    λ h. absurd (omega (arith, h)),
  )
  | inr large ↦
      let (m, e, up, above, first) =
        double_until-power f (suc k) (2 * p) n (omega (arith, is)) (grind (arith, le)) in
      (m, rw (large, double_until) e, up, omega (arith, above), last k m p n is large above first)
]
  where
    last :
        (k m p n : ℕ)
        → p ≡ 2 ^ k
        → leb n p ≡ false
        → suc k ≤ m
        → (suc k < m → 2 ^ m < 2 * n)
        → k < m
        → 2 ^ m < 2 * n
    last k m p n is large above first h = elim (ℕ_discrete m (suc k)) [
      | yes here ↦ subst (λ x. 2 ^ x < 2 * n) (sym here) (ground (arith, is, large))
      | no past ↦ first (omega (arith, above, past))
    ]

past : (m : ℕ) → leb m 5 ≡ false → 6 ≤ m
past m large = ground (arith, large)

below_64 : (m : ℕ) → 2 ^ m < 64 → 2 ^ m ≤ 32
below_64 m lt = elim (Bool-cases (leb m 5)) [
  | inl small ↦ grind (arith, pow-le-pow_right {n = 2} (omega arith) (leb→le m 5 small))
  | inr large ↦ absurd (omega (arith, lt, pow-le-pow_right {n = 2} (omega arith) (past m large)))
]

sized :
    (m capacity hash : ℕ)
    → 0 < capacity
    → min capacity 32 ≤ 2 ^ m
    → (0 < m → 2 ^ m < 2 * min capacity 32)
    → (bit_and hash (2 ^ m - 1) < 2 ^ m)
      × (bit_and hash (2 ^ m - 1) ≡ hash % 2 ^ m)
      × (min capacity 32 ≤ 2 ^ m)
      × (2 ^ m < 2 * min capacity 32)
      × (2 ^ m ≤ 32)
sized m capacity hash pos up first =
    let near : 2 ^ m < 2 * min capacity 32 = tight m first in
    (
      omega (arith, mask-mod m hash, mod-lt hash (power_pos m)),
      mask-mod m hash,
      up,
      near,
      below_64 m (omega (arith, near)),
    )
  where
    tight : (m : ℕ) → (0 < m → 2 ^ m < 2 * min capacity 32) → 2 ^ m < 2 * min capacity 32
    tight zero first = omega (arith, pos)
    tight (suc m) first = first (omega arith)

-- For a pool that has frames there are 1 to 32 shards, enough for one per frame up to 32, and fewer
-- than twice as many; every hash gives the index of a shard, the hash modulo their number.
pub shard_index-lt :
    (capacity hash : ℕ)
    → 0 < capacity
    → (shard_index hash (shard_count capacity) < shard_count capacity)
      × (shard_index hash (shard_count capacity) ≡ hash % shard_count capacity)
      × (min capacity 32 ≤ shard_count capacity)
      × (shard_count capacity < 2 * min capacity 32)
      × (shard_count capacity ≤ 32)
unfolding shard_index shard_count next_power_of_two
shard_index-lt capacity hash pos =
    let (m, e, up, above, first) = double_until-power 64 0 1 (min capacity 32) refl (omega arith) in
    rw e (sized m capacity hash pos up first)
