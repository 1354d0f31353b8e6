-- ===== src/PageStore.antt =====
-- `PageId` and the trait `PageStore` of crates/database-track/src/module1/project1.rs, and the
-- counters of project1/stats.rs.
use meridian_space_academy_c.Prelude.{
  ℕ, ◌≡◌, ◌↔◌, Bool, true, ◌&&◌, Option, none, some, List, [], ◌∷◌, ◌==◌, if◌then◌else◌, arith,
}
use meridian_space_academy_c.Result.{Result}

pub record PageId : Type 0 where
  pub relation_id : ℕ
  pub page_no : ℕ

-- The derived `==`.
unfoldable pub same_page : PageId → PageId → Bool
same_page a b = (a.relation_id == b.relation_id) && (a.page_no == b.page_no)

pub same_page_iff : (a b : PageId) → (same_page a b ≡ true) ↔ (a ≡ b)
unfolding same_page
same_page_iff a b = (λ h. ground arith, λ e. ground arith)

-- A store behind `&self`: each call gives the store as the call leaves it. `read_page` fills a
-- buffer of a page, and its caller drops that buffer after an error. `write_page` may write into the
-- buffer that it is given: a pool gives it a copy, and drops it.
pub record PageStore (S : Type 0) : Type 0 where
  pub read_page : S → PageId → S × Result (List ℕ)
  pub write_page : S → PageId → List ℕ → S × Result (Unit {0})

pub record BufferPoolStats : Type 0 where
  pub hits : ℕ
  pub misses : ℕ
  pub evictions : ℕ
  pub clock_second_chances : ℕ

-- A `HashMap<PageId, usize>` as an association list.
abbrev pub Table : Type 0
Table = List (PageId × ℕ)

unfoldable pub lookup : PageId → Table → Option ℕ
lookup k [] = none
lookup k ((j, i) ∷ t) = if same_page j k then some i else lookup k t

unfoldable pub remove : PageId → Table → Table
remove k [] = []
remove k ((j, i) ∷ t) = if same_page j k then remove k t else (j, i) ∷ remove k t

unfoldable pub insert : PageId → ℕ → Table → Table
insert k i t = (k, i) ∷ remove k t

pub lookup-remove :
    (k q : PageId) (t : Table)
    → lookup q (remove k t) ≡ (if same_page k q then none else lookup q t)
unfolding lookup remove
lookup-remove k q [] = ground arith
lookup-remove k q ((j, i) ∷ t) =
    ground (arith, same_page_iff j k, same_page_iff k q, same_page_iff j q, lookup-remove k q t)

pub lookup-insert :
    (k q : PageId) (i : ℕ) (t : Table)
    → lookup q (insert k i t) ≡ (if same_page k q then some i else lookup q t)
unfolding lookup insert
lookup-insert k q i t = ground (arith, lookup-remove k q t)
