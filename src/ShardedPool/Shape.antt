-- ===== src/ShardedPool/Shape.antt =====
-- How the frames, the table and the threads of buffer_pool_v3.rs stand to each other.
use meridian_space_academy_c.Prelude.{ℕ, ◌≤◌, ◌≡◌, ◌∙◌, sym, Option, none, some, arith}
use meridian_space_academy_c.PageStore.{PageId, same_page_iff}
use meridian_space_academy_c.ShardedPool.{
  FrameState, empty, valid, evicting, Entry, ready, loading, leaving, update, put,
}
use meridian_space_academy_c.ShardedPool.Agents.{
  Agent, holding, flushing, dirty_seen, flushed_page, flush_done, choosing, scanning, waiting,
  reserved, clean, fetched, filled, removed, published, failing, restored, unpinned,
}

-- The page and the frame that an agent may use.
abbrev pub guarding : Agent → Option (PageId × ℕ)
guarding (holding id i) = some (id, i)
guarding (flushing id i) = some (id, i)
guarding (dirty_seen id i) = some (id, i)
guarding (flushed_page id i) = some (id, i)
guarding (flush_done id i) = some (id, i)
guarding (published id v) = some (id, v.index)
guarding (restored id v) = elim v.old_page_id [ none ↦ none | some old ↦ some (old, v.index) ]
guarding a = none

-- The frame that an agent has taken out of use.
abbrev pub evicts : Agent → Option ℕ
evicts (reserved id mode v) = some v.index
evicts (clean id mode v) = some v.index
evicts (fetched id mode v b) = some v.index
evicts (filled id v) = some v.index
evicts (removed id v) = some v.index
evicts (failing id v) = some v.index
evicts a = none

-- The page that an agent is loading.
abbrev pub claims : Agent → Option PageId
claims (choosing id mode n) = some id
claims (scanning id mode n) = some id
claims (waiting id mode k t) = some id
claims (reserved id mode v) = some id
claims (clean id mode v) = some id
claims (fetched id mode v b) = some id
claims (filled id v) = some id
claims (removed id v) = some id
claims (failing id v) = some id
claims (restored id v) = some id
claims (unpinned id) = some id
claims a = none

-- The page that leaves its frame for that.
abbrev pub leaves : Agent → Option PageId
leaves (reserved id mode v) = v.old_page_id
leaves (clean id mode v) = v.old_page_id
leaves (fetched id mode v b) = v.old_page_id
leaves (filled id v) = v.old_page_id
leaves (failing id v) = v.old_page_id
leaves a = none

pub record Shape (count : ℕ) (st : ℕ → FrameState) (tb : PageId → Option Entry) (ag : ℕ → Agent)
    : Type 0 where
  pub guard : (j : ℕ) (id : PageId) (i : ℕ) → guarding (ag j) ≡ some (id, i) → st i ≡ valid id
  pub of_ready : (id : PageId) (i : ℕ) → tb id ≡ some (ready i) → st i ≡ valid id
  pub to_ready : (id : PageId) (i : ℕ) → st i ≡ valid id → tb id ≡ some (ready i)
  pub of_evicting : (i j : ℕ) → st i ≡ evicting j → evicts (ag j) ≡ some i
  pub to_evicting : (i j : ℕ) → evicts (ag j) ≡ some i → st i ≡ evicting j
  pub of_loading : (id : PageId) (j : ℕ) → tb id ≡ some (loading j) → claims (ag j) ≡ some id
  pub to_loading : (id : PageId) (j : ℕ) → claims (ag j) ≡ some id → tb id ≡ some (loading j)
  pub of_leaving : (id : PageId) (j : ℕ) → tb id ≡ some (leaving j) → leaves (ag j) ≡ some id
  pub to_leaving : (id : PageId) (j : ℕ) → leaves (ag j) ≡ some id → tb id ≡ some (leaving j)
  pub outside : (i : ℕ) → count ≤ i → st i ≡ empty

module _ {count : ℕ} {st : ℕ → FrameState} {tb : PageId → Option Entry} {ag : ℕ → Agent}
    (s : Shape count st tb ag) (j : ℕ) (a : Agent) where
  -- What the agent has taken stays so, and what it guards is right.
  pub calm :
      (st' : ℕ → FrameState)
      → ((i : ℕ) → st' i ≡ st i)
      → evicts a ≡ evicts (ag j)
      → claims a ≡ claims (ag j)
      → leaves a ≡ leaves (ag j)
      → ((id : PageId) (i : ℕ) → guarding a ≡ some (id, i) → st i ≡ valid id)
      → Shape count st' tb (update ag j a)
  calm st' same ev cl lv gd = record {
    guard = λ k id i e. same i ∙ ground (arith, s.guard k id i, gd id i, e);
    of_ready = λ id i e. same i ∙ s.of_ready id i e;
    to_ready = λ id i e. s.to_ready id i (sym (same i) ∙ e);
    of_evicting = λ i k e. ground (arith, s.of_evicting i k (sym (same i) ∙ e), ev);
    to_evicting = λ i k e. same i ∙ ground (arith, s.to_evicting i k, ev, e);
    of_loading = λ id k e. ground (arith, s.of_loading id k e, cl);
    to_loading = λ id k e. ground (arith, s.to_loading id k, cl, e);
    of_leaving = λ id k e. ground (arith, s.of_leaving id k e, lv);
    to_leaving = λ id k e. ground (arith, s.to_leaving id k, lv, e);
    outside = λ i le. same i ∙ s.outside i le;
  }

  -- A page without an entry is claimed.
  pub claimed :
      (id : PageId) (st' : ℕ → FrameState)
      → ((i : ℕ) → st' i ≡ st i)
      → tb id ≡ none
      → evicts a ≡ evicts (ag j)
      → claims (ag j) ≡ none
      → claims a ≡ some id
      → leaves a ≡ leaves (ag j)
      → guarding a ≡ none
      → Shape count st' (put tb id (some (loading j))) (update ag j a)
  claimed id st' same free ev no_claim cl lv gd = record {
    guard = λ k q i e. same i ∙ ground (arith, s.guard k q i, gd, e);
    of_ready = λ q i e. same i ∙ ground (arith, s.of_ready q i, same_page_iff id q, e);
    to_ready = λ q i e. ground (arith, s.to_ready q i (sym (same i) ∙ e), same_page_iff id q, free);
    of_evicting = λ i k e. ground (arith, s.of_evicting i k (sym (same i) ∙ e), ev);
    to_evicting = λ i k e. same i ∙ ground (arith, s.to_evicting i k, ev, e);
    of_loading = λ q k e. ground (arith, s.of_loading q k, same_page_iff id q, cl, no_claim, e);
    to_loading =
        λ q k e. ground (arith, s.to_loading q k, same_page_iff id q, cl, no_claim, free, e);
    of_leaving = λ q k e. ground (arith, s.of_leaving q k, same_page_iff id q, lv, e);
    to_leaving = λ q k e. ground (arith, s.to_leaving q k, same_page_iff id q, lv, free, e);
    outside = λ i le. same i ∙ s.outside i le;
  }

  -- A claim is given up.
  pub unclaimed :
      (id : PageId)
      → claims (ag j) ≡ some id
      → evicts a ≡ evicts (ag j)
      → claims a ≡ none
      → leaves a ≡ leaves (ag j)
      → guarding a ≡ none
      → Shape count st (put tb id none) (update ag j a)
  unclaimed id had ev cl lv gd =
      let own : tb id ≡ some (loading j) = s.to_loading id j had in
      record {
        guard = λ k q i e. ground (arith, s.guard k q i, gd, e);
        of_ready = λ q i e. ground (arith, s.of_ready q i, same_page_iff id q, e);
        to_ready = λ q i e. ground (arith, s.to_ready q i e, same_page_iff id q, own);
        of_evicting = λ i k e. ground (arith, s.of_evicting i k e, ev);
        to_evicting = λ i k e. ground (arith, s.to_evicting i k, ev, e);
        of_loading = λ q k e. ground (arith, s.of_loading q k, same_page_iff id q, cl, had, e);
        to_loading = λ q k e. ground (arith, s.to_loading q k, same_page_iff id q, cl, own, e);
        of_leaving = λ q k e. ground (arith, s.of_leaving q k, same_page_iff id q, lv, e);
        to_leaving = λ q k e. ground (arith, s.to_leaving q k, same_page_iff id q, lv, own, e);
        outside = s.outside;
      }
