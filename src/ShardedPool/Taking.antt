-- ===== src/ShardedPool/Taking.antt =====
-- Frames of buffer_pool_v3.rs that are taken, given a page, and given back.
use meridian_space_academy_c.Prelude.{ℕ, ◌<◌, ◌≡◌, ◌∙◌, ◌⊎◌, sym, Option, none, some, arith}
use meridian_space_academy_c.PageStore.{PageId, same_page_iff}
use meridian_space_academy_c.ShardedPool.{
  FrameState, empty, valid, evicting, Entry, ready, leaving, update, put,
}
use meridian_space_academy_c.ShardedPool.Agents.{Agent}
use meridian_space_academy_c.ShardedPool.Shape.{guarding, evicts, claims, leaves, Shape}

module _ {count : ℕ} {st : ℕ → FrameState} {tb : PageId → Option Entry} {ag : ℕ → Agent}
    (s : Shape count st tb ag) (j : ℕ) (a : Agent) where
  -- A frame that has no page is taken.
  pub reserved_empty :
      (i : ℕ) (st' : ℕ → FrameState)
      → ((m : ℕ) → st' m ≡ update st i (evicting j) m)
      → i < count
      → st i ≡ empty
      → evicts (ag j) ≡ none
      → evicts a ≡ some i
      → claims a ≡ claims (ag j)
      → leaves a ≡ leaves (ag j)
      → guarding a ≡ none
      → Shape count st' tb (update ag j a)
  reserved_empty i st' is lt free no_ev ev cl lv gd = record {
    guard = λ k q m e. is m ∙ ground (arith, s.guard k q m, gd, free, e);
    of_ready = λ q m e. is m ∙ ground (arith, s.of_ready q m e, free);
    to_ready = λ q m e. ground (arith, s.to_ready q m, sym (is m) ∙ e);
    of_evicting = λ m k e. ground (arith, s.of_evicting m k, ev, no_ev, sym (is m) ∙ e);
    to_evicting = λ m k e. is m ∙ ground (arith, s.to_evicting m k, ev, free, e);
    of_loading = λ q k e. ground (arith, s.of_loading q k e, cl);
    to_loading = λ q k e. ground (arith, s.to_loading q k, cl, e);
    of_leaving = λ q k e. ground (arith, s.of_leaving q k e, lv);
    to_leaving = λ q k e. ground (arith, s.to_leaving q k, lv, e);
    outside = λ m le. is m ∙ ground (arith, s.outside m le, lt, le);
  }

  -- A frame that has a page and no guard is taken, and its page leaves.
  pub reserved_valid :
      (i : ℕ) (old : PageId) (st' : ℕ → FrameState)
      → ((m : ℕ) → st' m ≡ update st i (evicting j) m)
      → i < count
      → st i ≡ valid old
      → ((k : ℕ) (q : PageId) → ¬ (guarding (ag k) ≡ some (q, i)))
      → evicts (ag j) ≡ none
      → evicts a ≡ some i
      → claims a ≡ claims (ag j)
      → leaves (ag j) ≡ none
      → leaves a ≡ some old
      → guarding a ≡ none
      → Shape count st' (put tb old (some (leaving j))) (update ag j a)
  reserved_valid i old st' is lt has unused no_ev ev cl no_lv lv gd =
      let here : tb old ≡ some (ready i) = s.to_ready old i has in
      record {
        guard = λ k q m e. is m ∙ ground (arith, s.guard k q m, gd, unused k q, e);
        of_ready = λ q m e. is m ∙ ground (arith, s.of_ready q m, same_page_iff old q, has, e);
        to_ready =
            λ q m e. ground (arith, s.to_ready q m, same_page_iff old q, here, sym (is m) ∙ e);
        of_evicting = λ m k e. ground (arith, s.of_evicting m k, ev, no_ev, sym (is m) ∙ e);
        to_evicting = λ m k e. is m ∙ ground (arith, s.to_evicting m k, ev, has, e);
        of_loading = λ q k e. ground (arith, s.of_loading q k, same_page_iff old q, cl, e);
        to_loading = λ q k e. ground (arith, s.to_loading q k, same_page_iff old q, cl, here, e);
        of_leaving = λ q k e. ground (arith, s.of_leaving q k, same_page_iff old q, lv, no_lv, e);
        to_leaving = λ q k e. ground (arith, s.to_leaving q k, same_page_iff old q, lv, here, e);
        outside = λ m le. is m ∙ ground (arith, s.outside m le, lt, le);
      }

  -- The page that leaves is gone.
  pub old_gone :
      (old : PageId)
      → leaves (ag j) ≡ some old
      → evicts a ≡ evicts (ag j)
      → claims a ≡ claims (ag j)
      → leaves a ≡ none
      → guarding a ≡ none
      → Shape count st (put tb old none) (update ag j a)
  old_gone old had ev cl lv gd =
      let own : tb old ≡ some (leaving j) = s.to_leaving old j had in
      record {
        guard = λ k q i e. ground (arith, s.guard k q i, gd, e);
        of_ready = λ q i e. ground (arith, s.of_ready q i, same_page_iff old q, e);
        to_ready = λ q i e. ground (arith, s.to_ready q i e, same_page_iff old q, own);
        of_evicting = λ i k e. ground (arith, s.of_evicting i k e, ev);
        to_evicting = λ i k e. ground (arith, s.to_evicting i k, ev, e);
        of_loading = λ q k e. ground (arith, s.of_loading q k, same_page_iff old q, cl, e);
        to_loading = λ q k e. ground (arith, s.to_loading q k, same_page_iff old q, cl, own, e);
        of_leaving = λ q k e. ground (arith, s.of_leaving q k, same_page_iff old q, lv, had, e);
        to_leaving = λ q k e. ground (arith, s.to_leaving q k, same_page_iff old q, lv, own, e);
        outside = s.outside;
      }

  -- The frame of a load has the page `id`, which its agent guards: the new page, or the old one again.
  pub shown :
      (i : ℕ) (id : PageId) (st' : ℕ → FrameState)
      → ((m : ℕ) → st' m ≡ update st i (valid id) m)
      → evicts (ag j) ≡ some i
      → evicts a ≡ none
      → ((claims (ag j) ≡ some id) × (claims a ≡ none) × (leaves (ag j) ≡ none))
        ⊎ ((leaves (ag j) ≡ some id) × (claims a ≡ claims (ag j)))
      → leaves a ≡ none
      → guarding a ≡ some (id, i)
      → Shape count st' (put tb id (some (ready i))) (update ag j a)
  shown i id st' is had ev from lv gd =
      let taken : st i ≡ evicting j = s.to_evicting i j had in
      let own_l = s.to_loading id j in
      let own_v = s.to_leaving id j in
      record {
        guard = λ k q m e. is m ∙ ground (arith, s.guard k q m, gd, taken, e);
        of_ready = λ q m e. is m ∙ ground (arith, s.of_ready q m, same_page_iff id q, taken, e);
        to_ready = λ q m e.
            ground (arith, s.to_ready q m, same_page_iff id q, own_l, own_v, from, sym (is m) ∙ e);
        of_evicting = λ m k e. ground (arith, s.of_evicting m k, ev, had, sym (is m) ∙ e);
        to_evicting = λ m k e. is m ∙ ground (arith, s.to_evicting m k, ev, taken, e);
        of_loading = λ q k e. ground (arith, s.of_loading q k, same_page_iff id q, from, e);
        to_loading =
            λ q k e. ground (arith, s.to_loading q k, same_page_iff id q, own_l, own_v, from, e);
        of_leaving = λ q k e. ground (arith, s.of_leaving q k, same_page_iff id q, from, lv, e);
        to_leaving = λ q k e.
            ground (arith, s.to_leaving q k, same_page_iff id q, own_l, own_v, from, lv, e);
        outside = λ m le. is m ∙ ground (arith, s.outside m le, taken);
      }

  -- The frame of a load that failed has no page again.
  pub emptied :
      (i : ℕ) (st' : ℕ → FrameState)
      → ((m : ℕ) → st' m ≡ update st i empty m)
      → evicts (ag j) ≡ some i
      → evicts a ≡ none
      → claims a ≡ claims (ag j)
      → leaves a ≡ leaves (ag j)
      → guarding a ≡ none
      → Shape count st' tb (update ag j a)
  emptied i st' is had ev cl lv gd =
      let taken : st i ≡ evicting j = s.to_evicting i j had in
      record {
        guard = λ k q m e. is m ∙ ground (arith, s.guard k q m, gd, taken, e);
        of_ready = λ q m e. is m ∙ ground (arith, s.of_ready q m e, taken);
        to_ready = λ q m e. ground (arith, s.to_ready q m, sym (is m) ∙ e);
        of_evicting = λ m k e. ground (arith, s.of_evicting m k, ev, had, sym (is m) ∙ e);
        to_evicting = λ m k e. is m ∙ ground (arith, s.to_evicting m k, ev, taken, e);
        of_loading = λ q k e. ground (arith, s.of_loading q k e, cl);
        to_loading = λ q k e. ground (arith, s.to_loading q k, cl, e);
        of_leaving = λ q k e. ground (arith, s.of_leaving q k e, lv);
        to_leaving = λ q k e. ground (arith, s.to_leaving q k, lv, e);
        outside = λ m le. is m ∙ ground (arith, s.outside m le);
      }
