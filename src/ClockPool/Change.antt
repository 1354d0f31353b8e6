-- ===== src/ClockPool/Change.antt =====
-- A frame of project1/buffer_pool.rs is changed and keeps its page.
use meridian_space_academy_c.Prelude.{
  lt_of_get_elem?, ℕ, ◌≤◌, ◌≡◌, ◌≢◌, ◌∙◌, refl, sym, ap, false, some, length-set, get_elem?, set,
  get_elem?-set_self, get_elem?-set_ne, arith,
}
use native.Mathlib.Decide.{ℕ_discrete}
use meridian_space_academy_c.Config.{max_usage_count}
use meridian_space_academy_c.PageStore.{PageId, BufferPoolStats}
use meridian_space_academy_c.ClockPool.{Frame, BufferPoolShared}
use meridian_space_academy_c.ClockPool.Invariant.{Shown, IsSound, Still}

module _ {S : Type 0} (shown : Shown S) where
  module _ (p : BufferPoolShared S) (sound : IsSound shown p) (i : ℕ) (f : Frame)
      (under : get_elem? p.inner.frames i ≡ some f) (store' : S) where
    -- The frame keeps its page and its bytes; the store may have changed that page.
    pub Still-put :
        (f' : Frame) (stats : BufferPoolStats)
        → f'.page_id ≡ f.page_id
        → f'.bytes ≡ f.bytes
        → f'.usage_count ≤ max_usage_count
        → ((id : PageId)
            → f.page_id ≡ some id
            → f'.dirty ≡ false
            → shown.contents store' id ≡ shown.visible f.bytes)
        → ((q : PageId) → f.page_id ≢ some q → shown.contents store' q ≡ shown.contents p.store q)
        → Still shown p (record {
          store = store';
          inner = record p.inner { frames = set p.inner.frames i f'; stats = stats };
        })
    Still-put f' stats page bytes used clean unchanged = record {
      table = refl;
      count = length-set p.inner.frames i f';
      hand = sound.hand;
      frames = λ k g e. elim (ℕ_discrete k i) [
        | yes here ↦
            let same : f ≡ g = ground (arith, rw here at e, under) in
            (
              f',
              rw here (
                  get_elem?-set_self p.inner.frames i f'
                    (lt_of_get_elem? p.inner.frames i f under)),
              page ∙ ap (λ (x : Frame). x.page_id) same,
              bytes ∙ ap (λ (x : Frame). x.bytes) same,
              used,
              λ id e' fresh. clean id (sym page ∙ e') fresh ∙ sym (ap shown.visible bytes),
            )
        | no ne ↦ (
          g,
          get_elem?-set_ne p.inner.frames i k f' (λ x. ne (sym x)) ∙ e,
          refl,
          refl,
          sound.used k g e,
          λ id e' fresh.
              unchanged id (λ x. ne (one_frame k g id e e' x)) ∙ sound.clean k g id e e' fresh,
        )
      ];
      uncached = λ q e. unchanged q (λ x. ground (arith, e, sound.mapped i f q under x));
    }
      where
        one_frame :
            (k : ℕ) (g : Frame) (id : PageId)
            → get_elem? p.inner.frames k ≡ some g
            → g.page_id ≡ some id
            → f.page_id ≡ some id
            → k ≡ i
        one_frame k g id e e' x =
            ground (arith, sound.mapped k g id e e', sound.mapped i f id under x)
