-- ===== src/ClockPool/Flush.antt =====
-- `flush_all` of project1/buffer_pool.rs: every dirty page is written back.
use meridian_space_academy_c.Prelude.{
  ℕ, ◌≡◌, ◌∙◌, ◌⊎◌, inl, inr, refl, sym, false, some, List, get_elem?, arith, Option-cases,
}
use meridian_space_academy_c.Result.{Result, ok, err, Error}
use meridian_space_academy_c.PageStore.{PageId, PageStore, lookup}
use meridian_space_academy_c.ClockPool.{Frame, BufferPoolShared, flush_all}
use meridian_space_academy_c.ClockPool.Invariant.{
  Shown, Faithful, IsSound, Still, Still-IsSound, Still-page_of, page_of, page_of-some,
  page_of-none,
}
use meridian_space_academy_c.ClockPool.FlushFrames.{Distinct, Flushed, flush_frames-Flushed}

-- The outcome of `flush_all`: the pool is sound and shows the same pages, and without an error the
-- store has all of them.
pub record Saved {S : Type 0} (shown : Shown S) (p : BufferPoolShared S)
    (r : BufferPoolShared S × Result (Unit {0})) : Type 0 where
  pub sound : IsSound shown r.0
  pub view : (q : PageId) → page_of shown r.0 q ≡ page_of shown p q
  pub answer :
      ((r.1 ≡ ok tt) × ((q : PageId) → shown.contents r.0.store q ≡ page_of shown p q))
      ⊎ ((e : Error) × (r.1 ≡ err e))

module _ {S : Type 0} (io : PageStore S) (shown : Shown S) (faithful : Faithful io shown)
    (p : BufferPoolShared S) (sound : IsSound shown p) where
  abbrev Saves : S × List Frame × Result (Unit {0}) → Type 0
  Saves r = Saved shown p (record { store = r.0; inner = record p.inner { frames = r.1 } }, r.2)

  synced :
      (q : PageId)
      → ((k : ℕ) (f : Frame) (id : PageId)
          → get_elem? p.inner.frames k ≡ some f
          → f.page_id ≡ some id
          → f.dirty ≡ false)
      → shown.contents p.store q ≡ page_of shown p q
  synced q all = elim (Option-cases (lookup q p.inner.page_table)) [
    | inl e ↦ sym (page_of-none shown p q e)
    | inr (i, e) ↦
        let (f, under, page) = sound.cached q i e in
        sound.clean i f q under page (all i f q under page)
        ∙ sym (page_of-some shown p q i f e under)
  ]

  Distinct-frames : Distinct p.inner.frames
  Distinct-frames j k f g id e e' a b =
      ground (arith, sound.mapped j f id e a, sound.mapped k g id e' b)

  Still-Flushed :
      (r : S × List Frame × Result (Unit {0}))
      → Flushed shown p.store p.inner.frames r
      → Still shown p (record { store = r.0; inner = record p.inner { frames = r.1 } })
  Still-Flushed r done = record {
    table = refl;
    count = done.count;
    hand = sound.hand;
    frames = λ k f e.
        let (d, e') = done.frames k f e in
        (
          record f { dirty = d },
          e',
          refl,
          refl,
          sound.used k f e,
          λ id page fresh. done.clean k _ id e' page fresh,
        );
    uncached =
        λ q e. done.untouched q (λ k f e' page. ground (arith, e, sound.mapped k f q e' page));
  }

module _ {S : Type 0} (io : PageStore S) (shown : Shown S) (faithful : Faithful io shown)
    (p : BufferPoolShared S) (sound : IsSound shown p) where
  Saved-Flushed :
      (r : S × List Frame × Result (Unit {0}))
      → Flushed shown p.store p.inner.frames r
      → Saves io shown faithful p sound r
  Saved-Flushed r done =
      let still = Still-Flushed io shown faithful p sound r done in
      let sound' = Still-IsSound shown p _ sound still in
      let view = Still-page_of shown p _ sound still in
      record {
        sound = sound';
        view = view;
        answer = elim done.answer [
          | inl (e, all) ↦ inl (e, λ q. synced io shown faithful _ sound' q all ∙ view q)
          | inr failed ↦ inr failed
        ];
      }

  -- For a sound pool over a faithful store, `flush_all` never panics, keeps the pool sound and the
  -- pages that its readers see, and gives an error or leaves each of these pages in the store.
  pub flush_all-Saved : Saved shown p (flush_all io p)
  unfolding flush_all
  flush_all-Saved = Saved-Flushed _ (
      flush_frames-Flushed io shown faithful p.inner.frames p.store sound.clean
        (Distinct-frames io shown faithful p sound))
