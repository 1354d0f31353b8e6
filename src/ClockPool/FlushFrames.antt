-- ===== src/ClockPool/FlushFrames.antt =====
-- The loop of `flush_all` in project1/buffer_pool.rs.
use meridian_space_academy_c.Prelude.{
  ℕ, zero, suc, ◌≡◌, ◌≢◌, ◌∙◌, ◌⊎◌, inl, inr, refl, sym, ap, Bool, true, false, Option, none, some,
  List, [], ◌∷◌, length, get_elem?, arith,
}
use meridian_space_academy_c.Result.{Result, ok, err, Error}
use meridian_space_academy_c.PageStore.{PageId, PageStore}
use meridian_space_academy_c.ClockPool.{Frame, flush_frames}
use meridian_space_academy_c.ClockPool.Invariant.{Shown, Faithful}

-- No page is in two frames.
abbrev pub Distinct : List Frame → Type 0
Distinct fs =
    (j k : ℕ) (f g : Frame) (id : PageId)
    → get_elem? fs j ≡ some f
    → get_elem? fs k ≡ some g
    → f.page_id ≡ some id
    → g.page_id ≡ some id
    → j ≡ k

module _ {S : Type 0} (shown : Shown S) where
  abbrev pub Clean : S → List Frame → Type 0
  Clean store fs =
      (k : ℕ) (f : Frame) (id : PageId)
      → get_elem? fs k ≡ some f
      → f.page_id ≡ some id
      → f.dirty ≡ false
      → shown.contents store id ≡ shown.visible f.bytes

  -- Only dirty flags of the frames and pages of the frames in the store are changed.
  pub record Flushed (store : S) (fs : List Frame) (r : S × List Frame × Result (Unit {0}))
      : Type 0 where
    pub count : length r.1 ≡ length fs
    pub frames :
        (k : ℕ) (f : Frame)
        → get_elem? fs k ≡ some f
        → (d : Bool) × (get_elem? r.1 k ≡ some (record f { dirty = d }))
    pub clean : Clean r.0 r.1
    pub untouched :
        (q : PageId)
        → ((k : ℕ) (f : Frame) → get_elem? fs k ≡ some f → f.page_id ≢ some q)
        → shown.contents r.0 q ≡ shown.contents store q
    pub answer :
        ((r.2 ≡ ok tt)
          × ((k : ℕ) (f : Frame) (id : PageId)
              → get_elem? r.1 k ≡ some f
              → f.page_id ≡ some id
              → f.dirty ≡ false))
        ⊎ ((e : Error) × (r.2 ≡ err e))

  module _ (f : Frame) (fs : List Frame) (distinct : Distinct (f ∷ fs)) where
    alone :
        (id : PageId)
        → f.page_id ≡ some id
        → (k : ℕ) (g : Frame) → get_elem? fs k ≡ some g
        → g.page_id ≢ some id
    alone id page k g e page' = omega (arith, distinct 0 (suc k) f g id refl e page page')

    -- The frame `f` with the flag `d`, and then the rest of the loop from the store `store'`.
    Flushed-cons :
        (store store' : S) (d : Bool) (r : S × List Frame × Result (Unit {0}))
        → ((q : PageId) → f.page_id ≢ some q → shown.contents store' q ≡ shown.contents store q)
        → ((id : PageId) → f.page_id ≡ some id → d ≡ false)
        → ((id : PageId) → f.page_id ≡ some id → shown.contents store' id ≡ shown.visible f.bytes)
        → Flushed store' fs r
        → Flushed store (f ∷ fs) (r.0, record f { dirty = d } ∷ r.1, r.2)
    Flushed-cons store store' d r others flag stored done = record {
      count = ap suc done.count;
      frames = frames;
      clean = clean;
      untouched = λ q free. done.untouched q (λ k g e. free (suc k) g e) ∙ others q (free 0 f refl);
      answer = elim done.answer [ inl (e, all) ↦ inl (e, marks all) | inr failed ↦ inr failed ];
    }
      where
        frames :
            (k : ℕ) (g : Frame)
            → get_elem? (f ∷ fs) k ≡ some g
            → (b : Bool) × (get_elem? (record f { dirty = d } ∷ r.1) k
                ≡ some (record g { dirty = b }))
        frames zero g e =
            let same : f ≡ g = ground (arith, e) in
            (d, ap (λ (x : Frame). some (record x { dirty = d })) same)
        frames (suc k) g e = done.frames k g e

        clean : Clean r.0 (record f { dirty = d } ∷ r.1)
        clean zero g id e page _ =
            let same : record f { dirty = d } ≡ g = ground (arith, e) in
            let page' : f.page_id ≡ some id = ap (λ (x : Frame). x.page_id) same ∙ page in
            done.untouched id (alone id page')
            ∙ stored id page'
            ∙ ap (λ (x : Frame). shown.visible x.bytes) same
        clean (suc k) g id e page fresh = done.clean k g id e page fresh

        marks :
            ((k : ℕ) (g : Frame) (id : PageId)
              → get_elem? r.1 k ≡ some g
              → g.page_id ≡ some id
              → g.dirty ≡ false)
            → (k : ℕ) (g : Frame) (id : PageId)
            → get_elem? (record f { dirty = d } ∷ r.1) k ≡ some g
            → g.page_id ≡ some id
            → g.dirty ≡ false
        marks all zero g id e page =
            let same : record f { dirty = d } ≡ g = ground (arith, e) in
            sym (ap (λ (x : Frame). x.dirty) same)
            ∙ flag id (ap (λ (x : Frame). x.page_id) same ∙ page)
        marks all (suc k) g id e page = all k g id e page

module _ {S : Type 0} (io : PageStore S) (shown : Shown S) (faithful : Faithful io shown) where
  abbrev pub Outcome : S → List Frame → Type 0
  Outcome store fs = Flushed shown store fs (flush_frames io store fs)

  Flushed-failed :
      (store store' : S) (id : PageId) (f : Frame) (fs : List Frame) (e : Error)
      → f.page_id ≡ some id
      → f.dirty ≡ true
      → Clean shown store (f ∷ fs)
      → Distinct (f ∷ fs)
      → ((q : PageId) → q ≢ id → shown.contents store' q ≡ shown.contents store q)
      → Flushed shown store (f ∷ fs) (store', f ∷ fs, err e)
  Flushed-failed store store' id f fs e page dirty clean distinct same = record {
    count = refl;
    frames = λ k g e'. (g.dirty, e');
    clean = clean';
    untouched = λ q free. same q (λ is. free 0 f refl (page ∙ ap some (sym is)));
    answer = inr (e, refl);
  }
    where
      clean' : Clean shown store' (f ∷ fs)
      clean' zero g q e' page' fresh = ground (arith, e', dirty, fresh)
      clean' (suc k) g q e' page' fresh =
          same q (λ is. alone shown f fs distinct id page k g e' (page' ∙ ap some is))
          ∙ clean (suc k) g q e' page' fresh

  pub flush_frames-Flushed :
      (fs : List Frame) (store : S) → Clean shown store fs → Distinct fs → Outcome store fs
  unfolding flush_frames
  flush_frames-Flushed [] store clean distinct = record {
    count = refl;
    frames = λ k f e. cc;
    clean = clean;
    untouched = λ q free. refl;
    answer = inl (refl, λ k f id e. cc);
  }
  flush_frames-Flushed (f ∷ fs) store clean distinct =
      go f.page_id f.dirty f.bytes f.pin_count f.usage_count clean distinct (λ store' clean'.
        flush_frames-Flushed fs store' clean'
          (λ j k g h id e e' a b. omega (arith, distinct (suc j) (suc k) g h id e e' a b)))
    where
      go :
          (o : Option PageId) (d : Bool) (bytes : List ℕ) (pins uses : ℕ)
          → let f : Frame = record {
            page_id = o;
            bytes = bytes;
            pin_count = pins;
            usage_count = uses;
            dirty = d;
          } in
            Clean shown store (f ∷ fs)
            → Distinct (f ∷ fs)
            → ((store' : S) → Clean shown store' fs → Outcome store' fs)
            → Outcome store (f ∷ fs)
      go none d bytes pins uses clean distinct rec =
          Flushed-cons shown _ fs distinct store store d _ (λ q _. refl)
            (λ id e. absurd (ground (arith, e))) (λ id e. absurd (ground (arith, e)))
            (rec store (λ k g id e. clean (suc k) g id e))
      go (some id) false bytes pins uses clean distinct rec =
          Flushed-cons shown _ fs distinct store store false _ (λ q _. refl) (λ _ _. refl)
            (λ q e. clean 0 _ q refl e refl) (rec store (λ k g q e. clean (suc k) g q e))
      go (some id) true bytes pins uses clean distinct rec =
          let (store', outcome, same) = faithful.writes store id bytes in
          elim outcome [
            | inl (wrote, now) ↦
                rw (wrote, flush_frames)
                  (Flushed-cons shown _ fs distinct store store' false _
                    (λ q ne. same q (λ is. ne (ap some (sym is)))) (λ _ _. refl)
                    (λ q e.
                      let is : id ≡ q = ground (arith, e) in
                      ap (shown.contents store') (sym is) ∙ now)
                    (rec store' (λ k g q e page fresh.
                      same q (λ is. alone shown _ fs distinct id refl k g e (page ∙ ap some is))
                      ∙ clean (suc k) g q e page fresh)))
            | inr (e, failed) ↦
                rw (failed, flush_frames)
                  (Flushed-failed store store' id _ fs e refl refl clean distinct same)
          ]
