-- ===== src/ClockPool/Invariant.antt =====
-- The states of the buffer pool of project1/buffer_pool.rs over a store that keeps what is written.
use meridian_space_academy_c.Prelude.{
  get_elem?-lt, lt_of_get_elem?, ℕ, ◌≤◌, ◌<◌, ◌≡◌, ◌≢◌, ◌∙◌, ◌⊎◌, inl, inr, refl, sym, ap, subst,
  false, none, some, List, [], get_elem?, arith, Option-cases,
}
use meridian_space_academy_c.Config.{max_usage_count}
use meridian_space_academy_c.Result.{ok, err, Error}
use meridian_space_academy_c.PageStore.{PageId, PageStore, lookup}
use meridian_space_academy_c.ClockPool.{Frame, BufferPoolShared}
use meridian_space_academy_c.ClockPool.Clock.{frame_count}

-- What the pages of a store are. A store may keep bytes of its own in a page, a checksum say: what
-- counts of the bytes of a page is their `visible` part, and `contents` gives that part of a page.
pub record Shown (S : Type 0) : Type 0 where
  pub contents : S → PageId → List ℕ
  pub visible : List ℕ → List ℕ

-- A store with the pages that `shown` says: no call panics. A read gives the page or fails, and
-- changes no page. A write changes no other page, and has stored the page if it succeeds.
pub record Faithful {S : Type 0} (io : PageStore S) (shown : Shown S) : Type 0 where
  pub reads :
      (s : S) (id : PageId)
      → (s' : S) × (((b : List ℕ) × (io.read_page s id ≡ (s', ok b))
            × (shown.contents s id ≡ shown.visible b))
          ⊎ ((e : Error) × (io.read_page s id ≡ (s', err e))))
        × ((q : PageId) → shown.contents s' q ≡ shown.contents s q)
  pub writes :
      (s : S) (id : PageId) (bytes : List ℕ)
      → (s' : S) × (((io.write_page s id bytes ≡ (s', ok tt))
            × (shown.contents s' id ≡ shown.visible bytes))
          ⊎ ((e : Error) × (io.write_page s id bytes ≡ (s', err e))))
        × ((q : PageId) → q ≢ id → shown.contents s' q ≡ shown.contents s q)

module _ {S : Type 0} (shown : Shown S) where
  -- What a reader of the page `id` sees: what counts of the frame's bytes if it is cached, else what
  -- the store has.
  unfoldable pub page_of : BufferPoolShared S → PageId → List ℕ
  page_of p id = elim (lookup id p.inner.page_table) [
    | none ↦ shown.contents p.store id
    | some i ↦ elim (get_elem? p.inner.frames i) [ none ↦ [] | some f ↦ shown.visible f.bytes ]
  ]

  -- The hand is on a frame, the usage counts are in bounds, the table and the frames agree, and a
  -- frame that is not dirty holds what the store has.
  pub record IsSound (p : BufferPoolShared S) : Type 0 where
    pub hand : p.inner.clock_hand < frame_count p.inner
    pub used :
        (i : ℕ) (f : Frame) → get_elem? p.inner.frames i ≡ some f → f.usage_count ≤ max_usage_count
    pub cached :
        (id : PageId) (i : ℕ)
        → lookup id p.inner.page_table ≡ some i
        → (f : Frame) × (get_elem? p.inner.frames i ≡ some f) × (f.page_id ≡ some id)
    pub mapped :
        (i : ℕ) (f : Frame) (id : PageId)
        → get_elem? p.inner.frames i ≡ some f
        → f.page_id ≡ some id
        → lookup id p.inner.page_table ≡ some i
    pub clean :
        (i : ℕ) (f : Frame) (id : PageId)
        → get_elem? p.inner.frames i ≡ some f
        → f.page_id ≡ some id
        → f.dirty ≡ false
        → shown.contents p.store id ≡ shown.visible f.bytes

  -- A step that moves no page: the frames keep their pages and bytes, and the store the pages that
  -- are not cached.
  pub record Still (p p' : BufferPoolShared S) : Type 0 where
    pub table : p'.inner.page_table ≡ p.inner.page_table
    pub count : frame_count p'.inner ≡ frame_count p.inner
    pub hand : p'.inner.clock_hand < frame_count p.inner
    pub frames :
        (i : ℕ) (f : Frame)
        → get_elem? p.inner.frames i ≡ some f
        → (f' : Frame) × (get_elem? p'.inner.frames i ≡ some f')
          × (f'.page_id ≡ f.page_id)
          × (f'.bytes ≡ f.bytes)
          × (f'.usage_count ≤ max_usage_count)
          × ((id : PageId)
              → f'.page_id ≡ some id
              → f'.dirty ≡ false
              → shown.contents p'.store id ≡ shown.visible f'.bytes)
    pub uncached :
        (q : PageId)
        → lookup q p.inner.page_table ≡ none
        → shown.contents p'.store q ≡ shown.contents p.store q

  pub page_of-some :
      (p : BufferPoolShared S) (id : PageId) (i : ℕ) (f : Frame)
      → lookup id p.inner.page_table ≡ some i
      → get_elem? p.inner.frames i ≡ some f
      → page_of p id ≡ shown.visible f.bytes
  unfolding page_of
  page_of-some p id i f e e' = rw (e, e', page_of) refl

  pub page_of-none :
      (p : BufferPoolShared S) (id : PageId)
      → lookup id p.inner.page_table ≡ none
      → page_of p id ≡ shown.contents p.store id
  unfolding page_of
  page_of-none p id e = rw (e, page_of) refl

  module _ (p p' : BufferPoolShared S) (sound : IsSound p) (still : Still p p') where
    pub Still-page_of : (q : PageId) → page_of p' q ≡ page_of p q
    Still-page_of q = elim (Option-cases (lookup q p.inner.page_table)) [
      | inl e ↦
          page_of-none p' q (ap (lookup q) still.table ∙ e)
          ∙ still.uncached q e
          ∙ sym (page_of-none p q e)
      | inr (i, e) ↦
          let (f, under, _) = sound.cached q i e in
          let (f', under', _, bytes, _, _) = still.frames i f under in
          page_of-some p' q i f' (ap (lookup q) still.table ∙ e) under'
          ∙ ap shown.visible bytes
          ∙ sym (page_of-some p q i f e under)
    ]

    -- A frame after the step was one before it.
    source :
        (i : ℕ) (g : Frame)
        → get_elem? p'.inner.frames i ≡ some g
        → (f : Frame) × (get_elem? p.inner.frames i ≡ some f)
          × (g.page_id ≡ f.page_id)
          × (g.usage_count ≤ max_usage_count)
          × ((id : PageId)
              → g.page_id ≡ some id
              → g.dirty ≡ false
              → shown.contents p'.store id ≡ shown.visible g.bytes)
    source i g e =
        let (f, under) =
          get_elem?-lt p.inner.frames i
            (omega (arith, lt_of_get_elem? p'.inner.frames i g e, still.count)) in
        let (f', under', page, _, used, clean) = still.frames i f under in
        let same : f' ≡ g = ground (arith, e, under') in
        (
          f,
          under,
          sym (ap (λ (x : Frame). x.page_id) same) ∙ page,
          rw (ap (λ (x : Frame). x.usage_count) same) at used,
          subst
              (λ (x : Frame).
                (id : PageId)
                → x.page_id ≡ some id
                → x.dirty ≡ false
                → shown.contents p'.store id ≡ shown.visible x.bytes)
              same clean,
        )

    pub Still-IsSound : IsSound p'
    Still-IsSound = record {
      hand = omega (arith, still.hand, still.count);
      used = λ i g e. let (_, _, _, used, _) = source i g e in used;
      cached = λ id i e.
          let (f, under, page) = sound.cached id i (sym (ap (lookup id) still.table) ∙ e) in
          let (f', under', page', _, _, _) = still.frames i f under in (f', under', page' ∙ page);
      mapped = λ i g id e page.
          let (f, under, page', _, _) = source i g e in
          ap (lookup id) still.table ∙ sound.mapped i f id under (sym page' ∙ page);
      clean = λ i g id e page fresh. let (_, _, _, _, clean) = source i g e in clean id page fresh;
    }
