-- ===== src/ClockPool/Replace.antt =====
-- The steps 3 to 5 of `fetch_page` in project1/buffer_pool.rs: the victim gets the page.
use meridian_space_academy_c.Prelude.{
  lt_of_get_elem?, ℕ, ◌≡◌, ◌≢◌, ◌∙◌, ◌⊎◌, inl, inr, refl, sym, Bool, true, false, Option, none,
  some, List, get_elem?, get_elem?-set_self, get_elem?-set_ne, arith, Option-cases, Bool-cases,
}
use meridian_space_academy_c.Result.{ok, err, panic, Error, case_reply}
use meridian_space_academy_c.PageStore.{PageId, PageStore, lookup}
use meridian_space_academy_c.ClockPool.{
  Frame, BufferPoolInner, BufferPoolShared, Reply, give_up, replace, write_back, put_frame,
}
use meridian_space_academy_c.ClockPool.Invariant.{
  Shown, Faithful, IsSound, Still-IsSound, Still-page_of, page_of,
}
use meridian_space_academy_c.ClockPool.Change.{Still-put}
use meridian_space_academy_c.ClockPool.Install.{
  filled, frame_here, frame_there, installed-IsSound, installed-page_of,
}

module _ {S : Type 0} (io : PageStore S) (store : S) (s : BufferPoolInner) (i : ℕ)
    (id : PageId) where
  write_back-clean :
      (f : Frame)
      → ((old : PageId) → f.page_id ≡ some old → f.dirty ≡ false)
      → write_back io store s i f id ≡ replace io store s i f id
  unfolding write_back
  write_back-clean f = go f.page_id f.dirty f.bytes f.pin_count f.usage_count
    where
      go :
          (o : Option PageId) (d : Bool) (bytes : List ℕ) (pins uses : ℕ)
          → ((old : PageId) → o ≡ some old → d ≡ false)
          → let f : Frame = record {
            page_id = o;
            bytes = bytes;
            pin_count = pins;
            usage_count = uses;
            dirty = d;
          } in
            write_back io store s i f id ≡ replace io store s i f id
      go none d bytes pins uses fresh = refl
      go (some old) false bytes pins uses fresh = refl
      go (some old) true bytes pins uses fresh = absurd (ground (arith, fresh old refl))

  write_back-dirty :
      (f : Frame) (old : PageId)
      → f.page_id ≡ some old
      → f.dirty ≡ true
      → write_back io store s i f id
        ≡ case_reply
            (io.write_page store old f.bytes)
            (λ store' _.
              replace io store'
                (put_frame s i (record f { dirty = false }))
                i
                (record f { dirty = false })
                id)
            (give_up io s i f)
            (λ store'. (record { store = store'; inner = s }, panic))
  unfolding write_back
  write_back-dirty f old e d = go f.page_id f.dirty f.bytes f.pin_count f.usage_count e d
    where
      go :
          (o : Option PageId) (d : Bool) (bytes : List ℕ) (pins uses : ℕ)
          → o ≡ some old
          → d ≡ true
          → let f : Frame = record {
            page_id = o;
            bytes = bytes;
            pin_count = pins;
            usage_count = uses;
            dirty = d;
          } in
            write_back io store s i f id
            ≡ case_reply
                (io.write_page store old bytes)
                (λ store' _.
                  replace io store'
                    (put_frame s i (record f { dirty = false }))
                    i
                    (record f { dirty = false })
                    id)
                (give_up io s i f)
                (λ store'. (record { store = store'; inner = s }, panic))
      go none d bytes pins uses e d' = absurd (ground (arith, e))
      go (some x) false bytes pins uses e d' = cc
      go (some x) true bytes pins uses e d' =
          let same : x ≡ old = ground (arith, e) in rw⁻¹ same refl

module _ {S : Type 0} (io : PageStore S) (shown : Shown S) (faithful : Faithful io shown) where
  -- The steps 3 to 5 for the frame `i`, which was reserved with `pin_count` 1.
  pub record Replaced (p : BufferPoolShared S) (i : ℕ) (id : PageId) (r : Reply io) : Type 0 where
    pub sound : IsSound shown r.0
    pub view : (q : PageId) → page_of shown r.0 q ≡ page_of shown p q
    pub others : (k : ℕ) → k ≢ i → get_elem? r.0.inner.frames k ≡ get_elem? p.inner.frames k
    pub answer :
        ((r.1 ≡ ok (record { page_id = id; frame = i }))
          × ((g : Frame) × (get_elem? r.0.inner.frames i ≡ some g)
              × (g.page_id ≡ some id)
              × (g.pin_count ≡ 1)))
        ⊎ ((e : Error) × (r.1 ≡ err e))

  module _ (p : BufferPoolShared S) (sound : IsSound shown p) (i : ℕ) (f : Frame)
      (under : get_elem? p.inner.frames i ≡ some f) (reserved : f.pin_count ≡ 1) (id : PageId)
      (absent : lookup id p.inner.page_table ≡ none) where
    Replaced-give_up :
        (store' : S) (e : Error)
        → ((q : PageId) → f.page_id ≢ some q → shown.contents store' q ≡ shown.contents p.store q)
        → ((q : PageId)
            → f.page_id ≡ some q
            → f.dirty ≡ false
            → shown.contents store' q ≡ shown.visible f.bytes)
        → Replaced p i id (
          record { store = store'; inner = put_frame p.inner i (record f { pin_count = 0 }) },
          err e,
        )
    Replaced-give_up store' e unchanged clean =
        let still =
          Still-put shown p sound i f under store' (record f { pin_count = 0 }) p.inner.stats refl
            refl (sound.used i f under) clean unchanged in
        record {
          sound = Still-IsSound shown p _ sound still;
          view = Still-page_of shown p _ sound still;
          others = λ k ne. get_elem?-set_ne p.inner.frames i k _ (λ x. ne (sym x));
          answer = inr (e, refl);
        }

    replace-Replaced :
        ((old : PageId) → f.page_id ≡ some old → f.dirty ≡ false)
        → Replaced p i id (replace io p.store p.inner i f id)
    unfolding replace
    replace-Replaced fresh =
        let (store', outcome, same) = faithful.reads p.store id in
        elim outcome [
          | inl (b, e, got) ↦ rw e (record {
            sound = installed-IsSound shown p sound i f under store' same id absent fresh b got;
            view = installed-page_of shown p sound i f under store' same id absent fresh b got;
            others = frame_there shown p sound i f under store' same id absent fresh b got;
            answer = inl (
              refl,
              (
                filled shown p sound i f under store' same id absent fresh b got,
                frame_here shown p sound i f under store' same id absent fresh b got,
                refl,
                reserved,
              ),
            );
          })
          | inr (e, failed) ↦ rw failed (
              Replaced-give_up store' e (λ q _. same q)
                (λ q mine fresh'. same q ∙ sound.clean i f q under mine fresh'))
        ]

    -- The state after a dirty page was written back.
    abbrev Written : S → BufferPoolShared S
    Written store' = record {
      store = store';
      inner = put_frame p.inner i (record f { dirty = false });
    }

    Replaced-trans :
        (store' : S) (r : Reply io)
        → ((q : PageId) → page_of shown (Written store') q ≡ page_of shown p q)
        → Replaced (Written store') i id r
        → Replaced p i id r
    Replaced-trans store' r view' done = record {
      sound = done.sound;
      view = λ q. done.view q ∙ view' q;
      others = λ k ne. done.others k ne ∙ get_elem?-set_ne p.inner.frames i k _ (λ x. ne (sym x));
      answer = done.answer;
    }

module _ {S : Type 0} (io : PageStore S) (shown : Shown S) (faithful : Faithful io shown)
    (p : BufferPoolShared S) (sound : IsSound shown p) (i : ℕ) (f : Frame)
    (under : get_elem? p.inner.frames i ≡ some f) (reserved : f.pin_count ≡ 1) (id : PageId)
    (absent : lookup id p.inner.page_table ≡ none) where
  abbrev Done : Reply io → Type 0
  Done = Replaced io shown faithful p i id

  dirty-Replaced :
      (old : PageId)
      → f.page_id ≡ some old
      → f.dirty ≡ true
      → Done (write_back io p.store p.inner i f id)
  dirty-Replaced old e d =
      let (store', outcome, same) = faithful.writes p.store old f.bytes in
      let unchanged : (q : PageId)
          → f.page_id ≢ some q
          → shown.contents store' q ≡ shown.contents p.store q =
        λ q ne. same q (λ x. ne (ground (arith, x, e))) in
      elim outcome [
        | inl (wrote, now) ↦
            let still =
              Still-put shown p sound i f under store' (record f { dirty = false }) p.inner.stats
                refl refl (sound.used i f under) (λ q mine _. ground (arith, e, mine, now))
                unchanged in
            let view' = Still-page_of shown p _ sound still in
            rw (write_back-dirty io p.store p.inner i id f old e d, wrote)
              (Replaced-trans io shown faithful p sound i f under reserved id absent store' _ view'
                (replace-Replaced io shown faithful
                  (record {
                    store = store';
                    inner = put_frame p.inner i (record f { dirty = false });
                  })
                  (Still-IsSound shown p _ sound still) i (record f { dirty = false })
                  (get_elem?-set_self p.inner.frames i _ (lt_of_get_elem? p.inner.frames i f under))
                  reserved id absent (λ _ _. refl)))
        | inr (er, failed) ↦
            rw (write_back-dirty io p.store p.inner i id f old e d, failed)
              (Replaced-give_up io shown faithful p sound i f under reserved id absent store' er
                unchanged (λ q _ clean. ground (arith, clean, d)))
      ]

  clean-Replaced :
      ((old : PageId) → f.page_id ≡ some old → f.dirty ≡ false)
      → Done (write_back io p.store p.inner i f id)
  clean-Replaced fresh =
      rw (write_back-clean io p.store p.inner i id f fresh)
        (replace-Replaced io shown faithful p sound i f under reserved id absent fresh)

  pub write_back-Replaced : Done (write_back io p.store p.inner i f id)
  write_back-Replaced = elim (Option-cases f.page_id) [
    | inl e ↦ clean-Replaced (λ old e'. ground (arith, e, e'))
    | inr (old, e) ↦ elim (Bool-cases f.dirty) [
      | inl d ↦ dirty-Replaced old e d
      | inr d ↦ clean-Replaced (λ _ _. d)
    ]
  ]
