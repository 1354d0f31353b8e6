-- ===== src/ClockPool/Guards.antt =====
-- The guards of project1/buffer_pool.rs: `PageGuard::read`, `PageGuard::write` and the drop.
use meridian_space_academy_c.Prelude.{
  lt_of_get_elem?, ℕ, ◌+◌, ◌-◌, ◌%◌, ◌^◌, ◌<◌, ◌≡◌, ◌≢◌, ◌∙◌, ◌⊎◌, inl, inr, refl, sym, ap, true,
  false, Option, some, List, length-set, get_elem?, set, get_elem?-set_self, get_elem?-set_ne,
  arith, Option-cases,
}
use native.Mathlib.Decide.{ℕ_discrete}
use meridian_space_academy_c.Result.{Result, ok}
use meridian_space_academy_c.PageStore.{PageId, lookup}
use meridian_space_academy_c.ClockPool.{
  Frame, BufferPoolInner, BufferPoolShared, PageGuard, guard_read, guard_write, guard_drop,
}
use meridian_space_academy_c.ClockPool.Invariant.{
  Shown, IsSound, Still-IsSound, Still-page_of, page_of, page_of-some, page_of-none,
}
use meridian_space_academy_c.ClockPool.Change.{Still-put}

-- The guard's frame, which is pinned and holds its page.
pub record Holds (s : BufferPoolInner) (g : PageGuard) : Type 0 where
  pub held : Frame
  pub under : get_elem? s.frames g.frame ≡ some held
  pub page : held.page_id ≡ some g.page_id
  pub pinned : held.pin_count ≢ 0
  pub few : held.pin_count < 2 ^ 32

module _ {S : Type 0} (shown : Shown S) where
  -- The outcome of a guard's drop: the frame has one pin less, and no page is changed.
  pub record Dropped (p : BufferPoolShared S) (g : PageGuard) (pins : ℕ)
      (r : BufferPoolInner × Result (Unit {0})) : Type 0 where
    pub sound : IsSound shown (record p { inner = r.0 })
    pub view : (q : PageId) → page_of shown (record p { inner = r.0 }) q ≡ page_of shown p q
    pub answer : r.1 ≡ ok tt
    pub unpinned :
        (h : Frame) × (get_elem? r.0.frames g.frame ≡ some h)
        × (h.page_id ≡ some g.page_id)
        × (h.pin_count + 1 ≡ pins)

  -- The outcome of `write` by `f` in a frame with the bytes `b`: they are the guard's page, which
  -- then is `f` of them, and no other page is changed.
  pub record Wrote {R : Type 0} (p : BufferPoolShared S) (g : PageGuard) (b : List ℕ)
      (f : List ℕ → List ℕ × R) (r : BufferPoolInner × Option R) : Type 0 where
    pub sound : IsSound shown (record p { inner = r.0 })
    pub before : page_of shown p g.page_id ≡ shown.visible b
    pub here : page_of shown (record p { inner = r.0 }) g.page_id ≡ shown.visible (f b).0
    pub elsewhere :
        (q : PageId)
        → q ≢ g.page_id
        → page_of shown (record p { inner = r.0 }) q ≡ page_of shown p q
    pub answer : r.1 ≡ some (f b).1

  module _ (p : BufferPoolShared S) (sound : IsSound shown p) (g : PageGuard)
      (holds : Holds p.inner g) where
    mapped : lookup g.page_id p.inner.page_table ≡ some g.frame
    mapped = sound.mapped g.frame holds.held g.page_id holds.under holds.page

    held_bytes : page_of shown p g.page_id ≡ shown.visible holds.held.bytes
    held_bytes = page_of-some shown p g.page_id g.frame holds.held mapped holds.under

    module _ (bytes : List ℕ) where
      written : Frame
      written = record holds.held { bytes = bytes; dirty = true }

      abbrev after : BufferPoolShared S
      after = record p { inner = record p.inner { frames = set p.inner.frames g.frame written } }

      at_guard : get_elem? after.inner.frames g.frame ≡ some written
      at_guard =
          get_elem?-set_self p.inner.frames g.frame written
            (lt_of_get_elem? p.inner.frames g.frame holds.held holds.under)

      others : (k : ℕ) → k ≢ g.frame → get_elem? after.inner.frames k ≡ get_elem? p.inner.frames k
      others k ne = get_elem?-set_ne p.inner.frames g.frame k written (λ x. ne (sym x))

      frame_cases :
          (k : ℕ) (h : Frame)
          → get_elem? after.inner.frames k ≡ some h
          → ((k ≡ g.frame) × (written ≡ h))
            ⊎ ((k ≢ g.frame) × (get_elem? p.inner.frames k ≡ some h))
      frame_cases k h e = elim (ℕ_discrete k g.frame) [
        | yes is ↦ inl (is, ground (arith, rw is at e, at_guard))
        | no ne ↦ inr (ne, sym (others k ne) ∙ e)
      ]

      after-IsSound : IsSound shown after
      unfolding written
      after-IsSound = record {
        hand = omega (arith, sound.hand, length-set p.inner.frames g.frame written);
        used = λ k h e. elim (frame_cases k h e) [
          | inl (_, is) ↦ omega (
            arith,
            ap (λ (x : Frame). x.usage_count) is,
            sound.used g.frame holds.held holds.under,
          )
          | inr (_, there) ↦ sound.used k h there
        ];
        cached = λ id k e.
            let (h, there, page) = sound.cached id k e in
            elim (ℕ_discrete k g.frame) [
              | yes is ↦
                  let same : holds.held ≡ h = ground (arith, rw is at there, holds.under) in
                  (written, rw is at_guard, ap (λ (x : Frame). x.page_id) same ∙ page)
              | no ne ↦ (h, others k ne ∙ there, page)
            ];
        mapped = λ k h id e page. elim (frame_cases k h e) [
          | inl (is, same) ↦ rw is (
              sound.mapped g.frame holds.held id holds.under
                (ap (λ (x : Frame). x.page_id) same ∙ page))
          | inr (_, there) ↦ sound.mapped k h id there page
        ];
        clean = λ k h id e page fresh. elim (frame_cases k h e) [
          | inl (_, same) ↦
              let dirty : true ≡ false = ap (λ (x : Frame). x.dirty) same ∙ fresh in
              absurd (ground (arith, dirty))
          | inr (_, there) ↦ sound.clean k h id there page fresh
        ];
      }

      after-here : page_of shown after g.page_id ≡ shown.visible bytes
      unfolding written
      after-here = page_of-some shown after g.page_id g.frame written mapped at_guard

      after-elsewhere : (q : PageId) → q ≢ g.page_id → page_of shown after q ≡ page_of shown p q
      after-elsewhere q ne = elim (Option-cases (lookup q p.inner.page_table)) [
        | inl e ↦ page_of-none shown after q e ∙ sym (page_of-none shown p q e)
        | inr (k, e) ↦
            let (h, there, page) = sound.cached q k e in
            let ne' : k ≢ g.frame =
              λ is. ne (ground (arith, rw is at there, holds.under, page, holds.page)) in
            page_of-some shown after q k h e (others k ne' ∙ there)
            ∙ sym (page_of-some shown p q k h e there)
      ]

    -- `read` on a guard that holds its page in a sound pool is on the bytes of that page.
    pub guard_read-page_of :
        {R : Type 0} (f : List ℕ → R)
        → (guard_read g p.inner f ≡ some (f holds.held.bytes))
          × (page_of shown p g.page_id ≡ shown.visible holds.held.bytes)
    unfolding guard_read
    guard_read-page_of f = rw (holds.under, guard_read) (refl, held_bytes)

    -- `write` on a guard that holds its page in a sound pool keeps the pool sound, changes the bytes
    -- of the guard's page by the closure and no other page, and gives the closure's result.
    pub guard_write-Wrote :
        {R : Type 0} (f : List ℕ → List ℕ × R)
        → Wrote p g holds.held.bytes f (guard_write g p.inner f)
    unfolding guard_write written
    guard_write-Wrote f =
        rw (holds.under, guard_write)
          (record {
            sound = after-IsSound (f holds.held.bytes).0;
            before = held_bytes;
            here = after-here (f holds.held.bytes).0;
            elsewhere = after-elsewhere (f holds.held.bytes).0;
            answer = refl;
          })

    -- Dropping a guard on its pinned frame does not panic, and takes one pin from the frame.
    pub guard_drop-Dropped : Dropped p g holds.held.pin_count (guard_drop g p.inner)
    unfolding guard_drop
    guard_drop-Dropped =
        let pins = (holds.held.pin_count + 2 ^ 32 - 1) % 2 ^ 32 in
        let less : pins + 1 ≡ holds.held.pin_count = grind (arith, holds.pinned, holds.few) in
        let still =
          Still-put shown p sound g.frame holds.held holds.under p.store
            (record holds.held { pin_count = pins }) p.inner.stats refl refl
            (sound.used g.frame holds.held holds.under)
            (λ q mine fresh. sound.clean g.frame holds.held q holds.under mine fresh)
            (λ _ _. refl) in
        rw (holds.under, guard_drop)
          (record {
            sound = Still-IsSound shown p _ sound still;
            view = Still-page_of shown p _ sound still;
            answer = ground (arith, holds.pinned);
            unpinned = (
              record holds.held { pin_count = pins },
              get_elem?-set_self p.inner.frames g.frame _
                  (lt_of_get_elem? p.inner.frames g.frame holds.held holds.under),
              holds.page,
              less,
            );
          })
