-- ===== src/AtomicPool/Flush.antt =====
-- `flush_all` and the guards of buffer_pool_v2.rs beside those of buffer_pool.rs.
use meridian_space_academy_c.Prelude.{
  ℕ, ◌+◌, ◌-◌, ◌%◌, ◌^◌, ◌≡◌, inl, inr, refl, Bool, true, false, Option, none, some, List, [], ◌∷◌,
  get_elem?, Option-cases,
}
use meridian_space_academy_c.Result.{Result, Result-cases, case_reply}
use meridian_space_academy_c.PageStore.{PageId, PageStore}
use meridian_space_academy_c.ClockPool.{BufferPoolInner, BufferPoolShared, AccessMode, PageGuard}
use meridian_space_academy_c.ClockPool
use meridian_space_academy_c.AtomicPool.{
  Frame, flush_frames, flush_all, guard_read, guard_write, guard_drop,
}
use meridian_space_academy_c.AtomicPool.Recall.{
  recall_frame, recall_frames, recall, recall_pool, get_elem?-recall_some, get_elem?-recall_none,
  set-recall,
}
use meridian_space_academy_c.AtomicPool.Fetch.{recall_answer}

abbrev recall_flushed :
    {S : Type 0} → S × List ClockPool.Frame × Result (Unit {0}) → S × List Frame × Result (Unit {0})
recall_flushed (store, fs, r) = (store, recall_frames fs, r)

module _ {S : Type 0} (io : PageStore S) where
  flush_cons-recall :
      (fs : List ClockPool.Frame) (store : S) (o : Option PageId) (d : Bool) (b : List ℕ) (n u : ℕ)
      → ((st : S)
          → flush_frames io st (recall_frames fs)
            ≡ recall_flushed (ClockPool.flush_frames io st fs))
      → let f : ClockPool.Frame = record {
        page_id = o;
        bytes = b;
        pin_count = n;
        usage_count = u;
        dirty = d;
      } in
        flush_frames io store (recall_frame f ∷ recall_frames fs)
        ≡ recall_flushed (ClockPool.flush_frames io store (f ∷ fs))
  unfolding flush_frames ClockPool.flush_frames
  flush_cons-recall fs store none d b n u rest = rw (rest store) refl
  flush_cons-recall fs store (some id) false b n u rest = rw (rest store) refl
  flush_cons-recall fs store (some id) true b n u rest =
      elim (Result-cases (io.write_page store id b).1) [
        | inl (t, e) ↦ rw (e, case_reply) (rw (rest (io.write_page store id b).0) refl)
        | inr (inl (c, e)) ↦ rw (e, case_reply) refl
        | inr (inr e) ↦ rw (e, case_reply) refl
      ]

  flush_frames-recall :
      (store : S) (fs : List ClockPool.Frame)
      → flush_frames io store (recall_frames fs)
        ≡ recall_flushed (ClockPool.flush_frames io store fs)
  unfolding flush_frames ClockPool.flush_frames
  flush_frames-recall store [] = refl
  flush_frames-recall store (f ∷ fs) =
      flush_cons-recall fs store f.page_id f.dirty f.bytes f.pin_count f.usage_count
        (λ st. flush_frames-recall st fs)

  pub flush_all-recall :
      (p : BufferPoolShared S)
      → flush_all io (recall_pool p) ≡ recall_answer (ClockPool.flush_all io p)
  unfolding flush_all ClockPool.flush_all
  flush_all-recall p = rw (flush_frames-recall p.store p.inner.frames) refl

  pub guard_write-recall :
      {R : Type 0} (g : PageGuard) (p : BufferPoolShared S) (f : List ℕ → List ℕ × R)
      → guard_write g (recall_pool p) f
        ≡ (let (s, r) = ClockPool.guard_write g p.inner f in (recall p.store s, r))
  unfolding guard_write ClockPool.guard_write
  guard_write-recall g p f = elim (Option-cases (get_elem? p.inner.frames g.frame)) [
    | inl e ↦
        rw (e, get_elem?-recall_none p.inner.frames g.frame e, guard_write, ClockPool.guard_write)
          refl
    | inr (fr, e) ↦
        rw
          (e, get_elem?-recall_some p.inner.frames g.frame fr e, guard_write, ClockPool.guard_write)
          (rw
            (set-recall p.inner.frames g.frame (record fr { bytes = (f fr.bytes).0; dirty = true }))
            refl)
  ]

  pub guard_read-recall :
      {R : Type 0} (g : PageGuard) (p : BufferPoolShared S) (f : List ℕ → R)
      → guard_read g (recall_pool p) f ≡ ClockPool.guard_read g p.inner f
  unfolding guard_read ClockPool.guard_read
  guard_read-recall g p f = elim (Option-cases (get_elem? p.inner.frames g.frame)) [
    | inl e ↦
        rw (e, get_elem?-recall_none p.inner.frames g.frame e, guard_read, ClockPool.guard_read)
          refl
    | inr (fr, e) ↦
        rw (e, get_elem?-recall_some p.inner.frames g.frame fr e, guard_read, ClockPool.guard_read)
          refl
  ]

  pub guard_drop-recall :
      (g : PageGuard) (p : BufferPoolShared S)
      → guard_drop g (recall_pool p)
        ≡ (let (s, r) = ClockPool.guard_drop g p.inner in (recall p.store s, r))
  unfolding guard_drop ClockPool.guard_drop
  guard_drop-recall g p = elim (Option-cases (get_elem? p.inner.frames g.frame)) [
    | inl e ↦
        rw (e, get_elem?-recall_none p.inner.frames g.frame e, guard_drop, ClockPool.guard_drop)
          refl
    | inr (fr, e) ↦
        rw (e, get_elem?-recall_some p.inner.frames g.frame fr e, guard_drop, ClockPool.guard_drop)
          (rw
            (set-recall p.inner.frames g.frame
              (record fr { pin_count = (fr.pin_count + 2 ^ 32 - 1) % 2 ^ 32 }))
            refl)
  ]
