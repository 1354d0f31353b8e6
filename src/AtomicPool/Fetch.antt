-- ===== src/AtomicPool/Fetch.antt =====
-- `fetch_page` of buffer_pool_v2.rs beside `fetch_page` of buffer_pool.rs.
use meridian_space_academy_c.Prelude.{
  ℕ, ◌+◌, ◌%◌, ◌^◌, ◌≡◌, ◌∙◌, inl, inr, refl, sym, ap, subst, Bool, true, false, Option, none, some,
  List, get_elem?, set, Option-cases,
}
use meridian_space_academy_c.Result.{Result, ok, err, panic, Result-cases, case_reply}
use meridian_space_academy_c.PageStore.{PageId, PageStore, lookup}
use meridian_space_academy_c.ClockPool.{
  BufferPoolInner, BufferPoolShared, AccessMode, normal, bulk_read, PageGuard,
}
use meridian_space_academy_c.ClockPool
use meridian_space_academy_c.AtomicPool.{
  Frame, evicting, BufferPoolV2Shared, with_frame, released, record_access, pin_hit, install,
  give_up, replace, write_back, evict, fetch_locked, fetch_page,
}
use meridian_space_academy_c.AtomicPool.Recall.{
  state_of, recall_frame, recall_frames, recall, recall_pool, recall_reply, get_elem?-recall_some,
  get_elem?-recall_none, set-recall, set-set, choose_victim-recall,
}
use meridian_space_academy_c.AtomicPool.Reserved.{ReservedAt, rounds-ReservedAt}

-- A call on the store does not panic.
pub record Calm {S : Type 0} (io : PageStore S) : Type 0 where
  pub reads : (s : S) (id : PageId) → ¬ ((io.read_page s id).1 ≡ panic)
  pub writes : (s : S) (id : PageId) (bytes : List ℕ) → ¬ ((io.write_page s id bytes).1 ≡ panic)

abbrev pub recall_answer :
    {S : Type 0} {A : Type 0} → BufferPoolShared S × Result A → BufferPoolV2Shared S × Result A
recall_answer x = (recall_pool x.0, x.1)

abbrev marked : ClockPool.Frame → Frame
marked f = record (recall_frame f) { state = evicting }

set-marked :
    (fs : List ClockPool.Frame) (i : ℕ) (f h : ClockPool.Frame)
    → set (set (recall_frames fs) i (marked f)) i (recall_frame h) ≡ recall_frames (set fs i h)
set-marked fs i f h = set-set (recall_frames fs) i (marked f) (recall_frame h) ∙ set-recall fs i h

released-recall :
    (f : ClockPool.Frame)
    → f.pin_count ≡ 1
    → released (recall_frame f) ≡ recall_frame (record f { pin_count = 0 })
released-recall f z = rw z refl

module _ {S : Type 0} (io : PageStore S) (calm : Calm io) (page_id : PageId) where
  module _ (s : BufferPoolInner) (i : ℕ) (f : ClockPool.Frame) (one : f.pin_count ≡ 1) where
    gave_up :
        (store : S)
        → give_up (with_frame (recall store s) i (marked f)) i (marked f) (state_of f.page_id)
          ≡ recall store (ClockPool.put_frame s i (record f { pin_count = 0 }))
    gave_up store =
        ap (λ g. with_frame (with_frame (recall store s) i (marked f)) i g) (released-recall f one)
        ∙ rw (set-marked s.frames i f (record f { pin_count = 0 })) refl

    replace-recall :
        (store : S)
        → replace io
            (with_frame (recall store s) i (marked f))
            i
            (marked f)
            (state_of f.page_id)
            f.page_id
            page_id
          ≡ recall_answer (ClockPool.replace io store s i f page_id)
    unfolding replace ClockPool.replace install ClockPool.install
    replace-recall store = elim (Result-cases (io.read_page store page_id).1) [
      | inl (b, e) ↦
          rw (e, replace, ClockPool.replace, case_reply)
            (rw
              (
                set-marked s.frames i f (record f {
                  page_id = some page_id;
                  bytes = b;
                  dirty = false;
                  usage_count = 1;
                }),
                install,
              )
              refl)
      | inr (inl (c, e)) ↦
          rw (e, replace, ClockPool.replace, case_reply)
            (ap (λ p. (p, err c)) (gave_up (io.read_page store page_id).0))
      | inr (inr e) ↦ absurd (calm.reads store page_id e)
    ]

  -- A reserved frame, given by its other fields.
  abbrev victim : Option PageId → List ℕ → ℕ → Bool → ClockPool.Frame
  victim o b u d = record { page_id = o; bytes = b; pin_count = 1; usage_count = u; dirty = d }

  module _ (s : BufferPoolInner) (i : ℕ) (b : List ℕ) (u : ℕ) (store : S) where
    marked_twice :
        (old : PageId) (st : S)
        → with_frame
            (with_frame (recall st s) i (marked (victim (some old) b u true)))
            i
            (marked (victim (some old) b u false))
          ≡ with_frame
              (recall st (ClockPool.put_frame s i (victim (some old) b u false)))
              i
              (marked (victim (some old) b u false))
    marked_twice old st =
        let f = victim (some old) b u true in
        let g = victim (some old) b u false in
        rw
          (
            set-set (recall_frames s.frames) i (marked f) (marked g),
            sym (set-recall s.frames i g),
            set-set (recall_frames s.frames) i (recall_frame g) (marked g),
          )
          refl

    evict-recall :
        (o : Option PageId) (d : Bool)
        → evict io (recall store s) i (recall_frame (victim o b u d)) page_id
          ≡ recall_answer (ClockPool.write_back io store s i (victim o b u d) page_id)
    unfolding evict write_back ClockPool.write_back
    evict-recall none d = replace-recall s i (victim none b u d) refl store
    evict-recall (some old) false = replace-recall s i (victim (some old) b u false) refl store
    evict-recall (some old) true = elim (Result-cases (io.write_page store old b).1) [
      | inl (t, e) ↦
          let st = (io.write_page store old b).0 in
          let g = victim (some old) b u false in
          rw (e, case_reply)
            (ap (λ p. replace io p i (marked g) (state_of (some old)) (some old) page_id)
                (marked_twice old st)
              ∙ replace-recall (ClockPool.put_frame s i g) i g refl st)
      | inr (inl (c, e)) ↦
          rw (e, case_reply)
            (ap (λ p. (p, err c))
              (gave_up s i (victim (some old) b u true) refl (io.write_page store old b).0))
      | inr (inr e) ↦ absurd (calm.writes store old b e)
    ]

  evict_one-recall :
      (s : BufferPoolInner) (i : ℕ) (f : ClockPool.Frame) (store : S)
      → f.pin_count ≡ 1
      → evict io (recall store s) i (recall_frame f) page_id
        ≡ recall_answer (ClockPool.write_back io store s i f page_id)
  evict_one-recall s i f store one =
      subst
        (λ g.
          evict io (recall store s) i (recall_frame g) page_id
          ≡ recall_answer (ClockPool.write_back io store s i g page_id))
        (ap (λ n. record f { pin_count = n }) (sym one))
        (evict-recall s i f.bytes f.usage_count store f.page_id f.dirty)

  accessed :
      (f : ClockPool.Frame) (mode : AccessMode)
      → record_access (recall_frame f) mode ≡ recall_frame (ClockPool.record_access f mode)
  unfolding record_access ClockPool.record_access
  accessed f normal = refl
  accessed f bulk_read = refl

  hit-recall :
      (store : S) (s : BufferPoolInner) (i : ℕ) (f : ClockPool.Frame) (mode : AccessMode)
      → get_elem? s.frames i ≡ some f
      → pin_hit (recall store s) i page_id mode
        ≡ (recall store (ClockPool.hit s i f mode), ok (record { page_id = page_id; frame = i }))
  unfolding pin_hit ClockPool.hit
  hit-recall store s i f mode e =
      let f' : ClockPool.Frame = record f { pin_count = (f.pin_count + 1) % 2 ^ 32 } in
      rw (get_elem?-recall_some s.frames i f e, pin_hit)
        (rw
          (accessed f' mode, set-recall s.frames i (ClockPool.record_access f' mode), ClockPool.hit)
          refl)

  miss-recall :
      (store : S) (x : BufferPoolInner × Result ℕ)
      → ReservedAt x
      → case_reply
          (recall_reply store x)
          (λ p' i. elim (get_elem? p'.frames i) [
            | none ↦ (p', panic)
            | some f ↦ evict io p' i f page_id
          ])
          (λ p' e. (p', err e))
          (λ p'. (p', panic))
        ≡ recall_answer (
            case_reply x
              (λ s i. elim (get_elem? s.frames i) [
                | none ↦ (record { store = store; inner = s }, panic)
                | some f ↦ ClockPool.write_back io store s i f page_id
              ])
              (λ s e. (record { store = store; inner = s }, err e))
              (λ s. (record { store = store; inner = s }, panic)))
  miss-recall store (s, ok i) (f, at, one) =
      rw (case_reply, at, get_elem?-recall_some s.frames i f at) (evict_one-recall s i f store one)
  miss-recall store (s, err e) r = refl
  miss-recall store (s, panic) r = refl

  fetch_locked-recall :
      (p : BufferPoolShared S) (mode : AccessMode)
      → fetch_locked io (recall_pool p) page_id mode
        ≡ recall_answer (ClockPool.fetch_page io p page_id mode)
  unfolding fetch_locked pin_hit ClockPool.fetch_page ClockPool.choose_victim
  fetch_locked-recall p mode = elim (Option-cases (lookup page_id p.inner.page_table)) [
    | inr (i, e) ↦ elim (Option-cases (get_elem? p.inner.frames i)) [
      | inl out ↦
          rw (e, fetch_locked, ClockPool.fetch_page)
            (rw (out, get_elem?-recall_none p.inner.frames i out, pin_hit) refl)
      | inr (f, at) ↦
          rw (e, at, fetch_locked, ClockPool.fetch_page) (hit-recall p.store p.inner i f mode at)
    ]
    | inl e ↦
        rw (e, choose_victim-recall p.store p.inner, fetch_locked, ClockPool.fetch_page)
          (miss-recall p.store (ClockPool.choose_victim p.inner) (rounds-ReservedAt 6 p.inner))
  ]

  -- Over a store that does not panic: from a state of buffer_pool.rs, the step of `fetch_page` under
  -- the write lock, at whatever time it comes, and `fetch_page` as a whole both do what `fetch_page`
  -- of buffer_pool.rs does. They leave its state, in which no frame is being evicted, and give its
  -- answer.
  pub fetch_page-recall :
      (p : BufferPoolShared S) (mode : AccessMode)
      → (fetch_locked io (recall_pool p) page_id mode
          ≡ recall_answer (ClockPool.fetch_page io p page_id mode))
        × (fetch_page io (recall_pool p) page_id mode
            ≡ recall_answer (ClockPool.fetch_page io p page_id mode))
  unfolding fetch_page fetch_locked
  fetch_page-recall p mode =
      let locked = fetch_locked-recall p mode in
      elim (Option-cases (lookup page_id p.inner.page_table)) [
        | inl e ↦ (locked, rw (e, fetch_page) locked)
        | inr (i, e) ↦ (locked, rw (e, fetch_page) (rw (e, fetch_locked) at locked))
      ]
