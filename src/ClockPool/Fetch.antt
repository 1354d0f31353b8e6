-- ===== src/ClockPool/Fetch.antt =====
-- `fetch_page` of project1/buffer_pool.rs on every branch.
use meridian_space_academy_c.Prelude.{
  lt_of_get_elem?, ℕ, ◌+◌, ◌%◌, ◌^◌, ◌≤◌, ◌<◌, ◌≡◌, ◌≢◌, ◌∙◌, ◌⊎◌, inl, inr, refl, sym, ap, none,
  some, length, get_elem?, set, get_elem?-set_self, get_elem?-set_ne, arith, Option-cases,
}
use native.Mathlib.Decide.{ℕ_discrete}
use meridian_space_academy_c.Config.{max_usage_count}
use meridian_space_academy_c.Result.{ok, err, Error, all_frames_pinned, case_reply}
use meridian_space_academy_c.PageStore.{PageId, PageStore, lookup, BufferPoolStats}
use meridian_space_academy_c.ClockPool.{
  Frame, BufferPoolInner, BufferPoolShared, AccessMode, normal, bulk_read, Reply, write_back,
  fetch_page, hit, record_access,
}
use meridian_space_academy_c.ClockPool.Clock.{aged}
use meridian_space_academy_c.ClockPool.Pass.{Chosen}
use meridian_space_academy_c.ClockPool.Victim.{Exhausted, choose_victim-Decided}
use meridian_space_academy_c.ClockPool.Invariant.{
  Shown, Faithful, IsSound, Still, Still-IsSound, Still-page_of, page_of,
}
use meridian_space_academy_c.ClockPool.Change.{Still-put}
use meridian_space_academy_c.ClockPool.Replace.{Replaced, write_back-Replaced}

-- No pin count is at the end of its `u32`.
abbrev pub FewPins : BufferPoolInner → Type 0
FewPins s = (k : ℕ) (f : Frame) → get_elem? s.frames k ≡ some f → f.pin_count + 1 < 2 ^ 32

module _ {S : Type 0} (io : PageStore S) (shown : Shown S) where
  -- The outcome of `fetch_page`: the pool is sound and shows the same pages, the pinned frames keep
  -- their pages, bytes and pins, and the answer is a pinned frame with the page, or an error.
  pub record Fetched (p : BufferPoolShared S) (id : PageId) (r : Reply io) : Type 0 where
    pub sound : IsSound shown r.0
    pub view : (q : PageId) → page_of shown r.0 q ≡ page_of shown p q
    pub kept :
        (k : ℕ) (f : Frame)
        → get_elem? p.inner.frames k ≡ some f
        → f.pin_count ≢ 0
        → (f' : Frame) × (get_elem? r.0.inner.frames k ≡ some f')
          × (f'.page_id ≡ f.page_id)
          × (f'.bytes ≡ f.bytes)
          × (f.pin_count ≤ f'.pin_count)
    pub answer :
        ((i : ℕ) × (g : Frame) × (r.1 ≡ ok (record { page_id = id; frame = i }))
          × (get_elem? r.0.inner.frames i ≡ some g)
          × (g.page_id ≡ some id)
          × (g.pin_count ≢ 0))
        ⊎ ((e : Error) × (r.1 ≡ err e))

  module _ (p : BufferPoolShared S) (sound : IsSound shown p) where
    Still-Chosen :
        (s : BufferPoolInner) (i : ℕ) → Chosen p.inner s i → Still shown p (record p { inner = s })
    Still-Chosen s i c = record {
      table = ap (λ (x : BufferPoolInner). x.page_table) c.rest;
      count = c.count;
      hand = c.hand;
      frames = λ k f e. elim (ℕ_discrete k i) [
        | yes here ↦
            let same : c.victim ≡ f = ground (arith, rw here at e, c.was) in
            (
              record c.victim { pin_count = 1; usage_count = 0 },
              rw here c.now,
              ap (λ (x : Frame). x.page_id) same,
              ap (λ (x : Frame). x.bytes) same,
              omega arith,
              λ id page clean. sound.clean i c.victim id c.was page clean,
            )
        | no ne ↦
            let (u, e', le) = c.others k f e ne in
            (
              aged f u,
              e',
              refl,
              refl,
              omega (arith, le, sound.used k f e),
              λ id page clean. sound.clean k f id e page clean,
            )
      ];
      uncached = λ q e. refl;
    }

    Still-Exhausted :
        (s : BufferPoolInner) → Exhausted p.inner s → Still shown p (record p { inner = s })
    Still-Exhausted s x = record {
      table = ap (λ (y : BufferPoolInner). y.page_table) x.rest;
      count = ap length x.frames;
      hand = x.hand;
      frames = λ k f e. (
        f,
        ap (λ y. get_elem? y k) x.frames ∙ e,
        refl,
        refl,
        sound.used k f e,
        λ id page clean. sound.clean k f id e page clean,
      );
      uncached = λ q e. refl;
    }

  record_access-used :
      (f : Frame) (mode : AccessMode)
      → f.usage_count ≤ max_usage_count
      → (record_access f mode).usage_count ≤ max_usage_count
  unfolding record_access
  record_access-used f normal le = omega arith
  record_access-used f bulk_read le = omega arith

  module _ (p : BufferPoolShared S) (sound : IsSound shown p) (few : FewPins p.inner) (id : PageId)
      (i : ℕ) (f : Frame) (under : get_elem? p.inner.frames i ≡ some f)
      (page : f.page_id ≡ some id) where
    Fetched-pin :
        (f' : Frame) (stats : BufferPoolStats)
        → f'.page_id ≡ f.page_id
        → f'.bytes ≡ f.bytes
        → f'.dirty ≡ f.dirty
        → f'.pin_count ≡ (f.pin_count + 1) % 2 ^ 32
        → f'.usage_count ≤ max_usage_count
        → Fetched p id (
          record p { inner = record p.inner { frames = set p.inner.frames i f'; stats = stats } },
          ok (record { page_id = id; frame = i }),
        )
    Fetched-pin f' stats page' bytes dirty pins used =
        let still =
          Still-put shown p sound i f under p.store f' stats page' bytes used
            (λ q mine clean. sound.clean i f q under mine (sym dirty ∙ clean)) (λ q _. refl) in
        let here : get_elem? (set p.inner.frames i f') i ≡ some f' =
          get_elem?-set_self p.inner.frames i f' (lt_of_get_elem? p.inner.frames i f under) in
        let more : f'.pin_count ≡ f.pin_count + 1 = grind (arith, pins, few i f under) in
        record {
          sound = Still-IsSound shown p _ sound still;
          view = Still-page_of shown p _ sound still;
          kept = λ k g e _. elim (ℕ_discrete k i) [
            | yes is ↦
                let same : f ≡ g = ground (arith, rw is at e, under) in
                (
                  f',
                  rw is here,
                  page' ∙ ap (λ (x : Frame). x.page_id) same,
                  bytes ∙ ap (λ (x : Frame). x.bytes) same,
                  omega (arith, more, ap (λ (x : Frame). x.pin_count) same),
                )
            | no ne ↦ (
              g,
              get_elem?-set_ne p.inner.frames i k f' (λ x. ne (sym x)) ∙ e,
              refl,
              refl,
              omega arith,
            )
          ];
          answer = inl (i, f', refl, here, page' ∙ page, λ z. omega (arith, z, more));
        }

    Fetched-hit :
        (mode : AccessMode)
        → Fetched p id
            (record p { inner = hit p.inner i f mode }, ok (record { page_id = id; frame = i }))
    unfolding hit record_access
    Fetched-hit normal = Fetched-pin _ _ refl refl refl refl (omega arith)
    Fetched-hit bulk_read =
        Fetched-pin _ _ refl refl refl refl (omega (arith, sound.used i f under))

module _ {S : Type 0} (io : PageStore S) (shown : Shown S) (faithful : Faithful io shown)
    (p : BufferPoolShared S) (sound : IsSound shown p) (id : PageId) where
  Fetched-Chosen :
      (s : BufferPoolInner) (i : ℕ)
      → Chosen p.inner s i
      → lookup id p.inner.page_table ≡ none
      → (r : Reply io) → Replaced io shown faithful (record p { inner = s }) i id r
      → Fetched io shown p id r
  Fetched-Chosen s i c absent r done =
      let still = Still-Chosen io shown p sound s i c in
      record {
        sound = done.sound;
        view = λ q. done.view q ∙ Still-page_of shown p _ sound still q;
        kept = λ k f e pinned.
            let ne : k ≢ i = λ is. pinned (ground (arith, rw is at e, c.was, c.free)) in
            let (u, e', _) = c.others k f e ne in
            (aged f u, done.others k ne ∙ e', refl, refl, omega arith);
        answer = elim done.answer [
          | inl (e, (g, e', page, pin)) ↦ inl (i, g, e, e', page, λ z. omega (arith, z, pin))
          | inr failed ↦ inr failed
        ];
      }

  Fetched-miss :
      (mode : AccessMode)
      → lookup id p.inner.page_table ≡ none
      → Fetched io shown p id (fetch_page io p id mode)
  unfolding fetch_page
  Fetched-miss mode absent =
      elim (choose_victim-Decided p.inner sound.hand (λ k f e _. sound.used k f e)) [
        | inl (s, e, x) ↦
            let still = Still-Exhausted io shown p sound s x in
            rw (absent, e, fetch_page)
              (record {
                sound = Still-IsSound shown p _ sound still;
                view = Still-page_of shown p _ sound still;
                kept =
                    λ k f e' _. (f, ap (λ y. get_elem? y k) x.frames ∙ e', refl, refl, omega arith);
                answer = inr (all_frames_pinned, refl);
              })
        | inr (s, i, e, c) ↦
            let still = Still-Chosen io shown p sound s i c in
            let table : s.page_table ≡ p.inner.page_table = still.table in
            let victim = record c.victim { pin_count = 1; usage_count = 0 } in
            let step : fetch_page io p id mode ≡ write_back io p.store s i victim id =
              rw (absent, e, fetch_page) (rw (c.now, case_reply) refl) in
            rw step (
              Fetched-Chosen s i c absent _ (
                write_back-Replaced io shown faithful (record p { inner = s })
                  (Still-IsSound shown p _ sound still) i _ c.now refl id
                  (ap (lookup id) table ∙ absent)))
      ]

  -- For a sound pool over a faithful store, whose pin counts can still grow: `fetch_page` never
  -- panics. On every branch, the store's errors included, the pool stays sound, each page that its
  -- readers see is as it was, and the pinned frames keep their pages, bytes and pins. The answer is
  -- a pinned frame that holds the page, or an error.
  pub fetch_page-Fetched :
      FewPins p.inner → (mode : AccessMode) → Fetched io shown p id (fetch_page io p id mode)
  unfolding fetch_page
  fetch_page-Fetched few mode = elim (Option-cases (lookup id p.inner.page_table)) [
    | inl absent ↦ Fetched-miss mode absent
    | inr (i, e) ↦
        let (f, under, page) = sound.cached id i e in
        rw (e, under, fetch_page) (Fetched-hit io shown p sound few id i f under page mode)
  ]
