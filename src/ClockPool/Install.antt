-- ===== src/ClockPool/Install.antt =====
-- A frame of project1/buffer_pool.rs gets another page.
use meridian_space_academy_c.Prelude.{
  lt_of_get_elem?, ℕ, ◌≡◌, ◌≢◌, ◌∙◌, ◌⊎◌, inl, inr, refl, sym, ap, false, Option, none, some, List,
  length, length-set, get_elem?, set, get_elem?-set_self, get_elem?-set_ne, arith, Option-cases,
  Bool-cases,
}
use native.Mathlib.Decide.{ℕ_discrete}
use meridian_space_academy_c.PageStore.{
  PageId, Table, lookup, insert, remove, same_page, same_page_iff, lookup-insert, lookup-remove,
}
use meridian_space_academy_c.ClockPool.{Frame, BufferPoolShared, install, unmap}
use meridian_space_academy_c.ClockPool.Invariant.{
  Shown, IsSound, page_of, page_of-some, page_of-none,
}

-- The lookups after the victim's page was unmapped and `id` mapped to its frame.
lookup-install :
    (id q : PageId) (i : ℕ) (old : Option PageId) (t : Table)
    → ((q ≡ id) × (lookup q (insert id i (unmap old t)) ≡ some i))
      ⊎ ((q ≢ id)
          × (((old ≡ some q) × (lookup q (insert id i (unmap old t)) ≡ none))
              ⊎ ((old ≢ some q) × (lookup q (insert id i (unmap old t)) ≡ lookup q t))))
lookup-install id q i none t = elim (Bool-cases (same_page id q)) [
  | inl e ↦ inl (ground (arith, e, same_page_iff id q), ground (arith, e, lookup-insert id q i t))
  | inr e ↦ inr (
    ground (arith, e, same_page_iff id q),
    inr (ground arith, ground (arith, e, lookup-insert id q i t)),
  )
]
lookup-install id q i (some old) t = elim (Bool-cases (same_page id q)) [
  | inl e ↦ inl (
    ground (arith, e, same_page_iff id q),
    ground (arith, e, lookup-insert id q i (remove old t)),
  )
  | inr e ↦ inr (
    ground (arith, e, same_page_iff id q),
    elim (Bool-cases (same_page old q)) [
      | inl e' ↦ inl (
        ground (arith, e', same_page_iff old q),
        ground (arith, e, e', lookup-insert id q i (remove old t), lookup-remove old q t),
      )
      | inr e' ↦ inr (
        ground (arith, e', same_page_iff old q),
        ground (arith, e, e', lookup-insert id q i (remove old t), lookup-remove old q t),
      )
    ],
  )
]

module _ {S : Type 0} (shown : Shown S) where
  module _ (p : BufferPoolShared S) (sound : IsSound shown p) (i : ℕ) (f : Frame)
      (under : get_elem? p.inner.frames i ≡ some f) (store' : S)
      (same : (q : PageId) → shown.contents store' q ≡ shown.contents p.store q) (id : PageId)
      (absent : lookup id p.inner.page_table ≡ none)
      (fresh : (old : PageId) → f.page_id ≡ some old → f.dirty ≡ false) (b : List ℕ)
      (got : shown.contents p.store id ≡ shown.visible b) where
    abbrev pub filled : Frame
    filled = record f { page_id = some id; bytes = b; dirty = false; usage_count = 1 }

    -- The pool after step 5 of `fetch_page`.
    abbrev pub installed : BufferPoolShared S
    installed = record { store = store'; inner = install p.inner i f id b }

    table_of : installed.inner.page_table ≡ insert id i (unmap f.page_id p.inner.page_table)
    unfolding install
    table_of = refl

    frames_of : installed.inner.frames ≡ set p.inner.frames i filled
    unfolding install
    frames_of = refl

    hand_of : installed.inner.clock_hand ≡ p.inner.clock_hand
    unfolding install
    hand_of = refl

    pub frame_here : get_elem? installed.inner.frames i ≡ some filled
    frame_here =
        ap (λ x. get_elem? x i) frames_of
        ∙ get_elem?-set_self p.inner.frames i filled (lt_of_get_elem? p.inner.frames i f under)

    pub frame_there :
        (k : ℕ) → k ≢ i → get_elem? installed.inner.frames k ≡ get_elem? p.inner.frames k
    frame_there k ne =
        ap (λ x. get_elem? x k) frames_of
        ∙ get_elem?-set_ne p.inner.frames i k filled (λ x. ne (sym x))

    abbrev Lookup : PageId → Type 0
    Lookup q =
        ((q ≡ id) × (lookup q installed.inner.page_table ≡ some i))
        ⊎ ((q ≢ id)
            × (((f.page_id ≡ some q) × (lookup q installed.inner.page_table ≡ none))
                ⊎ ((f.page_id ≢ some q)
                    × (lookup q installed.inner.page_table ≡ lookup q p.inner.page_table))))

    Lookup-cases : (q : PageId) → Lookup q
    Lookup-cases q = rw table_of (lookup-install id q i f.page_id p.inner.page_table)

    -- Another page than the victim's is cached by another frame.
    elsewhere :
        (q : PageId) (k : ℕ)
        → f.page_id ≢ some q
        → lookup q p.inner.page_table ≡ some k
        → (h : Frame) × (get_elem? p.inner.frames k ≡ some h) × (h.page_id ≡ some q) × (k ≢ i)
    elsewhere q k ne e =
        let (h, under', page) = sound.cached q k e in
        (h, under', page, λ here. ne (ground (arith, rw here at under', under, page)))

    pub installed-page_of : (q : PageId) → page_of shown installed q ≡ page_of shown p q
    installed-page_of q = elim (Lookup-cases q) [
      | inl (e, e') ↦
          page_of-some shown installed q i filled e' frame_here
          ∙ sym got
          ∙ ap (shown.contents p.store) (sym e)
          ∙ sym (page_of-none shown p q (ap (λ x. lookup x p.inner.page_table) e ∙ absent))
      | inr (_, inl (e, e')) ↦
          page_of-none shown installed q e'
          ∙ same q
          ∙ sound.clean i f q under e (fresh q e)
          ∙ sym (page_of-some shown p q i f (sound.mapped i f q under e) under)
      | inr (_, inr (ne, e')) ↦ elim (Option-cases (lookup q p.inner.page_table)) [
        | inl none_there ↦
            page_of-none shown installed q (e' ∙ none_there)
            ∙ same q
            ∙ sym (page_of-none shown p q none_there)
        | inr (k, there) ↦
            let (h, under', _, ne') = elsewhere q k ne there in
            page_of-some shown installed q k h (e' ∙ there) (frame_there k ne' ∙ under')
            ∙ sym (page_of-some shown p q k h there under')
      ]
    ]

    frame_cases :
        (k : ℕ) (h : Frame)
        → get_elem? installed.inner.frames k ≡ some h
        → ((k ≡ i) × (filled ≡ h)) ⊎ ((k ≢ i) × (get_elem? p.inner.frames k ≡ some h))
    frame_cases k h e = elim (ℕ_discrete k i) [
      | yes here ↦ inl (here, ground (arith, rw here at e, frame_here))
      | no ne ↦ inr (ne, sym (frame_there k ne) ∙ e)
    ]

    installed-cached :
        (q : PageId) (k : ℕ)
        → lookup q installed.inner.page_table ≡ some k
        → (h : Frame) × (get_elem? installed.inner.frames k ≡ some h) × (h.page_id ≡ some q)
    installed-cached q k e = elim (Lookup-cases q) [
      | inl (e1, e2) ↦
          let here : k ≡ i = ground (arith, e, e2) in (filled, rw here frame_here, ap some (sym e1))
      | inr (_, inl (_, e2)) ↦ ground (arith, e, e2)
      | inr (_, inr (ne, e2)) ↦
          let (h, under', page, ne') = elsewhere q k ne (sym e2 ∙ e) in
          (h, frame_there k ne' ∙ under', page)
    ]

    installed-mapped :
        (k : ℕ) (h : Frame) (q : PageId)
        → get_elem? installed.inner.frames k ≡ some h
        → h.page_id ≡ some q
        → lookup q installed.inner.page_table ≡ some k
    installed-mapped k h q e page = elim (frame_cases k h e) [
      | inl (here, is) ↦
          let page' : some id ≡ some q = ap (λ (x : Frame). x.page_id) is ∙ page in
          elim (Lookup-cases q) [
            | inl (_, e2) ↦ rw here e2
            | inr (ne, _) ↦ absurd (ground (arith, page', ne))
          ]
      | inr (ne, there) ↦ elim (Lookup-cases q) [
        | inl (e1, _) ↦
            let found = sound.mapped k h q there page in
            absurd (ground (arith, rw e1 at found, absent))
        | inr (_, inl (e1, _)) ↦
            absurd (ne (ground (arith, sound.mapped k h q there page, sound.mapped i f q under e1)))
        | inr (_, inr (_, e2)) ↦ e2 ∙ sound.mapped k h q there page
      ]
    ]

    pub installed-IsSound : IsSound shown installed
    installed-IsSound = record {
      hand =
          omega
            (arith, sound.hand, hand_of, ap length frames_of, length-set p.inner.frames i filled);
      used = λ k h e. elim (frame_cases k h e) [
        | inl (_, is) ↦ omega (arith, ap (λ (x : Frame). x.usage_count) is)
        | inr (_, there) ↦ sound.used k h there
      ];
      cached = installed-cached;
      mapped = installed-mapped;
      clean = λ k h q e page fresh'. elim (frame_cases k h e) [
        | inl (_, is) ↦
            let page' : some id ≡ some q = ap (λ (x : Frame). x.page_id) is ∙ page in
            let e' : q ≡ id = ground (arith, page') in
            same q
            ∙ ap (shown.contents p.store) e'
            ∙ got
            ∙ ap (λ (x : Frame). shown.visible x.bytes) is
        | inr (_, there) ↦ same q ∙ sound.clean k h q there page fresh'
      ];
    }
