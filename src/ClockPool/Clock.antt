-- ===== src/ClockPool/Clock.antt =====
-- One sweep of the clock hand in project1/buffer_pool.rs.
use meridian_space_academy_c.Prelude.{
  ℕ, suc, ◌+◌, ◌-◌, ◌%◌, ◌≤◌, ◌<◌, ◌≡◌, ◌≢◌, ◌∙◌, ◌⊎◌, inl, inr, sym, ap, Bool, true, false, some,
  List, length, length-set, get_elem?, set, get_elem?-set_self, get_elem?-set_ne, get_elem?-lt,
  lt_of_get_elem?, arith,
}
use native.Mathlib.Decide.{ℕ_discrete}
use meridian_space_academy_c.ClockPool.{Frame, BufferPoolInner, advance, second_chance}

abbrev pub frame_count : BufferPoolInner → ℕ
frame_count s = length s.frames

-- The frame `f` with the usage count `u`.
abbrev pub aged : Frame → ℕ → Frame
aged f u = record f { usage_count = u }

-- The hand, started at `h` in a circle of `n`, has passed `i` in its first `j` steps.
abbrev pub Visited : ℕ → ℕ → ℕ → ℕ → Type 0
Visited h j n i = ((h ≤ i) × (i < h + j)) ⊎ (i + n < h + j)

-- What a sweep never changes.
abbrev pub Rest : BufferPoolInner → BufferPoolInner → Type 0
Rest s0 s = s ≡ record s0 {
  frames = s.frames;
  clock_hand = s.clock_hand;
  stats = record s0.stats { clock_second_chances = s.stats.clock_second_chances };
}

pub Rest-any :
    (s0 s : BufferPoolInner) (fs : List Frame) (c k : ℕ)
    → Rest s0 s
    → Rest s0 (record s {
      frames = fs;
      clock_hand = c;
      stats = record s.stats { clock_second_chances = k };
    })
Rest-any s0 s fs c k r =
    ap
      (λ (x : BufferPoolInner). record x {
        frames = fs;
        clock_hand = c;
        stats = record x.stats { clock_second_chances = k };
      })
      r

-- After `j` steps of a sweep that began at `s0`: every frame has at most the usage that it had, and
-- an unpinned one that was passed has less.
pub record Progress (s0 : BufferPoolInner) (j : ℕ) (found : Bool) (s : BufferPoolInner)
    : Type 0 where
  pub rest : Rest s0 s
  pub count : frame_count s ≡ frame_count s0
  pub hand : s.clock_hand < frame_count s0
  pub position :
      (s0.clock_hand + j ≡ s.clock_hand) ⊎ (s0.clock_hand + j ≡ s.clock_hand + frame_count s0)
  pub frames :
      (i : ℕ) (f : Frame)
      → get_elem? s0.frames i ≡ some f
      → (u : ℕ) × (get_elem? s.frames i ≡ some (aged f u))
        × (u ≤ f.usage_count)
        × (Visited s0.clock_hand j (frame_count s0) i → f.pin_count ≡ 0 → u < f.usage_count)
  pub none_found :
      found ≡ false
      → (i : ℕ) (f : Frame) → get_elem? s0.frames i ≡ some f
      → Visited s0.clock_hand j (frame_count s0) i
      → f.pin_count ≢ 0
  pub quiet : found ≡ false → (s.frames ≡ s0.frames) × (s.stats ≡ s0.stats)
  pub one_found :
      found ≡ true
      → (i : ℕ) × (f : Frame) × (get_elem? s0.frames i ≡ some f)
        × (f.pin_count ≡ 0)
        × (0 < f.usage_count)

next_hand :
    (h n : ℕ) → h < n → (((h + 1) % n ≡ h + 1) × (h + 1 < n)) ⊎ (((h + 1) % n ≡ 0) × (h + 1 ≡ n))
next_hand h n lt = elim (ℕ_discrete (h + 1) n) [
  | yes e ↦ inr (grind (arith, e), e)
  | no ne ↦ inl (grind arith, omega arith)
]

-- A step passes the frame under the hand.
Visited-suc :
    (h j n k i : ℕ)
    → (h + j ≡ k) ⊎ (h + j ≡ k + n)
    → k < n
    → i < n
    → Visited h (suc j) n i
    → Visited h j n i ⊎ (i ≡ k)
Visited-suc h j n k i at hk hi v = elim (ℕ_discrete i k) [
  | yes e ↦ inr e
  | no ne ↦ inl (elim v [ inl (a, b) ↦ inl (a, omega arith) | inr b ↦ inr (omega arith) ])
]

module _ (s0 s : BufferPoolInner) (j : ℕ) (found : Bool) (p : Progress s0 j found s)
    (more : j < frame_count s0) (starts : s0.clock_hand < frame_count s0) where
  unfoldable pub new_hand : ℕ
  new_hand = (s.clock_hand + 1) % frame_count s

  new_hand_cases :
      ((new_hand ≡ s.clock_hand + 1) × (s.clock_hand + 1 < frame_count s0))
      ⊎ ((new_hand ≡ 0) × (s.clock_hand + 1 ≡ frame_count s0))
  unfolding new_hand
  new_hand_cases = rw p.count (next_hand s.clock_hand (frame_count s0) p.hand)

  pub new_hand-lt : new_hand < frame_count s0
  new_hand-lt = omega (arith, new_hand_cases)

  new_position :
      (s0.clock_hand + suc j ≡ new_hand) ⊎ (s0.clock_hand + suc j ≡ new_hand + frame_count s0)
  new_position = elim new_hand_cases [
    | inl (e, lt) ↦ elim p.position [ inl a ↦ inl (omega arith) | inr a ↦ inr (omega arith) ]
    | inr (e, full) ↦ elim p.position [ inl a ↦ inr (omega arith) | inr a ↦ absurd (omega arith) ]
  ]

  passed :
      (i : ℕ) (f : Frame)
      → get_elem? s0.frames i ≡ some f
      → Visited s0.clock_hand (suc j) (frame_count s0) i
      → Visited s0.clock_hand j (frame_count s0) i ⊎ (i ≡ s.clock_hand)
  passed i f e v =
      Visited-suc s0.clock_hand j (frame_count s0) s.clock_hand i p.position p.hand
        (lt_of_get_elem? s0.frames i f e) v

  module _ (g : Frame) (under : get_elem? s.frames s.clock_hand ≡ some g) where
    -- The frame under the hand is a frame of `s0`, perhaps with less usage.
    pub origin :
        (f : Frame) × (get_elem? s0.frames s.clock_hand ≡ some f)
        × (g ≡ aged f g.usage_count)
        × (g.usage_count ≤ f.usage_count)
    origin =
        let (f, e) = get_elem?-lt s0.frames s.clock_hand p.hand in
        let (u, e', le, _) = p.frames s.clock_hand f e in
        let same : g ≡ aged f u = ground (arith, under, e') in
        let uses : g.usage_count ≡ u = ap (λ x. x.usage_count) same in
        (f, e, same ∙ ap (aged f) (sym uses), omega arith)

    -- A pinned frame is skipped.
    pub Progress-skip : g.pin_count ≢ 0 → Progress s0 (suc j) found (advance s)
    unfolding new_hand
    Progress-skip pinned = record {
      rest = Rest-any s0 s s.frames new_hand s.stats.clock_second_chances p.rest;
      count = p.count;
      hand = new_hand-lt;
      position = new_position;
      frames = λ i f e.
          let (u, e', le, less) = p.frames i f e in
          (
            u,
            e',
            le,
            λ v free. elim (passed i f e v) [
              | inl before ↦ less before free
              | inr here ↦ absurd (same_pin i f u here e' free)
            ],
          );
      none_found = λ none i f e v free.
          let (u, e', _, _) = p.frames i f e in
          elim (passed i f e v) [
            | inl before ↦ p.none_found none i f e before free
            | inr here ↦ same_pin i f u here e' free
          ];
      quiet = p.quiet;
      one_found = p.one_found;
    }
      where
        same_pin :
            (i : ℕ) (f : Frame) (u : ℕ)
            → i ≡ s.clock_hand
            → get_elem? s.frames i ≡ some (aged f u)
            → f.pin_count ≡ 0
            → ⊥
        same_pin i f u here e' free = ground (arith, rw here at e')

    -- An unpinned one with some usage loses one of it.
    pub Progress-again :
        g.pin_count ≡ 0
        → g.usage_count ≢ 0
        → Progress s0 (suc j) true (second_chance (advance s) s.clock_hand g)
    unfolding new_hand
    Progress-again free used = record {
      rest = Rest-any s0 s _ new_hand (s.stats.clock_second_chances + 1) p.rest;
      count = length-set s.frames s.clock_hand _ ∙ p.count;
      hand = new_hand-lt;
      position = new_position;
      frames = λ i f e. elim (ℕ_discrete i s.clock_hand) [
        | yes here ↦ lowered i f e here
        | no ne ↦
            let (u, e', le, less) = p.frames i f e in
            (
              u,
              get_elem?-set_ne s.frames s.clock_hand i _ (λ x. ne (sym x)) ∙ e',
              le,
              λ v free'. elim (passed i f e v) [
                | inl before ↦ less before free'
                | inr here ↦ absurd (ne here)
              ],
            )
      ];
      none_found = λ e. cc;
      quiet = λ e. cc;
      one_found = λ _.
          let (f, e, same, le) = origin in
          (s.clock_hand, f, e, ground (arith, same, free), omega arith);
    }
      where
        lowered :
            (i : ℕ) (f : Frame)
            → get_elem? s0.frames i ≡ some f
            → i ≡ s.clock_hand
            → (u : ℕ) × (get_elem? (set s.frames s.clock_hand (aged g (g.usage_count - 1))) i
                ≡ some (aged f u))
              × (u ≤ f.usage_count)
              × (Visited s0.clock_hand (suc j) (frame_count s0) i
                  → f.pin_count ≡ 0
                  → u < f.usage_count)
        lowered i f e here =
            let (f', e', same, le) = origin in
            let first : f' ≡ f = ground (arith, rw here at e) in
            let uses : f'.usage_count ≡ f.usage_count = ap (λ x. x.usage_count) first in
            (
              g.usage_count - 1,
              rw here (
                  get_elem?-set_self s.frames s.clock_hand _ (omega (arith, p.count, p.hand))
                  ∙ ap (λ (x : Frame). some (aged x (g.usage_count - 1)))
                      (same ∙ ap (λ (x : Frame). aged x g.usage_count) first)),
              omega arith,
              λ v free'. omega arith,
            )
