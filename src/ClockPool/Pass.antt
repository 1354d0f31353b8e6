-- ===== src/ClockPool/Pass.antt =====
-- The inner loop of `choose_victim` in project1/buffer_pool.rs.
use meridian_space_academy_c.Prelude.{
  get_elem?-lt, lt_of_get_elem?, ℕ, zero, suc, ◌+◌, ◌≤◌, ◌<◌, ◌≡◌, ◌≢◌, ◌∙◌, ◌⊎◌, inl, inr, refl,
  sym, ap, Bool, true, false, some, length-set, get_elem?, get_elem?-set_self, get_elem?-set_ne,
  arith,
}
use native.Mathlib.Decide.{ℕ_discrete, dec_le}
use meridian_space_academy_c.ClockPool.{
  Frame, BufferPoolInner, Sweep, reserved, swept, advance, reserve, second_chance, sweep,
}
use meridian_space_academy_c.ClockPool.Clock.{
  frame_count, aged, Visited, Rest, Rest-any, Progress, new_hand, new_hand-lt, origin,
  Progress-skip, Progress-again,
}

-- The frame `i` was unpinned and is reserved: its pin count is 1 and its usage 0. Every other frame
-- has at most the usage that it had, and is the same otherwise.
pub record Chosen (s0 s : BufferPoolInner) (i : ℕ) : Type 0 where
  pub rest : Rest s0 s
  pub count : frame_count s ≡ frame_count s0
  pub hand : s.clock_hand < frame_count s0
  pub victim : Frame
  pub was : get_elem? s0.frames i ≡ some victim
  pub free : victim.pin_count ≡ 0
  pub now : get_elem? s.frames i ≡ some (record victim { pin_count = 1; usage_count = 0 })
  pub others :
      (j : ℕ) (f : Frame)
      → get_elem? s0.frames j ≡ some f
      → j ≢ i
      → (u : ℕ) × (get_elem? s.frames j ≡ some (aged f u)) × (u ≤ f.usage_count)

module _ (k : ℕ) (found : Bool) (s : BufferPoolInner) (g : Frame)
    (under : get_elem? s.frames s.clock_hand ≡ some g) where
  sweep-skip : g.pin_count ≢ 0 → sweep (suc k) found s ≡ sweep k found (advance s)
  unfolding sweep
  sweep-skip pinned = rw (under, sweep) (ground arith)

  sweep-again :
      g.pin_count ≡ 0
      → g.usage_count ≢ 0
      → sweep (suc k) found s ≡ sweep k true (second_chance (advance s) s.clock_hand g)
  unfolding sweep
  sweep-again free used = rw (under, sweep) (ground arith)

  sweep-reserve :
      g.pin_count ≡ 0
      → g.usage_count ≡ 0
      → sweep (suc k) found s ≡ reserved s.clock_hand (reserve (advance s) s.clock_hand g)
  unfolding sweep
  sweep-reserve free unused = rw (under, sweep) (ground arith)

module _ (s0 : BufferPoolInner) (starts : s0.clock_hand < frame_count s0) where
  Chosen-reserve :
      (s : BufferPoolInner) (j : ℕ) (found : Bool) (g : Frame)
      → Progress s0 j found s
      → j < frame_count s0
      → get_elem? s.frames s.clock_hand ≡ some g
      → g.pin_count ≡ 0
      → g.usage_count ≡ 0
      → Chosen s0 (reserve (advance s) s.clock_hand g) s.clock_hand
  Chosen-reserve s j found g p more under free unused =
      let (f, e, same, le) = origin s0 s j found p more starts g under in
      record {
        rest = Rest-any s0 s _ _ s.stats.clock_second_chances p.rest;
        count = length-set s.frames s.clock_hand _ ∙ p.count;
        hand = unfold new_hand in new_hand-lt s0 s j found p more starts;
        victim = f;
        was = e;
        free = ground (arith, same);
        now =
            get_elem?-set_self s.frames s.clock_hand _ (omega (arith, p.count, p.hand))
            ∙ ap (λ (x : Frame). some (record x { pin_count = 1 })) (same ∙ ap (aged f) unused);
        others = λ k h e' ne.
            let (u, e'', le', _) = p.frames k h e' in
            (u, get_elem?-set_ne s.frames s.clock_hand k _ (λ x. ne (sym x)) ∙ e'', le');
      }

  -- A sweep over all frames reserves one, or ends with all of them passed.
  abbrev pub Outcome : Sweep → Type 0
  Outcome r =
      ((i : ℕ) × (s' : BufferPoolInner) × (r ≡ reserved i s') × Chosen s0 s' i)
      ⊎ ((found : Bool) × (s' : BufferPoolInner) × (r ≡ swept found s')
          × Progress s0 (frame_count s0) found s')

  sweep-Progress :
      (k j : ℕ) (found : Bool) (s : BufferPoolInner)
      → j + k ≡ frame_count s0
      → Progress s0 j found s
      → Outcome (sweep k found s)
  sweep-Progress zero j found s e p =
      let full : j ≡ frame_count s0 = omega arith in
      inr (found, s, unfold sweep in refl, rw full at p)
  sweep-Progress (suc k) j found s e p =
      let (g, under) = get_elem?-lt s.frames s.clock_hand (omega (arith, p.count, p.hand)) in
      go g under (ℕ_discrete g.pin_count 0) (ℕ_discrete g.usage_count 0)
        (λ f s' p'. sweep-Progress k (suc j) f s' (omega arith) p')
    where
      more : j < frame_count s0
      more = omega arith

      go :
          (g : Frame)
          → get_elem? s.frames s.clock_hand ≡ some g
          → Dec (g.pin_count ≡ 0)
          → Dec (g.usage_count ≡ 0)
          → ((f : Bool) (s' : BufferPoolInner) → Progress s0 (suc j) f s' → Outcome (sweep k f s'))
          → Outcome (sweep (suc k) found s)
      go g under (no pinned) _ rec =
          rw (sweep-skip k found s g under pinned)
            (rec found _ (Progress-skip s0 s j found p more starts g under pinned))
      go g under (yes free) (no used) rec =
          rw (sweep-again k found s g under free used)
            (rec true _ (Progress-again s0 s j found p more starts g under free used))
      go g under (yes free) (yes unused) rec = inl (
        s.clock_hand,
        reserve (advance s) s.clock_hand g,
        sweep-reserve k found s g under free unused,
        Chosen-reserve s j found g p more under free unused,
      )

  start : Progress s0 0 false s0
  start = record {
    rest = refl;
    count = refl;
    hand = starts;
    position = inl (omega arith);
    frames = λ i f e. (
      f.usage_count,
      e,
      omega arith,
      λ v free. absurd (elim v [
        | inl (a, b) ↦ omega arith
        | inr b ↦ omega (arith, lt_of_get_elem? s0.frames i f e)
      ]),
    );
    none_found = λ _ i f e v free. elim v [
      | inl (a, b) ↦ omega arith
      | inr b ↦ omega (arith, lt_of_get_elem? s0.frames i f e)
    ];
    quiet = λ _. (refl, refl);
    one_found = λ e. cc;
  }

  pub full_sweep : Outcome (sweep (frame_count s0) false s0)
  full_sweep = sweep-Progress (frame_count s0) 0 false s0 (omega arith) start

  pub all_visited :
      (i : ℕ) → i < frame_count s0 → Visited s0.clock_hand (frame_count s0) (frame_count s0) i
  all_visited i lt = elim (dec_le s0.clock_hand i) [
    | yes le ↦ inl (le, omega arith)
    | no gt ↦ inr (omega arith)
  ]
