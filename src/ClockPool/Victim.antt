-- ===== src/ClockPool/Victim.antt =====
-- `choose_victim` of project1/buffer_pool.rs.
use meridian_space_academy_c.Prelude.{
  get_elem?-lt, lt_of_get_elem?, ℕ, zero, suc, ◌+◌, ◌≤◌, ◌<◌, ◌≡◌, ◌≢◌, ◌∙◌, ◌⊎◌, inl, inr, refl,
  sym, ap, true, false, some, get_elem?, arith,
}
use meridian_space_academy_c.Config.{max_usage_count}
use meridian_space_academy_c.Result.{Result, ok, err, all_frames_pinned}
use meridian_space_academy_c.ClockPool.{Frame, BufferPoolInner, sweep, rounds, choose_victim}
use meridian_space_academy_c.ClockPool.Clock.{frame_count, aged, Rest, Rest-any, Progress}
use meridian_space_academy_c.ClockPool.Pass.{Chosen, Outcome, full_sweep, all_visited}

-- Every unpinned frame has at most this usage.
abbrev pub UsedUpTo : ℕ → BufferPoolInner → Type 0
UsedUpTo b s =
    (i : ℕ) (f : Frame) → get_elem? s.frames i ≡ some f → f.pin_count ≡ 0 → f.usage_count ≤ b

-- All frames are pinned, and the call left frames and counters as they were.
pub record Exhausted (s s' : BufferPoolInner) : Type 0 where
  pub pinned : (i : ℕ) (f : Frame) → get_elem? s.frames i ≡ some f → f.pin_count ≢ 0
  pub rest : Rest s s'
  pub frames : s'.frames ≡ s.frames
  pub stats : s'.stats ≡ s.stats
  pub hand : s'.clock_hand < frame_count s

module _ (s s1 : BufferPoolInner) (starts : s.clock_hand < frame_count s)
    (p : Progress s (frame_count s) true s1) where
  -- A frame after the sweep was one before it.
  before :
      (i : ℕ) (g : Frame)
      → get_elem? s1.frames i ≡ some g
      → (f : Frame) × (get_elem? s.frames i ≡ some f)
        × (u : ℕ) × (g ≡ aged f u)
        × (f.pin_count ≡ 0 → u < f.usage_count)
  before i g e =
      let lt : i < frame_count s = omega (arith, lt_of_get_elem? s1.frames i g e, p.count) in
      let (f, e') = get_elem?-lt s.frames i lt in
      let (u, e'', le, less) = p.frames i f e' in
      (f, e', u, ground (arith, e, e''), less (all_visited s starts i lt))

  UsedUpTo-sweep : (b : ℕ) → UsedUpTo (suc b) s → UsedUpTo b s1
  UsedUpTo-sweep b used i g e free =
      let (f, e', u, same, less) = before i g e in
      let free' : f.pin_count ≡ 0 = ground (arith, same) in
      let uses : g.usage_count ≡ u = ap (λ (x : Frame). x.usage_count) same in
      omega (arith, less free', used i f e' free')

  Chosen-sweep : (s' : BufferPoolInner) (i : ℕ) → Chosen s1 s' i → Chosen s s' i
  Chosen-sweep s' i c =
      let (f, e, u, same, _) = before i c.victim c.was in
      record {
        rest = c.rest ∙ Rest-any s s1 s'.frames s'.clock_hand s'.stats.clock_second_chances p.rest;
        count = c.count ∙ p.count;
        hand = omega (arith, c.hand, p.count);
        victim = f;
        was = e;
        free = sym (ap (λ (x : Frame). x.pin_count) same) ∙ c.free;
        now = c.now ∙ ap (λ (x : Frame). some (record x { pin_count = 1; usage_count = 0 })) same;
        others = λ j h e' ne.
            let (v, e'', le, _) = p.frames j h e' in
            let (w, e3, le') = c.others j (aged h v) e'' ne in (w, e3, omega arith);
      }

  still_unpinned : ¬ ((i : ℕ) (f : Frame) → get_elem? s1.frames i ≡ some f → f.pin_count ≢ 0)
  still_unpinned all =
      let (i, f, e, free, _) = p.one_found refl in
      let (u, e', _, _) = p.frames i f e in all i (aged f u) e' free

-- What `n` rounds come to.
abbrev pub Decided : BufferPoolInner → BufferPoolInner × Result ℕ → Type 0
Decided s r =
    ((s' : BufferPoolInner) × (r ≡ (s', err all_frames_pinned)) × Exhausted s s')
    ⊎ ((s' : BufferPoolInner) × (i : ℕ) × (r ≡ (s', ok i)) × Chosen s s' i)

module _ (s : BufferPoolInner) (starts : s.clock_hand < frame_count s) where
  Exhausted-sweep : (s' : BufferPoolInner) → Progress s (frame_count s) false s' → Exhausted s s'
  Exhausted-sweep s' p = record {
    pinned =
        λ i f e. p.none_found refl i f e (all_visited s starts i (lt_of_get_elem? s.frames i f e));
    rest = p.rest;
    frames = (p.quiet refl).0;
    stats = (p.quiet refl).1;
    hand = p.hand;
  }

  Decided-again :
      (s1 : BufferPoolInner) (r : BufferPoolInner × Result ℕ)
      → Progress s (frame_count s) true s1
      → Decided s1 r
      → Decided s r
  Decided-again s1 r p d = elim d [
    | inl (s', e, x) ↦ absurd (still_unpinned s s1 starts p x.pinned)
    | inr (s', i, e, c) ↦ inr (s', i, e, Chosen-sweep s s1 starts p s' i c)
  ]

  -- With no usage left a sweep reserves the first unpinned frame.
  unused_frames : (s1 : BufferPoolInner) → Progress s (frame_count s) true s1 → ¬ UsedUpTo 0 s
  unused_frames s1 p used =
      let (i, f, e, free, some_use) = p.one_found refl in omega (arith, used i f e free)

rounds-Decided :
    (n b : ℕ) (s : BufferPoolInner)
    → s.clock_hand < frame_count s
    → UsedUpTo b s
    → b < n
    → Decided s (rounds n s)
unfolding rounds
rounds-Decided zero b s starts used lt = elim lt [ ]
rounds-Decided (suc n) b s starts used lt =
    go b used lt (λ b' s1 starts' used' lt'. rounds-Decided n b' s1 starts' used' lt')
      (full_sweep s starts)
  where
    go :
        (b : ℕ)
        → UsedUpTo b s
        → b < suc n
        → ((b' : ℕ) (s1 : BufferPoolInner)
            → s1.clock_hand < frame_count s1
            → UsedUpTo b' s1
            → b' < n
            → Decided s1 (rounds n s1))
        → Outcome s starts (sweep (frame_count s) false s)
        → Decided s (rounds (suc n) s)
    go b used lt rec (inl (i, s', e, c)) = inr (s', i, rw (e, rounds) refl, c)
    go b used lt rec (inr (false, s', e, p)) =
        inl (s', rw (e, rounds) refl, Exhausted-sweep s starts s' p)
    go zero used lt rec (inr (true, s1, e, p)) = absurd (unused_frames s starts s1 p used)
    go (suc b) used lt rec (inr (true, s1, e, p)) =
        let again : rounds (suc n) s ≡ rounds n s1 = rw (e, rounds) refl in
        rw again (
          Decided-again s starts s1 _ p (
            rec b s1 (omega (arith, p.hand, p.count)) (UsedUpTo-sweep s s1 starts p b used)
              (omega arith)))

-- For a hand that is on a frame and usage counts of unpinned frames of at most `max_usage_count`,
-- `choose_victim` never panics: if all frames are pinned it reports that and changes only the hand,
-- else it reserves an unpinned frame, and every other frame keeps all but its usage count, which
-- does not grow.
pub choose_victim-Decided :
    (s : BufferPoolInner)
    → s.clock_hand < frame_count s
    → UsedUpTo max_usage_count s
    → Decided s (choose_victim s)
unfolding choose_victim
choose_victim-Decided s starts used =
    rounds-Decided (max_usage_count + 1) max_usage_count s starts used (omega arith)
