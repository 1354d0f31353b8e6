-- ===== src/AtomicPool/Recall.antt =====
-- The states of buffer_pool.rs as states of buffer_pool_v2.rs, and the clock on both.
use meridian_space_academy_c.Prelude.{
  ℕ, zero, suc, ◌-◌, ◌≡◌, ◌∙◌, inl, inr, refl, sym, ap, Bool, true, false, Option, none, some, List,
  [], ◌∷◌, length, get_elem?, set, replicate, ◌==◌, arith, Option-cases, Bool-cases,
}
use mathlib.Core.Option.{some-injective}
use native.Mathlib.Decide.{ℕ_discrete}
use meridian_space_academy_c.Result.{Result, ok, err, panic, all_frames_pinned, ◌>>=◌}
use meridian_space_academy_c.PageStore.{PageId}
use meridian_space_academy_c.ClockPool.{BufferPoolInner, BufferPoolShared}
use meridian_space_academy_c.ClockPool
use meridian_space_academy_c.AtomicPool.{
  FrameState, empty, valid, Frame, BufferPoolV2Shared, with_frame, advance, second_chance, reserve,
  Sweep, reserved, swept, broken, sweep, rounds, choose_victim, empty_frame, new,
}

abbrev pub state_of : Option PageId → FrameState
state_of none = empty
state_of (some id) = valid id

abbrev pub recall_frame : ClockPool.Frame → Frame
recall_frame f = record {
  state = state_of f.page_id;
  bytes = f.bytes;
  pin_count = f.pin_count;
  usage_count = f.usage_count;
  dirty = f.dirty;
}

abbrev pub recall_frames : List ClockPool.Frame → List Frame
recall_frames [] = []
recall_frames (f ∷ fs) = recall_frame f ∷ recall_frames fs

abbrev pub recall : {S : Type 0} → S → BufferPoolInner → BufferPoolV2Shared S
recall store s = record {
  store = store;
  frames = recall_frames s.frames;
  page_table = s.page_table;
  clock_hand = s.clock_hand;
  stats = s.stats;
}

abbrev pub recall_pool : {S : Type 0} → BufferPoolShared S → BufferPoolV2Shared S
recall_pool p = recall p.store p.inner

pub length-recall_frames : (fs : List ClockPool.Frame) → length (recall_frames fs) ≡ length fs
length-recall_frames [] = refl
length-recall_frames (f ∷ fs) = ap suc (length-recall_frames fs)

pub get_elem?-recall_some :
    (fs : List ClockPool.Frame) (i : ℕ) (f : ClockPool.Frame)
    → get_elem? fs i ≡ some f
    → get_elem? (recall_frames fs) i ≡ some (recall_frame f)
get_elem?-recall_some [] i f e = ground (arith, e)
get_elem?-recall_some (g ∷ fs) zero f e = ap some (ap recall_frame (some-injective g f e))
get_elem?-recall_some (g ∷ fs) (suc i) f e = get_elem?-recall_some fs i f e

pub get_elem?-recall_none :
    (fs : List ClockPool.Frame) (i : ℕ)
    → get_elem? fs i ≡ none
    → get_elem? (recall_frames fs) i ≡ none
get_elem?-recall_none [] i e = refl
get_elem?-recall_none (g ∷ fs) zero e = ground (arith, e)
get_elem?-recall_none (g ∷ fs) (suc i) e = get_elem?-recall_none fs i e

pub set-recall :
    (fs : List ClockPool.Frame) (i : ℕ) (f : ClockPool.Frame)
    → set (recall_frames fs) i (recall_frame f) ≡ recall_frames (set fs i f)
set-recall [] i f = refl
set-recall (g ∷ fs) zero f = refl
set-recall (g ∷ fs) (suc i) f = ap (◌∷◌ (recall_frame g)) (set-recall fs i f)

pub set-set : {A : Type 0} (xs : List A) (i : ℕ) (a b : A) → set (set xs i a) i b ≡ set xs i b
set-set [] i a b = refl
set-set (x ∷ xs) zero a b = refl
set-set (x ∷ xs) (suc i) a b = ap (◌∷◌ x) (set-set xs i a b)

replicate-recall :
    (n : ℕ) → replicate n empty_frame ≡ recall_frames (replicate n ClockPool.empty_frame)
unfolding replicate empty_frame ClockPool.empty_frame
replicate-recall zero = refl
replicate-recall (suc n) = ap (◌∷◌ empty_frame) (replicate-recall n)

pub new-recall :
    {S : Type 0} (n : ℕ) (store : S)
    → new n store ≡ (ClockPool.new n store >>= λ p. ok (recall_pool p))
unfolding new ClockPool.new
new-recall n store = elim (Bool-cases (n == 0)) [
  | inl t ↦ rw (t, new, ClockPool.new) refl
  | inr t ↦ rw (t, replicate-recall n, new, ClockPool.new) refl
]

abbrev pub recall_sweep : {S : Type 0} → S → ClockPool.Sweep → Sweep S
recall_sweep store (ClockPool.reserved i s) = reserved i (recall store s)
recall_sweep store (ClockPool.swept b s) = swept b (recall store s)
recall_sweep store (ClockPool.broken s) = broken (recall store s)

abbrev pub recall_reply :
    {S : Type 0} {A : Type 0} → S → BufferPoolInner × Result A → BufferPoolV2Shared S × Result A
recall_reply store x = (recall store x.0, x.1)

module _ {S : Type 0} (store : S) (s : BufferPoolInner) where
  advance-recall : advance (recall store s) ≡ recall store (ClockPool.advance s)
  advance-recall = rw (length-recall_frames s.frames) refl

  put-recall :
      (i : ℕ) (f : ClockPool.Frame)
      → with_frame (recall store s) i (recall_frame f) ≡ recall store (ClockPool.put_frame s i f)
  put-recall i f = rw (set-recall s.frames i f) refl

  again-recall :
      (i : ℕ) (f : ClockPool.Frame)
      → f.pin_count ≡ 0
      → second_chance (recall store s) i (reserve (recall_frame f))
        ≡ recall store (ClockPool.second_chance s i f)
  again-recall i f z =
      rw (sym (set-recall s.frames i (record f { usage_count = f.usage_count - 1 })), z) refl

pub sweep-recall :
    {S : Type 0} (store : S) (n : ℕ) (found : Bool) (s : BufferPoolInner)
    → sweep n found (recall store s) ≡ recall_sweep store (ClockPool.sweep n found s)
unfolding sweep ClockPool.sweep
sweep-recall store zero found s = refl
sweep-recall store (suc n) found s =
    let i = s.clock_hand in
    let s' = ClockPool.advance s in
    let forth = advance-recall store s in
    elim (Option-cases (get_elem? s.frames i)) [
      | inl e ↦ rw (e, get_elem?-recall_none s.frames i e, sweep, ClockPool.sweep) (ap broken forth)
      | inr (f, e) ↦
          rw (e, get_elem?-recall_some s.frames i f e, sweep, ClockPool.sweep)
            (elim (ℕ_discrete f.pin_count 0) [
              | no ne ↦
                  let t : (f.pin_count == 0) ≡ false = ground (arith, ne) in
                  rw t (ap (sweep n found) forth ∙ sweep-recall store n found s')
              | yes z ↦
                  let t : (f.pin_count == 0) ≡ true = ground (arith, z) in
                  elim (ℕ_discrete f.usage_count 0) [
                    | yes u ↦
                        let t' : (f.usage_count == 0) ≡ true = ground (arith, u) in
                        rw (t, t')
                          (ap (λ p. reserved i (with_frame p i (reserve (recall_frame f)))) forth
                            ∙ ap (reserved i) (put-recall store s' i (record f { pin_count = 1 })))
                    | no nu ↦
                        let t' : (f.usage_count == 0) ≡ false = ground (arith, nu) in
                        rw (t, t')
                          (ap (λ p. sweep n true (second_chance p i (reserve (recall_frame f))))
                              forth
                            ∙ ap (sweep n true) (again-recall store s' i f z)
                            ∙ sweep-recall store n true (ClockPool.second_chance s' i f))
                  ]
            ])
    ]

pub rounds-recall :
    {S : Type 0} (store : S) (n : ℕ) (s : BufferPoolInner)
    → rounds n (recall store s) ≡ recall_reply store (ClockPool.rounds n s)
unfolding rounds ClockPool.rounds
rounds-recall store zero s = refl
rounds-recall store (suc n) s =
    rw
      (
        length-recall_frames s.frames,
        sweep-recall store (length s.frames) false s,
        rounds,
        ClockPool.rounds,
      )
      (go (ClockPool.sweep (length s.frames) false s) (rounds-recall store n))
  where
    go :
        (x : ClockPool.Sweep)
        → ((s' : BufferPoolInner)
            → rounds n (recall store s') ≡ recall_reply store (ClockPool.rounds n s'))
        → (elim (recall_sweep store x) [
          | reserved i p' ↦ (p', ok i)
          | swept true p' ↦ rounds n p'
          | swept false p' ↦ (p', err all_frames_pinned)
          | broken p' ↦ (p', panic)
        ])
          ≡ recall_reply store (elim x [
            | ClockPool.reserved i s' ↦ (s', ok i)
            | ClockPool.swept true s' ↦ ClockPool.rounds n s'
            | ClockPool.swept false s' ↦ (s', err all_frames_pinned)
            | ClockPool.broken s' ↦ (s', panic)
          ])
    go (ClockPool.reserved i s') rest = refl
    go (ClockPool.swept true s') rest = rest s'
    go (ClockPool.swept false s') rest = refl
    go (ClockPool.broken s') rest = refl

pub choose_victim-recall :
    {S : Type 0} (store : S) (s : BufferPoolInner)
    → choose_victim (recall store s) ≡ recall_reply store (ClockPool.choose_victim s)
unfolding choose_victim ClockPool.choose_victim
choose_victim-recall store s = rounds-recall store 6 s
