-- ===== src/ShardedPool/Runs.antt =====
-- Runs of the threads of buffer_pool_v3.rs, from a new pool on.
use meridian_space_academy_c.Prelude.{ℕ, ◌+◌, ◌^◌, ◌<◌, ◌≡◌, refl, sym, subst, none, arith}
use meridian_space_academy_c.Result.{ok}
use meridian_space_academy_c.PageStore.{PageStore}
use meridian_space_academy_c.ShardedPool.{Shared, empty_frame, new}
use meridian_space_academy_c.ShardedPool.Agents.{idle, System, Step, pick, Reach, start, later}
use meridian_space_academy_c.ShardedPool.Pins.{total_idle}
use meridian_space_academy_c.ShardedPool.Invariant.{Inv}
use meridian_space_academy_c.ShardedPool.Moves.{Move-Inv}

module _ {S : Type 0} where
  abbrev pub fresh : ℕ → S → Shared S
  fresh capacity store = record {
    store = store;
    frame_count = capacity;
    frames = λ i. empty_frame;
    table = λ id. none;
    clock_hand = 0;
    stats = record { hits = 0; misses = 0; evictions = 0; clock_second_chances = 0 };
    finished = λ j. 0;
  }

  fresh-Inv : (capacity : ℕ) (store : S) (n : ℕ) → Inv n (fresh capacity store) (λ j. idle)
  unfolding empty_frame
  fresh-Inv capacity store n = record {
    shape = record {
      guard = λ j id i e. ground (arith, e);
      of_ready = λ id i e. ground (arith, e);
      to_ready = λ id i e. ground (arith, e);
      of_evicting = λ i j e. ground (arith, e);
      to_evicting = λ i j e. ground (arith, e);
      of_loading = λ id j e. ground (arith, e);
      to_loading = λ id j e. ground (arith, e);
      of_leaving = λ id j e. ground (arith, e);
      to_leaving = λ id j e. ground (arith, e);
      outside = λ i le. refl;
    };
    counted = λ i. sym (total_idle i n);
    rest = λ j le. refl;
  }

  pub new-fresh :
      (capacity : ℕ) (store : S) (p : Shared S)
      → new capacity store ≡ ok p
      → fresh capacity store ≡ p
  unfolding new
  new-fresh capacity store p e = ground (arith, e)

  pub new-Inv :
      (capacity : ℕ) (store : S) (p : Shared S) (n : ℕ)
      → new capacity store ≡ ok p
      → Inv n p (λ j. idle)
  new-Inv capacity store p n e =
      subst (λ q. Inv n q (λ j. idle)) (new-fresh capacity store p e) (fresh-Inv capacity store n)

module _ {S : Type 0} (io : PageStore S) (n : ℕ) (few : n + 1 < 2 ^ 32) where
  pub Step-Inv : (s t : System S) → Step io n s t → Inv n s.pool s.agents → Inv n t.pool t.agents
  Step-Inv s t (pick j {p} {a} lt m) inv = Move-Inv io few inv j lt (s.agents j) p a refl m

  pub Reach-Inv :
      {p : Shared S} {s : System S} → Inv n p (λ j. idle) → Reach io n p s → Inv n s.pool s.agents
  Reach-Inv inv start = inv
  Reach-Inv inv (later {s} {t} run step) = Step-Inv s t step (Reach-Inv inv run)

  pub reached :
      (capacity : ℕ) (store : S) (p : Shared S) (s : System S)
      → new capacity store ≡ ok p
      → Reach io n p s
      → Inv n s.pool s.agents
  reached capacity store p s e run = Reach-Inv (new-Inv capacity store p n e) run
