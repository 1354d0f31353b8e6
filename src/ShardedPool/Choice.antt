-- ===== src/ShardedPool/Choice.antt =====
-- `choose_victim` of buffer_pool_v3.rs, while no other thread comes between.
use meridian_space_academy_c.Prelude.{
  ℕ, zero, suc, ◌+◌, ◌-◌, ◌*◌, ◌^◌, ◌%◌, ◌<◌, ◌≡◌, ◌≢◌, ◌∙◌, ◌⊎◌, inl, inr, refl, sym, ap, subst,
  Bool, true, false, Option, none, some, leb, arith, Option-cases, Bool-cases,
}
use native.Mathlib.Nat.{mod-add-mod, add-mod_right, mod-eq_of_lt, mod-lt}
use meridian_space_academy_c.Result.{Result, ok, err, all_frames_pinned}
use meridian_space_academy_c.PageStore.{PageId, BufferPoolStats, same_page_iff}
use meridian_space_academy_c.ShardedPool.{
  FrameState, Frame, empty, valid, evicting, ready, Victim, Shared, try_reserve, sweep,
  choose_victim,
}
use meridian_space_academy_c.ShardedPool.Effects.{
  states, pin_counts, Looked, Rests, Spares, Reservation, refused, of_empty, of_valid, still,
  try_reserve-cases,
}

same_place : (h h' k c c' : ℕ) → h' ≡ h + 1 → c' ≡ c → (h' + k) % c' ≡ (h + suc k) % c
same_place h h' k c c' e f = ap (λ x. x % c') (omega (arith, e)) ∙ ap (λ x. (h + suc k) % x) f

-- The steps of a pass reach every index.
reaches : (h i c : ℕ) → i < c → (k : ℕ) × (k < c) × ((h + k) % c ≡ i)
reaches h i c lt = elim (Bool-cases (leb (h % c) i)) [
  | inl before ↦ (
    i - h % c,
    omega (arith, lt),
    sym (mod-add-mod h c (i - h % c)) ∙ ap (λ x. x % c) (ground (arith, before)) ∙ mod-eq_of_lt lt,
  )
  | inr past ↦ (
    i + c - h % c,
    ground (arith, past),
    sym (mod-add-mod h c (i + c - h % c))
        ∙ ap (λ x. x % c) (omega (arith, mod-lt h {m = c} (omega (arith, lt))))
        ∙ add-mod_right i c
        ∙ mod-eq_of_lt lt,
  )
]

module _ {S : Type 0} where
  -- A frame that is pinned, or that a thread has taken.
  abbrev pub Taken : Shared S → ℕ → Type 0
  Taken p i = (pin_counts p i ≢ 0) ⊎ ((k : ℕ) × (states p i ≡ evicting k))

  -- The table has the page of every frame.
  abbrev pub Listed : Shared S → Type 0
  Listed p = (i : ℕ) (id : PageId) → states p i ≡ valid id → p.table id ≡ some (ready i)

  -- A victim from a pool that differs in reference bits, the clock hand and the count of second
  -- chances only, or none.
  pub data Chosen (p : Shared S) (j : ℕ) (p' : Shared S) : Result Victim → Type 0 where
    reserved_frame :
        (q : Shared S) (i : ℕ) (v : Victim)
        → Looked p q
        → Reservation q i j p' (some v)
        → Chosen p j p' (ok v)
    all_taken :
        Looked p p'
        → ((i : ℕ) → i < p.frame_count → Taken p i)
        → Chosen p j p' (err all_frames_pinned)

  after_Rests : {p q r : Shared S} → Rests p q → Rests q r → Rests p r
  after_Rests a b = record {
    keeps = record {
      states_kept = λ i. b.keeps.states_kept i ∙ a.keeps.states_kept i;
      table = b.keeps.table ∙ a.keeps.table;
      count = b.keeps.count ∙ a.keeps.count;
    };
    pins_kept = λ i. b.pins_kept i ∙ a.pins_kept i;
    bytes_kept = λ i. b.bytes_kept i ∙ a.bytes_kept i;
  }

  still_Looked : (p : Shared S) → Looked p p
  still_Looked p = record {
    rests = still p;
    frames_kept = λ i. refl;
    store_kept = refl;
    finished_kept = refl;
    stats_kept = refl;
  }

  after_Looked : {p q r : Shared S} → Looked p q → Looked q r → Looked p r
  after_Looked {p} {q} {r} a b = record {
    rests = after_Rests a.rests b.rests;
    frames_kept = λ i.
        ap (λ (f : Frame). record f { referenced = (p.frames i).referenced }) (b.frames_kept i)
        ∙ a.frames_kept i;
    store_kept = b.store_kept ∙ a.store_kept;
    finished_kept = b.finished_kept ∙ a.finished_kept;
    stats_kept =
        ap
          (λ (s : BufferPoolStats). record s {
            clock_second_chances = p.stats.clock_second_chances;
          })
          b.stats_kept
        ∙ a.stats_kept;
  }

  Rests-Taken : {p q : Shared S} (i : ℕ) → Rests p q → Taken q i → Taken p i
  Rests-Taken i a (inl ne) = inl (λ z. ne (a.pins_kept i ∙ z))
  Rests-Taken i a (inr (k, e)) = inr (k, sym (a.keeps.states_kept i) ∙ e)

  Rests-Listed : {p q : Shared S} → Rests p q → Listed p → Listed q
  Rests-Listed a listed i id e =
      ap (λ t. t id) a.keeps.table ∙ listed i id (sym (a.keeps.states_kept i) ∙ e)

  -- A forced try fails only on such a frame.
  forced :
      (p : Shared S) (i j : ℕ) (snapshot : FrameState)
      → Listed p
      → states p i ≡ snapshot
      → (try_reserve p i j true snapshot).1 ≡ none
      → Taken p i
  unfolding try_reserve
  forced p i j empty listed is e = inl (λ z. ground (arith, is, e, z))
  forced p i j (valid old) listed is e =
      inl (λ z. ground (arith, is, listed i old is, same_page_iff old old, e, z))
  forced p i j (evicting k) listed is e = inr (k, is)

  refused-Spares :
      {p : Shared S} {i j : ℕ} {p' : Shared S} {v : Option Victim}
      → Reservation p i j p' v
      → v ≡ none
      → Spares p p'
  refused-Spares (refused spares) e = spares
  refused-Spares (of_empty free z) e = absurd (ground (arith, e))
  refused-Spares (of_valid old has z) e = absurd (ground (arith, e))

  abbrev ticked : Shared S → Shared S
  ticked p = record p { clock_hand = (p.clock_hand + 1) % 2 ^ 64 }

  abbrev tried : Shared S → ℕ → Bool → Shared S × Option Victim
  tried p j force =
      let i = p.clock_hand % p.frame_count in try_reserve (ticked p) i j force (states p i)

  ticked-Rests : (p : Shared S) → Rests p (ticked p)
  ticked-Rests p = record {
    keeps = record { states_kept = λ i. refl; table = refl; count = refl };
    pins_kept = λ i. refl;
    bytes_kept = λ i. refl;
  }

  ticked-Looked : (p : Shared S) → Looked p (ticked p)
  ticked-Looked p = record {
    rests = ticked-Rests p;
    frames_kept = λ i. refl;
    store_kept = refl;
    finished_kept = refl;
    stats_kept = refl;
  }

  sweep_on :
      (n : ℕ) (p : Shared S) (j : ℕ) (force : Bool)
      → (tried p j force).1 ≡ none
      → sweep (suc n) p j force ≡ sweep n (tried p j force).0 j force
  unfolding sweep
  sweep_on n p j force e = ground (arith, e)

  sweep_stop :
      (n : ℕ) (p : Shared S) (j : ℕ) (force : Bool) (v : Victim)
      → (tried p j force).1 ≡ some v
      → sweep (suc n) p j force ≡ ((tried p j force).0, some v)
  unfolding sweep
  sweep_stop n p j force v e = ground (arith, e)

  -- `n` steps of a pass end with a victim, or have moved the hand `n` further and changed reference
  -- bits and the count of second chances only; in the second pass the frames that were tried are then
  -- taken.
  data Swept (p : Shared S) (j n : ℕ) (force : Bool) (p' : Shared S) : Option Victim → Type 0 where
    found :
        (q : Shared S) (i : ℕ) (v : Victim)
        → Looked p q
        → Reservation q i j p' (some v)
        → Swept p j n force p' (some v)
    missed :
        Looked p p'
        → p'.clock_hand ≡ p.clock_hand + n
        → (force ≡ true → (k : ℕ) → k < n → Taken p ((p.clock_hand + k) % p.frame_count))
        → Swept p j n force p' none

  later_Swept :
      {p q : Shared S} {j n : ℕ} {force : Bool} {p' : Shared S} {v : Option Victim}
      → Looked p q
      → q.clock_hand ≡ p.clock_hand + 1
      → (force ≡ true → Taken p (p.clock_hand % p.frame_count))
      → Swept q j n force p' v
      → Swept p j (suc n) force p' v
  later_Swept looked hand first (found r i v after reservation) =
      found r i v (after_Looked looked after) reservation
  later_Swept {p} {q} {n = n} {force = force} looked hand first (missed after moved tail) =
      missed (after_Looked looked after) (omega (arith, moved, hand)) every
    where
      every : force ≡ true → (k : ℕ) → k < suc n → Taken p ((p.clock_hand + k) % p.frame_count)
      every e zero lt = subst (λ x. Taken p (x % p.frame_count)) (omega arith) (first e)
      every e (suc k) lt = Rests-Taken _ looked.rests (
          subst (Taken q)
            (same_place p.clock_hand q.clock_hand k p.frame_count q.frame_count hand
              looked.rests.keeps.count)
            (tail e k (omega (arith, lt))))

  sweep-Swept :
      (n : ℕ) (p : Shared S) (j : ℕ) (force : Bool)
      → p.clock_hand + n < 2 ^ 64
      → Listed p
      → Swept p j n force (sweep n p j force).0 (sweep n p j force).1
  unfolding sweep
  sweep-Swept zero p j force short listed =
      missed (still_Looked p) (omega arith) (λ e k lt. absurd (omega (arith, lt)))
  sweep-Swept (suc n) p j force short listed =
      let i = p.clock_hand % p.frame_count in
      let reservation = try_reserve-cases (ticked p) i j force (states p i) in
      elim (Option-cases (tried p j force).1) [
        | inr (v, e) ↦ rw (sweep_stop n p j force v e) (
            found (ticked p) i v (ticked-Looked p)
              (subst (Reservation (ticked p) i j (tried p j force).0) e reservation))
        | inl e ↦
            let spares = refused-Spares reservation e in
            let looked = after_Looked (ticked-Looked p) spares.looked in
            let hand : (tried p j force).0.clock_hand ≡ p.clock_hand + 1 =
              spares.hand_kept ∙ mod-eq_of_lt (omega (arith, short)) in
            rw (sweep_on n p j force e) (
              later_Swept looked hand
                (λ f.
                  forced (ticked p) i j (states p i) listed refl
                    (ap (λ b. (tried p j b).1) (sym f) ∙ e))
                (sweep-Swept n (tried p j force).0 j force (omega (arith, short, hand))
                  (Rests-Listed looked.rests listed)))
      ]

  abbrev second_answer : Shared S × Option Victim → Shared S × Result Victim
  second_answer x = elim x.1 [ some w ↦ (x.0, ok w) | none ↦ (x.0, err all_frames_pinned) ]

  abbrev first_answer :
      Shared S × Option Victim → Shared S × Result Victim → Shared S × Result Victim
  first_answer x r = elim x.1 [ some w ↦ (x.0, ok w) | none ↦ r ]

  second_Chosen :
      {p q : Shared S} {j : ℕ} {p' : Shared S} {v : Option Victim}
      → Looked p q
      → Swept q j p.frame_count true p' v
      → Chosen p j (second_answer (p', v)).0 (second_answer (p', v)).1
  second_Chosen looked (found r i w after reservation) =
      reserved_frame r i w (after_Looked looked after) reservation
  second_Chosen {p} {q} looked (missed after moved tail) =
      all_taken (after_Looked looked after) every
    where
      every : (i : ℕ) → i < p.frame_count → Taken p i
      every i lt =
          let (k, short, e) =
            reaches q.clock_hand i q.frame_count (omega (arith, looked.rests.keeps.count, lt)) in
          Rests-Taken i looked.rests
            (subst (Taken q) e (tail refl k (omega (arith, looked.rests.keeps.count, short))))

  first_Chosen :
      {p : Shared S} {j n : ℕ} {p' : Shared S} {v : Option Victim} (r : Shared S × Result Victim)
      → Swept p j n false p' v
      → (Looked p p' → p'.clock_hand ≡ p.clock_hand + n → Chosen p j r.0 r.1)
      → Chosen p j (first_answer (p', v) r).0 (first_answer (p', v) r).1
  first_Chosen r (found q i w after reservation) go_on = reserved_frame q i w after reservation
  first_Chosen r (missed after moved tail) go_on = go_on after moved

  -- Without another thread between its steps, where the table has the page of every frame,
  -- and the clock hand does not wrap around in two passes: `choose_victim` reserves a frame, or
  -- reports that all frames are pinned, and then each is pinned or taken by a thread. Before the
  -- reservation or the error it has changed reference bits, the clock hand and the count of second
  -- chances only.
  pub choose_victim-Chosen :
      (p : Shared S) (j : ℕ)
      → p.clock_hand + 2 * p.frame_count < 2 ^ 64
      → Listed p
      → Chosen p j (choose_victim p j).0 (choose_victim p j).1
  unfolding choose_victim
  choose_victim-Chosen p j short listed =
      let first = sweep-Swept p.frame_count p j false (omega (arith, short)) listed in
      let (q, v) = sweep p.frame_count p j false in
      first_Chosen (second_answer (sweep p.frame_count q j true)) first (λ looked moved.
        second_Chosen looked (
          sweep-Swept p.frame_count q j true (omega (arith, short, moved))
            (Rests-Listed looked.rests listed)))
