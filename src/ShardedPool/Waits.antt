-- ===== src/ShardedPool/Waits.antt =====
-- Who waits for a `Pending` of buffer_pool_v3.rs waits for a load that is still under way.
use meridian_space_academy_c.Prelude.{
  ℕ, leb, ◌+◌, ◌^◌, ◌≤◌, ◌<◌, ◌≡◌, ◌∙◌, ◌⊎◌, inl, inr, refl, sym, ap, subst, ◌≢◌, Option, none,
  some, arith,
}
use native.Mathlib.Decide.{ℕ_discrete}
use meridian_space_academy_c.Result.{ok}
use meridian_space_academy_c.PageStore.{PageId, PageStore}
use meridian_space_academy_c.ClockPool.{AccessMode}
use meridian_space_academy_c.ShardedPool.{
  Victim, Shared, update, new, pin_ready, claim, try_reserve, fill, remove_old, publish, count_miss,
  release, unclaim, pin_flush, guard_write, clear_dirty, finish_pending,
}
use meridian_space_academy_c.ShardedPool.Agents.{
  Agent, System, Step, pick, Reach, start, later, chosen, Move, hit, miss, try, exhaust, pass_over,
  wait_load, retry, give_up, wait_loading, wait_leaving, wait_evicting, wake, write_back,
  write_fails, read, read_fails, take, remove, show, finish, put_back, unpin, drop_claim, end,
  write, drop, pin_valid, see_clean, see_dirty, flush, flush_fails, clear, flushed,
}
use meridian_space_academy_c.ShardedPool.Effects.{try_reserve-cases}
use meridian_space_academy_c.ShardedPool.Invariant.{Inv}
use meridian_space_academy_c.ShardedPool.Runs.{reached}
use meridian_space_academy_c.ShardedPool.Finished.{
  Reservation-finished, restore-finished, flush_page-finished, write_old-finished,
  read_new-finished,
}
use meridian_space_academy_c.ShardedPool.Phases.{phase, awaits, Agent-Phases}

chosen-phase :
    (id : PageId) (mode : AccessMode) (n : ℕ) (v : Option Victim)
    → (awaits (chosen id mode n v) ≡ none) × (1 ≤ phase (chosen id mode n v))
chosen-phase id mode n none = (refl, omega arith)
chosen-phase id mode n (some v) = (refl, omega arith)

-- The `Pending` with the number `t` of the thread `k` is finished; or the thread is still at the load
-- that it belongs to, at least in the phase `n`, and in the phase 2 it waits for nothing.
pub record Owed {S : Type 0} (p : Shared S) (ag : ℕ → Agent) (n k t : ℕ) : Type 0 where
  pub ends : (t < p.finished k) ⊎ ((t ≡ p.finished k) × (n ≤ phase (ag k)))
  pub free : 2 ≤ phase (ag k) → awaits (ag k) ≡ none

update_here {ℓ} : {A : Type ℓ} (f : ℕ → A) (j : ℕ) (a : A) (i : ℕ) → i ≡ j → update f j a i ≡ a
update_here f j a i e = ground (arith, e)

update_there {ℓ} : {A : Type ℓ} (f : ℕ → A) (j : ℕ) (a : A) (i : ℕ) → i ≢ j → update f j a i ≡ f i
update_there f j a i ne = ground (arith, ne)

phase_up :
    (ag : ℕ → Agent) (j : ℕ) (a : Agent)
    → phase (ag j) ≤ phase a
    → (k : ℕ) → phase (ag k) ≤ phase (update ag j a k)
phase_up ag j a up k = elim (ℕ_discrete k j) [
  | yes here ↦ omega (arith, ap phase (update_here ag j a k here), ap (λ x. phase (ag x)) here, up)
  | no ne ↦ omega (arith, ap phase (update_there ag j a k ne))
]

kept_on :
    (ag : ℕ → Agent) (j : ℕ) (a : Agent) (k : ℕ) {n t finished finished' : ℕ}
    → phase (ag j) ≤ phase a
    → finished' ≡ finished
    → (t < finished) ⊎ ((t ≡ finished) × (n ≤ phase (ag k)))
    → (t < finished') ⊎ ((t ≡ finished') × (n ≤ phase (update ag j a k)))
kept_on ag j a k up same (inl past) = inl (omega (arith, past, same))
kept_on ag j a k up same (inr (now, ahead)) =
    inr (now ∙ sym same, omega (arith, ahead, phase_up ag j a up k))

module _ {S : Type 0} where
  abbrev Fair : Shared S → (ℕ → Agent) → Type 0
  Fair p ag =
      (j n k t : ℕ)
      → awaits (ag j) ≡ some (n, k, t)
      → (t < p.finished k) ⊎ ((t ≡ p.finished k) × (n ≤ phase (ag k)))

  -- A piece goes on with a load or is not of one, finishes its `Pending`, or begins to wait.
  data Effect (p : Shared S) (ag : ℕ → Agent) (j : ℕ) (p' : Shared S) (a' : Agent) : Type 0 where
    goes_on :
        awaits a' ≡ none → p'.finished ≡ p.finished → phase (ag j) ≤ phase a' → Effect p ag j p' a'
    finishes :
        awaits a' ≡ none
        → p'.finished ≡ update p.finished j (p.finished j + 1)
        → Effect p ag j p' a'
    waits_for :
        (n k : ℕ)
        → awaits a' ≡ some (n, k, p.finished k)
        → n ≤ phase (ag k)
        → phase (ag j) < n
        → phase (ag j) ≤ phase a'
        → p'.finished ≡ p.finished
        → Effect p ag j p' a'

  Effect-Fair :
      {p : Shared S} {ag : ℕ → Agent} {j : ℕ} {p' : Shared S} {a' : Agent}
      → Fair p ag
      → Effect p ag j p' a'
      → Fair p' (update ag j a')
  Effect-Fair {p} {ag} {j} {p'} {a'} fair (goes_on free kept up) i n k t e = elim (ℕ_discrete i j) [
    | yes here ↦ absurd (ground (arith, sym (ap awaits (update_here ag j a' i here)) ∙ e, free))
    | no ne ↦
        kept_on ag j a' k up (ap (λ f. f k) kept)
          (fair i n k t (sym (ap awaits (update_there ag j a' i ne)) ∙ e))
  ]
  Effect-Fair {p} {ag} {j} {p'} {a'} fair (finishes free bumped) i n k t e = elim (ℕ_discrete i j) [
    | yes here ↦ absurd (ground (arith, sym (ap awaits (update_here ag j a' i here)) ∙ e, free))
    | no ne ↦
        let before = fair i n k t (sym (ap awaits (update_there ag j a' i ne)) ∙ e) in
        elim (ℕ_discrete k j) [
          | yes here ↦
              let more : p'.finished k ≡ p.finished k + 1 =
                ap (λ f. f k) bumped
                ∙ update_here p.finished j (p.finished j + 1) k here
                ∙ ap (λ x. p.finished x + 1) (sym here) in
              inl (elim before [
                | inl past ↦ omega (arith, past, more)
                | inr (now, _) ↦ omega (arith, now, more)
              ])
          | no other ↦
              let same : p'.finished k ≡ p.finished k =
                ap (λ f. f k) bumped ∙ update_there p.finished j (p.finished j + 1) k other in
              rw (update_there ag j a' k other, same) before
        ]
  ]
  Effect-Fair {p} {ag} {j} {p'} {a'} fair (waits_for m l wants there behind up kept) i n k t e =
      elim (ℕ_discrete i j) [
        | yes here ↦
            let both : some (m, l, p.finished l) ≡ some (n, k, t) =
              sym wants ∙ sym (ap awaits (update_here ag j a' i here)) ∙ e in
            let least : m ≡ n = ground (arith, both) in
            let who : l ≡ k = ground (arith, both) in
            let number : p.finished l ≡ t = ground (arith, both) in
            let ahead : n ≤ phase (ag k) =
              subst (λ x. n ≤ phase (ag x)) who (omega (arith, least, there)) in
            inr (
              sym number ∙ ap p.finished who ∙ sym (ap (λ f. f k) kept),
              omega (arith, ahead, phase_up ag j a' up k),
            )
        | no ne ↦
            kept_on ag j a' k up (ap (λ f. f k) kept)
              (fair i n k t (sym (ap awaits (update_there ag j a' i ne)) ∙ e))
      ]

module _ {S : Type 0} (io : PageStore S) {n : ℕ} {p : Shared S} {ag : ℕ → Agent} (inv : Inv n p ag)
    (j : ℕ) where
  Move-Effect :
      (a : Agent) (p' : Shared S) (a' : Agent)
      → ag j ≡ a
      → Move io p j a p' a'
      → Effect p ag j p' a'
  unfolding pin_ready claim fill remove_old publish count_miss release unclaim pin_flush guard_write
      clear_dirty finish_pending
  Move-Effect a p' a' at (hit id i mode e) = goes_on refl refl (ground (arith, at))
  Move-Effect a p' a' at (miss id mode e) = goes_on refl refl (ground (arith, at))
  Move-Effect a p' a' at (try id mode tries i snapshot more lt_i) =
      let force = leb p.frame_count tries in
      let (free, up) = chosen-phase id mode (tries + 1) (try_reserve p i j force snapshot).1 in
      goes_on free (Reservation-finished (try_reserve-cases p i j force snapshot))
        (ground (arith, at, up))
  Move-Effect a p' a' at (exhaust id mode tries e) = goes_on refl refl (ground (arith, at))
  Move-Effect a p' a' at (pass_over id mode i lt_i e) = goes_on refl refl (ground (arith, at))
  Move-Effect a p' a' at (wait_load id mode i k lt_i e) =
      waits_for 2 k refl ((Agent-Phases (ag k)).of_evicts i (inv.shape.of_evicting i k e))
        (ground (arith, at)) (ground (arith, at)) refl
  Move-Effect a p' a' at (retry id mode k t e) = goes_on refl refl (ground (arith, at))
  Move-Effect a p' a' at (give_up id mode i e) = goes_on refl refl (ground (arith, at))
  Move-Effect a p' a' at (wait_loading id k e) =
      waits_for 1 k refl ((Agent-Phases (ag k)).of_claims id (inv.shape.of_loading id k e))
        (ground (arith, at)) (ground (arith, at)) refl
  Move-Effect a p' a' at (wait_leaving id k e) =
      waits_for 1 k refl
        (omega (arith, (Agent-Phases (ag k)).of_leaves id (inv.shape.of_leaving id k e)))
        (ground (arith, at)) (ground (arith, at)) refl
  Move-Effect a p' a' at (wait_evicting i k lt_i e) =
      waits_for 1 k refl
        (omega (arith, (Agent-Phases (ag k)).of_evicts i (inv.shape.of_evicting i k e)))
        (ground (arith, at)) (ground (arith, at)) refl
  Move-Effect a p' a' at (wake k t e) = goes_on refl refl (ground (arith, at))
  Move-Effect a p' a' at (write_back id mode v e) =
      goes_on refl (write_old-finished io p v) (ground (arith, at))
  Move-Effect a p' a' at (write_fails id mode v c e) =
      goes_on refl (write_old-finished io p v) (ground (arith, at))
  Move-Effect a p' a' at (read id mode v b e) =
      goes_on refl (read_new-finished io p id) (ground (arith, at))
  Move-Effect a p' a' at (read_fails id mode v c e) =
      goes_on refl (read_new-finished io p id) (ground (arith, at))
  Move-Effect a p' a' at (take id mode v b unread) = goes_on refl refl (ground (arith, at))
  Move-Effect a p' a' at (remove id v) = goes_on refl refl (ground (arith, at))
  Move-Effect a p' a' at (show id v) = goes_on refl refl (ground (arith, at))
  Move-Effect a p' a' at (finish id v) = finishes refl refl
  Move-Effect a p' a' at (put_back id v q e) =
      goes_on refl (restore-finished p v j q e) (ground (arith, at))
  Move-Effect a p' a' at (unpin id v) = goes_on refl refl (ground (arith, at))
  Move-Effect a p' a' at (drop_claim id) = goes_on refl refl (ground (arith, at))
  Move-Effect a p' a' at end = finishes refl refl
  Move-Effect a p' a' at (write id i b unread) = goes_on refl refl (ground (arith, at))
  Move-Effect a p' a' at (drop id i) = goes_on refl refl (ground (arith, at))
  Move-Effect a p' a' at (pin_valid id i lt_i e) = goes_on refl refl (ground (arith, at))
  Move-Effect a p' a' at (see_clean id i e) = goes_on refl refl (ground (arith, at))
  Move-Effect a p' a' at (see_dirty id i e) = goes_on refl refl (ground (arith, at))
  Move-Effect a p' a' at (flush id i e) =
      goes_on refl (flush_page-finished io p id i) (ground (arith, at))
  Move-Effect a p' a' at (flush_fails id i c e) =
      goes_on refl (flush_page-finished io p id i) (ground (arith, at))
  Move-Effect a p' a' at (clear id i) = goes_on refl refl (ground (arith, at))
  Move-Effect a p' a' at (flushed id i) = goes_on refl refl (ground (arith, at))

module _ {S : Type 0} (io : PageStore S) (n capacity : ℕ) (few : n + 1 < 2 ^ 32) (store : S)
    {p : Shared S} (made : new capacity store ≡ ok p) where
  Step-Fair :
      (s t : System S)
      → Inv n s.pool s.agents
      → Step io n s t
      → Fair s.pool s.agents
      → Fair t.pool t.agents
  Step-Fair s t inv (pick j {p = q} {a} lt m) fair =
      Effect-Fair fair (Move-Effect io inv j (s.agents j) q a refl m)

  Reach-Fair : {s : System S} → Reach io n p s → Fair s.pool s.agents
  Reach-Fair start = λ j m k t e. ground (arith, e)
  Reach-Fair (later {s} {t} run step) =
      Step-Fair s t (reached io n few capacity store p s made run) step (Reach-Fair run)

  -- In a pool that `new` made and that fewer than 2^32 - 1 threads have used in any order: a thread
  -- that waits for a `Pending` can go on, since it is finished, or the thread that made it is still at
  -- the load that it belongs to. If the one that waits is itself at a load, looking for a frame, then
  -- the other has a frame already, and a load that has one waits for no `Pending`.
  pub awaits-Owed :
      {s : System S}
      → Reach io n p s
      → (j m k t : ℕ) → awaits (s.agents j) ≡ some (m, k, t)
      → Owed s.pool s.agents m k t
  awaits-Owed {s} run j m k t e = record {
    ends = Reach-Fair run j m k t e;
    free = (Agent-Phases (s.agents k)).waits_not;
  }
