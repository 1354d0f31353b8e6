-- ===== src/ShardedPool/Invariant.antt =====
-- What holds of the pool of buffer_pool_v3.rs and its threads after every piece.
use meridian_space_academy_c.Prelude.{
  ℕ, ◌+◌, ◌-◌, ◌%◌, ◌^◌, ◌≤◌, ◌<◌, ◌≡◌, ◌∙◌, inl, inr, sym, subst, some, ltb, ltb→lt, arith,
  Bool-cases,
}
use meridian_space_academy_c.PageStore.{PageId}
use meridian_space_academy_c.ShardedPool.{valid, Shared, update}
use meridian_space_academy_c.ShardedPool.Agents.{Agent, idle}
use meridian_space_academy_c.ShardedPool.Shape.{guarding, evicts, claims, leaves, Shape, calm}
use meridian_space_academy_c.ShardedPool.Effects.{states, pin_counts, Keeps, Rests}
use meridian_space_academy_c.ShardedPool.Pins.{
  pins, weight, total, total-update, total_small, total-one, pins-guarding,
}

module _ {S : Type 0} where
  -- A frame's pins are those of the agents, and the frames, the table and the agents agree.
  pub record Inv (n : ℕ) (p : Shared S) (ag : ℕ → Agent) : Type 0 where
    pub shape : Shape p.frame_count (states p) p.table ag
    pub counted : (i : ℕ) → pin_counts p i ≡ total i n ag
    pub rest : (j : ℕ) → n ≤ j → ag j ≡ idle

  module _ {n : ℕ} {p : Shared S} {ag : ℕ → Agent} (few : n + 1 < 2 ^ 32) (inv : Inv n p ag) (j : ℕ)
      (lt : j < n) where
    counts :
        (a : Agent) (p' : Shared S)
        → ((i : ℕ) → pin_counts p' i + weight i (pins (ag j)) ≡ pin_counts p i + weight i (pins a))
        → (i : ℕ) → pin_counts p' i ≡ total i n (update ag j a)
    counts a p' change i = omega (arith, change i, inv.counted i, total-update i n ag j a lt)

    resting : (a : Agent) (k : ℕ) → n ≤ k → update ag j a k ≡ idle
    resting a k le = ground (arith, inv.rest k le, le, lt)

    pub rebuild :
        (a : Agent) (p' : Shared S)
        → Shape p'.frame_count (states p') p'.table (update ag j a)
        → ((i : ℕ) → pin_counts p' i + weight i (pins (ag j)) ≡ pin_counts p i + weight i (pins a))
        → Inv n p' (update ag j a)
    rebuild a p' shape change = record {
      shape = shape;
      counted = counts a p' change;
      rest = resting a;
    }

    pub calm-Inv :
        (a : Agent) (p' : Shared S)
        → Keeps p p'
        → evicts a ≡ evicts (ag j)
        → claims a ≡ claims (ag j)
        → leaves a ≡ leaves (ag j)
        → ((id : PageId) (i : ℕ) → guarding a ≡ some (id, i) → states p i ≡ valid id)
        → ((i : ℕ) → pin_counts p' i + weight i (pins (ag j)) ≡ pin_counts p i + weight i (pins a))
        → Inv n p' (update ag j a)
    calm-Inv a p' keeps ev cl lv gd change =
        rebuild a p'
          (subst (λ c. Shape c (states p') p'.table (update ag j a)) (sym keeps.count)
            (subst (λ t. Shape p.frame_count (states p') t (update ag j a)) (sym keeps.table)
              (calm inv.shape j a (states p') keeps.states_kept ev cl lv gd)))
          change

    -- A piece that leaves frames and table as they are, for an agent that keeps all that it has.
    pub stay-Inv :
        (a : Agent) (p' : Shared S)
        → Rests p p'
        → evicts a ≡ evicts (ag j)
        → claims a ≡ claims (ag j)
        → leaves a ≡ leaves (ag j)
        → pins a ≡ pins (ag j)
        → guarding a ≡ guarding (ag j)
        → Inv n p' (update ag j a)
    stay-Inv a p' rests ev cl lv pn gd =
        calm-Inv a p' rests.keeps ev cl lv (λ id i e. inv.shape.guard j id i (sym gd ∙ e))
          (λ i. ground (arith, rests.pins_kept i, pn))

    -- A pin that is added stays in 32 bits, and the agent's own pin can be given back.
    pub added : (i : ℕ) → (pin_counts p i + 1) % 2 ^ 32 ≡ pin_counts p i + 1
    added i = grind (arith, inv.counted i, total_small i n ag, few)

    pub given_back :
        (i : ℕ) → pins (ag j) ≡ some i → (pin_counts p i + 2 ^ 32 - 1) % 2 ^ 32 + 1 ≡ pin_counts p i
    given_back i e = grind (arith, inv.counted i, total_small i n ag, total-one i n ag j lt, few, e)

    -- A frame without pins has no guard.
    pub unguarded :
        (i : ℕ) → pin_counts p i ≡ 0 → (k : ℕ) (q : PageId) → ¬ (guarding (ag k) ≡ some (q, i))
    unguarded i z k q e = elim (Bool-cases (ltb k n)) [
      | inl lt_k ↦ ground (
        arith,
        total-one i n ag k (ltb→lt k n lt_k),
        pins-guarding (ag k) q i e,
        inv.counted i,
        z,
      )
      | inr ge ↦ ground (arith, inv.rest k, e, ge)
    ]
