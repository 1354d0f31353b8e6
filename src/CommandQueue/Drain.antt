-- ===== src/CommandQueue/Drain.antt =====
-- The order in which the queue of cmd_queue.rs gives its commands out, and who may go on.
use mathlib.Core.List.{Perm, Pairwise}
use mathlib.Core.List.Perm
use meridian_space_academy_c.Prelude.{
  ℕ, zero, suc, ◌<◌, ◌≡◌, ◌∙◌, inl, inr, refl, sym, ap, subst, true, List, [], ◌∷◌, if◌then◌else◌,
  arith, Bool-cases, Option-cases,
}
use meridian_space_academy_c.CommandQueue.{
  Command, CommandQueue, BinaryHeap, IsBinaryHeap, returned, queue_shutdown, waits, count_dispatch,
  push, pop, shut_down,
}
use meridian_space_academy_c.CommandQueue.Order.{Before, cmp-Before}
use meridian_space_academy_c.CommandQueue.Rounds.{
  push_down, push_room, pop-some, pop_down, pop_empty,
}

module _ {H : Type 0} (ops : BinaryHeap H) where
  -- `n` rounds of `pop`, up to the first that gives no command.
  unfoldable pub drain : ℕ → CommandQueue H → CommandQueue H × List Command
  drain zero q = (q, [])
  drain (suc n) q =
      let (q', r) = pop ops q in
      let rest = drain n q' in
      elim r [ returned c ↦ (rest.0, c ∷ rest.1) | queue_shutdown ↦ (q', []) | waits ↦ (q', []) ]

-- The commands `l` come from the queue `q`, all and in their order; a further `pop` on the queue `q'`
-- that is left ends with an error or has to wait.
pub record Drained {H : Type 0} (ops : BinaryHeap H) (items : H → List Command)
    (q q' : CommandQueue H) (l : List Command) : Type 0 where
  pub all : Perm (items q.heap) l
  pub ordered : Pairwise Before l
  pub over : pop ops q' ≡ (q', if q.shutdown then queue_shutdown else waits)

module _ {H : Type 0} {ops : BinaryHeap H} {items : H → List Command}
    (heap : IsBinaryHeap ops items) where
  pop_over :
      (q : CommandQueue H)
      → ops.len q.heap ≡ 0
      → pop ops q ≡ (q, if q.shutdown then queue_shutdown else waits)
  pop_over q z = elim (Option-cases (ops.heap_pop q.heap)) [
    | inr ((c, h), e) ↦ absurd (omega (arith, heap.pop_len q.heap c h e, z))
    | inl e ↦ elim (Bool-cases q.shutdown) [
      | inl down ↦ pop_down ops q e down ∙ ground (arith, down)
      | inr up ↦ pop_empty ops q e up ∙ ground (arith, up)
    ]
  ]

  no_items : (q : CommandQueue H) → ops.len q.heap ≡ 0 → items q.heap ≡ []
  no_items q z = elim (Option-cases (ops.heap_pop q.heap)) [
    | inr ((c, h), e) ↦ absurd (omega (arith, heap.pop_len q.heap c h e, z))
    | inl e ↦ (heap.pop_none q.heap e).0
  ]

  drain_step :
      (n : ℕ) (q : CommandQueue H) (c : Command) (q' : CommandQueue H)
      → pop ops q ≡ (q', returned c)
      → drain ops (suc n) q ≡ ((drain ops n q').0, c ∷ (drain ops n q').1)
  unfolding drain
  drain_step n q c q' e = ground (arith, e)

  drain-Drained :
      (n : ℕ) (q : CommandQueue H)
      → ops.len q.heap ≡ n
      → Drained ops items q (drain ops n q).0 (drain ops n q).1
  unfolding drain
  drain-Drained zero q e = record {
    all = rw (no_items q e) Perm.rfl;
    ordered = Pairwise.nil;
    over = pop_over q e;
  }
  drain-Drained (suc n) q e = elim (Option-cases (ops.heap_pop q.heap)) [
    | inl none_left ↦ absurd (omega (arith, (heap.pop_none q.heap none_left).1, e))
    | inr ((c, h), popped) ↦
        let rest =
          drain-Drained n (record q { heap = h; metrics = count_dispatch q.metrics })
            (omega (arith, heap.pop_len q.heap c h popped, e)) in
        rw
          (drain_step n q c (record q { heap = h; metrics = count_dispatch q.metrics })
            (pop-some ops q c h popped))
          (record {
            all = Perm.trans (heap.pop_items q.heap c h popped) (Perm.cons c rest.all);
            ordered =
                Pairwise.cons
                  (λ x m.
                    cmp-Before c x
                      (heap.pop_greatest q.heap c h popped x ((Perm.mem_iff rest.all).1 m)))
                  rest.ordered;
            over = rest.over;
          })
  ]

  -- A queue that is shut down gives the same commands.
  drain_down :
      (n : ℕ) (q : CommandQueue H)
      → ops.len q.heap ≡ n
      → drain ops n (shut_down q) ≡ (shut_down (drain ops n q).0, (drain ops n q).1)
  unfolding drain shut_down
  drain_down zero q e = refl
  drain_down (suc n) q e = elim (Option-cases (ops.heap_pop q.heap)) [
    | inl none_left ↦ absurd (omega (arith, (heap.pop_none q.heap none_left).1, e))
    | inr ((c, h), popped) ↦
        let q' = record q { heap = h; metrics = count_dispatch q.metrics } in
        drain_step n (shut_down q) c (shut_down q') (pop-some ops (shut_down q) c h popped)
        ∙ ap (λ (x : CommandQueue H × List Command). (x.0, c ∷ x.1))
            (drain_down n q' (omega (arith, heap.pop_len q.heap c h popped, e)))
        ∙ ap (λ (x : CommandQueue H × List Command). (shut_down x.0, x.1))
            (sym (drain_step n q c q' (pop-some ops q c h popped)))
  ]

  -- For a queue that keeps its commands in a heap: as many rounds of `pop` as it has commands give
  -- them all, by falling priority and among equals the oldest first, and the next round has to wait,
  -- or gives the error if the queue is shut down. Shutting it down keeps the heap, the capacity and
  -- the metrics, the rounds of `pop` then give the same commands in the same order, and every `push`
  -- gives the error.
  pub drain-shut_down :
      (q : CommandQueue H)
      → Drained ops items q (drain ops (ops.len q.heap) q).0 (drain ops (ops.len q.heap) q).1
        × (shut_down q ≡ record q { shutdown = true })
        × (drain ops (ops.len q.heap) (shut_down q)
            ≡ (shut_down (drain ops (ops.len q.heap) q).0, (drain ops (ops.len q.heap) q).1))
        × (pop ops (shut_down (drain ops (ops.len q.heap) q).0)
            ≡ (shut_down (drain ops (ops.len q.heap) q).0, queue_shutdown))
        × ((c : Command) → push ops (shut_down q) c ≡ (shut_down q, queue_shutdown))
  unfolding shut_down
  drain-shut_down q = (
    drain-Drained (ops.len q.heap) q refl,
    refl,
    drain_down (ops.len q.heap) q refl,
    subst (λ x. pop ops x.0 ≡ (x.0, queue_shutdown)) (drain_down (ops.len q.heap) q refl)
        (drain-Drained (ops.len q.heap) (shut_down q) refl).over,
    λ c. push_down ops (shut_down q) c refl,
  )

  -- In a queue of any capacity but 0 that keeps its commands in a heap, `push` and `pop` do not both
  -- have to wait.
  pub push-pop-goes_on :
      (q : CommandQueue H) (c : Command)
      → 0 < q.capacity
      → ¬ (((push ops q c).1 ≡ waits) × ((pop ops q).1 ≡ waits))
  push-pop-goes_on q c room (full, empty) = elim (Option-cases (ops.heap_pop q.heap)) [
    | inr ((x, h), e) ↦ ground (arith, pop-some ops q x h e, empty)
    | inl e ↦ elim (Bool-cases q.shutdown) [
      | inl down ↦ ground (arith, push_down ops q c down, full)
      | inr up ↦
          ground
            (arith, push_room ops q c up (ground (arith, (heap.pop_none q.heap e).1, room)), full)
    ]
  ]
