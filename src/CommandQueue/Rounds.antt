-- ===== src/CommandQueue/Rounds.antt =====
-- Rounds of any threads on the queue of cmd_queue.rs, in the order in which they get its lock.
use mathlib.Core.List.{Perm, perm_middle}
use mathlib.Core.List.Perm
use meridian_space_academy_c.Prelude.{
  ℕ, suc, ◌+◌, ◌%◌, ◌^◌, ◌≤◌, ◌≡◌, inl, inr, refl, Bool, true, false, none, some, List, [], ◌∷◌,
  ◌++◌, length, ltb, if◌then◌else◌, arith, Bool-cases, Option-cases,
}
use meridian_space_academy_c.CommandQueue.{
  Command, CommandQueue, BinaryHeap, IsBinaryHeap, Round, returned, queue_shutdown, waits,
  incremented, is_safe_mode, count_push, count_dispatch, new, push, pop, shut_down,
}

pub data Call : Type 0 where
  push_call : Command → Call
  pop_call shutdown_call : Call

-- The commands that were accepted, and those that were given out, the last ones first.
pub record Log (H : Type 0) : Type 0 where
  pub queue : CommandQueue H
  pub accepted : List Command
  pub dispatched : List Command

abbrev pub safe_modes : List Command → ℕ
safe_modes [] = 0
safe_modes (c ∷ l) = if is_safe_mode c.kind then suc (safe_modes l) else safe_modes l

abbrev pub noted : {A : Type 0} → Round A → List A → List A
noted (returned a) l = a ∷ l
noted queue_shutdown l = l
noted waits l = l

module _ {H : Type 0} (ops : BinaryHeap H) where
  abbrev accepts : Round (Unit {0}) → Command → List Command → List Command
  accepts (returned u) c l = c ∷ l
  accepts queue_shutdown c l = l
  accepts waits c l = l

  unfoldable pub step : Log H → Call → Log H
  step log (push_call c) =
      let (q, r) = push ops log.queue c in
      record log { queue = q; accepted = accepts r c log.accepted }
  step log pop_call =
      let (q, r) = pop ops log.queue in
      record log { queue = q; dispatched = noted r log.dispatched }
  step log shutdown_call = record log { queue = shut_down log.queue }

  unfoldable pub run : Log H → List Call → Log H
  run log [] = log
  run log (c ∷ cs) = run (step log c) cs

  unfoldable pub started : ℕ → Log H
  started capacity = record { queue = new ops capacity; accepted = []; dispatched = [] }

-- What was accepted was given out or is still there; the queue is never over its capacity; the
-- metrics count, modulo 2^64.
pub record Sound {H : Type 0} (ops : BinaryHeap H) (items : H → List Command) (capacity : ℕ)
    (log : Log H) : Type 0 where
  pub bounded : ops.len log.queue.heap ≤ capacity
  pub limit : log.queue.capacity ≡ capacity
  pub same : Perm log.accepted (log.dispatched ++ items log.queue.heap)
  pub left : length log.accepted ≡ length log.dispatched + ops.len log.queue.heap
  pub pushed : log.queue.metrics.commands_pushed ≡ length log.accepted % 2 ^ 64
  pub given : log.queue.metrics.commands_dispatched ≡ length log.dispatched % 2 ^ 64
  pub safe : log.queue.metrics.safe_mode_count ≡ safe_modes log.accepted % 2 ^ 64

counted_if :
    (b : Bool) (k n : ℕ)
    → k ≡ n % 2 ^ 64
    → (if b then incremented k else k) ≡ (if b then suc n else n) % 2 ^ 64
counted_if true k n e = grind (arith, e)
counted_if false k n e = e

module _ {H : Type 0} (ops : BinaryHeap H) (q : CommandQueue H) where
  pub push_down : (c : Command) → q.shutdown ≡ true → push ops q c ≡ (q, queue_shutdown)
  unfolding push
  push_down c down = ground (arith, down)

  pub push_full :
      (c : Command)
      → q.shutdown ≡ false
      → ltb (ops.len q.heap) q.capacity ≡ false
      → push ops q c ≡ (q, waits)
  unfolding push
  push_full c up full = ground (arith, up, full)

  pub push_room :
      (c : Command)
      → q.shutdown ≡ false
      → ltb (ops.len q.heap) q.capacity ≡ true
      → push ops q c ≡ (
        record q { heap = ops.heap_push q.heap c; metrics = count_push q.metrics c },
        returned tt,
      )
  unfolding push
  push_room c up room = ground (arith, up, room)

  pub pop-some :
      (c : Command) (h : H)
      → ops.heap_pop q.heap ≡ some (c, h)
      → pop ops q ≡ (record q { heap = h; metrics = count_dispatch q.metrics }, returned c)
  unfolding pop
  pop-some c h e = ground (arith, e)

  pub pop_down : ops.heap_pop q.heap ≡ none → q.shutdown ≡ true → pop ops q ≡ (q, queue_shutdown)
  unfolding pop
  pop_down e down = ground (arith, e, down)

  pub pop_empty : ops.heap_pop q.heap ≡ none → q.shutdown ≡ false → pop ops q ≡ (q, waits)
  unfolding pop
  pop_empty e up = ground (arith, e, up)

module _ {H : Type 0} {ops : BinaryHeap H} {items : H → List Command}
    (heap : IsBinaryHeap ops items) (capacity : ℕ) where
  push-Sound :
      (log : Log H) (c : Command)
      → Sound ops items capacity log
      → Sound ops items capacity (step ops log (push_call c))
  unfolding step
  push-Sound log c s = elim (Bool-cases log.queue.shutdown) [
    | inl down ↦ rw (push_down ops log.queue c down) s
    | inr up ↦ elim (Bool-cases (ltb (ops.len log.queue.heap) log.queue.capacity)) [
      | inr full ↦ rw (push_full ops log.queue c up full) s
      | inl room ↦ rw (push_room ops log.queue c up room) (record {
        bounded = ground (arith, heap.push_len log.queue.heap c, room, s.limit);
        limit = s.limit;
        same = Perm.trans (Perm.cons c s.same) (
            Perm.trans (Perm.symm (perm_middle log.dispatched (items log.queue.heap)))
              (Perm.append_left log.dispatched (Perm.symm (heap.push_items log.queue.heap c))));
        left = omega (arith, heap.push_len log.queue.heap c, s.left);
        pushed = grind (arith, s.pushed);
        given = s.given;
        safe =
            counted_if (is_safe_mode c.kind) log.queue.metrics.safe_mode_count
              (safe_modes log.accepted) s.safe;
      })
    ]
  ]

  pop-Sound :
      (log : Log H)
      → Sound ops items capacity log
      → Sound ops items capacity (step ops log pop_call)
  unfolding step
  pop-Sound log s = elim (Option-cases (ops.heap_pop log.queue.heap)) [
    | inl e ↦ elim (Bool-cases log.queue.shutdown) [
      | inl down ↦ rw (pop_down ops log.queue e down) s
      | inr up ↦ rw (pop_empty ops log.queue e up) s
    ]
    | inr ((c, h), e) ↦ rw (pop-some ops log.queue c h e) (record {
      bounded = omega (arith, heap.pop_len log.queue.heap c h e, s.bounded);
      limit = s.limit;
      same = Perm.trans s.same (
          Perm.trans (Perm.append_left log.dispatched (heap.pop_items log.queue.heap c h e))
            (perm_middle log.dispatched (items h)));
      left = omega (arith, heap.pop_len log.queue.heap c h e, s.left);
      pushed = s.pushed;
      given = grind (arith, s.given);
      safe = s.safe;
    })
  ]

  shut_down-Sound :
      (log : Log H)
      → Sound ops items capacity log
      → Sound ops items capacity (step ops log shutdown_call)
  unfolding step shut_down
  shut_down-Sound log s = record {
    bounded = s.bounded;
    limit = s.limit;
    same = s.same;
    left = s.left;
    pushed = s.pushed;
    given = s.given;
    safe = s.safe;
  }

  step-Sound :
      (log : Log H) (c : Call)
      → Sound ops items capacity log
      → Sound ops items capacity (step ops log c)
  step-Sound log (push_call c) s = push-Sound log c s
  step-Sound log pop_call s = pop-Sound log s
  step-Sound log shutdown_call s = shut_down-Sound log s

  run-Sound :
      (log : Log H) (calls : List Call)
      → Sound ops items capacity log
      → Sound ops items capacity (run ops log calls)
  unfolding run
  run-Sound log [] s = s
  run-Sound log (c ∷ cs) s = run-Sound (step ops log c) cs (step-Sound log c s)

  started-Sound : Sound ops items capacity (started ops capacity)
  unfolding started new
  started-Sound = record {
    bounded = omega (arith, heap.new_len capacity);
    limit = refl;
    same = rw (heap.new_items capacity) Perm.rfl;
    left = omega (arith, heap.new_len capacity);
    pushed = refl;
    given = refl;
    safe = refl;
  }

  -- After any rounds on a new queue that keeps its commands in a heap: what was accepted was given
  -- out or is in the queue, each command once, the queue is not over its capacity, and the metrics
  -- count the commands that were accepted, given out, and of the safe mode, modulo 2^64.
  pub run-started-Sound :
      (calls : List Call) → Sound ops items capacity (run ops (started ops capacity) calls)
  run-started-Sound calls = run-Sound (started ops capacity) calls started-Sound
