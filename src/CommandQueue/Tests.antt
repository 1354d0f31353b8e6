-- ===== src/CommandQueue/Tests.antt =====
-- The queue of cmd_queue.rs over a heap that is a list.
use Prim.Native.Nat.{Ordering}
use mathlib.Core.List.{Perm, Mem}
use mathlib.Core.List.Perm
use mathlib.Core.List.{forall_mem-cons, not-mem-nil, mem-cons_of_mem}
use meridian_space_academy_c.CommandQueue.Order.{cmp-Before, Before-cmp}
use meridian_space_academy_c.Prelude.{
  suc, ◌≡◌, ◌≢◌, ◌↔◌, sym, ap, subst, inl, inr, refl, Bool, true, false, Option, none, some, List,
  [], ◌∷◌, length, if◌then◌else◌, arith, Bool-cases,
}
use meridian_space_academy_c.CommandQueue.{
  Command, CommandQueue, BinaryHeap, IsBinaryHeap, queue_shutdown, waits, safe_mode, abort_pass,
  housekeeping, cmp, new_command, priority_of, push, pop, shut_down,
}
use meridian_space_academy_c.CommandQueue.Rounds.{
  Call, push_call, pop_call, shutdown_call, Sound, run, started, run-started-Sound,
}
use meridian_space_academy_c.CommandQueue.Drain.{Drained, drain, drain-shut_down, push-pop-goes_on}

is_greater : Command → Command → Bool
is_greater a b = elim (cmp a b) [ Ordering.gt ↦ true | _ ↦ false ]

best : Command → List Command → Command × List Command
best c [] = (c, [])
best c (x ∷ xs) =
    let (b, r) = best x xs in
    let (d, s) = best c xs in if is_greater x c then (b, c ∷ r) else (d, x ∷ s)

pop_list : List Command → Option (Command × List Command)
pop_list [] = none
pop_list (c ∷ l) = some (best c l)

abbrev list_heap : BinaryHeap (List Command)
list_heap = record {
  with_capacity = λ n. [];
  len = length;
  heap_push = λ h c. c ∷ h;
  heap_pop = pop_list;
}

best-perm : (c : Command) (l : List Command) → Perm (c ∷ l) ((best c l).0 ∷ (best c l).1)
unfolding best
best-perm c [] = Perm.rfl
best-perm c (x ∷ xs) = elim (Bool-cases (is_greater x c)) [
  | inl more ↦
      rw (more, best)
        (Perm.trans (Perm.cons c (best-perm x xs)) (Perm.swap (best x xs).0 c (best x xs).1))
  | inr less ↦
      rw (less, best)
        (Perm.trans (Perm.swap x c xs)
          (Perm.trans (Perm.cons x (best-perm c xs)) (Perm.swap (best c xs).0 x (best c xs).1)))
]

best-length : (c : Command) (l : List Command) → length (best c l).1 ≡ length l
unfolding best
best-length c [] = refl
best-length c (x ∷ xs) = ground (arith, best-length x xs, best-length c xs)

cmp_trans :
    (a b c : Command) → cmp a b ≢ Ordering.gt → cmp b c ≢ Ordering.gt → cmp a c ≢ Ordering.gt
cmp_trans a b c ab bc = Before-cmp c a (ground (arith, cmp-Before b a ab, cmp-Before c b bc))

cmp_self : (a : Command) → cmp a a ≢ Ordering.gt
cmp_self a = Before-cmp a a (inr (refl, omega arith))

is_greater-cmp : (a b : Command) → is_greater a b ≡ true → cmp b a ≢ Ordering.gt
unfolding is_greater cmp
is_greater-cmp a b e g = ground (arith, e, g)

not_greater : (a b : Command) → is_greater a b ≡ false → cmp a b ≢ Ordering.gt
unfolding is_greater
not_greater a b e g = ground (arith, e, g)

abbrev Bounds : Command → List Command → Type 0
Bounds b l = (x : Command) → Mem x l → cmp x b ≢ Ordering.gt

Bounds-cons :
    (b c : Command) (l : List Command) → Bounds b (c ∷ l) ↔ ((cmp c b ≢ Ordering.gt) × Bounds b l)
Bounds-cons b c l = forall_mem-cons (λ x. hlevel)

best-Bounds : (c : Command) (l : List Command) → Bounds (best c l).0 (c ∷ l)
unfolding best
best-Bounds c [] = (Bounds-cons c c []).1 (cmp_self c, nothing c)
  where
    nothing : (c : Command) → Bounds c []
    nothing c x m = absurd (not-mem-nil m)
best-Bounds c (x ∷ xs) = elim (Bool-cases (is_greater x c)) [
  | inl more ↦
      let rest = best-Bounds x xs in
      let (head, tail) = (Bounds-cons (best x xs).0 x xs).0 rest in
      rw (more, best)
        ((Bounds-cons (best x xs).0 c (x ∷ xs)).1
          (cmp_trans c x (best x xs).0 (is_greater-cmp x c more) head, rest))
  | inr less ↦
      let (head, tail) = (Bounds-cons (best c xs).0 c xs).0 (best-Bounds c xs) in
      rw (less, best)
        ((Bounds-cons (best c xs).0 c (x ∷ xs)).1 (
          head,
          (Bounds-cons (best c xs).0 x xs).1
              (cmp_trans x c (best c xs).0 (not_greater x c less) head, tail),
        ))
]

popped :
    (h : List Command) (c : Command) (h' : List Command)
    → pop_list h ≡ some (c, h')
    → Perm h (c ∷ h') × (length h ≡ suc (length h')) × Bounds c h'
unfolding pop_list
popped [] c h' e = absurd (ground (arith, e))
popped (x ∷ xs) c h' e =
    subst (λ r. Perm (x ∷ xs) (r.0 ∷ r.1) × (length (x ∷ xs) ≡ suc (length r.1)) × Bounds r.0 r.1)
      (same (x ∷ xs) (best x xs) (c, h') e)
      (best-perm x xs, ap suc (sym (best-length x xs)), within)
  where
    same : (l : List Command) (a b : Command × List Command) → some a ≡ some b → a ≡ b
    same l a b e = ground (arith, e)

    within : Bounds (best x xs).0 (best x xs).1
    within y m =
        best-Bounds x xs y ((Perm.mem_iff (best-perm x xs)).1 (mem-cons_of_mem (best x xs).0 m))

list_heap_works : IsBinaryHeap list_heap (λ h. h)
unfolding pop_list
list_heap_works = record {
  new_items = λ n. refl;
  new_len = λ n. refl;
  push_items = λ h c. Perm.rfl;
  push_len = λ h c. refl;
  pop_none = nothing;
  pop_items = λ h c h' e. (popped h c h' e).0;
  pop_len = λ h c h' e. (popped h c h' e).1;
  pop_greatest = λ h c h' e. (popped h c h' e).2;
}
  where
    nothing : (h : List Command) → pop_list h ≡ none → (h ≡ []) × (length h ≡ 0)
    nothing [] e = (refl, refl)
    nothing (c ∷ l) e = absurd (ground (arith, e))

abbrev calls : List Call
calls =
    push_call (new_command housekeeping 1)
    ∷ push_call (new_command safe_mode 2)
    ∷ pop_call
    ∷ push_call (new_command abort_pass 3)
    ∷ shutdown_call
    ∷ push_call (new_command safe_mode 4)
    ∷ []

run-started-Sound_example : Sound list_heap (λ h. h) 2 (run list_heap (started list_heap 2) calls)
run-started-Sound_example = run-started-Sound list_heap_works 2 calls

abbrev queue : CommandQueue (List Command)
queue = record {
  heap = new_command housekeeping 1 ∷ new_command safe_mode 5 ∷ new_command safe_mode 2 ∷ [];
  capacity = 3;
  shutdown = false;
  metrics = record { commands_pushed = 3; commands_dispatched = 0; safe_mode_count = 2 };
}

order :
    (drain list_heap 3 queue).1
    ≡ new_command safe_mode 2 ∷ new_command safe_mode 5 ∷ new_command housekeeping 1 ∷ []
unfolding drain pop pop_list best is_greater cmp new_command priority_of
order = refl

drain-shut_down_example :
    Drained list_heap (λ h. h) queue (drain list_heap 3 queue).0 (drain list_heap 3 queue).1
    × (shut_down queue ≡ record queue { shutdown = true })
    × (drain list_heap 3 (shut_down queue)
        ≡ (shut_down (drain list_heap 3 queue).0, (drain list_heap 3 queue).1))
    × (pop list_heap (shut_down (drain list_heap 3 queue).0)
        ≡ (shut_down (drain list_heap 3 queue).0, queue_shutdown))
    × ((c : Command) → push list_heap (shut_down queue) c ≡ (shut_down queue, queue_shutdown))
drain-shut_down_example = drain-shut_down list_heap_works queue

push-pop-goes_on_example : ¬ (
    ((push list_heap queue (new_command safe_mode 9)).1 ≡ waits)
    × ((pop list_heap queue).1 ≡ waits))
push-pop-goes_on_example =
    push-pop-goes_on list_heap_works queue (new_command safe_mode 9) (omega arith)
