-- ===== src/CommandQueue.antt =====
-- crates/foundation-track/src/module2/project2: command.rs, metrics.rs and cmd_queue.rs, the bounded
-- queue from which commands come by priority. A round of the loop of `push` or `pop` runs under the
-- queue's lock and is one step here; a thread that has to wait takes another round later.
pub mod Order
pub mod Rounds
pub mod Drain
pub mod Tests
use Prim.Native.Nat.{compare, Ordering}
use mathlib.Core.List.{Perm, Mem}
use meridian_space_academy_c.Prelude.{
  ℕ, suc, ◌+◌, ◌%◌, ◌^◌, ◌≡◌, ◌≢◌, Bool, true, false, Option, none, some, List, [], ◌∷◌, ◌++◌, ltb,
  if◌then◌else◌,
}

-- The angles are the 32 bits of an `f32`.
pub data CommandKind : Type 0 where
  safe_mode abort_pass status_request housekeeping : CommandKind
  repoint : ℕ → ℕ → CommandKind

pub record Command : Type 0 where
  pub priority : ℕ
  pub kind : CommandKind
  pub issued_at : ℕ

unfoldable pub priority_of : CommandKind → ℕ
priority_of safe_mode = 255
priority_of abort_pass = 150
priority_of (repoint azimuth elevation) = 100
priority_of status_request = 50
priority_of housekeeping = 10

-- `now` is the instant at which the command is made.
unfoldable pub new_command : CommandKind → ℕ → Command
new_command kind now = record { priority = priority_of kind; kind = kind; issued_at = now }

abbrev pub then_with : Ordering → Ordering → Ordering
then_with Ordering.lt o = Ordering.lt
then_with Ordering.eq o = o
then_with Ordering.gt o = Ordering.gt

unfoldable pub cmp : Command → Command → Ordering
cmp a b = then_with (compare a.priority b.priority) (compare b.issued_at a.issued_at)

-- `BinaryHeap<Command>`, whose internal order is its own: among equal commands it may give any.
pub record BinaryHeap (H : Type 0) : Type 0 where
  pub with_capacity : ℕ → H
  pub len : H → ℕ
  pub heap_push : H → Command → H
  pub heap_pop : H → Option (Command × H)

-- What the documentation of `BinaryHeap` says, of the items of a heap.
pub record IsBinaryHeap {H : Type 0} (ops : BinaryHeap H) (items : H → List Command) : Type 0 where
  pub new_items : (n : ℕ) → items (ops.with_capacity n) ≡ []
  pub new_len : (n : ℕ) → ops.len (ops.with_capacity n) ≡ 0
  pub push_items : (h : H) (c : Command) → Perm (items (ops.heap_push h c)) (c ∷ items h)
  pub push_len : (h : H) (c : Command) → ops.len (ops.heap_push h c) ≡ suc (ops.len h)
  pub pop_none : (h : H) → ops.heap_pop h ≡ none → (items h ≡ []) × (ops.len h ≡ 0)
  pub pop_items :
      (h : H) (c : Command) (h' : H) → ops.heap_pop h ≡ some (c, h') → Perm (items h) (c ∷ items h')
  pub pop_len :
      (h : H) (c : Command) (h' : H) → ops.heap_pop h ≡ some (c, h') → ops.len h ≡ suc (ops.len h')
  pub pop_greatest :
      (h : H) (c : Command) (h' : H)
      → ops.heap_pop h ≡ some (c, h')
      → (x : Command) → Mem x (items h')
      → cmp x c ≢ Ordering.gt

pub record Metrics : Type 0 where
  pub commands_pushed : ℕ
  pub commands_dispatched : ℕ
  pub safe_mode_count : ℕ

pub record CommandQueue (H : Type 0) : Type 0 where
  pub heap : H
  pub capacity : ℕ
  pub shutdown : Bool
  pub metrics : Metrics

-- How a round ends.
pub data Round {ℓ} (A : Type ℓ) : Type ℓ where
  returned : A → Round A
  queue_shutdown waits : Round A

abbrev pub incremented : ℕ → ℕ
incremented n = (n + 1) % 2 ^ 64

abbrev pub is_safe_mode : CommandKind → Bool
is_safe_mode safe_mode = true
is_safe_mode kind = false

abbrev pub count_push : Metrics → Command → Metrics
count_push m c = record m {
  commands_pushed = incremented m.commands_pushed;
  safe_mode_count =
      if is_safe_mode c.kind then incremented m.safe_mode_count else m.safe_mode_count;
}

abbrev pub count_dispatch : Metrics → Metrics
count_dispatch m = record m { commands_dispatched = incremented m.commands_dispatched }

module _ {H : Type 0} (ops : BinaryHeap H) where
  unfoldable pub new : ℕ → CommandQueue H
  new capacity = record {
    heap = ops.with_capacity capacity;
    capacity = capacity;
    shutdown = false;
    metrics = record { commands_pushed = 0; commands_dispatched = 0; safe_mode_count = 0 };
  }

  unfoldable pub push : CommandQueue H → Command → CommandQueue H × Round (Unit {0})
  push q c =
      if q.shutdown
      then (q, queue_shutdown)
      else (if ltb (ops.len q.heap) q.capacity
          then (
            record q { heap = ops.heap_push q.heap c; metrics = count_push q.metrics c },
            returned tt,
          )
          else (q, waits))

  unfoldable pub pop : CommandQueue H → CommandQueue H × Round Command
  pop q = elim (ops.heap_pop q.heap) [
    | some (c, h) ↦ (record q { heap = h; metrics = count_dispatch q.metrics }, returned c)
    | none ↦ if q.shutdown then (q, queue_shutdown) else (q, waits)
  ]

unfoldable pub shut_down : {H : Type 0} → CommandQueue H → CommandQueue H
shut_down q = record q { shutdown = true }
