-- ===== src/CommandQueue/Order.antt =====
-- The order of the commands of command.rs.
use Prim.Native.Nat.{Ordering}
use meridian_space_academy_c.Prelude.{◌≤◌, ◌<◌, ◌≡◌, ◌≢◌, ◌⊎◌, arith}
use meridian_space_academy_c.CommandQueue.{Command, cmp}

-- `a` goes before `b`, or is as old and as important.
abbrev pub Before : Command → Command → Type 0
Before a b = (b.priority < a.priority) ⊎ ((a.priority ≡ b.priority) × (a.issued_at ≤ b.issued_at))

pub cmp-Before : (a b : Command) → cmp b a ≢ Ordering.gt → Before a b
unfolding cmp
cmp-Before a b ne = ground (arith, ne)

pub Before-cmp : (a b : Command) → Before a b → cmp b a ≢ Ordering.gt
unfolding cmp
Before-cmp a b before e = ground (arith, before, e)
