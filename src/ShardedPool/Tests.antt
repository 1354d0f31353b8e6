-- ===== src/ShardedPool/Tests.antt =====
-- A run of two threads of buffer_pool_v3.rs over a store in memory.
use meridian_space_academy_c.Prelude.{
  ℕ, ◌<◌, ◌⊎◌, ◌≡◌, refl, false, none, List, [], ◌∷◌, if◌then◌else◌, arith, ◌%◌, ◌≤◌, ◌*◌, min,
  ◌==◌, some,
}
use meridian_space_academy_c.Result.{Result, ok, err, device}
use meridian_space_academy_c.PageStore.{PageId, PageStore, same_page}
use meridian_space_academy_c.ClockPool.{normal}
use meridian_space_academy_c.ShardedPool.{
  Victim, Shared, update, empty_frame, empty, new, claim, try_reserve, fill, remove_old, publish,
  count_miss, write_old, write_dirty, read_new, guard_write, release, restore, finish_pending,
  record_access, valid, ready,
}
use meridian_space_academy_c.ShardedPool.Agents.{
  Agent, idle, awaiting, wait_loading, holding, choosing, reserved, clean, fetched, filled, removed,
  published, miss, try, write_back, read, take, remove, show, finish, write, write_fails, drop,
  failing, System, pick, Step, Reach, start, later,
}
use meridian_space_academy_c.ShardedPool.Waits.{Owed, awaits-Owed}
use meridian_space_academy_c.ShardedPool.Kept.{guarded-Kept}
use meridian_space_academy_c.ShardedPool.Shards.{shard_count, shard_index, shard_index-lt}
use meridian_space_academy_c.ShardedPool.Effects.{states}
use meridian_space_academy_c.ShardedPool.Choice.{Listed, Chosen, choose_victim-Chosen}
use meridian_space_academy_c.ShardedPool.{choose_victim}
use meridian_space_academy_c.ShardedPool.Safety.{
  Guarded, holding-Guarded, restore-ok, loads-apart, both_load,
}

abbrev Disk : Type 0
Disk = PageId → List ℕ

-- The store fails to write a page that begins with 99.
abbrev written : Disk → PageId → List ℕ → Disk × Result (Unit {0})
written d id [] = (λ q. if same_page id q then [] else d q, ok tt)
written d id (x ∷ b) =
    if x == 99 then (d, err (device 5)) else (λ q. if same_page id q then x ∷ b else d q, ok tt)

abbrev disk_io : PageStore Disk
disk_io = record { read_page = λ d id. (d, ok (d id)); write_page = written }

abbrev disk : Disk
disk id = id.page_no ∷ []

abbrev page : ℕ → PageId
page n = record { relation_id = 1; page_no = n }

abbrev pool : Shared Disk
pool = record {
  store = disk;
  frame_count = 2;
  frames = λ i. empty_frame;
  table = λ id. none;
  clock_hand = 0;
  stats = record { hits = 0; misses = 0; evictions = 0; clock_second_chances = 0 };
  finished = λ j. 0;
}

made : new 2 disk ≡ ok pool
unfolding new
made = refl

abbrev slot : ℕ → Victim
slot i = record { index = i; old_page_id = none }

abbrev after : System Disk → ℕ → Shared Disk → Agent → System Disk
after s j p a = record { pool = p; agents = update s.agents j a }

abbrev s0 : System Disk
s0 = record { pool = pool; agents = λ j. idle }

abbrev s1 : System Disk
s1 = after s0 0 (claim s0.pool (page 7) 0) (choosing (page 7) normal 0)

abbrev s2 : System Disk
s2 = after s1 0 (try_reserve s1.pool 0 0 false empty).0 (reserved (page 7) normal (slot 0))

abbrev s3 : System Disk
s3 = after s2 0 (write_old disk_io s2.pool (slot 0)).0 (clean (page 7) normal (slot 0))

abbrev s4 : System Disk
s4 = after s3 0 (read_new disk_io s3.pool (page 7)).0 (fetched (page 7) normal (slot 0) (7 ∷ []))

abbrev s5 : System Disk
s5 = after s4 0 (fill s4.pool (slot 0) (7 ∷ []) normal) (filled (page 7) (slot 0))

abbrev s6 : System Disk
s6 = after s5 0 (remove_old s5.pool (slot 0)) (removed (page 7) (slot 0))

abbrev s7 : System Disk
s7 = after s6 0 (publish s6.pool (page 7) (slot 0)) (published (page 7) (slot 0))

abbrev s8 : System Disk
s8 = after s7 0 (count_miss (finish_pending s7.pool 0) (slot 0)) (holding (page 7) 0)

abbrev s9 : System Disk
s9 = after s8 1 (claim s8.pool (page 8) 1) (choosing (page 8) normal 0)

run2 : Reach disk_io 2 pool s2
unfolding claim try_reserve empty_frame
run2 =
    later (later start (pick 0 (omega arith) (miss (page 7) normal refl)))
      (pick 0 (omega arith) (try (page 7) normal 0 0 empty (omega arith) (omega arith)))

run4 : Reach disk_io 2 pool s4
unfolding claim try_reserve empty_frame write_old read_new
run4 =
    later (later run2 (pick 0 (omega arith) (write_back (page 7) normal (slot 0) refl)))
      (pick 0 (omega arith) (read (page 7) normal (slot 0) (7 ∷ []) refl))

run8 : Reach disk_io 2 pool s8
unfolding read_new write_old try_reserve claim empty_frame
run8 =
    later
      (later
        (later (later run4 (pick 0 (omega arith) (take (page 7) normal (slot 0) (7 ∷ []) refl)))
          (pick 0 (omega arith) (remove (page 7) (slot 0))))
        (pick 0 (omega arith) (show (page 7) (slot 0))))
      (pick 0 (omega arith) (finish (page 7) (slot 0)))

run9 : Reach disk_io 2 pool s9
unfolding claim try_reserve empty_frame write_old read_new fill remove_old publish count_miss
    same_page finish_pending
run9 = later run8 (pick 1 (omega arith) (miss (page 8) normal refl))

holding-Guarded_example : Guarded s9.pool (page 7) 0
holding-Guarded_example = holding-Guarded disk_io 2 2 (omega arith) disk made run9 0 (page 7) 0 refl

loads-apart_example : ◌≡◌ {A = ℕ} 1 1
loads-apart_example =
    loads-apart disk_io 2 2 (omega arith) disk made run9 1 1 (both_load (page 8) refl refl)

abbrev s10 : System Disk
s10 = after s9 0 (guard_write s9.pool 0 (99 ∷ [])) (holding (page 7) 0)

step10 : Step disk_io 2 s9 s10
unfolding claim try_reserve empty_frame write_old read_new fill remove_old publish count_miss
    same_page finish_pending
step10 = pick 0 (omega arith) (write (page 7) 0 (99 ∷ []) refl)

guarded-Kept_example :
    ((s10.pool.frames 0).bytes ≡ (s9.pool.frames 0).bytes)
    ⊎ ((j : ℕ) × (b : List ℕ) × (s9.agents j ≡ holding (page 7) 0)
        × (s10.pool ≡ guard_write s9.pool 0 b))
guarded-Kept_example =
    guarded-Kept disk_io 2 2 (omega arith) disk made run9 0 (page 7) 0 refl step10

abbrev s11 : System Disk
s11 = after s10 0 (release s10.pool 0) idle

abbrev s12 : System Disk
s12 = after s11 1 (try_reserve s11.pool 0 1 false (valid (page 7))).0 (choosing (page 8) normal 1)

abbrev s15 : System Disk
s15 = after s11 0 s11.pool (awaiting 1 0)

abbrev left : Victim
left = record { index = 0; old_page_id = some (page 7) }

abbrev s13 : System Disk
s13 =
    after s12 1 (try_reserve s12.pool 0 1 false (valid (page 7))).0 (reserved (page 8) normal left)

abbrev s14 : System Disk
s14 = after s13 1 (write_old disk_io s13.pool left).0 (failing (page 8) left)

run12 : Reach disk_io 2 pool s12
unfolding claim try_reserve empty_frame write_old read_new fill remove_old publish count_miss
    same_page guard_write release finish_pending record_access
run12 =
    later
      (later (later run9 (pick 0 (omega arith) (write (page 7) 0 (99 ∷ []) refl)))
        (pick 0 (omega arith) (drop (page 7) 0)))
      (pick 1 (omega arith) (try (page 8) normal 0 0 (valid (page 7)) (omega arith) (omega arith)))

-- The thread 0 waits for the load of the thread 1.
run15 : Reach disk_io 2 pool s15
unfolding claim try_reserve empty_frame write_old read_new fill remove_old publish count_miss
    same_page guard_write release finish_pending record_access
run15 =
    later
      (later (later run9 (pick 0 (omega arith) (write (page 7) 0 (99 ∷ []) refl)))
        (pick 0 (omega arith) (drop (page 7) 0)))
      (pick 0 (omega arith) (wait_loading (page 8) 1 refl))

awaits-Owed_example : Owed s15.pool s15.agents 1 1 0
awaits-Owed_example = awaits-Owed disk_io 2 2 (omega arith) disk made run15 0 1 1 0 refl

-- The write of the dirty page fails.
run14 : Reach disk_io 2 pool s14
unfolding claim try_reserve empty_frame write_old write_dirty read_new fill remove_old publish
    count_miss same_page guard_write release finish_pending record_access
run14 =
    later
      (later run12 (
        pick 1 (omega arith)
          (try (page 8) normal 1 0 (valid (page 7)) (omega arith) (omega arith))))
      (pick 1 (omega arith) (write_fails (page 8) normal left (device 5) refl))

restore-ok_example :
    (q : Shared Disk) × (restore s14.pool left 1 ≡ ok q)
    × (states q 0 ≡ valid (page 7))
    × ((old : PageId) → some (page 7) ≡ some old → q.table old ≡ some (ready 0))
restore-ok_example = restore-ok disk_io 2 2 (omega arith) disk made run14 1 (page 8) left refl

fresh-Listed : Listed pool
unfolding empty_frame
fresh-Listed i id e = absurd (ground (arith, e))

choose_victim-Chosen_example : Chosen pool 1 (choose_victim pool 1).0 (choose_victim pool 1).1
choose_victim-Chosen_example = choose_victim-Chosen pool 1 (omega arith) fresh-Listed

shard_index-lt_example :
    (shard_index 77 (shard_count 5) < shard_count 5)
    × (shard_index 77 (shard_count 5) ≡ 77 % shard_count 5)
    × (min 5 32 ≤ shard_count 5)
    × (shard_count 5 < 2 * min 5 32)
    × (shard_count 5 ≤ 32)
shard_index-lt_example = shard_index-lt 5 77 (omega arith)
