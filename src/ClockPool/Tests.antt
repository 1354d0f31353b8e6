-- ===== src/ClockPool/Tests.antt =====
-- project1/buffer_pool.rs over a store in memory.
use meridian_space_academy_c.Prelude.{
  ℕ, zero, suc, ◌≤◌, ◌≡◌, refl, subst, length, some, true, false, List, [], ◌∷◌, get_elem?,
  replicate, arith, inl, if◌then◌else◌,
}
use meridian_space_academy_c.Config.{max_usage_count}
use meridian_space_academy_c.Result.{ok}
use meridian_space_academy_c.PageStore.{
  PageId, PageStore, same_page, same_page_iff, lookup, insert, remove,
}
use meridian_space_academy_c.ClockPool.{
  Frame, BufferPoolInner, BufferPoolShared, normal, new, sweep, rounds, choose_victim, fetch_page,
  empty_frame, flush_all, PageGuard, guard_write, write_back, replace, install,
}
use meridian_space_academy_c.ClockPool.Victim.{Decided, choose_victim-Decided}
use meridian_space_academy_c.ClockPool.Invariant.{Shown, Faithful, IsSound}
use meridian_space_academy_c.DiskManager.{DiskManager}
use meridian_space_academy_c.DiskManager.Store.{disk_store, disk_pages, disk_store-Faithful}
use meridian_space_academy_c.ClockPool.Fetch.{Fetched, fetch_page-Fetched}
use meridian_space_academy_c.ClockPool.Guards.{Holds, Wrote, guard_write-Wrote}
use meridian_space_academy_c.ClockPool.Flush.{Saved, flush_all-Saved}
use meridian_space_academy_c.ClockPool.Start.{Started, new-Started}

-- Three frames: a pinned one, and two whose usage counts are 2 and 1.
abbrev frames : List Frame
frames =
    record {
      page_id = some (record { relation_id = 0; page_no = 0 });
      bytes = [];
      pin_count = 1;
      usage_count = 5;
      dirty = false;
    }
    ∷ record {
      page_id = some (record { relation_id = 0; page_no = 1 });
      bytes = [];
      pin_count = 0;
      usage_count = 2;
      dirty = false;
    }
    ∷ record {
      page_id = some (record { relation_id = 0; page_no = 2 });
      bytes = [];
      pin_count = 0;
      usage_count = 1;
      dirty = true;
    }
    ∷ []

abbrev inner : BufferPoolInner
inner = record {
  frames = frames;
  page_table = [];
  clock_hand = 1;
  stats = record { hits = 0; misses = 0; evictions = 0; clock_second_chances = 0 };
}

-- The clock passes the pinned frame, takes a use from the others and ends on the last frame.
victim : (choose_victim inner).1 ≡ ok 2
unfolding choose_victim rounds sweep
victim = refl

choose_victim-Decided_example : Decided inner (choose_victim inner)
choose_victim-Decided_example = choose_victim-Decided inner (omega arith) used
  where
    used :
        (i : ℕ) (f : Frame)
        → get_elem? frames i ≡ some f
        → f.pin_count ≡ 0
        → f.usage_count ≤ max_usage_count
    used zero f e free = ground (arith, e)
    used (suc zero) f e free = ground (arith, e)
    used (suc (suc zero)) f e free = ground (arith, e)
    used (suc (suc (suc i))) f e free = cc

-- A store in memory that never fails.
abbrev Memory : Type 0
Memory = PageId → List ℕ

abbrev memory : PageStore Memory
memory = record {
  read_page = λ s id. (s, ok (s id));
  write_page = λ s id bytes. (λ q. if same_page id q then bytes else s q, ok tt);
}

abbrev shown : Shown Memory
shown = record { contents = λ s q. s q; visible = λ b. b }

memory-Faithful : Faithful memory shown
memory-Faithful = record {
  reads = λ s id. (s, inl (s id, refl, refl), λ q. refl);
  writes = λ s id bytes. (
    λ q. if same_page id q then bytes else s q,
    inl (refl, ground (arith, same_page_iff id id)),
    λ q ne. ground (arith, ne, same_page_iff id q),
  );
}

abbrev blank : Memory
blank q = replicate q.page_no 0

abbrev start : BufferPoolShared Memory
start = record {
  store = blank;
  inner = record {
    frames = replicate 2 empty_frame;
    page_table = [];
    clock_hand = 0;
    stats = record { hits = 0; misses = 0; evictions = 0; clock_second_chances = 0 };
  };
}

start-Started : Started shown blank start
unfolding new
start-Started =
    let (p, e, started) = new-Started shown 2 blank (omega arith) in
    let made : new 2 blank ≡ ok start = refl in
    let same : p ≡ start = ground (arith, e, made) in
    subst (λ (x : BufferPoolShared Memory). Started shown blank x) same started

abbrev page_id : PageId
page_id = record { relation_id = 0; page_no = 1 }

-- A pool over a disk manager whose files are empty.
abbrev hash : List ℕ → ℕ
hash b = 258

abbrev disk : DiskManager
disk = record {
  files = λ r s. record { content = []; cursor = 0; fates = [] };
  open_relations = [];
  opens = [];
}

abbrev on_disk : BufferPoolShared DiskManager
on_disk = record { store = disk; inner = start.inner }

on_disk-Started : Started disk_pages disk on_disk
unfolding new
on_disk-Started =
    let (p, e, started) = new-Started disk_pages 2 disk (omega arith) in
    let made : new 2 disk ≡ ok on_disk = refl in
    let same : p ≡ on_disk = ground (arith, e, made) in
    subst (λ (x : BufferPoolShared DiskManager). Started disk_pages disk x) same started

fetch_page-Fetched_example :
    Fetched
      (disk_store hash)
      disk_pages
      on_disk
      page_id
      (fetch_page (disk_store hash) on_disk page_id normal)
fetch_page-Fetched_example =
    fetch_page-Fetched (disk_store hash) disk_pages (disk_store-Faithful hash) on_disk
      on_disk-Started.sound page_id on_disk-Started.few normal

abbrev disk_fetched : BufferPoolShared DiskManager
disk_fetched = (fetch_page (disk_store hash) on_disk page_id normal).0

disk_fetched-IsSound : IsSound disk_pages disk_fetched
disk_fetched-IsSound =
    let done =
      fetch_page-Fetched (disk_store hash) disk_pages (disk_store-Faithful hash) on_disk
        on_disk-Started.sound page_id on_disk-Started.few normal in
    done.sound

flush_all-Saved_example : Saved disk_pages disk_fetched (flush_all (disk_store hash) disk_fetched)
flush_all-Saved_example =
    flush_all-Saved (disk_store hash) disk_pages (disk_store-Faithful hash) disk_fetched
      disk_fetched-IsSound

-- The pool after a first fetch.
abbrev fetched : BufferPoolShared Memory
fetched = (fetch_page memory start page_id normal).0

fetched-IsSound : IsSound shown fetched
fetched-IsSound =
    let done =
      fetch_page-Fetched memory shown memory-Faithful start start-Started.sound page_id
        start-Started.few normal in
    done.sound

abbrev guard : PageGuard
guard = record { page_id = page_id; frame = 0 }

guard-Holds : Holds fetched.inner guard
unfolding fetch_page choose_victim rounds sweep lookup insert remove same_page write_back replace
    install empty_frame replicate
guard-Holds = record {
  held = record {
    page_id = some guard.page_id;
    bytes = 0 ∷ [];
    pin_count = 1;
    usage_count = 1;
    dirty = false;
  };
  under = refl;
  page = refl;
  pinned = omega arith;
  few = omega arith;
}

abbrev overwrite : List ℕ → List ℕ × ℕ
overwrite bytes = (7 ∷ [], length bytes)

guard_write-Wrote_example :
    Wrote shown fetched guard guard-Holds.held.bytes overwrite
      (guard_write guard fetched.inner overwrite)
guard_write-Wrote_example =
    guard_write-Wrote shown fetched fetched-IsSound guard guard-Holds overwrite
