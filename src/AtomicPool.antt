-- ===== src/AtomicPool.antt =====
-- crates/database-track/src/module1/project1/buffer_pool_v2.rs: the buffer pool with CLOCK replacement
-- and finer locks. A lookup under the table's read lock is one step, and what happens under its write
-- lock is another. A guard and the access modes are those of buffer_pool.rs, the guard's `Arc` of a
-- frame being its index.
pub mod Recall
pub mod Reserved
pub mod Fetch
pub mod Flush
pub mod Run
mod Tests
use meridian_space_academy_c.Prelude.{
  ℕ, zero, suc, ◌+◌, ◌-◌, ◌%◌, ◌^◌, min, max, Bool, true, false, Option, none, some, List, [], ◌∷◌,
  length, get_elem?, set, replicate, ◌==◌, if◌then◌else◌,
}
use meridian_space_academy_c.Config.{max_usage_count, page_size}
use meridian_space_academy_c.Result.{Result, ok, err, panic, all_frames_pinned, case_reply}
use meridian_space_academy_c.PageStore.{
  PageId, PageStore, BufferPoolStats, Table, lookup, remove, insert,
}
use meridian_space_academy_c.ClockPool.{
  AccessMode, normal, bulk_read, PageGuard, unmap, count_evicted,
}

pub data FrameState : Type 0 where
  empty : FrameState
  valid : PageId → FrameState
  evicting : FrameState

pub record Frame : Type 0 where
  pub state : FrameState
  pub bytes : List ℕ
  pub pin_count : ℕ
  pub usage_count : ℕ
  pub dirty : Bool

pub record BufferPoolV2Shared (S : Type 0) : Type 0 where
  pub store : S
  pub frames : List Frame
  pub page_table : Table
  pub clock_hand : ℕ
  pub stats : BufferPoolStats

unfoldable pub empty_frame : Frame
empty_frame = record {
  state = empty;
  bytes = replicate page_size 0;
  pin_count = 0;
  usage_count = 0;
  dirty = false;
}

unfoldable pub new : {S : Type 0} → ℕ → S → Result (BufferPoolV2Shared S)
new capacity store =
    if capacity == 0
    then panic
    else ok (record {
      store = store;
      frames = replicate capacity empty_frame;
      page_table = [];
      clock_hand = 0;
      stats = record { hits = 0; misses = 0; evictions = 0; clock_second_chances = 0 };
    })

unfoldable pub record_access : Frame → AccessMode → Frame
record_access f normal = record f {
  usage_count = min (min (f.usage_count + 1) 255) max_usage_count;
}
record_access f bulk_read = record f { usage_count = max f.usage_count 1 }

-- `pin_count.fetch_sub(1)`
abbrev pub released : Frame → Frame
released f = record f { pin_count = (f.pin_count + 2 ^ 32 - 1) % 2 ^ 32 }

-- `compare_exchange(0, 1)` on a frame that is not pinned.
abbrev pub reserve : Frame → Frame
reserve f = record f { pin_count = 1 }

module _ {S : Type 0} where
  abbrev pub with_frame : BufferPoolV2Shared S → ℕ → Frame → BufferPoolV2Shared S
  with_frame p i f = record p { frames = set p.frames i f }

  -- `clock_hand.update`, which gives the hand before it.
  abbrev pub advance : BufferPoolV2Shared S → BufferPoolV2Shared S
  advance p = record p { clock_hand = (p.clock_hand + 1) % length p.frames }

  -- A reserved frame that was used gives a use and the reservation back.
  abbrev pub second_chance : BufferPoolV2Shared S → ℕ → Frame → BufferPoolV2Shared S
  second_chance p i f = record p {
    frames = set p.frames i (released (record f { usage_count = f.usage_count - 1 }));
    stats = record p.stats { clock_second_chances = p.stats.clock_second_chances + 1 };
  }

-- What the inner loop of `choose_victim` ends with, as in buffer_pool.rs.
pub data Sweep (S : Type 0) : Type 0 where
  reserved : ℕ → BufferPoolV2Shared S → Sweep S
  swept : Bool → BufferPoolV2Shared S → Sweep S
  broken : BufferPoolV2Shared S → Sweep S

module _ {S : Type 0} where
  unfoldable pub sweep : ℕ → Bool → BufferPoolV2Shared S → Sweep S
  sweep zero found p = swept found p
  sweep (suc n) found p =
      let i = p.clock_hand in
      elim (get_elem? p.frames i) [
        | none ↦ broken (advance p)
        | some f ↦
            let skip = sweep n found (advance p) in
            let again = sweep n true (second_chance (advance p) i (reserve f)) in
            if f.pin_count == 0
            then (if f.usage_count == 0
                then reserved i (with_frame (advance p) i (reserve f))
                else again)
            else skip
      ]

  unfoldable pub rounds : ℕ → BufferPoolV2Shared S → BufferPoolV2Shared S × Result ℕ
  rounds zero p = (p, panic)
  rounds (suc n) p = elim (sweep (length p.frames) false p) [
    | reserved i p' ↦ (p', ok i)
    | swept true p' ↦ rounds n p'
    | swept false p' ↦ (p', err all_frames_pinned)
    | broken p' ↦ (p', panic)
  ]

  unfoldable pub choose_victim : BufferPoolV2Shared S → BufferPoolV2Shared S × Result ℕ
  choose_victim = rounds (max_usage_count + 1)

  unfoldable pub pin_hit :
      BufferPoolV2Shared S → ℕ → PageId → AccessMode → BufferPoolV2Shared S × Result PageGuard
  pin_hit p i page_id mode = elim (get_elem? p.frames i) [
    | none ↦ (p, panic)
    | some f ↦ (
      record p {
        frames =
            set p.frames i
              (record_access (record f { pin_count = (f.pin_count + 1) % 2 ^ 32 }) mode);
        stats = record p.stats { hits = p.stats.hits + 1 };
      },
      ok (record { page_id = page_id; frame = i }),
    )
  ]

  -- Step 5, with the counters.
  unfoldable pub install :
      BufferPoolV2Shared S → ℕ → Frame → Option PageId → PageId → List ℕ → BufferPoolV2Shared S
  install p i f old page_id bytes = record p {
    frames =
        set p.frames i
          (record f { state = valid page_id; bytes = bytes; usage_count = 1; dirty = false });
    page_table = insert page_id i (unmap old p.page_table);
    stats = record p.stats {
      misses = p.stats.misses + 1;
      evictions = count_evicted old p.stats.evictions;
    };
  }

  -- After an error of the store the frame gets its state back and is released.
  abbrev pub give_up : BufferPoolV2Shared S → ℕ → Frame → FrameState → BufferPoolV2Shared S
  give_up p i f previous = with_frame p i (released (record f { state = previous }))

module _ {S : Type 0} (io : PageStore S) where
  abbrev pub Reply : Type 0
  Reply = BufferPoolV2Shared S × Result PageGuard

  -- Step 4 on the frame `f` of index `i`, which is being evicted.
  unfoldable pub replace :
      BufferPoolV2Shared S → ℕ → Frame → FrameState → Option PageId → PageId → Reply
  replace p i f previous old page_id =
      case_reply (io.read_page p.store page_id)
        (λ store bytes. (
          install (record p { store = store }) i f old page_id bytes,
          ok (record { page_id = page_id; frame = i }),
        ))
        (λ store e. (give_up (record p { store = store }) i f previous, err e))
        (λ store. (record p { store = store }, panic))

  -- Step 3: a dirty page is written back first.
  unfoldable pub write_back :
      BufferPoolV2Shared S → ℕ → Frame → FrameState → PageId → PageId → Reply
  write_back p i f previous old page_id =
      if f.dirty
      then (case_reply (io.write_page p.store old f.bytes)
          (λ store _.
            let f' = record f { dirty = false } in
            replace (with_frame (record p { store = store }) i f') i f' previous (some old) page_id)
          (λ store e. (give_up (record p { store = store }) i f previous, err e))
          (λ store. (record p { store = store }, panic)))
      else replace p i f previous (some old) page_id

  -- The victim `f` of index `i` is marked first.
  unfoldable pub evict : BufferPoolV2Shared S → ℕ → Frame → PageId → Reply
  evict p i f page_id =
      let f' = record f { state = evicting } in
      let p' = with_frame p i f' in
      elim f.state [
        | empty ↦ replace p' i f' f.state none page_id
        | valid old ↦ write_back p' i f' f.state old page_id
        | evicting ↦ (p, panic)
      ]

  -- Under the table's write lock, where the page is looked up again.
  unfoldable pub fetch_locked : BufferPoolV2Shared S → PageId → AccessMode → Reply
  fetch_locked p page_id mode = elim (lookup page_id p.page_table) [
    | some i ↦ pin_hit p i page_id mode
    | none ↦
        case_reply (choose_victim p)
          (λ p' i. elim (get_elem? p'.frames i) [
            | none ↦ (p', panic)
            | some f ↦ evict p' i f page_id
          ])
          (λ p' e. (p', err e)) (λ p'. (p', panic))
  ]

  -- With no other call between the two locks.
  unfoldable pub fetch_page : BufferPoolV2Shared S → PageId → AccessMode → Reply
  fetch_page p page_id mode = elim (lookup page_id p.page_table) [
    | some i ↦ pin_hit p i page_id mode
    | none ↦ fetch_locked p page_id mode
  ]

  -- The loop of `flush_all` over the frames; it stops at the first error.
  unfoldable pub flush_frames : S → List Frame → S × List Frame × Result (Unit {0})
  flush_frames store [] = (store, [], ok tt)
  flush_frames store (f ∷ fs) =
      let skip : S × List Frame × Result (Unit {0}) =
        let (s, fs', r) = flush_frames store fs in (s, f ∷ fs', r) in
      let go_on : S → S × List Frame × Result (Unit {0}) = λ store'.
        let (s, fs', r) = flush_frames store' fs in (s, record f { dirty = false } ∷ fs', r) in
      elim f.state [
        | empty ↦ skip
        | evicting ↦ skip
        | valid id ↦
            if f.dirty
            then (case_reply (io.write_page store id f.bytes) (λ s _. go_on s)
                (λ s e. (s, f ∷ fs, err e)) (λ s. (s, f ∷ fs, panic)))
            else skip
      ]

  unfoldable pub flush_all : BufferPoolV2Shared S → BufferPoolV2Shared S × Result (Unit {0})
  flush_all p =
      let (store, fs, r) = flush_frames p.store p.frames in
      (record p { store = store; frames = fs }, r)

module _ {S : Type 0} where
  unfoldable pub guard_read :
      {R : Type 0} → PageGuard → BufferPoolV2Shared S → (List ℕ → R) → Option R
  guard_read g p f = elim (get_elem? p.frames g.frame) [ none ↦ none | some fr ↦ some (f fr.bytes) ]

  unfoldable pub guard_write :
      {R : Type 0}
      → PageGuard
      → BufferPoolV2Shared S
      → (List ℕ → List ℕ × R)
      → BufferPoolV2Shared S × Option R
  guard_write g p f = elim (get_elem? p.frames g.frame) [
    | none ↦ (p, none)
    | some fr ↦
        let fr' = record fr { dirty = true } in
        let (bytes, r) = f fr'.bytes in
        (with_frame p g.frame (record fr' { bytes = bytes }), some r)
  ]

  -- `fetch_sub`, and then the `debug_assert!` on the value before it.
  unfoldable pub guard_drop :
      PageGuard → BufferPoolV2Shared S → BufferPoolV2Shared S × Result (Unit {0})
  guard_drop g p = elim (get_elem? p.frames g.frame) [
    | none ↦ (p, panic)
    | some fr ↦ (with_frame p g.frame (released fr), (if fr.pin_count == 0 then panic else ok tt))
  ]
