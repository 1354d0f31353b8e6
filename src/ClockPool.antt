-- ===== src/ClockPool.antt =====
-- crates/database-track/src/module1/project1/buffer_pool.rs: a buffer pool with CLOCK replacement.
-- A method runs under the pool's mutex and is one step here. It returns the state beside its result,
-- since a call that fails leaves its traces too. A guard is the page and the index of its frame.
pub mod Clock
pub mod Pass
pub mod Victim
pub mod Invariant
pub mod Change
pub mod Install
pub mod Replace
pub mod Fetch
pub mod Start
pub mod FlushFrames
pub mod Flush
pub mod Guards
pub mod Tests
use meridian_space_academy_c.Prelude.{
  ℕ, zero, suc, ◌+◌, ◌-◌, ◌%◌, ◌^◌, min, max, Bool, true, false, ◌&&◌, Option, none, some, List, [],
  ◌∷◌, length, get_elem?, set, replicate, ◌==◌, ltb, if◌then◌else◌,
}
use meridian_space_academy_c.Config.{max_usage_count, page_size}
use meridian_space_academy_c.Result.{Result, ok, err, panic, Error, all_frames_pinned, case_reply}
use meridian_space_academy_c.PageStore.{
  PageId, PageStore, BufferPoolStats, Table, lookup, remove, insert,
}

pub record Frame : Type 0 where
  pub page_id : Option PageId
  pub bytes : List ℕ
  pub pin_count : ℕ
  pub usage_count : ℕ
  pub dirty : Bool

pub record BufferPoolInner : Type 0 where
  pub frames : List Frame
  pub page_table : Table
  pub clock_hand : ℕ
  pub stats : BufferPoolStats

pub record BufferPoolShared (S : Type 0) : Type 0 where
  pub store : S
  pub inner : BufferPoolInner

pub data AccessMode : Type 0 where
  normal bulk_read : AccessMode

pub record PageGuard : Type 0 where
  pub page_id : PageId
  pub frame : ℕ

unfoldable pub empty_frame : Frame
empty_frame = record {
  page_id = none;
  bytes = replicate page_size 0;
  pin_count = 0;
  usage_count = 0;
  dirty = false;
}

-- `assert!(capacity > 0)`
unfoldable pub new : {S : Type 0} → ℕ → S → Result (BufferPoolShared S)
new capacity store =
    if capacity == 0
    then panic
    else ok (record {
      store = store;
      inner = record {
        frames = replicate capacity empty_frame;
        page_table = [];
        clock_hand = 0;
        stats = record { hits = 0; misses = 0; evictions = 0; clock_second_chances = 0 };
      };
    })

-- `current.saturating_add(1).min(MAX_USAGE_COUNT)` on a `u8`, and `current.max(1)`.
unfoldable pub record_access : Frame → AccessMode → Frame
record_access f normal = record f {
  usage_count = min (min (f.usage_count + 1) 255) max_usage_count;
}
record_access f bulk_read = record f { usage_count = max f.usage_count 1 }

-- What the inner loop of `choose_victim` ends with: a reserved frame, all frames seen (and whether
-- one was unpinned), or an index out of bounds.
pub data Sweep : Type 0 where
  reserved : ℕ → BufferPoolInner → Sweep
  swept : Bool → BufferPoolInner → Sweep
  broken : BufferPoolInner → Sweep

abbrev pub advance : BufferPoolInner → BufferPoolInner
advance s = record s { clock_hand = (s.clock_hand + 1) % length s.frames }

abbrev pub reserve : BufferPoolInner → ℕ → Frame → BufferPoolInner
reserve s i f = record s { frames = set s.frames i (record f { pin_count = 1 }) }

abbrev pub second_chance : BufferPoolInner → ℕ → Frame → BufferPoolInner
second_chance s i f = record s {
  frames = set s.frames i (record f { usage_count = f.usage_count - 1 });
  stats = record s.stats { clock_second_chances = s.stats.clock_second_chances + 1 };
}

unfoldable pub sweep : ℕ → Bool → BufferPoolInner → Sweep
sweep zero found s = swept found s
sweep (suc n) found s =
    let i = s.clock_hand in
    elim (get_elem? s.frames i) [
      | none ↦ broken (advance s)
      | some f ↦
          let skip = sweep n found (advance s) in
          let again = sweep n true (second_chance (advance s) i f) in
          if f.pin_count == 0
          then (if f.usage_count == 0 then reserved i (reserve (advance s) i f) else again)
          else skip
    ]

-- `n` rounds of the outer loop; then `unreachable!`.
unfoldable pub rounds : ℕ → BufferPoolInner → BufferPoolInner × Result ℕ
rounds zero s = (s, panic)
rounds (suc n) s = elim (sweep (length s.frames) false s) [
  | reserved i s' ↦ (s', ok i)
  | swept true s' ↦ rounds n s'
  | swept false s' ↦ (s', err all_frames_pinned)
  | broken s' ↦ (s', panic)
]

unfoldable pub choose_victim : BufferPoolInner → BufferPoolInner × Result ℕ
choose_victim = rounds (max_usage_count + 1)

abbrev pub put_frame : BufferPoolInner → ℕ → Frame → BufferPoolInner
put_frame s i f = record s { frames = set s.frames i f }

-- `if let Some(id) = old_page_id { page_table.remove(&id) }`
abbrev pub unmap : Option PageId → Table → Table
unmap none t = t
unmap (some old) t = remove old t

abbrev pub count_evicted : Option PageId → ℕ → ℕ
count_evicted none n = n
count_evicted (some old) n = n + 1

-- Step 5: the page that was read takes the victim's frame.
unfoldable pub install : BufferPoolInner → ℕ → Frame → PageId → List ℕ → BufferPoolInner
install s i f page_id bytes = record s {
  frames =
      set s.frames i
        (record f { page_id = some page_id; bytes = bytes; dirty = false; usage_count = 1 });
  page_table = insert page_id i (unmap f.page_id s.page_table);
  stats = record s.stats {
    misses = s.stats.misses + 1;
    evictions = count_evicted f.page_id s.stats.evictions;
  };
}

-- A buffer hit on the frame `f` of index `i`.
unfoldable pub hit : BufferPoolInner → ℕ → Frame → AccessMode → BufferPoolInner
hit s i f mode = record s {
  frames =
      set s.frames i (record_access (record f { pin_count = (f.pin_count + 1) % 2 ^ 32 }) mode);
  stats = record s.stats { hits = s.stats.hits + 1 };
}

module _ {S : Type 0} (io : PageStore S) where
  abbrev pub Reply : Type 0
  Reply = BufferPoolShared S × Result PageGuard

  -- After an error of the store the victim is released.
  abbrev pub give_up : BufferPoolInner → ℕ → Frame → S → Error → Reply
  give_up s i f store e =
      (record { store = store; inner = put_frame s i (record f { pin_count = 0 }) }, err e)

  -- Step 4, the read, and then step 5.
  unfoldable pub replace : S → BufferPoolInner → ℕ → Frame → PageId → Reply
  replace store s i f page_id =
      case_reply (io.read_page store page_id)
        (λ store' bytes. (
          record { store = store'; inner = install s i f page_id bytes },
          ok (record { page_id = page_id; frame = i }),
        ))
        (give_up s i f) (λ store'. (record { store = store'; inner = s }, panic))

  -- Step 3: a dirty page is written back first.
  unfoldable pub write_back : S → BufferPoolInner → ℕ → Frame → PageId → Reply
  write_back store s i f page_id = elim f.page_id [
    | none ↦ replace store s i f page_id
    | some old ↦
        if f.dirty
        then (case_reply (io.write_page store old f.bytes)
            (λ store' _.
              let f' = record f { dirty = false } in replace store' (put_frame s i f') i f' page_id)
            (give_up s i f) (λ store'. (record { store = store'; inner = s }, panic)))
        else replace store s i f page_id
  ]

  unfoldable pub fetch_page : BufferPoolShared S → PageId → AccessMode → Reply
  fetch_page p page_id mode = elim (lookup page_id p.inner.page_table) [
    | some i ↦ elim (get_elem? p.inner.frames i) [
      | none ↦ (p, panic)
      | some f ↦
          (record p { inner = hit p.inner i f mode }, ok (record { page_id = page_id; frame = i }))
    ]
    | none ↦
        case_reply (choose_victim p.inner)
          (λ s i. elim (get_elem? s.frames i) [
            | none ↦ (record p { inner = s }, panic)
            | some f ↦ write_back p.store s i f page_id
          ])
          (λ s e. (record p { inner = s }, err e)) (λ s. (record p { inner = s }, panic))
  ]

  -- The loop of `flush_all` over the frames; it stops at the first error.
  unfoldable pub flush_frames : S → List Frame → S × List Frame × Result (Unit {0})
  flush_frames store [] = (store, [], ok tt)
  flush_frames store (f ∷ fs) =
      let skip : S × List Frame × Result (Unit {0}) =
        let (s, fs', r) = flush_frames store fs in (s, f ∷ fs', r) in
      let go_on : S → S × List Frame × Result (Unit {0}) = λ store'.
        let (s, fs', r) = flush_frames store' fs in (s, record f { dirty = false } ∷ fs', r) in
      elim f.page_id [
        | none ↦ skip
        | some id ↦
            if f.dirty
            then (case_reply (io.write_page store id f.bytes) (λ s _. go_on s)
                (λ s e. (s, f ∷ fs, err e)) (λ s. (s, f ∷ fs, panic)))
            else skip
      ]

  unfoldable pub flush_all : BufferPoolShared S → BufferPoolShared S × Result (Unit {0})
  flush_all p =
      let (store, fs, r) = flush_frames p.store p.inner.frames in
      (record { store = store; inner = record p.inner { frames = fs } }, r)

-- The methods of a guard on the frame that it holds.
unfoldable pub guard_read : {R : Type 0} → PageGuard → BufferPoolInner → (List ℕ → R) → Option R
guard_read g s f = elim (get_elem? s.frames g.frame) [ none ↦ none | some fr ↦ some (f fr.bytes) ]

unfoldable pub guard_write :
    {R : Type 0} → PageGuard → BufferPoolInner → (List ℕ → List ℕ × R) → BufferPoolInner × Option R
guard_write g s f = elim (get_elem? s.frames g.frame) [
  | none ↦ (s, none)
  | some fr ↦
      let (bytes, r) = f fr.bytes in
      (
        record s { frames = set s.frames g.frame (record fr { bytes = bytes; dirty = true }) },
        some r,
      )
]

-- `fetch_sub`, and then the `debug_assert!` on the value before it.
unfoldable pub guard_drop : PageGuard → BufferPoolInner → BufferPoolInner × Result (Unit {0})
guard_drop g s = elim (get_elem? s.frames g.frame) [
  | none ↦ (s, panic)
  | some fr ↦ (
    record s {
      frames =
          set s.frames g.frame (record fr { pin_count = (fr.pin_count + 2 ^ 32 - 1) % 2 ^ 32 });
    },
    (if fr.pin_count == 0 then panic else ok tt),
  )
]
