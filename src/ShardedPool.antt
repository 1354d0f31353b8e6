-- ===== src/ShardedPool.antt =====
-- crates/database-track/src/module1/project1/buffer_pool_v3.rs: the clock pool that loads pages outside
-- the locks of its table. The functions here are what a thread does in one piece, under a lock or
-- before the frame is anyone else's; ShardedPool.Agents lets threads take them in any order.
-- A `Pending` is named by the thread that made it and by the number of those that it had finished
-- before: it is done when `finished` has passed that number. The table is a function, all shards together: a
-- page is always in the shard of its hash, and a step touches one page. A frame has its index, and
-- there are `frame_count` of them.
pub mod Shards
pub mod Agents
pub mod Shape
pub mod Taking
pub mod Pins
pub mod Effects
pub mod Invariant
pub mod Pieces
pub mod Moves
pub mod Runs
pub mod Safety
pub mod Choice
pub mod Finished
pub mod Phases
pub mod Waits
pub mod Kept
pub mod Tests
use meridian_space_academy_c.Prelude.{
  ℕ, zero, suc, ◌+◌, ◌-◌, ◌%◌, ◌^◌, Bool, true, false, not, ◌&&◌, ◌||◌, Option, none, some, List,
  [], ◌∷◌, replicate, ◌==◌, ltb, if◌then◌else◌,
}
use meridian_space_academy_c.Config.{page_size}
use meridian_space_academy_c.Result.{Result, ok, err, panic, all_frames_pinned, case_reply}
use meridian_space_academy_c.PageStore.{PageId, PageStore, BufferPoolStats, same_page}
use meridian_space_academy_c.ClockPool.{AccessMode, normal, bulk_read}

pub data FrameState : Type 0 where
  empty : FrameState
  valid : PageId → FrameState
  evicting : ℕ → FrameState

pub data Entry : Type 0 where
  ready loading leaving : ℕ → Entry

pub record Frame : Type 0 where
  pub state : FrameState
  pub bytes : List ℕ
  -- Those that share the lock of `data`.
  pub readers : ℕ
  pub pin_count : ℕ
  pub referenced : Bool
  pub dirty : Bool

pub record Victim : Type 0 where
  pub index : ℕ
  pub old_page_id : Option PageId

pub record Shared (S : Type 0) : Type 0 where
  pub store : S
  pub frame_count : ℕ
  pub frames : ℕ → Frame
  pub table : PageId → Option Entry
  pub clock_hand : ℕ
  pub stats : BufferPoolStats
  pub finished : ℕ → ℕ

abbrev pub update {ℓ} : {A : Type ℓ} → (ℕ → A) → ℕ → A → ℕ → A
update f i a j = if i == j then a else f j

-- `insert` and `remove` of a shard.
abbrev pub put : (PageId → Option Entry) → PageId → Option Entry → PageId → Option Entry
put t id e q = if same_page id q then e else t q

unfoldable pub empty_frame : Frame
empty_frame = record {
  state = empty;
  bytes = replicate page_size 0;
  readers = 0;
  pin_count = 0;
  referenced = false;
  dirty = false;
}

unfoldable pub new : {S : Type 0} → ℕ → S → Result (Shared S)
new capacity store =
    if capacity == 0
    then panic
    else ok (record {
      store = store;
      frame_count = capacity;
      frames = λ i. empty_frame;
      table = λ id. none;
      clock_hand = 0;
      stats = record { hits = 0; misses = 0; evictions = 0; clock_second_chances = 0 };
      finished = λ j. 0;
    })

abbrev pub pinned : Frame → Frame
pinned f = record f { pin_count = (f.pin_count + 1) % 2 ^ 32 }

abbrev pub released : Frame → Frame
released f = record f { pin_count = (f.pin_count + 2 ^ 32 - 1) % 2 ^ 32 }

unfoldable pub record_access : Frame → AccessMode → Frame
record_access f normal = record f { referenced = true }
record_access f bulk_read = f

abbrev pub is_normal : AccessMode → Bool
is_normal normal = true
is_normal bulk_read = false

abbrev pub is_empty : FrameState → Bool
is_empty empty = true
is_empty (valid id) = false
is_empty (evicting j) = false

abbrev pub is_valid : PageId → FrameState → Bool
is_valid id empty = false
is_valid id (valid q) = same_page q id
is_valid id (evicting j) = false

abbrev pub is_ready : ℕ → Option Entry → Bool
is_ready i none = false
is_ready i (some (ready k)) = k == i
is_ready i (some (loading j)) = false
is_ready i (some (leaving j)) = false

abbrev pub without_old : (PageId → Option Entry) → Option PageId → PageId → Option Entry
without_old t none = t
without_old t (some old) = put t old none

abbrev pub is_leaving : ℕ → Entry → Bool
is_leaving j (ready i) = false
is_leaving j (loading k) = false
is_leaving j (leaving k) = k == j

module _ {S : Type 0} where
  abbrev pub with_frame : Shared S → ℕ → Frame → Shared S
  with_frame p i f = record p { frames = update p.frames i f }

  abbrev pub with_entry : Shared S → PageId → Option Entry → Shared S
  with_entry p id e = record p { table = put p.table id e }

  -- A hit on the frame `i`, under the read lock of the page's shard.
  unfoldable pub pin_ready : Shared S → ℕ → AccessMode → Shared S
  pin_ready p i mode = record p {
    frames = update p.frames i (record_access (pinned (p.frames i)) mode);
    stats = record p.stats { hits = p.stats.hits + 1 };
  }

  -- A page that has no entry is claimed by the thread `j`.
  unfoldable pub claim : Shared S → PageId → ℕ → Shared S
  claim p id j = with_entry p id (some (loading j))

  abbrev pub second_chance : Shared S → ℕ → Shared S
  second_chance p i = record p {
    frames =
        update p.frames i (released (record (p.frames i) { pin_count = 1; referenced = false }));
    stats = record p.stats { clock_second_chances = p.stats.clock_second_chances + 1 };
  }

  abbrev pub reserve : Shared S → ℕ → ℕ → Shared S
  reserve p i j = with_frame p i (record (p.frames i) { pin_count = 1; state = evicting j })

  -- A swap of `referenced` that finds it false leaves it so.
  -- Under the locks of the state and, for a page, of its shard; `snapshot` is the state that was seen
  -- before they were taken.
  unfoldable pub try_reserve : Shared S → ℕ → ℕ → Bool → FrameState → Shared S × Option Victim
  try_reserve p i j force empty =
      if is_empty (p.frames i).state && ((p.frames i).pin_count == 0)
      then (if not force && (p.frames i).referenced
          then (second_chance p i, none)
          else (reserve p i j, some (record { index = i; old_page_id = none })))
      else (p, none)
  try_reserve p i j force (valid old) =
      if is_valid old (p.frames i).state
        && (is_ready i (p.table old) && ((p.frames i).pin_count == 0))
      then (if not force && (p.frames i).referenced then (second_chance p i, none) else (
        with_entry (reserve p i j) old (some (leaving j)),
        some (record { index = i; old_page_id = some old }),
      ))
      else (p, none)
  try_reserve p i j force (evicting k) = (p, none)

  -- `n` steps of a pass, with no other thread between them.
  unfoldable pub sweep : ℕ → Shared S → ℕ → Bool → Shared S × Option Victim
  sweep zero p j force = (p, none)
  sweep (suc n) p j force =
      let i = p.clock_hand % p.frame_count in
      let p' = record p { clock_hand = (p.clock_hand + 1) % 2 ^ 64 } in
      let (q, v) = try_reserve p' i j force (p'.frames i).state in
      let rest = sweep n q j force in elim v [ some w ↦ (q, some w) | none ↦ rest ]

  unfoldable pub choose_victim : Shared S → ℕ → Shared S × Result Victim
  choose_victim p j =
      let (p1, v1) = sweep p.frame_count p j false in
      let (p2, v2) = sweep p.frame_count p1 j true in
      elim v1 [
        | some w ↦ (p1, ok w)
        | none ↦ elim v2 [ some w ↦ (p2, ok w) | none ↦ (p2, err all_frames_pinned) ]
      ]

  -- The new bytes take the reserved frame.
  unfoldable pub fill : Shared S → Victim → List ℕ → AccessMode → Shared S
  fill p v bytes mode =
      with_frame p v.index
        (record (p.frames v.index) { bytes = bytes; dirty = false; referenced = is_normal mode })

  unfoldable pub remove_old : Shared S → Victim → Shared S
  remove_old p v = record p { table = without_old p.table v.old_page_id }

  unfoldable pub publish : Shared S → PageId → Victim → Shared S
  publish p id v =
      with_entry (with_frame p v.index (record (p.frames v.index) { state = valid id })) id
        (some (ready v.index))

  unfoldable pub count_miss : Shared S → Victim → Shared S
  count_miss p v = record p {
    stats = record p.stats {
      misses = p.stats.misses + 1;
      evictions = elim v.old_page_id [
        | none ↦ p.stats.evictions
        | some old ↦ p.stats.evictions + 1
      ];
    };
  }

  abbrev pub with_state : Shared S → ℕ → FrameState → Shared S
  with_state p i state = with_frame p i (record (p.frames i) { state = state })

  -- `restore_failed_load`: the frame gets its page back, then the pin, and then the claim is dropped.
  -- The entry of the page has to be there (`expect`) and has to be this load's (`debug_assert!`).
  unfoldable pub restore : Shared S → Victim → ℕ → Result (Shared S)
  restore p v j = elim v.old_page_id [
    | none ↦ ok (with_state p v.index empty)
    | some old ↦ elim (p.table old) [
      | none ↦ panic
      | some entry ↦
          if is_leaving j entry
          then ok (with_entry (with_state p v.index (valid old)) old (some (ready v.index)))
          else panic
    ]
  ]

  unfoldable pub release : Shared S → ℕ → Shared S
  release p i = with_frame p i (released (p.frames i))

  unfoldable pub unclaim : Shared S → PageId → Shared S
  unclaim p id = with_entry p id none

  -- `Pending::finish` for the load of the thread `j`.
  unfoldable pub finish_pending : Shared S → ℕ → Shared S
  finish_pending p j = record p { finished = update p.finished j (p.finished j + 1) }

  -- The end of `flush_all` with a page that was written: it is clean, and the lock is given back.
  unfoldable pub clear_dirty : Shared S → ℕ → Shared S
  clear_dirty p i =
      with_frame p i (record (p.frames i) { dirty = false; readers = (p.frames i).readers - 1 })

  -- The pin of `flush_all`, under the lock of the state.
  unfoldable pub pin_flush : Shared S → ℕ → Shared S
  pin_flush p i = with_frame p i (pinned (p.frames i))

  unfoldable pub guard_write : Shared S → ℕ → List ℕ → Shared S
  guard_write p i bytes = with_frame p i (record (p.frames i) { bytes = bytes; dirty = true })

module _ {S : Type 0} (io : PageStore S) where
  -- What a load does with the page that it gives up, in a frame that it has reserved: the page is
  -- written if it is dirty, and is clean then.
  unfoldable pub write_dirty : Shared S → PageId → ℕ → Shared S × Result (Unit {0})
  write_dirty p id i =
      if (p.frames i).dirty
      then (case_reply (io.write_page p.store id (p.frames i).bytes)
          (λ s _.
            (record (with_frame p i (record (p.frames i) { dirty = false })) { store = s }, ok tt))
          (λ s e. (record p { store = s }, err e)) (λ s. (record p { store = s }, panic)))
      else (p, ok tt)

  -- What `flush_all` does with a page that it saw dirty: it writes it, with a share of the lock of
  -- the data, and keeps that share if the write succeeds.
  unfoldable pub flush_page : Shared S → PageId → ℕ → Shared S × Result (Unit {0})
  flush_page p id i =
      case_reply (io.write_page p.store id (p.frames i).bytes)
        (λ s _. (
          record (with_frame p i (record (p.frames i) { readers = (p.frames i).readers + 1 })) {
            store = s;
          },
          ok tt,
        ))
        (λ s e. (record p { store = s }, err e)) (λ s. (record p { store = s }, panic))

  unfoldable pub write_old : Shared S → Victim → Shared S × Result (Unit {0})
  write_old p v = elim v.old_page_id [ none ↦ (p, ok tt) | some old ↦ write_dirty p old v.index ]

  unfoldable pub read_new : Shared S → PageId → Shared S × Result (List ℕ)
  read_new p id =
      case_reply (io.read_page p.store id) (λ s b. (record p { store = s }, ok b))
        (λ s e. (record p { store = s }, err e)) (λ s. (record p { store = s }, panic))
