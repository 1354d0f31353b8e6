-- ===== src/ShardedPool/Agents.antt =====
-- Threads in the pool of buffer_pool_v3.rs. Each is idle, has a guard, or is somewhere between two
-- pieces of a load or of a flush; a run takes the pieces of all threads in any order. A thread that
-- holds several guards is several agents here. A thread that has seen no entry and
-- has not yet claimed the page changes nothing and has looked at nothing it relies on: it is idle. A
-- try of `choose_victim` may be at any frame, and with any state that was seen before the locks were
-- taken: so with other threads between its steps. The lock of a frame's data is a number of readers:
-- a writer goes on when it is 0, and has the lock for one piece only.
use meridian_space_academy_c.Prelude.{
  ℕ, ◌+◌, ◌*◌, ◌<◌, ◌≡◌, leb, Bool, true, false, Option, none, some, List,
}
use meridian_space_academy_c.Result.{ok, err, Error}
use meridian_space_academy_c.PageStore.{PageId, PageStore}
use meridian_space_academy_c.ClockPool.{AccessMode}
use meridian_space_academy_c.ShardedPool.{
  FrameState, empty, valid, evicting, ready, loading, leaving, Victim, Shared, update,
  finish_pending, clear_dirty, flush_page, pin_ready, claim, try_reserve, fill, remove_old, publish,
  count_miss, restore, release, unclaim, pin_flush, guard_write, write_old, read_new,
}

pub data Agent : Type 0 where
  idle : Agent
  -- A `PageGuard` of the frame.
  holding : PageId → ℕ → Agent
  -- `flush_all` with a pin on the frame: it has not yet looked at `dirty`, it has seen it set, it
  -- has written the page and has a share of the lock, and it is done with the frame.
  flushing dirty_seen flushed_page flush_done : PageId → ℕ → Agent
  -- So many tries of `choose_victim` are over; so many frames of `wait_for_active_load`; it waits
  -- there for the `Pending` of that thread and number.
  choosing scanning : PageId → AccessMode → ℕ → Agent
  waiting : PageId → AccessMode → ℕ → ℕ → Agent
  -- A caller of `fetch_page` or `flush_all` that waits for a `Pending`.
  awaiting : ℕ → ℕ → Agent
  reserved clean : PageId → AccessMode → Victim → Agent
  fetched : PageId → AccessMode → Victim → List ℕ → Agent
  filled removed published : PageId → Victim → Agent
  failing restored : PageId → Victim → Agent
  unpinned : PageId → Agent
  -- The claim is dropped, and the `Pending` is not yet finished.
  ending : Agent

abbrev pub chosen : PageId → AccessMode → ℕ → Option Victim → Agent
chosen id mode n none = choosing id mode n
chosen id mode n (some v) = reserved id mode v

-- `wait_for_active_load` looks for a frame in the state `Evicting`.
abbrev pub is_evicting : FrameState → Bool
is_evicting empty = false
is_evicting (valid id) = false
is_evicting (evicting k) = true

pub record System (S : Type 0) : Type 0 where
  pub pool : Shared S
  pub agents : ℕ → Agent

module _ {S : Type 0} (io : PageStore S) where
  -- A piece of the thread `j`.
  pub data Move (p : Shared S) (j : ℕ) : Agent → Shared S → Agent → Type 0 where
    hit :
        (id : PageId) (i : ℕ) (mode : AccessMode)
        → p.table id ≡ some (ready i)
        → Move p j idle (pin_ready p i mode) (holding id i)
    miss :
        (id : PageId) (mode : AccessMode)
        → p.table id ≡ none
        → Move p j idle (claim p id j) (choosing id mode 0)
    try :
        (id : PageId) (mode : AccessMode) (tries i : ℕ) (snapshot : FrameState)
        → tries < 2 * p.frame_count
        → i < p.frame_count
        → Move p j
            (choosing id mode tries)
            (try_reserve p i j (leb p.frame_count tries) snapshot).0
            (chosen id mode (tries + 1) (try_reserve p i j (leb p.frame_count tries) snapshot).1)
    exhaust :
        (id : PageId) (mode : AccessMode) (tries : ℕ)
        → tries ≡ 2 * p.frame_count
        → Move p j (choosing id mode tries) p (scanning id mode 0)
    pass_over :
        (id : PageId) (mode : AccessMode) (i : ℕ)
        → i < p.frame_count
        → is_evicting (p.frames i).state ≡ false
        → Move p j (scanning id mode i) p (scanning id mode (i + 1))
    wait_load :
        (id : PageId) (mode : AccessMode) (i k : ℕ)
        → i < p.frame_count
        → (p.frames i).state ≡ evicting k
        → Move p j (scanning id mode i) p (waiting id mode k (p.finished k))
    retry :
        (id : PageId) (mode : AccessMode) (k t : ℕ)
        → t < p.finished k
        → Move p j (waiting id mode k t) p (choosing id mode 0)
    give_up :
        (id : PageId) (mode : AccessMode) (i : ℕ)
        → i ≡ p.frame_count
        → Move p j (scanning id mode i) (unclaim p id) ending
    wait_loading :
        (id : PageId) (k : ℕ)
        → p.table id ≡ some (loading k)
        → Move p j idle p (awaiting k (p.finished k))
    wait_leaving :
        (id : PageId) (k : ℕ)
        → p.table id ≡ some (leaving k)
        → Move p j idle p (awaiting k (p.finished k))
    wait_evicting :
        (i k : ℕ)
        → i < p.frame_count
        → (p.frames i).state ≡ evicting k
        → Move p j idle p (awaiting k (p.finished k))
    wake : (k t : ℕ) → t < p.finished k → Move p j (awaiting k t) p idle
    write_back :
        (id : PageId) (mode : AccessMode) (v : Victim)
        → (write_old io p v).1 ≡ ok tt
        → Move p j (reserved id mode v) (write_old io p v).0 (clean id mode v)
    write_fails :
        (id : PageId) (mode : AccessMode) (v : Victim) (e : Error)
        → (write_old io p v).1 ≡ err e
        → Move p j (reserved id mode v) (write_old io p v).0 (failing id v)
    read :
        (id : PageId) (mode : AccessMode) (v : Victim) (b : List ℕ)
        → (read_new io p id).1 ≡ ok b
        → Move p j (clean id mode v) (read_new io p id).0 (fetched id mode v b)
    read_fails :
        (id : PageId) (mode : AccessMode) (v : Victim) (e : Error)
        → (read_new io p id).1 ≡ err e
        → Move p j (clean id mode v) (read_new io p id).0 (failing id v)
    take :
        (id : PageId) (mode : AccessMode) (v : Victim) (b : List ℕ)
        → (p.frames v.index).readers ≡ 0
        → Move p j (fetched id mode v b) (fill p v b mode) (filled id v)
    remove : (id : PageId) (v : Victim) → Move p j (filled id v) (remove_old p v) (removed id v)
    show : (id : PageId) (v : Victim) → Move p j (removed id v) (publish p id v) (published id v)
    finish :
        (id : PageId) (v : Victim)
        → Move p j (published id v) (count_miss (finish_pending p j) v) (holding id v.index)
    put_back :
        (id : PageId) (v : Victim) (p' : Shared S)
        → restore p v j ≡ ok p'
        → Move p j (failing id v) p' (restored id v)
    unpin : (id : PageId) (v : Victim) → Move p j (restored id v) (release p v.index) (unpinned id)
    drop_claim : (id : PageId) → Move p j (unpinned id) (unclaim p id) ending
    end : Move p j ending (finish_pending p j) idle
    write :
        (id : PageId) (i : ℕ) (b : List ℕ)
        → (p.frames i).readers ≡ 0
        → Move p j (holding id i) (guard_write p i b) (holding id i)
    drop : (id : PageId) (i : ℕ) → Move p j (holding id i) (release p i) idle
    pin_valid :
        (id : PageId) (i : ℕ)
        → i < p.frame_count
        → (p.frames i).state ≡ valid id
        → Move p j idle (pin_flush p i) (flushing id i)
    see_clean :
        (id : PageId) (i : ℕ)
        → (p.frames i).dirty ≡ false
        → Move p j (flushing id i) p (flush_done id i)
    see_dirty :
        (id : PageId) (i : ℕ)
        → (p.frames i).dirty ≡ true
        → Move p j (flushing id i) p (dirty_seen id i)
    flush :
        (id : PageId) (i : ℕ)
        → (flush_page io p id i).1 ≡ ok tt
        → Move p j (dirty_seen id i) (flush_page io p id i).0 (flushed_page id i)
    flush_fails :
        (id : PageId) (i : ℕ) (e : Error)
        → (flush_page io p id i).1 ≡ err e
        → Move p j (dirty_seen id i) (flush_page io p id i).0 (flush_done id i)
    clear : (id : PageId) (i : ℕ) → Move p j (flushed_page id i) (clear_dirty p i) (flush_done id i)
    flushed : (id : PageId) (i : ℕ) → Move p j (flush_done id i) (release p i) idle

  -- The agents from `n` on are never picked.
  pub data Step (n : ℕ) (s : System S) : System S → Type 0 where
    pick :
        (j : ℕ) {p : Shared S} {a : Agent}
        → j < n
        → Move s.pool j (s.agents j) p a
        → Step n s (record { pool = p; agents = update s.agents j a })

  pub data Reach (n : ℕ) (p : Shared S) : System S → Type 0 where
    start : Reach n p (record { pool = p; agents = λ j. idle })
    later : {s t : System S} → Reach n p s → Step n s t → Reach n p t
