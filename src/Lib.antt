-- ===== src/Lib.antt =====
-- Verification of the storage engine of the Meridian Space Academy course, the pages, the files and the
-- buffer pools of crates/database-track/src/module1, and of the command queue and the frames of a
-- ground station in crates/foundation-track.
--
-- The parts and the code that they model, below crates/database-track/src/module1 but for the last two:
--   Config     config.rs: the sizes and the magic bytes.
--   Tle        project1/tle.rs: the record of an orbit, `serialize` and `deserialize`.
--   Header     project1/page.rs: `PageHeader` and `PageType`, `serialize` and `deserialize`.
--   Page       project1/page.rs: `Page`, whose slots grow from the header up and whose records grow
--              from the end of the page down; `insert`, `insert_compacting`, `get`, `delete`,
--              `compact`, `from_bytes`. Its children prove one operation each, and History runs any
--              sequence of them.
--   PageStore  project1.rs and project1/stats.rs: `PageId`, the trait `PageStore`, the counters.
--   ClockPool  project1/buffer_pool.rs: the buffer pool, its clock and its guards.
--   RelationFile  project1/relation_file.rs: pages in a file, with their checksums.
--   DiskManager   project1/disk_manager.rs: the relation files that are open, and the file of every
--              segment; `read_page` and `write_page`, and in Store the PageStore that a pool gets.
--   PageFile   part1/page.rs: the header, and pages in one file that is read at its cursor.
--   SlottedPage   part3/slotted_page.rs: the slotted page of the third part.
--   LruPool    part2/buffer_pool.rs and part2/page_handle.rs: the pool that gives up the page used
--              least recently, and its handles.
--   AtomicPool project1/buffer_pool_v2.rs: the clock pool with atomic counters and a lock for the table,
--              compared with ClockPool.
--   ShardedPool   project1/buffer_pool_v3.rs: the clock pool that loads pages outside its locks. The
--              functions are what a thread does in one piece; Agents is a step relation in which the
--              threads take their pieces in any order. Shape, Taking, Pins and Invariant say how
--              frames, table and threads stand to each other, and Pieces and Moves go through the
--              pieces. Safety has what the guards and the loads rely on, Waits is about the
--              threads that wait, Kept about the bytes of a guard's frame, Choice about
--              `choose_victim`.
--   CommandQueue  crates/foundation-track/src/module2/project2: the bounded queue of commands by priority,
--              with its metrics; Rounds are the threads' turns at its lock.
--   Frames     crates/foundation-track/src/module5/project5/frame.rs: `create_at`,
--              `try_extract_frame`, `deduplicate_indices`, `validate`.
-- Disk is the file that the code gets from the standard library: its bytes, a cursor, and what becomes
-- of the next calls, any of which may fail after some bytes were moved.
-- Prelude, Result and Bytes hold what they share: tests on numbers, lists, the outcomes of fallible
-- code, slices, little-endian words, `copy_from_slice`.
--
-- A page uses the header's and the slots' words through Bytes.Word. The pool holds pages as bytes and
-- reaches the disk only through a PageStore, which is a parameter. The theorems on the pool assume of
-- it what ClockPool.Invariant.Faithful says: no panic, a read gives the page or fails, a write that
-- succeeds has stored the page, and no call changes another page. A page is what counts of its bytes:
-- the disk manager writes a checksum into them, and DiskManager.Store shows it to be such a store up to
-- the checksums. A pool hands `write_page` a copy of its bytes, so it does not see them changed.
--
-- How the code is modelled. A byte is a number below 256 and a buffer a list of them; a slice or an
-- index out of bounds is `panic`, as are a subtraction below zero and a failed assertion. An `f64` is
-- its 64 bits. A method of the pool runs under its mutex and is one step; it returns the state that it
-- leaves beside its result, also when it fails. A pin count wraps at 2^32 and a metric of the queue
-- and the clock hand of ShardedPool at 2^64; the pools' own counters are not wrapped, and a usage
-- count is bounded by `max_usage_count`. A HashMap is an association list. The rounds of
-- `choose_victim` are the outer loop's own bound, `max_usage_count` + 1, and the `unreachable!` behind
-- them is a panic. Every other loop is a recursion on its list or its count.
--
-- In ShardedPool a `Pending` is named by the thread that made it and the number of those that the
-- thread had finished before; who waits for it goes on when that number has grown. The shards are one
-- table, as a page is always in the shard of its hash; what Shards says of the index is about the
-- masking. A try of `choose_victim` may be at any frame and with a state that was seen earlier; it
-- ends after two passes, and `wait_for_active_load` looks at the frames one after the other.
-- `flush_all` looks at a frame's dirty flag, writes the page and clears the flag in pieces of their
-- own, and has a share of the lock of the data from the write on. The bytes that a load copies out,
-- writes and replaces are seen by no other thread, since the frame is taken out of use, and each such
-- piece is one step.
--
-- The hash crc32fast::hash is a parameter; where a theorem needs its result below 2^32 it says so. The
-- words of the crate bytes are the interface Frames.Words, and what a frame draws at random is an
-- argument. A lock is poisoned only by a panic, with which a run of the model ends. Opening a file
-- succeeds or fails; the paths of the files stand for nothing but their relation and segment.
--
-- The BinaryHeap of the standard library is the interface CommandQueue.BinaryHeap, since its order among
-- equal commands is its own; IsBinaryHeap has what its documentation says. An instant is a number. That a
-- thread which waits for the queue is woken up for another round is left to the condition variables.
--
-- Not modelled: making the directory of a disk manager, the benchmarks, and what else is in
-- crates/foundation-track. The memory order of the atomics, and the interleaving of a guard's methods
-- inside one locked part of a call, are not modelled either.
pub mod Prelude
pub mod Result
pub mod Bytes
pub mod Config
pub mod Tle
pub mod Header
pub mod Page
pub mod PageStore
pub mod ClockPool
pub mod Disk
pub mod RelationFile
pub mod DiskManager
pub mod PageFile
pub mod SlottedPage
pub mod LruPool
pub mod AtomicPool
pub mod Frames
pub mod ShardedPool
pub mod CommandQueue
