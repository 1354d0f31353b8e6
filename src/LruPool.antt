-- ===== src/LruPool.antt =====
-- crates/database-track/src/module1/part2/buffer_pool.rs and page_handle.rs: a buffer pool over one
-- page file, which gives up the page that was used least recently. A method runs under its locks and
-- is one step. A lock is poisoned only by a panic, with which the model ends.
pub mod Table
pub mod Order
pub mod Invariant
pub mod Pin
pub mod Start
pub mod Handles
mod Tests
use meridian_space_academy_c.Prelude.{
  ℕ, zero, suc, ◌+◌, ◌-◌, ◌^◌, Bool, true, false, ◌&&◌, Option, none, some, List, [], ◌∷◌, length,
  get_elem?, set, replicate, ◌==◌, ltb, if◌then◌else◌,
}
use meridian_space_academy_c.Config.{page_size}
use meridian_space_academy_c.Result.{
  Result, ok, err, panic, Error, pool_exhausted, stale_handle, ◌>>=◌, case_reply,
}
use meridian_space_academy_c.Header.{PageType}
use meridian_space_academy_c.PageFile.{
  PageFile, page_count, read_and_verify_page, write_page_with_checksum, allocate_page,
}
use meridian_space_academy_c.PageFile
use meridian_space_academy_c.LruPool.Table.{lookup, remove, insert}

pub record Frame : Type 0 where
  pub page_id : Option ℕ
  pub bytes : List ℕ
  pub pin_count : ℕ
  pub is_dirty : Bool

pub record State : Type 0 where
  pub frames : List Frame
  pub page_table : List (ℕ × ℕ)
  -- The most recently used frame first.
  pub lru_list : List ℕ

pub record Shared : Type 0 where
  pub state : State
  pub page_file : PageFile

pub record PageHandle : Type 0 where
  pub page_id : ℕ
  pub frame_index : ℕ

unfoldable pub new_frame : Frame
new_frame = record {
  page_id = none;
  bytes = replicate page_size 0;
  pin_count = 0;
  is_dirty = false;
}

-- `(i..i + n).collect()`
unfoldable pub indices : ℕ → ℕ → List ℕ
indices zero i = []
indices (suc n) i = i ∷ indices n (suc i)

unfoldable pub new : ℕ → PageFile → Result Shared
new num_frames page_file =
    if num_frames == 0
    then panic
    else ok (record {
      state = record {
        frames = replicate num_frames new_frame;
        page_table = [];
        lru_list = indices num_frames 0;
      };
      page_file = page_file;
    })

-- `iter().rev().find(..)`: the last one in the list that is not pinned.
unfoldable pub find_evict_target : List Frame → List ℕ → Result ℕ
find_evict_target frames [] = err pool_exhausted
find_evict_target frames (i ∷ l) = elim (find_evict_target frames l) [
  | ok j ↦ ok j
  | panic ↦ panic
  | err e ↦ elim (get_elem? frames i) [
    | none ↦ panic
    | some f ↦ if f.pin_count == 0 then ok i else err e
  ]
]

-- `retain(|&index| index != frame_index)`
unfoldable pub without : ℕ → List ℕ → List ℕ
without i [] = []
without i (j ∷ l) = if j == i then without i l else j ∷ without i l

abbrev pub move_to_front : ℕ → List ℕ → List ℕ
move_to_front i l = i ∷ without i l

abbrev pub with_frame : State → ℕ → Frame → State
with_frame s i f = record s { frames = set s.frames i f }

-- The page `page_id` was found in the frame `f` of index `i`; `pin_count += 1` is on a `u32`.
unfoldable pub pin_hit : Shared → ℕ → Frame → Shared × Result ℕ
pin_hit p i f =
    if ltb (f.pin_count + 1) (2 ^ 32)
    then (
      record p {
        state = record p.state {
          frames = set p.state.frames i (record f { pin_count = f.pin_count + 1 });
          lru_list = move_to_front i p.state.lru_list;
        };
      },
      ok i,
    )
    else (p, panic)

-- The victim's page is in the frame, the table and the file as `evict` left them.
abbrev pub take_over : State → ℕ → Frame → ℕ → List ℕ → State
take_over s i f page_id bytes = record s {
  frames =
      set s.frames i
        (record f { page_id = some page_id; bytes = bytes; pin_count = 1; is_dirty = false });
  page_table = insert page_id i s.page_table;
  lru_list = move_to_front i s.lru_list;
}

abbrev pub unmapped : State → ℕ → State
unmapped s old = record s { page_table = remove old s.page_table }

module _ (hash : List ℕ → ℕ) where
  -- The read into the victim's frame: after an error the frame keeps the old page's number.
  unfoldable pub load : PageFile → State → ℕ → Frame → ℕ → Shared × Result ℕ
  load pf s i f page_id =
      case_reply (read_and_verify_page hash pf page_id f.bytes)
        (λ x _. (record { page_file = x.0; state = take_over s i f page_id x.1 }, ok i))
        (λ x e.
          (record { page_file = x.0; state = with_frame s i (record f { bytes = x.1 }) }, err e))
        (λ x. (record { page_file = x.0; state = s }, panic))

  -- A dirty page is written back, with its checksum put into the frame.
  unfoldable pub evict : PageFile → State → ℕ → Frame → ℕ → Shared × Result ℕ
  evict pf s i f page_id = elim f.page_id [
    | none ↦ load pf s i f page_id
    | some old ↦
        if f.is_dirty
        then (case_reply (write_page_with_checksum hash pf old f.bytes)
            (λ x _.
              let f' = record f { bytes = x.1 } in
              load x.0 (unmapped (with_frame s i f') old) i f' page_id)
            (λ x e. (
              record { page_file = x.0; state = with_frame s i (record f { bytes = x.1 }) },
              err e,
            ))
            (λ x. (record { page_file = x.0; state = s }, panic)))
        else load pf (unmapped s old) i f page_id
  ]

  unfoldable pub pin_page : Shared → ℕ → Shared × Result ℕ
  pin_page p page_id = elim (lookup page_id p.state.page_table) [
    | some i ↦ elim (get_elem? p.state.frames i) [ none ↦ (p, panic) | some f ↦ pin_hit p i f ]
    | none ↦ elim (find_evict_target p.state.frames p.state.lru_list) [
      | ok i ↦ elim (get_elem? p.state.frames i) [
        | none ↦ (p, panic)
        | some f ↦ evict p.page_file p.state i f page_id
      ]
      | err e ↦ (p, err e)
      | panic ↦ (p, panic)
    ]
  ]

  unfoldable pub fetch_page : Shared → ℕ → Shared × Result PageHandle
  fetch_page p page_id =
      let (p', r) = pin_page p page_id in
      (p', r >>= λ i. ok (record { page_id = page_id; frame_index = i }))

  -- The new page is written with its header, and then fetched.
  unfoldable pub allocate : Shared → PageType → Shared × Result PageHandle
  allocate p page_type =
      case_reply (allocate_page p.page_file)
        (λ pf page_id.
          elim (PageFile.serialize (PageFile.new page_id page_type) (replicate page_size 0)) [
            | ok bytes ↦
                case_reply (write_page_with_checksum hash pf page_id bytes)
                  (λ x _. fetch_page (record p { page_file = x.0 }) page_id)
                  (λ x e. (record p { page_file = x.0 }, err e))
                  (λ x. (record p { page_file = x.0 }, panic))
            | err e ↦ (record p { page_file = pf }, err e)
            | panic ↦ (record p { page_file = pf }, panic)
          ])
        (λ pf e. (record p { page_file = pf }, err e)) (λ pf. (record p { page_file = pf }, panic))

  -- The loop of `flush_all`, which stops at the first error.
  unfoldable pub flush_frames : PageFile → List Frame → (PageFile × List Frame) × Result (Unit {0})
  flush_frames pf [] = ((pf, []), ok tt)
  flush_frames pf (f ∷ fs) =
      let skip : (PageFile × List Frame) × Result (Unit {0}) =
        let ((pf', fs'), r) = flush_frames pf fs in ((pf', f ∷ fs'), r) in
      let go_on : PageFile × List ℕ → (PageFile × List Frame) × Result (Unit {0}) = λ x.
        let ((pf', fs'), r) = flush_frames x.0 fs in
        ((pf', record f { bytes = x.1; is_dirty = false } ∷ fs'), r) in
      elim f.page_id [
        | none ↦ skip
        | some id ↦
            if f.is_dirty
            then (case_reply (write_page_with_checksum hash pf id f.bytes) (λ x _. go_on x)
                (λ x e. ((x.0, record f { bytes = x.1 } ∷ fs), err e))
                (λ x. ((x.0, f ∷ fs), panic)))
            else skip
      ]

  unfoldable pub flush_all : Shared → Shared × Result (Unit {0})
  flush_all p =
      let ((pf, fs), r) = flush_frames p.page_file p.state.frames in
      (record { page_file = pf; state = record p.state { frames = fs } }, r)

unfoldable pub pages : Shared → Shared × Result ℕ
pages p = let (pf, r) = page_count p.page_file in (record p { page_file = pf }, r)

-- `ensure_current`
unfoldable pub is_current : PageHandle → Option ℕ → Bool
is_current h none = false
is_current h (some id) = id == h.page_id

unfoldable pub read_page : PageHandle → State → Result (List ℕ)
read_page h s = elim (get_elem? s.frames h.frame_index) [
  | none ↦ panic
  | some f ↦ if is_current h f.page_id then ok f.bytes else err stale_handle
]

unfoldable pub modify_page : PageHandle → State → List ℕ → State × Result (Unit {0})
modify_page h s bytes = elim (get_elem? s.frames h.frame_index) [
  | none ↦ (s, panic)
  | some f ↦
      if is_current h f.page_id
      then (with_frame s h.frame_index (record f { bytes = bytes; is_dirty = true }), ok tt)
      else (s, err stale_handle)
]

-- `drop`
unfoldable pub unpin : PageHandle → State → State × Result (Unit {0})
unpin h s = elim (get_elem? s.frames h.frame_index) [
  | none ↦ (s, panic)
  | some f ↦
      if is_current h f.page_id && ltb 0 f.pin_count
      then (with_frame s h.frame_index (record f { pin_count = f.pin_count - 1 }), ok tt)
      else (s, ok tt)
]
