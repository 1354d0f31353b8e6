-- ===== src/ShardedPool/Effects.antt =====
-- What the pieces of buffer_pool_v3.rs that call the store, or that look for a frame, leave as it was.
use meridian_space_academy_c.Prelude.{
  ℕ, ◌+◌, ◌≡◌, inl, inr, refl, Bool, true, false, not, ◌&&◌, Option, none, some, ◌==◌, arith,
  Bool-cases, Option-cases,
}
use meridian_space_academy_c.Result.{Result-cases, case_reply}
use meridian_space_academy_c.PageStore.{PageId, PageStore, same_page_iff}
use meridian_space_academy_c.ShardedPool.{
  FrameState, empty, valid, evicting, leaving, Victim, Shared, is_empty, is_valid, is_ready,
  try_reserve, second_chance, reserve, with_entry, with_frame, write_dirty, write_old, read_new,
  flush_page, clear_dirty, finish_pending,
}

is_empty_iff : (s : FrameState) → is_empty s ≡ true → s ≡ empty
is_empty_iff empty e = refl
is_empty_iff (valid q) e = ground (arith, e)
is_empty_iff (evicting k) e = ground (arith, e)

is_valid_iff : (id : PageId) (s : FrameState) → is_valid id s ≡ true → s ≡ valid id
is_valid_iff id empty e = ground (arith, e)
is_valid_iff id (valid q) e = ground (arith, same_page_iff q id, e)
is_valid_iff id (evicting k) e = ground (arith, e)

module _ {S : Type 0} where
  abbrev pub states : Shared S → ℕ → FrameState
  states p i = (p.frames i).state

  abbrev pub pin_counts : Shared S → ℕ → ℕ
  pin_counts p i = (p.frames i).pin_count

  -- A change that touches no state of a frame and no entry.
  pub record Keeps (p p' : Shared S) : Type 0 where
    pub states_kept : (i : ℕ) → states p' i ≡ states p i
    pub table : p'.table ≡ p.table
    pub count : p'.frame_count ≡ p.frame_count

  -- Nor a pin, nor what a frame holds.
  pub record Rests (p p' : Shared S) : Type 0 where
    pub keeps : Keeps p p'
    pub pins_kept : (i : ℕ) → pin_counts p' i ≡ pin_counts p i
    pub bytes_kept : (i : ℕ) → (p'.frames i).bytes ≡ (p.frames i).bytes

  -- Nor anything but reference bits, the clock hand and the count of second chances.
  pub record Looked (p p' : Shared S) : Type 0 where
    pub rests : Rests p p'
    pub frames_kept :
        (i : ℕ) → record (p'.frames i) { referenced = (p.frames i).referenced } ≡ p.frames i
    pub store_kept : p'.store ≡ p.store
    pub finished_kept : p'.finished ≡ p.finished
    pub stats_kept :
        record p'.stats { clock_second_chances = p.stats.clock_second_chances } ≡ p.stats

  -- Nor the clock hand.
  pub record Spares (p p' : Shared S) : Type 0 where
    pub looked : Looked p p'
    pub hand_kept : p'.clock_hand ≡ p.clock_hand

  -- How a try at the frame `i` ends: without a victim, with a frame that had no page, or with one
  -- whose page leaves.
  pub data Reservation (p : Shared S) (i j : ℕ) : Shared S → Option Victim → Type 0 where
    refused : {p' : Shared S} → Spares p p' → Reservation p i j p' none
    of_empty :
        states p i ≡ empty
        → pin_counts p i ≡ 0
        → Reservation p i j (reserve p i j) (some (record { index = i; old_page_id = none }))
    of_valid :
        (old : PageId)
        → states p i ≡ valid old
        → pin_counts p i ≡ 0
        → Reservation p i j
            (with_entry (reserve p i j) old (some (leaving j)))
            (some (record { index = i; old_page_id = some old }))

  pub still : (p : Shared S) → Rests p p
  still p = record {
    keeps = record { states_kept = λ i. refl; table = refl; count = refl };
    pins_kept = λ i. refl;
    bytes_kept = λ i. refl;
  }

  spared : (p : Shared S) (i : ℕ) → pin_counts p i ≡ 0 → Spares p (second_chance p i)
  spared p i z = record {
    looked = record {
      rests = record {
        keeps = record { states_kept = λ k. ground arith; table = refl; count = refl };
        pins_kept = λ k. ground (arith, z);
        bytes_kept = λ k. ground arith;
      };
      frames_kept = λ k. ground (arith, z);
      store_kept = refl;
      finished_kept = refl;
      stats_kept = refl;
    };
    hand_kept = refl;
  }

  untouched : (p : Shared S) → Spares p p
  untouched p = record {
    looked = record {
      rests = still p;
      frames_kept = λ i. refl;
      store_kept = refl;
      finished_kept = refl;
      stats_kept = refl;
    };
    hand_kept = refl;
  }

  pub try_reserve-cases :
      (p : Shared S) (i j : ℕ) (force : Bool) (snapshot : FrameState)
      → Reservation p i j (try_reserve p i j force snapshot).0 (try_reserve p i j force snapshot).1
  unfolding try_reserve
  try_reserve-cases p i j force empty =
      elim (Bool-cases (is_empty (p.frames i).state && ((p.frames i).pin_count == 0))) [
        | inr fails ↦ rw (fails, try_reserve) (refused (untouched p))
        | inl holds ↦
            let free : states p i ≡ empty = is_empty_iff (states p i) (ground (arith, holds)) in
            let z : pin_counts p i ≡ 0 = ground (arith, holds) in
            elim (Bool-cases (not force && (p.frames i).referenced)) [
              | inl spare ↦ rw (holds, spare, try_reserve) (refused (spared p i z))
              | inr take ↦ rw (holds, take, try_reserve) (of_empty free z)
            ]
      ]
  try_reserve-cases p i j force (valid old) =
      elim (Bool-cases (
        is_valid old (p.frames i).state
        && (is_ready i (p.table old) && ((p.frames i).pin_count == 0)))) [
          | inr fails ↦ rw (fails, try_reserve) (refused (untouched p))
          | inl holds ↦
              let has : states p i ≡ valid old =
                is_valid_iff old (states p i) (ground (arith, holds)) in
              let z : pin_counts p i ≡ 0 = ground (arith, holds) in
              elim (Bool-cases (not force && (p.frames i).referenced)) [
                | inl spare ↦ rw (holds, spare, try_reserve) (refused (spared p i z))
                | inr take ↦ rw (holds, take, try_reserve) (of_valid old has z)
              ]
        ]
  try_reserve-cases p i j force (evicting k) = refused (untouched p)

  stored : (p : Shared S) (s : S) → Rests p (record p { store = s })
  stored p s = record {
    keeps = record { states_kept = λ i. refl; table = refl; count = refl };
    pins_kept = λ i. refl;
    bytes_kept = λ i. refl;
  }

  sharing :
      (p : Shared S) (s : S) (i : ℕ) (r : ℕ)
      → Rests p (record (with_frame p i (record (p.frames i) { readers = r })) { store = s })
  sharing p s i r = record {
    keeps = record { states_kept = λ k. ground arith; table = refl; count = refl };
    pins_kept = λ k. ground arith;
    bytes_kept = λ k. ground arith;
  }

  pub clear_dirty-Rests : (p : Shared S) (i : ℕ) → Rests p (clear_dirty p i)
  unfolding clear_dirty
  clear_dirty-Rests p i = record {
    keeps = record { states_kept = λ k. ground arith; table = refl; count = refl };
    pins_kept = λ k. ground arith;
    bytes_kept = λ k. ground arith;
  }

  pub finish_pending-Rests : (p : Shared S) (j : ℕ) → Rests p (finish_pending p j)
  unfolding finish_pending
  finish_pending-Rests p j = record {
    keeps = record { states_kept = λ k. refl; table = refl; count = refl };
    pins_kept = λ k. refl;
    bytes_kept = λ k. refl;
  }

  cleaned :
      (p : Shared S) (s : S) (i : ℕ)
      → Rests p (record (with_frame p i (record (p.frames i) { dirty = false })) { store = s })
  cleaned p s i = record {
    keeps = record { states_kept = λ k. ground arith; table = refl; count = refl };
    pins_kept = λ k. ground arith;
    bytes_kept = λ k. ground arith;
  }

module _ {S : Type 0} (io : PageStore S) (p : Shared S) where
  pub write_dirty-Rests : (id : PageId) (i : ℕ) → Rests p (write_dirty io p id i).0
  unfolding write_dirty
  write_dirty-Rests id i = elim (Bool-cases (p.frames i).dirty) [
    | inr fails ↦ rw (fails, write_dirty) (still p)
    | inl holds ↦ elim (Result-cases (io.write_page p.store id (p.frames i).bytes).1) [
      | inl (t, e) ↦
          rw (holds, e, write_dirty, case_reply)
            (cleaned p (io.write_page p.store id (p.frames i).bytes).0 i)
      | inr (inl (c, e)) ↦
          rw (holds, e, write_dirty, case_reply)
            (stored p (io.write_page p.store id (p.frames i).bytes).0)
      | inr (inr e) ↦
          rw (holds, e, write_dirty, case_reply)
            (stored p (io.write_page p.store id (p.frames i).bytes).0)
    ]
  ]

  pub flush_page-Rests : (id : PageId) (i : ℕ) → Rests p (flush_page io p id i).0
  unfolding flush_page
  flush_page-Rests id i =
      let s = (io.write_page p.store id (p.frames i).bytes).0 in
      elim (Result-cases (io.write_page p.store id (p.frames i).bytes).1) [
        | inl (t, e) ↦ rw (e, flush_page, case_reply) (sharing p s i ((p.frames i).readers + 1))
        | inr (inl (c, e)) ↦ rw (e, flush_page, case_reply) (stored p s)
        | inr (inr e) ↦ rw (e, flush_page, case_reply) (stored p s)
      ]

  pub write_old-Rests : (v : Victim) → Rests p (write_old io p v).0
  unfolding write_old
  write_old-Rests v = elim (Option-cases v.old_page_id) [
    | inl e ↦ rw (e, write_old) (still p)
    | inr (old, e) ↦ rw (e, write_old) (write_dirty-Rests old v.index)
  ]

  pub read_new-Rests : (id : PageId) → Rests p (read_new io p id).0
  unfolding read_new
  read_new-Rests id = elim (Result-cases (io.read_page p.store id).1) [
    | inl (b, e) ↦ rw (e, read_new, case_reply) (stored p (io.read_page p.store id).0)
    | inr (inl (c, e)) ↦ rw (e, read_new, case_reply) (stored p (io.read_page p.store id).0)
    | inr (inr e) ↦ rw (e, read_new, case_reply) (stored p (io.read_page p.store id).0)
  ]
