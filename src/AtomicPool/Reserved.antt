-- ===== src/AtomicPool/Reserved.antt =====
-- The frame that `choose_victim` of buffer_pool.rs reserves.
use meridian_space_academy_c.Prelude.{
  ℕ, zero, suc, ◌≡◌, inl, inr, refl, Bool, true, false, some, length, get_elem?, get_elem?-set_self,
  lt_of_get_elem?, ◌==◌, Option-cases, Bool-cases,
}
use meridian_space_academy_c.Result.{Result, ok, err, panic, all_frames_pinned}
use meridian_space_academy_c.ClockPool.{
  BufferPoolInner, BufferPoolShared, AccessMode, normal, bulk_read, PageGuard,
}
use meridian_space_academy_c.ClockPool

-- The frame that a sweep reserved has the one pin.
abbrev pub Reserved : ClockPool.Sweep → Type 0
Reserved (ClockPool.reserved i s) =
    (f : ClockPool.Frame) × (get_elem? s.frames i ≡ some f) × (f.pin_count ≡ 1)
Reserved (ClockPool.swept b s) = Unit {0}
Reserved (ClockPool.broken s) = Unit {0}

pub sweep-Reserved :
    (n : ℕ) (found : Bool) (s : BufferPoolInner) → Reserved (ClockPool.sweep n found s)
unfolding ClockPool.sweep
sweep-Reserved zero found s = tt
sweep-Reserved (suc n) found s =
    let i = s.clock_hand in
    let s' = ClockPool.advance s in
    elim (Option-cases (get_elem? s.frames i)) [
      | inl e ↦ rw (e, ClockPool.sweep) tt
      | inr (f, e) ↦
          rw (e, ClockPool.sweep)
            (elim (Bool-cases (f.pin_count == 0)) [
              | inr t ↦ rw t (sweep-Reserved n found s')
              | inl t ↦ elim (Bool-cases (f.usage_count == 0)) [
                | inl t' ↦
                    rw (t, t')
                      (
                        record f { pin_count = 1 },
                        get_elem?-set_self s.frames i (record f { pin_count = 1 })
                            (lt_of_get_elem? s.frames i f e),
                        refl,
                      )
                | inr t' ↦ rw (t, t') (sweep-Reserved n true (ClockPool.second_chance s' i f))
              ]
            ])
    ]

abbrev pub ReservedAt : BufferPoolInner × Result ℕ → Type 0
ReservedAt (s, ok i) = (f : ClockPool.Frame) × (get_elem? s.frames i ≡ some f) × (f.pin_count ≡ 1)
ReservedAt (s, err e) = Unit {0}
ReservedAt (s, panic) = Unit {0}

pub rounds-ReservedAt : (n : ℕ) (s : BufferPoolInner) → ReservedAt (ClockPool.rounds n s)
unfolding ClockPool.rounds
rounds-ReservedAt zero s = tt
rounds-ReservedAt (suc n) s =
    go (ClockPool.sweep (length s.frames) false s) (sweep-Reserved (length s.frames) false s)
      (rounds-ReservedAt n)
  where
    go :
        (x : ClockPool.Sweep)
        → Reserved x
        → ((s' : BufferPoolInner) → ReservedAt (ClockPool.rounds n s'))
        → ReservedAt (elim x [
          | ClockPool.reserved i s' ↦ (s', ok i)
          | ClockPool.swept true s' ↦ ClockPool.rounds n s'
          | ClockPool.swept false s' ↦ (s', err all_frames_pinned)
          | ClockPool.broken s' ↦ (s', panic)
        ])
    go (ClockPool.reserved i s') r rest = r
    go (ClockPool.swept true s') r rest = rest s'
    go (ClockPool.swept false s') r rest = tt
    go (ClockPool.broken s') r rest = tt
