-- ===== src/LruPool/Tests.antt =====
-- part2/buffer_pool.rs with two frames of small pages.
use meridian_space_academy_c.Prelude.{
  Has, ℕ, zero, suc, ◌+◌, ◌^◌, ◌<◌, ◌≡◌, refl, ap, subst, inl, inr, true, false, some, List, [],
  ◌∷◌, get_elem?, replicate, length-replicate, arith,
}
use mathlib.Core.Option.{some-injective}
use meridian_space_academy_c.Result.{ok}
use meridian_space_academy_c.PageFile.Agree.{page_file}
use meridian_space_academy_c.LruPool.{
  Frame, Shared, PageHandle, find_evict_target, pin_page, read_page, modify_page,
}
use meridian_space_academy_c.LruPool.Table.{lookup}
use meridian_space_academy_c.LruPool.Order.{Target, count, find_evict_target-Target}
use meridian_space_academy_c.LruPool.Invariant.{FrameOk, Inv, Pins}
use meridian_space_academy_c.LruPool.Pin.{pin_page-Pins}
use meridian_space_academy_c.LruPool.Handles.{
  IsHeld, Touches, read_page-pin_page, modify_page-Touches,
}

abbrev hash : List ℕ → ℕ
hash b = 258

abbrev frame0 : Frame
frame0 = record { page_id = some 0; bytes = replicate 20 1; pin_count = 1; is_dirty = false }

abbrev frame1 : Frame
frame1 = record { page_id = some 1; bytes = replicate 20 2; pin_count = 0; is_dirty = true }

abbrev frames : List Frame
frames = frame0 ∷ frame1 ∷ []

abbrev pool : Shared
pool = record {
  state = record { frames = frames; page_table = (0, 0) ∷ (1, 1) ∷ []; lru_list = 0 ∷ 1 ∷ [] };
  page_file = page_file (replicate 40 7) 0 20;
}

frames-FrameOk : (i : ℕ) (f : Frame) → get_elem? frames i ≡ some f → FrameOk 20 f
frames-FrameOk zero f e =
    subst (FrameOk 20) (some-injective frame0 f e)
      (record { room = length-replicate 20 1; addressed = λ k e. ground (arith, e) })
frames-FrameOk (suc zero) f e =
    subst (FrameOk 20) (some-injective frame1 f e)
      (record { room = length-replicate 20 2; addressed = λ k e. ground (arith, e) })
frames-FrameOk (suc (suc i)) f e = ground (arith, e)

pool-cached :
    (k i : ℕ)
    → lookup k pool.state.page_table ≡ some i
    → (f : Frame) × (get_elem? frames i ≡ some f) × (f.page_id ≡ some k)
unfolding lookup
pool-cached zero i e = (frame0, ground (arith, e), refl)
pool-cached (suc zero) i e = (frame1, ground (arith, e), refl)
pool-cached (suc (suc k)) i e = ground (arith, e)

pool-Inv : Inv 20 pool
unfolding count
pool-Inv = record {
  size = refl;
  frame_ok = frames-FrameOk;
  cached = pool-cached;
  order = λ i. ground arith;
}

pool-more : (i : ℕ) (f : Frame) → get_elem? pool.state.frames i ≡ some f → f.pin_count + 1 < 2 ^ 32
pool-more zero f e = omega (arith, ap (λ x. x.pin_count) (some-injective frame0 f e))
pool-more (suc zero) f e = omega (arith, ap (λ x. x.pin_count) (some-injective frame1 f e))
pool-more (suc (suc i)) f e = ground (arith, e)

abbrev handle : PageHandle
handle = record { page_id = 0; frame_index = 0 }

held : IsHeld pool.state handle frame0
held = (refl, refl, λ z. omega (arith, z))

find_evict_target-Target_example :
    Target frames (0 ∷ 1 ∷ []) (find_evict_target frames (0 ∷ 1 ∷ []))
find_evict_target-Target_example = find_evict_target-Target frames (0 ∷ 1 ∷ []) there
  where
    there : (i : ℕ) → Has i (0 ∷ 1 ∷ []) → (f : Frame) × (get_elem? frames i ≡ some f)
    there zero h = (frame0, refl)
    there (suc zero) h = (frame1, refl)
    there (suc (suc i)) (inl e) = absurd (omega (arith, e))
    there (suc (suc i)) (inr (inl e)) = absurd (omega (arith, e))
    there (suc (suc i)) (inr (inr e)) = absurd e

pin_page-Pins_example : Pins 20 1 pool (pin_page hash pool 1)
pin_page-Pins_example = pin_page-Pins hash 20 (omega arith) 1 (omega arith) pool pool-Inv pool-more

read_page-pin_page_example :
    (read_page handle (pin_page hash pool 9).0.state ≡ read_page handle pool.state)
    × (read_page handle pool.state ≡ ok (replicate 20 1))
    × ((g : Frame) × IsHeld (pin_page hash pool 9).0.state handle g)
read_page-pin_page_example =
    read_page-pin_page hash 20 9 pool handle frame0 (omega arith) (omega arith) pool-Inv pool-more
      held

modify_page-Touches_example :
    let r = modify_page handle pool.state (replicate 20 5) in
    (r.1 ≡ ok tt)
    × Touches 20 pool handle (record frame0 { bytes = replicate 20 5; is_dirty = true }) r.0
    × (read_page handle r.0 ≡ ok (replicate 20 5))
modify_page-Touches_example =
    modify_page-Touches 20 pool handle frame0 pool-Inv held (replicate 20 5) (length-replicate 20 5)
