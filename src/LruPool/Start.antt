-- ===== src/LruPool/Start.antt =====
-- A new pool of part2/buffer_pool.rs.
use meridian_space_academy_c.Prelude.{
  ℕ, zero, suc, ◌≡◌, ◌≢◌, ◌∙◌, refl, sym, ap, subst, some, [], get_elem?, replicate,
  length-replicate, ltb, if◌then◌else◌, arith,
}
use mathlib.Core.Option.{some-injective}
use meridian_space_academy_c.Config.{page_size}
use meridian_space_academy_c.Result.{ok}
use meridian_space_academy_c.PageFile.{PageFile}
use meridian_space_academy_c.LruPool.{Shared, new_frame, indices, new}
use meridian_space_academy_c.LruPool.Table.{lookup}
use meridian_space_academy_c.LruPool.Order.{indices-IsOrder}
use meridian_space_academy_c.LruPool.Invariant.{Inv, FrameOk}

get_elem?-replicate :
    {A : Type 0} (n i : ℕ) (a b : A) → get_elem? (replicate n a) i ≡ some b → a ≡ b
unfolding replicate
get_elem?-replicate zero i a b e = ground (arith, e)
get_elem?-replicate (suc n) zero a b e = some-injective a b e
get_elem?-replicate (suc n) (suc i) a b e = get_elem?-replicate n i a b e

new_frame-FrameOk : FrameOk page_size new_frame
unfolding new_frame
new_frame-FrameOk = record {
  room = length-replicate page_size 0;
  addressed = λ k e. ground (arith, e);
}

-- A pool of at least one frame over a file of pages of the pool's size is made without a panic, and
-- is sound: no page is in it, and its order has every frame once.
pub new-Inv :
    (n : ℕ) (pf : PageFile)
    → n ≢ 0
    → pf.page_size ≡ page_size
    → (p : Shared) × (new n pf ≡ ok p) × (p.page_file ≡ pf) × Inv page_size p
unfolding new lookup
new-Inv n pf ne size = (
  record {
    state = record { frames = replicate n new_frame; page_table = []; lru_list = indices n 0 };
    page_file = pf;
  },
  ground (arith, ne),
  refl,
  record {
    size = size;
    frame_ok = λ i f e.
        subst (FrameOk page_size) (get_elem?-replicate n i new_frame f e) new_frame-FrameOk;
    cached = λ k i e. ground (arith, e);
    order = λ j.
        indices-IsOrder n j
        ∙ ap (λ m. if ltb j m then 1 else 0) (sym (length-replicate n new_frame));
  },
)
