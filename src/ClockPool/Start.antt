-- ===== src/ClockPool/Start.antt =====
-- A new buffer pool of project1/buffer_pool.rs.
use meridian_space_academy_c.Prelude.{
  ℕ, zero, suc, ◌<◌, ◌≡◌, ◌≢◌, refl, ap, none, some, [], length-replicate, get_elem?, replicate,
  arith,
}
use meridian_space_academy_c.Result.{ok}
use meridian_space_academy_c.PageStore.{PageId, lookup}
use meridian_space_academy_c.ClockPool.{Frame, BufferPoolShared, empty_frame, new}
use meridian_space_academy_c.ClockPool.Invariant.{Shown, IsSound, page_of}
use meridian_space_academy_c.ClockPool.Fetch.{FewPins}

get_elem?-replicate {ℓ} :
    {A : Type ℓ} (n i : ℕ) (x y : A) → get_elem? (replicate n x) i ≡ some y → x ≡ y
unfolding replicate
get_elem?-replicate zero i x y e = cc
get_elem?-replicate (suc n) zero x y e = ground (arith, e)
get_elem?-replicate (suc n) (suc i) x y e = get_elem?-replicate n i x y e

abbrev pool_of : {S : Type 0} → ℕ → S → BufferPoolShared S
pool_of capacity store = record {
  store = store;
  inner = record {
    frames = replicate capacity empty_frame;
    page_table = [];
    clock_hand = 0;
    stats = record { hits = 0; misses = 0; evictions = 0; clock_second_chances = 0 };
  };
}

module _ {S : Type 0} (shown : Shown S) where
  pub record Started (store : S) (p : BufferPoolShared S) : Type 0 where
    pub sound : IsSound shown p
    pub few : FewPins p.inner
    pub view : (q : PageId) → page_of shown p q ≡ shown.contents store q

  -- A pool of at least one frame is made without a panic. It is sound, no pin count is near its
  -- end, and its readers see the pages of the store.
  pub new-Started :
      (capacity : ℕ) (store : S)
      → 0 < capacity
      → (p : BufferPoolShared S) × (new capacity store ≡ ok p) × Started store p
  unfolding new page_of lookup empty_frame
  new-Started zero store lt = elim lt [ ]
  new-Started (suc n) store lt = (
    pool_of (suc n) store,
    ground arith,
    record {
      sound = record {
        hand = omega (arith, length-replicate (suc n) empty_frame);
        used = λ i f e. omega (
          arith,
          ap (λ (x : Frame). x.usage_count) (get_elem?-replicate (suc n) i empty_frame f e),
        );
        cached = λ id i e. cc;
        mapped = λ i f id e page. absurd (unused (suc n) i f id e page);
        clean = λ i f id e page. absurd (unused (suc n) i f id e page);
      };
      few = λ i f e.
          omega (
            arith,
            ap (λ (x : Frame). x.pin_count) (get_elem?-replicate (suc n) i empty_frame f e),
          );
      view = λ q. refl;
    },
  )
    where
      unused :
          (n i : ℕ) (f : Frame) (id : PageId)
          → get_elem? (replicate n empty_frame) i ≡ some f
          → f.page_id ≢ some id
      unused n i f id e page =
          let free : none ≡ f.page_id =
            ap (λ (x : Frame). x.page_id) (get_elem?-replicate n i empty_frame f e) in
          ground (arith, free, page)
