-- ===== src/LruPool/Invariant.antt =====
-- The states of the pool of part2/buffer_pool.rs, and changes of a frame or of the table.
use meridian_space_academy_c.Prelude.{
  ℕ, ◌*◌, ◌^◌, ◌≤◌, ◌<◌, ◌≡◌, ◌≢◌, ◌∙◌, ◌⊎◌, inl, inr, refl, sym, ap, subst, some, List, ◌∷◌,
  length, length-set, get_elem?, set, get_elem?-set_self, get_elem?-set_ne, get_elem?-set_cases,
  lt_of_get_elem?, ltb, if◌then◌else◌, arith,
}
use mathlib.Core.Option.{some-injective}
use native.Mathlib.Decide.{ℕ_discrete}
use meridian_space_academy_c.Result.{Result, ok, err, Error}
use meridian_space_academy_c.PageFile.{PageFile}
use meridian_space_academy_c.LruPool.{Frame, State, Shared, with_frame, unmapped}
use meridian_space_academy_c.LruPool.Table.{lookup, remove, insert, lookup-remove, lookup-insert}
use meridian_space_academy_c.LruPool.Order.{IsOrder}

-- The page numbers whose offset in the file is below 2 ^ 64. With pages of 4096 bytes all of `u32` are.
abbrev pub Addressed : ℕ → ℕ → Type 0
Addressed ps k = k * ps < 2 ^ 64

abbrev pub AddressedAt : ℕ → ℕ → Type 0
AddressedAt k ps = Addressed ps k

-- A frame has the bytes of a page, and the number of one.
pub record FrameOk (ps : ℕ) (f : Frame) : Type 0 where
  pub room : length f.bytes ≡ ps
  pub addressed : (k : ℕ) → f.page_id ≡ some k → Addressed ps k

-- The pages of the table are in their frames, and the order has every frame once.
pub record Inv (ps : ℕ) (p : Shared) : Type 0 where
  pub size : p.page_file.page_size ≡ ps
  pub frame_ok : (i : ℕ) (f : Frame) → get_elem? p.state.frames i ≡ some f → FrameOk ps f
  pub cached :
      (k i : ℕ)
      → lookup k p.state.page_table ≡ some i
      → (f : Frame) × (get_elem? p.state.frames i ≡ some f) × (f.page_id ≡ some k)
  pub order : IsOrder (length p.state.frames) p.state.lru_list

-- A pinned frame keeps its page and its bytes, and loses no pin.
abbrev pub PinsKept : List Frame → List Frame → Type 0
PinsKept fs gs =
    (i : ℕ) (f : Frame)
    → get_elem? fs i ≡ some f
    → f.pin_count ≢ 0
    → (g : Frame) × (get_elem? gs i ≡ some g)
      × (g.page_id ≡ f.page_id)
      × (g.bytes ≡ f.bytes)
      × (f.pin_count ≤ g.pin_count)

-- The page is in the frame `i`, pinned, and the frame is the one used last.
abbrev pub IsPinnedAt : State → ℕ → ℕ → Type 0
IsPinnedAt s k i =
    ((f : Frame) × (get_elem? s.frames i ≡ some f) × (f.page_id ≡ some k) × (f.pin_count ≢ 0))
    × (lookup k s.page_table ≡ some i)
    × ((l : List ℕ) × (s.lru_list ≡ i ∷ l))

-- What a call that pins the page `k` does.
pub record Pins (ps k : ℕ) (p : Shared) (x : Shared × Result ℕ) : Type 0 where
  pub inv : Inv ps x.0
  pub kept : PinsKept p.state.frames x.0.state.frames
  pub answer : ((i : ℕ) × (x.1 ≡ ok i) × IsPinnedAt x.0.state k i) ⊎ ((e : Error) × (x.1 ≡ err e))

-- A frame changes, with the table and the order.
pub Inv-change :
    (ps : ℕ) (p : Shared) (i : ℕ) (f g : Frame) (t : List (ℕ × ℕ)) (l : List ℕ) (pf : PageFile)
    → Inv ps p
    → get_elem? p.state.frames i ≡ some f
    → pf.page_size ≡ ps
    → FrameOk ps g
    → IsOrder (length p.state.frames) l
    → ((k j : ℕ)
        → lookup k t ≡ some j
        → ((i ≡ j) × (g.page_id ≡ some k)) ⊎ ((i ≢ j) × (lookup k p.state.page_table ≡ some j)))
    → Inv ps (record {
      state = record { frames = set p.state.frames i g; page_table = t; lru_list = l };
      page_file = pf;
    })
Inv-change ps p i f g t l pf inv at size good order table =
    let lt = lt_of_get_elem? p.state.frames i f at in
    record {
      size = size;
      frame_ok = λ j h e. elim (get_elem?-set_cases p.state.frames i j g h lt e) [
        | inl (same, e') ↦ subst (FrameOk ps) e' good
        | inr (ne, e') ↦ inv.frame_ok j h e'
      ];
      cached = λ k j e. elim (table k j e) [
        | inl (same, e') ↦ (
          g,
          subst (λ m. get_elem? (set p.state.frames i g) m ≡ some g) same
              (get_elem?-set_self p.state.frames i g lt),
          e',
        )
        | inr (ne, e') ↦
            let (h, there, id) = inv.cached k j e' in
            (h, get_elem?-set_ne p.state.frames i j g ne ∙ there, id)
      ];
      order =
          λ j. order j ∙ ap (λ n. if ltb j n then 1 else 0) (sym (length-set p.state.frames i g));
    }

pub lookup_left :
    (old q j : ℕ) (t : List (ℕ × ℕ))
    → lookup q (remove old t) ≡ some j
    → (old ≢ q) × (lookup q t ≡ some j)
lookup_left old q j t e = elim (ℕ_discrete old q) [
  | yes same ↦ ground (arith, e, same, lookup-remove old q t)
  | no ne ↦ (ne, ground (arith, e, ne, lookup-remove old q t))
]

pub lookup_added :
    (k i q j : ℕ) (t : List (ℕ × ℕ))
    → lookup q (insert k i t) ≡ some j
    → ((k ≡ q) × (i ≡ j)) ⊎ (lookup q t ≡ some j)
lookup_added k i q j t e = elim (ℕ_discrete k q) [
  | yes same ↦ inl (same, ground (arith, e, same, lookup-insert k q i t))
  | no ne ↦ inr (ground (arith, e, ne, lookup-insert k q i t))
]

pub same_frame :
    (fs : List Frame) (i j : ℕ) (f h : Frame)
    → get_elem? fs i ≡ some f
    → get_elem? fs j ≡ some h
    → i ≡ j
    → f ≡ h
same_frame fs i j f h at there same =
    some-injective f h (sym (subst (λ m. get_elem? fs m ≡ some f) same at) ∙ there)

-- A page of the table is the one of the frame `i`, or is in another frame.
pub cached_cases :
    (ps : ℕ) (p : Shared) (i : ℕ) (f : Frame)
    → Inv ps p
    → get_elem? p.state.frames i ≡ some f
    → (q j : ℕ) → lookup q p.state.page_table ≡ some j
    → ((i ≡ j) × (f.page_id ≡ some q)) ⊎ ((i ≢ j) × (lookup q p.state.page_table ≡ some j))
cached_cases ps p i f inv at q j e = elim (ℕ_discrete i j) [
  | no ne ↦ inr (ne, e)
  | yes same ↦
      let (h, there, id) = inv.cached q j e in
      inl (same, ap (λ x. x.page_id) (same_frame p.state.frames i j f h at there same) ∙ id)
]

-- The bytes of a frame change.
pub Inv-bytes :
    (ps : ℕ) (p : Shared) (i : ℕ) (f : Frame) (b : List ℕ) (pf : PageFile)
    → Inv ps p
    → get_elem? p.state.frames i ≡ some f
    → pf.page_size ≡ ps
    → length b ≡ ps
    → Inv ps (record { state = with_frame p.state i (record f { bytes = b }); page_file = pf })
Inv-bytes ps p i f b pf inv at size room =
    Inv-change ps p i f (record f { bytes = b }) p.state.page_table p.state.lru_list pf inv at size
      (record { room = room; addressed = (inv.frame_ok i f at).addressed }) inv.order
      (cached_cases ps p i f inv at)

-- A page leaves the table.
pub Inv-unmapped :
    (ps : ℕ) (s : State) (pf : PageFile) (old : ℕ)
    → Inv ps (record { state = s; page_file = pf })
    → Inv ps (record { state = unmapped s old; page_file = pf })
Inv-unmapped ps s pf old inv = record {
  size = inv.size;
  frame_ok = inv.frame_ok;
  cached = λ q j e. inv.cached q j ((lookup_left old q j s.page_table e).1);
  order = inv.order;
}

pub PinsKept-set :
    (fs : List Frame) (i : ℕ) (f g : Frame)
    → get_elem? fs i ≡ some f
    → f.pin_count ≡ 0
    → PinsKept fs (set fs i g)
PinsKept-set fs i f g at free j h e pinned = elim (ℕ_discrete i j) [
  | yes same ↦ absurd (
      pinned (
        ap (λ x. x.pin_count)
          (some-injective h f (sym e ∙ subst (λ m. get_elem? fs m ≡ some f) same at))
        ∙ free))
  | no ne ↦ (h, get_elem?-set_ne fs i j g ne ∙ e, refl, refl, omega arith)
]
