-- ===== src/LruPool/Handles.antt =====
-- The handles of part2/page_handle.rs.
use meridian_space_academy_c.Prelude.{
  ℕ, ◌+◌, ◌-◌, ◌^◌, ◌≤◌, ◌<◌, ◌≡◌, ◌≢◌, ◌∙◌, inl, inr, refl, sym, ap, true, some, List, length,
  get_elem?, get_elem?-set_self, get_elem?-set_ne, lt_of_get_elem?, ltb, arith,
}
use meridian_space_academy_c.Result.{ok}
use meridian_space_academy_c.LruPool.{
  Frame, State, Shared, PageHandle, with_frame, pin_page, is_current, read_page, modify_page, unpin,
}
use meridian_space_academy_c.LruPool.Invariant.{Inv, Inv-change, cached_cases, Addressed}
use meridian_space_academy_c.LruPool.Pin.{pin_page-Pins}

-- The handle's page is in its frame, which is pinned.
abbrev pub IsHeld : State → PageHandle → Frame → Type 0
IsHeld s h f =
    (get_elem? s.frames h.frame_index ≡ some f) × (f.page_id ≡ some h.page_id) × (f.pin_count ≢ 0)

read_page-bytes :
    (h : PageHandle) (s : State) (f : Frame)
    → get_elem? s.frames h.frame_index ≡ some f
    → f.page_id ≡ some h.page_id
    → read_page h s ≡ ok f.bytes
unfolding read_page is_current
read_page-bytes h s f at has = rw (at, read_page) (rw (has, is_current) (ground arith))

-- In a sound pool whose pins can grow, a handle reads the same bytes before and after any page is
-- pinned, whatever was evicted and whatever the system refused, and still holds its page.
pub read_page-pin_page :
    (hash : List ℕ → ℕ) (ps k : ℕ) (p : Shared) (h : PageHandle) (f : Frame)
    → 17 ≤ ps
    → Addressed ps k
    → Inv ps p
    → ((i : ℕ) (g : Frame) → get_elem? p.state.frames i ≡ some g → g.pin_count + 1 < 2 ^ 32)
    → IsHeld p.state h f
    → let p' = (pin_page hash p k).0 in
      (read_page h p'.state ≡ read_page h p.state)
      × (read_page h p.state ≡ ok f.bytes)
      × ((g : Frame) × IsHeld p'.state h g)
read_page-pin_page hash ps k p h f long fits inv more (at, has, pinned) =
    let r = pin_page-Pins hash ps long k fits p inv more in
    let (g, at', id, bytes, le) = r.kept h.frame_index f at pinned in
    let before = read_page-bytes h p.state f at has in
    (
      read_page-bytes h (pin_page hash p k).0.state g at' (id ∙ has) ∙ ap ok bytes ∙ sym before,
      before,
      (g, (at', id ∙ has, (λ z. pinned (omega (arith, le, z))))),
    )

-- What becomes of the pool when the frame of a handle becomes `g`.
pub record Touches (ps : ℕ) (p : Shared) (h : PageHandle) (g : Frame) (s : State) : Type 0 where
  pub inv : Inv ps (record p { state = s })
  pub frame : get_elem? s.frames h.frame_index ≡ some g
  pub others : (i : ℕ) → h.frame_index ≢ i → get_elem? s.frames i ≡ get_elem? p.state.frames i

Touches-frame :
    (ps : ℕ) (p : Shared) (h : PageHandle) (f g : Frame)
    → Inv ps p
    → get_elem? p.state.frames h.frame_index ≡ some f
    → g.page_id ≡ f.page_id
    → length g.bytes ≡ ps
    → Touches ps p h g (with_frame p.state h.frame_index g)
Touches-frame ps p h f g inv at same room = record {
  inv =
      Inv-change ps p h.frame_index f g p.state.page_table p.state.lru_list p.page_file inv at
        inv.size
        (record {
          room = room;
          addressed = λ k e. (inv.frame_ok h.frame_index f at).addressed k (sym same ∙ e);
        })
        inv.order
        (λ q j e. elim (cached_cases ps p h.frame_index f inv at q j e) [
          | inl (here, id) ↦ inl (here, same ∙ id)
          | inr there ↦ inr there
        ]);
  frame =
      get_elem?-set_self p.state.frames h.frame_index g
        (lt_of_get_elem? p.state.frames h.frame_index f at);
  others = λ i ne. get_elem?-set_ne p.state.frames h.frame_index i g ne;
}

module _ (ps : ℕ) (p : Shared) (h : PageHandle) (f : Frame) (inv : Inv ps p)
    (held : IsHeld p.state h f) where
  -- Modifying the page of a held handle keeps a sound pool sound, marks the frame dirty, and changes
  -- no other frame; the handle then reads the new bytes.
  pub modify_page-Touches :
      (bytes : List ℕ)
      → length bytes ≡ ps
      → let r = modify_page h p.state bytes in
        (r.1 ≡ ok tt)
        × Touches ps p h (record f { bytes = bytes; is_dirty = true }) r.0
        × (read_page h r.0 ≡ ok bytes)
  unfolding modify_page is_current
  modify_page-Touches bytes room =
      let (at, has, pinned) = held in
      let t =
        Touches-frame ps p h f (record f { bytes = bytes; is_dirty = true }) inv at refl room in
      let current : is_current h f.page_id ≡ true = rw has (ground arith) in
      rw (at, modify_page)
        (rw (current, modify_page)
          (
            refl,
            t,
            read_page-bytes h
                (with_frame p.state h.frame_index (record f { bytes = bytes; is_dirty = true })) _
                t.frame has,
          ))

  -- Dropping a held handle takes one pin from its frame, keeps a sound pool sound and changes
  -- nothing else.
  pub unpin-Touches :
      let r = unpin h p.state in
      (r.1 ≡ ok tt) × Touches ps p h (record f { pin_count = f.pin_count - 1 }) r.0
  unfolding unpin is_current
  unpin-Touches =
      let (at, has, pinned) = held in
      let t =
        Touches-frame ps p h f (record f { pin_count = f.pin_count - 1 }) inv at refl
          (inv.frame_ok h.frame_index f at).room in
      let current : is_current h f.page_id ≡ true = rw has (ground arith) in
      let more : ltb 0 f.pin_count ≡ true = ground (arith, pinned) in
      rw (at, unpin) (rw (current, more, unpin) (refl, t))
