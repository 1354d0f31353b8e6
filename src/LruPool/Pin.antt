-- ===== src/LruPool/Pin.antt =====
-- Pinning a page in the pool of part2/buffer_pool.rs.
use meridian_space_academy_c.Prelude.{
  ℕ, ◌+◌, ◌^◌, ◌≤◌, ◌<◌, ◌≡◌, ◌≢◌, ◌∙◌, inl, inr, refl, sym, ap, subst, true, false, some, List,
  length, get_elem?, set, get_elem?-set_self, get_elem?-set_ne, get_elem?-lt, lt_of_get_elem?,
  lt→ltb, arith, Option-cases, Bool-cases,
}
use mathlib.Core.Option.{some-injective}
use native.Mathlib.Decide.{ℕ_discrete}
use meridian_space_academy_c.Result.{err, panic, case_reply}
use meridian_space_academy_c.PageFile.{PageFile, read_and_verify_page, write_page_with_checksum}
use meridian_space_academy_c.PageFile.Total.{
  read_and_verify_page-Answers, write_page_with_checksum-Answers,
}
use meridian_space_academy_c.LruPool.{
  Frame, State, Shared, move_to_front, with_frame, pin_hit, load, unmapped, evict, pin_page,
}
use meridian_space_academy_c.LruPool.Table.{lookup, insert, lookup-insert}
use meridian_space_academy_c.LruPool.Order.{
  Has-below, move_to_front-IsOrder, find_evict_target-Target,
}
use meridian_space_academy_c.LruPool.Invariant.{
  Addressed, AddressedAt, Inv, PinsKept, Pins, Inv-change, lookup_left, lookup_added, same_frame,
  cached_cases, Inv-bytes, Inv-unmapped, PinsKept-set,
}

module _ (hash : List ℕ → ℕ) (ps : ℕ) (long : 17 ≤ ps) (k : ℕ) (addressed : Addressed ps k) where
  module _ (pf : PageFile) (s : State) (i : ℕ) (f : Frame)
      (inv : Inv ps (record { state = s; page_file = pf })) (at : get_elem? s.frames i ≡ some f)
      (free : f.pin_count ≡ 0) (alone : (q : ℕ) → lookup q s.page_table ≢ some i) where
    elsewhere : (q j : ℕ) → lookup q s.page_table ≡ some j → i ≢ j
    elsewhere q j e same = alone q (e ∙ ap some (sym same))

    load-Pins : Pins ps k (record { state = s; page_file = pf }) (load hash pf s i f k)
    unfolding load
    load-Pins =
        let x = read_and_verify_page hash pf k f.bytes in
        let ok_f = inv.frame_ok i f at in
        let lt = lt_of_get_elem? s.frames i f at in
        let ((size, room), how) =
          read_and_verify_page-Answers pf k (subst (AddressedAt k) (sym inv.size) addressed) hash
            (omega (arith, inv.size)) f.bytes (ok_f.room ∙ sym inv.size) in
        elim how [
          | inl e ↦
              let g : Frame = record f {
                page_id = some k;
                bytes = x.0.1;
                pin_count = 1;
                is_dirty = false;
              } in
              rw (e, load)
                (record {
                  inv =
                      Inv-change ps (record { state = s; page_file = pf }) i f g
                        (insert k i s.page_table) (move_to_front i s.lru_list) x.0.0 inv at
                        (size ∙ inv.size)
                        (record {
                          room = room ∙ inv.size;
                          addressed =
                              λ j same. subst (Addressed ps) (some-injective k j same) addressed;
                        })
                        (move_to_front-IsOrder (length s.frames) i s.lru_list lt inv.order)
                        (λ q j e'. elim (lookup_added k i q j s.page_table e') [
                          | inl (same, here) ↦ inl (here, ap some same)
                          | inr there ↦ inr (elsewhere q j there, there)
                        ]);
                  kept = PinsKept-set s.frames i f g at free;
                  answer = inl (
                    i,
                    refl,
                    (
                      (g, get_elem?-set_self s.frames i g lt, refl, (λ z. ground (arith, z))),
                      ground (arith, lookup-insert k k i s.page_table),
                      (_, refl),
                    ),
                  );
                })
          | inr (c, e) ↦
              let g : Frame = record f { bytes = x.0.1 } in
              rw (e, load)
                (record {
                  inv =
                      Inv-bytes ps (record { state = s; page_file = pf }) i f x.0.1 x.0.0 inv at
                        (size ∙ inv.size) (room ∙ inv.size);
                  kept = PinsKept-set s.frames i f g at free;
                  answer = inr (c, refl);
                })
        ]

  -- The page `old` of the frame is taken out of the table first.
  module _ (pf : PageFile) (s : State) (i old : ℕ) (f : Frame)
      (inv : Inv ps (record { state = s; page_file = pf })) (at : get_elem? s.frames i ≡ some f)
      (free : f.pin_count ≡ 0) (has : f.page_id ≡ some old) where
    alone : (q : ℕ) → lookup q (unmapped s old).page_table ≢ some i
    alone q e =
        let (ne, e') = lookup_left old q i s.page_table e in
        let (h, there, id) = inv.cached q i e' in
        ne (
          some-injective old q
            (sym has ∙ ap (λ x. x.page_id) (some-injective f h (sym at ∙ there)) ∙ id))

    load-unmapped-Pins :
        Pins ps k (record { state = s; page_file = pf }) (load hash pf (unmapped s old) i f k)
    load-unmapped-Pins =
        let r = load-Pins pf (unmapped s old) i f (Inv-unmapped ps s pf old inv) at free alone in
        record { inv = r.inv; kept = r.kept; answer = r.answer }

  PinsKept-trans : (fs gs hs : List Frame) → PinsKept fs gs → PinsKept gs hs → PinsKept fs hs
  PinsKept-trans fs gs hs m n i f e pinned =
      let (g, eg, id, bs, le) = m i f e pinned in
      let (h, eh, id', bs', le') = n i g eg (λ z. pinned (omega (arith, le, z))) in
      (h, eh, id' ∙ id, bs' ∙ bs, omega (arith, le, le'))

  module _ (p : Shared) (i : ℕ) (f : Frame) (inv : Inv ps p)
      (at : get_elem? p.state.frames i ≡ some f) (free : f.pin_count ≡ 0) where
    written_back :
        (old : ℕ)
        → f.page_id ≡ some old
        → f.is_dirty ≡ true
        → evict hash p.page_file p.state i f k
          ≡ case_reply
              (write_page_with_checksum hash p.page_file old f.bytes)
              (λ x _.
                let f' = record f { bytes = x.1 } in
                load hash x.0 (unmapped (with_frame p.state i f') old) i f' k)
              (λ x e. (
                record { page_file = x.0; state = with_frame p.state i (record f { bytes = x.1 }) },
                err e,
              ))
              (λ x. (record { page_file = x.0; state = p.state }, panic))
    unfolding evict
    written_back old has dirty = rw (has, dirty) refl

    let_go :
        (old : ℕ)
        → f.page_id ≡ some old
        → f.is_dirty ≡ false
        → evict hash p.page_file p.state i f k ≡ load hash p.page_file (unmapped p.state old) i f k
    unfolding evict
    let_go old has clean = rw (has, clean) refl

    evict-Pins : Pins ps k p (evict hash p.page_file p.state i f k)
    unfolding evict
    evict-Pins = elim (Option-cases f.page_id) [
      | inl bare ↦
          rw (bare, evict)
            (load-Pins p.page_file p.state i f inv at free (λ q e.
              let (h, there, id) = inv.cached q i e in
              ground
                (arith, sym bare ∙ ap (λ x. x.page_id) (some-injective f h (sym at ∙ there)) ∙ id)))
      | inr (old, has) ↦ elim (Bool-cases f.is_dirty) [
        | inr clean ↦
            rw (let_go old has clean)
              (load-unmapped-Pins p.page_file p.state i old f inv at free has)
        | inl dirty ↦
            let x = write_page_with_checksum hash p.page_file old f.bytes in
            let ((size, room), how) =
              write_page_with_checksum-Answers p.page_file old
                (subst (AddressedAt old) (sym inv.size) ((inv.frame_ok i f at).addressed old has))
                hash (omega (arith, inv.size)) f.bytes
                ((inv.frame_ok i f at).room ∙ sym inv.size) in
            let inv' = Inv-bytes ps p i f x.0.1 x.0.0 inv at (size ∙ inv.size) (room ∙ inv.size) in
            let f' : Frame = record f { bytes = x.0.1 } in
            elim how [
              | inl e ↦
                  let r =
                    load-unmapped-Pins x.0.0 (with_frame p.state i f') i old f' inv'
                      (get_elem?-set_self p.state.frames i f'
                        (lt_of_get_elem? p.state.frames i f at))
                      free has in
                  rw (written_back old has dirty, e, case_reply)
                    (record {
                      inv = r.inv;
                      kept =
                          PinsKept-trans _ _ _ (PinsKept-set p.state.frames i f f' at free) r.kept;
                      answer = r.answer;
                    })
              | inr (c, e) ↦
                  rw (written_back old has dirty, e, case_reply)
                    (record {
                      inv = inv';
                      kept = PinsKept-set p.state.frames i f f' at free;
                      answer = inr (c, refl);
                    })
            ]
      ]
    ]

  pin_hit-Pins :
      (p : Shared) (i : ℕ) (f : Frame)
      → Inv ps p
      → get_elem? p.state.frames i ≡ some f
      → f.page_id ≡ some k
      → lookup k p.state.page_table ≡ some i
      → f.pin_count + 1 < 2 ^ 32
      → Pins ps k p (pin_hit p i f)
  unfolding pin_hit
  pin_hit-Pins p i f inv at has found more =
      let g : Frame = record f { pin_count = f.pin_count + 1 } in
      let lt = lt_of_get_elem? p.state.frames i f at in
      rw (lt→ltb (f.pin_count + 1) (2 ^ 32) more) (record {
        inv =
            Inv-change ps p i f g p.state.page_table (move_to_front i p.state.lru_list) p.page_file
              inv at inv.size
              (record {
                room = (inv.frame_ok i f at).room;
                addressed = (inv.frame_ok i f at).addressed;
              })
              (move_to_front-IsOrder (length p.state.frames) i p.state.lru_list lt inv.order)
              (cached_cases ps p i f inv at);
        kept = λ j h e pinned. elim (ℕ_discrete i j) [
          | yes same ↦
              let fh = same_frame p.state.frames i j f h at e same in
              (
                g,
                subst (λ m. get_elem? (set p.state.frames i g) m ≡ some g) same
                    (get_elem?-set_self p.state.frames i g lt),
                ap (λ x. x.page_id) fh,
                ap (λ x. x.bytes) fh,
                omega (arith, ap (λ x. x.pin_count) fh),
              )
          | no ne ↦ (h, get_elem?-set_ne p.state.frames i j g ne ∙ e, refl, refl, omega arith)
        ];
        answer = inl (
          i,
          refl,
          (
            (g, get_elem?-set_self p.state.frames i g lt, has, (λ z. omega (arith, z))),
            found,
            (_, refl),
          ),
        );
      })

  -- In a sound pool whose pins can grow, with pages of at least 17 bytes and a page number whose offset
  -- fits 64 bits, `pin_page` never panics, whatever the system refuses. It keeps the pool sound and
  -- the page, the bytes and the pins of every pinned frame, and gives an error or a frame that has the
  -- page, is pinned and is the one used last.
  pub pin_page-Pins :
      (p : Shared)
      → Inv ps p
      → ((i : ℕ) (f : Frame) → get_elem? p.state.frames i ≡ some f → f.pin_count + 1 < 2 ^ 32)
      → Pins ps k p (pin_page hash p k)
  unfolding pin_page
  pin_page-Pins p inv more = elim (Option-cases (lookup k p.state.page_table)) [
    | inr (i, found) ↦
        let (f, at, has) = inv.cached k i found in
        rw (found, at, pin_page) (pin_hit-Pins p i f inv at has found (more i f at))
    | inl missing ↦
        elim (find_evict_target-Target p.state.frames p.state.lru_list (λ i h.
          get_elem?-lt p.state.frames i
            (Has-below (length p.state.frames) i p.state.lru_list inv.order h))) [
              | inl (i, xs, ys, e, l, (f, at, free), rest) ↦
                  rw (missing, e, at, pin_page) (evict-Pins p i f inv at free)
              | inr (e, full) ↦
                  rw (missing, e, pin_page)
                    (record {
                      inv = inv;
                      kept = λ j h e' pinned. (h, e', refl, refl, omega arith);
                      answer = inr (_, refl);
                    })
            ]
  ]
