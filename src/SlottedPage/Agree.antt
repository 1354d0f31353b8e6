-- ===== src/SlottedPage/Agree.antt =====
-- The methods of part3/slotted_page.rs beside those of project1/page.rs.
use meridian_space_academy_c.Prelude.{
  ℕ, zero, suc, ◌+◌, ◌%◌, ◌^◌, ◌≤◌, ◌<◌, ◌≡◌, ◌∙◌, refl, sym, ap, ◌⊎◌, inl, inr, Option, none, some,
  List, [], ◌∷◌, length, arith,
}
use native.Mathlib.Nat.{add-zero, zero-add}
use native.Mathlib.Decide.{dec_lt}
use mathlib.Core.Path.{fun_ext}
use meridian_space_academy_c.Config.{slot_size}
use meridian_space_academy_c.Result.{Result, ok, ◌>>=◌, >>=-assoc, checked_sub}
use meridian_space_academy_c.Bytes.Buffer.{copy_from_slice}
use meridian_space_academy_c.Page.{Page}
use meridian_space_academy_c.Page
use meridian_space_academy_c.Page.Valid.{IsValid, find_tombstone-first_free}
use meridian_space_academy_c.Page.Insert.{reusable}
use meridian_space_academy_c.SlottedPage.{
  slot_count, set_slot_count, record_region_start, set_record_region_start, range_of, read_slot,
  write_slot, free_space, free_slot_from, find_free_slot, insert, get, delete, collect_live,
  rewrite_live, compact,
}

read_slot-eq : (p : Page) (i : ℕ) → read_slot p i ≡ Page.read_slot p i
unfolding read_slot Page.read_slot range_of Page.index_range
read_slot-eq p i = refl

write_slot-eq : (p : Page) (i o l : ℕ) → write_slot p i o l ≡ Page.write_slot p i o l
unfolding write_slot Page.write_slot
write_slot-eq p i o l = refl

pub get-eq : (p : Page) (i : ℕ) → get p i ≡ Page.get p i
unfolding get Page.get slot_count Page.record_count read_slot Page.read_slot range_of
    Page.index_range
get-eq p i = refl

pub delete-eq : (p : Page) (i : ℕ) → delete p i ≡ Page.delete p i
unfolding delete Page.delete slot_count Page.record_count read_slot Page.read_slot range_of
    Page.index_range write_slot Page.write_slot
delete-eq p i = refl

collect_live-eq : (p : Page) (n i : ℕ) → collect_live p n i ≡ Page.live_records p n i
unfolding collect_live Page.live_records read_slot Page.read_slot range_of Page.index_range
collect_live-eq p zero i = refl
collect_live-eq p (suc n) i = rw (collect_live-eq p n (suc i)) refl

rewrite_live-eq :
    (l : List (ℕ × List ℕ)) (p : Page) (c : ℕ) → rewrite_live l p c ≡ Page.relocate l p c
unfolding rewrite_live Page.relocate write_slot Page.write_slot
rewrite_live-eq [] p c = refl
rewrite_live-eq ((i, bytes) ∷ l) p c = simp (rewrite_live-eq l)

pub compact-eq : (p : Page) → compact p ≡ Page.compact p
unfolding compact Page.compact slot_count Page.record_count set_record_region_start
    Page.set_record_region_offset
compact-eq p = simp (collect_live-eq, rewrite_live-eq)

-- Finding and taking a slot is one loop here and two calls there.
free_slot_from-eq :
    (p : Page) (n i : ℕ)
    → free_slot_from p n i ≡ (Page.find_tombstone p n i >>= λ r. Page.take_slot p r (i + n))
unfolding free_slot_from Page.find_tombstone Page.take_slot set_slot_count Page.set_record_count
free_slot_from-eq p zero i = rw (add-zero i) refl
free_slot_from-eq p (suc n) i = ground (arith, read_slot-eq p i, free_slot_from-eq p n (suc i))

-- What follows once the slot is known.
abbrev finish : List ℕ → Page × ℕ → Result (Page × Option ℕ)
finish bytes x = do
  new_offset ← checked_sub (record_region_start x.0) (length bytes % 2 ^ 16)
  b ← copy_from_slice x.0.data_bytes new_offset bytes
  q1 ← write_slot (record { data_bytes = b }) x.1 new_offset (length bytes % 2 ^ 16)
  q2 ← set_record_region_start q1 new_offset
  ok (q2, some x.1)

finish-place :
    (bytes : List ℕ) (x : Page × ℕ)
    → finish bytes x ≡ (Page.place x.0 x.1 bytes >>= λ q. ok (q, some x.1))
unfolding Page.place write_slot Page.write_slot record_region_start Page.record_region_offset
    set_record_region_start Page.set_record_region_offset
finish-place bytes x = simp >>=-assoc

needed_for-le : (bytes : List ℕ) (r : Option ℕ) → Page.needed_for bytes r ≤ length bytes + slot_size
needed_for-le bytes none = omega arith
needed_for-le bytes (some i) = omega arith

pub free_space-eq : (p : Page) → free_space p ≡ Page.free_space p
unfolding free_space Page.free_space slot_count Page.record_count record_region_start
    Page.record_region_offset
free_space-eq p = refl

module _ (p : Page) (bytes : List ℕ) (v : IsValid p) where
  found : Page.find_tombstone p (Page.record_count p) 0 ≡ ok (reusable p)
  unfolding reusable
  found = find_tombstone-first_free p (Page.record_count p) 0 (omega (arith, v.fits, v.top, v.size))

  find_free_slot-eq : find_free_slot p ≡ Page.take_slot p (reusable p) (Page.record_count p)
  unfolding find_free_slot slot_count Page.record_count
  find_free_slot-eq =
      free_slot_from-eq p (Page.record_count p) 0
      ∙ ap (λ x. x >>= λ r. Page.take_slot p r (0 + Page.record_count p)) found
      ∙ ap (Page.take_slot p (reusable p)) (zero-add (Page.record_count p))

  insert-full : free_space p < length bytes + slot_size → insert p bytes ≡ ok (p, none)
  unfolding insert
  insert-full less = ground arith

  insert-finish :
      length bytes + slot_size ≤ free_space p
      → insert p bytes
        ≡ (Page.take_slot p (reusable p) (Page.record_count p) >>= λ x. finish bytes x)
  unfolding insert
  insert-finish room = rw (← find_free_slot-eq) (ground arith)

  free_space-le : Page.free_space p ≤ 4096
  unfolding Page.free_space
  free_space-le = omega (arith, v.top)

  insert-place :
      length bytes + slot_size ≤ free_space p
      → Page.insert p bytes ≡ (
          Page.take_slot p (reusable p) (Page.record_count p) >>= λ x.
          Page.place x.0 x.1 bytes >>= λ q. ok (q, some x.1))
  unfolding Page.insert
  insert-place room =
      ground (arith, found, free_space-eq p, free_space-le, needed_for-le bytes (reusable p))

  insert-fits : length bytes + slot_size ≤ free_space p → insert p bytes ≡ Page.insert p bytes
  insert-fits room =
      insert-finish room
      ∙ ap (λ f. Page.take_slot p (reusable p) (Page.record_count p) >>= f)
          (fun_ext (finish-place bytes))
      ∙ sym (insert-place room)

-- On a valid page `insert` refuses a record exactly when its bytes and four more do not fit, also
-- where a deleted slot is free, and is project1's `insert` otherwise.
pub insert-eq :
    (p : Page) (bytes : List ℕ)
    → IsValid p
    → ((free_space p < length bytes + slot_size) × (insert p bytes ≡ ok (p, none)))
      ⊎ ((length bytes + slot_size ≤ free_space p) × (insert p bytes ≡ Page.insert p bytes))
insert-eq p bytes v = elim (dec_lt (free_space p) (length bytes + slot_size)) [
  | yes less ↦ inl (less, insert-full p bytes v less)
  | no room ↦ inr (omega arith, insert-fits p bytes v (omega arith))
]
