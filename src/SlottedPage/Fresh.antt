-- ===== src/SlottedPage/Fresh.antt =====
-- A page made by `SlottedPage::new` of part3/slotted_page.rs, and what calls make of it.
use meridian_space_academy_c.Prelude.{
  ℕ, ◌-◌, ◌^◌, ◌<◌, ◌≡◌, ◌∙◌, refl, sym, ap, inl, inr, none, List, [], ◌∷◌, length-replicate,
  replicate, arith,
}
use meridian_space_academy_c.Config.{page_size, page_header_size}
use meridian_space_academy_c.Result.{Result, ok, ◌>>=◌}
use meridian_space_academy_c.Bytes.Slice.{slice}
use meridian_space_academy_c.Bytes.Word.{from_le_bytes}
use meridian_space_academy_c.Header.{records}
use meridian_space_academy_c.Header.RoundTrip.{
  IsHeader, deserialize-Reads, deserialize-serialize_header,
}
use meridian_space_academy_c.PageFile
use meridian_space_academy_c.PageFile.{serialize-eq}
use meridian_space_academy_c.Page.{Page, record_count, record_region_offset}
use meridian_space_academy_c.Page
use meridian_space_academy_c.Page.Valid.{live_total, IsValid}
use meridian_space_academy_c.Page.Insert.{insert-Inserted}
use meridian_space_academy_c.Page.Delete.{delete-Deleted}
use meridian_space_academy_c.Page.Compact.{Compacted, compact-Compacted}
use meridian_space_academy_c.SlottedPage.{
  SlottedPage, new, slot_count, record_region_start, free_space, insert, delete, compact,
}
use meridian_space_academy_c.SlottedPage.Agree.{delete-eq, compact-eq, insert-eq, free_space-eq}

-- A page that `new` made.
pub record New (p : Page) : Type 0 where
  pub valid : IsValid p
  pub empty : record_count p ≡ 0
  pub start : record_region_offset p ≡ page_header_size

pub new-New : (n : ℕ) → n < 256 ^ 4 → (p : Page) × (new n ≡ ok p) × New p
unfolding new record_count record_region_offset PageFile.new
new-New n small =
    let h = PageFile.new n records in
    let zeroed : List ℕ = replicate page_size 0 in
    let v : IsHeader h = record {
      magic = refl;
      page_no = small;
      record_count = omega arith;
      free_space_offset = omega arith;
      checksum = omega arith;
    } in
    let (b, e, d, size, _) =
      deserialize-serialize_header h zeroed v
        (omega (arith, length-replicate {A = ℕ} page_size 0)) in
    let r = deserialize-Reads b h d in
    let counts : from_le_bytes (slice b 9 2) ≡ 0 = sym (ap (λ x. x.record_count) r.fields) in
    let offsets : from_le_bytes (slice b 11 2) ≡ page_header_size =
      sym (ap (λ x. x.free_space_offset) r.fields) in
    (
      record { data_bytes = b },
      rw (serialize-eq, e) refl,
      record {
        valid = record {
          size = size ∙ length-replicate page_size 0;
          fits = rw (counts, offsets) (omega arith);
          top = rw offsets (omega arith);
          slots = λ i lt. absurd (ground (arith, counts));
          room = rw (counts, offsets) (unfold live_total in omega arith);
        };
        empty = counts;
        start = offsets;
      },
    )

New-free_space : (p : Page) → New p → free_space p ≡ 0
unfolding free_space slot_count record_region_start record_count record_region_offset
New-free_space p v = omega (arith, v.empty, v.start)

Compacted-free : (p q : Page) → New p → Compacted p q → free_space q ≡ page_size - page_header_size
unfolding Page.free_space live_total
Compacted-free p q v c =
    let none_left : record_count q ≡ 0 = c.count ∙ v.empty in
    let tight = rw none_left at c.tight in free_space-eq q ∙ omega (arith, none_left, tight)

-- What becomes of a new page: it is full, and compacting it makes all but the header free.
pub record Unusable (p : SlottedPage) : Type 0 where
  pub refuses : (bytes : List ℕ) → insert p bytes ≡ ok (p, none)
  pub compacted :
      (q : SlottedPage) × (compact p ≡ ok q) × (free_space q ≡ page_size - page_header_size)

-- A page made by `new` with any number that fits 32 bits refuses every record, even an empty one,
-- until it is compacted; then all bytes behind the header are free.
pub new-Unusable : (n : ℕ) → n < 256 ^ 4 → (p : SlottedPage) × (new n ≡ ok p) × Unusable p
new-Unusable n small =
    let (p, e, v) = new-New n small in
    let (q, e', c) = compact-Compacted p v.valid in
    (
      p,
      e,
      record {
        refuses = λ bytes. elim (insert-eq p bytes v.valid) [
          | inl (_, full) ↦ full
          | inr (room, _) ↦ absurd (omega (arith, room, New-free_space p v))
        ];
        compacted = (q, compact-eq p ∙ e', Compacted-free p q v c);
      },
    )

pub data Call : Type 0 where
  inserts : List ℕ → Call
  deletes : ℕ → Call
  compacts : Call

unfoldable pub step : SlottedPage → Call → Result SlottedPage
step p (inserts bytes) = insert p bytes >>= λ r. ok r.0
step p (deletes i) = delete p i >>= λ r. ok r.0
step p compacts = compact p

unfoldable pub run : SlottedPage → List Call → Result SlottedPage
run p [] = ok p
run p (c ∷ cs) = step p c >>= λ q. run q cs

step-IsValid : (p : Page) (c : Call) → IsValid p → (q : Page) × (step p c ≡ ok q) × IsValid q
unfolding step
step-IsValid p (inserts bytes) v = elim (insert-eq p bytes v) [
  | inl (_, e) ↦ (p, rw e refl, v)
  | inr (_, same) ↦ elim (insert-Inserted p bytes v) [
    | inl (_, e) ↦ (p, rw (same, e) refl, v)
    | inr (_, q, i, e, f) ↦ (q, rw (same, e) refl, f.valid)
  ]
]
step-IsValid p (deletes i) v = elim (delete-Deleted p i v) [
  | inl (_, e) ↦ (p, rw (delete-eq, e) refl, v)
  | inr (_, q, e, d) ↦ (q, rw (delete-eq, e) refl, d.valid)
]
step-IsValid p compacts v = let (q, e, c) = compact-Compacted p v in (q, compact-eq p ∙ e, c.valid)

run-IsValid : (cs : List Call) (p : Page) → IsValid p → (q : Page) × (run p cs ≡ ok q) × IsValid q
unfolding run
run-IsValid [] p v = (p, refl, v)
run-IsValid (c ∷ cs) p v =
    let (p', e, v') = step-IsValid p c v in
    let (q, e', v'') = run-IsValid cs p' v' in (q, rw e e', v'')

-- A page made by `new` with any number that fits 32 bits goes through every sequence of `insert`,
-- `delete` and `compact` without a panic, and the result is valid.
pub run-new-IsValid :
    (n : ℕ) (cs : List Call)
    → n < 256 ^ 4
    → (p : SlottedPage) × ((new n >>= λ q. run q cs) ≡ ok p) × IsValid p
run-new-IsValid n cs small =
    let (p, e, v) = new-New n small in
    let (q, e', v') = run-IsValid cs p v.valid in (q, rw e e', v')
