-- ===== src/Page/History.antt =====
-- A page of project1/page.rs from its creation on: any sequence of calls, and loading it again.
use meridian_space_academy_c.Prelude.{
  ℕ, ◌^◌, ◌<◌, ◌≡◌, ◌∙◌, refl, sym, ap, inl, inr, none, List, [], ◌∷◌, length, length-replicate,
  arith,
}
use meridian_space_academy_c.Config.{page_size, magic_bytes}
use meridian_space_academy_c.Result.{Result, ok, ◌>>=◌}
use meridian_space_academy_c.Bytes.Slice.{slice, slice-slice}
use meridian_space_academy_c.Bytes.Word.{from_le_bytes}
use meridian_space_academy_c.Header.{records, discriminant}
use meridian_space_academy_c.Header
use meridian_space_academy_c.Header.RoundTrip.{
  IsHeader, deserialize-Reads, deserialize-serialize_header,
}
use meridian_space_academy_c.Page.{
  Page, zeroed, new, record_count, record_region_offset, insert, insert_compacting, delete, compact,
  from_bytes,
}
use meridian_space_academy_c.Page.Writes.{content}
use meridian_space_academy_c.Page.Valid.{live_total, IsValid, lookup}
use meridian_space_academy_c.Page.Insert.{insert-Inserted}
use meridian_space_academy_c.Page.Delete.{delete-Deleted}
use meridian_space_academy_c.Page.Compact.{compact-Compacted}
use meridian_space_academy_c.Page.InsertCompacting.{insert_compacting-Inserted}
use meridian_space_academy_c.Page.Load.{Accepted, from_bytes-Accepted}

-- The calls that change a page.
pub data Call : Type 0 where
  inserts inserts_compacting : List ℕ → Call
  deletes : ℕ → Call
  compacts : Call

unfoldable pub step : Page → Call → Result Page
step p (inserts bytes) = insert p bytes >>= λ r. ok r.0
step p (inserts_compacting bytes) = insert_compacting p bytes >>= λ r. ok r.0
step p (deletes i) = delete p i >>= λ r. ok r.0
step p compacts = compact p

unfoldable pub run : Page → List Call → Result Page
run p [] = ok p
run p (c ∷ cs) = step p c >>= λ q. run q cs

-- A valid data page that bears the number.
pub record IsPage (page_no : ℕ) (p : Page) : Type 0 where
  pub valid : IsValid p
  pub magic : slice (content p 0 9) 0 4 ≡ magic_bytes
  pub number : from_le_bytes (slice (content p 0 9) 4 4) ≡ page_no
  pub type_lem : from_le_bytes (slice (content p 0 9) 8 1) ≡ discriminant records

length-zeroed : length zeroed ≡ page_size
unfolding zeroed
length-zeroed = length-replicate page_size 0

-- `new` gives an empty page for every `u32`.
pub new-IsPage :
    (page_no : ℕ)
    → page_no < 256 ^ 4
    → (p : Page) × (new page_no ≡ ok p) × IsPage page_no p × ((i : ℕ) → lookup p i ≡ none)
unfolding new record_count record_region_offset content lookup
new-IsPage page_no small =
    let h = Header.new page_no records in
    let v : IsHeader h = record {
      magic = refl;
      page_no = small;
      record_count = omega arith;
      free_space_offset = omega arith;
      checksum = omega arith;
    } in
    let (b, e, d, size, _) =
      deserialize-serialize_header h zeroed v (omega (arith, length-zeroed)) in
    let r = deserialize-Reads b h d in
    let counts : from_le_bytes (slice b 9 2) ≡ 0 = sym (ap (λ x. x.record_count) r.fields) in
    let offsets : from_le_bytes (slice b 11 2) ≡ page_size =
      sym (ap (λ x. x.free_space_offset) r.fields) in
    (
      record { data_bytes = b },
      rw e refl,
      record {
        valid = record {
          size = size ∙ length-zeroed;
          fits = rw (counts, offsets) (omega arith);
          top = rw offsets (omega arith);
          slots = λ i lt. absurd (ground (arith, counts));
          room = rw (counts, offsets) (unfold live_total in omega arith);
        };
        magic = slice-slice b 9 0 4 (omega arith) ∙ r.magic;
        number =
            ap from_le_bytes (slice-slice b 9 4 4 (omega arith))
            ∙ sym (ap (λ x. x.page_no) r.fields);
        type_lem = ap from_le_bytes (slice-slice b 9 8 1 (omega arith)) ∙ r.page_type;
      },
      λ i. rw counts (ground arith),
    )

entitled :
    (n : ℕ) (p q : Page) → IsPage n p → IsValid q → content q 0 9 ≡ content p 0 9 → IsPage n q
entitled n p q v valid title = record {
  valid = valid;
  magic = rw title v.magic;
  number = rw title v.number;
  type_lem = rw title v.type_lem;
}

-- Every call succeeds on such a page, and gives such a page.
step-IsPage :
    (n : ℕ) (p : Page) (c : Call) → IsPage n p → (q : Page) × (step p c ≡ ok q) × IsPage n q
unfolding step
step-IsPage n p (inserts bytes) v = elim (insert-Inserted p bytes v.valid) [
  | inl (_, e) ↦ (p, rw e refl, v)
  | inr (_, q, i, e, f) ↦ (q, rw e refl, entitled n p q v f.valid f.title)
]
step-IsPage n p (inserts_compacting bytes) v = elim (insert_compacting-Inserted p bytes v.valid) [
  | inl (_, e) ↦ (p, rw e refl, v)
  | inr (_, q, i, e, f) ↦ (q, rw e refl, entitled n p q v f.valid f.title)
]
step-IsPage n p (deletes i) v = elim (delete-Deleted p i v.valid) [
  | inl (_, e) ↦ (p, rw e refl, v)
  | inr (_, q, e, d) ↦ (q, rw e refl, entitled n p q v d.valid d.title)
]
step-IsPage n p compacts v =
    let (q, e, c) = compact-Compacted p v.valid in (q, e, entitled n p q v c.valid c.title)

run-IsPage :
    (n : ℕ) (cs : List Call) (p : Page) → IsPage n p → (q : Page) × (run p cs ≡ ok q) × IsPage n q
unfolding run
run-IsPage n [] p v = (p, refl, v)
run-IsPage n (c ∷ cs) p v =
    let (p', e, v') = step-IsPage n p c v in
    let (q, e', v'') = run-IsPage n cs p' v' in (q, rw e e', v'')

IsPage-Accepted : (n : ℕ) (p : Page) → IsPage n p → Accepted p.data_bytes n
IsPage-Accepted n p v =
    unfold content in
    record {
      magic = sym (slice-slice p.data_bytes 9 0 4 (omega arith)) ∙ v.magic;
      page_no_lem =
          sym (ap from_le_bytes (slice-slice p.data_bytes 9 4 4 (omega arith))) ∙ v.number;
      page_type =
          sym (ap from_le_bytes (slice-slice p.data_bytes 9 8 1 (omega arith))) ∙ v.type_lem;
      fits = v.valid.fits;
      top = v.valid.top;
      slots = v.valid.slots;
    }

reload : (n : ℕ) (p : Page) → IsPage n p → from_bytes p.data_bytes n ≡ ok p
reload n p v = elim (from_bytes-Accepted p.data_bytes n v.valid.size) [
  | inl (e, _) ↦ e
  | inr (_, _, out) ↦ absurd (out (IsPage-Accepted n p v))
]

-- A page made by `new` with any number that fits 32 bits goes through every sequence of `insert`,
-- `insert_compacting`, `delete` and `compact` without a panic. The result is valid, and `from_bytes`
-- under the same number accepts its bytes and gives the same page.
pub run-new-from_bytes :
    (n : ℕ) (cs : List Call)
    → n < 256 ^ 4
    → (p : Page) × ((new n >>= λ q. run q cs) ≡ ok p)
      × IsValid p
      × (from_bytes p.data_bytes n ≡ ok p)
run-new-from_bytes n cs small =
    let (p, e, v, _) = new-IsPage n small in
    let (q, e', v') = run-IsPage n cs p v in (q, rw e e', v'.valid, reload n q v')
