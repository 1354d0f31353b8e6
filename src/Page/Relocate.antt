-- ===== src/Page/Relocate.antt =====
-- The second loop of `compact` in project1/page.rs: the records written from the end of the page.
use meridian_space_academy_c.Prelude.{
  ℕ, suc, ◌+◌, ◌-◌, ◌%◌, ◌^◌, ◌≤◌, ◌<◌, ◌≡◌, ◌≢◌, ◌∙◌, refl, none, some, List, [], ◌∷◌, length,
  arith,
}
use native.Mathlib.Decide.{ℕ_discrete}
use meridian_space_academy_c.Config.{page_size}
use meridian_space_academy_c.Result.{ok}
use meridian_space_academy_c.Bytes.Buffer.{copy_from_slice_fits}
use meridian_space_academy_c.Page.{Page, record_count, slot_base, relocate}
use meridian_space_academy_c.Page.Writes.{
  size_of, content, slot, with_bytes, size-with_bytes, write_slot-with_slot,
}
use meridian_space_academy_c.Page.Place.{
  recorded, size-recorded, record_count-recorded, slot-recorded_self, slot-recorded,
  content-recorded, content-recorded_self, title-recorded,
}
use meridian_space_academy_c.Page.Records.{Records, bytes_of, find, find_below, Between}

-- What the second loop leaves: the records of the list one under the other from `c` down to `c'`.
pub record Relocated (l : Records) (q : Page) (c : ℕ) (q' : Page) (c' : ℕ) : Type 0 where
  pub size : size_of q' ≡ page_size
  pub count : record_count q' ≡ record_count q
  pub cursor : c' + bytes_of l ≡ c
  pub moved :
      (j : ℕ) (bytes : List ℕ)
      → find l j ≡ some bytes
      → (c' ≤ (slot q' j).0)
        × ((slot q' j).0 + length bytes ≤ c)
        × ((slot q' j).1 ≡ length bytes)
        × (content q' (slot q' j).0 (length bytes) ≡ bytes)
  pub stays : (j : ℕ) → j < record_count q → find l j ≡ none → slot q' j ≡ slot q j
  pub behind : (a n : ℕ) → c ≤ a → content q' a n ≡ content q a n
  pub title : content q' 0 9 ≡ content q 0 9

-- One round of the loop.
module _ (i : ℕ) (bytes : List ℕ) (l : Records) (q : Page) (c : ℕ) (below : i < record_count q)
    (rest : Between (suc i) (record_count q) l) (size : size_of q ≡ page_size) (top : c ≤ page_size)
    (fits : slot_base (record_count q) + length bytes + bytes_of l ≤ c) where
  start : ℕ
  start = c - length bytes

  next : Page
  next = recorded q i start bytes

  here : slot_base i + 4 ≤ start
  unfolding start
  here = omega arith

  ends : start + length bytes ≤ page_size
  unfolding start
  ends = omega arith

  counted : record_count next ≡ record_count q
  unfolding next
  counted = record_count-recorded q i start bytes size here ends

  relocate-next : relocate ((i, bytes) ∷ l) q c ≡ relocate l next start
  unfolding relocate next start recorded with_bytes
  relocate-next =
      let narrow : length bytes % 2 ^ 16 ≡ length bytes = omega arith in
      let b = with_bytes q start bytes in
      rw narrow (
        ground (
          arith,
          here,
          ends,
          size-with_bytes q start bytes,
          copy_from_slice_fits q.data_bytes start bytes,
          write_slot-with_slot b i start (length bytes),
        ))

  module _ (q' : Page) (c' : ℕ) (r : Relocated l next start q' c') where
    -- The later rounds leave the record of this one.
    moved_here :
        (c' ≤ (slot q' i).0)
        × ((slot q' i).0 + length bytes ≤ c)
        × ((slot q' i).1 ≡ length bytes)
        × (content q' (slot q' i).0 (length bytes) ≡ bytes)
    moved_here =
        let kept : slot q' i ≡ (start, length bytes) =
          r.stays i (rw counted below) (find_below (suc i) (record_count q) i l rest (omega arith))
          ∙ (unfold next in slot-recorded_self q i start bytes size here ends) in
        rw kept (
          omega (arith, r.cursor),
          unfold start in omega arith,
          refl,
          r.behind start (length bytes) (omega arith)
              ∙ (unfold next in content-recorded_self q i start bytes size here ends),
        )

    moved_lem :
        (j : ℕ) (bs : List ℕ)
        → find ((i, bytes) ∷ l) j ≡ some bs
        → (c' ≤ (slot q' j).0)
          × ((slot q' j).0 + length bs ≤ c)
          × ((slot q' j).1 ≡ length bs)
          × (content q' (slot q' j).0 (length bs) ≡ bs)
    unfolding find start
    moved_lem j bs e = elim (ℕ_discrete i j) [
      | yes same ↦ let p : bytes ≡ bs = ground arith in rw (← same, ← p) moved_here
      | no ne ↦
          let (lo, hi, len, bytes_lem) = r.moved j bs (ground arith) in
          (lo, omega arith, len, bytes_lem)
    ]

    stays_lem : (j : ℕ) → j < record_count q → find ((i, bytes) ∷ l) j ≡ none → slot q' j ≡ slot q j
    unfolding find
    stays_lem j lt e =
        let ne : j ≢ i = ground arith in
        r.stays j (rw counted lt) (ground arith)
        ∙ (unfold next start in slot-recorded q i start bytes size here ends j (omega arith) ne)

    behind_lem : (a n : ℕ) → c ≤ a → content q' a n ≡ content q a n
    behind_lem a n h =
        r.behind a n (unfold start in omega arith)
        ∙ (unfold next start in content-recorded q i start bytes size here ends a n (omega arith))

    Relocated-cons : Relocated ((i, bytes) ∷ l) q c q' c'
    unfolding bytes_of start
    Relocated-cons = record {
      size = r.size;
      count = r.count ∙ counted;
      cursor = omega (arith, r.cursor);
      moved = moved_lem;
      stays = stays_lem;
      behind = behind_lem;
      title = r.title ∙ (unfold next in title-recorded q i start bytes size here ends);
    }

pub relocate-Relocated :
    (l : Records) (q : Page) (c lo : ℕ)
    → Between lo (record_count q) l
    → size_of q ≡ page_size
    → c ≤ page_size
    → slot_base (record_count q) + bytes_of l ≤ c
    → (q' : Page) × (c' : ℕ) × (relocate l q c ≡ ok (q', c')) × Relocated l q c q' c'
unfolding relocate find bytes_of
relocate-Relocated [] q c lo b size top fits = (
  q,
  c,
  refl,
  record {
    size = size;
    count = refl;
    cursor = omega arith;
    moved = λ j bytes e. cc;
    stays = λ j h e. refl;
    behind = λ a n h. refl;
    title = refl;
  },
)
relocate-Relocated ((i, bytes) ∷ l) q c lo (above, below, rest) size top fits =
    let room : slot_base (record_count q) + length bytes + bytes_of l ≤ c = omega arith in
    let counts = counted i bytes l q c below rest size top room in
    let starts = here i bytes l q c below rest size top room in
    let stops = ends i bytes l q c below rest size top room in
    let (q', c', e, r) =
      relocate-Relocated l (next i bytes l q c below rest size top room)
        (start i bytes l q c below rest size top room) (suc i) (rw counts rest)
        (unfold next in size-recorded q i _ bytes size starts stops) (omega arith)
        (unfold start in omega (arith, counts)) in
    (
      q',
      c',
      relocate-next i bytes l q c below rest size top room ∙ e,
      Relocated-cons i bytes l q c below rest size top room q' c' r,
    )
