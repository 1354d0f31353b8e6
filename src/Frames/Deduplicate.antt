-- ===== src/Frames/Deduplicate.antt =====
-- The pipeline's removal of frames that came twice, in project5/frame.rs.
use meridian_space_academy_c.Prelude.{
  ℕ, zero, suc, ◌+◌, ◌<◌, ◌≡◌, ◌∙◌, ◌⊎◌, ◌↔◌, inl, inr, refl, sym, ap, subst, Bool, true, false,
  ◌||◌, some, List, [], ◌∷◌, Has, get_elem?, arith, Bool-cases,
}
use native.Mathlib.Nat.{zero-add}
use mathlib.Core.Option.{some-injective}
use meridian_space_academy_c.Frames.{
  FrameHeader, same_key, is_seen, deduplicate_from, deduplicate_indices,
}

-- The header `j` has a key that neither `seen` nor an earlier header has.
abbrev pub FirstAfter : List FrameHeader → List FrameHeader → ℕ → Type 0
FirstAfter seen hs j =
    (h : FrameHeader) × (get_elem? hs j ≡ some h)
    × (is_seen h seen ≡ false)
    × ((m : ℕ) (g : FrameHeader) → m < j → get_elem? hs m ≡ some g → same_key g h ≡ false)

or_false : (a b : Bool) → (a || b) ≡ false → (a ≡ false) × (b ≡ false)
or_false true b e = ground (arith, e)
or_false false b e = (refl, e)

false_or : (a b : Bool) → a ≡ false → b ≡ false → (a || b) ≡ false
false_or true b e e' = e
false_or false b e e' = e'

-- Headers with one key are seen alike.
is_seen-same :
    (g h : FrameHeader) (seen : List FrameHeader)
    → same_key g h ≡ true
    → is_seen g seen ≡ is_seen h seen
unfolding is_seen
is_seen-same g h [] e = refl
is_seen-same g h (f ∷ seen) e =
    let place : g.satellite_id ≡ h.satellite_id = ground (arith, e) in
    let number : g.sequence ≡ h.sequence = ground (arith, e) in
    rw (is_seen-same g h seen e, place, number) refl

not_same :
    (g h : FrameHeader) (seen : List FrameHeader)
    → is_seen g seen ≡ true
    → is_seen h seen ≡ false
    → same_key g h ≡ false
not_same g h seen t f = elim (Bool-cases (same_key g h)) [
  | inr e ↦ e
  | inl e ↦ ground (arith, is_seen-same g h seen e, t, f)
]

cons_before :
    (h g : FrameHeader) (hs : List FrameHeader) (j : ℕ)
    → same_key h g ≡ false
    → ((m : ℕ) (f : FrameHeader) → m < j → get_elem? hs m ≡ some f → same_key f g ≡ false)
    → (m : ℕ) (f : FrameHeader) → m < suc j
    → get_elem? (h ∷ hs) m ≡ some f
    → same_key f g ≡ false
cons_before h g hs j differs before zero f lt e =
    subst (λ x. same_key x g ≡ false) (some-injective h f e) differs
cons_before h g hs j differs before (suc m) f lt e = before m f (omega arith) e

sound :
    (seen : List FrameHeader) (i : ℕ) (hs : List FrameHeader) (k : ℕ)
    → Has k (deduplicate_from seen i hs)
    → (j : ℕ) × (k ≡ i + j) × FirstAfter seen hs j
unfolding deduplicate_from is_seen
sound seen i [] k at = elim at [ ]
sound seen i (h ∷ hs) k at = elim (Bool-cases (is_seen h seen)) [
  | inl t ↦
      let (j, here, (g, there, fresh, before)) = sound seen (suc i) hs k (rw t at at) in
      (
        suc j,
        omega (arith, here),
        (g, there, fresh, cons_before h g hs j (not_same h g seen t fresh) before),
      )
  | inr t ↦
      let split : (i ≡ k) ⊎ Has k (deduplicate_from (h ∷ seen) (suc i) hs) = rw t at at in
      elim split [
        | inl same ↦ (0, omega (arith, same), (h, refl, t, λ m g lt e. absurd (omega (arith, lt))))
        | inr later ↦
            let (j, here, (g, there, fresh, before)) = sound (h ∷ seen) (suc i) hs k later in
            let (other, fresh') = or_false (same_key h g) (is_seen g seen) fresh in
            (suc j, omega (arith, here), (g, there, fresh', cons_before h g hs j other before))
      ]
]

complete :
    (seen : List FrameHeader) (i : ℕ) (hs : List FrameHeader) (j : ℕ)
    → FirstAfter seen hs j
    → Has (i + j) (deduplicate_from seen i hs)
unfolding deduplicate_from is_seen
complete seen i [] j (g, there, fresh, before) = ground (arith, there)
complete seen i (h ∷ hs) zero (g, there, fresh, before) =
    let t : is_seen h seen ≡ false = ap (λ x. is_seen x seen) (some-injective h g there) ∙ fresh in
    rw t (inl (omega arith))
complete seen i (h ∷ hs) (suc j) (g, there, fresh, before) =
    let other : same_key h g ≡ false = before 0 h (omega arith) refl in
    let after : (m : ℕ) (f : FrameHeader) → m < j → get_elem? hs m ≡ some f → same_key f g ≡ false =
      λ m f lt e. before (suc m) f (omega arith) e in
    let next : i + suc j ≡ suc i + j = omega arith in
    elim (Bool-cases (is_seen h seen)) [
      | inl t ↦ rw t (
          subst (λ k. Has k (deduplicate_from seen (suc i) hs)) (sym next)
            (complete seen (suc i) hs j (g, there, fresh, after)))
      | inr t ↦ rw t (
          inr (
            subst (λ k. Has k (deduplicate_from (h ∷ seen) (suc i) hs)) (sym next)
              (complete (h ∷ seen) (suc i) hs j
                (g, there, false_or (same_key h g) (is_seen g seen) other fresh, after))))
    ]

-- The index `j` is kept exactly when there is a header of that index and no earlier header has its
-- satellite and its sequence number.
pub deduplicate_indices-FirstAfter :
    (hs : List FrameHeader) (j : ℕ) → Has j (deduplicate_indices hs) ↔ FirstAfter [] hs j
unfolding deduplicate_indices
deduplicate_indices-FirstAfter hs j = (
  λ at.
      let (k, here, first) = sound [] 0 hs j at in
      subst (FirstAfter [] hs) (omega (arith, here)) first,
  λ first. subst (λ k. Has k (deduplicate_from [] 0 hs)) (zero-add j) (complete [] 0 hs j first),
)
