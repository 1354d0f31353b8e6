-- ===== src/Disk/Overlay.antt =====
-- Writing into a file at an offset: it grows where it must, with zeros in a gap.
use meridian_space_academy_c.Prelude.{
  ℕ, zero, suc, ◌+◌, ◌≤◌, ◌≡◌, ◌⊎◌, inl, inr, refl, ◌∙◌, sym, ap, List, [], ◌∷◌, length, arith, max,
}
use meridian_space_academy_c.Bytes.Slice.{slice, splice, slice-zero}

module _ where
  unfoldable pub overlay : List ℕ → ℕ → List ℕ → List ℕ
  overlay d a [] = d
  overlay [] zero (b ∷ bs) = b ∷ bs
  overlay [] (suc a) (b ∷ bs) = 0 ∷ overlay [] a (b ∷ bs)
  overlay (x ∷ d) zero (b ∷ bs) = b ∷ overlay d zero bs
  overlay (x ∷ d) (suc a) (b ∷ bs) = x ∷ overlay d a (b ∷ bs)

  pub length-overlay_le : (d : List ℕ) (a : ℕ) (bs : List ℕ) → length d ≤ length (overlay d a bs)
  unfolding overlay
  length-overlay_le d a [] = omega arith
  length-overlay_le [] zero (b ∷ bs) = omega arith
  length-overlay_le [] (suc a) (b ∷ bs) = omega arith
  length-overlay_le (x ∷ d) zero (b ∷ bs) = omega (arith, length-overlay_le d zero bs)
  length-overlay_le (x ∷ d) (suc a) (b ∷ bs) = omega (arith, length-overlay_le d a (b ∷ bs))

  pub length-overlay :
      (d : List ℕ) (a : ℕ) (b : ℕ) (bs : List ℕ)
      → length (overlay d a (b ∷ bs)) ≡ max (length d) (a + length (b ∷ bs))
  unfolding overlay
  length-overlay [] zero b bs = omega arith
  length-overlay [] (suc a) b bs = omega (arith, length-overlay [] a b bs)
  length-overlay (x ∷ d) zero b [] = omega arith
  length-overlay (x ∷ d) zero b (c ∷ bs) = omega (arith, length-overlay d zero c bs)
  length-overlay (x ∷ d) (suc a) b bs = omega (arith, length-overlay d a b bs)

  slice_all : (bs : List ℕ) → slice bs 0 (length bs) ≡ bs
  unfolding slice
  slice_all [] = refl
  slice_all (b ∷ bs) = ap (◌∷◌ b) (slice_all bs)

  pub slice-overlay_self :
      (d : List ℕ) (a : ℕ) (bs : List ℕ) → slice (overlay d a bs) a (length bs) ≡ bs
  unfolding overlay slice
  slice-overlay_self d a [] = slice-zero d a
  slice-overlay_self [] zero (b ∷ bs) = slice_all (b ∷ bs)
  slice-overlay_self [] (suc a) (b ∷ bs) = slice-overlay_self [] a (b ∷ bs)
  slice-overlay_self (x ∷ d) zero (b ∷ bs) = ap (◌∷◌ b) (slice-overlay_self d zero bs)
  slice-overlay_self (x ∷ d) (suc a) (b ∷ bs) = slice-overlay_self d a (b ∷ bs)

  -- What stood in the file before or behind the write stays.
  pub slice-overlay_apart :
      (d : List ℕ) (a : ℕ) (bs : List ℕ) (c n : ℕ)
      → c + n ≤ length d
      → (c + n ≤ a) ⊎ (a + length bs ≤ c)
      → slice (overlay d a bs) c n ≡ slice d c n
  unfolding overlay slice
  slice-overlay_apart d a [] c n fits side = refl
  slice-overlay_apart [] zero (b ∷ bs) c zero fits side = slice-zero (b ∷ bs) c
  slice-overlay_apart [] zero (b ∷ bs) c (suc n) fits side = absurd (omega arith)
  slice-overlay_apart [] (suc a) (b ∷ bs) c zero fits side =
      slice-zero (0 ∷ overlay [] a (b ∷ bs)) c
  slice-overlay_apart [] (suc a) (b ∷ bs) c (suc n) fits side = absurd (omega arith)
  slice-overlay_apart (x ∷ d) zero (b ∷ bs) zero zero fits side = refl
  slice-overlay_apart (x ∷ d) zero (b ∷ bs) zero (suc n) fits side = absurd (omega arith)
  slice-overlay_apart (x ∷ d) zero (b ∷ bs) (suc c) n fits side =
      slice-overlay_apart d zero bs c n (omega arith) (inr (omega arith))
  slice-overlay_apart (x ∷ d) (suc a) (b ∷ bs) zero zero fits side = refl
  slice-overlay_apart (x ∷ d) (suc a) (b ∷ bs) zero (suc n) fits side =
      ap (◌∷◌ x) (slice-overlay_apart d a (b ∷ bs) zero n (omega arith) (inl (omega arith)))
  slice-overlay_apart (x ∷ d) (suc a) (b ∷ bs) (suc c) n fits side =
      slice-overlay_apart d a (b ∷ bs) c n (omega arith)
        (elim side [ inl before ↦ inl (omega arith) | inr behind ↦ inr (omega arith) ])

  pub splice_all : (d xs : List ℕ) → length xs ≡ length d → splice d 0 xs ≡ xs
  unfolding splice
  splice_all [] [] e = refl
  splice_all [] (x ∷ xs) e = absurd (omega arith)
  splice_all (y ∷ d) [] e = absurd (omega arith)
  splice_all (y ∷ d) (x ∷ xs) e = ap (◌∷◌ x) (splice_all d xs (omega arith))

  -- The `n` bytes of a file from `a` on, as a file that grows would have them: zeros behind its end.
  unfoldable pub peek : List ℕ → ℕ → ℕ → List ℕ
  peek d a zero = []
  peek [] a (suc n) = 0 ∷ peek [] a n
  peek (x ∷ d) zero (suc n) = x ∷ peek d zero n
  peek (x ∷ d) (suc a) (suc n) = peek d a (suc n)

  pub length-peek : (d : List ℕ) (a n : ℕ) → length (peek d a n) ≡ n
  unfolding peek
  length-peek d a zero = refl
  length-peek [] a (suc n) = ap suc (length-peek [] a n)
  length-peek (x ∷ d) zero (suc n) = ap suc (length-peek d zero n)
  length-peek (x ∷ d) (suc a) (suc n) = length-peek d a (suc n)

  pub peek-slice : (d : List ℕ) (a n : ℕ) → a + n ≤ length d → peek d a n ≡ slice d a n
  unfolding peek slice
  peek-slice d a zero fits = sym (slice-zero d a)
  peek-slice [] a (suc n) fits = absurd (omega arith)
  peek-slice (x ∷ d) zero (suc n) fits = ap (◌∷◌ x) (peek-slice d zero n (omega arith))
  peek-slice (x ∷ d) (suc a) (suc n) fits = peek-slice d a (suc n) (omega arith)

  peek_empty : (a b n : ℕ) → peek [] a n ≡ peek [] b n
  unfolding peek
  peek_empty a b zero = refl
  peek_empty a b (suc n) = ap (◌∷◌ 0) (peek_empty a b n)

  -- A write changes nothing before or behind it, also where the file grows.
  pub peek-overlay_apart :
      (d : List ℕ) (a : ℕ) (bs : List ℕ) (c n : ℕ)
      → (c + n ≤ a) ⊎ (a + length bs ≤ c)
      → peek (overlay d a bs) c n ≡ peek d c n
  unfolding overlay peek
  peek-overlay_apart d a bs c zero side = refl
  peek-overlay_apart d a [] c (suc n) side = refl
  peek-overlay_apart [] zero (b ∷ bs) zero (suc n) side =
      absurd (elim side [ inl before ↦ omega arith | inr behind ↦ omega arith ])
  peek-overlay_apart [] zero (b ∷ bs) (suc c) (suc n) side =
      peek_past bs c (suc n) (elim side [ inl before ↦ omega arith | inr behind ↦ omega arith ])
      ∙ peek_empty c (suc c) (suc n)
    where
      peek_past : (bs : List ℕ) (c n : ℕ) → length bs ≤ c → peek bs c n ≡ peek [] c n
      peek_past bs c zero le = refl
      peek_past [] c (suc n) le = refl
      peek_past (x ∷ bs) zero (suc n) le = absurd (omega arith)
      peek_past (x ∷ bs) (suc c) (suc n) le =
          peek_past bs c (suc n) (omega arith) ∙ peek_empty c (suc c) (suc n)
  peek-overlay_apart [] (suc a) (b ∷ bs) zero (suc n) side = ap (◌∷◌ 0) (
      peek-overlay_apart [] a (b ∷ bs) zero n
        (elim side [ inl before ↦ inl (omega arith) | inr behind ↦ absurd (omega arith) ]))
  peek-overlay_apart [] (suc a) (b ∷ bs) (suc c) (suc n) side =
      peek-overlay_apart [] a (b ∷ bs) c (suc n)
        (elim side [ inl before ↦ inl (omega arith) | inr behind ↦ inr (omega arith) ])
      ∙ peek_empty c (suc c) (suc n)
  peek-overlay_apart (x ∷ d) zero (b ∷ bs) zero (suc n) side =
      absurd (elim side [ inl before ↦ omega arith | inr behind ↦ omega arith ])
  peek-overlay_apart (x ∷ d) zero (b ∷ bs) (suc c) (suc n) side =
      peek-overlay_apart d zero bs c (suc n)
        (inr (elim side [ inl before ↦ omega arith | inr behind ↦ omega arith ]))
  peek-overlay_apart (x ∷ d) (suc a) (b ∷ bs) zero (suc n) side = ap (◌∷◌ x) (
      peek-overlay_apart d a (b ∷ bs) zero n
        (elim side [ inl before ↦ inl (omega arith) | inr behind ↦ absurd (omega arith) ]))
  peek-overlay_apart (x ∷ d) (suc a) (b ∷ bs) (suc c) (suc n) side =
      peek-overlay_apart d a (b ∷ bs) c (suc n)
        (elim side [ inl before ↦ inl (omega arith) | inr behind ↦ inr (omega arith) ])
