-- ===== src/Bytes/Slice.antt =====
-- `&d[a..a + n]` and `d[a..a + xs.len()].copy_from_slice(xs)`, where they stay inside the buffer.
use meridian_space_academy_c.Prelude.{
  ℕ, zero, suc, ◌+◌, ◌≤◌, ◌≡◌, refl, sym, ap, ◌⊎◌, inl, inr, List, [], ◌∷◌, ◌++◌, ◌∙◌, some, arith,
  length, get_elem?, All,
}
use native.Mathlib.Nat.{zero-add, suc-add}

module _ {ℓ} {A : Type ℓ} where
  unfoldable pub slice : List A → ℕ → ℕ → List A
  slice [] a n = []
  slice (x ∷ d) zero zero = []
  slice (x ∷ d) zero (suc n) = x ∷ slice d zero n
  slice (x ∷ d) (suc a) n = slice d a n

  unfoldable pub splice : List A → ℕ → List A → List A
  splice [] a xs = []
  splice (y ∷ d) zero [] = y ∷ d
  splice (y ∷ d) zero (x ∷ xs) = x ∷ splice d zero xs
  splice (y ∷ d) (suc a) xs = y ∷ splice d a xs

  pub length-splice : (d : List A) (a : ℕ) (xs : List A) → length (splice d a xs) ≡ length d
  unfolding splice
  length-splice [] a xs = refl
  length-splice (y ∷ d) zero [] = refl
  length-splice (y ∷ d) zero (x ∷ xs) = ap suc (length-splice d zero xs)
  length-splice (y ∷ d) (suc a) xs = ap suc (length-splice d a xs)

  pub length-slice : (d : List A) (a n : ℕ) → a + n ≤ length d → length (slice d a n) ≡ n
  unfolding slice
  length-slice [] a n h = omega arith
  length-slice (x ∷ d) zero zero h = refl
  length-slice (x ∷ d) zero (suc n) h = ap suc (length-slice d zero n (omega arith))
  length-slice (x ∷ d) (suc a) n h = length-slice d a n (omega arith)

  pub length-slice_le : (d : List A) (a n : ℕ) → length (slice d a n) ≤ length d
  unfolding slice
  length-slice_le [] a n = omega arith
  length-slice_le (x ∷ d) zero zero = omega arith
  length-slice_le (x ∷ d) zero (suc n) = omega (arith, length-slice_le d zero n)
  length-slice_le (x ∷ d) (suc a) n = omega (arith, length-slice_le d a n)

  pub slice-zero : (d : List A) (a : ℕ) → slice d a 0 ≡ []
  unfolding slice
  slice-zero [] a = refl
  slice-zero (x ∷ d) zero = refl
  slice-zero (x ∷ d) (suc a) = slice-zero d a

  -- What was written is read back.
  pub slice-splice_self :
      (d : List A) (a : ℕ) (xs : List A) (n : ℕ)
      → length xs ≡ n
      → a + n ≤ length d
      → slice (splice d a xs) a n ≡ xs
  unfolding slice splice
  slice-splice_self [] a [] n e h = refl
  slice-splice_self [] a (x ∷ xs) n e h = absurd (omega arith)
  slice-splice_self (y ∷ d) zero [] zero e h = refl
  slice-splice_self (y ∷ d) zero [] (suc n) e h = absurd (omega arith)
  slice-splice_self (y ∷ d) zero (x ∷ xs) zero e h = absurd (omega arith)
  slice-splice_self (y ∷ d) zero (x ∷ xs) (suc n) e h =
      ap (◌∷◌ x) (slice-splice_self d zero xs n (omega arith) (omega arith))
  slice-splice_self (y ∷ d) (suc a) xs n e h = slice-splice_self d a xs n e (omega arith)

  -- A write behind or before a range leaves it alone.
  pub slice-splice_apart :
      (d : List A) (a : ℕ) (xs : List A) (b n : ℕ)
      → (b + n ≤ a) ⊎ (a + length xs ≤ b)
      → slice (splice d a xs) b n ≡ slice d b n
  unfolding slice splice
  slice-splice_apart [] a xs b n h = refl
  slice-splice_apart (y ∷ d) zero [] b n h = refl
  slice-splice_apart (y ∷ d) zero (x ∷ xs) zero zero h = refl
  slice-splice_apart (y ∷ d) zero (x ∷ xs) zero (suc n) h = absurd (omega arith)
  slice-splice_apart (y ∷ d) zero (x ∷ xs) (suc b) n (inl h) = absurd (omega arith)
  slice-splice_apart (y ∷ d) zero (x ∷ xs) (suc b) n (inr h) =
      slice-splice_apart d zero xs b n (inr (omega arith))
  slice-splice_apart (y ∷ d) (suc a) xs zero zero h = refl
  slice-splice_apart (y ∷ d) (suc a) xs zero (suc n) (inl h) =
      ap (◌∷◌ y) (slice-splice_apart d a xs zero n (inl (omega arith)))
  slice-splice_apart (y ∷ d) (suc a) xs zero (suc n) (inr h) = absurd (omega arith)
  slice-splice_apart (y ∷ d) (suc a) xs (suc b) n (inl h) =
      slice-splice_apart d a xs b n (inl (omega arith))
  slice-splice_apart (y ∷ d) (suc a) xs (suc b) n (inr h) =
      slice-splice_apart d a xs b n (inr (omega arith))

  pub slice-splice_before :
      (d : List A) (a : ℕ) (xs : List A) (b n : ℕ)
      → b + n ≤ a
      → slice (splice d a xs) b n ≡ slice d b n
  slice-splice_before d a xs b n h = slice-splice_apart d a xs b n (inl h)

  pub slice-splice_behind :
      (d : List A) (a : ℕ) (xs : List A) (b n : ℕ)
      → a + length xs ≤ b
      → slice (splice d a xs) b n ≡ slice d b n
  slice-splice_behind d a xs b n h = slice-splice_apart d a xs b n (inr h)

  pub slice-append_left : (xs ys : List A) (n : ℕ) → length xs ≡ n → slice (xs ++ ys) 0 n ≡ xs
  unfolding slice
  slice-append_left [] [] n h = refl
  slice-append_left [] (y ∷ ys) zero h = refl
  slice-append_left [] (y ∷ ys) (suc n) h = absurd (omega arith)
  slice-append_left (x ∷ xs) ys zero h = absurd (omega arith)
  slice-append_left (x ∷ xs) ys (suc n) h = ap (◌∷◌ x) (slice-append_left xs ys n (omega arith))

  pub slice-append_right :
      (xs ys : List A) (a b n : ℕ) → a ≡ length xs + b → slice (xs ++ ys) a n ≡ slice ys b n
  unfolding slice
  slice-append_right [] ys a b n h = let e : a ≡ b = omega arith in ap (λ k. slice ys k n) e
  slice-append_right (x ∷ xs) ys zero b n h = absurd (omega arith)
  slice-append_right (x ∷ xs) ys (suc a) b n h = slice-append_right xs ys a b n (omega arith)

  pub slice_whole : (xs : List A) (n : ℕ) → length xs ≡ n → slice xs 0 n ≡ xs
  unfolding slice
  slice_whole [] n h = refl
  slice_whole (x ∷ xs) zero h = absurd (omega arith)
  slice_whole (x ∷ xs) (suc n) h = ap (◌∷◌ x) (slice_whole xs n (omega arith))

  pub slice-All {κ} : (P : A → Type κ) (d : List A) (a n : ℕ) → All P d → All P (slice d a n)
  unfolding slice
  slice-All P [] a n h = tt
  slice-All P (x ∷ d) zero zero h = tt
  slice-All P (x ∷ d) zero (suc n) h = (h.0, slice-All P d zero n h.1)
  slice-All P (x ∷ d) (suc a) n h = slice-All P d a n h.1

  pub splice-All {κ} :
      (P : A → Type κ) (d : List A) (a : ℕ) (xs : List A)
      → All P d
      → All P xs
      → All P (splice d a xs)
  unfolding splice
  splice-All P [] a xs h k = tt
  splice-All P (y ∷ d) zero [] h k = h
  splice-All P (y ∷ d) zero (x ∷ xs) h k = (k.0, splice-All P d zero xs h.1 k.1)
  splice-All P (y ∷ d) (suc a) xs h k = (h.0, splice-All P d a xs h.1 k)

  -- To write back what a range holds changes nothing.
  pub splice-slice : (d : List A) (a n : ℕ) → a + n ≤ length d → splice d a (slice d a n) ≡ d
  unfolding slice splice
  splice-slice [] a n h = refl
  splice-slice (x ∷ d) zero zero h = refl
  splice-slice (x ∷ d) zero (suc n) h = ap (◌∷◌ x) (splice-slice d zero n (omega arith))
  splice-slice (x ∷ d) (suc a) n h = ap (◌∷◌ x) (splice-slice d a n (omega arith))

  unfoldable pub concat : List (List A) → List A
  concat [] = []
  concat (p ∷ ps) = p ++ concat ps

  -- Where the part `i` starts in the concatenation.
  unfoldable pub offset : List (List A) → ℕ → ℕ
  offset [] i = 0
  offset (p ∷ ps) zero = 0
  offset (p ∷ ps) (suc i) = length p + offset ps i

  -- Each part of a concatenation is found at its offset.
  pub slice-concat :
      (ps : List (List A)) (i : ℕ) (p : List A) (a n : ℕ)
      → get_elem? ps i ≡ some p
      → offset ps i ≡ a
      → length p ≡ n
      → slice (concat ps) a n ≡ p
  unfolding concat offset
  slice-concat [] i p a n e o l = cc
  slice-concat (q ∷ ps) zero p a n e o l =
      let same : q ≡ p = cc in
      let here : 0 ≡ a = o in rw (same, ← here) (slice-append_left p (concat ps) n l)
  slice-concat (q ∷ ps) (suc i) p a n e o l =
      slice-append_right q (concat ps) a (offset ps i) n (omega arith)
      ∙ slice-concat ps i p (offset ps i) n e refl l

  -- Two ranges that meet make one.
  pub slice-append-slice :
      (d : List A) (a n m : ℕ) → slice d a n ++ slice d (a + n) m ≡ slice d a (n + m)
  unfolding slice
  slice-append-slice [] a n m = refl
  slice-append-slice (x ∷ d) zero zero m = ap (slice (x ∷ d) 0) (sym (zero-add m))
  slice-append-slice (x ∷ d) zero (suc n) m =
      rw (zero-add, suc-add) (ap (◌∷◌ x) (rw zero-add at (slice-append-slice d zero n m)))
  slice-append-slice (x ∷ d) (suc a) n m = rw suc-add (slice-append-slice d a n m)

  -- A range inside a prefix is that range of the whole.
  pub slice-slice : (d : List A) (n b m : ℕ) → b + m ≤ n → slice (slice d 0 n) b m ≡ slice d b m
  unfolding slice
  slice-slice [] n b m h = refl
  slice-slice (x ∷ d) zero zero zero h = refl
  slice-slice (x ∷ d) zero zero (suc m) h = absurd (omega arith)
  slice-slice (x ∷ d) zero (suc b) m h = absurd (omega arith)
  slice-slice (x ∷ d) (suc n) zero zero h = refl
  slice-slice (x ∷ d) (suc n) zero (suc m) h = ap (◌∷◌ x) (slice-slice d n zero m (omega arith))
  slice-slice (x ∷ d) (suc n) (suc b) m h = slice-slice d n b m (omega arith)
