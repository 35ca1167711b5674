-- ===== src/Documents/Spans.antt =====
-- Spans of a text that follow one another, and what a list of spans covers.
use gwarestrin.Base.{ℕ, suc, ◌≤◌, ◌<◌, List, [], ◌∷◌, ◌++◌, ◌⊎◌, inl, inr, arith}

module _ {A : Type 0} (start end : A → ℕ) where
  -- In order, without overlap, from `lo` on and up to `hi`.
  abbrev pub Ordered : ℕ → List A → ℕ → Type 0
  Ordered lo [] hi = lo ≤ hi
  Ordered lo (x ∷ xs) hi = (lo ≤ start x) × (start x ≤ end x) × Ordered (end x) xs hi

  -- The same, with a unit between two spans and behind the last.
  abbrev pub Apart : ℕ → List A → ℕ → Type 0
  Apart lo [] hi = lo ≤ hi
  Apart lo (x ∷ xs) hi = (lo ≤ start x) × (start x ≤ end x) × Apart (suc (end x)) xs hi

  -- The unit at `i` lies in one of the spans.
  abbrev pub Covers : ℕ → List A → Type 0
  Covers i [] = ⊥
  Covers i (x ∷ xs) = ((start x ≤ i) × (i < end x)) ⊎ Covers i xs

  pub Ordered-from : (lo mid hi : ℕ) (xs : List A) → lo ≤ mid → Ordered mid xs hi → Ordered lo xs hi
  Ordered-from lo mid hi [] h v = omega arith
  Ordered-from lo mid hi (x ∷ xs) h (a, b, c) = (omega arith, b, c)

  pub Ordered-le : (lo hi : ℕ) (xs : List A) → Ordered lo xs hi → lo ≤ hi
  Ordered-le lo hi [] v = v
  Ordered-le lo hi (x ∷ xs) (a, b, c) = omega (arith, Ordered-le (end x) hi xs c)

  pub Ordered-append :
      (lo mid hi : ℕ) (xs ys : List A)
      → Ordered lo xs mid
      → Ordered mid ys hi
      → Ordered lo (xs ++ ys) hi
  Ordered-append lo mid hi [] ys v w = Ordered-from lo mid hi ys v w
  Ordered-append lo mid hi (x ∷ xs) ys (a, b, c) w = (a, b, Ordered-append (end x) mid hi xs ys c w)

  Apart-from : (lo mid hi : ℕ) (xs : List A) → lo ≤ mid → Apart mid xs hi → Apart lo xs hi
  Apart-from lo mid hi [] h v = omega arith
  Apart-from lo mid hi (x ∷ xs) h (a, b, c) = (omega arith, b, c)

  pub Apart-append :
      (lo mid hi : ℕ) (xs ys : List A) → Apart lo xs mid → Apart mid ys hi → Apart lo (xs ++ ys) hi
  Apart-append lo mid hi [] ys v w = Apart-from lo mid hi ys v w
  Apart-append lo mid hi (x ∷ xs) ys (a, b, c) w =
      (a, b, Apart-append (suc (end x)) mid hi xs ys c w)

  Apart-Ordered-suc : (lo hi : ℕ) (xs : List A) → Apart (suc lo) xs (suc hi) → Ordered lo xs hi
  Apart-Ordered-suc lo hi [] v = omega arith
  Apart-Ordered-suc lo hi (x ∷ xs) (a, b, c) = (omega arith, b, Apart-Ordered-suc (end x) hi xs c)

  pub Apart-Ordered : (hi : ℕ) (xs : List A) → Apart 0 xs (suc hi) → Ordered 0 xs hi
  Apart-Ordered hi [] v = omega arith
  Apart-Ordered hi (x ∷ xs) (a, b, c) = (a, b, Apart-Ordered-suc (end x) hi xs c)

  pub Covers-left : (i : ℕ) (xs ys : List A) → Covers i xs → Covers i (xs ++ ys)
  Covers-left i [] ys h = elim h [ ]
  Covers-left i (x ∷ xs) ys (inl h) = inl h
  Covers-left i (x ∷ xs) ys (inr h) = inr (Covers-left i xs ys h)

  pub Covers-right : (i : ℕ) (xs ys : List A) → Covers i ys → Covers i (xs ++ ys)
  Covers-right i [] ys h = h
  Covers-right i (x ∷ xs) ys h = inr (Covers-right i xs ys h)
