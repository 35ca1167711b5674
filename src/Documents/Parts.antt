-- ===== src/Documents/Parts.antt =====
-- graph-rag/src/documents.js: the parts that `splitLong` cuts a block into.
use gwarestrin.Base.{
  ℕ, zero, suc, ◌+◌, ◌-◌, ◌≤◌, ◌≡◌, refl, Bool, true, false, Option, none, some, List, [], ◌∷◌,
  if◌then◌else◌, ltb, length, arith, inl, inr, Bool-cases, Option-cases,
}
use Prim.Native.Nat.{max}
use gwarestrin.Documents.Blocks.{
  chunk_max, take_units, drop_units, Block, at_sentence, at_newline, last_where, or_first, cut_at,
  part_length, split_from, split_long,
}
use gwarestrin.Documents.Chunks.{is_long, split_if_long, split_all}
use gwarestrin.Documents.Spans.{Ordered, Ordered-from, Ordered-append}
use gwarestrin.Documents.Ordered.{block_start, block_end}

last_where-below :
    (p : List ℕ → Bool) (s : List ℕ) (i : ℕ) → last_where p s ≡ some i → suc i ≤ length s
last_where-below p [] i e = absurd (cc e)
last_where-below p (c ∷ s) i e = elim (Option-cases (last_where p s)) [
  | inr (j, f) ↦
      let here : suc j ≡ i = cc (rw (last_where, f) at e) in
      omega (arith, here, last_where-below p s j f)
  | inl f ↦ elim (Bool-cases (p (c ∷ s))) [
    | inl t ↦ let here : 0 ≡ i = cc (rw (last_where, f, t) at e) in omega (arith, here)
    | inr t ↦ absurd (cc (rw (last_where, f, t) at e))
  ]
]

or_first-bound :
    (s : List ℕ) (o : Option ℕ)
    → ((i : ℕ) → o ≡ some i → suc i ≤ length s)
    → or_first o ≤ length s - 1
or_first-bound s none h = omega arith
or_first-bound s (some i) h = omega (arith, h i refl)

length-take_units : (n : ℕ) (s : List ℕ) → length (take_units n s) ≤ n
length-take_units zero s = omega arith
length-take_units (suc n) [] = omega arith
length-take_units (suc n) (c ∷ s) = omega (arith, length-take_units n s)

cut_at-bound : (window : List ℕ) → cut_at window ≤ length window - 1
cut_at-bound window =
    max_le _ _ (length window - 1) (or_first-bound window _ (last_where-below at_sentence window))
      (or_first-bound window _ (last_where-below at_newline window))
  where
    max_le : (a b n : ℕ) → a ≤ n → b ≤ n → max a b ≤ n
    max_le a b n h k = ground arith

-- A part is at least a unit long and at most as long as a section may be.
pub part_length-bounds : (rest : List ℕ) → (1 ≤ part_length rest) × (part_length rest ≤ chunk_max)
part_length-bounds rest =
    bounds (cut_at (take_units chunk_max rest)) (length (take_units chunk_max rest))
      (cut_at-bound (take_units chunk_max rest)) (length-take_units chunk_max rest)
  where
    bounds :
        (cut n : ℕ)
        → cut ≤ n - 1
        → n ≤ 3200
        → (1 ≤ (if ltb 400 cut then suc cut else 3200))
          × ((if ltb 400 cut then suc cut else 3200) ≤ 3200)
    bounds cut n h k = (ground arith, ground arith)

split_from-Ordered :
    (fuel : ℕ) (b : Block) (s : ℕ) (rest : List ℕ)
    → s ≤ b.end
    → Ordered block_start block_end s (split_from fuel b s rest) b.end
split_from-Ordered zero b s rest h = (omega arith, h, omega arith)
split_from-Ordered (suc fuel) b s rest h = elim (Bool-cases (ltb chunk_max (b.end - s))) [
  | inl e ↦
      rw (split_from, e)
        (
          omega arith,
          omega arith,
          split_from-Ordered fuel b (s + part_length rest) (drop_units (part_length rest) rest)
              (fits (part_length rest) (part_length-bounds rest).1 e),
        )
  | inr e ↦ rw (split_from, e) (omega arith, h, omega arith)
]
  where
    fits : (len : ℕ) → len ≤ 3200 → ltb 3200 (b.end - s) ≡ true → s + len ≤ b.end
    fits len k e = ground arith

split_if_long-Ordered :
    (b : Block) → b.start ≤ b.end → Ordered block_start block_end b.start (split_if_long b) b.end
unfolding split_long
split_if_long-Ordered b h = elim (Bool-cases (is_long b)) [
  | inl e ↦ rw (split_if_long, e) (split_from-Ordered (b.end - b.start) b b.start b.text h)
  | inr e ↦ rw (split_if_long, e) (omega arith, h, omega arith)
]

pub split_all-Ordered :
    (lo hi : ℕ) (bs : List Block)
    → Ordered block_start block_end lo bs hi
    → Ordered block_start block_end lo (split_all bs) hi
split_all-Ordered lo hi [] v = v
split_all-Ordered lo hi (b ∷ bs) (x, y, z) =
    Ordered-append block_start block_end lo b.end hi (split_if_long b) (split_all bs)
      (Ordered-from block_start block_end lo b.start b.end (split_if_long b) x
        (split_if_long-Ordered b y))
      (split_all-Ordered b.end hi bs z)

abbrev pub AllShort : List Block → Type 0
AllShort [] = Unit
AllShort (b ∷ bs) = (b.end - b.start ≤ chunk_max) × AllShort bs

split_from-AllShort :
    (fuel : ℕ) (b : Block) (s : ℕ) (rest : List ℕ)
    → b.end - s ≤ fuel
    → AllShort (split_from fuel b s rest)
split_from-AllShort zero b s rest h = (omega arith, tt)
split_from-AllShort (suc fuel) b s rest h = elim (Bool-cases (ltb chunk_max (b.end - s))) [
  | inl e ↦
      rw (split_from, e)
        (
          within (part_length rest) (part_length-bounds rest).1,
          split_from-AllShort fuel b (s + part_length rest) (drop_units (part_length rest) rest)
              (shorter (part_length rest) (part_length-bounds rest).0),
        )
  | inr e ↦ rw (split_from, e) (fits (b.end - s) e, tt)
]
  where
    within : (len : ℕ) → len ≤ 3200 → s + len - s ≤ 3200
    within len k = omega arith

    shorter : (len : ℕ) → 1 ≤ len → b.end - (s + len) ≤ fuel
    shorter len k = omega arith

    fits : (n : ℕ) → ltb 3200 n ≡ false → n ≤ 3200
    fits n e = ground arith

-- However long a block is, its parts follow one another from its start to its end, and none is longer than the
-- limit of a section.
pub split_long-parts :
    (b : Block)
    → b.start ≤ b.end
    → Ordered block_start block_end b.start (split_long b) b.end × AllShort (split_long b)
unfolding split_long
split_long-parts b h = (
  split_from-Ordered (b.end - b.start) b b.start b.text h,
  split_from-AllShort (b.end - b.start) b b.start b.text (omega arith),
)
