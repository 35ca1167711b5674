-- ===== src/Documents/Covered.antt =====
-- graph-rag/src/documents.js: which lines of a document its sections hold.
use gwarestrin.Base.{
  ℕ, zero, suc, ◌+◌, ◌-◌, ◌≤◌, ◌<◌, ◌≡◌, ◌⊎◌, true, false, ◌&&◌, Option, none, some, List, [], ◌∷◌,
  ltb, length, arith, inl, inr, Bool-cases,
}
use gwarestrin.Documents.Blocks.{
  chunk_max, chunk_target, drop_units, split_lines, Kind, heading, text, Block, blocks, part_length,
  split_from, split_long,
}
use gwarestrin.Documents.Chunks.{
  Chunk, Filling, unix_lines, is_long, has_substance, split_if_long, split_all, close_chunk, fill,
  chunks_from, spans_of, sections_of, chunk,
}
use gwarestrin.Documents.Spans.{Ordered, Covers, Covers-left, Covers-right}
use gwarestrin.Documents.Ordered.{block_start, block_end, blocks-Ordered}
use gwarestrin.Documents.Parts.{split_all-Ordered}
use gwarestrin.Documents.Sections.{chunk_start, chunk_end, section_start, section_end}
use gwarestrin.Documents.Kept.{Lines, Lines-map, blocks-Lines}

abbrev InBlocks : ℕ → List Block → Type 0
InBlocks i bs = Covers block_start block_end i bs

abbrev InChunks : ℕ → List Chunk → Type 0
InChunks i cs = Covers chunk_start chunk_end i cs

split_from-Covers :
    (fuel : ℕ) (b : Block) (s : ℕ) (rest : List ℕ) (i : ℕ)
    → s ≤ i
    → i < b.end
    → InBlocks i (split_from fuel b s rest)
split_from-Covers zero b s rest i x y = inl (x, y)
split_from-Covers (suc fuel) b s rest i x y = elim (Bool-cases (ltb chunk_max (b.end - s))) [
  | inl e ↦
      rw (split_from, e)
        (elim (Bool-cases (ltb i (s + part_length rest))) [
          | inl t ↦ inl (x, below i (s + part_length rest) t)
          | inr t ↦ inr (
              split_from-Covers fuel b (s + part_length rest) (drop_units (part_length rest) rest) i
                (not_below i (s + part_length rest) t) y)
        ])
  | inr e ↦ rw (split_from, e) (inl (x, y))
]
  where
    below : (a n : ℕ) → ltb a n ≡ true → a < n
    below a n h = ground arith

    not_below : (a n : ℕ) → ltb a n ≡ false → n ≤ a
    not_below a n h = ground arith

split_if_long-Covers : (b : Block) (i : ℕ) → b.start ≤ i → i < b.end → InBlocks i (split_if_long b)
unfolding split_long
split_if_long-Covers b i x y = elim (Bool-cases (is_long b)) [
  | inl e ↦ rw (split_if_long, e) (split_from-Covers (b.end - b.start) b b.start b.text i x y)
  | inr e ↦ rw (split_if_long, e) (inl (x, y))
]

split_all-Covers : (bs : List Block) (i : ℕ) → InBlocks i bs → InBlocks i (split_all bs)
split_all-Covers [] i h = h
split_all-Covers (b ∷ bs) i (inl (x, y)) =
    Covers-left block_start block_end i (split_if_long b) (split_all bs)
      (split_if_long-Covers b i x y)
split_all-Covers (b ∷ bs) i (inr h) =
    Covers-right block_start block_end i (split_if_long b) (split_all bs) (split_all-Covers bs i h)

-- In the open section.
abbrev InOpen : ℕ → Option Chunk → Type 0
InOpen i none = ⊥
InOpen i (some c) = (c.start ≤ i) × (i < c.end)

close_chunk-Covers : (cur : Option Chunk) (i : ℕ) → InOpen i cur → InChunks i (close_chunk cur)
close_chunk-Covers none i h = h
close_chunk-Covers (some c) i h = inl h

abbrev OpenBefore : Option Chunk → ℕ → Type 0
OpenBefore none pos = Unit
OpenBefore (some c) pos = (c.start ≤ pos) × (c.end ≤ pos)

OpenBefore-le :
    (cur : Option Chunk) (pos next : ℕ) → OpenBefore cur pos → pos ≤ next → OpenBefore cur next
OpenBefore-le none pos next o h = tt
OpenBefore-le (some c) pos next (x, y) h = (omega arith, omega arith)

closed_or_new :
    (b : Block) (c : Chunk) (i : ℕ)
    → ((c.start ≤ i) × (i < c.end)) ⊎ ((b.start ≤ i) × (i < b.end))
    → InChunks i (c ∷ []) ⊎ ((b.start ≤ i) × (i < b.end))
closed_or_new b c i (inl h) = inl (inl h)
closed_or_new b c i (inr h) = inr h

grown :
    (b : Block) (c : Chunk) (i : ℕ)
    → c.start ≤ b.start
    → c.end ≤ b.start
    → b.start ≤ b.end
    → ((c.start ≤ i) × (i < c.end)) ⊎ ((b.start ≤ i) × (i < b.end))
    → (c.start ≤ i) × (i < b.end)
grown b c i p q h (inl (x, y)) = (x, omega arith)
grown b c i p q h (inr (x, y)) = (omega arith, y)

-- After a block: in the sections closed, or the open one.
abbrev Fills : ℕ → Filling → Type 0
Fills i f = InChunks i f.closed ⊎ InOpen i f.open_one

-- A block takes nothing out of what is filled, and its own units go in.
fill-Fills :
    (k : Kind) (b : Block) (cur : Option Chunk) (under : List ℕ) (i : ℕ)
    → OpenBefore cur b.start
    → b.start ≤ b.end
    → InOpen i cur ⊎ ((b.start ≤ i) × (i < b.end))
    → Fills i (fill k b cur under)
fill-Fills (heading level name) b none under i o h (inl t) = elim t [ ]
fill-Fills (heading level name) b none under i o h (inr t) = inr t
fill-Fills text b none under i o h (inl t) = elim t [ ]
fill-Fills text b none under i o h (inr t) = inr t
fill-Fills (heading level name) b (some c) under i (p, q) h t =
    elim (Bool-cases (has_substance c)) [
      | inl e ↦ rw (fill, e) (closed_or_new b c i t)
      | inr e ↦ rw (fill, e) (inr (grown b c i p q h t))
    ]
fill-Fills text b (some c) under i (p, q) h t =
    elim (Bool-cases (ltb chunk_target (b.end - c.start) && has_substance c)) [
      | inl e ↦ rw (fill, e) (closed_or_new b c i t)
      | inr e ↦ rw (fill, e) (inr (grown b c i p q h t))
    ]

fill-before :
    (k : Kind) (b : Block) (cur : Option Chunk) (under : List ℕ)
    → OpenBefore cur b.start
    → b.start ≤ b.end
    → OpenBefore (fill k b cur under).open_one b.end
fill-before (heading level name) b none under o h = (h, omega arith)
fill-before text b none under o h = (h, omega arith)
fill-before (heading level name) b (some c) under (p, q) h = elim (Bool-cases (has_substance c)) [
  | inl e ↦ rw (fill, e) (h, omega arith)
  | inr e ↦ rw (fill, e) (omega arith, omega arith)
]
fill-before text b (some c) under (p, q) h =
    elim (Bool-cases (ltb chunk_target (b.end - c.start) && has_substance c)) [
      | inl e ↦ rw (fill, e) (h, omega arith)
      | inr e ↦ rw (fill, e) (omega arith, omega arith)
    ]

chunks_from-Covers :
    (bs : List Block) (under : List ℕ) (cur : Option Chunk) (pos hi i : ℕ)
    → OpenBefore cur pos
    → Ordered block_start block_end pos bs hi
    → InOpen i cur ⊎ InBlocks i bs
    → InChunks i (chunks_from under cur bs)
chunks_from-Covers [] under cur pos hi i o v (inl h) = close_chunk-Covers cur i h
chunks_from-Covers [] under cur pos hi i o v (inr h) = elim h [ ]
chunks_from-Covers (b ∷ bs) under cur pos hi i o (x, y, z) h = elim (sorted h) [
  | inr later ↦ Covers-right chunk_start chunk_end i _ _ (
      chunks_from-Covers bs _ _ b.end hi i
        (fill-before b.kind b cur under (OpenBefore-le cur pos b.start o x) y) z (inr later))
  | inl here ↦ elim (fill-Fills b.kind b cur under i (OpenBefore-le cur pos b.start o x) y here) [
    | inl closed ↦ Covers-left chunk_start chunk_end i _ _ closed
    | inr left ↦ Covers-right chunk_start chunk_end i _ _ (
        chunks_from-Covers bs _ _ b.end hi i
          (fill-before b.kind b cur under (OpenBefore-le cur pos b.start o x) y) z (inl left))
  ]
]
  where
    sorted :
        InOpen i cur ⊎ InBlocks i (b ∷ bs)
        → (InOpen i cur ⊎ ((b.start ≤ i) × (i < b.end))) ⊎ InBlocks i bs
    sorted (inl h) = inl (inl h)
    sorted (inr (inl h)) = inl (inr h)
    sorted (inr (inr h)) = inr h

spans_of-Covers : (src : List ℕ) (i : ℕ) → InBlocks i (blocks src) → InChunks i (spans_of src)
unfolding spans_of
spans_of-Covers src i h =
    chunks_from-Covers (split_all (blocks src)) [] none 0 (length src) i tt
      (split_all-Ordered 0 (length src) (blocks src) (blocks-Ordered src))
      (inr (split_all-Covers (blocks src) i h))

sections_of-Covers :
    (src : List ℕ) (index : ℕ) (before : Option Chunk) (cs : List Chunk) (i : ℕ)
    → InChunks i cs
    → Covers section_start section_end i (sections_of src index before cs)
sections_of-Covers src index before [] i h = h
sections_of-Covers src index before (c ∷ cs) i (inl h) = inl h
sections_of-Covers src index before (c ∷ cs) i (inr h) =
    inr (sections_of-Covers src (suc index) (some c) cs i h)

-- Every unit of every line of a document that is not blank lies in one of its sections.
pub chunk-Lines :
    (s : List ℕ)
    → Lines (λ i. Covers section_start section_end i (chunk s)) 0 (split_lines (unix_lines false s))
unfolding chunk
chunk-Lines s =
    Lines-map _ _ 0 (split_lines (unix_lines false s))
      (λ i h.
        sections_of-Covers (unix_lines false s) 0 none (spans_of (unix_lines false s)) i
          (spans_of-Covers (unix_lines false s) i h))
      (blocks-Lines (unix_lines false s))
