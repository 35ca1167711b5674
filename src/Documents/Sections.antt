-- ===== src/Documents/Sections.antt =====
-- graph-rag/src/documents.js: the sections of a document, in order.
use gwarestrin.Base.{
  ℕ, suc, ◌-◌, ◌≤◌, false, ◌&&◌, Option, none, some, List, [], ◌∷◌, ltb, length, arith, inl, inr,
  Bool-cases,
}
use gwarestrin.Documents.Blocks.{chunk_target, Kind, heading, text, Block, blocks}
use gwarestrin.Documents.Chunks.{
  Chunk, Section, unix_lines, has_substance, split_all, close_chunk, fill, chunks_from, spans_of,
  sections_of, chunk,
}
use gwarestrin.Documents.Spans.{Ordered, Ordered-append}
use gwarestrin.Documents.Ordered.{block_start, block_end, blocks-Ordered}
use gwarestrin.Documents.Parts.{split_all-Ordered}

abbrev pub chunk_start : Chunk → ℕ
chunk_start c = c.start

abbrev pub chunk_end : Chunk → ℕ
chunk_end c = c.end

-- An open section stands between `lo` and the next block.
abbrev OpenFrom : ℕ → Option Chunk → ℕ → Type 0
OpenFrom lo none pos = lo ≤ pos
OpenFrom lo (some c) pos = (lo ≤ c.start) × (c.start ≤ c.end) × (c.end ≤ pos)

-- After a block the sections closed end before the open one.
abbrev Filled : ℕ → ℕ → List Chunk → Option Chunk → Type 0
Filled lo next closed open_one =
    (mid : ℕ) × (Ordered chunk_start chunk_end lo closed mid) × OpenFrom mid open_one next

fill-Filled :
    (lo : ℕ) (k : Kind) (b : Block) (cur : Option Chunk) (under : List ℕ)
    → OpenFrom lo cur b.start
    → b.start ≤ b.end
    → Filled lo b.end (fill k b cur under).closed (fill k b cur under).open_one
fill-Filled lo (heading level name) b none under v h = (lo, omega arith, (v, h, omega arith))
fill-Filled lo text b none under v h = (lo, omega arith, (v, h, omega arith))
fill-Filled lo (heading level name) b (some c) under (x, y, z) h =
    elim (Bool-cases (has_substance c)) [
      | inl e ↦ rw (fill, e) (c.end, (x, y, omega arith), (z, h, omega arith))
      | inr e ↦ rw (fill, e) (lo, omega arith, (x, omega arith, omega arith))
    ]
fill-Filled lo text b (some c) under (x, y, z) h =
    elim (Bool-cases (ltb chunk_target (b.end - c.start) && has_substance c)) [
      | inl e ↦ rw (fill, e) (c.end, (x, y, omega arith), (z, h, omega arith))
      | inr e ↦ rw (fill, e) (lo, omega arith, (x, omega arith, omega arith))
    ]

OpenFrom-le :
    (lo pos next : ℕ) (cur : Option Chunk) → OpenFrom lo cur pos → pos ≤ next → OpenFrom lo cur next
OpenFrom-le lo pos next none v h = omega arith
OpenFrom-le lo pos next (some c) (x, y, z) h = (x, y, omega arith)

close_chunk-Ordered :
    (lo hi : ℕ) (cur : Option Chunk)
    → OpenFrom lo cur hi
    → Ordered chunk_start chunk_end lo (close_chunk cur) hi
close_chunk-Ordered lo hi none v = v
close_chunk-Ordered lo hi (some c) v = v

chunks_from-Ordered :
    (lo pos hi : ℕ) (under : List ℕ) (cur : Option Chunk) (bs : List Block)
    → OpenFrom lo cur pos
    → Ordered block_start block_end pos bs hi
    → Ordered chunk_start chunk_end lo (chunks_from under cur bs) hi
chunks_from-Ordered lo pos hi under cur [] v w =
    close_chunk-Ordered lo hi cur (OpenFrom-le lo pos hi cur v w)
chunks_from-Ordered lo pos hi under cur (b ∷ bs) v (x, y, z) =
    let (mid, closed, left) =
      fill-Filled lo b.kind b cur under (OpenFrom-le lo pos b.start cur v x) y in
    Ordered-append chunk_start chunk_end lo mid hi _ _ closed
      (chunks_from-Ordered mid b.end hi _ _ bs left z)

pub spans_of-Ordered : (src : List ℕ) → Ordered chunk_start chunk_end 0 (spans_of src) (length src)
unfolding spans_of
spans_of-Ordered src =
    chunks_from-Ordered 0 0 (length src) [] none (split_all (blocks src)) (omega arith)
      (split_all-Ordered 0 (length src) (blocks src) (blocks-Ordered src))

abbrev pub section_start : Section → ℕ
section_start c = c.start

abbrev pub section_end : Section → ℕ
section_end c = c.end

sections_of-Ordered :
    (src : List ℕ) (index lo hi : ℕ) (before : Option Chunk) (cs : List Chunk)
    → Ordered chunk_start chunk_end lo cs hi
    → Ordered section_start section_end lo (sections_of src index before cs) hi
sections_of-Ordered src index lo hi before [] v = v
sections_of-Ordered src index lo hi before (c ∷ cs) (x, y, z) =
    (x, y, sections_of-Ordered src (suc index) c.end hi (some c) cs z)

-- The sections of a document stand in its order, do not overlap, and end within its text, whose line ends are all
-- newlines by then.
pub chunk-Ordered :
    (s : List ℕ) → Ordered section_start section_end 0 (chunk s) (length (unix_lines false s))
unfolding chunk
chunk-Ordered s =
    sections_of-Ordered (unix_lines false s) 0 0 (length (unix_lines false s)) none
      (spans_of (unix_lines false s)) (spans_of-Ordered (unix_lines false s))
