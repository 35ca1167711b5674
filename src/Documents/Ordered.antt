-- ===== src/Documents/Ordered.antt =====
-- graph-rag/src/documents.js: the blocks of a document, in order.
use gwarestrin.Base.{
  ℕ, suc, ◌+◌, ◌≤◌, ◌≡◌, subst, not, Option, none, some, List, [], ◌∷◌, eqb, length, arith, inl,
  inr, Bool-cases,
}
use gwarestrin.Documents.Blocks.{
  is_blank, trim_units, push_line, split_lines, Block, heading_of, is_speaker, flush_block,
  extend_block, block_step, blocks_from, blocks,
}
use gwarestrin.Documents.Spans.{Ordered, Apart, Apart-append, Apart-Ordered}

abbrev pub block_start : Block → ℕ
block_start b = b.start

abbrev pub block_end : Block → ℕ
block_end b = b.end

-- The lines of a text, each with a newline behind it.
abbrev pub total : List (List ℕ) → ℕ
total [] = 0
total (line ∷ ls) = suc (length line) + total ls

total-split_lines : (s : List ℕ) → total (split_lines s) ≡ suc (length s)
total-split_lines [] = omega arith
total-split_lines (c ∷ s) = elim (Bool-cases (eqb c 10)) [
  | inl e ↦ rw (split_lines, e) (omega (arith, total-split_lines s))
  | inr e ↦ rw (split_lines, e) (pushed (split_lines s) (total-split_lines s))
]
  where
    pushed :
        (ls : List (List ℕ))
        → total ls ≡ suc (length s)
        → total (push_line c ls) ≡ suc (suc (length s))
    pushed [] h = omega arith
    pushed (line ∷ ls) h = omega arith

-- An open block stands between `lo` and the line that comes next.
abbrev OpenAt : ℕ → Option Block → ℕ → Type 0
OpenAt lo none pos = lo ≤ pos
OpenAt lo (some b) pos = (lo ≤ b.start) × (b.start ≤ b.end) × (suc b.end ≤ pos)

flush_block-Apart :
    (lo pos : ℕ) (cur : Option Block)
    → OpenAt lo cur pos
    → Apart block_start block_end lo (flush_block cur) pos
flush_block-Apart lo pos none h = h
flush_block-Apart lo pos (some b) (x, y, z) = elim (Bool-cases (not (is_blank b.text))) [
  | inl e ↦ rw (flush_block, e) (x, y, z)
  | inr e ↦ rw (flush_block, e) (omega arith)
]

-- After a round the blocks given end before the open one, or before the next line.
abbrev Stepped : ℕ → ℕ → List Block × Option Block → Type 0
Stepped lo next step =
    (mid : ℕ) × (Apart block_start block_end lo step.0 mid) × OpenAt mid step.1 next

block_step-Stepped :
    (lo pos : ℕ) (line : List ℕ) (cur : Option Block) (h : Option (ℕ × List ℕ))
    → OpenAt lo cur pos
    → Stepped lo (suc (pos + length line)) (block_step pos line cur h)
block_step-Stepped lo pos line cur (some (level, name)) v = (
  suc (pos + length line),
  Apart-append block_start block_end lo pos (suc (pos + length line)) (flush_block cur) _
      (flush_block-Apart lo pos cur v) (omega arith, omega arith, omega arith),
  omega arith,
)
block_step-Stepped lo pos line cur none v = elim (Bool-cases (is_blank line)) [
  | inl e ↦ rw (block_step, e) (pos, flush_block-Apart lo pos cur v, omega arith)
  | inr e ↦ elim (Bool-cases (is_speaker line)) [
    | inl t ↦
        rw (block_step, e, t)
          (pos, flush_block-Apart lo pos cur v, (omega arith, omega arith, omega arith))
    | inr t ↦ rw (block_step, e, t) (lo, omega arith, extended cur v)
  ]
]
  where
    extended :
        (cur : Option Block)
        → OpenAt lo cur pos
        → OpenAt lo (some (extend_block pos line cur)) (suc (pos + length line))
    extended none h = (h, omega arith, omega arith)
    extended (some b) (x, y, z) = (x, omega arith, omega arith)

blocks_from-Apart :
    (lo pos hi : ℕ) (cur : Option Block) (ls : List (List ℕ))
    → pos + total ls ≡ hi
    → OpenAt lo cur pos
    → Apart block_start block_end lo (blocks_from pos cur ls) hi
blocks_from-Apart lo pos hi cur [] e v =
    subst (Apart block_start block_end lo (flush_block cur)) (omega (arith, e))
      (flush_block-Apart lo pos cur v)
blocks_from-Apart lo pos hi cur (line ∷ ls) e v =
    let (mid, given, left) = block_step-Stepped lo pos line cur (heading_of (trim_units line)) v in
    Apart-append block_start block_end lo mid hi _ _ given
      (blocks_from-Apart mid (suc (pos + length line)) hi _ ls (omega (arith, e)) left)

pub blocks-Ordered : (s : List ℕ) → Ordered block_start block_end 0 (blocks s) (length s)
unfolding blocks
blocks-Ordered s =
    Apart-Ordered block_start block_end (length s) (blocks_from 0 none (split_lines s)) (
      blocks_from-Apart 0 0 (suc (length s)) none (split_lines s)
        (omega (arith, total-split_lines s)) (omega arith))
