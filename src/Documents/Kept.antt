-- ===== src/Documents/Kept.antt =====
-- graph-rag/src/documents.js: the lines in the blocks of a text.
use gwarestrin.Base.{
  ℕ, suc, ◌+◌, ◌≤◌, ◌<◌, ◌≡◌, sym, subst, ◌⊎◌, false, Option, none, some, List, [], ◌∷◌, ◌++◌,
  length, arith, inl, inr, Bool-cases,
}
use gwarestrin.Dates.{is_space}
use gwarestrin.Documents.Blocks.{
  is_blank, trim_units, split_lines, heading, Block, heading_of, is_speaker, flush_block,
  open_block, extend_block, block_step, blocks_from, blocks,
}
use gwarestrin.Documents.Spans.{Covers, Covers-left, Covers-right}
use gwarestrin.Documents.Ordered.{block_start, block_end}

-- All of `[from, to)` lies in the blocks.
abbrev Within : ℕ → ℕ → List Block → Type 0
Within from to bs = (i : ℕ) → from ≤ i → i < to → Covers block_start block_end i bs

Within-left : (from to : ℕ) (bs cs : List Block) → Within from to bs → Within from to (bs ++ cs)
Within-left from to bs cs h i x y = Covers-left block_start block_end i bs cs (h i x y)

Within-right : (from to : ℕ) (bs cs : List Block) → Within from to cs → Within from to (bs ++ cs)
Within-right from to bs cs h i x y = Covers-right block_start block_end i bs cs (h i x y)

Within-block : (b : Block) (from to : ℕ) → b.start ≤ from → to ≤ b.end → Within from to (b ∷ [])
Within-block b from to x y i p q = inl (omega arith, omega arith)

-- An open block is not blank, and ends before the line that comes next.
abbrev IsOpen : Option Block → ℕ → Type 0
IsOpen none pos = Unit
IsOpen (some b) pos = (is_blank b.text ≡ false) × (b.start ≤ b.end) × (b.end ≤ pos)

abbrev OpenWithin : Option Block → List Block → Type 0
OpenWithin none bs = Unit
OpenWithin (some b) bs = Within b.start b.end bs

is_blank-append : (s t : List ℕ) → is_blank s ≡ false → is_blank (s ++ t) ≡ false
is_blank-append [] t h = absurd (cc h)
is_blank-append (c ∷ s) t h = elim (Bool-cases (is_space c)) [
  | inl e ↦ rw e (is_blank-append s t (rw e at h))
  | inr e ↦ rw e
]

flush_block-Within :
    (cur : Option Block) (pos : ℕ) → IsOpen cur pos → OpenWithin cur (flush_block cur)
flush_block-Within none pos h = tt
flush_block-Within (some b) pos (n, x, y) =
    rw (flush_block, n) (Within-block b b.start b.end (omega arith) (omega arith))

OpenWithin-left :
    (cur : Option Block) (bs cs : List Block) → OpenWithin cur bs → OpenWithin cur (bs ++ cs)
OpenWithin-left none bs cs h = tt
OpenWithin-left (some b) bs cs h = Within-left b.start b.end bs cs h

OpenWithin-right :
    (cur : Option Block) (bs cs : List Block) → OpenWithin cur cs → OpenWithin cur (bs ++ cs)
OpenWithin-right none bs cs h = tt
OpenWithin-right (some b) bs cs h = Within-right b.start b.end bs cs h

-- What a round does to the open block and to a line that is not blank: each is in the blocks given, or in the block left open.
abbrev Into : ℕ → ℕ → List Block → Option Block → Type 0
Into from to given none = Within from to given
Into from to given (some b) = Within from to given ⊎ ((b.start ≤ from) × (to ≤ b.end))

Into-rest :
    (from to : ℕ) (given rest : List Block) (left : Option Block)
    → Into from to given left
    → OpenWithin left rest
    → Within from to (given ++ rest)
Into-rest from to given rest none h k = Within-left from to given rest h
Into-rest from to given rest (some b) (inl h) k = Within-left from to given rest h
Into-rest from to given rest (some b) (inr (x, y)) k =
    Within-right from to given rest (λ i p q. k i (omega arith) (omega arith))

abbrev OpenInto : Option Block → List Block → Option Block → Type 0
OpenInto none given left = Unit
OpenInto (some b) given left = Into b.start b.end given left

Into-given :
    (from to : ℕ) (given : List Block) (left : Option Block)
    → Within from to given
    → Into from to given left
Into-given from to given none h = h
Into-given from to given (some b) h = inl h

OpenInto-given :
    (cur : Option Block) (given : List Block) (left : Option Block)
    → OpenWithin cur given
    → OpenInto cur given left
OpenInto-given none given left h = tt
OpenInto-given (some b) given left h = Into-given b.start b.end given left h

OpenInto-rest :
    (cur : Option Block) (given rest : List Block) (left : Option Block)
    → OpenInto cur given left
    → OpenWithin left rest
    → OpenWithin cur (given ++ rest)
OpenInto-rest none given rest left h k = tt
OpenInto-rest (some b) given rest left h k = Into-rest b.start b.end given rest left h k

-- One round.
abbrev Keeps : ℕ → List ℕ → Option Block → List Block × Option Block → Type 0
Keeps pos line cur step =
    OpenInto cur step.0 step.1
    × (is_blank line ≡ false → Into pos (pos + length line) step.0 step.1)
    × IsOpen step.1 (suc (pos + length line))

block_step_text :
    (pos : ℕ) (line : List ℕ) (cur : Option Block)
    → is_blank line ≡ false
    → is_speaker line ≡ false
    → block_step pos line cur none ≡ ([], some (extend_block pos line cur))
block_step_text pos line cur e t = rw (block_step, e, t)

block_step-Keeps :
    (pos : ℕ) (line : List ℕ) (cur : Option Block) (h : Option (ℕ × List ℕ))
    → IsOpen cur pos
    → Keeps pos line cur (block_step pos line cur h)
block_step-Keeps pos line cur (some (level, name)) v = (
  OpenInto-given cur _ none
      (OpenWithin-left cur (flush_block cur) _ (flush_block-Within cur pos v)),
  λ n. Within-right pos (pos + length line) (flush_block cur) _ (
      Within-block
        (record { kind = heading level name; start = pos; end = pos + length line; text = line })
        pos (pos + length line) (omega arith) (omega arith)),
  tt,
)
block_step-Keeps pos line cur none v = elim (Bool-cases (is_blank line)) [
  | inl e ↦
      rw (block_step, e)
        (OpenInto-given cur _ none (flush_block-Within cur pos v), (λ n. absurd (cc n)), tt)
  | inr e ↦ elim (Bool-cases (is_speaker line)) [
    | inl t ↦
        rw (block_step, e, t)
          (
            OpenInto-given cur _ (some (open_block pos line)) (flush_block-Within cur pos v),
            (λ n. inr (omega arith, omega arith)),
            (e, omega arith, omega arith),
          )
    | inr t ↦ subst (Keeps pos line cur) (sym (block_step_text pos line cur e t)) (extended cur v e)
  ]
]
  where
    extended :
        (cur : Option Block)
        → IsOpen cur pos
        → is_blank line ≡ false
        → Keeps pos line cur ([], some (extend_block pos line cur))
    extended none h e = (tt, (λ n. inr (omega arith, omega arith)), (e, omega arith, omega arith))
    extended (some b) (n, x, y) e = (
      inr (omega arith, omega arith),
      (λ n. inr (omega arith, omega arith)),
      (is_blank-append b.text (10 ∷ line) n, omega arith, omega arith),
    )

-- The lines that are not blank, the first of them at `pos`, all lie in what `P` covers.
abbrev pub Lines : (ℕ → Type 0) → ℕ → List (List ℕ) → Type 0
Lines P pos [] = Unit
Lines P pos (line ∷ ls) =
    (is_blank line ≡ false → (i : ℕ) → pos ≤ i → i < pos + length line → P i)
    × Lines P (suc (pos + length line)) ls

pub Lines-map :
    (P Q : ℕ → Type 0) (pos : ℕ) (ls : List (List ℕ))
    → ((i : ℕ) → P i → Q i)
    → Lines P pos ls
    → Lines Q pos ls
Lines-map P Q pos [] f h = tt
Lines-map P Q pos (line ∷ ls) f (h, hs) =
    ((λ n i x y. f i (h n i x y)), Lines-map P Q (suc (pos + length line)) ls f hs)

blocks_from-Lines :
    (pos : ℕ) (cur : Option Block) (ls : List (List ℕ))
    → IsOpen cur pos
    → OpenWithin cur (blocks_from pos cur ls)
      × Lines (λ i. Covers block_start block_end i (blocks_from pos cur ls)) pos ls
blocks_from-Lines pos cur [] v = (flush_block-Within cur pos v, tt)
blocks_from-Lines pos cur (line ∷ ls) v =
    let (kept, here, left) = block_step-Keeps pos line cur (heading_of (trim_units line)) v in
    let (later, lines) =
      blocks_from-Lines (suc (pos + length line))
        (block_step pos line cur (heading_of (trim_units line))).1 ls left in
    (
      OpenInto-rest cur _ _ _ kept later,
      (
        (λ n. Into-rest pos (pos + length line) _ _ _ (here n) later),
        Lines-map _ _ (suc (pos + length line)) ls
            (λ i h.
              Covers-right block_start block_end i
                (block_step pos line cur (heading_of (trim_units line))).0 _ h)
            lines,
      ),
    )

pub blocks-Lines :
    (s : List ℕ) → Lines (λ i. Covers block_start block_end i (blocks s)) 0 (split_lines s)
unfolding blocks
blocks-Lines s = (blocks_from-Lines 0 none (split_lines s) tt).1
