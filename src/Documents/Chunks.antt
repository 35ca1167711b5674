-- ===== src/Documents/Chunks.antt =====
-- graph-rag/src/documents.js: `chunk`.
use gwarestrin.Base.{
  ℕ, suc, ◌-◌, Bool, true, false, ◌&&◌, Option, none, some, List, [], ◌∷◌, ◌++◌, if◌then◌else◌, leb,
  ltb, eqb,
}
use Prim.Native.Nat.{max}
use gwarestrin.Documents.Blocks.{
  chunk_target, chunk_min, chunk_max, overlap, take_units, slice, Kind, heading, text, Block,
  blocks, split_long,
}

-- A section while it is being filled, and what is kept of it.
pub record Chunk : Type 0 where
  pub name : List ℕ
  pub start : ℕ
  pub end : ℕ
  pub body : Bool

pub record Section : Type 0 where
  pub index : ℕ
  pub name : List ℕ
  pub start : ℕ
  pub end : ℕ
  pub text : List ℕ
  pub embed_text : List ℕ

-- `src.replace(/\r\n?/g, "\n")`; `after_return` says that the unit before was a carriage return.
abbrev pub unix_lines : Bool → List ℕ → List ℕ
unix_lines after_return [] = []
unix_lines after_return (c ∷ s) =
    let plain = unix_lines false s in
    let returned = unix_lines true s in
    if eqb c 13 then 10 ∷ returned else if eqb c 10 && after_return then plain else c ∷ plain

abbrev pub is_long : Block → Bool
is_long b = elim b.kind [ text ↦ ltb chunk_max (b.end - b.start) | heading level name ↦ false ]

abbrev pub split_if_long : Block → List Block
split_if_long b = if is_long b then split_long b else b ∷ []

abbrev pub split_all : List Block → List Block
split_all [] = []
split_all (b ∷ bs) = split_if_long b ++ split_all bs

abbrev pub close_chunk : Option Chunk → List Chunk
close_chunk none = []
close_chunk (some c) = c ∷ []

abbrev pub has_substance : Chunk → Bool
has_substance c = leb chunk_min (c.end - c.start)

abbrev pub open_chunk : List ℕ → Block → Bool → Chunk
open_chunk name b body = record { name = name; start = b.start; end = b.end; body = body }

-- The sections that a block closes, and the open section and heading behind it.
pub record Filling : Type 0 where
  pub closed : List Chunk
  pub open_one : Option Chunk
  pub under : List ℕ

abbrev pub headed : List ℕ → Block → Chunk → Chunk
headed name b c = record c { end = b.end; name = if c.body then c.name else name }

abbrev pub filled : Block → Chunk → Chunk
filled b c = record c { end = b.end; body = true }

abbrev pub fill : Kind → Block → Option Chunk → List ℕ → Filling
fill (heading level name) b none under = record {
  closed = [];
  open_one = some (open_chunk name b false);
  under = name;
}
fill (heading level name) b (some c) under =
    if has_substance c
    then record { closed = c ∷ []; open_one = some (open_chunk name b false); under = name }
    else record { closed = []; open_one = some (headed name b c); under = name }
fill text b none under = record {
  closed = [];
  open_one = some (open_chunk under b true);
  under = under;
}
fill text b (some c) under =
    if ltb chunk_target (b.end - c.start) && has_substance c
    then record { closed = c ∷ []; open_one = some (open_chunk under b true); under = under }
    else record { closed = []; open_one = some (filled b c); under = under }

abbrev pub chunks_from : List ℕ → Option Chunk → List Block → List Chunk
chunks_from under cur [] = close_chunk cur
chunks_from under cur (b ∷ bs) =
    let next = fill b.kind b cur under in next.closed ++ chunks_from next.under next.open_one bs

unfoldable pub spans_of : List ℕ → List Chunk
unfolding blocks split_long
spans_of src = chunks_from [] none (split_all (blocks src))

abbrev line_of : List ℕ → List ℕ
line_of [] = []
line_of (c ∷ s) = (c ∷ s) ++ 10 ∷ []

abbrev context : List ℕ → List ℕ
context [] = []
context (c ∷ s) = 8230 ∷ (c ∷ s) ++ 10 ∷ []

-- The tail of the section before.
abbrev tail_of : List ℕ → Option Chunk → List ℕ
tail_of src none = []
tail_of src (some p) = slice (max p.start (p.end - overlap)) p.end src

abbrev pub section_of : List ℕ → ℕ → Option Chunk → Chunk → Section
section_of src index before c = record {
  index = index;
  name = c.name;
  start = c.start;
  end = c.end;
  text = slice c.start c.end src;
  embed_text =
      take_units 6000 (line_of c.name ++ context (tail_of src before) ++ slice c.start c.end src);
}

abbrev pub sections_of : List ℕ → ℕ → Option Chunk → List Chunk → List Section
sections_of src index before [] = []
sections_of src index before (c ∷ cs) =
    section_of src index before c ∷ sections_of src (suc index) (some c) cs

unfoldable pub chunk : List ℕ → List Section
unfolding spans_of
chunk s = let src = unix_lines false s in sections_of src 0 none (spans_of src)
