-- ===== src/Documents/Blocks.antt =====
-- graph-rag/src/documents.js: `blocks` and `splitLong`.
use Prim.Native.Nat.{max}
use gwarestrin.Base.{
  ℕ, zero, suc, ◌+◌, ◌-◌, Bool, true, false, not, ◌&&◌, ◌||◌, Option, none, some, List, [], ◌∷◌,
  ◌++◌, if◌then◌else◌, leb, ltb, eqb, length, all,
}
use mathlib.Core.List.{reverse}
use gwarestrin.Dates.{is_digit, is_space, skip_spaces}

abbrev pub chunk_target : ℕ
chunk_target = 1800

abbrev pub chunk_min : ℕ
chunk_min = 400

abbrev pub chunk_max : ℕ
chunk_max = 3200

abbrev pub overlap : ℕ
overlap = 200

module _ {ℓ} {A : Type ℓ} where
  abbrev pub take_units : ℕ → List A → List A
  take_units zero s = []
  take_units (suc n) [] = []
  take_units (suc n) (c ∷ s) = c ∷ take_units n s

  abbrev pub drop_units : ℕ → List A → List A
  drop_units zero s = s
  drop_units (suc n) [] = []
  drop_units (suc n) (c ∷ s) = drop_units n s

-- `s.slice(from, to)`
abbrev pub slice : ℕ → ℕ → List ℕ → List ℕ
slice from to s = take_units (to - from) (drop_units from s)

-- `!s.trim()`
abbrev pub is_blank : List ℕ → Bool
is_blank s = all is_space s

abbrev pub trim_units : List ℕ → List ℕ
trim_units s = reverse (skip_spaces (reverse (skip_spaces s)))

abbrev pub push_line : ℕ → List (List ℕ) → List (List ℕ)
push_line c [] = (c ∷ []) ∷ []
push_line c (line ∷ ls) = (c ∷ line) ∷ ls

-- `text.split("\n")`
abbrev pub split_lines : List ℕ → List (List ℕ)
split_lines [] = [] ∷ []
split_lines (c ∷ s) = let rest = split_lines s in if eqb c 10 then [] ∷ rest else push_line c rest

pub data Kind : Type 0 where
  heading : (level : ℕ) (name : List ℕ) → Kind
  text : Kind

pub record Block : Type 0 where
  pub kind : Kind
  pub start : ℕ
  pub end : ℕ
  pub text : List ℕ

abbrev ends_line : ℕ → Bool
ends_line c = eqb c 10 || eqb c 13 || eqb c 8232 || eqb c 8233

abbrev after_spaces : List ℕ → Option (List ℕ)
after_spaces [] = none
after_spaces (c ∷ s) = if all (λ d. not (ends_line d)) (c ∷ s) then some (c ∷ s) else none

-- `\s+(.+)$`, with `hashes` in front
abbrev after_hashes : ℕ → List ℕ → Option (ℕ × List ℕ)
after_hashes hashes [] = none
after_hashes hashes (c ∷ s) =
    if is_space c && (leb 1 hashes && leb hashes 6)
    then elim (after_spaces (skip_spaces s)) [
      | none ↦ none
      | some name ↦ some (hashes, trim_units name)
    ]
    else none

-- `/^(#{1,6})\s+(.+)$/`
abbrev heading_from : ℕ → List ℕ → Option (ℕ × List ℕ)
heading_from hashes [] = none
heading_from hashes (c ∷ s) =
    let more = heading_from (suc hashes) s in
    if eqb c b'#' then more else after_hashes hashes (c ∷ s)

abbrev pub heading_of : List ℕ → Option (ℕ × List ℕ)
heading_of line = heading_from 0 line

abbrev is_upper : ℕ → Bool
is_upper c = leb b'A' c && leb c b'Z'

abbrev in_name : ℕ → Bool
in_name c =
    is_upper c
    || (leb b'a' c && leb c b'z')
    || is_digit c
    || eqb c b'_'
    || eqb c 32
    || eqb c b'.'
    || eqb c 39
    || eqb c b'('
    || eqb c b')'
    || eqb c b'-'

abbrev starts_space : List ℕ → Bool
starts_space [] = false
starts_space (c ∷ s) = is_space c

-- `[\w .'()-]{0,40}:\s`, with `left` characters left
abbrev ends_name : ℕ → List ℕ → Bool
ends_name left [] = false
ends_name zero (c ∷ s) = eqb c b':' && starts_space s
ends_name (suc left) (c ∷ s) =
    let rest = ends_name left s in if in_name c then rest else eqb c b':' && starts_space s

abbrev is_name : List ℕ → Bool
is_name [] = false
is_name (c ∷ s) = is_upper c && ends_name 40 s

abbrev in_time : ℕ → Bool
in_time c = is_digit c || eqb c b':' || eqb c b'.' || is_space c

abbrev after_time : Bool → List ℕ → Bool
after_time some_read [] = false
after_time some_read (c ∷ s) =
    let rest = after_time true s in
    if in_time c then rest else eqb c b']' && (some_read && is_name (skip_spaces s))

-- `/^(\[[\d:.\s]+\]\s*)?[A-Z][\w .'()-]{0,40}:\s/`
abbrev pub is_speaker : List ℕ → Bool
is_speaker [] = false
is_speaker (c ∷ s) = if eqb c b'[' then after_time false s else is_name (c ∷ s)

abbrev pub flush_block : Option Block → List Block
flush_block none = []
flush_block (some b) = if not (is_blank b.text) then b ∷ [] else []

abbrev pub open_block : ℕ → List ℕ → Block
open_block start line = record {
  kind = text;
  start = start;
  end = start + length line;
  text = line;
}

abbrev pub extend_block : ℕ → List ℕ → Option Block → Block
extend_block start line none = open_block start line
extend_block start line (some b) = record b {
  text = b.text ++ 10 ∷ line;
  end = start + length line;
}

-- One round of the loop: the blocks it gives, and the open block it leaves.
abbrev pub block_step : ℕ → List ℕ → Option Block → Option (ℕ × List ℕ) → List Block × Option Block
block_step start line cur (some (level, name)) = (
  flush_block cur
      ++ record { kind = heading level name; start = start; end = start + length line; text = line }
        ∷ [],
  none,
)
block_step start line cur none =
    if is_blank line
    then (flush_block cur, none)
    else if is_speaker line
    then (flush_block cur, some (open_block start line))
    else ([], some (extend_block start line cur))

abbrev pub blocks_from : ℕ → Option Block → List (List ℕ) → List Block
blocks_from pos cur [] = flush_block cur
blocks_from pos cur (line ∷ ls) =
    let step = block_step pos line cur (heading_of (trim_units line)) in
    step.0 ++ blocks_from (suc (pos + length line)) step.1 ls

unfoldable pub blocks : List ℕ → List Block
blocks s = blocks_from 0 none (split_lines s)

abbrev pub last_where : (List ℕ → Bool) → List ℕ → Option ℕ
last_where p [] = none
last_where p (c ∷ s) = elim (last_where p s) [
  | some i ↦ some (suc i)
  | none ↦ if p (c ∷ s) then some 0 else none
]

abbrev pub at_sentence : List ℕ → Bool
at_sentence (c ∷ d ∷ s) = eqb c b'.' && eqb d 32
at_sentence _ = false

abbrev pub at_newline : List ℕ → Bool
at_newline [] = false
at_newline (c ∷ s) = eqb c 10

-- An index, with 0 for -1: neither is above `chunk_min`.
abbrev pub or_first : Option ℕ → ℕ
or_first none = 0
or_first (some i) = i

abbrev pub cut_at : List ℕ → ℕ
cut_at window =
    max (or_first (last_where at_sentence window)) (or_first (last_where at_newline window))

abbrev pub part_length : List ℕ → ℕ
part_length rest =
    let cut = cut_at (take_units chunk_max rest) in if ltb chunk_min cut then suc cut else chunk_max

abbrev pub part_of : Block → ℕ → ℕ → List ℕ → Block
part_of b start end s = record b { start = start; end = end; text = s }

-- `rest` is what stands from `s` on: `b.text.slice(s - b.start)`.
abbrev pub split_from : ℕ → Block → ℕ → List ℕ → List Block
split_from zero b s rest = part_of b s b.end rest ∷ []
split_from (suc fuel) b s rest =
    let len = part_length rest in
    let more = split_from fuel b (s + len) (drop_units len rest) in
    if ltb chunk_max (b.end - s)
    then part_of b s (s + len) (take_units len rest) ∷ more
    else part_of b s b.end rest ∷ []

unfoldable pub split_long : Block → List Block
split_long b = split_from (b.end - b.start) b b.start b.text
