-- ===== src/Lines.antt =====
-- packages/server/src/util/lf-splitter.ts: the splitter that cuts what a process writes into lines.
--
-- A text is its list of UTF-16 code units. Node's StringDecoder is `StringDecoder`: its state, what it
-- gives for a piece of bytes, and what it gives at the end. `onLine` is the list of the lines given to it.
pub mod Split
pub mod Whole
pub mod Records
mod Examples
use gwarestrin.Base.{
  ℕ, zero, suc, ◌≡◌, Bool, not, Option, none, some, List, [], ◌∷◌, ◌++◌, if◌then◌else◌, eqb, length,
  all,
}
use gwarestrin.Dates.{is_space}

pub record StringDecoder (D : Type 0) : Type 0 where
  pub start : D
  pub write : D → List ℕ → D × List ℕ
  pub finish : D → List ℕ

pub data Chunk : Type 0 where
  text : List ℕ → Chunk
  buffer_of : List ℕ → Chunk

abbrev pub newline : ℕ
newline = 10

abbrev pub carriage_return : ℕ
carriage_return = 13

abbrev push_front : ℕ → Option (List ℕ × List ℕ) → Option (List ℕ × List ℕ)
push_front c none = none
push_front c (some (line, after)) = some (c ∷ line, after)

-- `buffer.indexOf("\n")`, with what stands before the newline and after it
abbrev pub cut_line : List ℕ → Option (List ℕ × List ℕ)
cut_line [] = none
cut_line (c ∷ s) =
    let rest = cut_line s in if eqb c newline then some ([], s) else push_front c rest

-- `if (line.endsWith("\r")) line = line.slice(0, -1)`, and `rest.replace(/\r$/, "")`
abbrev pub strip_return : List ℕ → List ℕ
strip_return [] = []
strip_return (c ∷ []) = if eqb c carriage_return then [] else c ∷ []
strip_return (c ∷ d ∷ s) = c ∷ strip_return (d ∷ s)

-- `if (line.length > 0) onLine(line)`
abbrev unless_empty : List ℕ → List (List ℕ)
unless_empty [] = []
unless_empty (c ∷ s) = (c ∷ s) ∷ []

abbrev pub emit_line : List ℕ → List (List ℕ)
emit_line line = unless_empty (strip_return line)

-- The loop of `drain`: the lines it gives, and the buffer it leaves.
abbrev pub drain_lines : ℕ → List ℕ → List (List ℕ) × List ℕ
drain_lines zero buffer = ([], buffer)
drain_lines (suc fuel) buffer = elim (cut_line buffer) [
  | none ↦ ([], buffer)
  | some (line, after) ↦ (emit_line line ++ (drain_lines fuel after).0, (drain_lines fuel after).1)
]

unfoldable pub drain : List ℕ → List (List ℕ) × List ℕ
drain buffer = drain_lines (length buffer) buffer

abbrev pub emit_rest : List ℕ → List (List ℕ)
emit_rest rest = if not (all is_space (strip_return rest)) then strip_return rest ∷ [] else []

pub record LfLineSplitter (D : Type 0) : Type 0 where
  pub buffer : List ℕ
  pub decoder : D

module _ {D : Type 0} (string_decoder : StringDecoder D) where
  abbrev pub create_lf_line_splitter : LfLineSplitter D
  create_lf_line_splitter = record { buffer = []; decoder = string_decoder.start }

  abbrev pub decode_chunk : D → Chunk → D × List ℕ
  decode_chunk d (text s) = (d, s)
  decode_chunk d (buffer_of bytes) = string_decoder.write d bytes

  unfoldable pub feed : LfLineSplitter D → Chunk → List (List ℕ) × LfLineSplitter D
  unfolding drain
  feed p chunk =
      let read = decode_chunk p.decoder chunk in
      let drained = drain (p.buffer ++ read.1) in
      (drained.0, record { buffer = drained.1; decoder = read.0 })

  unfoldable pub flush : LfLineSplitter D → List (List ℕ)
  unfolding drain
  flush p =
      let drained = drain p.buffer in
      drained.0 ++ emit_rest (drained.1 ++ string_decoder.finish p.decoder)

  -- All lines of a process: its chunks in order, then its end.
  unfoldable pub run : LfLineSplitter D → List Chunk → List (List ℕ)
  unfolding feed flush
  run p [] = flush p
  run p (chunk ∷ chunks) = (feed p chunk).0 ++ run (feed p chunk).1 chunks

  -- The text that the chunks hold, and the decoder's state behind them.
  abbrev pub received : D → List Chunk → List ℕ
  received d [] = []
  received d (chunk ∷ chunks) = (decode_chunk d chunk).1 ++ received (decode_chunk d chunk).0 chunks

  abbrev pub decoder_after : D → List Chunk → D
  decoder_after d [] = d
  decoder_after d (chunk ∷ chunks) = decoder_after (decode_chunk d chunk).0 chunks
