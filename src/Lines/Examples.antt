-- ===== src/Lines/Examples.antt =====
-- Runs of the splitter. The decoder of the examples keeps the high byte of a two-byte unit between two calls.
use gwarestrin.Base.{
  ℕ, ◌+◌, ◌*◌, ◌≡◌, refl, Bool, true, false, Option, none, some, List, [], ◌∷◌, if◌then◌else◌, ltb,
}
use gwarestrin.Lines.{
  StringDecoder, Chunk, text, buffer_of, drain, create_lf_line_splitter, feed, flush, run,
}
use gwarestrin.Lines.Split.{lines_of}
use gwarestrin.Lines.Whole.{lines_and_rest, run-whole}
use gwarestrin.Lines.Records.{AllRecords, run-written}

-- Units below 128 are one byte; a byte from 128 on is the high half of a unit.
abbrev two_bytes : Option ℕ → List ℕ → Option ℕ × List ℕ
two_bytes held [] = (held, [])
two_bytes (some high) (b ∷ bs) = let rest = two_bytes none bs in (rest.0, (high * 256 + b) ∷ rest.1)
two_bytes none (b ∷ bs) =
    let plain = two_bytes none bs in
    let high = two_bytes (some b) bs in if ltb b 128 then (plain.0, b ∷ plain.1) else high

abbrev replaced : Option ℕ → List ℕ
replaced none = []
replaced (some high) = 65533 ∷ []

abbrev decoder : StringDecoder (Option ℕ)
decoder = record { start = none; write = two_bytes; finish = replaced }

abbrev two_lines : List (Bool × List ℕ)
two_lines = (false, 97 ∷ 98 ∷ []) ∷ (true, 33000 ∷ 99 ∷ []) ∷ []

-- The second chunk ends inside a unit.
abbrev pieces : List Chunk
pieces =
    text (97 ∷ [])
    ∷ buffer_of (98 ∷ 10 ∷ 128 ∷ [])
    ∷ buffer_of (232 ∷ 99 ∷ 13 ∷ [])
    ∷ text (10 ∷ [])
    ∷ []

two_lines-AllRecords : AllRecords two_lines
two_lines-AllRecords = (
  record { filled = λ e. absurd (cc e); one_line = refl; no_return = refl },
  (record { filled = λ e. absurd (cc e); one_line = refl; no_return = refl }, tt),
)

run_empty_lines :
    run decoder (create_lf_line_splitter decoder) (text (10 ∷ 13 ∷ 10 ∷ 97 ∷ 32 ∷ []) ∷ [])
    ≡ (97 ∷ 32 ∷ []) ∷ []
unfolding run feed flush drain
run_empty_lines = refl

run-written_example :
    run decoder (create_lf_line_splitter decoder) pieces ≡ (97 ∷ 98 ∷ []) ∷ (33000 ∷ 99 ∷ []) ∷ []
run-written_example = run-written decoder pieces two_lines two_lines-AllRecords refl refl

run-whole_example :
    run decoder (create_lf_line_splitter decoder) pieces
    ≡ lines_and_rest decoder (lines_of [] (97 ∷ 98 ∷ 10 ∷ 33000 ∷ 99 ∷ 13 ∷ 10 ∷ [])) []
run-whole_example = run-whole decoder pieces
