-- ===== src/Documents/Examples.antt =====
-- The sections of a short document.
use gwarestrin.Base.{ℕ, zero, suc, ◌≡◌, refl, false, List, [], ◌∷◌, ◌++◌, length, map}
use gwarestrin.Dates.{codes}
use gwarestrin.Documents.Blocks.{text, blocks, split_lines, Block}
use gwarestrin.Documents.Chunks.{Section, unix_lines, spans_of, chunk}
use gwarestrin.Documents.Spans.{Ordered, Covers}
use gwarestrin.Documents.Sections.{section_start, section_end, chunk-Ordered}
use gwarestrin.Documents.Kept.{Lines}
use gwarestrin.Documents.Covered.{chunk-Lines}

abbrev minutes : List ℕ
minutes =
    codes
      "# Minutes\r\n\r\nKen: the pump leaks\r\nsince May.\r\nMARIA (QA): I know.\r\n \r\n## Next"

abbrev block_spans : List ℕ → List (ℕ × ℕ)
block_spans s = map (λ (b : Block). (b.start, b.end)) (blocks s)

abbrev section_spans : List ℕ → List (ℕ × ℕ)
section_spans s = map (λ (c : Section). (c.start, c.end)) (chunk s)

two_speakers : block_spans (unix_lines false minutes) ≡ (0, 9) ∷ (11, 41) ∷ (42, 61) ∷ (64, 71) ∷ []
unfolding blocks
two_speakers = refl

one_section : section_spans minutes ≡ (0, 71) ∷ []
unfolding chunk spans_of blocks
one_section = refl

chunk-Ordered_example :
    Ordered section_start section_end 0 (chunk minutes) (length (unix_lines false minutes))
chunk-Ordered_example = chunk-Ordered minutes

chunk-Lines_example :
    Lines
      (λ i. Covers section_start section_end i (chunk minutes))
      0
      (split_lines (unix_lines false minutes))
chunk-Lines_example = chunk-Lines minutes

abbrev units : ℕ → ℕ → List ℕ
units zero c = []
units (suc n) c = c ∷ units n c

-- A short block and a long one behind it are one section, which is longer than `chunk_max`.
longer_than_max : section_spans (units 300 b'a' ++ 10 ∷ 10 ∷ units 3150 b'b') ≡ (0, 3452) ∷ []
unfolding chunk spans_of blocks
longer_than_max = refl

abbrev long_block : Block
long_block = record { kind = text; start = 10; end = 5010; text = units 5000 b'a' }
