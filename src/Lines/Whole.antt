-- ===== src/Lines/Whole.antt =====
-- packages/server/src/util/lf-splitter.ts: the lines given for chunks, and those of the whole text.
use gwarestrin.Base.{
  ℕ, ◌≡◌, refl, sym, ap, ◌∙◌, false, List, [], ◌∷◌, ◌++◌, eqb, inl, inr, Bool-cases,
}
use gwarestrin.Lines.{
  StringDecoder, Chunk, newline, emit_rest, drain, LfLineSplitter, create_lf_line_splitter,
  decode_chunk, feed, flush, run, received, decoder_after,
}
use gwarestrin.Lines.Split.{lines_of, drain-lines_of, joined, lines_of-append}
use mathlib.Core.List.{append_assoc}

-- What the splitter holds between two calls: a line without its end.
abbrev Held : List ℕ → Type 0
Held s = lines_of [] s ≡ ([], s)

Held-snoc : (held : List ℕ) (c : ℕ) → Held held → eqb c newline ≡ false → Held (held ++ (c ∷ []))
Held-snoc held c h e = lines_of-append [] held (c ∷ []) ∙ rw (h, e)

lines_of-Held : (held s : List ℕ) → Held held → Held (lines_of held s).1
lines_of-Held held [] h = h
lines_of-Held held (c ∷ s) h = elim (Bool-cases (eqb c newline)) [
  | inl e ↦ rw (lines_of, e) (lines_of-Held [] s refl)
  | inr e ↦ rw (lines_of, e) (lines_of-Held (held ++ (c ∷ [])) s (Held-snoc held c h e))
]

-- A held line goes on with the next text as if the two had come as one.
reads_on : (held s : List ℕ) → Held held → lines_of [] (held ++ s) ≡ lines_of held s
reads_on held s h = lines_of-append [] held s ∙ rw h

drain_on : (held s : List ℕ) → Held held → drain (held ++ s) ≡ lines_of held s
drain_on held s h = drain-lines_of (held ++ s) ∙ reads_on held s h

module _ {D : Type 0} (string_decoder : StringDecoder D) where
  -- All lines of a text, and of what the decoder gives at its end.
  abbrev pub lines_and_rest : List (List ℕ) × List ℕ → List ℕ → List (List ℕ)
  lines_and_rest r tail = r.0 ++ emit_rest (r.1 ++ tail)

  flush-lines_of :
      (p : LfLineSplitter D)
      → Held p.buffer
      → flush string_decoder p ≡ emit_rest (p.buffer ++ string_decoder.finish p.decoder)
  unfolding flush
  flush-lines_of p h = rw (drain-lines_of p.buffer, h)

  lines_and_rest-joined :
      (r : List (List ℕ) × List ℕ) (s tail : List ℕ)
      → r.0 ++ lines_and_rest (lines_of r.1 s) tail ≡ lines_and_rest (joined r s) tail
  lines_and_rest-joined r s tail = sym (append_assoc r.0 _ _)

  run_chunk :
      (p : LfLineSplitter D) (chunk : Chunk) (chunks : List Chunk)
      → run string_decoder p (chunk ∷ chunks)
        ≡ (drain (p.buffer ++ (decode_chunk string_decoder p.decoder chunk).1)).0
          ++ run string_decoder
              (record {
                buffer = (drain (p.buffer ++ (decode_chunk string_decoder p.decoder chunk).1)).1;
                decoder = (decode_chunk string_decoder p.decoder chunk).0;
              })
              chunks
  unfolding run feed
  run_chunk p chunk chunks = refl

  run-lines_of :
      (p : LfLineSplitter D) (chunks : List Chunk)
      → Held p.buffer
      → run string_decoder p chunks
        ≡ lines_and_rest
            (lines_of p.buffer (received string_decoder p.decoder chunks))
            (string_decoder.finish (decoder_after string_decoder p.decoder chunks))
  unfolding run
  run-lines_of p [] h = flush-lines_of p h
  run-lines_of p (chunk ∷ chunks) h =
      run_chunk p chunk chunks
      ∙ rw (drain_on p.buffer s h, run-lines_of next chunks (lines_of-Held p.buffer s h))
          (lines_and_rest-joined (lines_of p.buffer s) (received string_decoder d chunks) _
            ∙ ap
                (λ r.
                  lines_and_rest r (string_decoder.finish (decoder_after string_decoder d chunks)))
                (sym (lines_of-append p.buffer s (received string_decoder d chunks))))
    where
      s : List ℕ
      s = (decode_chunk string_decoder p.decoder chunk).1

      d : D
      d = (decode_chunk string_decoder p.decoder chunk).0

      next : LfLineSplitter D
      next = record { buffer = (lines_of p.buffer s).1; decoder = d }

  -- The lines that a process gives are those of its whole text, read once from the front: it does not
  -- matter where the chunks were cut, nor whether they came as texts or as bytes.
  pub run-whole :
      (chunks : List Chunk)
      → run string_decoder (create_lf_line_splitter string_decoder) chunks
        ≡ lines_and_rest
            (lines_of [] (received string_decoder string_decoder.start chunks))
            (string_decoder.finish (decoder_after string_decoder string_decoder.start chunks))
  run-whole chunks = run-lines_of (create_lf_line_splitter string_decoder) chunks refl
