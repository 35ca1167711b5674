-- ===== src/Lines/Records.antt =====
-- packages/server/src/util/lf-splitter.ts: the records of another process, read back.
use gwarestrin.Base.{
  ℕ, ◌≡◌, ◌≢◌, refl, ap, ◌∙◌, Bool, true, false, not, List, [], ◌∷◌, ◌++◌, eqb, all, inl, inr,
  Bool-cases, &&-eq-true,
}
use gwarestrin.Lines.{
  StringDecoder, Chunk, newline, carriage_return, strip_return, emit_line, create_lf_line_splitter,
  run, received, decoder_after,
}
use gwarestrin.Lines.Split.{lines_of}
use gwarestrin.Lines.Whole.{run-whole}
use mathlib.Core.List.{append-nil, append_assoc}

abbrev inside_line : ℕ → Bool
inside_line c = not (eqb c newline)

abbrev ends_in_return : List ℕ → Bool
ends_in_return [] = false
ends_in_return (c ∷ []) = eqb c carriage_return
ends_in_return (c ∷ d ∷ s) = ends_in_return (d ∷ s)

-- A record of the protocol: a text that is not empty, holds no newline and does not end in a carriage return.
pub record IsRecord (r : List ℕ) : Type 0 where
  pub filled : r ≢ []
  pub one_line : all inside_line r ≡ true
  pub no_return : ends_in_return r ≡ false

-- A record is written with `\n` or `\r\n` behind it.
abbrev line_end : Bool → List ℕ
line_end true = carriage_return ∷ newline ∷ []
line_end false = newline ∷ []

abbrev pub written : List (Bool × List ℕ) → List ℕ
written [] = []
written ((w, r) ∷ rs) = r ++ (line_end w ++ written rs)

abbrev pub records_of : List (Bool × List ℕ) → List (List ℕ)
records_of [] = []
records_of ((w, r) ∷ rs) = r ∷ records_of rs

abbrev pub AllRecords : List (Bool × List ℕ) → Type 0
AllRecords [] = Unit
AllRecords ((w, r) ∷ rs) = IsRecord r × AllRecords rs

strip_return-kept : (r : List ℕ) → ends_in_return r ≡ false → strip_return r ≡ r
strip_return-kept [] h = refl
strip_return-kept (c ∷ []) h = rw (strip_return, h)
strip_return-kept (c ∷ d ∷ s) h = ap (◌∷◌ c) (strip_return-kept (d ∷ s) h)

strip_return-snoc : (r : List ℕ) → strip_return (r ++ (carriage_return ∷ [])) ≡ r
strip_return-snoc [] = refl
strip_return-snoc (c ∷ []) = refl
strip_return-snoc (c ∷ d ∷ s) = ap (◌∷◌ c) (strip_return-snoc (d ∷ s))

emit_line-filled : (line r : List ℕ) → strip_return line ≡ r → r ≢ [] → emit_line line ≡ r ∷ []
emit_line-filled line [] e h = absurd (h refl)
emit_line-filled line (c ∷ r) e h = rw e

lines_of_inside :
    (held : List ℕ) (c : ℕ) (s : List ℕ)
    → inside_line c ≡ true
    → lines_of held (c ∷ s) ≡ lines_of (held ++ (c ∷ [])) s
lines_of_inside held c s h = elim (Bool-cases (eqb c newline)) [
  | inl e ↦ absurd (cc (rw e at h))
  | inr e ↦ rw (lines_of, e)
]

-- A text without a newline is read into the held line.
lines_of-one_line :
    (held r s : List ℕ) → all inside_line r ≡ true → lines_of held (r ++ s) ≡ lines_of (held ++ r) s
lines_of-one_line held [] s h = rw append-nil
lines_of-one_line held (c ∷ r) s h =
    lines_of_inside held c (r ++ s) (&&-eq-true (inside_line c) (all inside_line r) h).0
    ∙ lines_of-one_line (held ++ (c ∷ [])) r s (&&-eq-true (inside_line c) (all inside_line r) h).1
    ∙ rw append_assoc

lines_of-end :
    (w : Bool) (r s : List ℕ)
    → IsRecord r
    → lines_of r (line_end w ++ s) ≡ (r ∷ (lines_of [] s).0, (lines_of [] s).1)
lines_of-end false r s v = rw (emit_line-filled r r (strip_return-kept r v.no_return) v.filled)
lines_of-end true r s v =
    rw (emit_line-filled (r ++ (carriage_return ∷ [])) r (strip_return-snoc r) v.filled)

lines_of-written :
    (rs : List (Bool × List ℕ)) → AllRecords rs → lines_of [] (written rs) ≡ (records_of rs, [])
lines_of-written [] h = refl
lines_of-written ((w, r) ∷ rs) (v, h) =
    lines_of-one_line [] r (line_end w ++ written rs) v.one_line
    ∙ lines_of-end w r (written rs) v
    ∙ rw (lines_of-written rs h)

-- Records that are written with `\n` or `\r\n` behind each, and arrive whole in chunks of any size, are
-- given to the listener one by one, unchanged and in order; nothing else is.
pub run-written :
    {D : Type 0} (string_decoder : StringDecoder D) (chunks : List Chunk)
    (rs : List (Bool × List ℕ))
    → AllRecords rs
    → received string_decoder string_decoder.start chunks ≡ written rs
    → string_decoder.finish (decoder_after string_decoder string_decoder.start chunks) ≡ []
    → run string_decoder (create_lf_line_splitter string_decoder) chunks ≡ records_of rs
run-written string_decoder chunks rs v e t =
    run-whole string_decoder chunks ∙ rw (e, t, lines_of-written rs v, append-nil)
