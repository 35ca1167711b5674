-- ===== src/Lines/Split.antt =====
-- The lines of a text, read from its front: what `drain` is compared with.
use gwarestrin.Base.{
  ℕ, zero, suc, ◌≤◌, ◌<◌, ◌≡◌, refl, sym, ap, ◌∙◌, subst, true, false, none, some, List, [], ◌∷◌,
  ◌++◌, if◌then◌else◌, eqb, length, arith, inl, inr, Bool-cases, Option-cases,
}
use gwarestrin.Lines.{newline, cut_line, emit_line, drain_lines, drain}
use mathlib.Core.List.{append-nil, append_assoc}

-- `held` is the line read so far; the answer is the lines given and what is left without a newline.
abbrev pub lines_of : List ℕ → List ℕ → List (List ℕ) × List ℕ
lines_of held [] = ([], held)
lines_of held (c ∷ s) =
    let next = lines_of [] s in
    let more = lines_of (held ++ (c ∷ [])) s in
    if eqb c newline then (emit_line held ++ next.0, next.1) else more

lines_of-newline :
    (held : List ℕ) (c : ℕ) (s : List ℕ)
    → eqb c newline ≡ true
    → lines_of held (c ∷ s) ≡ (emit_line held ++ (lines_of [] s).0, (lines_of [] s).1)
lines_of-newline held c s e = rw e

lines_of_other :
    (held : List ℕ) (c : ℕ) (s : List ℕ)
    → eqb c newline ≡ false
    → lines_of held (c ∷ s) ≡ lines_of (held ++ (c ∷ [])) s
lines_of_other held c s e = rw e

-- A text without a newline stays held.
lines_of_uncut : (held s : List ℕ) → cut_line s ≡ none → lines_of held s ≡ ([], held ++ s)
lines_of_uncut held [] e = rw append-nil
lines_of_uncut held (c ∷ s) e = elim (Bool-cases (eqb c newline)) [
  | inl t ↦ absurd (cc (rw t at e))
  | inr t ↦ elim (Option-cases (cut_line s)) [
    | inl n ↦ lines_of_other held c s t ∙ lines_of_uncut (held ++ (c ∷ [])) s n ∙ rw append_assoc
    | inr (q, n) ↦ absurd (cc (rw (t, n) at e))
  ]
]

-- What one round of the loop does, told of the whole text.
abbrev Cuts : List ℕ → List ℕ → List ℕ → List ℕ → Type 0
Cuts held s line after =
    (lines_of held s ≡ (emit_line (held ++ line) ++ (lines_of [] after).0, (lines_of [] after).1))
    × (length after < length s)

Cuts-newline :
    (held : List ℕ) (c : ℕ) (s line after : List ℕ)
    → eqb c newline ≡ true
    → [] ≡ line
    → s ≡ after
    → Cuts held (c ∷ s) line after
Cuts-newline held c s line after t el ea =
    (rw (sym el, sym ea, append-nil) (lines_of-newline held c s t), rw ea (omega arith))

Cuts-other :
    (held : List ℕ) (c : ℕ) (s l line after : List ℕ)
    → eqb c newline ≡ false
    → (c ∷ l) ≡ line
    → Cuts (held ++ (c ∷ [])) s l after
    → Cuts held (c ∷ s) line after
Cuts-other held c s l line after t el (e, h) =
    (lines_of_other held c s t ∙ e ∙ rw (append_assoc, sym el), omega arith)

lines_of_cut :
    (held s line after : List ℕ) → cut_line s ≡ some (line, after) → Cuts held s line after
lines_of_cut held [] line after e = absurd (cc e)
lines_of_cut held (c ∷ s) line after e = elim (Bool-cases (eqb c newline)) [
  | inl t ↦ Cuts-newline held c s line after t (cc (rw t at e)) (cc (rw t at e))
  | inr t ↦ elim (Option-cases (cut_line s)) [
    | inl n ↦ absurd (cc (rw (t, n) at e))
    | inr ((l, a), n) ↦ Cuts-other held c s l line after t (cc (rw (t, n) at e)) (
        subst (λ a. Cuts (held ++ (c ∷ [])) s l a) (cc (rw (t, n) at e))
          (lines_of_cut (held ++ (c ∷ [])) s l a n))
  ]
]

drain_step :
    (fuel : ℕ) (buffer line after : List ℕ)
    → cut_line buffer ≡ some (line, after)
    → drain_lines (suc fuel) buffer
      ≡ (emit_line line ++ (drain_lines fuel after).0, (drain_lines fuel after).1)
drain_step fuel buffer line after e = rw (drain_lines, e)

drain_stop :
    (fuel : ℕ) (buffer : List ℕ) → cut_line buffer ≡ none → drain_lines fuel buffer ≡ ([], buffer)
drain_stop zero buffer e = refl
drain_stop (suc fuel) buffer e = rw (drain_lines, e)

-- Fuel for each code unit of the buffer is enough.
drain_lines-lines_of :
    (fuel : ℕ) (buffer : List ℕ)
    → length buffer ≤ fuel
    → drain_lines fuel buffer ≡ lines_of [] buffer
drain_lines-lines_of zero [] h = refl
drain_lines-lines_of zero (c ∷ s) h = absurd (omega (arith, h))
drain_lines-lines_of (suc fuel) buffer h = elim (Option-cases (cut_line buffer)) [
  | inl n ↦ drain_stop (suc fuel) buffer n ∙ sym (lines_of_uncut [] buffer n)
  | inr ((line, after), n) ↦
      drain_step fuel buffer line after n
      ∙ rw
          (drain_lines-lines_of fuel after (omega (arith, (lines_of_cut [] buffer line after n).1)))
          (sym (lines_of_cut [] buffer line after n).0)
]

pub drain-lines_of : (buffer : List ℕ) → drain buffer ≡ lines_of [] buffer
unfolding drain
drain-lines_of buffer = drain_lines-lines_of (length buffer) buffer (omega arith)

-- A text in two parts: the second part is read with what the first leaves held.
abbrev pub joined : List (List ℕ) × List ℕ → List ℕ → List (List ℕ) × List ℕ
joined r s = (r.0 ++ (lines_of r.1 s).0, (lines_of r.1 s).1)

joined_lines :
    (ls : List (List ℕ)) (r : List (List ℕ) × List ℕ) (t : List ℕ)
    → joined (ls ++ r.0, r.1) t ≡ (ls ++ (joined r t).0, (joined r t).1)
joined_lines ls r t = rw append_assoc

pub lines_of-append : (held s t : List ℕ) → lines_of held (s ++ t) ≡ joined (lines_of held s) t
lines_of-append held [] t = refl
lines_of-append held (c ∷ s) t = elim (Bool-cases (eqb c newline)) [
  | inl e ↦
      lines_of-newline held c (s ++ t) e
      ∙ ap (λ r. (emit_line held ++ r.0, r.1)) (lines_of-append [] s t)
      ∙ sym (joined_lines (emit_line held) (lines_of [] s) t)
      ∙ ap (λ r. joined r t) (sym (lines_of-newline held c s e))
  | inr e ↦
      lines_of_other held c (s ++ t) e
      ∙ lines_of-append (held ++ (c ∷ [])) s t
      ∙ ap (λ r. joined r t) (sym (lines_of_other held c s e))
]
