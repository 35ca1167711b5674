-- ===== src/Extent/Rules.antt =====
-- graph-rag/src/extent.js: when an end is kept, and the range of ends.
use gwarestrin.Base.{
  ℕ, ◌+◌, ◌-◌, ◌*◌, ◌≤◌, ◌<◌, ◌≡◌, refl, ◌∙◌, ap, subst, inl, inr, ◌||◌, Option, none, some, List,
  [], ◌∷◌, arith, leb, ltb, any, Bool-cases, Result, ok, err,
}
use gwarestrin.Dates.{day, codes}
use gwarestrin.Extent.{
  Explicit, ValidityError, Validity, writer, choose_validity, parse_valid_until, check_end,
  read_end, trim, is_word, lasting_words, grader_until, within_years, to_instant, max_years,
  grader_max_years,
}

-- A write to a stored entry: what the writer said of its end, and what the grader said.
pub record Write : Type 0 where
  pub explicit : Option Explicit
  pub graded : Option (Option ℕ)

abbrev kept : Option Validity → Option Validity → Option Validity
kept old none = old
kept old (some new) = some new

-- The entry's validity after some writes: a write that chooses none leaves it.
abbrev pub after_writes : Option Validity → List Write → Option Validity
after_writes v [] = v
after_writes v (w ∷ ws) = after_writes (kept v (choose_validity w.explicit v w.graded)) ws

abbrev later : Explicit → Option Explicit → Explicit
later e none = e
later e (some x) = x

-- The last end that a writer gave.
abbrev pub last_said : Explicit → List Write → Explicit
last_said e [] = e
last_said e (w ∷ ws) = last_said (later e w.explicit) ws

abbrev pub said : Explicit → Validity
said e = record { valid_until = e.valid_until; valid_by = writer }

kept-said :
    (e : Explicit) (x : Option Explicit) (g : Option (Option ℕ))
    → kept (some (said e)) (choose_validity x (some (said e)) g) ≡ some (said (later e x))
unfolding choose_validity
kept-said e (some x) g = refl
kept-said e none none = refl
kept-said e none (some until) = refl

-- Once a writer has given an entry's end (or said that it lasts), the entry's end is the last one that
-- a writer gave, through any later writes and whatever the grader says of them.
pub after_writes-said :
    (e : Explicit) (ws : List Write)
    → after_writes (some (said e)) ws ≡ some (said (last_said e ws))
after_writes-said e [] = refl
after_writes-said e (w ∷ ws) =
    ap (λ v. after_writes v ws) (kept-said e w.explicit w.graded)
    ∙ after_writes-said (later e w.explicit) ws

-- An end in the range of a writer's ends; a lasting one is in range.
abbrev pub InRange : ℕ → ℕ → Option ℕ → Type 0
InRange years at none = years ≡ years
InRange years at (some t) = (at < t) × (t ≤ at + years * 365 * day)

abbrev checked_end : Result ValidityError (Option Explicit) → Option ℕ
checked_end (err e) = none
checked_end (ok none) = none
checked_end (ok (some x)) = x.valid_until

check_end-InRange :
    (date_parse : List ℕ → Option ℕ) (at : ℕ) (t : Option ℕ) (x : Explicit)
    → check_end date_parse at t ≡ ok (some x)
    → InRange max_years at x.valid_until
check_end-InRange date_parse at none x p = cc
check_end-InRange date_parse at (some t) x p = elim (Bool-cases (leb t at)) [
  | inl e ↦ absurd (let q = rw e at p in cc)
  | inr e ↦ elim (Bool-cases (ltb (max_years * 365 * day) (t - at))) [
    | inl f ↦ absurd (let q = rw (e, f) at p in cc)
    | inr f ↦
        let q = rw (e, f) at p in
        subst (InRange max_years at) (ap checked_end q) (ground arith, ground arith)
  ]
]

-- An end that a writer gives is refused unless it lies ahead and at most ten years off.
pub parse_valid_until-InRange :
    (date_parse : List ℕ → Option ℕ) (value : Option (List ℕ)) (at : ℕ) (x : Explicit)
    → parse_valid_until date_parse value at ≡ ok (some x)
    → InRange max_years at x.valid_until
unfolding parse_valid_until
parse_valid_until-InRange date_parse none at x p = cc
parse_valid_until-InRange date_parse (some []) at x p = cc
parse_valid_until-InRange date_parse (some (c ∷ value)) at x p =
    elim (Bool-cases (any (λ w. is_word (codes w) (trim (c ∷ value))) lasting_words)) [
      | inl e ↦ let q = rw e at p in subst (InRange max_years at) (ap checked_end q) refl
      | inr e ↦
          check_end-InRange date_parse at (read_end date_parse (trim (c ∷ value)) at) x (rw e at p)
    ]

within-InRange :
    (date_parse : List ℕ → Option ℕ) (at : ℕ) (t : Option ℕ)
    → InRange grader_max_years at (within_years date_parse at t)
within-InRange date_parse at none = refl
within-InRange date_parse at (some t) =
    elim (Bool-cases (leb t at || ltb (grader_max_years * 365 * day) (t - at))) [
      | inl e ↦ rw e refl
      | inr e ↦ rw e (ground arith, ground arith)
    ]

-- The end that the grader gives, if any, lies after the writing and at most five years ahead.
pub grader_until-InRange :
    (date_parse : List ℕ → Option ℕ) (raw : Option (List ℕ)) (at : ℕ)
    → InRange grader_max_years at (grader_until date_parse raw at)
unfolding grader_until
grader_until-InRange date_parse none at = refl
grader_until-InRange date_parse (some []) at = refl
grader_until-InRange date_parse (some (c ∷ raw)) at =
    elim (Bool-cases (is_word (codes "null") (c ∷ raw))) [
      | inl e ↦ rw e refl
      | inr e ↦ rw e (within-InRange date_parse at (to_instant date_parse (trim (c ∷ raw))))
    ]
