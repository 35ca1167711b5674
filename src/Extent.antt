-- ===== src/Extent.antt =====
-- graph-rag/src/extent.js: how long an entry stays true. `date_parse` is `Date.parse` of a text, given
-- by its code points; the end of a day is asked for by the same function, as in the source.
mod Rules
mod Examples
use Prim.Native.String.{String}
use mathlib.Core.List.{reverse}
use gwarestrin.Base.{
  ℕ, ◌+◌, ◌-◌, ◌*◌, ◌≡◌, Bool, true, false, not, ◌&&◌, ◌||◌, Option, none, some, List, [], ◌∷◌,
  ◌++◌, ◌==◌, if◌then◌else◌, ltb, leb, eqb, any, Result, ok, err,
}
use gwarestrin.Dates.{
  DateText, blank, unreadable, instant, day, codes, is_digit, skip_spaces, relative_days,
}

abbrev pub max_years : ℕ
max_years = 10

abbrev pub grader_max_years : ℕ
grader_max_years = 5

-- `s.trim()`
abbrev pub trim : List ℕ → List ℕ
trim s = reverse (skip_spaces (reverse (skip_spaces s)))

abbrev lower : ℕ → ℕ
lower c = if leb b'A' c && leb c b'Z' then c + 32 else c

-- A whole text against a word in lower case, with the flag `i`.
abbrev pub is_word : List ℕ → List ℕ → Bool
is_word [] [] = true
is_word (w ∷ ws) (c ∷ s) = eqb w (lower c) && is_word ws s
is_word _ _ = false

abbrev pub lasting_words : List String
lasting_words = "lasting" ∷ "never" ∷ "none" ∷ "permanent" ∷ []

-- `/^\d{4}-\d{2}-\d{2}$/`
abbrev pub is_date : List ℕ → Bool
is_date (a ∷ b ∷ c ∷ d ∷ e ∷ f ∷ g ∷ h ∷ i ∷ j ∷ []) =
    is_digit a
    && is_digit b
    && is_digit c
    && is_digit d
    && eqb e b'-'
    && is_digit f
    && is_digit g
    && eqb h b'-'
    && is_digit i
    && is_digit j
is_date _ = false

pub data ValidityError : Type 0 where
  invalid in_past too_far : ValidityError

-- `{ valid_until }`: an end, or `none` for lasting.
pub record Explicit : Type 0 where
  pub valid_until : Option ℕ

pub data Setter : Type 0 where
  writer grader : Setter

pub record Validity : Type 0 where
  pub valid_until : Option ℕ
  pub valid_by : Setter

module _ (date_parse : List ℕ → Option ℕ) where
  unfoldable pub to_instant : List ℕ → Option ℕ
  to_instant s = if is_date s then date_parse (s ++ codes "T23:59:59Z") else date_parse s

  abbrev pub read_end : List ℕ → ℕ → Option ℕ
  read_end s written_at = elim (relative_days 4 s) [
    | some days ↦ some (written_at + days * day)
    | none ↦ to_instant s
  ]

  abbrev pub check_end : ℕ → Option ℕ → Result ValidityError (Option Explicit)
  check_end written_at none = err invalid
  check_end written_at (some t) =
      if leb t written_at
      then err in_past
      else if ltb (max_years * 365 * day) (t - written_at)
      then err too_far
      else ok (some (record { valid_until = some t }))

  -- `none` in the result is `undefined`: not given.
  unfoldable pub parse_valid_until : Option (List ℕ) → ℕ → Result ValidityError (Option Explicit)
  parse_valid_until none written_at = ok none
  parse_valid_until (some []) written_at = ok none
  parse_valid_until (some (c ∷ value)) written_at =
      let s = trim (c ∷ value) in
      if any (λ w. is_word (codes w) s) lasting_words
      then ok (some (record { valid_until = none }))
      else check_end written_at (read_end s written_at)

  abbrev pub within_years : ℕ → Option ℕ → Option ℕ
  within_years written_at none = none
  within_years written_at (some t) =
      if leb t written_at || ltb (grader_max_years * 365 * day) (t - written_at)
      then none
      else some t

  -- The grader's end; `none` is lasting.
  unfoldable pub grader_until : Option (List ℕ) → ℕ → Option ℕ
  unfolding to_instant
  grader_until none written_at = none
  grader_until (some []) written_at = none
  grader_until (some (c ∷ raw)) written_at =
      if is_word (codes "null") (c ∷ raw)
      then none
      else within_years written_at (to_instant (trim (c ∷ raw)))

abbrev pub by_writer : Option Validity → Bool
by_writer none = false
by_writer (some v) = elim v.valid_by [ writer ↦ true | grader ↦ false ]

-- `graded` is `none` when grading did not run. The result `none` leaves the entry's end as it is.
unfoldable pub choose_validity :
    Option Explicit → Option Validity → Option (Option ℕ) → Option Validity
choose_validity (some e) existing graded =
    some (record { valid_until = e.valid_until; valid_by = writer })
choose_validity none existing none = none
choose_validity none existing (some until) =
    if by_writer existing then none else some (record { valid_until = until; valid_by = grader })

-- Does the stored end lie at or before `now`?
unfoldable pub is_expired : Option DateText → ℕ → Bool
is_expired none now = false
is_expired (some blank) now = false
is_expired (some unreadable) now = false
is_expired (some (instant t)) now = leb t now
