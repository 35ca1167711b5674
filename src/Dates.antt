-- ===== src/Dates.antt =====
-- Dates as the JavaScript code handles them. An instant is a number of milliseconds since 1970.
--
-- A date text that is stored or passed between functions is seen through what the code asks of it:
-- whether it is empty, and what `Date.parse` makes of it. `new Date(t).toISOString()` is `instant t`.
-- For a text that a person wrote, `Date.parse` is an argument of the functions that call it.
use Prim.Native.Char.{code}
use Prim.Native.String.{String}
use gwarestrin.Base.{
  ℕ, zero, suc, ◌+◌, ◌-◌, ◌*◌, ◌≡◌, refl, Bool, true, false, ◌&&◌, ◌||◌, Option, none, some, List,
  [], ◌∷◌, if◌then◌else◌, leb, eqb,
}

pub data DateText : Type 0 where
  blank unreadable : DateText
  instant : ℕ → DateText

abbrev pub day : ℕ
day = 86400000

-- The code points of a text.
abbrev pub codes : String → List ℕ
codes String.[] = []
codes (String.◌∷◌ c s) = code c ∷ codes s

-- `\d`
abbrev pub is_digit : ℕ → Bool
is_digit c = leb b'0' c && leb c b'9'

-- `\s`
abbrev pub is_space : ℕ → Bool
is_space c =
    (leb 9 c && leb c 13)
    || eqb c 32
    || eqb c 160
    || eqb c 5760
    || (leb 8192 c && leb c 8202)
    || (leb 8232 c && leb c 8233)
    || eqb c 8239
    || eqb c 8287
    || eqb c 12288
    || eqb c 65279

abbrev pub skip_spaces : List ℕ → List ℕ
skip_spaces [] = []
skip_spaces (c ∷ s) = let rest = skip_spaces s in if is_space c then rest else c ∷ s

-- A letter of a pattern with the flag `i`, given in lower case; no other code point folds to `d`, `a` or `y`.
abbrev is_letter : ℕ → ℕ → Bool
is_letter l c = eqb c l || eqb c (l - 32)

-- `s` also matches the long s (U+017F) only with the flag `u`, which the patterns lack.
-- The rest of the pattern after the digits: `\s*d(ays?)?\s*$`.
abbrev ends : List ℕ → Bool
ends [] = true
ends (c ∷ s) = false

abbrev after_ay : List ℕ → Bool
after_ay [] = true
after_ay (c ∷ s) = if is_letter b's' c then ends (skip_spaces s) else ends (skip_spaces (c ∷ s))

abbrev after_d : List ℕ → Bool
after_d [] = true
after_d (a ∷ []) = ends (skip_spaces (a ∷ []))
after_d (a ∷ y ∷ s) =
    if is_letter b'a' a && is_letter b'y' y then after_ay s else ends (skip_spaces (a ∷ y ∷ s))

abbrev days_unit : List ℕ → Bool
days_unit [] = false
days_unit (c ∷ s) = if is_letter b'd' c then after_d s else false

-- Up to `more` further digits, then the unit: the number read so far.
abbrev read_days : ℕ → ℕ → List ℕ → Option ℕ
read_days more n [] = none
read_days zero n (c ∷ s) = if days_unit (skip_spaces (c ∷ s)) then some n else none
read_days (suc more) n (c ∷ s) =
    let next = read_days more (n * 10 + (c - 48)) s in
    if is_digit c then next else if days_unit (skip_spaces (c ∷ s)) then some n else none

-- `/^\d{1,most}\s*d(ays?)?\s*$/i`, the spaces before the digits being the caller's; the number of days.
unfoldable pub relative_days : ℕ → List ℕ → Option ℕ
relative_days most [] = none
relative_days most (c ∷ s) = if is_digit c then read_days (most - 1) (c - 48) s else none

relative_two_weeks : relative_days 3 (codes "14 Days ") ≡ some 14
unfolding relative_days
relative_two_weeks = refl

relative_too_long : relative_days 3 (codes "1400d") ≡ none
unfolding relative_days
relative_too_long = refl
