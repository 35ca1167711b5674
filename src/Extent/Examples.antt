-- ===== src/Extent/Examples.antt =====
-- The theorems about ends at concrete texts and writes.
use gwarestrin.Base.{ℕ, ◌+◌, ◌*◌, ◌≡◌, refl, Option, none, some, List, [], ◌∷◌, ok, err}
use gwarestrin.Dates.{day, codes, relative_days}
use gwarestrin.Extent.{
  Explicit, invalid, in_past, too_far, parse_valid_until, grader_until, to_instant,
}
use gwarestrin.Extent.Rules.{Write}

abbrev no_date : List ℕ → Option ℕ
no_date s = none

abbrev one_date : List ℕ → Option ℕ
one_date s = some 100

abbrev fortnight : Explicit
fortnight = record { valid_until = some (7 + 14 * day) }

abbrev lasting : Explicit
lasting = record { valid_until = none }

-- The grader gives an end, a writer says that the entry lasts, the grader gives one again.
abbrev writes : List Write
writes =
    record { explicit = none; graded = some (some 99) }
    ∷ record { explicit = some lasting; graded = none }
    ∷ record { explicit = none; graded = some (some 100) }
    ∷ []

fortnight_read : parse_valid_until no_date (some (codes " 14 Days ")) 7 ≡ ok (some fortnight)
unfolding parse_valid_until relative_days
fortnight_read = refl

lasting_read : parse_valid_until no_date (some (codes "Lasting")) 7 ≡ ok (some lasting)
unfolding parse_valid_until
lasting_read = refl

refused :
    (parse_valid_until no_date (some (codes "0d")) 7 ≡ err in_past)
    × (parse_valid_until no_date (some (codes "9999d")) 7 ≡ err too_far)
    × (parse_valid_until no_date (some (codes "soon")) 7 ≡ err invalid)
unfolding parse_valid_until to_instant relative_days
refused = (refl, refl, refl)

graded_dates :
    (grader_until one_date (some (codes "2026-10-16")) 50 ≡ some 100)
    × (grader_until one_date (some (codes "2026-10-16")) 100 ≡ none)
unfolding grader_until to_instant
graded_dates = (refl, refl)
