-- ===== src/Pruning/Examples.antt =====
-- Three entries past their end, and 30 days of retention.
use gwarestrin.Base.{ℕ, ◌*◌, ◌≡◌, refl, List, [], ◌∷◌}
use gwarestrin.Dates.{day}
use gwarestrin.Pruning.{preview}

abbrev ends : List ℕ
ends = 100 * day ∷ 95 * day ∷ 60 * day ∷ []

by_days : (preview ends 30 (110 * day)).days ≡ (110, 1) ∷ (125, 1) ∷ (130, 1) ∷ []
unfolding preview
by_days = refl
