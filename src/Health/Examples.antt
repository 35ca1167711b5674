-- ===== src/Health/Examples.antt =====
-- The theorems about pauses and loops at concrete runs.
use gwarestrin.Base.{ℕ, String, ◌≡◌, refl, true, false, some, []}
use gwarestrin.Health.{Failure, Deps, report_failure, down}

abbrev timeout : Failure
timeout = record { outage = false; name = "TimeoutError"; message = "timed out"; code = "" }

abbrev digits : ℕ → String
digits n = "503"

abbrev grader_down : Deps
grader_down = (report_failure digits 1000 "grader" timeout (some 503) []).1

grader_is_down :
    (down 60999 "grader" grader_down ≡ true) × (down 61000 "grader" grader_down ≡ false)
unfolding down report_failure
grader_is_down = (refl, refl)
