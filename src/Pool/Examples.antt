-- ===== src/Pool/Examples.antt =====
-- The pool's settings at concrete inputs.
use gwarestrin.Base.{String, ◌≡◌, refl, true, false, none, List, [], ◌∷◌, arith, ok, err}
use gwarestrin.Pool.{
  pool_size, daily_threads, thread_minutes, keep_days, batch_size, batch_minutes, max_handlers,
  master, sort_first, Value, flag, whole, other, Pool, Stored, filled, pool_defaults, set_number,
  set_switch, pool_settings, not_flag, not_in_range, mentions, review, first_job,
}
use gwarestrin.Pool.Settings.{InLimits}

abbrev nothing_stored : Stored
nothing_stored = record { number = λ k. none; switch = λ k. none }

defaults-InLimits : InLimits (filled nothing_stored)
defaults-InLimits pool_size = (omega arith, omega arith)
defaults-InLimits daily_threads = (omega arith, omega arith)
defaults-InLimits thread_minutes = (omega arith, omega arith)
defaults-InLimits keep_days = (omega arith, omega arith)
defaults-InLimits batch_size = (omega arith, omega arith)
defaults-InLimits batch_minutes = (omega arith, omega arith)
defaults-InLimits max_handlers = (omega arith, omega arith)

abbrev four_threads : List (String × Value)
four_threads =
    ("poolSize", whole 3) ∷ ("colour", other) ∷ ("master", flag true) ∷ ("poolSize", whole 4) ∷ []

abbrev after_four : Pool
after_four =
    set_number pool_size 4 (set_switch master true (set_number pool_size 3 (filled nothing_stored)))

accepted : pool_settings four_threads nothing_stored ≡ ok after_four
unfolding pool_settings
accepted = refl

refused :
    (pool_settings (("keepDays", whole 91) ∷ []) nothing_stored
      ≡ err (not_in_range "keepDays" 1 90))
    × (pool_settings (("master", whole 1) ∷ []) nothing_stored ≡ err (not_flag "master"))
unfolding pool_settings
refused = (refl, refl)

first_jobs :
    (first_job after_four ≡ mentions)
    × (first_job (set_switch sort_first false (set_number pool_size 4 pool_defaults)) ≡ review)
unfolding first_job
first_jobs = (refl, refl)
