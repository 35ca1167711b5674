-- ===== src/Placement.antt =====
-- graph-rag/src/placement.js: the home of an entry, from its origin, its verdict, its current home and
-- the derived-data floor.
pub mod Bounds
mod Examples
use Prim.Native.String.{◌++◌}
use gwarestrin.Base.{
  ℕ, String, ◌≡◌, Bool, true, false, not, ◌&&◌, Option, none, some, ◌==◌, if◌then◌else◌, elem,
}
use gwarestrin.Positions.{PositionMap, everyone, ancestors, home_name}
use gwarestrin.Grading.{Verdict, Placed, placed_at, one_up, decide}

abbrev pub awaiting_note : String
awaiting_note = "held one level up: awaiting grading"

abbrev pub raises : PositionMap → String → String → Bool
raises m home floor = not (floor == home) && elem floor (ancestors m home)

-- The floor is a text that is not empty and not the origin.
unfoldable pub raise_to : PositionMap → Placed → String → Placed
raise_to m place floor =
    let rest = record place { release = none; review = none } in
    if raises m place.home floor
    then record rest {
      home = floor;
      note =
          "held at "
          ++ (home_name m (some floor)
              ++ (": built from what its writer read there or below (" ++ (place.note ++ ")")));
    }
    else rest

unfoldable pub apply_floor : PositionMap → Placed → String → Option String → Placed
unfolding raise_to
apply_floor m place origin none = place
apply_floor m place origin (some floor) =
    if floor == "" then place else if floor == origin then place else raise_to m place floor

abbrev pub current_home : Bool → Option String → Option String
current_home awaiting existing = if awaiting then none else existing

abbrev pub await_grading : PositionMap → String → Placed
await_grading m origin =
    let up = one_up m origin in
    record (placed_at up
      (if up == origin then "at the root (awaiting grading)" else awaiting_note)) {
        ungraded = true;
      }

abbrev pub used_verdict : Bool → Option Verdict → Option Verdict
used_verdict graded verdict = if graded then verdict else none

abbrev pub decided :
    (ℕ → String) → PositionMap → String → Option Verdict → Bool → Option String → ℕ → Placed
decided fixed m origin verdict graded (some current) threshold =
    decide fixed m origin (used_verdict graded verdict) (some current) threshold
decided fixed m origin verdict graded none threshold =
    if graded then decide fixed m origin verdict none threshold else await_grading m origin

unfoldable pub place :
    (ℕ → String)
    → PositionMap
    → String
    → Option Verdict
    → Bool
    → Option String
    → Bool
    → Option String
    → ℕ
    → Placed
unfolding apply_floor
place fixed m origin verdict graded existing awaiting floor threshold =
    apply_floor m (decided fixed m origin verdict graded (current_home awaiting existing) threshold)
      origin floor

-- Would the floor hold a write above `at`?
unfoldable pub floor_lifts : PositionMap → String → Option String → Bool
floor_lifts m at none = false
floor_lifts m at (some floor) =
    not (floor == "")
    && (not (floor == at) && (not (at == everyone) && elem floor (ancestors m at)))
