-- ===== src/Grading.antt =====
-- graph-rag/src/grading.js: `decide`, the home that a grader's verdict gives an entry.
--
-- A confidence is a natural number on a scale that the threshold shares (say, millionths): the code
-- only compares it and prints it with two digits, by the argument `fixed` (`toFixed(2)`).
use Prim.Native.String.{◌++◌}
use gwarestrin.Base.{
  ℕ, String, Bool, false, not, ◌&&◌, Option, none, some, ◌==◌, if◌then◌else◌, leb, elem,
}
use gwarestrin.Positions.{PositionMap, parent_of, ancestors}

pub record Verdict : Type 0 where
  pub home : String
  pub confidence : ℕ
  pub release : Option String
  pub reason : String

pub record Proposal : Type 0 where
  pub to : String
  pub reason : String

pub record Restriction : Type 0 where
  pub from : String
  pub reason : String

-- What `decide`, `applyFloor` and `place` return; an absent property is `none` or `false`.
pub record Placed : Type 0 where
  pub home : String
  pub review : Option Proposal
  pub release : Option Proposal
  pub restricted : Option Restriction
  pub ungraded : Bool
  pub note : String

abbrev pub placed_at : String → String → Placed
placed_at home note = record {
  home = home;
  review = none;
  release = none;
  restricted = none;
  ungraded = false;
  note = note;
}

-- `verdict && verdict.confidence >= threshold`
abbrev pub is_sure : Option Verdict → ℕ → Bool
is_sure none threshold = false
is_sure (some v) threshold = leb threshold v.confidence

-- `map.positions[origin]?.parent ?? origin`
abbrev pub one_up : PositionMap → String → String
one_up m origin = elim (parent_of m origin) [ none ↦ origin | some up ↦ up ]

abbrev pub restricts : PositionMap → String → Verdict → String → Bool
restricts m origin v current =
    not (v.home == origin) && (not (v.home == current) && elem v.home (ancestors m current))

-- An entry that has a home already.
unfoldable pub decide_update : PositionMap → String → Option Verdict → String → ℕ → Placed
decide_update m origin none current threshold = placed_at current "kept (grader unsure)"
decide_update m origin (some v) current threshold =
    if leb threshold v.confidence
    then (if restricts m origin v current
        then record (placed_at v.home ("restricted by grading (" ++ (v.reason ++ ")"))) {
          restricted = some (record { from = current; reason = v.reason });
        }
        else placed_at current "kept")
    else placed_at current "kept (grader unsure)"

abbrev suggested : Option String → String → Option Proposal
suggested none reason = none
suggested (some to) reason = some (record { to = to; reason = "grader suggests: " ++ reason })

module _ (fixed : ℕ → String) where
  abbrev unsure_reason : Option Verdict → String
  unsure_reason none = "not graded (grader unavailable or unclear)"
  unsure_reason (some v) = "grader unsure (" ++ (fixed v.confidence ++ ("): " ++ v.reason))

  abbrev unsure_note : Option Verdict → String
  unsure_note none = "held one level up: not graded"
  unsure_note (some v) = "held one level up: grader unsure"

  -- A new entry that no verdict, or an unsure one, places.
  unfoldable pub decide_unsure : PositionMap → String → Option Verdict → Placed
  decide_unsure m origin verdict =
      let up = one_up m origin in
      record (placed_at up (unsure_note verdict)) {
        review =
            if up == origin
            then none
            else some (record { to = origin; reason = unsure_reason verdict });
      }

  unfoldable pub decide_new : PositionMap → String → Option Verdict → ℕ → Placed
  unfolding decide_unsure
  decide_new m origin none threshold = decide_unsure m origin none
  decide_new m origin (some v) threshold =
      if leb threshold v.confidence
      then record (placed_at v.home (
          if v.home == origin
          then "graded: " ++ v.reason
          else "restricted by grading: " ++ v.reason)) { release = suggested v.release v.reason }
      else decide_unsure m origin (some v)

  unfoldable pub decide : PositionMap → String → Option Verdict → Option String → ℕ → Placed
  unfolding decide_new decide_update
  decide m origin verdict none threshold = decide_new m origin verdict threshold
  decide m origin verdict (some current) threshold =
      decide_update m origin verdict current threshold
