-- ===== src/Positions/Examples.antt =====
-- A small organization, and the theorems about positions at it.
use gwarestrin.Base.{
  ◌≢◌, ◌⊎◌, err, String, ◌≡◌, refl, true, false, ◌&&◌, Option, none, some, [], ◌∷◌, ok, err, elem,
  any, all,
}
use gwarestrin.Positions.{
  Position, PositionMap, everyone, known, visible_homes, can_see, move_kind, restrict, widen,
  writable_homes, common_ancestor,
}
use gwarestrin.Positions.Chain.{IsTree}
use gwarestrin.Positions.Order.{at_or_above}
use gwarestrin.Positions.Visible.{sees, visible_homes-exact, can_see-eq-sees}
use gwarestrin.Positions.Moves.{restrict_hides, widen_shows}
use gwarestrin.Positions.Common.{common_ancestor-exact}
use gwarestrin.Positions.Parse.{
  lost, spent, Value, text, object, end, field, cycle, parse_position_map, walk_all,
}
use gwarestrin.Positions.Parse.Tree.{parse_position_map-IsTree}
use gwarestrin.Positions.Parse.Errors.{inherits_in, parse_position_map_ends}

abbrev entry : String → String → Value
entry name parent = object (field "name" (text name) (field "parent" (text parent) end))

abbrev org_doc : Value
org_doc = object (
    field "root" (text "org") (
      field "positions"
        (object (
          field "org" (object (field "name" (text "Org") end)) (
            field "floor" (entry "Floor" "org") (
              field "shift" (entry "Night shift" "floor")
                (field "sales" (entry "Sales" "gone") end)))))
        end))

abbrev position : String → Option String → Position
position name parent = record { name = name; parent = parent; description = none }

abbrev pub org : PositionMap
org = record {
  root = "org";
  positions =
      ("org", position "Org" none)
      ∷ ("floor", position "Floor" (some "org"))
      ∷ ("shift", position "Night shift" (some "floor"))
      ∷ ("sales", position "Sales" (some "org"))
      ∷ [];
}

parse-org : parse_position_map org_doc ≡ ok org
unfolding parse_position_map
parse-org = refl

pub org-IsTree : IsTree org
org-IsTree = parse_position_map-IsTree org_doc org parse-org refl refl

parse_position_map-IsTree_example : IsTree org
parse_position_map-IsTree_example = parse_position_map-IsTree org_doc org parse-org refl refl

-- A parent that every object inherits is kept, and the check then fails at it.
abbrev astray_doc : Value
astray_doc = object (
    field "root" (text "org") (
      field "positions"
        (object (
          field "org" (object (field "name" (text "Org") end)) (
            field "a" (object (field "name" (text "A") (field "parent" (text "constructor") end)))
              end)))
        end))

parse-astray : parse_position_map astray_doc ≡ err lost
unfolding parse_position_map
parse-astray = refl

parse_position_map_ends_example :
    (parse_position_map astray_doc ≢ err spent)
    × ((parse_position_map astray_doc ≢ err lost) ⊎ (inherits_in astray_doc ≡ true))
parse_position_map_ends_example = parse_position_map_ends astray_doc

abbrev ring : PositionMap
ring = record {
  root = "org";
  positions =
      ("org", position "Org" none)
      ∷ ("a", position "A" (some "b"))
      ∷ ("b", position "B" (some "a"))
      ∷ [];
}

ring_refused : walk_all ring ("a" ∷ []) ≡ err (cycle "a")
unfolding walk_all
ring_refused = refl

floor_homes : visible_homes org ("floor" ∷ []) ≡ some ("shift" ∷ "floor" ∷ everyone ∷ [])
unfolding visible_homes
floor_homes = refl

visible_homes-exact_example :
    elem "shift" ("shift" ∷ "floor" ∷ everyone ∷ [])
    ≡ any (λ p. known org p && at_or_above org p "shift") ("floor" ∷ [])
visible_homes-exact_example =
    visible_homes-exact org-IsTree ("floor" ∷ []) ("shift" ∷ "floor" ∷ everyone ∷ []) "shift"
      floor_homes

can_see-eq-sees_example :
    can_see org ("floor" ∷ []) (some "sales") ≡ sees org ("floor" ∷ []) (some "sales")
can_see-eq-sees_example = can_see-eq-sees org-IsTree ("floor" ∷ []) (some "sales")

move_up : move_kind org (some "shift") "floor" ≡ restrict
unfolding move_kind
move_up = refl

floor_sees : can_see org ("floor" ∷ []) (some "floor") ≡ true
unfolding can_see
floor_sees = refl

restrict_hides_example : can_see org ("floor" ∷ []) (some "shift") ≡ true
restrict_hides_example =
    restrict_hides org-IsTree (some "shift") "floor" ("floor" ∷ []) move_up floor_sees

move_down : move_kind org (some "floor") "shift" ≡ widen
unfolding move_kind
move_down = refl

widen_shows_example :
    (held : _) × (can_see org held (some "shift") ≡ true)
    × (can_see org held (some "floor") ≡ false)
widen_shows_example = widen_shows org-IsTree (some "floor") "shift" refl move_down

floor_writable : elem "floor" (writable_homes org ("shift" ∷ [])) ≡ true
unfolding writable_homes
floor_writable = refl

common_ancestor-exact_example :
    can_see org ("floor" ∷ []) (some (common_ancestor org (some "shift" ∷ some "sales" ∷ [])))
    ≡ all (can_see org ("floor" ∷ [])) (some "shift" ∷ some "sales" ∷ [])
common_ancestor-exact_example =
    common_ancestor-exact org-IsTree "floor" (some "shift" ∷ some "sales" ∷ []) (λ e. cc)
