-- ===== src/Positions/Parse.antt =====
-- graph-rag/src/positions.js: `parsePositionMap`. The parsed JSON is a `Value`; a number, a Boolean and
-- `null` are a `scalar` with its truth value. A missing property reads as a false scalar, but
-- `positions[root]` and `positions[p.parent]` see the names that every object inherits. The chain of each
-- position is walked on fuel. `lost` is the TypeError at a parent that is not in the map; `spent`, no
-- fuel left, is an outcome that the program lacks. The positions are taken to be no array, and
-- no position to have the id "undefined" or "__proto__".
mod Stored
mod Walks
pub mod Tree
pub mod Errors
use Prim.Native.String.{compare}
use gwarestrin.Base.{
  ℕ, zero, suc, ◌+◌, String, ◌≡◌, Bool, true, false, not, ◌&&◌, Option, none, some, List, [], ◌∷◌,
  ◌==◌, if◌then◌else◌, length, elem, object_names, lookup, insert, keys, Result, ok, err, ◌>>=◌,
}
use gwarestrin.Positions.{Position, PositionMap, everyone, parent_of}

mutual
  pub data Value : Type 0 where
    scalar : Bool → Value
    text : String → Value
    object : Fields → Value

  pub data Fields : Type 0 where
    end : Fields
    field : String → Value → Fields → Fields

pub data ParseError : Type 0 where
  not_object no_root root_missing reserved spent lost : ParseError
  unnamed cycle : String → ParseError

abbrev pub get_field : String → Fields → Value
get_field k end = scalar false
get_field k (field j v fs) = if k == j then v else get_field k fs

abbrev pub field_names : Fields → List String
field_names end = []
field_names (field j v fs) = j ∷ field_names fs

abbrev pub truthy : Value → Bool
truthy (scalar b) = b
truthy (text s) = not (s == "")
truthy (object fs) = true

abbrev pub as_object : Value → Option Fields
as_object (object fs) = some fs
as_object _ = none

abbrev pub as_text : Value → Option String
as_text (text s) = some s
as_text _ = none

abbrev pub text_field : String → Value → Option String
text_field k v = elim (as_object v) [ none ↦ none | some fs ↦ as_text (get_field k fs) ]

-- Is `positions[q]` truthy?
abbrev pub has_property : String → Fields → Bool
has_property q all =
    if elem q (field_names all) then truthy (get_field q all) else elem q object_names

abbrev named_parent : String → Fields → Option String → String
named_parent root all none = root
named_parent root all (some q) = if has_property q all then q else root

unfoldable pub read_parent : String → Fields → String → Value → Option String
read_parent root all id p =
    if id == root then none else some (named_parent root all (text_field "parent" p))

-- The body of the first loop for one entry: the position to store.
unfoldable pub read_position : String → Fields → String → Value → Result ParseError Position
unfolding read_parent
read_position root all id p = if id == everyone then err reserved else elim (text_field "name" p) [
  | none ↦ err (unnamed id)
  | some name ↦ ok (record {
    name = name;
    parent = read_parent root all id p;
    description = text_field "description" p;
  })
]

unfoldable pub read_all :
    String
    → Fields
    → Fields
    → List (String × Position)
    → Result ParseError (List (String × Position))
unfolding read_position
read_all root all end out = ok out
read_all root all (field id p fs) out = do
  position ← read_position root all id p
  read_all root all fs (insert id position out)

-- The second loop for one position: climb until the root, an id seen before, or a failure.
unfoldable pub walk : ℕ → PositionMap → String → List String → Result ParseError Unit
walk zero m cur seen = err spent
walk (suc f) m cur seen =
    let on : Result ParseError Unit = elim (parent_of m cur) [
      | none ↦ err lost
      | some q ↦ walk f m q (cur ∷ seen)
    ] in
    if cur == m.root then ok tt else if elem cur seen then err (cycle cur) else on

unfoldable pub walk_all : PositionMap → List String → Result ParseError Unit
unfolding walk
walk_all m [] = ok tt
walk_all m (id ∷ ids) = do done ← walk (suc (length m.positions)) m id []; walk_all m ids

abbrev pub check_tree : PositionMap → Result ParseError PositionMap
check_tree m = do done ← walk_all m (keys m.positions); ok m

abbrev pub parse_from : String → Fields → Result ParseError PositionMap
parse_from root all =
    if has_property root all
    then (do out ← read_all root all all []; check_tree (record { root = root; positions = out }))
    else err root_missing

abbrev pub nonempty_text : Value → Option String
nonempty_text (text s) = if s == "" then none else some s
nonempty_text _ = none

unfoldable pub parse_position_map : Value → Result ParseError PositionMap
unfolding walk_all read_all
parse_position_map doc = elim (as_object doc) [
  | none ↦ err not_object
  | some fs ↦ elim (nonempty_text (get_field "root" fs)) [
    | none ↦ err no_root
    | some root ↦ elim (as_object (get_field "positions" fs)) [
      | none ↦ err root_missing
      | some all ↦ parse_from root all
    ]
  ]
]
