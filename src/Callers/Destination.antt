-- ===== src/Callers/Destination.antt =====
-- graph-rag/src/server.js: where a write lands (`resolveWriteHome`, `positionId`).
use Prim.Native.String.{String}
use gwarestrin.Base.{
  Bool, true, false, not, ◌&&◌, ◌||◌, Option, none, some, List, [], ◌∷◌, ◌==◌, if◌then◌else◌, elem,
  Result, ok, err,
}
use gwarestrin.Dates.{codes}
use gwarestrin.Extent.{is_word, trim}
use gwarestrin.Positions.{Position, PositionMap, everyone, root_name, known, writable_homes}
use gwarestrin.Callers.Scopes.{Server, Scope, WriteHome, unscoped, at}

pub data WriteError : Type 0 where
  map_not_loaded no_position admin_only not_writable : WriteError
  unknown_position : String → WriteError

abbrev named : String → List (String × Position) → Option String
named ref [] = none
named ref ((id, p) ∷ ps) = let rest = named ref ps in if p.name == ref then some id else rest

abbrev named_or : String → Option String → Result WriteError String
named_or ref none = err (unknown_position ref)
named_or ref (some id) = ok id

-- A position's id, for its id or its exact name.
unfoldable pub position_id : Option PositionMap → String → Result WriteError String
position_id m ref = if is_word (codes everyone) (trim (codes ref)) then ok everyone else elim m [
  | none ↦ err (unknown_position ref)
  | some pm ↦
      if ref == root_name || ref == "Top of the organization"
      then ok pm.root
      else if known pm ref
      then ok ref
      else named_or ref (named ref pm.positions)
]

abbrev pub default_write : WriteHome → Result WriteError (Option String)
default_write (at h) = ok (some h)
default_write _ = err no_position

abbrev pub chosen_write :
    PositionMap → Scope → Bool → Result WriteError String → Result WriteError (Option String)
chosen_write m scope everyone_ok (err e) = err e
chosen_write m scope everyone_ok (ok id) =
    if id == everyone
    then (if scope.root && everyone_ok then ok (some everyone) else err admin_only)
    else if elem id (writable_homes m scope.held)
    then ok (some id)
    else err not_writable

abbrev pub home_in_scope :
    PositionMap → Scope → Bool → Option String → Result WriteError (Option String)
home_in_scope m scope everyone_ok none = default_write scope.write_home
home_in_scope m scope everyone_ok (some ref) =
    if ref == ""
    then default_write scope.write_home
    else chosen_write m scope everyone_ok (position_id (some m) ref)

abbrev pub is_unscoped : WriteHome → Bool
is_unscoped unscoped = true
is_unscoped _ = false

-- `ok none` is `undefined`: an unscoped write.
unfoldable pub resolve_write_home :
    Server → Scope → Bool → Option String → Result WriteError (Option String)
unfolding position_id
resolve_write_home sv scope everyone_ok requested =
    if not sv.scoped || is_unscoped scope.write_home then ok none else elim sv.position_map [
      | none ↦ err map_not_loaded
      | some m ↦ home_in_scope m scope everyone_ok requested
    ]
