-- ===== src/Callers/Filter.antt =====
-- graph-rag/src/server.js: what a query lets through (`homeFilter`, `ownsHome`).
use Prim.Native.String.{String}
use gwarestrin.Base.{
  Bool, true, false, ◌&&◌, Option, none, some, List, [], ◌∷◌, ◌++◌, ◌==◌, if◌then◌else◌, elem, any,
  filter,
}
use gwarestrin.Dates.{codes}
use gwarestrin.Positions.{PositionMap, effective_home}
use gwarestrin.Grants.{Entity, View, nonempty, same_text, values}
use gwarestrin.Delegation.{is_text}
use gwarestrin.Delegation.Texts.{is_rid}
use gwarestrin.Callers.Scopes.{Scope}

-- A stored row, as far as the filter reads it.
pub record Row : Type 0 where
  pub rid : String
  pub name : String
  pub origin : Option String
  pub home : Option String
  pub written_by : Option String
  pub kind : Option String
  pub homes : List String

pub data Cond : Type 0 where
  home_in : List String → Cond
  written_by : String → Cond
  thing_in : List String → Cond
  entity_in : List Entity → Cond

abbrev pub in_homes : Option String → List String → Bool
in_homes none homes = false
in_homes (some h) homes = elem h homes

abbrev pub is_entity : Row → Entity → Bool
is_entity r e =
    r.rid == e.rid
    && (r.name == e.name && (if nonempty e.origin then same_text r.origin e.origin else true))

abbrev pub meets : Row → Cond → Bool
meets r (home_in homes) = in_homes r.home homes
meets r (written_by person) = is_text r.written_by person
meets r (thing_in homes) = is_text r.kind "thing" && any (λ h. elem h homes) r.homes
meets r (entity_in entities) = any (is_entity r) entities

abbrev pub some_homes : List String → List Cond → List Cond
some_homes [] conds = []
some_homes (h ∷ hs) conds = conds

abbrev pub granted_homes : Option View → List String
granted_homes none = []
granted_homes (some v) = v.homes

-- `entityPredicate` leaves out what is not a record id.
abbrev pub granted_entities : Option View → List Entity
granted_entities none = []
granted_entities (some v) = filter (λ e. is_rid (codes e.rid)) (values v.entities)

abbrev pub entity_conds : List Entity → List Cond
entity_conds [] = []
entity_conds (e ∷ es) = entity_in (e ∷ es) ∷ []

abbrev pub person_conds : Option String → List Cond
person_conds none = []
person_conds (some p) = if p == "" then [] else written_by p ∷ []

abbrev pub conds : List String → Scope → Bool → List Cond
conds homes scope own =
    let all = if own then homes else homes ++ granted_homes scope.granted in
    some_homes all (home_in all ∷ [])
    ++ ((if own then [] else person_conds scope.person)
        ++ (some_homes all (thing_in all ∷ [])
            ++ (if own then [] else entity_conds (granted_entities scope.granted))))

-- The conditions that `homeFilter` joins by OR; `none` is no filter. No condition lets nothing through.
unfoldable pub home_filter : Scope → Bool → Option (List Cond)
home_filter scope own = elim scope.homes [ none ↦ none | some homes ↦ some (conds homes scope own) ]

abbrev pub lets : Option (List Cond) → Row → Bool
lets none r = true
lets (some cs) r = any (meets r) cs

-- Does the filter let a row through?
unfoldable pub lets_through : Scope → Bool → Row → Bool
unfolding home_filter
lets_through scope own r = lets (home_filter scope own) r

abbrev owns_in : Option (List String) → String → Bool
owns_in none h = true
owns_in (some homes) h = elem h homes

unfoldable pub owns_home : PositionMap → Scope → Option String → Bool
owns_home m scope home = owns_in scope.homes (effective_home m home)
