-- ===== src/Callers/Scopes.antt =====
-- graph-rag/src/server.js: what a caller sees (`scopeOf`).
use Prim.Native.String.{String}
use gwarestrin.Base.{ℕ, Bool, true, false, not, ◌||◌, Option, none, some, List, [], if◌then◌else◌}
use gwarestrin.Positions.{PositionMap, held_positions, visible_homes, default_home}
use gwarestrin.Grants.{Grant, View, granted_view}
use gwarestrin.Delegation.Texts.{after_prefix}
use gwarestrin.Callers.Identity.{Caller}

-- What the server has loaded.
pub record Server : Type 0 where
  pub scoped : Bool
  pub position_map : Option PositionMap
  pub grants : List Grant
  pub window_hours : ℕ

-- `undefined`, `null` and a position.
pub data WriteHome : Type 0 where
  unscoped nowhere : WriteHome
  at : String → WriteHome

-- `homes` is `none` for everything.
pub record Scope : Type 0 where
  pub homes : Option (List String)
  pub write_home : WriteHome
  pub root : Bool
  pub held : List String
  pub granted : Option View
  pub person : Option String

abbrev everything : Scope
everything = record {
  homes = none;
  write_home = unscoped;
  root = true;
  held = [];
  granted = none;
  person = none;
}

abbrev nothing : Scope
nothing = record {
  homes = some [];
  write_home = nowhere;
  root = false;
  held = [];
  granted = none;
  person = none;
}

abbrev split_at_agent : String → String
split_at_agent String.[] = String.[]
split_at_agent (String.◌∷◌ c s) =
    let rest = split_at_agent s in
    elim (after_prefix "/agent:" (String.◌∷◌ c s)) [ none ↦ String.◌∷◌ c rest | some _ ↦ String.[] ]

-- The person behind an identity.
abbrev pub person_of : String → String
person_of user = split_at_agent user

abbrev pub to_write_home : Option String → WriteHome
to_write_home none = nowhere
to_write_home (some h) = at h

abbrev pub is_everything : Option (List String) → Bool
is_everything none = true
is_everything (some homes) = false

module _ (text_lt : String → String → Bool) where
  abbrev pub scope_in : PositionMap → List Grant → Caller → ℕ → Scope
  scope_in m grants c now =
      let held = held_positions m c.positions in
      let homes = visible_homes m held in
      let person = person_of c.user in
      record {
        homes = homes;
        write_home = to_write_home (default_home text_lt m held);
        root = is_everything homes;
        held = held;
        granted = some (granted_view m held grants now (some person));
        person = some person;
      }

  unfoldable pub scope_of : Server → Caller → ℕ → Scope
  scope_of sv c now =
      if not sv.scoped || c.is_open
      then everything
      else elim sv.position_map [ none ↦ nothing | some m ↦ scope_in m sv.grants c now ]
