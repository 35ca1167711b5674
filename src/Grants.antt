-- ===== src/Grants.antt =====
-- graph-rag/src/grants.js: what a grant shows and to whom, and how long a share may last.
--
-- A `Set` is the list of what was added; the `Map` of granted entities is an association list by its
-- text keys. An optional text property of a grant is an `Option`, and an empty text is falsy as in the
-- source.
pub mod Shown
pub mod Expiry
mod Examples
use Prim.Native.String.{◌++◌ as append}
use gwarestrin.Base.{
  ℕ, ◌+◌, ◌-◌, ◌*◌, String, ◌≡◌, Bool, true, false, not, ◌&&◌, ◌||◌, Option, none, some, List, [],
  ◌∷◌, ◌++◌, ◌==◌, if◌then◌else◌, ltb, leb, filter, any, elem, keys, insert, Result, ok, err,
}
use gwarestrin.Dates.{DateText, blank, unreadable, instant, day, codes, skip_spaces, relative_days}
use gwarestrin.Positions.{PositionMap, known, ancestors, visible_homes}

pub record Grant : Type 0 where
  pub kind : String
  pub target : String
  pub target_name : String
  pub target_origin : Option String
  pub to : String
  pub to_user : Option String
  pub status : String
  pub expires_at : Option DateText

pub record Entity : Type 0 where
  pub rid : String
  pub name : String
  pub origin : Option String

abbrev pub in_time : Option DateText → ℕ → Bool
in_time none now = true
in_time (some blank) now = true
in_time (some unreadable) now = false
in_time (some (instant t)) now = ltb now t

unfoldable pub is_active : Grant → ℕ → Bool
is_active g now = g.status == "active" && in_time g.expires_at now

unfoldable pub subtree : PositionMap → String → List String
subtree m id =
    if known m id then filter (λ p. p == id || elem id (ancestors m p)) (keys m.positions) else []

-- `Boolean(s)` for a text that may be missing
abbrev pub nonempty : Option String → Bool
nonempty none = false
nonempty (some s) = not (s == "")

abbrev pub same_text : Option String → Option String → Bool
same_text none none = true
same_text (some a) (some b) = a == b
same_text _ _ = false

unfoldable pub reaches : Grant → List String → Option String → Bool
reaches g vis person =
    if nonempty g.to_user then nonempty person && same_text g.to_user person else elem g.to vis

pub record View : Type 0 where
  pub homes : List String
  pub entities : List (String × Entity)

abbrev pub no_view : View
no_view = record { homes = []; entities = [] }

abbrev pub entity_of : Grant → Entity
entity_of g = record { rid = g.target; name = g.target_name; origin = g.target_origin }

abbrev shown_origin : Option String → String
shown_origin none = "null"
shown_origin (some o) = o

abbrev pub entity_key : Entity → String
entity_key e = append e.rid (append "|" (append e.name (append "|" (shown_origin e.origin))))

abbrev pub is_entity_grant : Grant → Bool
is_entity_grant g = g.kind == "entity" && (not (g.target == "") && not (g.target_name == ""))

-- The body of the loop of `grantedView`.
unfoldable pub add_grant : PositionMap → List String → ℕ → Option String → View → Grant → View
unfolding is_active reaches
add_grant m vis now person view g =
    if is_active g now && reaches g vis person
    then (if g.kind == "subtree"
        then record view { homes = view.homes ++ subtree m g.target }
        else if is_entity_grant g
        then record view {
          entities = insert (entity_key (entity_of g)) (entity_of g) view.entities;
        }
        else view)
    else view

unfoldable pub add_grants : PositionMap → List String → ℕ → Option String → View → List Grant → View
unfolding add_grant
add_grants m vis now person view [] = view
add_grants m vis now person view (g ∷ gs) =
    add_grants m vis now person (add_grant m vis now person view g) gs

abbrev view_from : PositionMap → ℕ → Option String → List Grant → Option (List String) → View
view_from m now person grants none = no_view
view_from m now person grants (some vis) = add_grants m vis now person no_view grants

unfoldable pub granted_view : PositionMap → List String → List Grant → ℕ → Option String → View
unfolding add_grants
granted_view m held grants now person = view_from m now person grants (visible_homes m held)

abbrev pub values : List (String × Entity) → List Entity
values [] = []
values ((k, e) ∷ es) = e ∷ values es

abbrev pub shows : Entity → Entity → Bool
shows r e =
    e.rid == r.rid && (e.name == r.name && (same_text e.origin none || same_text e.origin r.origin))

-- Does a view show this record (its rid, name and origin)?
unfoldable pub grant_shows : View → Entity → Bool
grant_shows view r = any (shows r) (values view.entities)

abbrev row_at : String → List Entity → Option Entity → Option Entity
row_at rid [] found = found
row_at rid (r ∷ rows) found = row_at rid rows (if r.rid == rid then some r else found)

abbrev pub is_gone : Grant → Option Entity → Bool
is_gone g none = true
is_gone g (some r) =
    not (r.name == g.target_name)
    || (nonempty g.target_origin && not (same_text r.origin g.target_origin))

-- `at.get(g.target)`: of rows with one rid the last counts.
unfoldable pub is_dangling : List Entity → Grant → Bool
is_dangling rows g =
    g.kind == "entity" && (not (g.target == "") && is_gone g (row_at g.target rows none))

unfoldable pub dangling_grants : List Grant → List Entity → List Grant
unfolding is_dangling
dangling_grants grants rows = filter (is_dangling rows) grants

pub data ExpiryError : Type 0 where
  invalid not_future too_long : ExpiryError

pub record ExpiryRules : Type 0 where
  pub root : Bool
  pub agent : Bool
  pub max_days : ℕ
  pub default_days : ℕ
  pub standing : String

abbrev pub unbounded : ExpiryRules → Bool
unbounded r = r.root && (not r.agent && r.standing == "root")

abbrev pub check_until : Bool → ℕ → ℕ → Option ℕ → Result ExpiryError (Option ℕ)
check_until free max_days now none = err invalid
check_until free max_days now (some t) =
    if leb t now
    then err not_future
    else if not free && ltb (max_days * day) (t - now)
    then err too_long
    else ok (some t)

abbrev pub default_until : ExpiryRules → ℕ → Option ℕ
default_until r now = if unbounded r then none else some (now + r.default_days * day)

module _ (date_parse : String → Option ℕ) where
  abbrev pub read_until : String → ℕ → Option ℕ
  read_until until now = elim (relative_days 3 (skip_spaces (codes until))) [
    | some days ↦ some (now + days * day)
    | none ↦ date_parse until
  ]

  -- The instant at which a share ends; `none` is a standing share.
  unfoldable pub resolve_expiry : Option String → ExpiryRules → ℕ → Result ExpiryError (Option ℕ)
  resolve_expiry none r now = ok (default_until r now)
  resolve_expiry (some until) r now =
      if until == ""
      then ok (default_until r now)
      else check_until (unbounded r) r.max_days now (read_until until now)
