-- ===== src/Positions.antt =====
-- graph-rag/src/positions.js: the position tree, who sees which home, and where a write may go.
--
-- `PositionMap` is the parsed map; `positions` is an object with text keys, read by `lookup`. A loop
-- that climbs the tree takes as fuel the number of positions, and the worklist of `visibleHomes` the
-- held positions and all positions together; `Positions.Chain` and `Positions.Visible` show that this
-- is enough on the maps that `parse_position_map` lets through.
pub mod Chain
pub mod Order
pub mod Children
pub mod Worklist
pub mod Visible
pub mod Moves
pub mod Writes
pub mod Common
pub mod Parse
pub mod Examples
use Prim.Native.String.{compare}
use mathlib.Core.List.{reverse, head?, get_last?}
use Prim.Native.Nat.{Ordering}
use gwarestrin.Base.{
  ℕ, zero, suc, ◌+◌, String, ◌≡◌, refl, Bool, true, false, not, ◌&&◌, ◌||◌, Option, none, some,
  List, [], ◌∷◌, ◌++◌, map, ◌==◌, if◌then◌else◌, ltb, eqb, length, filter, sort, any, all, elem,
  lookup, keys, is_some,
}

pub record Position : Type 0 where
  pub name : String
  pub parent : Option String
  pub description : Option String

pub record PositionMap : Type 0 where
  pub root : String
  pub positions : List (String × Position)

abbrev pub everyone : String
everyone = "everyone"

abbrev parent_in : Option Position → Option String
parent_in none = none
parent_in (some p) = p.parent

-- `map.positions[id]?.parent`
abbrev pub parent_of : PositionMap → String → Option String
parent_of m id = parent_in (lookup id m.positions)

-- `map.positions[id]` as a test
abbrev pub known : PositionMap → String → Bool
known m id = is_some (lookup id m.positions)

-- The loop of `ancestors`, from the parent on; a missing and an empty parent end it.
unfoldable pub climb : ℕ → PositionMap → Option String → List String
climb zero m cur = []
climb (suc f) m none = []
climb (suc f) m (some q) = let rest = climb f m (parent_of m q) in if q == "" then [] else q ∷ rest

-- What `ancestors` returns for a position.
unfoldable pub chain : PositionMap → String → List String
unfolding climb
chain m id = climb (length m.positions) m (parent_of m id)

-- `(a, b) => depth(b) - depth(a)`, read as: `a` stands before `b`
abbrev pub deeper : PositionMap → String → String → Bool
deeper m a b = ltb (length (chain m b)) (length (chain m a))

unfoldable pub ancestors : PositionMap → String → List String
unfolding chain
ancestors m id = if id == everyone then sort (deeper m) (keys m.positions) else chain m id

unfoldable pub held_positions : PositionMap → List String → List String
held_positions m held = filter (known m) held

-- `childIndex(map).get(id) ?? []`
abbrev child_of : String → Option String → Bool
child_of id none = false
child_of id (some q) = id == q

unfoldable pub children_in : String → List (String × Position) → List String
children_in id [] = []
children_in id ((k, p) ∷ ps) =
    let rest = children_in id ps in if child_of id p.parent then k ∷ rest else rest

abbrev pub children : PositionMap → String → List String
children m id = children_in id m.positions

-- The `while (stack.length)` loop; the stack has its top at the head, so what is pushed is reversed.
unfoldable pub spread : ℕ → PositionMap → List String → List String → List String
spread zero m stack out = out
spread (suc f) m [] out = out
spread (suc f) m (id ∷ stack) out =
    let skip = spread f m stack out in
    let visit = spread f m (reverse (children m id) ++ stack) (id ∷ out) in
    if elem id out then skip else visit

-- `none` is "everything"; a set is the list of what was added, latest first.
unfoldable pub visible_homes : PositionMap → List String → Option (List String)
unfolding spread held_positions children_in
visible_homes m held =
    let mine = held_positions m held in
    if elem m.root mine
    then none
    else some (spread (length mine + length m.positions) m (reverse mine) (everyone ∷ []))

-- A home as stored: absent, or a text.
unfoldable pub effective_home : PositionMap → Option String → String
effective_home m none = m.root
effective_home m (some h) = if h == everyone then everyone else if known m h then h else m.root

abbrev pub seen_in : Option (List String) → String → Bool
seen_in none h = true
seen_in (some vis) h = elem h vis

unfoldable pub can_see : PositionMap → List String → Option String → Bool
unfolding visible_homes effective_home
can_see m held home = seen_in (visible_homes m held) (effective_home m home)

abbrev pub root_name : String
root_name = "Top of the organization (admins only)"

abbrev name_in : Option Position → String
name_in none = ""
name_in (some p) = p.name

unfoldable pub home_name : PositionMap → Option String → String
unfolding effective_home
home_name m home =
    let id = effective_home m home in
    if id == everyone
    then "Everyone"
    else if id == m.root
    then root_name
    else name_in (lookup id m.positions)

-- The comparator of `defaultHome`: deeper first, then by name; `text_lt` stands for `localeCompare`.
abbrev pub home_before : (String → String → Bool) → PositionMap → String → String → Bool
home_before text_lt m a b =
    let da = length (ancestors m a) in
    let db = length (ancestors m b) in
    if eqb da db
    then text_lt (name_in (lookup a m.positions)) (name_in (lookup b m.positions))
    else ltb db da

unfoldable pub default_home : (String → String → Bool) → PositionMap → List String → Option String
unfolding held_positions ancestors
default_home text_lt m held = head? (sort (home_before text_lt m) (held_positions m held))

abbrev writable_from : PositionMap → List String → List String
writable_from m [] = []
writable_from m (id ∷ ids) = (id ∷ ancestors m id) ++ writable_from m ids

unfoldable pub writable_homes : PositionMap → List String → List String
unfolding held_positions ancestors
writable_homes m held = writable_from m (held_positions m held)

pub data Move : Type 0 where
  restrict widen : Move

unfoldable pub move_kind : PositionMap → Option String → String → Move
unfolding effective_home ancestors
move_kind m from to =
    let f = effective_home m from in
    if to == everyone
    then (if f == everyone then restrict else widen)
    else if to == f || elem to (ancestors m f)
    then restrict
    else widen

-- One round of the loop of `commonAncestor`: keep what is at or above `h` too.
abbrev pub narrow : PositionMap → List String → String → List String
narrow m above h = filter (λ p. elem p (h ∷ ancestors m h)) above

abbrev pub narrow_all : PositionMap → List String → List String → List String
narrow_all m above [] = above
narrow_all m above (h ∷ hs) = narrow_all m (narrow m above h) hs

abbrev first_or : String → List String → String
first_or d [] = d
first_or d (x ∷ xs) = x

abbrev common_of : PositionMap → List String → List String → String
common_of m [] [] = m.root
common_of m (_ ∷ _) [] = everyone
common_of m all (h ∷ hs) = first_or m.root (narrow_all m (h ∷ ancestors m h) hs)

unfoldable pub common_ancestor : PositionMap → List (Option String) → String
unfolding effective_home ancestors
common_ancestor m homes =
    let all = map (effective_home m) homes in
    common_of m all (filter (λ h. not (h == everyone)) all)
