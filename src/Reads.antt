-- ===== src/Reads.antt =====
-- graph-rag/src/server.js: derived data. What an identity read bounds where its writes land
-- (`recordReads`, `derivedFloor`, `workerLift`, `workerWriteFloor`).
--
-- `Marks` is `readMarks`: for each reader the homes it was shown and when. `recordReads` also returns
-- what it stores in the database. A home of `none` stands for `undefined`.
pub mod Floor
pub mod Workers
mod Examples
use gwarestrin.Base.{
  ℕ, ◌+◌, ◌-◌, ◌*◌, String, ◌≡◌, Bool, true, false, not, ◌&&◌, ◌||◌, Option, none, some, List, [],
  ◌∷◌, ◌++◌, ◌==◌, if◌then◌else◌, ltb, eqb, elem, filter, map, lookup, insert,
}
use gwarestrin.Positions.{PositionMap, effective_home, home_name, common_ancestor}
use gwarestrin.Placement.{floor_lifts}
use gwarestrin.Callers.{Caller, Server}

abbrev pub HomeTimes : Type 0
HomeTimes = List (String × ℕ)

abbrev pub Marks : Type 0
Marks = List (String × HomeTimes)

abbrev pub hour : ℕ
hour = 3600000

abbrev pub window_ms : Server → ℕ
window_ms sv = sv.window_hours * hour

abbrev pub key_or : Option String → String → String
key_or none user = user
key_or (some k) user = k

-- Whose reads these are.
abbrev pub mark_key : Caller → String
mark_key c = key_or c.key c.user

abbrev pub times_or : Option HomeTimes → HomeTimes
times_or none = []
times_or (some l) = l

abbrev pub mine : Caller → Marks → HomeTimes
mine c marks = times_or (lookup (mark_key c) marks)

-- `new Set(...)` of texts: the first of each, in order.
abbrev pub distinct : List String → List String → List String
distinct seen [] = []
distinct seen (x ∷ xs) =
    let rest = distinct (x ∷ seen) xs in
    let skip = distinct seen xs in if elem x seen then skip else x ∷ rest

abbrev pub present : List (Option String) → List String
present [] = []
present (none ∷ hs) = present hs
present (some h ∷ hs) = h ∷ present hs

abbrev time_or : Option ℕ → ℕ
time_or none = 0
time_or (some t) = t

-- `now - last < 10 * 60_000`
abbrev stored_lately : ℕ → ℕ → Bool
stored_lately now last = ltb now (last + 600000)

-- The loop of `recordReads`: the times of one reader, and what is stored.
abbrev pub record_each : ℕ → List String → HomeTimes → HomeTimes × List String
record_each now [] times = (times, [])
record_each now (h ∷ hs) times =
    let rest = record_each now hs (insert h now times) in
    (rest.0, if stored_lately now (time_or (lookup h times)) then rest.1 else h ∷ rest.1)

abbrev pub is_scoped : Server → Bool
is_scoped sv = sv.scoped && (elim sv.position_map [ none ↦ false | some m ↦ true ])

unfoldable pub record_reads :
    Server → Caller → List (Option String) → ℕ → Marks → Marks × List String
record_reads sv c homes now marks =
    if is_scoped sv && not c.is_open
    then (let rest = record_each now (distinct [] (present homes)) (mine c marks) in
        (insert (mark_key c) rest.0 marks, rest.1))
    else (marks, [])

-- `t > now - window`
abbrev pub within : ℕ → ℕ → ℕ → Bool
within now window t = ltb now (t + window)

-- The homes that were read in the window.
abbrev pub read_in : ℕ → ℕ → HomeTimes → List String
read_in now window times = map (λ e. e.0) (filter (λ e. within now window e.1) times)

abbrev pub floor_from : PositionMap → HomeTimes → ℕ → ℕ → String → String
floor_from m times now window origin =
    common_ancestor m (some origin ∷ map some (read_in now window times))

abbrev pub floor_of : Option PositionMap → HomeTimes → ℕ → ℕ → Option String → Option String
floor_of none times now window origin = origin
floor_of (some m) times now window none = none
floor_of (some m) times now window (some origin) = some (floor_from m times now window origin)

unfoldable pub derived_floor : Server → Marks → ℕ → Caller → Option String → Option String
derived_floor sv marks now c origin =
    if not sv.scoped || (c.is_open || eqb sv.window_hours 0)
    then origin
    else floor_of sv.position_map (mine c marks) now (window_ms sv) origin

pub record Lift : Type 0 where
  pub floor : Option String
  pub home : String
  pub read : List String

abbrev above_home : PositionMap → String → ℕ → ℕ → String × ℕ → Bool
above_home m at now window e =
    within now window e.1 && not (common_ancestor m (some at ∷ some e.0 ∷ []) == at)

abbrev hidden_reads : PositionMap → String → ℕ → ℕ → HomeTimes → List String
hidden_reads m at now window times =
    distinct [] (map (λ e. home_name m (some e.0)) (filter (above_home m at now window) times))

abbrev pub lift_in : PositionMap → Server → Marks → ℕ → Caller → String → Option Lift
lift_in m sv marks now c at =
    let floor = derived_floor sv marks now c (some at) in
    if floor_lifts m at floor
    then some (record {
      floor = floor;
      home = at;
      read = hidden_reads m at now (window_ms sv) (mine c marks);
    })
    else none

abbrev pub lift_at : Option PositionMap → Server → Marks → ℕ → Caller → Option String → Option Lift
lift_at none sv marks now c home = none
lift_at (some m) sv marks now c none = none
lift_at (some m) sv marks now c (some home) =
    lift_in m sv marks now c (effective_home m (some home))

-- Would the floor hold a worker's write above where the entry lives?
unfoldable pub worker_lift : Server → Marks → ℕ → Caller → Option String → Option Lift
unfolding derived_floor
worker_lift sv marks now c home =
    if sv.scoped then lift_at sv.position_map sv marks now c home else none

pub record WriteFloor : Type 0 where
  pub lift : Option Lift
  pub home : Option String
  pub floor : Option String

abbrev lived_at : Option PositionMap → Option String → Option String
lived_at none lives = lives
lived_at (some m) none = none
lived_at (some m) (some lives) = some (effective_home m (some lives))

abbrev floor_or : Option Lift → Option String → Option String
floor_or none floor = floor
floor_or (some lift) floor = some lift.home

unfoldable pub worker_write_floor : Server → Marks → ℕ → Caller → Option String → WriteFloor
unfolding worker_lift
worker_write_floor sv marks now c lives =
    let home = lived_at sv.position_map lives in
    let lift = worker_lift sv marks now c home in
    record { lift = lift; home = home; floor = floor_or lift (derived_floor sv marks now c home) }
