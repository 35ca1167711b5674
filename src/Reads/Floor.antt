-- ===== src/Reads/Floor.antt =====
-- graph-rag/src/server.js: who sees what is written after a read.
use gwarestrin.Base.{
  ℕ, ◌+◌, ◌*◌, ◌<◌, String, ◌≡◌, refl, sym, ap, ◌∙◌, inl, inr, Bool, true, false, not, ◌&&◌, ◌||◌,
  Option, none, some, List, [], ◌∷◌, map, arith, ◌==◌, eq_iff, eq_refl, eqb, elem, all, insert,
  lookup-insert, Bool-cases, if_true, if_false, any_of_elem, elem_of_any, &&-eq-true,
}
use gwarestrin.Positions.{PositionMap, everyone, known, effective_home, can_see, common_ancestor}
use gwarestrin.Positions.Chain.{IsTree, known-ne-everyone}
use gwarestrin.Positions.Order.{at_or_above, known_of_above}
use gwarestrin.Positions.Visible.{can_see-eq-sees, can_see-known}
use gwarestrin.Positions.Common.{common_ancestor-exact, common_ancestor_above}
use gwarestrin.Grants.{Grant}
use gwarestrin.Grading.{Verdict}
use gwarestrin.Placement.{place, current_home}
use gwarestrin.Placement.Bounds.{StaysUp, place_new-hides}
use gwarestrin.Callers.{Caller}
use gwarestrin.Callers.Homes.{server_of}
use gwarestrin.Reads.{
  HomeTimes, Marks, hour, mark_key, times_or, mine, distinct, present, record_each, record_reads,
  within, read_in, floor_from, derived_floor, is_scoped,
}

all-map-some :
    (f : Option String → Bool) (h : String) (xs : List String)
    → elem h xs ≡ true
    → all f (map some xs) ≡ true
    → f (some h) ≡ true
all-map-some f h [] e a = cc
all-map-some f h (x ∷ xs) e a = elim (Bool-cases (h == x)) [
  | inl same ↦ ground (arith, ap (λ z. f (some z)) ((eq_iff h x).0 same))
  | inr other ↦ ground (arith, all-map-some f h xs)
]

module _ {m : PositionMap} (tree : IsTree m) where
  one_of_held :
      (held : List String) (p : String) (home : Option String)
      → elem p held ≡ true
      → can_see m (p ∷ []) home ≡ true
      → can_see m held home ≡ true
  one_of_held held p home e h =
      let at = effective_home m home in
      let one = sym (can_see-eq-sees tree (p ∷ []) home) ∙ h in
      can_see-eq-sees tree held home ∙ elim (Bool-cases (at == everyone)) [
        | inl all ↦ rw all
        | inr some_position ↦ rw some_position (
            any_of_elem (λ q. known m q && at_or_above m q at) p held e
              (let one' = rw some_position at one in ground arith))
      ]

  floor_seen :
      (held : List String) (origin : String) (homes : List (Option String))
      → known m origin ≡ true
      → can_see m held (some (common_ancestor m (some origin ∷ homes))) ≡ true
      → (p : String) × (elem p held ≡ true)
        × (all (can_see m (p ∷ [])) (some origin ∷ homes) ≡ true)
  floor_seen held origin homes k seen =
      let floor = common_ancestor m (some origin ∷ homes) in
      let known_floor : known m floor ≡ true =
        known_of_above tree floor origin k (common_ancestor_above tree origin homes k) in
      let (p, mem, up) =
        elem_of_any (λ q. known m q && at_or_above m q floor) held
          (let e = sym (can_see-known tree held floor (ground arith)) ∙ seen in
            ground (arith, known-ne-everyone tree floor known_floor)) in
      (
        p,
        mem,
        sym (common_ancestor-exact tree p (some origin ∷ homes) (λ e. cc))
            ∙ (can_see-known tree (p ∷ []) floor (ground arith) ∙ ground arith),
      )

  -- Whoever sees the floor of a write sees the origin and every home that was read in the window.
  pub floor_from-sees :
      (held : List String) (times : HomeTimes) (now window : ℕ) (origin h : String)
      → known m origin ≡ true
      → can_see m held (some (floor_from m times now window origin)) ≡ true
      → elem h (read_in now window times) ≡ true
      → can_see m held (some h) ≡ true
  floor_from-sees held times now window origin h k seen read =
      let (p, mem, every) = floor_seen held origin (map some (read_in now window times)) k seen in
      one_of_held held p (some h) mem (
        all-map-some (can_see m (p ∷ [])) h (read_in now window times) read
          (&&-eq-true (can_see m (p ∷ []) (some origin)) _ every).1)

module _ (now window : ℕ) where
  read_in-insert :
      (at : ℕ) (k h : String) (times : HomeTimes)
      → within now window at ≡ true
      → elem h (read_in now window (insert k at times))
        ≡ (h == k || elem h (read_in now window times))
  read_in-insert at k h [] w = ground arith
  read_in-insert at k h ((j, t) ∷ times) w =
      ground (arith, eq_iff k j, eq_iff h k, eq_iff h j, read_in-insert at k h times w)

  -- What a reader is shown now it has read in the window that follows, and what it had read stays.
  record_each-read_in :
      (at : ℕ) (h : String) (hs : List String) (times : HomeTimes)
      → within now window at ≡ true
      → elem h (read_in now window (record_each at hs times).0)
        ≡ (elem h hs || elem h (read_in now window times))
  record_each-read_in at h [] times w = refl
  record_each-read_in at h (x ∷ hs) times w =
      record_each-read_in at h hs (insert x at times) w
      ∙ ground (arith, read_in-insert at x h times w)

pub elem-distinct :
    (h : String) (seen xs : List String)
    → elem h (distinct seen xs) ≡ (not (elem h seen) && elem h xs)
elem-distinct h seen [] = ground arith
elem-distinct h seen (x ∷ xs) = elim (Bool-cases (h == x)) [
  | inl same ↦ ground (
    arith,
    elem-distinct h seen xs,
    elem-distinct h (x ∷ seen) xs,
    ap (λ z. elem z seen) ((eq_iff h x).0 same),
  )
  | inr other ↦ ground (arith, elem-distinct h seen xs, elem-distinct h (x ∷ seen) xs)
]

module _ (m : PositionMap) (grants : List Grant) (hours : ℕ) (c : Caller)
    (person : c.is_open ≡ false) where
  mine-record_reads :
      (homes : List (Option String)) (at : ℕ) (marks : Marks)
      → mine c (record_reads (server_of m grants hours) c homes at marks).0
        ≡ (record_each at (distinct [] (present homes)) (mine c marks)).0
  unfolding record_reads
  mine-record_reads homes at marks =
      let after = record_each at (distinct [] (present homes)) (mine c marks) in
      let on : (is_scoped (server_of m grants hours) && not c.is_open) ≡ true = (ground arith) in
      ap (λ (r : Marks × List String). mine c r.0) (if_true _ _ _ on)
      ∙ ap times_or (
          lookup-insert (mark_key c) (mark_key c) after.0 marks
          ∙ if_true _ _ _ (eq_refl (mark_key c)))

  pub derived_floor-from :
      (marks : Marks) (now : ℕ) (origin : String)
      → 0 < hours
      → derived_floor (server_of m grants hours) marks now c (some origin)
        ≡ some (floor_from m (mine c marks) now (hours * hour) origin)
  unfolding derived_floor
  derived_floor-from marks now origin pos =
      let on : (c.is_open || eqb hours 0) ≡ false = (ground arith) in if_false _ _ _ on

  -- On a tree of positions and with a window longer than 0: where a caller who is not in open mode was
  -- shown some homes and places a new entry within the window, whoever sees the home that the entry is
  -- placed at sees each of those homes. The entry's origin is assumed to be a known position, and the
  -- home of the grader's verdict, if there is one, to lie at or above the origin.
  pub read_then_written :
      (homes : List (Option String)) (at now : ℕ) (marks : Marks) (fixed : ℕ → String)
      (origin : String) (verdict : Option Verdict) (graded : Bool) (existing : Option String)
      (awaiting : Bool) (threshold : ℕ) (held : List String) (h : String)
      → (tree : IsTree m) → 0 < hours
      → now < at + hours * hour
      → elem h (present homes) ≡ true
      → current_home awaiting existing ≡ none
      → known m origin ≡ true
      → StaysUp tree origin verdict
      → can_see m held (
          some
            (place fixed m origin verdict graded existing awaiting
              (derived_floor
                (server_of m grants hours)
                (record_reads (server_of m grants hours) c homes at marks).0
                now
                c
                (some origin))
              threshold).home)
        ≡ true
      → can_see m held (some h) ≡ true
  read_then_written homes at now marks fixed origin verdict graded existing awaiting threshold held
        h tree pos soon shown new k up seen =
      let after = (record_reads (server_of m grants hours) c homes at marks).0 in
      let times = (record_each at (distinct [] (present homes)) (mine c marks)).0 in
      let floor = floor_from m (mine c after) now (hours * hour) origin in
      let is_floor : derived_floor (server_of m grants hours) after now c (some origin)
          ≡ some floor =
        derived_floor-from after now origin pos in
      let seen' = rw is_floor at seen in
      floor_from-sees tree held (mine c after) now (hours * hour) origin h k
        ((place_new-hides tree fixed origin verdict graded existing awaiting (some floor) threshold
            held new k up
            (common_ancestor_above tree origin
              (map some (read_in now (hours * hour) (mine c after))) k)
            seen').1
          floor refl)
        (ap (λ l. elem h (read_in now (hours * hour) l)) (mine-record_reads homes at marks)
          ∙ (record_each-read_in now (hours * hour) at h (distinct [] (present homes))
                (mine c marks) (ground arith)
              ∙ ground (arith, elem-distinct h [] (present homes))))
