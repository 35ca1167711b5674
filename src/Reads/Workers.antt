-- ===== src/Reads/Workers.antt =====
-- graph-rag/src/server.js: `workerLift` and `workerWriteFloor`, the writes of worker threads.
use gwarestrin.Base.{
  ℕ, ◌*◌, ◌<◌, String, ◌≡◌, refl, sym, ap, ◌∙◌, subst, inl, inr, Bool, true, false, Option, none,
  some, List, arith, ◌==◌, eq_iff, if◌then◌else◌, elem, map, Bool-cases,
}
use gwarestrin.Positions.{PositionMap, known, effective_home, can_see}
use gwarestrin.Positions.Chain.{IsTree, known-ne-everyone, known-ne-empty}
use gwarestrin.Positions.Order.{at_or_above, ancestors-eq-chain, known_of_above}
use gwarestrin.Positions.Visible.{effective_home_self}
use gwarestrin.Positions.Common.{common_ancestor_above}
use gwarestrin.Placement.{floor_lifts}
use gwarestrin.Grants.{Grant}
use gwarestrin.Callers.{Caller}
use gwarestrin.Callers.Homes.{server_of}
use gwarestrin.Reads.{
  Marks, Lift, hour, mine, read_in, floor_from, derived_floor, worker_write_floor, lift_in,
}
use gwarestrin.Reads.Floor.{floor_from-sees, derived_floor-from}

module _ {m : PositionMap} (tree : IsTree m) where
  -- A floor that would not lift a write from a position it is above is that position.
  floor_stays :
      (at floor : String)
      → known m at ≡ true
      → at_or_above m floor at ≡ true
      → floor_lifts m at (some floor) ≡ false
      → floor ≡ at
  unfolding floor_lifts
  floor_stays at floor k up stays = elim (Bool-cases (floor == at)) [
    | inl same ↦ (eq_iff floor at).0 same
    | inr other ↦ absurd (
        ground (
          arith,
          ancestors-eq-chain m at (known-ne-everyone tree at k),
          known-ne-everyone tree at k,
          known-ne-empty tree floor (known_of_above tree floor at k up),
        ))
  ]

no_lift : (b : Bool) (x : Lift) → (if b then some x else none) ≡ none → b ≡ false
no_lift true x e = cc
no_lift false x e = refl

module _ {m : PositionMap} (tree : IsTree m) (grants : List Grant) (hours : ℕ) (c : Caller)
    (person : c.is_open ≡ false) (pos : 0 < hours) where
  derived_stays :
      (marks : Marks) (now : ℕ) (lives : String)
      → known m lives ≡ true
      → floor_lifts m lives (derived_floor (server_of m grants hours) marks now c (some lives))
        ≡ false
      → floor_from m (mine c marks) now (hours * hour) lives ≡ lives
  derived_stays marks now lives k stays =
      let reads = map some (read_in now (hours * hour) (mine c marks)) in
      floor_stays tree lives (floor_from m (mine c marks) now (hours * hour) lives) k
        (common_ancestor_above tree lives reads k)
        (rw (derived_floor-from m grants hours c person marks now lives pos) at stays)

  -- On a tree of positions, with a window longer than 0 and a caller who is not in open mode: where a
  -- worker writes to an entry that lives at a known position (not at everyone's home) and is told of no
  -- lift, whoever sees the entry where it lives sees every home that the worker read in the window.
  pub worker_write_floor-hides :
      (marks : Marks) (now : ℕ) (lives : String) (held : List String) (h : String)
      → known m lives ≡ true
      → (worker_write_floor (server_of m grants hours) marks now c (some lives)).lift ≡ none
      → elem h (read_in now (hours * hour) (mine c marks)) ≡ true
      → can_see m held (some lives) ≡ true
      → can_see m held (some h) ≡ true
  unfolding worker_write_floor
  worker_write_floor-hides marks now lives held h k free read seen =
      let sv = server_of m grants hours in
      let at : effective_home m (some lives) ≡ lives =
        effective_home_self tree lives (ground arith) in
      let free' : lift_in m sv marks now c lives ≡ none = rw (at, at) at free in
      let same = derived_stays marks now lives k (no_lift _ _ free') in
      floor_from-sees tree held (mine c marks) now (hours * hour) lives h k
        (subst (λ x. can_see m held (some x) ≡ true) (sym same) seen) read

  -- The floor of a worker's write is always where the entry lives: what it read never moves the entry
  -- silently.
  pub worker_write_floor_stays :
      (marks : Marks) (now : ℕ) (lives : String)
      → known m lives ≡ true
      → (worker_write_floor (server_of m grants hours) marks now c (some lives)).floor ≡ some lives
  unfolding worker_write_floor
  worker_write_floor_stays marks now lives k =
      let sv = server_of m grants hours in
      let at : effective_home m (some lives) ≡ lives =
        effective_home_self tree lives (ground arith) in
      let floor : Option String = derived_floor sv marks now c (some lives) in
      rw (at, at)
        (elim (Bool-cases (floor_lifts m lives floor)) [
          | inl lifts ↦ rw lifts refl
          | inr stays ↦ rw stays (
              derived_floor-from m grants hours c person marks now lives pos
              ∙ ap some (derived_stays marks now lives k stays))
        ])
