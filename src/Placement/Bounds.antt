-- ===== src/Placement/Bounds.antt =====
-- graph-rag/src/placement.js: who sees an entry where it is placed.
use gwarestrin.Base.{
  ℕ, String, ◌≡◌, sym, ap, ◌∙◌, subst, ◌≢◌, inl, inr, Bool, true, false, not, Option, none, some,
  List, arith, ◌==◌, eq_iff, leb, Bool-cases, Option-cases, eq_refl, ne→==-eq-false,
}
use gwarestrin.Positions.{PositionMap, known, parent_of, can_see, ancestors, chain}
use gwarestrin.Positions.Chain.{IsTree, known-ne-everyone, known-ne-empty}
use gwarestrin.Positions.Order.{
  at_or_above, above_self, above-parent, above_trans, above_linear, ancestors-eq-chain,
  known_of_above,
}
use gwarestrin.Positions.Visible.{can_see-known}
use gwarestrin.Positions.Moves.{below_sees}
use gwarestrin.Grading.{Verdict, Placed, one_up, decide, decide_new, decide_update}
use gwarestrin.Placement.{
  raises, raise_to, apply_floor, current_home, used_verdict, decided, place, floor_lifts,
}

module _ {m : PositionMap} (tree : IsTree m) where
  above_sees :
      (a b : String) (held : List String)
      → known m b ≡ true
      → at_or_above m a b ≡ true
      → can_see m held (some a) ≡ true
      → can_see m held (some b) ≡ true
  above_sees a b held kb up h =
      let ka : known m a ≡ true = known_of_above tree a b kb up in
      let seen = sym (can_see-known tree held a (ground arith)) ∙ h in
      can_see-known tree held b (ground arith)
      ∙ ground (arith, known-ne-everyone tree a ka, below_sees tree held a b up)

  one_up-above : (origin : String) → at_or_above m (one_up m origin) origin ≡ true
  one_up-above origin = elim (Option-cases (parent_of m origin)) [
    | inl e ↦ rw (e, one_up) (above_self m origin)
    | inr (q, e) ↦ rw (e, one_up) (ground (arith, above-parent tree q origin q e, above_self m q))
  ]

  -- Every home that the grader's verdict names lies at or above the origin.
  abbrev pub StaysUp : String → Option Verdict → Type 0
  StaysUp origin none = Unit
  StaysUp origin (some v) = at_or_above m v.home origin ≡ true

  decide_new-above :
      (fixed : ℕ → String) (origin : String) (verdict : Option Verdict) (threshold : ℕ)
      → StaysUp origin verdict
      → at_or_above m (decide_new fixed m origin verdict threshold).home origin ≡ true
  unfolding decide_new
  decide_new-above fixed origin none threshold up = one_up-above origin
  decide_new-above fixed origin (some v) threshold up =
      elim (Bool-cases (leb threshold v.confidence)) [
        | inl e ↦ rw e up
        | inr e ↦ rw e (one_up-above origin)
      ]

  decide_update-above :
      (origin : String) (verdict : Option Verdict) (current : String) (threshold : ℕ)
      → known m current ≡ true
      → at_or_above m (decide_update m origin verdict current threshold).home current ≡ true
  unfolding decide_update
  decide_update-above origin none current threshold k = above_self m current
  decide_update-above origin (some v) current threshold k =
      ground (
        arith,
        above_self m current,
        ancestors-eq-chain m current (known-ne-everyone tree current k),
      )

  -- A floor at or above the origin, if there is one.
  abbrev pub IsFloor : String → Option String → Type 0
  IsFloor origin none = Unit
  IsFloor origin (some floor) = at_or_above m floor origin ≡ true

  raise_to-above :
      (p : Placed) (floor : String)
      → known m p.home ≡ true
      → (at_or_above m (raise_to m p floor).home p.home ≡ true)
        × (at_or_above m floor p.home ≡ true → at_or_above m (raise_to m p floor).home floor ≡ true)
  unfolding raise_to
  raise_to-above p floor k =
      let line : ancestors m p.home ≡ chain m p.home =
        ancestors-eq-chain m p.home (known-ne-everyone tree p.home k) in
      elim (Bool-cases (raises m p.home floor)) [
        | inl e ↦ rw e (ground (arith, line), λ up. above_self m floor)
        | inr e ↦ rw e (
          above_self m p.home,
          λ up. subst (λ z. at_or_above m p.home z ≡ true) (same line up e) (above_self m p.home),
        )
      ]
    where
      same :
          ancestors m p.home ≡ chain m p.home
          → at_or_above m floor p.home ≡ true
          → raises m p.home floor ≡ false
          → p.home ≡ floor
      same line up e = sym ((eq_iff floor p.home).0 (ground arith))

  apply_floor-above :
      (p : Placed) (origin : String) (floor : Option String)
      → known m origin ≡ true
      → at_or_above m p.home origin ≡ true
      → IsFloor origin floor
      → (at_or_above m (apply_floor m p origin floor).home origin ≡ true)
        × ((f : String)
            → floor ≡ some f
            → at_or_above m (apply_floor m p origin floor).home f ≡ true)
  unfolding apply_floor
  apply_floor-above p origin none k up line = (up, λ f e. cc)
  apply_floor-above p origin (some floor) k up line =
      let kf : known m floor ≡ true = known_of_above tree floor origin k line in
      let kp : known m p.home ≡ true = known_of_above tree p.home origin k up in
      let same : (f : String) → some floor ≡ some f → floor ≡ f = λ f e. cc in
      elim (Bool-cases (floor == origin)) [
        | inl e ↦
            rw (known-ne-empty tree floor kf, e)
              (
                up,
                λ f e'.
                    subst (λ z. at_or_above m p.home z ≡ true)
                      (sym ((eq_iff floor origin).0 e) ∙ same f e') up,
              )
        | inr e ↦
            let (over, reach) = raise_to-above p floor kp in
            let over' = above_trans tree (raise_to m p floor).home p.home origin over up in
            rw (known-ne-empty tree floor kf, e)
              (
                over',
                λ f e'.
                    subst (λ z. at_or_above m (raise_to m p floor).home z ≡ true) (same f e')
                      (elim (above_linear tree floor p.home origin line up) [
                        | inl below ↦ reach below
                        | inr above ↦
                            above_trans tree (raise_to m p floor).home p.home floor over above
                      ]),
              )
      ]

  decided-above :
      (fixed : ℕ → String) (origin : String) (verdict : Option Verdict) (graded : Bool)
      (current : Option String) (threshold : ℕ)
      → StaysUp origin verdict
      → current ≡ none
      → at_or_above m (decided fixed m origin verdict graded current threshold).home origin ≡ true
  unfolding decide
  decided-above fixed origin verdict true current threshold up e =
      rw e (decide_new-above fixed origin verdict threshold up)
  decided-above fixed origin verdict false current threshold up e = rw e (one_up-above origin)

  IsFloor-known :
      (origin : String) (floor : Option String) (f : String)
      → known m origin ≡ true
      → IsFloor origin floor
      → floor ≡ some f
      → known m f ≡ true
  IsFloor-known origin none f k l e = cc
  IsFloor-known origin (some g) f k l e =
      let same : g ≡ f = cc in ap (known m) (sym same) ∙ known_of_above tree g origin k l

  -- A new entry, or one that still awaits grading, whatever the grader answers: whoever sees the home
  -- it is placed at sees its origin, and sees the floor of what its writer read. The verdict's home
  -- and the floor are assumed to lie at or above the origin, which is a known position.
  pub place_new-hides :
      (fixed : ℕ → String) (origin : String) (verdict : Option Verdict) (graded : Bool)
      (existing : Option String) (awaiting : Bool) (floor : Option String) (threshold : ℕ)
      (held : List String)
      → current_home awaiting existing ≡ none
      → known m origin ≡ true
      → StaysUp origin verdict
      → IsFloor origin floor
      → can_see m held
          (some (place fixed m origin verdict graded existing awaiting floor threshold).home)
        ≡ true
      → (can_see m held (some origin) ≡ true)
        × ((f : String) → floor ≡ some f → can_see m held (some f) ≡ true)
  unfolding place
  place_new-hides fixed origin verdict graded existing awaiting floor threshold held new k up line
        seen =
      let first =
        decided fixed m origin verdict graded (current_home awaiting existing) threshold in
      let (over, reach) =
        apply_floor-above first origin floor k
          (decided-above fixed origin verdict graded (current_home awaiting existing) threshold up
            new)
          line in
      let home = (apply_floor m first origin floor).home in
      (
        above_sees home origin held k over seen,
        λ f e. above_sees home f held (IsFloor-known origin floor f k line e) (reach f e) seen,
      )

  decided_update-above :
      (fixed : ℕ → String) (origin : String) (verdict : Option Verdict) (graded : Bool)
      (current : String) (threshold : ℕ)
      → known m current ≡ true
      → at_or_above m (decided fixed m origin verdict graded (some current) threshold).home current
        ≡ true
  unfolding decide
  decided_update-above fixed origin verdict graded current threshold k =
      decide_update-above origin (used_verdict graded verdict) current threshold k

  apply_floor-over :
      (p : Placed) (origin current : String) (floor : Option String)
      → known m current ≡ true
      → at_or_above m p.home current ≡ true
      → at_or_above m (apply_floor m p origin floor).home current ≡ true
  unfolding apply_floor
  apply_floor-over p origin current none k up = up
  apply_floor-over p origin current (some floor) k up =
      let kp : known m p.home ≡ true = known_of_above tree p.home current k up in
      let over =
        above_trans tree (raise_to m p floor).home p.home current (raise_to-above p floor kp).0
          up in
      ground (arith, up, over)

  -- An update never shows an entry to anyone who could not see it where it was, with any verdict and
  -- any floor, graded or not.
  pub place_update-hides :
      (fixed : ℕ → String) (origin : String) (verdict : Option Verdict) (graded : Bool)
      (current : String) (floor : Option String) (threshold : ℕ) (held : List String)
      → known m current ≡ true
      → can_see m held
          (some (place fixed m origin verdict graded (some current) false floor threshold).home)
        ≡ true
      → can_see m held (some current) ≡ true
  unfolding place
  place_update-hides fixed origin verdict graded current floor threshold held k seen =
      let first = decided fixed m origin verdict graded (some current) threshold in
      above_sees (apply_floor m first origin floor).home current held k
        (apply_floor-over first origin current floor k
          (decided_update-above fixed origin verdict graded current threshold k))
        seen

  -- Placing proposes nothing below a floor that is not the origin: no release and no review.
  pub place-no_proposal :
      (fixed : ℕ → String) (origin : String) (verdict : Option Verdict) (graded : Bool)
      (existing : Option String) (awaiting : Bool) (floor : String) (threshold : ℕ)
      → known m floor ≡ true
      → floor ≢ origin
      → ((place fixed m origin verdict graded existing awaiting (some floor) threshold).release
          ≡ none)
        × ((place fixed m origin verdict graded existing awaiting (some floor) threshold).review
            ≡ none)
  unfolding place apply_floor raise_to
  place-no_proposal fixed origin verdict graded existing awaiting floor threshold k ne =
      ground (arith, eq_iff floor origin, known-ne-empty tree floor k)

  -- `floorLifts` says in advance whether placing an entry under a floor moves it: for a placement at a
  -- known position and a floor other than the origin, it is true exactly when the home changes.
  pub floor_lifts-exact :
      (p : Placed) (origin : String) (floor : Option String)
      → known m p.home ≡ true
      → floor ≢ some origin
      → floor_lifts m p.home floor ≡ not ((apply_floor m p origin floor).home == p.home)
  unfolding floor_lifts apply_floor raise_to
  floor_lifts-exact p origin none k ne = ground (arith, eq_refl p.home)
  floor_lifts-exact p origin (some floor) k ne =
      let other : (floor == origin) ≡ false = ne→==-eq-false floor origin (λ e. ne (ap some e)) in
      ground (arith, other, known-ne-everyone tree p.home k, eq_refl p.home)
