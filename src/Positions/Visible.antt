-- ===== src/Positions/Visible.antt =====
-- graph-rag/src/positions.js: what `visibleHomes` and `canSee` compute on a well-formed map.
use mathlib.Core.List.{reverse}
use gwarestrin.Base.{
  ℕ, ◌+◌, String, ◌≡◌, refl, sym, ap, ◌∙◌, ◌⊎◌, inl, inr, Bool, true, ◌||◌, ◌&&◌, Option, none,
  some, List, [], ◌∷◌, arith, ◌==◌, eq_iff, length, elem, any, Bool-cases, elem-filter,
  elem-reverse, length-reverse, any-filter, any_of_elem,
}
use gwarestrin.Positions.{
  PositionMap, everyone, known, held_positions, spread, visible_homes, effective_home, can_see,
}
use gwarestrin.Positions.Chain.{IsTree, known-ne-everyone}
use gwarestrin.Positions.Order.{at_or_above, above_root, above_self}
use gwarestrin.Positions.Children.{pending-le}
use gwarestrin.Positions.Worklist.{covered, Inv, spread_sound, spread_complete, closed_covers}

-- Who may see a home, without the worklist: it is everyone's, or at or below a known held position.
abbrev pub sees : PositionMap → List String → Option String → Bool
sees m held home =
    let at = effective_home m home in
    at == everyone || any (λ p. known m p && at_or_above m p at) held

module _ {m : PositionMap} (tree : IsTree m) where
  start-Inv : (mine : List String) → Inv tree mine (reverse mine) (everyone ∷ [])
  start-Inv mine = record {
    starts = λ x e. ground (arith, elem-reverse x mine);
    closed = λ k q p e. ground (arith, known-ne-everyone tree q (tree.parents_known k q p));
    has_everyone = refl;
  }

  worklist-exact :
      (mine : List String) (x : String)
      → elem x (spread (length mine + length m.positions) m (reverse mine) (everyone ∷ []))
        ≡ covered tree mine x
  worklist-exact mine x = ground (
    arith,
    spread_sound tree mine fuel (reverse mine) (everyone ∷ [])
        (λ y e.
          ground (
            arith,
            elem-reverse y mine,
            any_of_elem (λ p. at_or_above m p y) y mine,
            above_self m y,
          ))
        (λ y e. ground arith) x,
    closed_covers tree mine _
        (spread_complete tree mine fuel (reverse mine) (everyone ∷ [])
          (omega (arith, length-reverse mine, pending-le (everyone ∷ []) m.positions))
          (start-Inv mine))
        x,
  )
    where
      fuel : ℕ
      fuel = length mine + length m.positions

  covered-held :
      (held : List String) (x : String)
      → covered tree (held_positions m held) x
        ≡ (x == everyone || any (λ p. known m p && at_or_above m p x) held)
  unfolding held_positions
  covered-held held x =
      ap (λ b. x == everyone || b) (any-filter (λ p. at_or_above m p x) (known m) held)

  -- A set of visible homes holds everyone's home and exactly the positions at or below a known held one.
  pub visible_homes-exact :
      (held vis : List String) (x : String)
      → visible_homes m held ≡ some vis
      → elem x vis ≡ (x == everyone || any (λ p. known m p && at_or_above m p x) held)
  unfolding visible_homes
  visible_homes-exact held vis x e = elim (Bool-cases (elem m.root (held_positions m held))) [
    | inl r ↦ cc (rw r at e)
    | inr r ↦
        let mine = held_positions m held in
        let reached = spread (length mine + length m.positions) m (reverse mine) (everyone ∷ []) in
        let e' : some reached ≡ some vis = rw r at e in
        let same : vis ≡ reached = cc in rw same (worklist-exact mine x ∙ covered-held held x)
  ]

  pub effective_home-cases :
      (home : Option String)
      → (effective_home m home ≡ everyone) ⊎ (known m (effective_home m home) ≡ true)
  unfolding effective_home
  effective_home-cases none = inr tree.root_known
  effective_home-cases (some h) = elim (Bool-cases (h == everyone)) [
    | inl e ↦ inl (rw e)
    | inr e ↦ elim (Bool-cases (known m h)) [
      | inl k ↦ inr (rw (e, k) k)
      | inr k ↦ inr (rw (e, k) tree.root_known)
    ]
  ]

  -- A home that the map knows, or everyone's, stands for itself.
  pub effective_home_self :
      (h : String) → (h == everyone || known m h) ≡ true → effective_home m (some h) ≡ h
  unfolding effective_home
  effective_home_self h k = ground (arith, eq_iff h everyone)

  holds_root :
      (held : List String) (x : String)
      → elem m.root held ≡ true
      → known m x ≡ true
      → any (λ p. known m p && at_or_above m p x) held ≡ true
  holds_root held x r k =
      any_of_elem (λ p. known m p && at_or_above m p x) m.root held r
        (ground (arith, tree.root_known, above_root tree x k))

  -- A caller sees a home exactly when it is everyone's or the caller holds a known position at or
  -- above it.
  pub can_see-eq-sees :
      (held : List String) (home : Option String) → can_see m held home ≡ sees m held home
  unfolding can_see visible_homes held_positions
  can_see-eq-sees held home = elim (Bool-cases (elem m.root (held_positions m held))) [
    | inl r ↦ rw r (
        sym (elim (effective_home-cases home) [
          | inl e ↦ rw e
          | inr k ↦
              ground (
                arith,
                holds_root held (effective_home m home),
                elem-filter m.root (known m) held,
                k,
              )
        ]))
    | inr r ↦ rw r (
        worklist-exact (held_positions m held) (effective_home m home)
        ∙ covered-held held (effective_home m home))
  ]

  -- The same for a home that stands for itself.
  pub can_see-known :
      (held : List String) (to : String)
      → (to == everyone || known m to) ≡ true
      → can_see m held (some to)
        ≡ (to == everyone || any (λ p. known m p && at_or_above m p to) held)
  can_see-known held to k =
      can_see-eq-sees held (some to)
      ∙ ap (λ h. h == everyone || any (λ p. known m p && at_or_above m p h) held)
          (effective_home_self to k)
