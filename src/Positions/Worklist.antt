-- ===== src/Positions/Worklist.antt =====
-- graph-rag/src/positions.js: the worklist of `visibleHomes`, for any starting positions `mine`. What
-- it returns is closed under children, holds `mine`, and holds nothing that is not below `mine`.
use mathlib.Core.List.{reverse}
use gwarestrin.Base.{
  ℕ, zero, suc, ◌+◌, ◌≤◌, String, ◌≡◌, sym, ap, ◌∙◌, Bool, true, ◌||◌, inl, inr, none, some, List,
  [], ◌∷◌, ◌++◌, arith, ◌==◌, eq_iff, eq_refl, length, elem, any, Bool-cases, elem-append,
  elem-reverse, elem_cast, length-append, length-reverse, any_mono, any-==, any-or,
}
use gwarestrin.Positions.{PositionMap, everyone, parent_of, children, spread}
use gwarestrin.Positions.Children.{
  children_in-parent, children_in_of_parent, children-add-pending, pending,
}
use gwarestrin.Positions.Chain.{IsTree, known-ne-everyone, tree_ind}
use gwarestrin.Positions.Order.{at_or_above, above-parent, above-no_parent}

module _ {m : PositionMap} (tree : IsTree m) (mine : List String) where
  -- Everyone's home, or at or below a position of `mine`.
  abbrev pub covered : String → Bool
  covered x = x == everyone || any (λ p. at_or_above m p x) mine

  covered-child : (k q : String) → parent_of m k ≡ some q → covered q ≡ true → covered k ≡ true
  covered-child k q e h = ground (
    arith,
    known-ne-everyone tree q (tree.parents_known k q e),
    any_mono (λ p. at_or_above m p q) (λ p. at_or_above m p k) mine
        (λ p up. rw (above-parent tree p k q e) (ground arith)),
  )

  abbrev pub AllCovered : List String → Type 0
  AllCovered xs = (x : String) → elem x xs ≡ true → covered x ≡ true

  push-AllCovered :
      (id : String) (stack : List String)
      → AllCovered (id ∷ stack)
      → AllCovered (reverse (children m id) ++ stack)
  push-AllCovered id stack h x e = ground (
    arith,
    elem-append x (reverse (children m id)) stack,
    elem-reverse x (children m id),
    λ (c : elem x (children m id) ≡ true).
        covered-child x id (children_in-parent x id m.positions tree.distinct c)
          (h id (rw eq_refl)),
    h x,
  )

  pub spread_sound :
      (f : ℕ) (stack out : List String)
      → AllCovered stack
      → AllCovered out
      → AllCovered (spread f m stack out)
  unfolding spread
  spread_sound zero stack out hs ho = ho
  spread_sound (suc f) [] out hs ho = ho
  spread_sound (suc f) (id ∷ stack) out hs ho = elim (Bool-cases (elem id out)) [
    | inl old ↦ rw old (spread_sound f stack out (λ x e. hs x (ground arith)) ho)
    | inr new ↦ rw new (
        spread_sound f (reverse (children m id) ++ stack) (id ∷ out) (push-AllCovered id stack hs)
          (λ x e. ground (arith, hs x, ho x)))
  ]

  -- The loop invariant: what is not visited yet is on the stack.
  pub record Inv (stack out : List String) : Type 0 where
    pub starts : (x : String) → elem x mine ≡ true → (elem x out || elem x stack) ≡ true
    pub closed :
        (k q : String)
        → parent_of m k ≡ some q
        → elem q out ≡ true
        → (elem k out || elem k stack) ≡ true
    pub has_everyone : elem everyone out ≡ true

  skip-Inv :
      (id : String) (stack out : List String)
      → elem id out ≡ true
      → Inv (id ∷ stack) out
      → Inv stack out
  skip-Inv id stack out old v = record {
    starts = λ x e. ground (arith, v.starts x, drop x);
    closed = λ k q p e. ground (arith, v.closed k q p, drop k);
    has_everyone = v.has_everyone;
  }
    where
      drop : (x : String) → (x == id) ≡ true → elem x out ≡ true
      drop x e = sym (elem_cast x id out e) ∙ old

  visit-Inv :
      (id : String) (stack out : List String)
      → Inv (id ∷ stack) out
      → Inv (reverse (children m id) ++ stack) (id ∷ out)
  visit-Inv id stack out v = record {
    starts = λ x e. ground (arith, v.starts x, pushed x);
    closed = λ k q p e. elim (Bool-cases (q == id)) [
      | inl same ↦
          let c : elem k (children m id) ≡ true =
            children_in_of_parent k id m.positions (p ∙ ap some ((eq_iff q id).0 same)) in
          ground (arith, pushed k)
      | inr other ↦ ground (arith, v.closed k q p, pushed k)
    ];
    has_everyone = ground (arith, v.has_everyone);
  }
    where
      pushed :
          (x : String)
          → elem x (reverse (children m id) ++ stack) ≡ (elem x (children m id) || elem x stack)
      pushed x =
          elem-append x (reverse (children m id)) stack
          ∙ ap (λ b. b || elem x stack) (elem-reverse x (children m id))

  -- With fuel for the stack and what is still to be pushed, the loop ends with an empty stack.
  pub spread_complete :
      (f : ℕ) (stack out : List String)
      → length stack + pending out m.positions ≤ f
      → Inv stack out
      → Inv [] (spread f m stack out)
  unfolding spread
  spread_complete zero [] out h v = v
  spread_complete zero (id ∷ stack) out h v = absurd (omega arith)
  spread_complete (suc f) [] out h v = v
  spread_complete (suc f) (id ∷ stack) out h v = elim (Bool-cases (elem id out)) [
    | inl old ↦ rw old (spread_complete f stack out (omega arith) (skip-Inv id stack out old v))
    | inr new ↦ rw new (
        spread_complete f (reverse (children m id) ++ stack) (id ∷ out)
          (omega (
            arith,
            length-append (reverse (children m id)) stack,
            length-reverse (children m id),
            children-add-pending id out m.positions new,
          ))
          (visit-Inv id stack out v))
  ]

  -- A set that is closed under children holds all that is below what it holds.
  pub closed_covers :
      (out : List String) → Inv [] out → (x : String) → covered x ≡ true → elem x out ≡ true
  closed_covers out v =
      tree_ind tree (λ x. covered x ≡ true → elem x out ≡ true)
        (λ x e h. ground (arith, held x, start x, alone x e))
        (λ x q e ih h. ground (arith, held x, start x, ih, v.closed x q e, below x q e))
    where
      held : (x : String) → (x == everyone) ≡ true → elem x out ≡ true
      held x e = sym (elem_cast x everyone out e) ∙ v.has_everyone

      start : (x : String) → elem x mine ≡ true → elem x out ≡ true
      start x e = ground (arith, v.starts x e)

      alone :
          (x : String)
          → parent_of m x ≡ none
          → any (λ p. at_or_above m p x) mine ≡ true
          → elem x mine ≡ true
      alone x e h =
          sym (any-== x mine)
          ∙ any_mono (λ p. at_or_above m p x) (λ p. p == x) mine
              (λ p up. sym (above-no_parent tree p x e) ∙ up) h

      below :
          (x q : String)
          → parent_of m x ≡ some q
          → any (λ p. at_or_above m p x) mine ≡ true
          → (elem x mine || covered q) ≡ true
      below x q e h = ground (
        arith,
        any-== x mine,
        any-or (λ p. p == x) (λ p. at_or_above m p q) mine,
        any_mono (λ p. at_or_above m p x) (λ p. p == x || at_or_above m p q) mine
            (λ p up. sym (above-parent tree p x q e) ∙ up) h,
      )
