-- ===== src/Positions/Order.antt =====
-- graph-rag/src/positions.js: "at or above" as the code tests it (`id` itself or one of `ancestors`),
-- and its laws on a well-formed map.
use gwarestrin.Base.{
  ℕ, zero, suc, ◌<◌, String, ◌≡◌, sym, ap, ◌∙◌, subst, ◌⊎◌, inl, inr, Bool, true, false, ◌||◌, none,
  some, arith, ◌==◌, eq_iff, eq_refl, length, elem, Bool-cases,
}
use gwarestrin.Positions.{PositionMap, everyone, parent_of, known, chain, ancestors}
use gwarestrin.Positions.Chain
use gwarestrin.Positions.Chain.{
  IsTree, known-ne-everyone, known-parent_of, chain-parent, chain-no_parent, tree_ind,
}

-- `p === id || ancestors(map, id).includes(p)`, for a position `id`
abbrev pub at_or_above : PositionMap → String → String → Bool
at_or_above m p id = p == id || elem p (chain m id)

pub above_self : (m : PositionMap) (id : String) → at_or_above m id id ≡ true
above_self m id = rw eq_refl

pub ancestors-eq-chain :
    (m : PositionMap) (id : String) → (id == everyone) ≡ false → ancestors m id ≡ chain m id
unfolding ancestors
ancestors-eq-chain m id e = rw e

module _ {m : PositionMap} (tree : IsTree m) where
  pub above-parent :
      (p id q : String)
      → parent_of m id ≡ some q
      → at_or_above m p id ≡ (p == id || at_or_above m p q)
  above-parent p id q e = rw (chain-parent tree id q e)

  pub above-no_parent : (p id : String) → parent_of m id ≡ none → at_or_above m p id ≡ (p == id)
  above-no_parent p id e = rw (chain-no_parent tree id e) (ground arith)

  pub above_trans :
      (p q id : String)
      → at_or_above m p q ≡ true
      → at_or_above m q id ≡ true
      → at_or_above m p id ≡ true
  above_trans p q =
      tree_ind tree
        (λ id. at_or_above m p q ≡ true → at_or_above m q id ≡ true → at_or_above m p id ≡ true)
        (λ id e hp hq.
          subst (λ z. at_or_above m p z ≡ true)
            ((eq_iff q id).0 (sym (above-no_parent q id e) ∙ hq)) hp)
        (λ id r e ih hp hq. elim (Bool-cases (q == id)) [
          | inl same ↦ subst (λ z. at_or_above m p z ≡ true) ((eq_iff q id).0 same) hp
          | inr other ↦
              let up : at_or_above m q r ≡ true = (ground (arith, above-parent q id r e)) in
              ground (arith, above-parent p id r e, ih hp up)
        ])

  pub known_of_above :
      (p id : String) → known m id ≡ true → at_or_above m p id ≡ true → known m p ≡ true
  known_of_above p =
      tree_ind tree (λ id. known m id ≡ true → at_or_above m p id ≡ true → known m p ≡ true)
        (λ id e k h. ap (known m) ((eq_iff p id).0 (sym (above-no_parent p id e) ∙ h)) ∙ k)
        (λ id r e ih k h. elim (Bool-cases (p == id)) [
          | inl same ↦ ap (known m) ((eq_iff p id).0 same) ∙ k
          | inr other ↦ ih (tree.parents_known id r e) (ground (arith, above-parent p id r e))
        ])

  -- What lies at or above one position lies on one line.
  pub above_linear :
      (p q id : String)
      → at_or_above m p id ≡ true
      → at_or_above m q id ≡ true
      → (at_or_above m p q ≡ true) ⊎ (at_or_above m q p ≡ true)
  above_linear p q =
      tree_ind tree
        (λ id.
          at_or_above m p id ≡ true
          → at_or_above m q id ≡ true
          → (at_or_above m p q ≡ true) ⊎ (at_or_above m q p ≡ true))
        (λ id e hp hq. inl (
          subst (λ z. at_or_above m p z ≡ true)
            (sym ((eq_iff q id).0 (sym (above-no_parent q id e) ∙ hq))) hp))
        (λ id r e ih hp hq. elim (Bool-cases (p == id)) [
          | inl same ↦ inr (subst (λ z. at_or_above m q z ≡ true) (sym ((eq_iff p id).0 same)) hq)
          | inr other ↦ elim (Bool-cases (q == id)) [
            | inl same ↦ inl (subst (λ z. at_or_above m p z ≡ true) (sym ((eq_iff q id).0 same)) hp)
            | inr far ↦
                ih (ground (arith, above-parent p id r e)) (ground (arith, above-parent q id r e))
          ]
        ])

  pub depth_of_above :
      (p id : String)
      → at_or_above m p id ≡ true
      → (p ≡ id) ⊎ (length (chain m p) < length (chain m id))
  depth_of_above p =
      tree_ind tree
        (λ id. at_or_above m p id ≡ true → (p ≡ id) ⊎ (length (chain m p) < length (chain m id)))
        (λ id e h. inl ((eq_iff p id).0 (sym (above-no_parent p id e) ∙ h)))
        (λ id r e ih h. elim (Bool-cases (p == id)) [
          | inl same ↦ inl ((eq_iff p id).0 same)
          | inr other ↦ inr (
              rw (chain-parent tree id r e) (elim (ih (ground (arith, above-parent p id r e))) [
                | inl top ↦ rw top (omega arith)
                | inr lower ↦ omega arith
              ]))
        ])

  pub above_antisymm : (p q : String) → at_or_above m p q ≡ true → at_or_above m q p ≡ true → p ≡ q
  above_antisymm p q h k = elim (depth_of_above p q h) [
    | inl e ↦ e
    | inr lt ↦ elim (depth_of_above q p k) [ inl e ↦ sym e | inr gt ↦ absurd (omega arith) ]
  ]

  -- The root is at or above every position.
  pub above_root : (id : String) → known m id ≡ true → at_or_above m m.root id ≡ true
  above_root id k = let (n, _, r) = tree.rooted id k in go n id r
    where
      go : (n : ℕ) (id : String) → Chain.Rooted m n id → at_or_above m m.root id ≡ true
      go zero id r = rw r (above_self m m.root)
      go (suc n) id (q, e, r) = rw (above-parent m.root id q e) (ground (arith, go n q r))
