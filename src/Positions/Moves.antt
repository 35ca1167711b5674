-- ===== src/Positions/Moves.antt =====
-- graph-rag/src/positions.js: `moveKind`, and who sees an entry before and after a move.
use gwarestrin.Base.{
  String, ◌≡◌, sym, ◌∙◌, inl, inr, true, false, ◌||◌, ◌&&◌, Option, some, List, [], ◌∷◌, arith,
  ◌==◌, elem, any, Bool-cases, any_mono, elem-sort, keys, elem-keys-eq,
}
use gwarestrin.Positions.{
  PositionMap, everyone, known, effective_home, can_see, chain, ancestors, restrict, widen,
  move_kind, deeper,
}
use gwarestrin.Positions.Chain.{IsTree, known-ne-everyone}
use gwarestrin.Positions.Order.{
  at_or_above, ancestors-eq-chain, above_trans, known_of_above, above_self,
}
use gwarestrin.Positions.Visible.{can_see-eq-sees, can_see-known, effective_home-cases}

-- The ancestors of everyone's home are all the positions.
pub elem-ancestors-everyone :
    (m : PositionMap) (p : String) → elem p (ancestors m everyone) ≡ known m p
unfolding ancestors
elem-ancestors-everyone m p = elem-sort (deeper m) p (keys m.positions) ∙ elem-keys-eq p m.positions

module _ {m : PositionMap} (tree : IsTree m) where
  -- What is known and sees `to` from a place at or above it sees what lies below `to`.
  pub below_sees :
      (held : List String) (to f : String)
      → at_or_above m to f ≡ true
      → any (λ p. known m p && at_or_above m p to) held ≡ true
      → any (λ p. known m p && at_or_above m p f) held ≡ true
  below_sees held to f up =
      any_mono (λ p. known m p && at_or_above m p to) (λ p. known m p && at_or_above m p f) held
        (λ p h. ground (arith, above_trans tree p to f, up, h))

  -- A move that `moveKind` calls a restriction shows the entry to nobody who did not see it before.
  pub restrict_hides :
      (from : Option String) (to : String) (held : List String)
      → move_kind m from to ≡ restrict
      → can_see m held (some to) ≡ true
      → can_see m held from ≡ true
  unfolding move_kind
  restrict_hides from to held r h =
      can_see-eq-sees tree held from ∙ elim (effective_home-cases tree from) [
        | inl e ↦ rw e
        | inr k ↦
            let f = effective_home m from in
            let far : (f == everyone) ≡ false = known-ne-everyone tree f k in
            let line : ancestors m f ≡ chain m f = ancestors-eq-chain m f far in
            let up : at_or_above m to f ≡ true = ground (arith, line, far, r) in
            let k' : known m to ≡ true = known_of_above tree to f k up in
            let seen = sym (can_see-known tree held to (ground arith)) ∙ h in
            ground (arith, known-ne-everyone tree to k', below_sees held to f up)
      ]

  -- On a tree of positions, a move to everyone's home or to a known position that `moveKind` calls a
  -- widening shows the entry to someone who did not see it before.
  pub widen_shows :
      (from : Option String) (to : String)
      → (to == everyone || known m to) ≡ true
      → move_kind m from to ≡ widen
      → (held : List String) × (can_see m held (some to) ≡ true) × (can_see m held from ≡ false)
  unfolding move_kind
  widen_shows from to k w = elim (Bool-cases (to == everyone)) [
    | inl e ↦
        ([], can_see-known tree [] to k ∙ ground arith, can_see-eq-sees tree [] from ∙ ground arith)
    | inr e ↦ (
      to ∷ [],
      can_see-known tree (to ∷ []) to k ∙ ground (arith, above_self m to),
      can_see-eq-sees tree (to ∷ []) from ∙ elim (effective_home-cases tree from) [
        | inl f ↦
            let line : elem to (ancestors m (effective_home m from)) ≡ known m to =
              rw f (elem-ancestors-everyone m to) in
            absurd (ground arith)
        | inr f ↦
            let far = known-ne-everyone tree (effective_home m from) f in
            ground (arith, far, ancestors-eq-chain m (effective_home m from) far)
      ],
    )
  ]
