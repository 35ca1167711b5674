-- ===== src/Delegation/Reach.antt =====
-- graph-rag/src/delegation.js: what an agent and its tenant see.
use gwarestrin.Base.{
  &&-eq-true, ℕ, String, ◌≡◌, sym, ◌∙◌, subst, inl, inr, true, ◌&&◌, Option, some, List, [], ◌∷◌,
  arith, ◌==◌, any, filter, Bool-cases, elem_of_any, any_mono, any-filter,
}
use gwarestrin.Positions.{PositionMap, everyone, known, held_positions, effective_home, can_see}
use gwarestrin.Positions.Chain.{IsTree, known-ne-everyone}
use gwarestrin.Positions.Order.{at_or_above, above_trans}
use gwarestrin.Positions.Visible.{can_see-eq-sees, can_see-known, effective_home_self}
use gwarestrin.Delegation.{
  Payload, Tenant, Role, ordinary, Identity, Codec, requested, within_reach, narrowed, role_of,
  positions_of, identity_of, resolve_agent_token,
}
use gwarestrin.Delegation.Limits.{origin}

module _ {m : PositionMap} (tree : IsTree m) where
  reach_sees :
      (tenant : List String) (p x : String)
      → within_reach m tenant p ≡ true
      → at_or_above m p x ≡ true
      → any (λ q. known m q && at_or_above m q x) tenant ≡ true
  unfolding held_positions can_see
  reach_sees tenant p x w up =
      let (k, seen) = &&-eq-true (known m p) _ w in
      let home : effective_home m (some p) ≡ p = effective_home_self tree p (ground arith) in
      let sees_p : can_see m (held_positions m tenant) (some p) ≡ true = rw home seen in
      let below = sym (can_see-known tree (held_positions m tenant) p (ground arith)) ∙ sees_p in
      any_mono (λ q. known m q && at_or_above m q p) (λ q. known m q && at_or_above m q x) tenant
        (λ q h. ground (arith, above_trans tree q p x, up, h))
        (known_twice tenant (ground (arith, known-ne-everyone tree p k, below)))
    where
      known_twice :
          (l : List String)
          → any (λ q. known m q && at_or_above m q p) (filter (known m) l) ≡ true
          → any (λ q. known m q && at_or_above m q p) l ≡ true
      known_twice l h =
          any_mono (λ q. known m q && (known m q && at_or_above m q p))
            (λ q. known m q && at_or_above m q p) l (λ q e. ground arith)
            (sym (any-filter (λ q. known m q && at_or_above m q p) (known m) l) ∙ h)

  narrowed_sees :
      (tenant asked : List String) (home : Option String)
      → can_see m (narrowed (some m) tenant asked) home ≡ true
      → can_see m tenant home ≡ true
  narrowed_sees tenant [] home h = h
  narrowed_sees tenant (a ∷ asked) home h =
      let at = effective_home m home in
      let seen = sym (can_see-eq-sees tree (narrowed (some m) tenant (a ∷ asked)) home) ∙ h in
      can_see-eq-sees tree tenant home ∙ elim (Bool-cases (at == everyone)) [
        | inl e ↦ rw e
        | inr e ↦
            let held : any (λ p. known m p && at_or_above m p at)
                  (filter (within_reach m tenant) (a ∷ asked))
                ≡ true =
              (rw e at seen) in
            let (p, _, pass) =
              elem_of_any (λ p. within_reach m tenant p && (known m p && at_or_above m p at))
                (a ∷ asked)
                (sym (
                    any-filter (λ p. known m p && at_or_above m p at) (within_reach m tenant)
                      (a ∷ asked))
                  ∙ held) in
            let (near, up) = &&-eq-true (within_reach m tenant p) _ pass in
            rw e (reach_sees tenant p at near (&&-eq-true (known m p) _ up).1)
      ]

  positions_of-sees :
      (t : Tenant) (payload : Payload) (role : Role) (home : Option String)
      → can_see m (positions_of (some m) t payload role) home ≡ true
      → can_see m t.positions home ≡ true
  positions_of-sees t payload ordinary home h = narrowed_sees t.positions (requested payload) home h
  positions_of-sees t payload _ home h = h

  -- Whatever positions an agent token asks for, the agent sees no home that its tenant does not see.
  pub resolve_agent_token-hides :
      (codec : Codec) (entry_for : String → Option Tenant) (now : ℕ) (token : String) (i : Identity)
      (accepted : resolve_agent_token codec entry_for (some m) now token ≡ some i)
      (home : Option String)
      → can_see m i.positions home ≡ true
      → can_see m (origin codec entry_for (some m) now token i accepted).tenant.positions home
        ≡ true
  unfolding identity_of
  resolve_agent_token-hides codec entry_for now token i accepted home h =
      let o = origin codec entry_for (some m) now token i accepted in
      let moved : can_see m (identity_of (some m) o.tenant o.payload o.agent _).positions home
          ≡ true =
        subst (λ x. can_see m x.positions home ≡ true) o.same h in
      positions_of-sees o.tenant o.payload (role_of (some m) o.tenant o.payload) home moved
