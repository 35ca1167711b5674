-- ===== src/Positions/Common.antt =====
-- graph-rag/src/positions.js: `commonAncestor`, the home of what is built from several sources.
use gwarestrin.Base.{
  String, ◌≡◌, refl, sym, ap, subst, ◌∙◌, ◌≢◌, inl, inr, Bool, true, not, ◌||◌, ◌&&◌, Option, some,
  List, [], ◌∷◌, map, arith, ◌==◌, eq_iff, eq_refl, filter, elem, all, Bool-cases, elem-filter,
  Bool_ext, all_intro, all-elem,
}
use gwarestrin.Positions.{
  PositionMap, everyone, known, chain, can_see, effective_home, ancestors, narrow, narrow_all,
  first_or, common_of, common_ancestor,
}
use gwarestrin.Positions.Chain.{IsTree, known-ne-everyone, chain-parent, chain-no_parent, tree_ind}
use gwarestrin.Positions.Order.{
  at_or_above, ancestors-eq-chain, above_trans, above_root, known_of_above,
}
use gwarestrin.Positions.Visible.{
  can_see-eq-sees, can_see-known, effective_home-cases, effective_home_self,
}

module _ {m : PositionMap} (tree : IsTree m) where
  -- Each is at or above those before it.
  abbrev IsAscending : List String → Type 0
  IsAscending [] = Unit
  IsAscending (x ∷ xs) =
      ((p : String) → elem p xs ≡ true → at_or_above m p x ≡ true) × IsAscending xs

  chain-IsAscending : (id : String) → IsAscending (id ∷ chain m id)
  chain-IsAscending =
      tree_ind tree (λ id. IsAscending (id ∷ chain m id))
        (λ id e. rw (chain-no_parent tree id e) (λ p h. absurd (ground arith), tt))
        (λ id q e ih. (λ p h. ground arith, rw (chain-parent tree id q e) ih))

  filter-IsAscending :
      (f : String → Bool) (xs : List String) → IsAscending xs → IsAscending (filter f xs)
  filter-IsAscending f [] h = tt
  filter-IsAscending f (x ∷ xs) (up, h) = elim (Bool-cases (f x)) [
    | inl e ↦ rw e (λ p k. up p (ground (arith, elem-filter p f xs)), filter-IsAscending f xs h)
    | inr e ↦ rw e (filter-IsAscending f xs h)
  ]

  above-ancestors :
      (p h : String) → known m h ≡ true → elem p (h ∷ ancestors m h) ≡ at_or_above m p h
  above-ancestors p h k =
      ap (λ l. p == h || elem p l) (ancestors-eq-chain m h (known-ne-everyone tree h k))

  abbrev pub AllKnown : List String → Type 0
  AllKnown hs = (h : String) → elem h hs ≡ true → known m h ≡ true

  narrow_all-IsAscending :
      (above hs : List String) → IsAscending above → IsAscending (narrow_all m above hs)
  narrow_all-IsAscending above [] h = h
  narrow_all-IsAscending above (x ∷ hs) h =
      narrow_all-IsAscending (narrow m above x) hs (filter-IsAscending _ above h)

  elem-narrow_all :
      (p : String) (above hs : List String)
      → AllKnown hs
      → elem p (narrow_all m above hs) ≡ (elem p above && all (at_or_above m p) hs)
  elem-narrow_all p above [] k = ground arith
  elem-narrow_all p above (h ∷ hs) k =
      elem-narrow_all p (narrow m above h) hs (λ x e. k x (ground arith))
      ∙ ground (
        arith,
        elem-filter p (λ q. elem q (h ∷ ancestors m h)) above,
        above-ancestors p h (k h (ground (arith, eq_refl h))),
      )

  -- The first of an ascending list is in it, and all of it lies at or above the first.
  first_or-lem :
      (d p : String) (xs : List String)
      → IsAscending xs
      → elem p xs ≡ true
      → (elem (first_or d xs) xs ≡ true) × (at_or_above m p (first_or d xs) ≡ true)
  first_or-lem d p [] h e = absurd (ground arith)
  first_or-lem d p (x ∷ xs) (up, h) e = (ground (arith, eq_refl x), ground (arith, up p))

  module _ (h : String) (hs : List String) (k : AllKnown (h ∷ hs)) where
    abbrev left : List String
    left = narrow_all m (h ∷ ancestors m h) hs

    abbrev pub first : String
    first = first_or m.root left

    left-IsAscending : IsAscending left
    left-IsAscending = narrow_all-IsAscending (h ∷ ancestors m h) hs (
        rw (ancestors-eq-chain m h (known-ne-everyone tree h (k h (ground (arith, eq_refl h)))))
          (chain-IsAscending h))

    elem-left : (p : String) → elem p left ≡ all (at_or_above m p) (h ∷ hs)
    elem-left p =
        elem-narrow_all p (h ∷ ancestors m h) hs (λ x e. k x (ground arith))
        ∙ ap (λ b. b && all (at_or_above m p) hs)
            (above-ancestors p h (k h (ground (arith, eq_refl h))))

    root-left : elem m.root left ≡ true
    root-left = elem-left m.root ∙ all_intro _ (h ∷ hs) (λ x e. above_root tree x (k x e))

    pub first-above : (x : String) → elem x (h ∷ hs) ≡ true → at_or_above m first x ≡ true
    first-above x =
        all-elem (at_or_above m first) x (h ∷ hs)
          (sym (elem-left first) ∙ (first_or-lem m.root m.root left left-IsAscending root-left).0)

    pub first-known : known m first ≡ true
    first-known =
        let here : elem h (h ∷ hs) ≡ true = (ground (arith, eq_refl h)) in
        known_of_above tree first h (k h here) (first-above h here)

    -- A position lies at or above the chosen one exactly when it lies at or above each of the list.
    pub above-first : (p : String) → at_or_above m p first ≡ all (at_or_above m p) (h ∷ hs)
    above-first p =
        Bool_ext (at_or_above m p first) (all (at_or_above m p) (h ∷ hs))
          (λ up.
            all_intro (at_or_above m p) (h ∷ hs)
              (λ x e. above_trans tree p first x up (first-above x e)))
          (λ up. (first_or-lem m.root p left left-IsAscending (elem-left p ∙ up)).1)

  abbrev constrains : String → Bool
  constrains h = not (h == everyone)

  all_seen : (p : String) → (h : String) → Bool
  all_seen p h = h == everyone || (known m p && at_or_above m p h)

  all-constrains :
      (p : String) (l : List String)
      → all (all_seen p) l ≡ all (λ h. known m p && at_or_above m p h) (filter constrains l)
  unfolding all_seen
  all-constrains p [] = refl
  all-constrains p (h ∷ l) = ground (arith, all-constrains p l)

  can_see-one :
      (p : String) (home : Option String)
      → can_see m (p ∷ []) home ≡ all_seen p (effective_home m home)
  unfolding all_seen
  can_see-one p home = can_see-eq-sees tree (p ∷ []) home ∙ ground arith

  all-can_see :
      (p : String) (homes : List (Option String))
      → all (can_see m (p ∷ [])) homes ≡ all (all_seen p) (map (effective_home m) homes)
  all-can_see p [] = refl
  all-can_see p (h ∷ homes) = ground (arith, can_see-one p h, all-can_see p homes)

  all-and :
      (b : Bool) (f : String → Bool) (h : String) (hs : List String)
      → all (λ x. b && f x) (h ∷ hs) ≡ (b && all f (h ∷ hs))
  all-and b f h [] = ground arith
  all-and b f h (x ∷ hs) = ground (arith, all-and b f x hs)

  AllHomes : List String → Type 0
  AllHomes l = (x : String) → elem x l ≡ true → (x == everyone || known m x) ≡ true

  effective_homes-AllHomes :
      (homes : List (Option String)) → AllHomes (map (effective_home m) homes)
  unfolding AllHomes
  effective_homes-AllHomes [] x e = absurd (ground arith)
  effective_homes-AllHomes (h ∷ homes) x e = elim (Bool-cases (x == effective_home m h)) [
    | inl same ↦
        rw ((eq_iff x (effective_home m h)).0 same)
          (elim (effective_home-cases tree h) [ inl all ↦ rw all | inr k ↦ ground (arith, k) ])
    | inr other ↦ effective_homes-AllHomes homes x (ground arith)
  ]

  list_known : (l list : List String) → AllHomes l → filter constrains l ≡ list → AllKnown list
  unfolding AllHomes
  list_known l list k e x i =
      let i' : elem x (filter constrains l) ≡ true = ap (elem x) e ∙ i in
      ground (arith, k x, elem-filter x constrains l)

  can_see-first :
      (p h : String) (hs : List String) (k : AllKnown (h ∷ hs))
      → can_see m (p ∷ []) (some (first h hs k)) ≡ (known m p && all (at_or_above m p) (h ∷ hs))
  can_see-first p h hs k =
      let top = first_or m.root (narrow_all m (h ∷ ancestors m h) hs) in
      let k' : known m top ≡ true = first-known h hs k in
      can_see-known tree (p ∷ []) top (ground (arith, k'))
      ∙ ground (arith, known-ne-everyone tree top k')
      ∙ ap (λ b. known m p && b) (above-first h hs k p)

  common_of-exact :
      (p : String) (l list : List String)
      → l ≢ []
      → AllHomes l
      → filter constrains l ≡ list
      → can_see m (p ∷ []) (some (common_of m l list)) ≡ all (all_seen p) l
  unfolding AllHomes
  common_of-exact p [] list ne k e = absurd (ne refl)
  common_of-exact p (y ∷ l) [] ne k e =
      can_see-known tree (p ∷ []) everyone refl
      ∙ sym (all-constrains p (y ∷ l) ∙ ap (all (λ h. known m p && at_or_above m p h)) e)
  common_of-exact p (y ∷ l) (h ∷ hs) ne k e =
      can_see-first p h hs (list_known (y ∷ l) (h ∷ hs) k e)
      ∙ sym (
          all-constrains p (y ∷ l)
          ∙ ap (all (λ h. known m p && at_or_above m p h)) e
          ∙ all-and (known m p) (at_or_above m p) h hs)

  -- Whoever holds one position sees the common ancestor of some homes exactly when it sees every one
  -- of them.
  pub common_ancestor-exact :
      (p : String) (homes : List (Option String))
      → homes ≢ []
      → can_see m (p ∷ []) (some (common_ancestor m homes)) ≡ all (can_see m (p ∷ [])) homes
  unfolding common_ancestor
  common_ancestor-exact p [] some_home = absurd (some_home refl)
  common_ancestor-exact p (h ∷ homes) some_home =
      common_of-exact p (map (effective_home m) (h ∷ homes)) _ (λ e. cc)
        (effective_homes-AllHomes (h ∷ homes)) refl
      ∙ sym (all-can_see p (h ∷ homes))

  -- Of a position and further homes: what it returns lies at or above the position.
  pub common_ancestor_above :
      (origin : String) (homes : List (Option String))
      → known m origin ≡ true
      → at_or_above m (common_ancestor m (some origin ∷ homes)) origin ≡ true
  unfolding common_ancestor
  common_ancestor_above origin homes k =
      let same : effective_home m (some origin) ≡ origin =
        effective_home_self tree origin (ground arith) in
      let some_position = known-ne-everyone tree origin k in
      let rest = filter constrains (map (effective_home m) homes) in
      let held : filter constrains (origin ∷ map (effective_home m) homes) ≡ origin ∷ rest =
        rw some_position refl in
      let all_homes : AllHomes (origin ∷ map (effective_home m) homes) =
        subst (λ x. AllHomes (x ∷ map (effective_home m) homes)) same
          (effective_homes-AllHomes (some origin ∷ homes)) in
      rw (same, held)
        (first-above origin rest
          (list_known (origin ∷ map (effective_home m) homes) (origin ∷ rest) all_homes held) origin
          (ground (arith, eq_refl origin)))
