-- ===== src/Positions/Chain.antt =====
-- graph-rag/src/positions.js: what a well-formed position map is, and how `ancestors` climbs it.
use gwarestrin.Base.{
  ℕ, zero, suc, ◌≤◌, String, ◌≡◌, refl, sym, ap, ◌∙◌, subst, inl, inr, true, false, none, some, [],
  ◌∷◌, arith, ◌==◌, eq_iff, length, keys, IsDistinct, Option-cases, Bool-cases,
}
use gwarestrin.Positions.{PositionMap, everyone, parent_of, known, climb, chain}

-- `n` steps up from `id` lies the root.
abbrev pub Rooted : PositionMap → ℕ → String → Type 0
Rooted m zero id = id ≡ m.root
Rooted m (suc n) id = (q : String) × (parent_of m id ≡ some q) × Rooted m n q

pub record IsTree (m : PositionMap) : Type 0 where
  pub distinct : IsDistinct (keys m.positions)
  pub root_known : known m m.root ≡ true
  pub root_parent : parent_of m m.root ≡ none
  pub no_everyone : known m everyone ≡ false
  pub no_empty : known m "" ≡ false
  pub parents_known : (id q : String) → parent_of m id ≡ some q → known m q ≡ true
  pub rooted :
      (id : String) → known m id ≡ true → (n : ℕ) × (n ≤ length m.positions) × Rooted m n id

pub known-parent_of :
    (m : PositionMap) (id q : String) → parent_of m id ≡ some q → known m id ≡ true
known-parent_of m id q e = ground arith

module _ {m : PositionMap} (tree : IsTree m) where
  pub known-ne-empty : (id : String) → known m id ≡ true → (id == "") ≡ false
  known-ne-empty id k = elim (Bool-cases (id == "")) [
    | inl e ↦ ground (arith, tree.no_empty, ap (known m) ((eq_iff id "").0 e))
    | inr e ↦ e
  ]

  pub known-ne-everyone : (id : String) → known m id ≡ true → (id == everyone) ≡ false
  known-ne-everyone id k = elim (Bool-cases (id == everyone)) [
    | inl e ↦ ground (arith, tree.no_everyone, ap (known m) ((eq_iff id everyone).0 e))
    | inr e ↦ e
  ]

  root-parent_of : (id : String) → id ≡ m.root → parent_of m id ≡ none
  root-parent_of id e = ap (parent_of m) e ∙ tree.root_parent

  climb-none : (f : ℕ) → climb f m none ≡ []
  unfolding climb
  climb-none zero = refl
  climb-none (suc f) = refl

  climb-some :
      (f : ℕ) (id q : String)
      → parent_of m id ≡ some q
      → climb (suc f) m (some q) ≡ q ∷ climb f m (parent_of m q)
  unfolding climb
  climb-some f id q e = rw (known-ne-empty q (tree.parents_known id q e))

  -- More fuel than the steps to the root changes nothing.
  climb_fuel :
      (n f g : ℕ) (id : String)
      → Rooted m n id
      → n ≤ f
      → n ≤ g
      → climb f m (parent_of m id) ≡ climb g m (parent_of m id)
  climb_fuel zero f g id r hf hg = rw (root-parent_of id r) (climb-none f ∙ sym (climb-none g))
  climb_fuel (suc n) zero g id r hf hg = absurd (omega arith)
  climb_fuel (suc n) (suc f) zero id r hf hg = absurd (omega arith)
  climb_fuel (suc n) (suc f) (suc g) id (q, e, r) hf hg = rw e (
      climb-some f id q e
      ∙ ap (λ l. q ∷ l) (climb_fuel n f g q r (omega arith) (omega arith))
      ∙ sym (climb-some g id q e))

  -- The list of ancestors starts with the parent and goes on with the parent's.
  pub chain-parent : (id q : String) → parent_of m id ≡ some q → chain m id ≡ q ∷ chain m q
  unfolding chain
  chain-parent id q e = go (tree.rooted id (known-parent_of m id q e))
    where
      step :
          (l n : ℕ)
          → suc n ≤ l
          → Rooted m n q
          → climb l m (parent_of m id) ≡ q ∷ climb l m (parent_of m q)
      step zero n h r = absurd (omega arith)
      step (suc l) n h r = rw e (
          climb-some l id q e
          ∙ ap (λ t. q ∷ t) (climb_fuel n l (suc l) q r (omega arith) (omega arith)))

      go :
          (n : ℕ) × (n ≤ length m.positions) × Rooted m n id
          → climb (length m.positions) m (parent_of m id)
            ≡ q ∷ climb (length m.positions) m (parent_of m q)
      go (zero, h, r) = cc (root-parent_of id r)
      go (suc n, h, (p, ep, r)) =
          step (length m.positions) n h
            (subst (Rooted m n) (let e' : some p ≡ some q = sym ep ∙ e in cc) r)

  pub chain-no_parent : (id : String) → parent_of m id ≡ none → chain m id ≡ []
  unfolding chain
  chain-no_parent id e = rw e (climb-none (length m.positions))

  -- Induction from the top of the tree down.
  pub tree_ind {ℓ} :
      (P : String → Type ℓ)
      → ((id : String) → parent_of m id ≡ none → P id)
      → ((id q : String) → parent_of m id ≡ some q → P q → P id)
      → (id : String) → P id
  tree_ind P top down id = elim (Option-cases (parent_of m id)) [
    | inl e ↦ top id e
    | inr (q, e) ↦ let (n, _, r) = tree.rooted id (known-parent_of m id q e) in go n id r
  ]
    where
      go : (n : ℕ) (id : String) → Rooted m n id → P id
      go zero id r = top id (root-parent_of id r)
      go (suc n) id (q, e, r) = down id q e (go n q r)
