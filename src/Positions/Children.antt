-- ===== src/Positions/Children.antt =====
-- graph-rag/src/positions.js: `childIndex`, the children of a position, and how many are still to be
-- pushed by the worklist of `visibleHomes`.
use gwarestrin.Base.{
  ℕ, suc, ◌+◌, ◌≤◌, String, ◌≡◌, refl, sym, ap, Bool, true, false, not, Option, inl, inr, none,
  some, List, [], ◌∷◌, arith, ◌==◌, eq_iff, eq_refl, length, lookup, keys, elem, IsDistinct,
  Bool-cases, elem_cast, if◌then◌else◌,
}
use gwarestrin.Positions.{Position, parent_in, child_of, children_in}

child_of-eq : (id : String) (o : Option String) → child_of id o ≡ true → o ≡ some id
child_of-eq id none h = absurd (ground arith)
child_of-eq id (some q) h = ap some (sym ((eq_iff id q).0 h))

children_in-known :
    (k id : String) (ps : List (String × Position))
    → elem k (children_in id ps) ≡ true
    → elem k (keys ps) ≡ true
unfolding children_in
children_in-known k id [] h = absurd (ground arith)
children_in-known k id ((j, p) ∷ ps) h = ground (arith, children_in-known k id ps)

pub children_in-parent :
    (k id : String) (ps : List (String × Position))
    → IsDistinct (keys ps)
    → elem k (children_in id ps) ≡ true
    → parent_in (lookup k ps) ≡ some id
unfolding children_in
children_in-parent k id [] d h = absurd (ground arith)
children_in-parent k id ((j, p) ∷ ps) d h = elim (Bool-cases (k == j)) [
  | inl e ↦
      ground (arith, child_of-eq id p.parent, elem_cast k j (keys ps) e, children_in-known k id ps)
  | inr e ↦ ground (arith, children_in-parent k id ps d.1)
]

pub children_in_of_parent :
    (k id : String) (ps : List (String × Position))
    → parent_in (lookup k ps) ≡ some id
    → elem k (children_in id ps) ≡ true
unfolding children_in
children_in_of_parent k id [] h = cc
children_in_of_parent k id ((j, p) ∷ ps) h = elim (Bool-cases (k == j)) [
  | inl e ↦
      let e' : p.parent ≡ some id = (ground arith) in
      rw e' (ground (arith, eq_iff id id, eq_refl id))
  | inr e ↦ ground (arith, children_in_of_parent k id ps)
]

-- Positions whose parent has not been visited: each is pushed at most once more.
abbrev awaited : List String → Option String → Bool
awaited out none = false
awaited out (some q) = not (elem q out)

abbrev pub pending : List String → List (String × Position) → ℕ
pending out [] = 0
pending out ((k, p) ∷ ps) =
    let rest = pending out ps in if awaited out p.parent then suc rest else rest

pub pending-le : (out : List String) (ps : List (String × Position)) → pending out ps ≤ length ps
pending-le out [] = omega arith
pending-le out ((k, p) ∷ ps) = ground (arith, pending-le out ps)

awaited-visit :
    (id : String) (out : List String) (o : Option String)
    → elem id out ≡ false
    → (if child_of id o then awaited out o else awaited (id ∷ out) o)
      ≡ (if child_of id o then true else awaited out o)
awaited-visit id out none new = refl
awaited-visit id out (some q) new = elim (Bool-cases (id == q)) [
  | inl e ↦ ground (arith, elem_cast id q out e)
  | inr e ↦ ground (arith, eq_iff id q, eq_iff q id)
]

awaited_after :
    (id : String) (out : List String) (o : Option String)
    → child_of id o ≡ true
    → awaited (id ∷ out) o ≡ false
awaited_after id out none h = refl
awaited_after id out (some q) h = ground (arith, eq_iff id q, eq_iff q id)

-- A visit pushes as many positions as it takes off the pending ones.
pub children-add-pending :
    (id : String) (out : List String) (ps : List (String × Position))
    → elem id out ≡ false
    → length (children_in id ps) + pending (id ∷ out) ps ≡ pending out ps
unfolding children_in
children-add-pending id out [] new = omega arith
children-add-pending id out ((k, p) ∷ ps) new = ground (
  arith,
  children-add-pending id out ps new,
  awaited-visit id out p.parent new,
  awaited_after id out p.parent,
)
