-- ===== src/Positions/Parse/Stored.antt =====
-- graph-rag/src/positions.js: what the first loop of `parsePositionMap` stores.
use gwarestrin.Base.{
  String, ◌≡◌, sym, ◌∙◌, subst, inl, inr, true, false, ◌||◌, ◌&&◌, not, Bool, Option, none, some,
  List, [], arith, ◌==◌, eq_iff, eq_refl, elem, object_names, lookup, insert, keys, IsDistinct,
  Bool-cases, elem-keys-insert, lookup-insert, insert-IsDistinct, ok, >>=-eq-ok,
}
use gwarestrin.Positions.{Position, PositionMap, everyone}
use gwarestrin.Positions.Parse.{
  Value, Fields, end, field, has_property, field_names, named_parent, text_field, read_position,
  read_all,
}

abbrev pub is_inherited : Option String → Bool
is_inherited none = false
is_inherited (some q) = elem q object_names

-- Does some position name a parent that is a name inherited by every object?
abbrev pub inherits : Fields → Bool
inherits end = false
inherits (field k v fs) = is_inherited (text_field "parent" v) || inherits fs

-- What the first loop keeps of each stored position; `own` says that no parent is an inherited name.
pub record IsStored (own : Bool) (root : String) (all : Fields) (id : String) (p : Position)
    : Type 0 where
  pub not_everyone : (id == everyone) ≡ false
  pub root_has_none : (id == root) ≡ true → p.parent ≡ none
  pub others_have_one :
      (id == root) ≡ false
      → (q : String) × (p.parent ≡ some q)
        × ((q == root || elem q (field_names all) || (not own && elem q object_names)) ≡ true)

named_parent-found :
    (own : Bool) (root : String) (all : Fields) (o : Option String)
    → (own && is_inherited o) ≡ false
    → (named_parent root all o == root
        || elem (named_parent root all o) (field_names all)
        || (not own && elem (named_parent root all o) object_names))
      ≡ true
named_parent-found own root all none h = ground (arith, eq_refl root)
named_parent-found own root all (some q) h = elim (Bool-cases (has_property q all)) [
  | inl e ↦ elim (Bool-cases (elem q (field_names all))) [
    | inl k ↦ ground arith
    | inr k ↦ ground arith
  ]
  | inr e ↦ rw e (ground (arith, eq_refl root))
]

read_position-IsStored :
    (own : Bool) (root : String) (all : Fields) (id : String) (v : Value) (p : Position)
    → (own && is_inherited (text_field "parent" v)) ≡ false
    → read_position root all id v ≡ ok p
    → IsStored own root all id p
unfolding read_position
read_position-IsStored own root all id v p free h = record {
  not_everyone = ground arith;
  root_has_none = λ e. ground arith;
  others_have_one = λ e. (
    named_parent root all (text_field "parent" v),
    ground arith,
    named_parent-found own root all (text_field "parent" v) free,
  );
}

both_free :
    (own a b : Bool) → (own && (a || b)) ≡ false → ((own && a) ≡ false) × ((own && b) ≡ false)
both_free own a b h = (ground arith, ground arith)

module _ (own : Bool) (root : String) (all : Fields) where
  abbrev pub AllStored : List (String × Position) → Type 0
  AllStored out = (k : String) (p : Position) → lookup k out ≡ some p → IsStored own root all k p

  insert-AllStored :
      (id : String) (p : Position) (out : List (String × Position))
      → IsStored own root all id p
      → AllStored out
      → AllStored (insert id p out)
  insert-AllStored id p out new old k r e = elim (Bool-cases (k == id)) [
    | inl same ↦
        let here : some p ≡ some r = sym (lookup-insert id k p out ∙ rw same) ∙ e in
        let p-eq : p ≡ r = cc in
        subst (IsStored own root all k) p-eq
          (subst (λ z. IsStored own root all z p) (sym ((eq_iff k id).0 same)) new)
    | inr other ↦ old k r (sym (lookup-insert id k p out ∙ rw other) ∙ e)
  ]

  pub read_all-AllStored :
      (fs : Fields) (out out' : List (String × Position))
      → (own && inherits fs) ≡ false
      → read_all root all fs out ≡ ok out'
      → AllStored out
      → IsDistinct (keys out)
      → AllStored out'
        × IsDistinct (keys out')
        × ((k : String) → elem k (keys out') ≡ (elem k (keys out) || elem k (field_names fs)))
  unfolding read_all
  read_all-AllStored end out out' free h st d =
      let e : out ≡ out' = cc in
      (subst AllStored e st, subst (λ o. IsDistinct (keys o)) e d, λ k. rw (← e) (ground arith))
  read_all-AllStored (field id v fs) out out' free h st d =
      let (here, later) = both_free own (is_inherited (text_field "parent" v)) (inherits fs) free in
      let (p, read, rest) =
        >>=-eq-ok (read_position root all id v) (λ p. read_all root all fs (insert id p out)) out'
          h in
      let (st', d', same) =
        read_all-AllStored fs (insert id p out) out' later rest
          (insert-AllStored id p out (read_position-IsStored own root all id v p here read) st)
          (insert-IsDistinct id p out d) in
      (st', d', λ k. ground (arith, same k, elem-keys-insert id k p out))

abbrev pub map_of : String → List (String × Position) → PositionMap
map_of root out = record { root = root; positions = out }

abbrev pub empty_map : List (String × Position)
empty_map = []
