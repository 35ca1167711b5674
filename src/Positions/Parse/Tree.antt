-- ===== src/Positions/Parse/Tree.antt =====
-- graph-rag/src/positions.js: the maps that `parsePositionMap` lets through, and trees.
use gwarestrin.Base.{
  refl, ℕ, zero, suc, ◌≤◌, String, ◌≡◌, sym, ◌∙◌, subst, inl, inr, true, false, some, List, [], ◌∷◌,
  arith, ◌==◌, eq_iff, eq_refl, length, elem, object_names, lookup, keys, IsDistinct, Bool-cases,
  Option-cases, elem-keys-eq, ok, ◌>>=◌, >>=-eq-ok,
}
use gwarestrin.Positions.{Position, PositionMap, everyone, parent_of, known}
use gwarestrin.Positions.Chain.{IsTree, Rooted}
use gwarestrin.Positions.Parse.{
  Value, Fields, has_property, get_field, field_names, read_all, walk, walk_all, check_tree,
  parse_from, parse_position_map, as_object, nonempty_text,
}
use gwarestrin.Positions.Parse.Stored.{AllStored, read_all-AllStored, map_of, empty_map}

module _ (m : PositionMap) where
  -- A walk that ends at the root is a chain of parents, shorter than its fuel.
  walk-Rooted :
      (f : ℕ) (cur : String) (seen : List String)
      → walk f m cur seen ≡ ok tt
      → (n : ℕ) × (suc n ≤ f) × Rooted m n cur
  unfolding walk
  walk-Rooted zero cur seen h = cc
  walk-Rooted (suc f) cur seen h = elim (Bool-cases (cur == m.root)) [
    | inl e ↦ (zero, omega arith, (eq_iff cur m.root).0 e)
    | inr e ↦ elim (Option-cases (parent_of m cur)) [
      | inl e' ↦ absurd (ground arith)
      | inr (q, e') ↦
          let (n, le, r) = walk-Rooted f q (cur ∷ seen) (ground arith) in
          (suc n, omega arith, (q, e', r))
    ]
  ]

  walk_all-Rooted :
      (ids : List String) (id : String)
      → walk_all m ids ≡ ok tt
      → elem id ids ≡ true
      → (n : ℕ) × (n ≤ length m.positions) × Rooted m n id
  unfolding walk_all
  walk_all-Rooted [] id h e = absurd (ground arith)
  walk_all-Rooted (x ∷ ids) id h e =
      let (done, here, rest) =
        >>=-eq-ok (walk (suc (length m.positions)) m x []) (λ _. walk_all m ids) tt h in
      elim (Bool-cases (id == x)) [
        | inl same ↦
            let (n, le, r) = walk-Rooted (suc (length m.positions)) x [] here in
            (n, omega arith, rw ((eq_iff id x).0 same) r)
        | inr other ↦ walk_all-Rooted ids id rest (ground arith)
      ]

-- Whatever leads to a known root is known.
Rooted-known :
    (m : PositionMap) (n : ℕ) (q : String) → known m m.root ≡ true → Rooted m n q → known m q ≡ true
Rooted-known m zero q k r = rw r k
Rooted-known m (suc n) q k (q', p, r) = ground arith

module _ (root : String) (all : Fields) (out : List (String × Position))
    (stored : AllStored false root all out) (known_root : known (map_of root out) root ≡ true) where
  no_parent_of_root :
      (id q : String) → parent_of (map_of root out) id ≡ some q → (id == root) ≡ false
  no_parent_of_root id q e = elim (Option-cases (lookup id out)) [
    | inl e' ↦ absurd (ground arith)
    | inr (p, e') ↦ elim (Bool-cases (id == root)) [
      | inl same ↦ absurd (ground (arith, (stored id p e').root_has_none same))
      | inr other ↦ other
    ]
  ]

  parent-known :
      (id q : String) (n : ℕ)
      → parent_of (map_of root out) id ≡ some q
      → Rooted (map_of root out) n id
      → known (map_of root out) q ≡ true
  parent-known id q zero e r = absurd (ground (arith, no_parent_of_root id q e, eq_iff id root))
  parent-known id q (suc n) e (q', p, r) =
      let same : q' ≡ q = (ground arith) in
      Rooted-known (map_of root out) n q known_root (subst (Rooted (map_of root out) n) same r)

  checked-IsTree :
      IsDistinct (keys out)
      → walk_all (map_of root out) (keys out) ≡ ok tt
      → known (map_of root out) "" ≡ false
      → IsTree (map_of root out)
  checked-IsTree d w n =
      let m = map_of root out in
      let leads : (id : String) → known m id ≡ true → (n : ℕ) × (n ≤ length out) × Rooted m n id =
        λ id k. walk_all-Rooted m (keys out) id w (elem-keys-eq id out ∙ k) in
      record {
        distinct = d;
        root_known = known_root;
        root_parent = elim (Option-cases (parent_of m root)) [
          | inl e ↦ e
          | inr (q, e) ↦ absurd (ground (arith, no_parent_of_root root q e, eq_refl root))
        ];
        no_everyone = elim (Option-cases (lookup everyone out)) [
          | inl e ↦ rw e
          | inr (p, e) ↦
              absurd (ground (arith, (stored everyone p e).not_everyone, eq_refl everyone))
        ];
        no_empty = n;
        parents_known =
            λ id q e. let (steps, le, r) = leads id (ground arith) in parent-known id q steps e r;
        rooted = leads;
      }

has_own :
    (root : String) (all : Fields)
    → has_property root all ≡ true
    → elem root object_names ≡ false
    → elem root (field_names all) ≡ true
has_own root all h n = ground arith

parse_from-IsTree :
    (root : String) (all : Fields) (m : PositionMap)
    → parse_from root all ≡ ok m
    → elem m.root object_names ≡ false
    → known m "" ≡ false
    → IsTree m
parse_from-IsTree root all m h o n = elim (Bool-cases (has_property root all)) [
  | inr e ↦ absurd (ground arith)
  | inl e ↦
      let run : (read_all root all all [] >>= λ out. check_tree (map_of root out)) ≡ ok m =
        rw e at h in
      let (out, read, checked) = >>=-eq-ok (read_all root all all empty_map) _ m run in
      let (stored, distinct, named) =
        read_all-AllStored false root all all empty_map out refl read (λ k p found. cc) tt in
      let (done, walked, same) = >>=-eq-ok (walk_all (map_of root out) (keys out)) _ m checked in
      let m-eq : map_of root out ≡ m = cc in
      let plain : elem root object_names ≡ false =
        subst (λ (z : PositionMap). elem z.root object_names ≡ false) (sym m-eq) o in
      subst IsTree m-eq (
        checked-IsTree root all out stored
          (sym (elem-keys-eq root out) ∙ named root ∙ has_own root all e plain) distinct walked
          (subst (λ z. known z "" ≡ false) (sym m-eq) n))
]

-- Without a position that has the empty id, and with a root whose id is not a name that every object
-- inherits, what the parser returns is a tree: ids are distinct, "everyone" is none of them, and from
-- every position the parents lead to the root.
pub parse_position_map-IsTree :
    (doc : Value) (m : PositionMap)
    → parse_position_map doc ≡ ok m
    → elem m.root object_names ≡ false
    → known m "" ≡ false
    → IsTree m
unfolding parse_position_map
parse_position_map-IsTree doc m h o n = elim (Option-cases (as_object doc)) [
  | inl e ↦ absurd (ground arith)
  | inr (fs, e) ↦ elim (Option-cases (nonempty_text (get_field "root" fs))) [
    | inl e' ↦ absurd (ground arith)
    | inr (root, e') ↦ elim (Option-cases (as_object (get_field "positions" fs))) [
      | inl e'' ↦ absurd (ground arith)
      | inr (all, e'') ↦ parse_from-IsTree root all m (ground arith) o n
    ]
  ]
]
