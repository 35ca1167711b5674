-- ===== src/Positions/Parse/Errors.antt =====
-- graph-rag/src/positions.js: the errors of `parsePositionMap`.
use gwarestrin.Base.{
  String, ◌≡◌, refl, sym, ◌∙◌, ◌≢◌, ◌⊎◌, inl, inr, Bool, ◌||◌, none, true, false, some, List, arith,
  ◌==◌, elem, lookup, insert, keys, Bool-cases, Option-cases, elem-keys-eq, Result, ok, err,
}
use gwarestrin.Positions.{Position, parent_of, known}
use gwarestrin.Positions.Parse.{
  Value, Fields, end, field, ParseError, spent, lost, get_field, field_names, has_property,
  read_position, read_all, walk_all, check_tree, parse_from, parse_position_map, as_object,
  nonempty_text,
}
use gwarestrin.Positions.Parse.Stored.{AllStored, read_all-AllStored, map_of, empty_map, inherits}
use gwarestrin.Positions.Parse.Walks.{bind-avoids, walk_all_ends, walk_all_stays}

-- Neither out of fuel nor at a parent outside the map.
abbrev Happens : {A : Type 0} → Result ParseError A → Type 0
Happens r = (r ≢ err spent) × (r ≢ err lost)

-- Does some position of the map name an inherited name as its parent?
unfoldable pub inherits_in : Value → Bool
inherits_in doc = elim (as_object doc) [
  | none ↦ false
  | some fs ↦ elim (as_object (get_field "positions" fs)) [ none ↦ false | some all ↦ inherits all ]
]

read_position-Happens :
    (root : String) (all : Fields) (id : String) (v : Value) → Happens (read_position root all id v)
unfolding read_position
read_position-Happens root all id v = (λ x. ground arith, λ x. ground arith)

read_all-Happens :
    (root : String) (all fs : Fields) (out : List (String × Position))
    → Happens (read_all root all fs out)
unfolding read_all
read_all-Happens root all end out = (λ x. cc, λ x. cc)
read_all-Happens root all (field id v fs) out =
    let here = read_position-Happens root all id v in
    let next = λ (p : Position). read_all root all fs (insert id p out) in
    (
      bind-avoids spent (read_position root all id v) next here.0
          (λ p e. (read_all-Happens root all fs (insert id p out)).0),
      bind-avoids lost (read_position root all id v) next here.1
          (λ p e. (read_all-Happens root all fs (insert id p out)).1),
    )

module _ (root : String) (all : Fields) (out : List (String × Position))
    (stored : AllStored true root all out)
    (named : (k : String) → elem k (keys out) ≡ elem k (field_names all)) where
  -- Where no parent is an inherited name, every position but the root has a parent that is the root or
  -- is stored too.
  stored_up :
      (id : String)
      → known (map_of root out) id ≡ true
      → (id == root) ≡ false
      → (q : String) × (parent_of (map_of root out) id ≡ some q)
        × ((q == root || known (map_of root out) q) ≡ true)
  stored_up id k e = elim (Option-cases (lookup id out)) [
    | inl e' ↦ absurd (ground arith)
    | inr (p, e') ↦
        let (q, up, kq) = (stored id p e').others_have_one e in
        (q, rw e' up, rw (sym (elem-keys-eq q out) ∙ named q) (ground arith))
  ]

check_tree-eq :
    (x : ParseError) (root : String) (out : List (String × Position))
    → walk_all (map_of root out) (keys out) ≢ err x
    → check_tree (map_of root out) ≢ err x
check_tree-eq x root out h =
    bind-avoids x (walk_all (map_of root out) (keys out)) (λ _. ok (map_of root out)) h
      (λ done e y. cc)

parse_from_ends : (root : String) (all : Fields) → parse_from root all ≢ err spent
parse_from_ends root all = elim (Bool-cases (has_property root all)) [
  | inr e ↦ rw e (λ x. cc)
  | inl e ↦ rw e (
      bind-avoids spent (read_all root all all empty_map) (λ out. check_tree (map_of root out))
        (read_all-Happens root all all empty_map).0
        (λ out read. check_tree-eq spent root out (walk_all_ends (map_of root out) (keys out))))
]

parse_from_stays :
    (root : String) (all : Fields) → inherits all ≡ false → parse_from root all ≢ err lost
parse_from_stays root all free = elim (Bool-cases (has_property root all)) [
  | inr e ↦ rw e (λ x. cc)
  | inl e ↦ rw e (
      bind-avoids lost (read_all root all all empty_map) (λ out. check_tree (map_of root out))
        (read_all-Happens root all all empty_map).1
        (λ out read.
          let (stored, _, named) =
            read_all-AllStored true root all all empty_map out free read (λ k p found. cc) tt in
          check_tree-eq lost root out (
            walk_all_stays (map_of root out) (stored_up root all out stored named) (keys out)
              (λ id i. sym (elem-keys-eq id out) ∙ i))))
]

inherits_in-eq :
    (doc : Value) (fs all : Fields)
    → as_object doc ≡ some fs
    → as_object (get_field "positions" fs) ≡ some all
    → inherits_in doc ≡ inherits all
unfolding inherits_in
inherits_in-eq doc fs all e e' = rw (e, e', inherits_in) refl

parse_position_map_stays :
    (doc : Value) → inherits_in doc ≡ false → parse_position_map doc ≢ err lost
unfolding parse_position_map
parse_position_map_stays doc free = elim (Option-cases (as_object doc)) [
  | inl e ↦ rw (e, parse_position_map) (λ x. cc)
  | inr (fs, e) ↦ elim (Option-cases (nonempty_text (get_field "root" fs))) [
    | inl e' ↦ rw (e, e', parse_position_map) (λ x. cc)
    | inr (root, e') ↦ elim (Option-cases (as_object (get_field "positions" fs))) [
      | inl e'' ↦ rw (e, e', e'', parse_position_map) (λ x. cc)
      | inr (all, e'') ↦
          rw (e, e', e'', parse_position_map)
            (parse_from_stays root all (sym (inherits_in-eq doc fs all e e'') ∙ free))
    ]
  ]
]

-- The parser ends on every input: the fuel of the cycle check never runs out; and the check fails at
-- a parent outside the map only if some position names a parent that every object inherits, like
-- "constructor".
pub parse_position_map_ends :
    (doc : Value)
    → (parse_position_map doc ≢ err spent)
      × ((parse_position_map doc ≢ err lost) ⊎ (inherits_in doc ≡ true))
unfolding parse_position_map
parse_position_map_ends doc = (
  elim (Option-cases (as_object doc)) [
    | inl e ↦ rw (e, parse_position_map) (λ x. cc)
    | inr (fs, e) ↦ elim (Option-cases (nonempty_text (get_field "root" fs))) [
      | inl e' ↦ rw (e, e', parse_position_map) (λ x. cc)
      | inr (root, e') ↦ elim (Option-cases (as_object (get_field "positions" fs))) [
        | inl e'' ↦ rw (e, e', e'', parse_position_map) (λ x. cc)
        | inr (all, e'') ↦ rw (e, e', e'', parse_position_map) (parse_from_ends root all)
      ]
    ]
  ],
  elim (Bool-cases (inherits_in doc)) [
    | inl e ↦ inr e
    | inr e ↦ inl (parse_position_map_stays doc e)
  ],
)
