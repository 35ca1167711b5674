-- ===== src/Positions/Parse/Walks.antt =====
-- graph-rag/src/positions.js: the cycle check of `parsePositionMap`.
use gwarestrin.Base.{
  ℕ, zero, suc, ◌≤◌, ◌<◌, String, ◌≡◌, refl, sym, ap, ◌∙◌, subst, ◌≢◌, inl, inr, ◌||◌, true, false,
  some, List, [], ◌∷◌, arith, ◌==◌, eq_iff, eq_refl, length, elem, keys, Bool-cases, Option-cases,
  elem-keys-eq, count_unseen, count_unseen-cons-lt, Result, ok, err, ◌>>=◌, >>=-eq-err,
}
use gwarestrin.Positions.{PositionMap, parent_of, known}
use gwarestrin.Positions.Chain.{Rooted}
use gwarestrin.Positions.Parse.{ParseError, spent, lost, cycle, walk, walk_all}

pub bind-avoids :
    {A B : Type 0} (x : ParseError) (r : Result ParseError A) (f : A → Result ParseError B)
    → r ≢ err x
    → ((a : A) → r ≡ ok a → f a ≢ err x)
    → (r >>= f) ≢ err x
bind-avoids x (ok a) f h k = k a refl
bind-avoids x (err e) f h k = λ y. h (let same : e ≡ x = cc in ap err same)

count_unseen-le : (seen ys : List String) → count_unseen seen ys ≤ length ys
count_unseen-le seen [] = omega arith
count_unseen-le seen (y ∷ ys) = ground (arith, count_unseen-le seen ys)

length-keys : {V : Type 0} (ps : List (String × V)) → length (keys ps) ≡ length ps
length-keys [] = refl
length-keys ((k, p) ∷ ps) = ap suc (length-keys ps)

module _ (m : PositionMap) where
  parent_of-known : (id q : String) → parent_of m id ≡ some q → known m id ≡ true
  parent_of-known id q h = ground arith

  -- A step from a position that was not seen leaves one less to see.
  walk_ends :
      (f : ℕ) (cur : String) (seen : List String)
      → count_unseen seen (keys m.positions) < f
      → walk f m cur seen ≢ err spent
  unfolding walk
  walk_ends zero cur seen h = absurd (omega arith)
  walk_ends (suc f) cur seen h = elim (Bool-cases (cur == m.root)) [
    | inl e ↦ rw e (λ x. cc)
    | inr e ↦ elim (Bool-cases (elem cur seen)) [
      | inl old ↦ rw (e, old) (λ x. cc)
      | inr new ↦ elim (Option-cases (parent_of m cur)) [
        | inl p ↦ rw (e, new, p) (λ x. cc)
        | inr (q, p) ↦
            rw (e, new, p)
              (walk_ends f q (cur ∷ seen) (
                omega (
                  arith,
                  count_unseen-cons-lt cur seen (keys m.positions) new
                      (elem-keys-eq cur m.positions ∙ parent_of-known cur q p),
                )))
      ]
    ]
  ]

  pub walk_all_ends : (ids : List String) → walk_all m ids ≢ err spent
  unfolding walk_all
  walk_all_ends [] = λ x. cc
  walk_all_ends (id ∷ ids) =
      bind-avoids spent (walk (suc (length m.positions)) m id []) (λ _. walk_all m ids)
        (walk_ends (suc (length m.positions)) id []
          (omega (arith, count_unseen-le [] (keys m.positions), length-keys m.positions)))
        (λ done e. walk_all_ends ids)

  module _
      (up : (id : String)
        → known m id ≡ true
        → (id == m.root) ≡ false
        → (q : String) × (parent_of m id ≡ some q) × ((q == m.root || known m q) ≡ true)) where
    walk_stays :
        (f : ℕ) (cur : String) (seen : List String)
        → (cur == m.root || known m cur) ≡ true
        → walk f m cur seen ≢ err lost
    unfolding walk
    walk_stays zero cur seen k = λ x. cc
    walk_stays (suc f) cur seen k = elim (Bool-cases (cur == m.root)) [
      | inl e ↦ rw e (λ x. cc)
      | inr e ↦ elim (Bool-cases (elem cur seen)) [
        | inl old ↦ rw (e, old) (λ x. cc)
        | inr new ↦
            let (q, p, kq) = up cur (ground arith) e in
            rw (e, new, p) (walk_stays f q (cur ∷ seen) kq)
      ]
    ]

    pub walk_all_stays :
        (ids : List String)
        → ((id : String) → elem id ids ≡ true → known m id ≡ true)
        → walk_all m ids ≢ err lost
    unfolding walk_all
    walk_all_stays [] k = λ x. cc
    walk_all_stays (id ∷ ids) k =
        bind-avoids lost (walk (suc (length m.positions)) m id []) (λ _. walk_all m ids)
          (walk_stays (suc (length m.positions)) id []
            (let here = k id (ground (arith, eq_refl id)) in ground arith))
          (λ done e. walk_all_stays ids (λ x i. k x (ground arith)))

  -- Whoever stands in `seen` reached `cur` by one step or more without passing the root.
  abbrev Led : String → List String → Type 0
  Led cur seen =
      (x : String)
      → elem x seen ≡ true
      → (n : ℕ) → Rooted m n x
      → (k : ℕ) × (suc k ≤ n) × Rooted m k cur

  no-Rooted :
      (cur : String) (seen : List String)
      → Led cur seen
      → elem cur seen ≡ true
      → (n bound : ℕ) → n < bound
      → ¬ (Rooted m n cur)
  no-Rooted cur seen led old n zero h r = absurd (omega arith)
  no-Rooted cur seen led old n (suc bound) h r =
      let (k, less, r') = led cur old n r in no-Rooted cur seen led old k bound (omega arith) r'

  Rooted-up :
      (cur q : String) (n : ℕ)
      → (cur == m.root) ≡ false
      → parent_of m cur ≡ some q
      → Rooted m n cur
      → (k : ℕ) × (suc k ≤ n) × Rooted m k q
  Rooted-up cur q zero e p r = absurd (ground (arith, eq_iff cur m.root))
  Rooted-up cur q (suc n) e p (q', p', r) =
      let same : q' ≡ q = (ground arith) in (n, omega arith, subst (Rooted m n) same r)

  step-Led :
      (cur q : String) (seen : List String)
      → (cur == m.root) ≡ false
      → parent_of m cur ≡ some q
      → Led cur seen
      → Led q (cur ∷ seen)
  step-Led cur q seen e p led x i n r = elim (Bool-cases (x == cur)) [
    | inl same ↦ Rooted-up cur q n e p (subst (Rooted m n) ((eq_iff x cur).0 same) r)
    | inr other ↦
        let (k, less, r') = led x (ground arith) n r in
        let (j, less', r'') = Rooted-up cur q k e p r' in (j, omega arith, r'')
  ]

  walk-cycle :
      (f : ℕ) (cur : String) (seen : List String) (c : String)
      → Led cur seen
      → walk f m cur seen ≡ err (cycle c)
      → (n : ℕ) → ¬ (Rooted m n c)
  unfolding walk
  walk-cycle zero cur seen c led h n r = absurd (ground arith)
  walk-cycle (suc f) cur seen c led h n r = elim (Bool-cases (cur == m.root)) [
    | inl e ↦ absurd (ground arith)
    | inr e ↦ elim (Bool-cases (elem cur seen)) [
      | inl old ↦
          let same : cur ≡ c = (ground arith) in
          no-Rooted cur seen led old n (suc n) (omega arith) (subst (Rooted m n) (sym same) r)
      | inr new ↦ elim (Option-cases (parent_of m cur)) [
        | inl p ↦ absurd (ground arith)
        | inr (q, p) ↦
            walk-cycle f q (cur ∷ seen) c (step-Led cur q seen e p led) (ground arith) n r
      ]
    ]
  ]

  -- Whatever position the parser reports a cycle at, no number of steps leads from it to the root.
  pub walk_all-cycle :
      (ids : List String) (c : String) → walk_all m ids ≡ err (cycle c) → (n : ℕ) → ¬ (Rooted m n c)
  unfolding walk_all
  walk_all-cycle [] c h = absurd (ground arith)
  walk_all-cycle (id ∷ ids) c h =
      elim (>>=-eq-err (walk (suc (length m.positions)) m id []) (λ _. walk_all m ids) (cycle c)
        h) [
          | inl here ↦
              walk-cycle (suc (length m.positions)) id [] c (λ x e. absurd (ground arith)) here
          | inr (done, _, later) ↦ walk_all-cycle ids c later
        ]
