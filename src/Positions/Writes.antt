-- ===== src/Positions/Writes.antt =====
-- graph-rag/src/positions.js: `writableHomes` and `defaultHome`, where a caller's writes may land.
use native.Mathlib.Nat.{le_trans}
use gwarestrin.Base.{
  ℕ, ◌≤◌, String, ◌≡◌, refl, sym, ap, ◌∙◌, inl, inr, Bool, true, false, ◌&&◌, Option, none, some,
  List, [], ◌∷◌, arith, ◌==◌, eq_iff, eq_refl, length, filter, elem, any, sort, insert_sorted,
  head?, Bool-cases, elem-append, elem-filter, any-filter, elem_of_any,
}
use gwarestrin.Positions.{
  PositionMap, known, can_see, ancestors, held_positions, home_before, default_home, writable_from,
  writable_homes,
}
use gwarestrin.Positions.Chain.{IsTree, known-ne-everyone}
use gwarestrin.Positions.Order.{at_or_above, ancestors-eq-chain, known_of_above}
use gwarestrin.Positions.Visible.{can_see-known}
use gwarestrin.Positions.Moves.{below_sees}

module _ {m : PositionMap} (tree : IsTree m) where
  writable_from-exact :
      (x : String) (ids : List String)
      → ((id : String) → elem id ids ≡ true → known m id ≡ true)
      → elem x (writable_from m ids) ≡ any (λ p. at_or_above m x p) ids
  writable_from-exact x [] k = refl
  writable_from-exact x (id ∷ ids) k =
      elem-append x (id ∷ ancestors m id) (writable_from m ids)
      ∙ ground (
        arith,
        writable_from-exact x ids (λ j e. k j (ground arith)),
        ancestors-eq-chain m id (known-ne-everyone tree id (k id (ground (arith, eq_refl id)))),
      )

  held-known :
      (held : List String) (id : String)
      → elem id (held_positions m held) ≡ true
      → (elem id held && known m id) ≡ true
  unfolding held_positions
  held-known held id e = sym (elem-filter id (known m) held) ∙ e

  -- A caller may home a write at the known positions it holds and at what lies above one of them,
  -- and nowhere else.
  pub writable_homes-exact :
      (held : List String) (x : String)
      → elem x (writable_homes m held) ≡ any (λ p. known m p && at_or_above m x p) held
  unfolding writable_homes held_positions
  writable_homes-exact held x =
      writable_from-exact x (filter (known m) held)
        (λ id e. ground (arith, elem-filter id (known m) held))
      ∙ any-filter (λ p. at_or_above m x p) (known m) held

  -- Whoever sees a home that a caller may write to sees what is homed at some position that the
  -- caller holds: a write never lands below or beside its writer's positions.
  pub writable_audience :
      (held viewer : List String) (x : String)
      → elem x (writable_homes m held) ≡ true
      → can_see m viewer (some x) ≡ true
      → (p : String) × (elem p held ≡ true) × (can_see m viewer (some p) ≡ true)
  writable_audience held viewer x w h =
      let (p, mine, up) =
        elem_of_any (λ p. known m p && at_or_above m x p) held
          (sym (writable_homes-exact held x) ∙ w) in
      let kp : known m p ≡ true = (ground arith) in
      let kx : known m x ≡ true = known_of_above tree x p kp (ground arith) in
      let seen = sym (can_see-known tree viewer x (ground arith)) ∙ h in
      (
        p,
        mine,
        can_see-known tree viewer p (ground arith)
            ∙ ground (arith, known-ne-everyone tree x kx, below_sees tree viewer x p),
      )

module _ (text_lt : String → String → Bool) (m : PositionMap) where
  abbrev depth : String → ℕ
  depth p = length (ancestors m p)

  home_before-depth :
      (a b : String)
      → (home_before text_lt m a b ≡ true → depth b ≤ depth a)
        × (home_before text_lt m a b ≡ false → depth a ≤ depth b)
  home_before-depth a b = (λ e. ground arith, λ e. ground arith)

  -- The head of a list is at least as deep as all of it.
  abbrev Deepest : String → List String → Type 0
  Deepest h xs = (p : String) → elem p xs ≡ true → depth p ≤ depth h

  abbrev TopOf : Option String → List String → Type 0
  TopOf none xs = xs ≡ []
  TopOf (some h) xs = (elem h xs ≡ true) × Deepest h xs

  cover : (x h : String) (xs : List String) → Deepest h xs → depth x ≤ depth h → Deepest h (x ∷ xs)
  cover x h xs deep le p e = elim (Bool-cases (p == x)) [
    | inl same ↦ rw ((eq_iff p x).0 same) le
    | inr other ↦ deep p (ground arith)
  ]

  insert-TopOf :
      (x : String) (xs ys : List String)
      → TopOf (head? ys) xs
      → TopOf (head? (insert_sorted (home_before text_lt m) x ys)) (x ∷ xs)
  insert-TopOf x xs [] top = (
    ground (arith, eq_refl x),
    λ p e. cover x x xs (λ q m. cc (ap (elem q) top)) (omega arith) p e,
  )
  insert-TopOf x xs (y ∷ ys) (here, deep) = elim (Bool-cases (home_before text_lt m y x)) [
    | inl e ↦ rw e (ground (arith, here), cover x y xs deep ((home_before-depth y x).0 e))
    | inr e ↦
        let up = (home_before-depth y x).1 e in
        rw e (ground (arith, eq_refl x), cover x x xs (λ p m. le_trans (deep p m) up) (omega arith))
  ]

  sort-TopOf : (xs : List String) → TopOf (head? (sort (home_before text_lt m) xs)) xs
  sort-TopOf [] = refl
  sort-TopOf (x ∷ xs) = insert-TopOf x xs (sort (home_before text_lt m) xs) (sort-TopOf xs)

  -- What `defaultHome` promises: with no known position held there is none; otherwise it is a known
  -- held position, and no known held position lies deeper in the tree.
  abbrev pub IsDefaultHome : List String → Option String → Type 0
  IsDefaultHome held none = (p : String) → elem p held ≡ true → known m p ≡ false
  IsDefaultHome held (some h) =
      (elem h held ≡ true)
      × (known m h ≡ true)
      × ((p : String) → elem p held ≡ true → known m p ≡ true → depth p ≤ depth h)

  -- The default home is the caller's deepest known position, whatever the order of names; it is
  -- missing exactly when the caller holds no known position.
  pub default_home-IsDefaultHome :
      (held : List String) → IsDefaultHome held (default_home text_lt m held)
  unfolding default_home held_positions
  default_home-IsDefaultHome held =
      go (head? (sort (home_before text_lt m) (filter (known m) held)))
        (sort-TopOf (filter (known m) held))
    where
      go : (o : Option String) → TopOf o (filter (known m) held) → IsDefaultHome held o
      go none top = λ p e. ground (arith, elem-filter p (known m) held, ap (elem p) top)
      go (some h) (here, deep) = (
        ground (arith, elem-filter h (known m) held),
        ground (arith, elem-filter h (known m) held),
        λ p e k. deep p (ground (arith, elem-filter p (known m) held)),
      )
