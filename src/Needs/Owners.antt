-- ===== src/Needs/Owners.antt =====
-- graph-rag/src/needs.js: who is asked about data at a home.
use gwarestrin.Base.{
  String, ◌≡◌, refl, sym, ap, ◌∙◌, inl, inr, Bool, true, false, not, ◌&&◌, ◌||◌, some, List, [],
  ◌∷◌, arith, ◌==◌, any, elem, sort, insert_sorted, Bool-cases, Bool_ext, elem-sort, any_of_elem,
  elem_of_any,
}
use gwarestrin.Positions.{PositionMap, known, ancestors, can_see}
use gwarestrin.Positions.Chain.{IsTree, known-ne-everyone}
use gwarestrin.Positions.Order.{at_or_above, ancestors-eq-chain, known_of_above}
use gwarestrin.Positions.Visible.{can_see-known}
use gwarestrin.Needs.{
  Holders, holds_other, owners_at, is_empty, first_owners, text_before, owners_for,
}

-- Somebody other than the asker who holds one of these positions.
abbrev holds_one : String → List String → String × List String → Bool
holds_one asker ps h = not (h.0 == asker) && any (λ p. elem p h.1) ps

module _ (f g : String × List String → Bool) where
  somebody_mono :
      (hs : Holders)
      → ((h : String × List String) → f h ≡ true → g h ≡ true)
      → any f hs ≡ true
      → any g hs ≡ true
  somebody_mono [] imp e = e
  somebody_mono (h ∷ hs) imp e = ground (arith, imp h, somebody_mono hs imp)

  somebody_cong : (hs : Holders) → ((h : String × List String) → f h ≡ g h) → any f hs ≡ any g hs
  somebody_cong [] same = refl
  somebody_cong (h ∷ hs) same = ground (arith, same h, somebody_cong hs same)

elem-owners_at :
    (asker pos x : String) (hs : Holders)
    → elem x (owners_at asker hs pos) ≡ any (λ h. x == h.0 && holds_other asker pos h) hs
elem-owners_at asker pos x [] = refl
elem-owners_at asker pos x (h ∷ hs) = ground (arith, elem-owners_at asker pos x hs)

is_empty-owners_at :
    (asker pos : String) (hs : Holders)
    → is_empty (owners_at asker hs pos) ≡ not (any (holds_other asker pos) hs)
is_empty-owners_at asker pos [] = refl
is_empty-owners_at asker pos (h ∷ hs) = ground (arith, is_empty-owners_at asker pos hs)

is_empty-insert_sorted :
    (x : String) (xs : List String) → is_empty (insert_sorted text_before x xs) ≡ false
is_empty-insert_sorted x [] = refl
is_empty-insert_sorted x (y ∷ xs) = ground arith

is_empty-sort : (xs : List String) → is_empty (sort text_before xs) ≡ is_empty xs
is_empty-sort [] = refl
is_empty-sort (x ∷ xs) = is_empty-insert_sorted x (sort text_before xs)

nobody : (asker : String) (hs : Holders) → any (holds_one asker []) hs ≡ false
nobody asker [] = refl
nobody asker (h ∷ hs) = ground (arith, nobody asker hs)

holds_one-cons :
    (asker p : String) (ps : List String) (hs : Holders)
    → any (holds_one asker (p ∷ ps)) hs
      ≡ (any (holds_other asker p) hs || any (holds_one asker ps) hs)
holds_one-cons asker p ps [] = refl
holds_one-cons asker p ps (h ∷ hs) = ground (arith, holds_one-cons asker p ps hs)

is_empty-first_owners :
    (asker : String) (hs : Holders) (ps : List String)
    → is_empty (first_owners asker hs ps) ≡ not (any (holds_one asker ps) hs)
is_empty-first_owners asker hs [] = rw (nobody asker hs)
is_empty-first_owners asker hs (p ∷ ps) = ground (
  arith,
  is_empty-owners_at asker p hs,
  is_empty-sort (owners_at asker hs p),
  is_empty-first_owners asker hs ps,
  holds_one-cons asker p ps hs,
)

-- An owner is somebody else who holds one of the positions.
first_owners-holds_one :
    (asker x : String) (hs : Holders) (ps : List String)
    → elem x (first_owners asker hs ps) ≡ true
    → any (λ h. x == h.0 && holds_one asker ps h) hs ≡ true
first_owners-holds_one asker x hs [] e = cc
first_owners-holds_one asker x hs (p ∷ ps) e = elim (Bool-cases (is_empty (owners_at asker hs p))) [
  | inl none_here ↦
      somebody_mono (λ h. x == h.0 && holds_one asker ps h)
        (λ h. x == h.0 && holds_one asker (p ∷ ps) h) hs (λ h k. ground arith)
        (first_owners-holds_one asker x hs ps (rw none_here at e))
  | inr some_here ↦
      somebody_mono (λ h. x == h.0 && holds_other asker p h)
        (λ h. x == h.0 && holds_one asker (p ∷ ps) h) hs (λ h k. ground arith)
        (sym (elem-owners_at asker p x hs)
          ∙ (sym (elem-sort text_before x (owners_at asker hs p)) ∙ (rw some_here at e)))
]

module _ {m : PositionMap} (tree : IsTree m) (home : String) (k : known m home ≡ true) where
  holds_above :
      (held : List String)
      → any (λ p. elem p held) (home ∷ ancestors m home) ≡ can_see m held (some home)
  holds_above held =
      holds_at_or_above
      ∙ sym (
          can_see-known tree held home (ground arith)
          ∙ ap (λ b. b || any (λ p. known m p && at_or_above m p home) held)
              (known-ne-everyone tree home k))
    where
      up : (p : String) → elem p (home ∷ ancestors m home) ≡ at_or_above m p home
      up p = rw (ancestors-eq-chain m home (known-ne-everyone tree home k)) refl

      holds_at_or_above :
          any (λ p. elem p held) (home ∷ ancestors m home)
          ≡ any (λ p. known m p && at_or_above m p home) held
      holds_at_or_above =
          Bool_ext _ _
            (λ e.
              let (p, there, has) = elem_of_any (λ p. elem p held) (home ∷ ancestors m home) e in
              any_of_elem (λ p. known m p && at_or_above m p home) p held has
                (ground (arith, up p, known_of_above tree p home k)))
            (λ e.
              let (p, has, there) = elem_of_any (λ p. known m p && at_or_above m p home) held e in
              any_of_elem (λ p. elem p held) p (home ∷ ancestors m home) (ground (arith, up p)) has)

  sees_it :
      (asker : String) (h : String × List String)
      → holds_one asker (home ∷ ancestors m home) h
        ≡ (not (h.0 == asker) && can_see m h.1 (some home))
  sees_it asker h = ap (λ b. not (h.0 == asker) && b) (holds_above h.1)

  -- Whoever is asked about data at a known position is not the asker, and holds positions from which
  -- the data is seen.
  pub owners_for-can_see :
      (holders : Holders) (asker x : String)
      → elem x (owners_for m home holders asker) ≡ true
      → any (λ h. x == h.0 && (not (h.0 == asker) && can_see m h.1 (some home))) holders ≡ true
  unfolding owners_for
  owners_for-can_see holders asker x e =
      somebody_mono (λ h. x == h.0 && holds_one asker (home ∷ ancestors m home) h)
        (λ h. x == h.0 && (not (h.0 == asker) && can_see m h.1 (some home))) holders
        (λ h l. ground (arith, sees_it asker h))
        (first_owners-holds_one asker x holders (home ∷ ancestors m home) e)

  -- Nobody is asked only if nobody but the asker sees the data.
  pub owners_for-exists :
      (holders : Holders) (asker : String)
      → is_empty (owners_for m home holders asker)
        ≡ not (any (λ h. not (h.0 == asker) && can_see m h.1 (some home)) holders)
  unfolding owners_for
  owners_for-exists holders asker =
      is_empty-first_owners asker holders (home ∷ ancestors m home)
      ∙ ap not (
          somebody_cong (holds_one asker (home ∷ ancestors m home))
            (λ h. not (h.0 == asker) && can_see m h.1 (some home)) holders (sees_it asker))

  -- Where somebody else holds the position itself, exactly they are asked, and nobody above.
  pub owners_for-holders :
      (holders : Holders) (asker x : String)
      → any (holds_other asker home) holders ≡ true
      → elem x (owners_for m home holders asker)
        ≡ any (λ h. x == h.0 && holds_other asker home h) holders
  unfolding owners_for
  owners_for-holders holders asker x e =
      let here : is_empty (owners_at asker holders home) ≡ false =
        is_empty-owners_at asker home holders ∙ ap not e in
      rw here (
        elem-sort text_before x (owners_at asker holders home)
        ∙ elem-owners_at asker home x holders)
