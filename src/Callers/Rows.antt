-- ===== src/Callers/Rows.antt =====
-- graph-rag/src/server.js: which rows the filter of a caller lets through.
use gwarestrin.Base.{
  ℕ, String, ◌≡◌, refl, sym, ap, ◌∙◌, inl, inr, Bool, true, false, not, ◌&&◌, ◌||◌, Option, none,
  some, List, [], ◌∷◌, ◌++◌, arith, ◌==◌, elem, any, elem-append, Option-cases, ap,
}
use gwarestrin.Positions.{PositionMap, everyone, known, held_positions, visible_homes, can_see}
use gwarestrin.Positions.Chain.{IsTree}
use gwarestrin.Positions.Visible.{effective_home_self}
use gwarestrin.Grants.{Grant, Entity, View, granted_view}
use gwarestrin.Delegation.{is_text}
use gwarestrin.Callers.{
  Caller, Row, Cond, home_in, thing_in, scope_in, person_of, meets, conds, some_homes, person_conds,
  entity_conds, granted_entities, is_entity, in_homes, lets_through,
}

any-append {ℓ} :
    {A : Type ℓ} (f : A → Bool) (xs ys : List A) → any f (xs ++ ys) ≡ (any f xs || any f ys)
any-append f [] ys = refl
any-append f (x ∷ xs) ys = ground (arith, any-append f xs ys)

in_none : (o : Option String) → in_homes o [] ≡ false
in_none none = refl
in_none (some h) = refl

home_conds :
    (r : Row) (all : List String)
    → any (meets r) (some_homes all (home_in all ∷ [])) ≡ in_homes r.home all
home_conds r [] = sym (in_none r.home)
home_conds r (h ∷ hs) = ground arith

thing_conds :
    (r : Row) (all : List String)
    → is_text r.kind "thing" ≡ false
    → any (meets r) (some_homes all (thing_in all ∷ [])) ≡ false
thing_conds r [] e = refl
thing_conds r (h ∷ hs) e = ground arith

-- Written by the person, if there is one.
abbrev pub wrote : Option String → String → Bool
wrote author person = not (person == "") && is_text author person

person_cond : (r : Row) (p : String) → any (meets r) (person_conds (some p)) ≡ wrote r.written_by p
person_cond r p = ground arith

entity_cond : (r : Row) (es : List Entity) → any (meets r) (entity_conds es) ≡ any (is_entity r) es
entity_cond r [] = refl
entity_cond r (e ∷ es) = ground arith

four :
    (r : Row) (a b c d : List Cond)
    → any (meets r) (a ++ (b ++ (c ++ d)))
      ≡ (any (meets r) a || (any (meets r) b || (any (meets r) c || any (meets r) d)))
four r a b c d =
    any-append (meets r) a (b ++ (c ++ d))
    ∙ ap (λ x. any (meets r) a || x)
        (any-append (meets r) b (c ++ d)
          ∙ ap (λ x. any (meets r) b || x) (any-append (meets r) c d))

module _ (text_lt : String → String → Bool) (m : PositionMap) (grants : List Grant) (c : Caller)
    (now : ℕ) where
  abbrev pub view : View
  view = granted_view m (held_positions m c.positions) grants now (some (person_of c.user))

  -- What a row that is no thing is let through for, by the homes that the caller sees of its own.
  abbrev pub shown : List String → Row → Bool
  shown homes r =
      in_homes r.home homes
      || (in_homes r.home view.homes
          || (wrote r.written_by (person_of c.user)
              || any (is_entity r) (granted_entities (some view))))

  in_homes-append :
      (o : Option String) (xs ys : List String)
      → in_homes o (xs ++ ys) ≡ (in_homes o xs || in_homes o ys)
  in_homes-append none xs ys = refl
  in_homes-append (some h) xs ys = elem-append h xs ys

  conds-shown :
      (homes : List String) (r : Row)
      → is_text r.kind "thing" ≡ false
      → any (meets r) (conds homes (scope_in text_lt m grants c now) false) ≡ shown homes r
  conds-shown homes r k =
      let all = homes ++ view.homes in
      four r (some_homes all (home_in all ∷ [])) (person_conds (some (person_of c.user)))
        (some_homes all (thing_in all ∷ [])) (entity_conds (granted_entities (some view)))
      ∙ ground (
        arith,
        home_conds r all,
        in_homes-append r.home homes view.homes,
        person_cond r (person_of c.user),
        thing_conds r all k,
        entity_cond r (granted_entities (some view)),
      )

  seen_at :
      IsTree m
      → (h : String) → (h == everyone || known m h) ≡ true
      → (vis : List String) → visible_homes m (held_positions m c.positions) ≡ some vis
      → can_see m (held_positions m c.positions) (some h) ≡ elem h vis
  unfolding can_see
  seen_at tree h k vis e = rw (e, effective_home_self tree h k) refl

  sees_all :
      (h : String)
      → visible_homes m (held_positions m c.positions) ≡ none
      → can_see m (held_positions m c.positions) (some h) ≡ true
  unfolding can_see
  sees_all h e = rw e refl

  home_shown :
      (o : Option String) (h : String) (homes : List String)
      → o ≡ some h
      → in_homes o homes ≡ elem h homes
  home_shown o h homes e = ap (λ x. in_homes x homes) e

  -- A row that is no thing and has a position or everyone's home is let through exactly if the caller
  -- sees its home, or a grant opens the home, or the person behind the caller wrote it, or a grant
  -- shows the entry.
  pub lets_through-exact :
      IsTree m
      → (r : Row) (h : String) → is_text r.kind "thing" ≡ false
      → r.home ≡ some h
      → (h == everyone || known m h) ≡ true
      → lets_through (scope_in text_lt m grants c now) false r ≡ (
          can_see m (held_positions m c.positions) (some h)
          || (elem h view.homes
              || (wrote r.written_by (person_of c.user)
                  || any (is_entity r) (granted_entities (some view)))))
  unfolding lets_through
  lets_through-exact tree r h thing at k =
      elim (Option-cases (visible_homes m (held_positions m c.positions))) [
        | inl e ↦ rw (e, sees_all h e) refl
        | inr (vis, e) ↦
            rw (e, seen_at tree h k vis e)
              (conds-shown vis r thing
                ∙ ground (arith, home_shown r.home h vis at, home_shown r.home h view.homes at))
      ]

  -- By its own positions the caller gets exactly the rows whose home it sees, things aside.
  pub lets_through_own :
      IsTree m
      → (r : Row) (h : String) → is_text r.kind "thing" ≡ false
      → r.home ≡ some h
      → (h == everyone || known m h) ≡ true
      → lets_through (scope_in text_lt m grants c now) true r
        ≡ can_see m (held_positions m c.positions) (some h)
  unfolding lets_through
  lets_through_own tree r h thing at k =
      elim (Option-cases (visible_homes m (held_positions m c.positions))) [
        | inl e ↦ rw (e, sees_all h e) refl
        | inr (vis, e) ↦
            rw (e, seen_at tree h k vis e)
              (four r (some_homes vis (home_in vis ∷ [])) [] (some_homes vis (thing_in vis ∷ [])) []
                ∙ ground
                    (arith, home_conds r vis, thing_conds r vis thing, home_shown r.home h vis at))
      ]
