-- ===== src/Callers/Homes.antt =====
-- graph-rag/src/server.js: where the writes of a scoped caller land.
use gwarestrin.Base.{
  ℕ, String, ◌≡◌, refl, sym, ◌∙◌, subst, ◌⊎◌, inl, inr, Bool, true, false, not, ◌&&◌, ◌||◌, Option,
  none, some, List, arith, ◌==◌, if◌then◌else◌, elem, filter, Bool-cases, any-filter, any_of_elem,
  any_cong, &&-eq-true, Result, ok, err,
}
use gwarestrin.Positions.{
  PositionMap, everyone, known, held_positions, visible_homes, default_home, writable_homes,
}
use gwarestrin.Positions.Chain.{IsTree}
use gwarestrin.Positions.Order.{at_or_above, above_self}
use gwarestrin.Positions.Writes.{writable_homes-exact, default_home-IsDefaultHome, IsDefaultHome}
use gwarestrin.Grants.{Grant}
use gwarestrin.Callers.{
  Caller, Server, Scope, WriteError, scope_in, scope_of, to_write_home, is_everything,
  default_write, chosen_write, home_in_scope, is_unscoped, position_id, resolve_write_home,
}

abbrev pub server_of : PositionMap → List Grant → ℕ → Server
server_of m grants hours = record {
  scoped = true;
  position_map = some m;
  grants = grants;
  window_hours = hours;
}

scoped-or : (b : Bool) (x y : Scope) → b ≡ false → (if not true || b then x else y) ≡ y
scoped-or b x y e = rw e

pub scope_of_person :
    (text_lt : String → String → Bool) (m : PositionMap) (grants : List Grant) (hours : ℕ)
    (c : Caller) (now : ℕ)
    → c.is_open ≡ false
    → scope_of text_lt (server_of m grants hours) c now ≡ scope_in text_lt m grants c now
unfolding scope_of
scope_of_person text_lt m grants hours c now e = scoped-or c.is_open _ _ e

scoped_default : (o : Option String) → is_unscoped (to_write_home o) ≡ false
scoped_default none = refl
scoped_default (some h) = refl

default_written :
    (o : Option String) (h : String) → default_write (to_write_home o) ≡ ok (some h) → o ≡ some h
default_written none h e = cc
default_written (some x) h e = cc

sees_everything : (o : Option (List String)) → is_everything o ≡ true → o ≡ none
sees_everything none e = refl
sees_everything (some x) e = cc

module _ (text_lt : String → String → Bool) {m : PositionMap} (tree : IsTree m)
    (grants : List Grant) where
  -- Where a caller who holds these positions may write.
  abbrev pub Lands : List String → String → Type 0
  Lands held h =
      ((h ≡ everyone) × (visible_homes m (held_positions m held) ≡ none))
      ⊎ (elem h (writable_homes m held) ≡ true)

  writable_held :
      (held : List String) (x : String)
      → elem x (writable_homes m (held_positions m held)) ≡ elem x (writable_homes m held)
  unfolding held_positions
  writable_held held x =
      writable_homes-exact tree (filter (known m) held) x
      ∙ any-filter (λ p. known m p && at_or_above m x p) (known m) held
      ∙ any_cong _ _ held (λ p. ground arith)
      ∙ sym (writable_homes-exact tree held x)

  default_lands :
      (held : List String) (h : String)
      → default_home text_lt m (held_positions m held) ≡ some h
      → elem h (writable_homes m held) ≡ true
  unfolding held_positions
  default_lands held h e =
      let (mine, k, deep) =
        subst (IsDefaultHome text_lt m (held_positions m held)) e
          (default_home-IsDefaultHome text_lt m (held_positions m held)) in
      sym (writable_held held h)
      ∙ (writable_homes-exact tree (held_positions m held) h
          ∙ any_of_elem (λ p. known m p && at_or_above m h p) h (held_positions m held) mine
              (ground (arith, above_self m h)))

  chosen_write-Lands :
      (c : Caller) (now : ℕ) (everyone_ok : Bool) (r : Result WriteError String) (h : String)
      → chosen_write m (scope_in text_lt m grants c now) everyone_ok r ≡ ok (some h)
      → Lands c.positions h
  chosen_write-Lands c now everyone_ok (err x) h e = cc
  chosen_write-Lands c now everyone_ok (ok id) h e = elim (Bool-cases (id == everyone)) [
    | inl all ↦
        elim (Bool-cases
          (is_everything (visible_homes m (held_positions m c.positions)) && everyone_ok)) [
            | inl may ↦
                let e' = rw (all, may) at e in
                inl (cc, sees_everything _ (&&-eq-true _ everyone_ok may).0)
            | inr refused ↦ absurd (let e' = rw (all, refused) at e in cc)
          ]
    | inr one ↦ elim (Bool-cases (elem id (writable_homes m (held_positions m c.positions)))) [
      | inl may ↦
          let e' = rw (one, may) at e in
          let same : id ≡ h = cc in
          inr (
            sym (writable_held c.positions h)
            ∙ (subst (λ x. elem x (writable_homes m (held_positions m c.positions)) ≡ true) same
                may))
      | inr not_may ↦ absurd (let e' = rw (one, not_may) at e in cc)
    ]
  ]

  home_in_scope-Lands :
      (c : Caller) (now : ℕ) (everyone_ok : Bool) (requested : Option String) (h : String)
      → home_in_scope m (scope_in text_lt m grants c now) everyone_ok requested ≡ ok (some h)
      → Lands c.positions h
  home_in_scope-Lands c now everyone_ok none h e =
      inr (default_lands c.positions h (default_written _ h e))
  home_in_scope-Lands c now everyone_ok (some ref) h e = elim (Bool-cases (ref == "")) [
    | inl blank ↦ inr (default_lands c.positions h (default_written _ h (rw blank at e)))
    | inr given ↦ chosen_write-Lands c now everyone_ok (position_id (some m) ref) h (rw given at e)
  ]

  -- A write by a caller who is not in open mode lands at or above a known position that the caller
  -- holds, or at everyone's home if the caller sees everything.
  pub resolve_write_home-Lands :
      (hours : ℕ) (c : Caller) (now : ℕ) (everyone_ok : Bool) (requested : Option String)
      (h : String)
      → c.is_open ≡ false
      → resolve_write_home
          (server_of m grants hours)
          (scope_of text_lt (server_of m grants hours) c now)
          everyone_ok
          requested
        ≡ ok (some h)
      → Lands c.positions h
  unfolding resolve_write_home
  resolve_write_home-Lands hours c now everyone_ok requested h o e =
      home_in_scope-Lands c now everyone_ok requested h (
        let e' = rw (scope_of_person text_lt m grants hours c now o) at e in
        rw (scoped_default (default_home text_lt m (held_positions m c.positions))) at e')
