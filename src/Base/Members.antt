-- ===== src/Base/Members.antt =====
-- Sets and arrays of ids: `includes` and `has` as a Boolean test, with its laws.
use Prim.Native.Nat.{ℕ, suc, ◌≤◌, ◌<◌}
use Prim.Native.String.{String}
use mathlib.Core.Path.{◌≡◌, refl, sym, ◌∙◌, ap}
use mathlib.Core.Logic.{inl, inr}
use mathlib.Core.Bool.{Bool, true, false, ◌&&◌, ◌||◌}
use mathlib.Core.List.{List, [], ◌∷◌, ◌++◌, reverse, reverse_aux}
use native.Mathlib.Omega.{arith}
use text.Mathlib.Text.{◌==◌}
use text.Mathlib.TextEquality.{eq_iff}
use text.Mathlib.TextPositions.{eq_refl}
use gwarestrin.Base.Tests.{Bool-cases, if◌then◌else◌}
use gwarestrin.Base.Lists.{filter, any, all, insert_sorted, sort}

abbrev pub elem : String → List String → Bool
elem x [] = false
elem x (y ∷ ys) = x == y || elem x ys

-- No text twice.
abbrev pub IsDistinct : List String → Type 0
IsDistinct [] = Unit
IsDistinct (x ∷ xs) = (elem x xs ≡ false) × IsDistinct xs

pub elem-append : (x : String) (ys zs : List String) → elem x (ys ++ zs) ≡ (elem x ys || elem x zs)
elem-append x [] zs = refl
elem-append x (y ∷ ys) zs = ground (arith, elem-append x ys zs)

elem-reverse_aux :
    (x : String) (ys zs : List String) → elem x (reverse_aux ys zs) ≡ (elem x ys || elem x zs)
elem-reverse_aux x [] zs = refl
elem-reverse_aux x (y ∷ ys) zs = ground (arith, elem-reverse_aux x ys (y ∷ zs))

pub elem-reverse : (x : String) (ys : List String) → elem x (reverse ys) ≡ elem x ys
elem-reverse x ys = ground (arith, elem-reverse_aux x ys [])

pub elem-filter :
    (x : String) (p : String → Bool) (ys : List String) → elem x (filter p ys) ≡ (elem x ys && p x)
elem-filter x p [] = refl
elem-filter x p (y ∷ ys) = elim (Bool-cases (x == y)) [
  | inl e ↦ ground (arith, elem-filter x p ys, ap p ((eq_iff x y).0 e))
  | inr e ↦ ground (arith, elem-filter x p ys)
]

pub elem-insert_sorted :
    (before : String → String → Bool) (x y : String) (ys : List String)
    → elem x (insert_sorted before y ys) ≡ (x == y || elem x ys)
elem-insert_sorted before x y [] = refl
elem-insert_sorted before x y (z ∷ ys) = ground (arith, elem-insert_sorted before x y ys)

pub elem-sort :
    (before : String → String → Bool) (x : String) (ys : List String)
    → elem x (sort before ys) ≡ elem x ys
elem-sort before x [] = refl
elem-sort before x (y ∷ ys) =
    elem-insert_sorted before x y (sort before ys) ∙ ap (λ b. x == y || b) (elem-sort before x ys)

-- How many of `ys` are not in `seen`.
abbrev pub count_unseen : List String → List String → ℕ
count_unseen seen [] = 0
count_unseen seen (y ∷ ys) =
    let rest = count_unseen seen ys in if elem y seen then rest else suc rest

count_unseen_mono :
    (x : String) (seen ys : List String) → count_unseen (x ∷ seen) ys ≤ count_unseen seen ys
count_unseen_mono x seen [] = omega arith
count_unseen_mono x seen (y ∷ ys) = ground (arith, count_unseen_mono x seen ys)

-- To see one more of them leaves fewer.
pub count_unseen-cons-lt :
    (x : String) (seen ys : List String)
    → elem x seen ≡ false
    → elem x ys ≡ true
    → count_unseen (x ∷ seen) ys < count_unseen seen ys
count_unseen-cons-lt x seen [] new m = absurd (ground arith)
count_unseen-cons-lt x seen (y ∷ ys) new m = elim (Bool-cases (x == y)) [
  | inl e ↦ ground (
    arith,
    count_unseen_mono x seen ys,
    ap (λ z. elem z seen) ((eq_iff x y).0 e),
    eq_iff x y,
    eq_iff y x,
  )
  | inr e ↦ ground (arith, count_unseen-cons-lt x seen ys, eq_iff x y, eq_iff y x)
]

-- A text that is there is equal to one that is.
pub elem_cast : (x y : String) (ys : List String) → (x == y) ≡ true → elem y ys ≡ elem x ys
elem_cast x y ys e = ap (λ z. elem z ys) (sym ((eq_iff x y).0 e))

module _ (f g : String → Bool) where
  pub any_mono :
      (xs : List String)
      → ((x : String) → f x ≡ true → g x ≡ true)
      → any f xs ≡ true
      → any g xs ≡ true
  any_mono [] h e = e
  any_mono (x ∷ xs) h e = ground (arith, h x, any_mono xs h)

  pub any-or : (xs : List String) → any (λ x. f x || g x) xs ≡ (any f xs || any g xs)
  any-or [] = refl
  any-or (x ∷ xs) = ground (arith, any-or xs)

pub any_of_elem :
    (f : String → Bool) (x : String) (xs : List String)
    → elem x xs ≡ true
    → f x ≡ true
    → any f xs ≡ true
any_of_elem f x [] m h = m
any_of_elem f x (y ∷ ys) m h = elim (Bool-cases (x == y)) [
  | inl e ↦ ground (arith, ap f ((eq_iff x y).0 e))
  | inr e ↦ ground (arith, any_of_elem f x ys)
]

pub elem_of_any :
    (f : String → Bool) (xs : List String)
    → any f xs ≡ true
    → (x : String) × (elem x xs ≡ true) × (f x ≡ true)
elem_of_any f [] h = absurd (ground arith)
elem_of_any f (y ∷ ys) h = elim (Bool-cases (f y)) [
  | inl e ↦ (y, rw eq_refl, e)
  | inr e ↦ let (x, m, k) = elem_of_any f ys (ground arith) in (x, ground arith, k)
]

pub any-== : (x : String) (xs : List String) → any (λ p. p == x) xs ≡ elem x xs
any-== x [] = refl
any-== x (y ∷ ys) = ground (arith, any-== x ys, eq_iff x y, eq_iff y x)

pub any-filter :
    (f p : String → Bool) (xs : List String) → any f (filter p xs) ≡ any (λ x. p x && f x) xs
any-filter f p [] = refl
any-filter f p (x ∷ xs) = ground (arith, any-filter f p xs)

pub all_intro :
    (f : String → Bool) (xs : List String)
    → ((x : String) → elem x xs ≡ true → f x ≡ true)
    → all f xs ≡ true
all_intro f [] h = refl
all_intro f (y ∷ ys) h = ground (arith, h y, eq_refl y, all_intro f ys (λ x e. h x (ground arith)))

pub all-elem :
    (f : String → Bool) (x : String) (xs : List String)
    → all f xs ≡ true
    → elem x xs ≡ true
    → f x ≡ true
all-elem f x [] a m = cc
all-elem f x (y ∷ ys) a m = elim (Bool-cases (x == y)) [
  | inl e ↦ ground (arith, ap f ((eq_iff x y).0 e))
  | inr e ↦ ground (arith, all-elem f x ys)
]

pub any_cong {ℓ} :
    {A : Type ℓ} (f g : A → Bool) (xs : List A) → ((x : A) → f x ≡ g x) → any f xs ≡ any g xs
any_cong f g [] same = refl
any_cong f g (x ∷ xs) same = ground (arith, same x, any_cong f g xs same)
