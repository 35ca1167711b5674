-- ===== src/Instances/Names.antt =====
-- The lists of names that a workspace may use.
use Prim.Native.String.{String}
use gwarestrin.Base.{
  ◌≡◌, refl, sym, ap, ◌∙◌, subst, Bool, true, false, not, ◌||◌, List, [], ◌∷◌, ◌==◌, ltb, length,
  elem, any, IsDistinct, insert_sorted, sort, elem-sort, elem-insert_sorted, any_of_elem, Result,
  ok, arith, inl, inr, Bool-cases, eq_iff,
}
use gwarestrin.Needs.{text_before}
use gwarestrin.Reads.{distinct}
use gwarestrin.Reads.Floor.{elem-distinct}
use gwarestrin.Policy.Limits.{distinct-IsDistinct}
use gwarestrin.Workers.Models.{Allowed, everything, only}
use gwarestrin.Instances.{
  Value, whole, text, texts, other, SettingsError, is_name, listed, allow_list,
}

insert_sorted-IsDistinct :
    (x : String) (ys : List String)
    → elem x ys ≡ false
    → IsDistinct ys
    → IsDistinct (insert_sorted text_before x ys)
insert_sorted-IsDistinct x [] h d = (refl, tt)
insert_sorted-IsDistinct x (y ∷ ys) h (e, d) = elim (Bool-cases (text_before y x)) [
  | inl t ↦
      rw (insert_sorted, t)
        (
          elem-insert_sorted text_before y x ys
              ∙ fresh (x == y) (y == x) (elem x ys) (elem y ys) h e (swap x y),
          insert_sorted-IsDistinct x ys (later (x == y) (elem x ys) h) d,
        )
  | inr t ↦ rw (insert_sorted, t) (h, (e, d))
]
  where
    swap : (a b : String) → (a == b) ≡ (b == a)
    swap a b = ground (arith, eq_iff a b, eq_iff b a)

    later : (p q : Bool) → (p || q) ≡ false → q ≡ false
    later p q h = ground arith

    fresh : (p p' q r : Bool) → (p || q) ≡ false → r ≡ false → p ≡ p' → (p' || r) ≡ false
    fresh p p' q r h e s = ground arith

sort-IsDistinct : (ys : List String) → IsDistinct ys → IsDistinct (sort text_before ys)
sort-IsDistinct [] d = tt
sort-IsDistinct (y ∷ ys) (e, d) =
    insert_sorted-IsDistinct y (sort text_before ys) (elem-sort text_before y ys ∙ e)
      (sort-IsDistinct ys d)

-- A list of names: each well formed, and none twice.
abbrev pub IsAllowed : Allowed → Type 0
IsAllowed everything = Unit
IsAllowed (only xs) = ((x : String) → elem x xs ≡ true → is_name x ≡ true) × IsDistinct xs

clash : (a : Bool) → a ≡ false → a ≡ true → ⊥
clash true h k = absurd (cc h)
clash false h k = absurd (cc k)

named :
    (xs : List String)
    → any (λ x. not (is_name x)) xs ≡ false
    → (x : String) → elem x (sort text_before (distinct [] xs)) ≡ true
    → is_name x ≡ true
named xs h x m = elim (Bool-cases (is_name x)) [
  | inl good ↦ good
  | inr bad ↦ absurd (
      clash (any (λ y. not (is_name y)) xs) h (
        any_of_elem (λ y. not (is_name y)) x xs
          (sym (elem-distinct x [] xs) ∙ sym (elem-sort text_before x (distinct [] xs)) ∙ m)
          (ap not bad)))
]

allowed_same : (a b : Allowed) → ◌≡◌ {A = Result SettingsError Allowed} (ok a) (ok b) → a ≡ b
allowed_same a b e = cc e

listed-IsAllowed :
    (key : String) (xs : List String) (a : Allowed) → listed key xs ≡ ok a → IsAllowed a
listed-IsAllowed key xs a h =
    elim (Bool-cases (ltb 64 (length xs) || any (λ x. not (is_name x)) xs)) [
      | inl bad ↦ absurd (cc (rw (listed, bad) at h))
      | inr fine ↦ subst IsAllowed (allowed_same _ _ (rw (listed, fine) at h)) (
        named xs (second (ltb 64 (length xs)) (any (λ x. not (is_name x)) xs) fine),
        sort-IsDistinct (distinct [] xs) (distinct-IsDistinct [] xs),
      )
    ]
  where
    second : (b c : Bool) → (b || c) ≡ false → c ≡ false
    second b c h = ground arith

pub allow_list-IsAllowed :
    (key : String) (v : Value) (a : Allowed) → allow_list key v ≡ ok a → IsAllowed a
allow_list-IsAllowed key (text s) a h = elim (Bool-cases (s == "all")) [
  | inl e ↦ subst IsAllowed (allowed_same everything a (rw (allow_list, e) at h)) tt
  | inr e ↦ absurd (cc (rw (allow_list, e) at h))
]
allow_list-IsAllowed key (texts xs) a h = listed-IsAllowed key xs a h
allow_list-IsAllowed key (whole n) a h = absurd (cc h)
allow_list-IsAllowed key other a h = absurd (cc h)
