-- ===== src/Tokens/Texts.antt =====
-- graph-rag/src/delegation.js: a token of two parts, read back.
use Prim.Native.Char.{Char, code}
use Prim.Native.String.{String, ◌++◌ as append}
use gwarestrin.Base.{
  ℕ, ◌≡◌, ◌≢◌, refl, ap, ◌∙◌, Bool, true, false, not, some, List, [], ◌∷◌, eqb, all, arith, inl,
  inr, Bool-cases, &&-eq-true, ne→==-eq-false,
}
use gwarestrin.Delegation.Texts.{after_prefix, split_dots, two_parts, same_bytes}
use gwarestrin.Dates.{codes}
use text.Mathlib.TextLemmas.{nil-append, cons-append}

abbrev inside_part : ℕ → Bool
inside_part c = not (eqb c b'.')

-- A base64url text: it is not empty and holds no dot.
pub record IsPart (s : String) : Type 0 where
  pub filled : s ≢ ""
  pub no_dot : all inside_part (codes s) ≡ true

eqb_same : (n : ℕ) → eqb n n ≡ true
eqb_same n = ground arith

pub after_prefix-append : (p s : String) → after_prefix p (append p s) ≡ some s
after_prefix-append String.[] s = ap some (nil-append s)
after_prefix-append (String.◌∷◌ c p) s =
    ap (after_prefix (String.◌∷◌ c p)) (cons-append c p s)
    ∙ rw (after_prefix, eqb_same (code c)) (after_prefix-append p s)

split_inside :
    (c : Char) (s : String) (w : String) (ws : List String)
    → eqb (code c) b'.' ≡ false
    → split_dots s ≡ w ∷ ws
    → split_dots (String.◌∷◌ c s) ≡ String.◌∷◌ c w ∷ ws
split_inside c s w ws e h = rw (split_dots, e, h)

split_last : (s : String) → all inside_part (codes s) ≡ true → split_dots s ≡ s ∷ []
split_last String.[] h = refl
split_last (String.◌∷◌ c s) h = elim (Bool-cases (eqb (code c) b'.')) [
  | inl e ↦ absurd (cc (rw e at h))
  | inr e ↦
      split_inside c s s [] e
        (split_last s (&&-eq-true (inside_part (code c)) (all inside_part (codes s)) h).1)
]

abbrev is_dot : String → Bool
is_dot (String.◌∷◌ c String.[]) = eqb (code c) b'.'
is_dot _ = false

split_after_dot : (d t : String) → is_dot d ≡ true → split_dots (append d t) ≡ "" ∷ split_dots t
split_after_dot (String.◌∷◌ c String.[]) t h =
    ap split_dots (cons-append c "" t ∙ ap (String.◌∷◌ c) (nil-append t)) ∙ rw (split_dots, h)
split_after_dot String.[] t h = absurd (cc h)
split_after_dot (String.◌∷◌ c (String.◌∷◌ d s)) t h = absurd (cc h)

split_two :
    (s t : String)
    → all inside_part (codes s) ≡ true
    → all inside_part (codes t) ≡ true
    → split_dots (append s (append "." t)) ≡ s ∷ t ∷ []
split_two String.[] t h k =
    ap split_dots (nil-append (append "." t))
    ∙ split_after_dot "." t refl
    ∙ ap (λ (ws : List String). "" ∷ ws) (split_last t k)
split_two (String.◌∷◌ c s) t h k = elim (Bool-cases (eqb (code c) b'.')) [
  | inl e ↦ absurd (cc (rw e at h))
  | inr e ↦
      ap split_dots (cons-append c s (append "." t))
      ∙ split_inside c (append s (append "." t)) s (t ∷ []) e
          (split_two s t (&&-eq-true (inside_part (code c)) (all inside_part (codes s)) h).1 k)
]

two_parts-filled : (s t : String) → s ≢ "" → t ≢ "" → two_parts (s ∷ t ∷ []) ≡ some (s, t)
two_parts-filled s t h k = rw (ne→==-eq-false s "" h, ne→==-eq-false t "" k)

pub two_parts-split_dots :
    (s t : String)
    → IsPart s
    → IsPart t
    → two_parts (split_dots (append s (append "." t))) ≡ some (s, t)
two_parts-split_dots s t v w =
    rw (split_two s t v.no_dot w.no_dot) (two_parts-filled s t v.filled w.filled)

pub same_bytes_refl : (bs : List ℕ) → same_bytes bs bs ≡ true
same_bytes_refl [] = refl
same_bytes_refl (b ∷ bs) = rw (eqb_same b) (same_bytes_refl bs)
