-- ===== src/Workers/Latest.antt =====
-- packages/server/src/agents/last-reply.ts: the turn that `lastTurn` reads.
use Prim.Native.String.{String}
use mathlib.Core.List.{reverse, append_assoc, reverse-append, reverse-reverse}
use gwarestrin.Base.{
  ◌≡◌, refl, sym, ap, ◌∙◌, subst, Bool, true, false, not, ◌||◌, List, [], ◌∷◌, ◌++◌, ◌==◌, any,
  filter, arith, inl, inr, Bool-cases, eq_iff, eq_refl,
}
use gwarestrin.Callers.{trim_text}
use gwarestrin.Workers.Replies.{
  Message, is_user, is_assistant, text_of, until_user, latest, last_text, last_of, ended_of,
  last_turn,
}

module _ {A : Type 0} where
  any-append : (p : A → Bool) (xs ys : List A) → any p (xs ++ ys) ≡ (any p xs || any p ys)
  any-append p [] ys = refl
  any-append p (x ∷ xs) ys = ground (arith, any-append p xs ys)

until_user-append :
    (xs ys : List Message) (m : Message)
    → any is_user xs ≡ false
    → is_user m ≡ true
    → until_user (xs ++ m ∷ ys) ≡ xs
until_user-append [] ys m h u = rw (until_user, u)
until_user-append (x ∷ xs) ys m h u = elim (Bool-cases (is_user x)) [
  | inl e ↦ absurd (cc (rw e at h))
  | inr e ↦ rw (until_user, e) (ap (λ ms. x ∷ ms) (until_user-append xs ys m (rw e at h) u))
]

until_user-none : (xs : List Message) → any is_user xs ≡ false → until_user xs ≡ xs
until_user-none [] h = refl
until_user-none (x ∷ xs) h = elim (Bool-cases (is_user x)) [
  | inl e ↦ absurd (cc (rw e at h))
  | inr e ↦ rw (until_user, e) (ap (λ ms. x ∷ ms) (until_user-none xs (rw e at h)))
]

any-reverse : (xs : List Message) → any is_user (reverse xs) ≡ any is_user xs
any-reverse [] = refl
any-reverse (x ∷ xs) =
    ap (any is_user) (reverse-append (x ∷ []) xs)
    ∙ any-append is_user (reverse xs) (x ∷ [])
    ∙ either (any is_user (reverse xs)) (any is_user xs) (is_user x) (any-reverse xs)
  where
    either : (a b c : Bool) → a ≡ b → (a || (c || false)) ≡ (c || b)
    either a b c e = ground arith

reverse_middle :
    (before turn : List Message) (m : Message)
    → reverse (before ++ m ∷ turn) ≡ reverse turn ++ m ∷ reverse before
reverse_middle before turn m =
    reverse-append before (m ∷ turn)
    ∙ ap (λ ms. ms ++ reverse before) (reverse-append (m ∷ []) turn)
    ∙ append_assoc (reverse turn) (m ∷ []) (reverse before)

latest-after :
    (before turn : List Message) (m : Message)
    → is_user m ≡ true
    → any is_user turn ≡ false
    → latest (before ++ m ∷ turn) ≡ filter is_assistant turn
latest-after before turn m u h =
    ap (λ ms. filter is_assistant (reverse (until_user ms))) (reverse_middle before turn m)
    ∙ ap (λ ms. filter is_assistant (reverse ms))
        (until_user-append (reverse turn) (reverse before) m (any-reverse turn ∙ h) u)
    ∙ ap (filter is_assistant) (reverse-reverse turn)

-- Some message says this, and nothing else.
abbrev pub IsSaid : String → List Message → Type 0
IsSaid t ms = any (λ m. trim_text (text_of m) == t) ms ≡ true

-- No message says anything.
abbrev pub IsSilent : List Message → Type 0
IsSilent ms = any (λ m. not (trim_text (text_of m) == "")) ms ≡ false

last_text_here :
    (m : Message) (ms : List Message)
    → (last_text ms == "") ≡ true
    → last_text (m ∷ ms) ≡ trim_text (text_of m)
last_text_here m ms e = rw (last_text, e)

last_text_later :
    (m : Message) (ms : List Message)
    → (last_text ms == "") ≡ false
    → last_text (m ∷ ms) ≡ last_text ms
last_text_later m ms e = rw (last_text, e)

last_text-IsSilent : (ms : List Message) → last_text ms ≡ "" → IsSilent ms
last_text-IsSilent [] e = refl
last_text-IsSilent (m ∷ ms) e = elim (Bool-cases (last_text ms == "")) [
  | inl h ↦
      silent (trim_text (text_of m) == "") _
        ((eq_iff (trim_text (text_of m)) "").1 (sym (last_text_here m ms h) ∙ e))
        (last_text-IsSilent ms ((eq_iff (last_text ms) "").0 h))
  | inr h ↦ absurd (
      clash (last_text ms == "") h
        ((eq_iff (last_text ms) "").1 (sym (last_text_later m ms h) ∙ e)))
]
  where
    silent : (a b : Bool) → a ≡ true → b ≡ false → (not a || b) ≡ false
    silent a b h k = ground arith

    clash : (a : Bool) → a ≡ false → a ≡ true → ⊥
    clash true h k = absurd (cc h)
    clash false h k = absurd (cc k)

last_text-IsSaid : (ms : List Message) → (last_text ms == "") ≡ false → IsSaid (last_text ms) ms
last_text-IsSaid [] h = absurd (cc h)
last_text-IsSaid (m ∷ ms) h = elim (Bool-cases (last_text ms == "")) [
  | inl e ↦
      subst (λ t. IsSaid t (m ∷ ms)) (sym (last_text_here m ms e))
        (left_or (trim_text (text_of m) == trim_text (text_of m)) _
          (eq_refl (trim_text (text_of m))))
  | inr e ↦
      subst (λ t. IsSaid t (m ∷ ms)) (sym (last_text_later m ms e))
        (right_or (trim_text (text_of m) == last_text ms) _ (last_text-IsSaid ms e))
]
  where
    left_or : (a b : Bool) → a ≡ true → (a || b) ≡ true
    left_or a b h = ground arith

    right_or : (a b : Bool) → b ≡ true → (a || b) ≡ true
    right_or a b h = ground arith

-- What an agent said in the turn that its user's last message opened, whatever stands before that message: the
-- text is said by one of its messages, if any of them says something, and is empty otherwise; and the turn ended
-- as its last message did.
pub last_turn-latest :
    (before turn : List Message) (m : Message)
    → is_user m ≡ true
    → any is_user turn ≡ false
    → ((last_turn (before ++ m ∷ turn)).ended ≡ ended_of (last_of (filter is_assistant turn)))
      × (((last_turn (before ++ m ∷ turn)).text == "") ≡ true → IsSilent (filter is_assistant turn))
      × (((last_turn (before ++ m ∷ turn)).text == "") ≡ false
          → IsSaid (last_turn (before ++ m ∷ turn)).text (filter is_assistant turn))
unfolding last_turn
last_turn-latest before turn m u h = rw (latest-after before turn m u h) (
  refl,
  (λ e.
      last_text-IsSilent (filter is_assistant turn)
        ((eq_iff (last_text (filter is_assistant turn)) "").0 e)),
  last_text-IsSaid (filter is_assistant turn),
)
