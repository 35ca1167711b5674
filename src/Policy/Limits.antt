-- ===== src/Policy/Limits.antt =====
-- graph-rag/src/policy.js: what accepted settings are.
use Prim.Native.String.{String}
use gwarestrin.Base.{
  ℕ, ◌*◌, ◌≤◌, ◌≡◌, refl, sym, ap, eq_refl, ◌∙◌, subst, inl, inr, true, false, ◌||◌, Option, none,
  some, List, [], ◌∷◌, arith, ◌==◌, eq_iff, ltb, Bool-cases, Option-cases, Result, ok, err,
  >>=-eq-ok, any, length, elem, IsDistinct,
}
use gwarestrin.Reads.{distinct}
use gwarestrin.Policy.{
  NumberKey, max_grant_days, default_share_days, grading_confidence, derived_window_hours,
  request_days, prune_after_days, Key, number_key, flag_key, topics_key, standing_key, Value,
  millionths, flag, texts, text, Policy, PolicyError, low, high, unit, rounded, is_long, tidied,
  topic_list, same_number, number_word, read_key, set_number, set_flag, set_one, set_known, set_all,
  check_shares, apply_policy_update, or_defaults, known_entries, normalize_stored, read_standing,
}

-- Topics that may be set: 20 at most, none longer than 80, none twice.
abbrev pub TopicsFit : List String → Type 0
TopicsFit ts = (length ts ≤ 20) × (any is_long ts ≡ false) × IsDistinct ts

abbrev pub NumbersFit : Policy → Type 0
NumbersFit p = (k : NumberKey) → (low k ≤ p.number k) × (p.number k ≤ high k)

abbrev pub InLimits : Policy → Type 0
InLimits p = NumbersFit p × TopicsFit p.topics

-- Settings that may be stored: in their limits, and no share is longer by default than it may be.
abbrev pub IsPolicy : Policy → Type 0
IsPolicy p = InLimits p × (p.number default_share_days ≤ p.number max_grant_days)

rounded_fits :
    (k : NumberKey) (v : ℕ)
    → (ltb v (low k * unit k) || ltb (high k * unit k) v) ≡ false
    → (low k ≤ rounded k v) × (rounded k v ≤ high k)
rounded_fits max_grant_days v h = (ground arith, ground arith)
rounded_fits default_share_days v h = (ground arith, ground arith)
rounded_fits grading_confidence v h = (ground arith, ground arith)
rounded_fits derived_window_hours v h = (ground arith, ground arith)
rounded_fits request_days v h = (ground arith, ground arith)
rounded_fits prune_after_days v h = (ground arith, ground arith)

read_key-number_word : (k : NumberKey) → read_key (number_word k) ≡ some (number_key k)
read_key-number_word max_grant_days = refl
read_key-number_word default_share_days = refl
read_key-number_word grading_confidence = refl
read_key-number_word derived_window_hours = refl
read_key-number_word request_days = refl
read_key-number_word prune_after_days = refl

same_number-eq : (j k : NumberKey) → same_number j k ≡ true → j ≡ k
same_number-eq j k s =
    let e : some (number_key j) ≡ some (number_key k) =
      sym (read_key-number_word j)
      ∙ ap read_key ((eq_iff (number_word j) (number_word k)).0 s)
      ∙ read_key-number_word k in
    cc

set_number_fits :
    (k : NumberKey) (n : ℕ) (p : Policy)
    → NumbersFit p
    → (low k ≤ n) × (n ≤ high k)
    → NumbersFit (set_number k n p)
set_number_fits k n p h l j = elim (Bool-cases (same_number j k)) [
  | inl s ↦ rw (s, same_number-eq j k s) l
  | inr s ↦ rw s (h j)
]

distinct_new :
    (x : String) (seen xs : List String) → elem x seen ≡ true → elem x (distinct seen xs) ≡ false
distinct_new x seen [] h = refl
distinct_new x seen (y ∷ xs) h = elim (Bool-cases (elem y seen)) [
  | inl old ↦ rw old (distinct_new x seen xs h)
  | inr fresh ↦
      let later = distinct_new x (y ∷ seen) xs (ground (arith, h)) in
      let apart : (x == y) ≡ false = elim (Bool-cases (x == y)) [
        | inl e ↦ absurd (cc (sym h ∙ ap (λ z. elem z seen) ((eq_iff x y).0 e) ∙ fresh))
        | inr e ↦ e
      ] in
      rw (fresh, apart) later
]

pub distinct-IsDistinct : (seen xs : List String) → IsDistinct (distinct seen xs)
distinct-IsDistinct seen [] = tt
distinct-IsDistinct seen (y ∷ xs) = elim (Bool-cases (elem y seen)) [
  | inl old ↦ rw old (distinct-IsDistinct seen xs)
  | inr fresh ↦ rw fresh (
    distinct_new y (y ∷ seen) xs (let here = eq_refl y in ground arith),
    distinct-IsDistinct (y ∷ seen) xs,
  )
]

topic_list_fits : (v : Value) (out : List String) → topic_list v ≡ ok out → TopicsFit out
topic_list_fits (texts v) out e = elim (Bool-cases (ltb 20 (length (tidied v)))) [
  | inl many ↦ absurd (cc (rw many at e))
  | inr few ↦ elim (Bool-cases (any is_long (tidied v))) [
    | inl long ↦ absurd (cc (rw (few, long) at e))
    | inr short ↦
        let same : tidied v ≡ out = cc (rw (few, short) at e) in
        subst TopicsFit same (ground arith, short, distinct-IsDistinct [] _)
  ]
]
topic_list_fits _ out e = absurd (cc e)

set_one-InLimits :
    (w : String) (k : Key) (v : Value) (p q : Policy)
    → InLimits p
    → set_one w k v p ≡ ok q
    → InLimits q
set_one-InLimits w (number_key k) (millionths v) p q (h, t) e =
    elim (Bool-cases (ltb v (low k * unit k) || ltb (high k * unit k) v)) [
      | inl out ↦ absurd (cc (rw out at e))
      | inr fits ↦
          let same : set_number k (rounded k v) p ≡ q = cc (rw fits at e) in
          subst InLimits same (set_number_fits k (rounded k v) p h (rounded_fits k v fits), t)
    ]
set_one-InLimits w (number_key k) _ p q h e = absurd (cc e)
set_one-InLimits w topics_key v p q (h, t) e =
    let (out, first, rest) = >>=-eq-ok (topic_list v) (λ out. ok (record p { topics = out })) q e in
    let same : record p { topics = out } ≡ q = cc rest in
    subst InLimits same (h, topic_list_fits v out first)
set_one-InLimits w standing_key (text s) p q h e = elim (Option-cases (read_standing s)) [
  | inl bad ↦ absurd (cc (rw bad at e))
  | inr (st, good) ↦
      let same : record p { standing = st } ≡ q = cc (rw good at e) in subst InLimits same h
]
set_one-InLimits w standing_key _ p q h e = absurd (cc e)
set_one-InLimits w (flag_key k) (flag b) p q h e =
    let same : set_flag k b p ≡ q = cc e in subst InLimits same h
set_one-InLimits w (flag_key k) _ p q h e = absurd (cc e)

set_known-InLimits :
    (w : String) (v : Value) (k : Option Key) (p q : Policy)
    → InLimits p
    → set_known w v k p ≡ ok q
    → InLimits q
set_known-InLimits w v none p q h e = absurd (cc e)
set_known-InLimits w v (some k) p q h e = set_one-InLimits w k v p q h e

set_all-InLimits :
    (input : List (String × Value)) (p q : Policy)
    → InLimits p
    → set_all input p ≡ ok q
    → InLimits q
set_all-InLimits [] p q h e = let same : p ≡ q = cc e in subst InLimits same h
set_all-InLimits ((w, v) ∷ input) p q h e =
    let (r, first, rest) = >>=-eq-ok (set_known w v (read_key w) p) (set_all input) q e in
    set_all-InLimits input r q (set_known-InLimits w v (read_key w) p r h first) rest

check_shares-IsPolicy : (p q : Policy) → InLimits p → check_shares p ≡ ok q → IsPolicy q
check_shares-IsPolicy p q h e =
    elim (Bool-cases (ltb (p.number max_grant_days) (p.number default_share_days))) [
      | inl long ↦ absurd (cc (rw long at e))
      | inr short ↦ let same : p ≡ q = cc (rw short at e) in subst IsPolicy same (h, ground arith)
    ]

-- An update that is accepted keeps the settings within their limits, the topics few, short and
-- distinct, and the default length of a share within the longest.
pub apply_policy_update-IsPolicy :
    (current : Policy) (input : Option (List (String × Value))) (next : Policy)
    → InLimits current
    → apply_policy_update current input ≡ ok next
    → IsPolicy next
unfolding apply_policy_update
apply_policy_update-IsPolicy current none next h e = absurd (cc e)
apply_policy_update-IsPolicy current (some input) next h e =
    let (r, first, rest) = >>=-eq-ok (set_all input current) check_shares next e in
    check_shares-IsPolicy r next (set_all-InLimits input current r h first) rest

or_defaults-IsPolicy :
    (r : Result PolicyError Policy) (defaults : Policy)
    → IsPolicy defaults
    → ((p : Policy) → r ≡ ok p → IsPolicy p)
    → IsPolicy (or_defaults r defaults)
or_defaults-IsPolicy (ok p) defaults d h = h p refl
or_defaults-IsPolicy (err e) defaults d h = d

-- Whatever is stored, what the service runs with is within the limits, if the defaults are.
pub normalize_stored-IsPolicy :
    (stored : Option (List (String × Value))) (defaults : Policy)
    → IsPolicy defaults
    → IsPolicy (normalize_stored stored defaults)
unfolding normalize_stored
normalize_stored-IsPolicy stored defaults d =
    or_defaults-IsPolicy (apply_policy_update defaults (some (known_entries stored))) defaults d
      (λ p e. apply_policy_update-IsPolicy defaults (some (known_entries stored)) p d.0 e)
