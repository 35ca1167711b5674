-- ===== src/Pool/Settings.antt =====
-- graph-rag/src/pool.js: what accepted settings are.
use gwarestrin.Base.{
  ℕ, ◌≤◌, String, ◌≡◌, refl, sym, ap, ◌∙◌, subst, inl, inr, Bool, true, false, ◌||◌, ◌&&◌, not,
  Option, none, some, List, [], ◌∷◌, arith, eq_iff, if◌then◌else◌, ltb, Bool-cases, Result, ok, err,
  ◌>>=◌, >>=-eq-ok,
}
use gwarestrin.Pool.{
  NumberKey, pool_size, daily_threads, thread_minutes, keep_days, batch_size, batch_minutes,
  max_handlers, number_word, Key, flag_key, number_key, Value, flag, whole, Pool, Stored, filled,
  low, high, same_number, set_number, set_switch, set_one, set_all, read_key, pool_settings,
  SettingError,
}

-- Every number of the settings is in its limits.
abbrev pub InLimits : Pool → Type 0
InLimits p = (k : NumberKey) → (low k ≤ p.number k) × (p.number k ≤ high k)

abbrev pub limited : NumberKey → ℕ → Bool
limited k n = not (ltb n (low k) || ltb (high k) n)

abbrev pub fits : Option Key → Value → Bool
fits none v = true
fits (some (flag_key k)) (flag b) = true
fits (some (flag_key k)) _ = false
fits (some (number_key k)) (whole n) = limited k n
fits (some (number_key k)) _ = false

-- Each given value fits the setting it is given for.
abbrev pub all_fit : List (String × Value) → Bool
all_fit [] = true
all_fit ((k, v) ∷ input) = fits (read_key k) v && all_fit input

abbrev given_for : NumberKey → Option Key → Value → ℕ → ℕ
given_for k (some (number_key j)) (whole n) old = if same_number k j then n else old
given_for k _ v old = old

-- The last number that the input gives for a setting, or the old one.
abbrev pub last_given : NumberKey → List (String × Value) → ℕ → ℕ
last_given k [] old = old
last_given k ((w, v) ∷ input) old = last_given k input (given_for k (read_key w) v old)

read_key-number_word : (k : NumberKey) → read_key (number_word k) ≡ some (number_key k)
read_key-number_word pool_size = refl
read_key-number_word daily_threads = refl
read_key-number_word thread_minutes = refl
read_key-number_word keep_days = refl
read_key-number_word batch_size = refl
read_key-number_word batch_minutes = refl
read_key-number_word max_handlers = refl

same_number-eq : (j k : NumberKey) → same_number j k ≡ true → j ≡ k
same_number-eq j k s =
    let e : some (number_key j) ≡ some (number_key k) =
      sym (read_key-number_word j)
      ∙ ap read_key ((eq_iff (number_word j) (number_word k)).0 s)
      ∙ read_key-number_word k in
    cc

set_number-InLimits :
    (k : NumberKey) (n : ℕ) (p : Pool)
    → InLimits p
    → (low k ≤ n) × (n ≤ high k)
    → InLimits (set_number k n p)
set_number-InLimits k n p h l j = elim (Bool-cases (same_number j k)) [
  | inl s ↦ rw (s, same_number-eq j k s) l
  | inr s ↦ rw s (h j)
]

set_one-InLimits :
    (w : String) (k : Option Key) (v : Value) (p q : Pool)
    → InLimits p
    → set_one w k v p ≡ ok q
    → InLimits q
set_one-InLimits w none v p q h e = subst InLimits (let same : p ≡ q = cc in same) h
set_one-InLimits w (some (flag_key k)) (flag b) p q h e =
    subst InLimits (let same : set_switch k b p ≡ q = cc in same) h
set_one-InLimits w (some (flag_key k)) _ p q h e = cc
set_one-InLimits w (some (number_key k)) (whole n) p q h e =
    elim (Bool-cases (ltb n (low k) || ltb (high k) n)) [
      | inl bad ↦ absurd (let e' = rw bad at e in cc)
      | inr good ↦
          subst InLimits (let e' = rw good at e in let same : set_number k n p ≡ q = cc in same)
            (set_number-InLimits k n p h (ground arith, ground arith))
    ]
set_one-InLimits w (some (number_key k)) _ p q h e = cc

set_all-InLimits :
    (input : List (String × Value)) (p q : Pool) → InLimits p → set_all input p ≡ ok q → InLimits q
set_all-InLimits [] p q h e = subst InLimits (let same : p ≡ q = cc in same) h
set_all-InLimits ((w, v) ∷ input) p q h e =
    let (r, first, rest) = >>=-eq-ok (set_one w (read_key w) v p) (set_all input) q e in
    set_all-InLimits input r q (set_one-InLimits w (read_key w) v p r h first) rest

-- Settings that are accepted keep every number in its limits, if the stored ones are.
pub pool_settings-InLimits :
    (input : List (String × Value)) (current : Stored) (next : Pool)
    → InLimits (filled current)
    → pool_settings input current ≡ ok next
    → InLimits next
unfolding pool_settings
pool_settings-InLimits input current next h e = set_all-InLimits input (filled current) next h e

abbrev pub is_ok : Result SettingError Pool → Bool
is_ok (ok p) = true
is_ok (err e) = false

set_one-fits :
    (w : String) (k : Option Key) (v : Value) (p : Pool) → is_ok (set_one w k v p) ≡ fits k v
set_one-fits w none v p = refl
set_one-fits w (some (flag_key k)) (flag b) p = refl
set_one-fits w (some (flag_key k)) _ p = refl
set_one-fits w (some (number_key k)) (whole n) p = ground arith
set_one-fits w (some (number_key k)) _ p = refl

is_ok->>= :
    (r : Result SettingError Pool) (f : Pool → Result SettingError Pool) (b : Bool)
    → ((p : Pool) → is_ok (f p) ≡ b)
    → is_ok (r >>= f) ≡ (is_ok r && b)
is_ok->>= (ok p) f b h = h p
is_ok->>= (err e) f b h = refl

set_all-all_fit :
    (input : List (String × Value)) (p : Pool) → is_ok (set_all input p) ≡ all_fit input
set_all-all_fit [] p = refl
set_all-all_fit ((w, v) ∷ input) p =
    is_ok->>= (set_one w (read_key w) v p) (set_all input) (all_fit input) (set_all-all_fit input)
    ∙ ap (λ b. b && all_fit input) (set_one-fits w (read_key w) v p)

-- The input is accepted exactly if each value fits its setting; what names no setting is passed over.
pub pool_settings-all_fit :
    (input : List (String × Value)) (current : Stored)
    → is_ok (pool_settings input current) ≡ all_fit input
unfolding pool_settings
pool_settings-all_fit input current = set_all-all_fit input (filled current)

set_one-number :
    (w : String) (j : Option Key) (v : Value) (p q : Pool) (k : NumberKey)
    → set_one w j v p ≡ ok q
    → q.number k ≡ given_for k j v (p.number k)
set_one-number w none v p q k e = let same : q ≡ p = cc in ap (λ x. x.number k) same
set_one-number w (some (flag_key j)) (flag b) p q k e =
    let same : q ≡ set_switch j b p = cc in ap (λ x. x.number k) same
set_one-number w (some (flag_key j)) _ p q k e = cc
set_one-number w (some (number_key j)) (whole n) p q k e =
    elim (Bool-cases (ltb n (low j) || ltb (high j) n)) [
      | inl bad ↦ absurd (let e' = rw bad at e in cc)
      | inr good ↦
          let e' = rw good at e in let same : q ≡ set_number j n p = cc in ap (λ x. x.number k) same
    ]
set_one-number w (some (number_key j)) _ p q k e = cc

set_all-number :
    (input : List (String × Value)) (p q : Pool) (k : NumberKey)
    → set_all input p ≡ ok q
    → q.number k ≡ last_given k input (p.number k)
set_all-number [] p q k e = let same : q ≡ p = cc in ap (λ x. x.number k) same
set_all-number ((w, v) ∷ input) p q k e =
    let (r, first, rest) = >>=-eq-ok (set_one w (read_key w) v p) (set_all input) q e in
    set_all-number input r q k rest
    ∙ ap (last_given k input) (set_one-number w (read_key w) v p r k first)

-- An accepted setting is the last one given; what is not given stays as stored, or at its default.
pub pool_settings-number :
    (input : List (String × Value)) (current : Stored) (next : Pool) (k : NumberKey)
    → pool_settings input current ≡ ok next
    → next.number k ≡ last_given k input ((filled current).number k)
unfolding pool_settings
pool_settings-number input current next k e = set_all-number input (filled current) next k e
