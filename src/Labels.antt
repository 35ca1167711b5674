-- ===== src/Labels.antt =====
-- provisioner/model-labels.mjs: which models an organization's agents may use (`label`, `applyLabelUpdate`,
-- `normalizeLabels`).
--
-- An input that is no object is `none`; a value of a label is read by the types that the code asks for. A label's
-- time is the text of an instant.
pub mod Updates
pub mod Valid
mod Examples
use Prim.Native.Char.{Char}
use Prim.Native.String.{String}
use gwarestrin.Base.{
  ℕ, zero, suc, ◌+◌, ◌-◌, ◌≡◌, Bool, true, false, not, ◌&&◌, ◌||◌, Option, none, some, List, [],
  ◌∷◌, ◌++◌, ◌==◌, if◌then◌else◌, leb, ltb, eqb, length, elem, all, keys, lookup, insert, remove,
  Result, ok, err, ◌>>=◌,
}
use gwarestrin.Dates.{codes, is_digit, is_space}
use gwarestrin.Callers.{trim_text}
use gwarestrin.Needs.{units}

abbrev pub tiers : List String
tiers = "basic" ∷ "standard" ∷ "frontier" ∷ []

abbrev pub hosting_kinds : List String
hosting_kinds = "on-prem" ∷ "private-cloud" ∷ "public-api" ∷ []

abbrev pub labels_max : ℕ
labels_max = 500

pub record Label : Type 0 where
  pub tier : String
  pub hosting : String
  pub notes : Option String
  pub by_actor : String
  pub at_time : String

pub data Notes : Type 0 where
  absent : Notes
  noted : String → Notes
  not_text : Notes

-- What stands for a model in the input: `by_actor` and `at_time` are read from stored labels only.
pub record Given : Type 0 where
  pub tier : Option String
  pub hosting : Option String
  pub notes : Notes
  pub by_actor : Option String
  pub at_time : Option String

pub data Entry : Type 0 where
  null_entry not_object : Entry
  given : Given → Entry

pub data LabelError : Type 0 where
  labels_not_object too_many_labels : LabelError
  invalid_model : String → LabelError
  label_not_object wrong_tier wrong_hosting wrong_notes : String → LabelError

-- `[a-z0-9]`, with the flag `i`
abbrev is_alnum : ℕ → Bool
is_alnum c = is_digit c || (leb b'a' c && leb c b'z') || (leb b'A' c && leb c b'Z')

abbrev in_provider : ℕ → Bool
in_provider c = is_alnum c || eqb c b'.' || eqb c b'_' || eqb c b'-'

-- `[^\s]{1,200}$`
abbrev is_model : List ℕ → Bool
is_model s = leb 1 (length s) && (leb (length s) 200 && all (λ c. not (is_space c)) s)

-- `[a-z0-9._-]{0,63}\/`, with `left` characters left
abbrev after_first : ℕ → List ℕ → Bool
after_first left [] = false
after_first zero (c ∷ s) = eqb c b'/' && is_model s
after_first (suc left) (c ∷ s) =
    let rest = after_first left s in if in_provider c then rest else eqb c b'/' && is_model s

abbrev key_matches : List ℕ → Bool
key_matches [] = false
key_matches (c ∷ s) = is_alnum c && after_first 63 s

-- `KEY_RE.test(key)`
unfoldable pub is_key : String → Bool
is_key key = key_matches (units (codes key))

abbrev among : Option String → List String → Option String
among none names = none
among (some s) names = if elem s names then some s else none

-- The notes that a label keeps: `some none` for none worth keeping.
abbrev noted_or_none : String → Option String
noted_or_none s = if trim_text s == "" then none else some (trim_text s)

abbrev read_notes : Notes → Option (Option String)
read_notes absent = some none
read_notes (noted s) = if ltb 500 (length (units (codes s))) then none else some (noted_or_none s)
read_notes not_text = none

abbrev with_notes :
    String → String → String → String → String → Option (Option String) → Result LabelError Label
with_notes key tier hosting actor now none = err (wrong_notes key)
with_notes key tier hosting actor now (some notes) =
    ok (record { tier = tier; hosting = hosting; notes = notes; by_actor = actor; at_time = now })

abbrev with_hosting :
    String → Given → String → String → String → Option String → Result LabelError Label
with_hosting key v actor now tier none = err (wrong_hosting key)
with_hosting key v actor now tier (some hosting) =
    with_notes key tier hosting actor now (read_notes v.notes)

abbrev with_tier : String → Given → String → String → Option String → Result LabelError Label
with_tier key v actor now none = err (wrong_tier key)
with_tier key v actor now (some tier) =
    with_hosting key v actor now tier (among v.hosting hosting_kinds)

unfoldable pub label : String → Given → String → String → Result LabelError Label
label key v actor now = with_tier key v actor now (among v.tier tiers)

abbrev pub notes_text : Option String → String
notes_text none = ""
notes_text (some s) = s

abbrev pub same_label : Label → Label → Bool
same_label prev l =
    prev.tier == l.tier
    && (prev.hosting == l.hosting && notes_text prev.notes == notes_text l.notes)

abbrev pub kept_or_new : Option Label → Label → Label
kept_or_new none l = l
kept_or_new (some prev) l = if same_label prev l then prev else l

module _ (current : List (String × Label)) (actor now : String) where
  abbrev pub put_label :
      String
      → List (String × Label)
      → Result LabelError Label
      → Result LabelError (List (String × Label))
  put_label key next (err e) = err e
  put_label key next (ok l) = ok (insert key (kept_or_new (lookup key current) l) next)

  -- One round of the loop.
  abbrev pub apply_one :
      String → Entry → List (String × Label) → Result LabelError (List (String × Label))
  apply_one key null_entry next = ok (remove key next)
  apply_one key not_object next = err (label_not_object key)
  apply_one key (given v) next = put_label key next (label key v actor now)

  abbrev pub apply_each :
      List (String × Entry) → List (String × Label) → Result LabelError (List (String × Label))
  apply_each [] next = ok next
  apply_each ((key, v) ∷ input) next =
      if not (is_key key)
      then err (invalid_model key)
      else apply_one key v next >>= apply_each input

  abbrev pub check_count : List (String × Label) → Result LabelError (List (String × Label))
  check_count next = if ltb labels_max (length next) then err too_many_labels else ok next

  unfoldable pub apply_label_update :
      Option (List (String × Entry)) → Result LabelError (List (String × Label))
  unfolding is_key label
  apply_label_update none = err labels_not_object
  apply_label_update (some input) = apply_each input current >>= check_count

abbrev or_text : String → Option String → String
or_text d none = d
or_text d (some s) = s

abbrev stored_label : String → Entry → Result LabelError Label
stored_label key null_entry = err (label_not_object key)
stored_label key not_object = err (label_not_object key)
stored_label key (given v) = label key v (or_text "unknown" v.by_actor) (or_text "" v.at_time)

abbrev pub keep_label :
    String → Result LabelError Label → List (String × Label) → List (String × Label)
keep_label key (err e) out = out
keep_label key (ok l) out = insert key l out

abbrev pub normalize_each : List (String × Entry) → List (String × Label) → List (String × Label)
normalize_each [] out = out
normalize_each ((key, v) ∷ stored) out =
    normalize_each stored
      (if not (is_key key) then out else keep_label key (stored_label key v) out)

unfoldable pub normalize_labels : Option (List (String × Entry)) → List (String × Label)
unfolding is_key label
normalize_labels none = []
normalize_labels (some stored) = normalize_each stored []
