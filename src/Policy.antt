-- ===== src/Policy.antt =====
-- graph-rag/src/policy.js: the organization's settings (`LIMITS`, `topicList`, `applyPolicyUpdate`,
-- `normalizeStored`).
--
-- A number of the input is its count of millionths; a setting is stored as a whole number, the confidence
-- of the grader in hundredths. A negative number, and a list that holds anything but texts, is `other`,
-- which every setting refuses. An input that is no object is `none`.
pub mod Limits
mod Examples
use Prim.Native.Char.{Char, code}
use Prim.Native.String.{String, ◌++◌ as append}
use gwarestrin.Base.{
  ℕ, ◌+◌, ◌*◌, ◌/◌, ◌≡◌, Bool, true, false, not, ◌&&◌, ◌||◌, Option, none, some, List, [], ◌∷◌,
  ◌==◌, map, filter, any, length, if◌then◌else◌, leb, ltb, Result, ok, err, ◌>>=◌,
}
use gwarestrin.Dates.{codes, is_space}
use gwarestrin.Callers.{trim_text}
use gwarestrin.Needs.{units}
use gwarestrin.Reads.{distinct}

pub data NumberKey : Type 0 where
  max_grant_days default_share_days grading_confidence derived_window_hours request_days
        prune_after_days :
      NumberKey

pub data FlagKey : Type 0 where
  people_share_directly grading_enabled : FlagKey

pub data Key : Type 0 where
  number_key : NumberKey → Key
  flag_key : FlagKey → Key
  topics_key standing_key : Key

pub data Standing : Type 0 where
  root nobody : Standing

pub data Value : Type 0 where
  millionths : ℕ → Value
  flag : Bool → Value
  texts : List String → Value
  text : String → Value
  other : Value

pub record Policy : Type 0 where
  pub number : NumberKey → ℕ
  pub switch : FlagKey → Bool
  pub standing : Standing
  pub topics : List String

abbrev pub low : NumberKey → ℕ
low grading_confidence = 30
low derived_window_hours = 0
low prune_after_days = 0
low _ = 1

abbrev pub high : NumberKey → ℕ
high max_grant_days = 365
high default_share_days = 365
high grading_confidence = 95
high derived_window_hours = 168
high request_days = 90
high prune_after_days = 365

-- How many millionths are one of what is stored.
abbrev pub unit : NumberKey → ℕ
unit grading_confidence = 10000
unit _ = 1000000

-- `Math.round(n)`, or `Math.round(n * 100) / 100`
abbrev pub rounded : NumberKey → ℕ → ℕ
rounded grading_confidence v = (v + 5000) / 10000
rounded _ v = (v + 500000) / 1000000

-- `replace(/\s+/g, " ")`: `gap` says that a space was put already.
abbrev one_space : Bool → String → String
one_space gap String.[] = String.[]
one_space gap (String.◌∷◌ c s) =
    let in_gap = one_space true s in
    let in_word = one_space false s in
    if is_space (code c) then (if gap then in_gap else append " " in_gap) else String.◌∷◌ c in_word

abbrev pub nonblank : String → Bool
nonblank s = not (s == "")

abbrev pub tidied : List String → List String
tidied v = distinct [] (filter nonblank (map (λ t. one_space false (trim_text t)) v))

pub data PolicyError : Type 0 where
  not_object not_texts too_many_topics topic_too_long not_standing share_too_long : PolicyError
  unknown_setting not_flag : String → PolicyError
  not_in_range : String → NumberKey → PolicyError

abbrev pub is_long : String → Bool
is_long t = ltb 80 (length (units (codes t)))

abbrev pub check_topics : List String → Result PolicyError (List String)
check_topics out =
    if ltb 20 (length out)
    then err too_many_topics
    else if any is_long out
    then err topic_too_long
    else ok out

abbrev pub topic_list : Value → Result PolicyError (List String)
topic_list (texts v) = check_topics (tidied v)
topic_list _ = err not_texts

abbrev pub number_word : NumberKey → String
number_word max_grant_days = "maxGrantDays"
number_word default_share_days = "defaultShareDays"
number_word grading_confidence = "gradingConfidence"
number_word derived_window_hours = "derivedWindowHours"
number_word request_days = "requestDays"
number_word prune_after_days = "pruneAfterDays"

abbrev pub flag_word : FlagKey → String
flag_word people_share_directly = "peopleShareDirectly"
flag_word grading_enabled = "gradingEnabled"

abbrev pub key_word : Key → String
key_word (number_key k) = number_word k
key_word (flag_key k) = flag_word k
key_word topics_key = "restrictedTopics"
key_word standing_key = "standingGrants"

abbrev pub keys_known : List Key
keys_known =
    number_key max_grant_days
    ∷ number_key default_share_days
    ∷ standing_key
    ∷ flag_key people_share_directly
    ∷ flag_key grading_enabled
    ∷ number_key grading_confidence
    ∷ topics_key
    ∷ number_key derived_window_hours
    ∷ number_key request_days
    ∷ number_key prune_after_days
    ∷ []

abbrev key_among : String → List Key → Option Key
key_among w [] = none
key_among w (k ∷ ks) = let rest = key_among w ks in if w == key_word k then some k else rest

-- The setting that a property of the input names, if any.
abbrev pub read_key : String → Option Key
read_key w = key_among w keys_known

abbrev pub same_number : NumberKey → NumberKey → Bool
same_number a b = number_word a == number_word b

abbrev pub set_number : NumberKey → ℕ → Policy → Policy
set_number k n p = record p { number = λ j. if same_number j k then n else p.number j }

abbrev pub set_flag : FlagKey → Bool → Policy → Policy
set_flag k b p = record p { switch = λ j. if flag_word j == flag_word k then b else p.switch j }

abbrev pub read_standing : String → Option Standing
read_standing s = if s == "root" then some root else if s == "nobody" then some nobody else none

abbrev set_standing : Option Standing → Policy → Result PolicyError Policy
set_standing none p = err not_standing
set_standing (some s) p = ok (record p { standing = s })

abbrev pub set_one : String → Key → Value → Policy → Result PolicyError Policy
set_one w (number_key k) (millionths v) p =
    if ltb v (low k * unit k) || ltb (high k * unit k) v
    then err (not_in_range w k)
    else ok (set_number k (rounded k v) p)
set_one w (number_key k) _ p = err (not_in_range w k)
set_one w topics_key v p = topic_list v >>= λ out. ok (record p { topics = out })
set_one w standing_key (text s) p = set_standing (read_standing s) p
set_one w standing_key _ p = err not_standing
set_one w (flag_key k) (flag b) p = ok (set_flag k b p)
set_one w (flag_key k) _ p = err (not_flag w)

abbrev pub set_known : String → Value → Option Key → Policy → Result PolicyError Policy
set_known w v none p = err (unknown_setting w)
set_known w v (some k) p = set_one w k v p

abbrev pub set_all : List (String × Value) → Policy → Result PolicyError Policy
set_all [] p = ok p
set_all ((w, v) ∷ input) p = set_known w v (read_key w) p >>= set_all input

abbrev pub check_shares : Policy → Result PolicyError Policy
check_shares p =
    if ltb (p.number max_grant_days) (p.number default_share_days) then err share_too_long else ok p

unfoldable pub apply_policy_update :
    Policy → Option (List (String × Value)) → Result PolicyError Policy
apply_policy_update current none = err not_object
apply_policy_update current (some input) = set_all input current >>= check_shares

abbrev is_known : Option Key → Bool
is_known none = false
is_known (some k) = true

abbrev pub or_defaults : Result PolicyError Policy → Policy → Policy
or_defaults (ok p) defaults = p
or_defaults (err e) defaults = defaults

abbrev pub entries_of : Option (List (String × Value)) → List (String × Value)
entries_of none = []
entries_of (some input) = input

-- The stored settings that there still are.
abbrev pub known_entries : Option (List (String × Value)) → List (String × Value)
known_entries stored = filter (λ e. is_known (read_key e.0)) (entries_of stored)

-- A stored policy, filled from the defaults; they stand in for one that is invalid.
unfoldable pub normalize_stored : Option (List (String × Value)) → Policy → Policy
unfolding apply_policy_update
normalize_stored stored defaults =
    or_defaults (apply_policy_update defaults (some (known_entries stored))) defaults
