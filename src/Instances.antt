-- ===== src/Instances.antt =====
-- provisioner/instance-settings.mjs: what an organization's admin decides per workspace (`defaultSettings`,
-- `allowList`, `applySettingsUpdate`, `normalizeSettings`).
--
-- A value of the input is read by what the code asks of it; a list that holds anything but texts is `other`, and
-- an input that is no object is `none`. `TENANT_MAX_AGENTS` is the whole number it reads as, if it is one.
pub mod Names
pub mod Limits
mod Examples
use Prim.Native.String.{String}
use gwarestrin.Base.{
  ℕ, zero, suc, ◌≡◌, Bool, true, false, not, ◌&&◌, ◌||◌, Option, none, some, List, [], ◌∷◌, ◌==◌,
  if◌then◌else◌, leb, ltb, eqb, length, elem, object_names, all, any, filter, sort, Result, ok, err,
  ◌>>=◌,
}
use gwarestrin.Dates.{codes, is_digit}
use gwarestrin.Needs.{text_before}
use gwarestrin.Reads.{distinct}
use gwarestrin.Workers.Models.{Allowed, everything, only}

abbrev pub max_agents_limit : ℕ
max_agents_limit = 32

pub record Settings : Type 0 where
  pub max_agents : ℕ
  pub mcp : Allowed
  pub providers : Allowed

pub data Value : Type 0 where
  whole : ℕ → Value
  text : String → Value
  texts : List String → Value
  other : Value

pub data SettingsError : Type 0 where
  settings_not_object bad_max_agents no_provider : SettingsError
  bad_list unknown_setting : String → SettingsError

abbrev pub in_range : ℕ → Bool
in_range n = leb 1 n && leb n max_agents_limit

abbrev agents_or_two : Option ℕ → ℕ
agents_or_two none = 2
agents_or_two (some n) = if in_range n then n else 2

abbrev pub default_settings : Option ℕ → Settings
default_settings tenant_max_agents = record {
  max_agents = agents_or_two tenant_max_agents;
  mcp = everything;
  providers = everything;
}

-- `[a-z0-9]`, with the flag `i`
abbrev is_alnum : ℕ → Bool
is_alnum c = is_digit c || (leb b'a' c && leb c b'z') || (leb b'A' c && leb c b'Z')

abbrev in_name : ℕ → Bool
in_name c = is_alnum c || eqb c b'.' || eqb c b'_' || eqb c b'-'

abbrev name_matches : List ℕ → Bool
name_matches [] = false
name_matches (c ∷ s) = is_alnum c && (leb (length s) 63 && all in_name s)

-- `NAME_RE.test(x)`
abbrev pub is_name : String → Bool
is_name x = name_matches (codes x)

abbrev pub listed : String → List String → Result SettingsError Allowed
listed key xs =
    if ltb 64 (length xs) || any (λ x. not (is_name x)) xs
    then err (bad_list key)
    else ok (only (sort text_before (distinct [] xs)))

abbrev pub allow_list : String → Value → Result SettingsError Allowed
allow_list key (text s) = if s == "all" then ok everything else err (bad_list key)
allow_list key (texts xs) = listed key xs
allow_list key (whole n) = err (bad_list key)
allow_list key other = err (bad_list key)

abbrev pub set_agents : Value → Settings → Result SettingsError Settings
set_agents (whole n) next =
    if not (in_range n) then err bad_max_agents else ok (record next { max_agents = n })
set_agents (text s) next = err bad_max_agents
set_agents (texts xs) next = err bad_max_agents
set_agents other next = err bad_max_agents

-- One round of the loop.
abbrev pub set_one : String → Value → Settings → Result SettingsError Settings
set_one k v next =
    if k == "maxAgents"
    then set_agents v next
    else if k == "mcp"
    then allow_list k v >>= (λ a. ok (record next { mcp = a }))
    else if k == "providers"
    then allow_list k v >>= (λ a. ok (record next { providers = a }))
    else err (unknown_setting k)

abbrev pub set_each : List (String × Value) → Settings → Result SettingsError Settings
set_each [] next = ok next
set_each ((k, v) ∷ input) next = set_one k v next >>= set_each input

abbrev is_empty_list : Allowed → Bool
is_empty_list everything = false
is_empty_list (only xs) = eqb (length xs) 0

abbrev pub check_providers : Settings → Result SettingsError Settings
check_providers next = if is_empty_list next.providers then err no_provider else ok next

unfoldable pub apply_settings_update :
    Settings → Option (List (String × Value)) → Result SettingsError Settings
apply_settings_update current none = err settings_not_object
apply_settings_update current (some input) = set_each input current >>= check_providers

-- `k in defaults`, which inherited names pass too.
abbrev is_setting : String → Bool
is_setting k = elem k ("maxAgents" ∷ "mcp" ∷ "providers" ∷ []) || elem k object_names

abbrev known_settings : List (String × Value) → List (String × Value)
known_settings [] = []
known_settings ((k, v) ∷ stored) =
    let rest = known_settings stored in if is_setting k then (k, v) ∷ rest else rest

abbrev pub entries_or_none : Option (List (String × Value)) → List (String × Value)
entries_or_none none = []
entries_or_none (some stored) = known_settings stored

abbrev pub or_defaults : Settings → Result SettingsError Settings → Settings
or_defaults defaults (ok s) = s
or_defaults defaults (err e) = defaults

unfoldable pub normalize_settings : Option (List (String × Value)) → Settings → Settings
unfolding apply_settings_update
normalize_settings stored defaults =
    or_defaults defaults (apply_settings_update defaults (some (entries_or_none stored)))
