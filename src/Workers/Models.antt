-- ===== src/Workers/Models.antt =====
-- packages/server/src/instance/settings.ts: what a workspace allows; and graph-pool.ts: the models that threads
-- run on and their limits (`newThreadModelKey`, `threadModelKey`, `modelCaps`, `busyOn`, `levelGroups`).
--
-- The number 0 stands for a level that is not given. Of the labels, what counts is which models have one.
use Prim.Native.Nat.{min}
use Prim.Native.String.{String, ◌++◌ as append}
use gwarestrin.Base.{
  ℕ, suc, ◌-◌, Bool, true, false, not, Option, none, some, List, [], ◌∷◌, ◌++◌, ◌==◌, if◌then◌else◌,
  ltb, eqb, elem, map, lookup, insert,
}
use gwarestrin.Jobs.Threads.{Group, Thread}

pub record Model : Type 0 where
  pub provider : String
  pub model_id : String

-- `"all" | string[]`
pub data Allowed : Type 0 where
  everything : Allowed
  only : List String → Allowed

pub record InstanceSettings : Type 0 where
  pub max_agents : Option ℕ
  pub mcp : Allowed
  pub providers : Allowed

-- The metadata's settings, each of which may be missing.
pub record StoredSettings : Type 0 where
  pub max_agents : Option ℕ
  pub mcp : Option Allowed
  pub providers : Option Allowed

pub record Metadata : Type 0 where
  pub settings : Option StoredSettings
  pub models : Option (List String)

abbrev or_everything : Option Allowed → Allowed
or_everything none = everything
or_everything (some a) = a

abbrev settings_of : Option StoredSettings → InstanceSettings
settings_of none = record { max_agents = none; mcp = everything; providers = everything }
settings_of (some s) = record {
  max_agents = s.max_agents;
  mcp = or_everything s.mcp;
  providers = or_everything s.providers;
}

abbrev pub instance_settings : Option Metadata → InstanceSettings
instance_settings none = settings_of none
instance_settings (some md) = settings_of md.settings

abbrev pub allows : Allowed → String → Bool
allows everything name = true
allows (only names) name = elem name names

abbrev pub mcp_allowed : String → InstanceSettings → Bool
mcp_allowed name s = allows s.mcp name

abbrev pub provider_allowed : String → InstanceSettings → Bool
provider_allowed id s = allows s.providers id

abbrev pub model_labels : Option Metadata → Option (List String)
model_labels none = none
model_labels (some md) = md.models

abbrev pub model_key : String → String → String
model_key provider model_id = append provider (append "/" model_id)

abbrev pub model_allowed : String → String → Option (List String) → Bool
model_allowed provider model_id none = true
model_allowed provider model_id (some labels) = elem (model_key provider model_id) labels

-- Why a model can't run agents here.
pub data Refusal : Type 0 where
  provider_refused : (provider : String) → Refusal
  no_label : (model_id provider : String) → Refusal

unfoldable pub model_refusal : Option Metadata → String → String → Option Refusal
model_refusal md provider model_id =
    if not (provider_allowed provider (instance_settings md))
    then some (provider_refused provider)
    else if not (model_allowed provider model_id (model_labels md))
    then some (no_label model_id provider)
    else none

pub data WorkerLevel : Type 0 where
  level_1 level_2 level_3 : WorkerLevel

abbrev pub worker_level : ℕ → Option WorkerLevel
worker_level n =
    if eqb n 1
    then some level_1
    else if eqb n 2
    then some level_2
    else if eqb n 3
    then some level_3
    else none

abbrev pub level_number : WorkerLevel → ℕ
level_number level_1 = 1
level_number level_2 = 2
level_number level_3 = 3

-- The profile of the graph's workers: its models and limits for the levels, and its own model.
pub record Profile : Type 0 where
  pub level_models : WorkerLevel → Option Model
  pub level_limits : WorkerLevel → Option ℕ
  pub default_model : Option Model

-- What the models of a new thread are read from.
pub record Workspace : Type 0 where
  pub metadata : Option Metadata
  pub profile : Option Profile
  pub default_model : Option Model

abbrev level_model : Option Profile → Option WorkerLevel → Option Model
level_model none l = none
level_model (some p) none = none
level_model (some p) (some l) = p.level_models l

abbrev profile_model : Option Profile → Option Model
profile_model none = none
profile_model (some p) = p.default_model

abbrev unless_refused : Option Refusal → String → Option String
unless_refused none key = some key
unless_refused (some why) key = none

abbrev pub allowed_key : Option Metadata → Option Model → Option String
allowed_key md none = none
allowed_key md (some model) =
    unless_refused (model_refusal md model.provider model.model_id)
      (model_key model.provider model.model_id)

abbrev first_of : Option String → Option String → Option String
first_of none b = b
first_of (some a) b = some a

abbrev or_empty : Option String → String
or_empty none = ""
or_empty (some s) = s

unfoldable pub new_thread_model_key : Workspace → ℕ → String
unfolding model_refusal
new_thread_model_key w level = or_empty (
    first_of (allowed_key w.metadata (level_model w.profile (worker_level level))) (
      first_of (allowed_key w.metadata (profile_model w.profile))
        (allowed_key w.metadata w.default_model)))

-- `model_of` is the model of an agent that the store holds.
abbrev own_model : (String → Option Model) → Option String → Option Model
own_model model_of none = none
own_model model_of (some agent_id) = model_of agent_id

abbrev key_or_new : Option Model → String → String
key_or_new none new = new
key_or_new (some model) new = model_key model.provider model.model_id

unfoldable pub thread_model_key : Workspace → (String → Option Model) → Thread → String
unfolding new_thread_model_key
thread_model_key w model_of t =
    key_or_new (own_model model_of t.agent_id) (new_thread_model_key w t.level)

abbrev limit_of : Option Profile → WorkerLevel → Option ℕ
limit_of none l = none
limit_of (some p) l = p.level_limits l

-- `Math.min(caps.get(key) ?? Infinity, lim)`
abbrev lowest : Option ℕ → ℕ → ℕ
lowest none lim = lim
lowest (some cap) lim = min cap lim

abbrev add_cap : Option ℕ → String → List (String × ℕ) → List (String × ℕ)
add_cap none key caps = caps
add_cap (some lim) key caps =
    if ltb lim 1 then caps else insert key (lowest (lookup key caps) lim) caps

abbrev caps_for : Workspace → List WorkerLevel → List (String × ℕ) → List (String × ℕ)
caps_for w [] caps = caps
caps_for w (l ∷ ls) caps =
    caps_for w ls (add_cap (limit_of w.profile l) (new_thread_model_key w (level_number l)) caps)

unfoldable pub model_caps : Workspace → List (String × ℕ)
unfolding new_thread_model_key
model_caps w = caps_for w (level_1 ∷ level_2 ∷ level_3 ∷ []) []

-- `active`: the job of each running thread, with its model.
abbrev pub busy_on : String → List (String × String) → ℕ
busy_on key [] = 0
busy_on key ((job, model) ∷ active) =
    let rest = busy_on key active in if model == key then suc rest else rest

abbrev or_no_levels : Option (List ℕ) → List ℕ
or_no_levels none = []
or_no_levels (some ls) = ls

abbrev has_cap : Option ℕ → Bool
has_cap none = false
has_cap (some cap) = true

abbrev by_model : Workspace → List ℕ → List (String × List ℕ) → List (String × List ℕ)
by_model w [] groups = groups
by_model w (l ∷ ls) groups =
    let key = new_thread_model_key w l in
    by_model w ls (
      if has_cap (lookup key (model_caps w))
      then insert key (or_no_levels (lookup key groups) ++ l ∷ []) groups
      else groups)

abbrev cap_or_zero : Option ℕ → ℕ
cap_or_zero none = 0
cap_or_zero (some cap) = cap

abbrev group_for : Workspace → List (String × String) → (String × List ℕ) → Group
group_for w active (key, ls) = record {
  left = cap_or_zero (lookup key (model_caps w)) - busy_on key active;
  levels = ls;
}

unfoldable pub level_groups : Workspace → List (String × String) → List Group
unfolding model_caps new_thread_model_key
level_groups w active = map (group_for w active) (by_model w (0 ∷ 1 ∷ 2 ∷ 3 ∷ []) [])
