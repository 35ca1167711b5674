-- ===== src/Pool.antt =====
-- graph-rag/src/pool.js: the settings of the worker pool (`POOL_DEFAULTS`, `LIMITS`, `poolSettings`) and
-- the first job of a saved entry (`firstJob`).
--
-- A value of the input is read by what the code asks of it: a Boolean, a whole number that is not
-- negative, or anything else (refused for every setting). The stored settings may lack some.
pub mod Settings
mod Examples
use Prim.Native.String.{String}
use gwarestrin.Base.{
  ℕ, ◌≡◌, Bool, true, false, not, ◌&&◌, ◌||◌, Option, none, some, List, [], ◌∷◌, ◌==◌,
  if◌then◌else◌, leb, ltb, eqb, Result, ok, err, ◌>>=◌,
}

pub data NumberKey : Type 0 where
  pool_size daily_threads thread_minutes keep_days batch_size batch_minutes max_handlers : NumberKey

pub data FlagKey : Type 0 where
  sort_first master : FlagKey

pub data Key : Type 0 where
  flag_key : FlagKey → Key
  number_key : NumberKey → Key

pub data Value : Type 0 where
  flag : Bool → Value
  whole : ℕ → Value
  other : Value

-- What is set: each setting's value.
pub record Pool : Type 0 where
  pub number : NumberKey → ℕ
  pub switch : FlagKey → Bool

-- `current`: the settings that are stored.
pub record Stored : Type 0 where
  pub number : NumberKey → Option ℕ
  pub switch : FlagKey → Option Bool

abbrev default_number : NumberKey → ℕ
default_number pool_size = 0
default_number daily_threads = 20
default_number thread_minutes = 20
default_number keep_days = 14
default_number batch_size = 20
default_number batch_minutes = 15
default_number max_handlers = 5

abbrev default_switch : FlagKey → Bool
default_switch sort_first = true
default_switch master = false

abbrev pub pool_defaults : Pool
pool_defaults = record { number = default_number; switch = default_switch }

abbrev pub low : NumberKey → ℕ
low pool_size = 0
low thread_minutes = 5
low _ = 1

abbrev pub high : NumberKey → ℕ
high pool_size = 64
high daily_threads = 5000
high thread_minutes = 120
high keep_days = 90
high batch_size = 200
high batch_minutes = 1440
high max_handlers = 50

abbrev pub or_default {ℓ} : {A : Type ℓ} → Option A → A → A
or_default none d = d
or_default (some x) d = x

-- `{ ...POOL_DEFAULTS, ...current }`
abbrev pub filled : Stored → Pool
filled current = record {
  number = λ k. or_default (current.number k) (default_number k);
  switch = λ k. or_default (current.switch k) (default_switch k);
}

abbrev pub number_word : NumberKey → String
number_word pool_size = "poolSize"
number_word daily_threads = "dailyThreads"
number_word thread_minutes = "threadMinutes"
number_word keep_days = "keepDays"
number_word batch_size = "batchSize"
number_word batch_minutes = "batchMinutes"
number_word max_handlers = "maxHandlers"

abbrev pub same_number : NumberKey → NumberKey → Bool
same_number a b = number_word a == number_word b

abbrev pub flag_word : FlagKey → String
flag_word sort_first = "sortFirst"
flag_word master = "master"

abbrev pub same_flag : FlagKey → FlagKey → Bool
same_flag a b = flag_word a == flag_word b

abbrev find_number : String → List NumberKey → Option Key
find_number k [] = none
find_number k (n ∷ ns) =
    let rest = find_number k ns in if k == number_word n then some (number_key n) else rest

abbrev pub number_keys : List NumberKey
number_keys =
    pool_size ∷ daily_threads ∷ thread_minutes ∷ keep_days ∷ batch_size ∷ batch_minutes
    ∷ max_handlers ∷ []

-- The setting that a property of the input names, if any.
abbrev pub read_key : String → Option Key
read_key k =
    if k == "sortFirst"
    then some (flag_key sort_first)
    else if k == "master"
    then some (flag_key master)
    else find_number k number_keys

pub data SettingError : Type 0 where
  not_flag : String → SettingError
  not_in_range : String → (lo hi : ℕ) → SettingError

abbrev pub set_number : NumberKey → ℕ → Pool → Pool
set_number k v p = record p { number = λ j. if same_number j k then v else p.number j }

abbrev pub set_switch : FlagKey → Bool → Pool → Pool
set_switch k v p = record p { switch = λ j. if same_flag j k then v else p.switch j }

-- One round of the loop, for the property `word` that names the setting.
abbrev pub set_one : String → Option Key → Value → Pool → Result SettingError Pool
set_one word none v p = ok p
set_one word (some (flag_key k)) (flag b) p = ok (set_switch k b p)
set_one word (some (flag_key k)) _ p = err (not_flag word)
set_one word (some (number_key k)) (whole n) p =
    if ltb n (low k) || ltb (high k) n
    then err (not_in_range word (low k) (high k))
    else ok (set_number k n p)
set_one word (some (number_key k)) _ p = err (not_in_range word (low k) (high k))

abbrev pub set_all : List (String × Value) → Pool → Result SettingError Pool
set_all [] p = ok p
set_all ((k, v) ∷ input) p = set_one k (read_key k) v p >>= set_all input

unfoldable pub pool_settings : List (String × Value) → Stored → Result SettingError Pool
pool_settings input current = set_all input (filled current)

pub data Job : Type 0 where
  mentions review : Job

unfoldable pub first_job : Pool → Job
first_job p =
    if eqb (p.number pool_size) 0 || p.switch master
    then mentions
    else if p.switch sort_first
    then mentions
    else review
