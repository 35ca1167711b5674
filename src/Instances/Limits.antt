-- ===== src/Instances/Limits.antt =====
-- provisioner/instance-settings.mjs: the limits of settings.
use Prim.Native.String.{String}
use gwarestrin.Base.{
  ℕ, ◌≡◌, refl, subst, Bool, true, false, Option, none, some, List, [], ◌∷◌, ◌==◌, if◌then◌else◌,
  Result, ok, err, ◌>>=◌, >>=-eq-ok, inl, inr, Bool-cases,
}
use gwarestrin.Instances.Names.{IsAllowed, allow_list-IsAllowed}
use gwarestrin.Workers.Models.{Allowed}
use gwarestrin.Instances.{
  Settings, Value, whole, text, texts, other, SettingsError, in_range, default_settings, allow_list,
  set_agents, set_one, set_each, is_empty_list, check_providers, apply_settings_update,
  entries_or_none, or_defaults, normalize_settings,
}

pub record IsSettings (s : Settings) : Type 0 where
  pub few : in_range s.max_agents ≡ true
  pub mcp : IsAllowed s.mcp
  pub providers : IsAllowed s.providers
  pub some_provider : is_empty_list s.providers ≡ false

-- What holds of settings between two rounds: all but that a provider is left.
pub record InLimits (s : Settings) : Type 0 where
  pub few : in_range s.max_agents ≡ true
  pub mcp : IsAllowed s.mcp
  pub providers : IsAllowed s.providers

settings_same : (a b : Settings) → ◌≡◌ {A = Result SettingsError Settings} (ok a) (ok b) → a ≡ b
settings_same a b e = cc e

set_agents-InLimits :
    (v : Value) (s out : Settings) → InLimits s → set_agents v s ≡ ok out → InLimits out
set_agents-InLimits (whole n) s out v h = elim (Bool-cases (in_range n)) [
  | inl e ↦
      subst InLimits (settings_same _ _ (rw (set_agents, e) at h))
        (record { few = e; mcp = v.mcp; providers = v.providers })
  | inr e ↦ absurd (cc (rw (set_agents, e) at h))
]
set_agents-InLimits (text t) s out v h = absurd (cc h)
set_agents-InLimits (texts xs) s out v h = absurd (cc h)
set_agents-InLimits other s out v h = absurd (cc h)

set_list-InLimits :
    (key : String) (v : Value) (put : Allowed → Settings) (out : Settings)
    → ((a : Allowed) → IsAllowed a → InLimits (put a))
    → (allow_list key v >>= (λ a. ok (put a))) ≡ ok out
    → InLimits out
set_list-InLimits key v put out f h =
    let (a, e, same) = >>=-eq-ok (allow_list key v) (λ a. ok (put a)) out h in
    subst InLimits (settings_same _ _ same) (f a (allow_list-IsAllowed key v a e))

set_one-InLimits :
    (k : String) (v : Value) (s out : Settings) → InLimits s → set_one k v s ≡ ok out → InLimits out
set_one-InLimits k v s out l h = elim (Bool-cases (k == "maxAgents")) [
  | inl e ↦ set_agents-InLimits v s out l (rw (set_one, e) at h)
  | inr e ↦ elim (Bool-cases (k == "mcp")) [
    | inl f ↦
        set_list-InLimits k v (λ a. record s { mcp = a }) out
          (λ a g. record { few = l.few; mcp = g; providers = l.providers })
          (rw (set_one, e, f) at h)
    | inr f ↦ elim (Bool-cases (k == "providers")) [
      | inl g ↦
          set_list-InLimits k v (λ a. record s { providers = a }) out
            (λ a t. record { few = l.few; mcp = l.mcp; providers = t }) (rw (set_one, e, f, g) at h)
      | inr g ↦ absurd (cc (rw (set_one, e, f, g) at h))
    ]
  ]
]

set_each-InLimits :
    (input : List (String × Value)) (s out : Settings)
    → InLimits s
    → set_each input s ≡ ok out
    → InLimits out
set_each-InLimits [] s out l h = subst InLimits (settings_same _ _ h) l
set_each-InLimits ((k, v) ∷ input) s out l h =
    let (mid, one, rest) = >>=-eq-ok (set_one k v s) (set_each input) out h in
    set_each-InLimits input mid out (set_one-InLimits k v s mid l one) rest

check_providers-IsSettings :
    (s out : Settings) → InLimits s → check_providers s ≡ ok out → IsSettings out
check_providers-IsSettings s out l h = elim (Bool-cases (is_empty_list s.providers)) [
  | inl e ↦ absurd (cc (rw (check_providers, e) at h))
  | inr e ↦
      subst IsSettings (settings_same _ _ (rw (check_providers, e) at h))
        (record { few = l.few; mcp = l.mcp; providers = l.providers; some_provider = e })
]

-- An accepted update leaves from 1 to 32 agents, lists of well formed names without repetition, and a provider.
pub apply_settings_update-IsSettings :
    (current : Settings) (input : List (String × Value)) (out : Settings)
    → IsSettings current
    → apply_settings_update current (some input) ≡ ok out
    → IsSettings out
unfolding apply_settings_update
apply_settings_update-IsSettings current input out v h =
    let (mid, each, checked) = >>=-eq-ok (set_each input current) check_providers out h in
    check_providers-IsSettings mid out
      (set_each-InLimits input current mid
        (record { few = v.few; mcp = v.mcp; providers = v.providers }) each)
      checked

default_settings-IsSettings : (n : Option ℕ) → IsSettings (default_settings n)
default_settings-IsSettings none = record {
  few = refl;
  mcp = tt;
  providers = tt;
  some_provider = refl;
}
default_settings-IsSettings (some n) = record {
  few = kept (in_range n) n refl;
  mcp = tt;
  providers = tt;
  some_provider = refl;
}
  where
    kept : (b : Bool) (n : ℕ) → in_range n ≡ b → in_range (if b then n else 2) ≡ true
    kept true n e = e
    kept false n e = refl

-- Whatever is stored and whatever the environment says, a workspace runs with from 1 to 32 agents at once, lists of
-- well formed names without repetition for its connections and its providers, and at least one provider.
pub normalize_settings-IsSettings :
    (stored : Option (List (String × Value))) (tenant_max_agents : Option ℕ)
    → IsSettings (normalize_settings stored (default_settings tenant_max_agents))
unfolding normalize_settings
normalize_settings-IsSettings stored n =
    or_defaults-IsSettings
      (apply_settings_update (default_settings n) (some (entries_or_none stored)))
      (λ out e.
        apply_settings_update-IsSettings (default_settings n) (entries_or_none stored) out
          (default_settings-IsSettings n) e)
  where
    or_defaults-IsSettings :
        (r : Result SettingsError Settings)
        → ((out : Settings) → r ≡ ok out → IsSettings out)
        → IsSettings (or_defaults (default_settings n) r)
    or_defaults-IsSettings (ok s) f = f s refl
    or_defaults-IsSettings (err e) f = default_settings-IsSettings n
