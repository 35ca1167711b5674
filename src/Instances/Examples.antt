-- ===== src/Instances/Examples.antt =====
-- Settings of a workspace.
use Prim.Native.String.{String}
use gwarestrin.Base.{◌≡◌, refl, none, some, List, [], ◌∷◌, err}
use gwarestrin.Workers.Models.{everything, only}
use gwarestrin.Instances.{
  Value, whole, texts, no_provider, default_settings, apply_settings_update, normalize_settings,
}
use gwarestrin.Instances.Limits.{IsSettings, normalize_settings-IsSettings}

abbrev stored : List (String × Value)
stored =
    ("maxAgents", whole 4)
    ∷ ("providers", texts ("local" ∷ "ant" ∷ "local" ∷ []))
    ∷ ("color", whole 1)
    ∷ []

read_settings :
    normalize_settings (some stored) (default_settings none)
    ≡ record { max_agents = 4; mcp = everything; providers = only ("ant" ∷ "local" ∷ []) }
unfolding normalize_settings apply_settings_update
read_settings = refl

-- A key that every object inherits is not dropped, and brings the defaults back.
inherited_key :
    normalize_settings (some (("toString", whole 1) ∷ stored)) (default_settings none)
    ≡ default_settings none
unfolding normalize_settings apply_settings_update
inherited_key = refl

none_left :
    apply_settings_update (default_settings none) (some (("providers", texts []) ∷ []))
    ≡ err no_provider
unfolding apply_settings_update
none_left = refl

normalize_settings-IsSettings_example :
    IsSettings (normalize_settings (some stored) (default_settings (some 40)))
normalize_settings-IsSettings_example = normalize_settings-IsSettings (some stored) (some 40)
