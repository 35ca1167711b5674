-- ===== src/Policy/Examples.antt =====
-- Settings of a small organization.
use Prim.Native.String.{String}
use gwarestrin.Base.{ℕ, ◌≡◌, refl, Bool, true, some, List, [], ◌∷◌, arith, ok, err}
use gwarestrin.Policy.{
  NumberKey, max_grant_days, default_share_days, grading_confidence, derived_window_hours,
  request_days, prune_after_days, FlagKey, Value, millionths, texts, text, root, nobody, Policy,
  set_number, apply_policy_update, normalize_stored, not_in_range, share_too_long, unknown_setting,
}
use gwarestrin.Policy.Limits.{IsPolicy, NumbersFit}

abbrev start : NumberKey → ℕ
start max_grant_days = 90
start default_share_days = 14
start grading_confidence = 60
start derived_window_hours = 12
start request_days = 14
start prune_after_days = 30

abbrev all_on : FlagKey → Bool
all_on k = true

abbrev defaults : Policy
defaults = record { number = start; switch = all_on; standing = root; topics = "pay" ∷ [] }

start_fits : NumbersFit defaults
start_fits max_grant_days = (omega arith, omega arith)
start_fits default_share_days = (omega arith, omega arith)
start_fits grading_confidence = (omega arith, omega arith)
start_fits derived_window_hours = (omega arith, omega arith)
start_fits request_days = (omega arith, omega arith)
start_fits prune_after_days = (omega arith, omega arith)

defaults_fit : IsPolicy defaults
defaults_fit = ((start_fits, (omega arith, refl, (refl, tt))), omega arith)

-- 29.6 days are kept as 30, and topics are tidied.
abbrev update : List (String × Value)
update =
    ("maxGrantDays", millionths 29600000)
    ∷ ("restrictedTopics", texts (" hiring  and firing" ∷ "pay" ∷ "pay " ∷ "" ∷ []))
    ∷ ("standingGrants", text "nobody")
    ∷ []

abbrev updated : Policy
updated = record (set_number max_grant_days 30 defaults) {
  standing = nobody;
  topics = "hiring and firing" ∷ "pay" ∷ [];
}

updates : apply_policy_update defaults (some update) ≡ ok updated
unfolding apply_policy_update
updates = refl

refuses :
    (apply_policy_update defaults (some (("requestDays", millionths 400000) ∷ []))
      ≡ err (not_in_range "requestDays" request_days))
    × (apply_policy_update defaults (some (("defaultShareDays", millionths 91000000) ∷ []))
        ≡ err share_too_long)
    × (apply_policy_update defaults (some (("colour", text "red") ∷ []))
        ≡ err (unknown_setting "colour"))
unfolding apply_policy_update
refuses = (refl, refl, refl)

drops_unknown : normalize_stored (some (("colour", text "red") ∷ update)) defaults ≡ updated
unfolding normalize_stored
drops_unknown = refl
