-- ===== src/Grants/Examples.antt =====
-- The grant theorems at the small organization of `Positions.Examples`.
use gwarestrin.Base.{ℕ, String, ◌≡◌, refl, true, Option, none, some, List, [], ◌∷◌, ok, any, elem}
use gwarestrin.Dates.{instant, relative_days}
use gwarestrin.Positions.{everyone, visible_homes}
use gwarestrin.Positions.Examples.{org, org-IsTree}
use gwarestrin.Grants.{Grant, Entity, ExpiryRules, granted_view, grant_shows, resolve_expiry}
use gwarestrin.Grants.Shown.{opens, allows, granted_view-homes, grant_shows_sound}

abbrev share : String → String → String → Grant
share kind target name = record {
  kind = kind;
  target = target;
  target_name = name;
  target_origin = none;
  to = "shift";
  to_user = none;
  status = "active";
  expires_at = some (instant 100);
}

abbrev shared : List Grant
shared = share "subtree" "sales" "" ∷ share "entity" "#1:7" "Quote 12" ∷ []

abbrev quote : Entity
quote = record { rid = "#1:7"; name = "Quote 12"; origin = some "sales" }

abbrev shift_sees : List String
shift_sees = "shift" ∷ everyone ∷ []

shift_homes : visible_homes org ("shift" ∷ []) ≡ some shift_sees
unfolding visible_homes
shift_homes = refl

granted_view-homes_example :
    elem "sales" (granted_view org ("shift" ∷ []) shared 50 none).homes
    ≡ any (opens org-IsTree shift_sees 50 none "sales") shared
granted_view-homes_example =
    granted_view-homes org-IsTree ("shift" ∷ []) shift_sees shared 50 none "sales" shift_homes

quote_shown : grant_shows (granted_view org ("shift" ∷ []) shared 50 none) quote ≡ true
unfolding grant_shows granted_view visible_homes
quote_shown = refl

grant_shows_sound_example : any (allows shift_sees 50 none quote) shared ≡ true
grant_shows_sound_example =
    grant_shows_sound org shift_sees 50 none quote ("shift" ∷ []) shared shift_homes quote_shown

abbrev no_date : String → Option ℕ
no_date s = none

abbrev agent_rules : ExpiryRules
agent_rules = record {
  root = true;
  agent = true;
  max_days = 90;
  default_days = 14;
  standing = "root";
}

fortnight : resolve_expiry no_date (some "14d") agent_rules 5 ≡ ok (some 1209600005)
unfolding resolve_expiry relative_days
fortnight = refl
