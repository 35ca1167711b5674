-- ===== src/Needs/Examples.antt =====
-- Who is asked in the small organization.
use gwarestrin.Needs.Views.{Entry, OwnerView, group_entries}
use gwarestrin.Base.{lookup, some, none, false}
use gwarestrin.Base.{◌≡◌, refl, true, not, ◌&&◌, some, [], ◌∷◌, ◌==◌, any, elem}
use gwarestrin.Positions.{can_see}
use gwarestrin.Positions.Examples.{org, org-IsTree}
use gwarestrin.Needs.{Holders, owners_for}
use gwarestrin.Needs.Owners.{owners_for-can_see}

abbrev people : Holders
people = ("zoe", "floor" ∷ []) ∷ ("ken", "floor" ∷ []) ∷ ("ann", "org" ∷ []) ∷ []

-- Nobody holds the night shift: the floor's people are asked, in order.
asked : owners_for org "shift" people "sam" ≡ "ken" ∷ "zoe" ∷ []
unfolding owners_for
asked = refl

-- The asker is passed over.
asked_without_asker :
    owners_for org "shift" (("ken", "floor" ∷ []) ∷ ("ann", "org" ∷ []) ∷ []) "ken" ≡ "ann" ∷ []
unfolding owners_for
asked_without_asker = refl

ken_asked : elem "ken" (owners_for org "shift" people "sam") ≡ true
unfolding owners_for
ken_asked = refl

owners_for-can_see_example :
    any (λ h. "ken" == h.0 && (not (h.0 == "sam") && can_see org h.1 (some "shift"))) people ≡ true
owners_for-can_see_example = owners_for-can_see org-IsTree "shift" refl people "sam" "ken" ken_asked

abbrev rota : Entry
rota = record { key = "#1:1"; name = "rota"; home = "floor"; shared = true; score = 900000 }

abbrev asks_week : OwnerView
asks_week = record {
  id = "q1";
  question = "Which week?";
  asked = 1;
  asker = "ann";
  status = "shared";
  entries = rota ∷ [];
  posted = false;
  expires_at = none;
}

-- The same entry, shared with another asker and less sure.
abbrev asks_day : OwnerView
asks_day = record asks_week {
  id = "q2";
  asker = "ken";
  entries = record rota { score = 500000 } ∷ [];
}

both_shared : lookup "#1:1" (group_entries (asks_week ∷ asks_day ∷ [])) ≡ some rota
unfolding group_entries
both_shared = refl

one_refused :
    lookup "#1:1" (group_entries (asks_week ∷ record asks_day { entries = [] } ∷ []))
    ≡ some (record rota { shared = false })
unfolding group_entries
one_refused = refl
