-- ===== src/Placement/Examples.antt =====
-- The placement theorems at the small organization of `Positions.Examples`.
use gwarestrin.Base.{ℕ, String, ◌≡◌, refl, true, false, none, some, [], ◌∷◌}
use gwarestrin.Positions.{can_see, ancestors, chain}
use gwarestrin.Positions.Examples.{org, org-IsTree}
use gwarestrin.Grading.{Verdict, decide}
use gwarestrin.Placement.{place}
use gwarestrin.Placement.Bounds.{place_new-hides, place_update-hides}

abbrev digits : ℕ → String
digits n = "0.90"

abbrev routine : Verdict
routine = record { home = "shift"; confidence = 90; release = none; reason = "routine" }

abbrev sensitive : Verdict
sensitive = record { home = "org"; confidence = 90; release = none; reason = "pay" }

-- Routine text written at the night shift by someone who had read at the floor's level.
lifted_home :
    (place digits org "shift" (some routine) true none false (some "floor") 60).home ≡ "floor"
unfolding place decide ancestors
lifted_home = refl

floor_sees_it :
    can_see org
      ("floor" ∷ [])
      (some (place digits org "shift" (some routine) true none false (some "floor") 60).home)
    ≡ true
unfolding can_see place decide ancestors
floor_sees_it = refl

place_new-hides_example :
    (can_see org ("floor" ∷ []) (some "shift") ≡ true)
    × ((f : String) → some "floor" ≡ some f → can_see org ("floor" ∷ []) (some f) ≡ true)
unfolding chain
place_new-hides_example =
    place_new-hides org-IsTree digits "shift" (some routine) true none false (some "floor") 60
      ("floor" ∷ []) refl refl refl refl floor_sees_it

root_sees_it :
    can_see org
      ("org" ∷ [])
      (some (place digits org "shift" (some sensitive) true (some "floor") false none 60).home)
    ≡ true
unfolding can_see place decide ancestors
root_sees_it = refl

place_update-hides_example : can_see org ("org" ∷ []) (some "floor") ≡ true
place_update-hides_example =
    place_update-hides org-IsTree digits "shift" (some sensitive) true "floor" none 60 ("org" ∷ [])
      refl root_sees_it
