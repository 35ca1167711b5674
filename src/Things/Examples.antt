-- ===== src/Things/Examples.antt =====
-- Mentions of racks and of people, in plain letters.
use Prim.Native.String.{String}
use gwarestrin.Base.{
  ℕ, ◌+◌, ◌≡◌, refl, ◌&&◌, ◌||◌, Option, none, some, List, [], ◌∷◌, if◌then◌else◌, leb, map,
}
use gwarestrin.Dates.{codes, is_digit}
use gwarestrin.Things.{
  Letters, Mention, Candidate, use_thing, ambiguous, create_thing, designators_differ, resolve,
}
use gwarestrin.Things.Resolved.{Used, resolve-Used}

abbrev lower : ℕ → ℕ
lower c = if leb b'A' c && leb c b'Z' then c + 32 else c

abbrev plain : Letters
plain = record { to_lower = map lower; in_word = λ c. is_digit c || (leb b'a' c && leb c b'z') }

abbrev thing : String → String → Option ℕ → Candidate
thing rid name score = record {
  rid = rid;
  kind = "place";
  name = codes name;
  aliases = [];
  keys = [];
  score = score;
}

abbrev mention : String → Mention
mention name = record { name = codes name; kind = "place"; key = none }

other_rack :
    resolve plain (mention "Rack C") (thing "#1:1" "rack A" (some 990000) ∷ []) ≡ create_thing none
unfolding resolve designators_differ
other_rack = refl

two_docks :
    resolve plain (mention "dock") (thing "#1:1" "Dock" none ∷ thing "#1:2" "dock." none ∷ [])
    ≡ ambiguous ("#1:1" ∷ "#1:2" ∷ [])
unfolding resolve designators_differ
two_docks = refl

abbrev halls : List Candidate
halls = thing "#1:1" "main hall" (some 930000) ∷ thing "#1:2" "the main hall" (some 950000) ∷ []

nearest_hall :
    resolve plain (mention "Main Halls") halls ≡ use_thing "#1:2" (some (codes "Main Halls"))
unfolding resolve designators_differ
nearest_hall = refl

resolve-Used_example : Used plain (mention "Main Halls") halls "#1:2"
resolve-Used_example =
    resolve-Used plain (mention "Main Halls") halls "#1:2" (some (codes "Main Halls")) nearest_hall
