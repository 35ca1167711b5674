-- ===== src/Decisions/Examples.antt =====
-- A triage verdict at concrete answers.
use gwarestrin.Base.{ℕ, zero, suc, ◌≡◌, refl, true, false, Option, none, some, List, [], ◌∷◌}
use gwarestrin.Decisions.{nan, plus, Unsure, Choice, Answers, triage_verdict, outcomes, outcome}
use gwarestrin.Decisions.Triage.{IsVerdict, Divided, triage_verdict-IsVerdict}

abbrev two_names : List Unsure
two_names =
    record {
      name = "Sam";
      candidates =
          record { rid = "#1:1"; label = "Sam Hill" }
          ∷ record { rid = "#1:2"; label = "Sam Lee" }
          ∷ [];
    }
    ∷ record { name = "press"; candidates = record { rid = "#2:1"; label = "Press 4" } ∷ [] }
    ∷ []

abbrev who : ℕ → Option Choice
who zero =
    some (record {
      choice = some "c1";
      probabilities = ("c0", plus 100000) ∷ ("c1", plus 900000) ∷ [];
    })
who (suc n) = some (record { choice = some "c0"; probabilities = ("c0", plus 740000) ∷ [] })

abbrev answers : Answers
answers = record {
  who = who;
  level = some (record { probabilities = ("0", plus 900000) ∷ []; score = some (plus 1500000) });
  reason = none;
  contradiction = none;
}

verdict :
    ((triage_verdict answers two_names 0).settled
      ≡ record { name = "Sam"; rid = "#1:2"; label = "Sam Lee"; p = plus 900000 } ∷ [])
    × ((triage_verdict answers two_names 0).left_open
        ≡ record { name = "press"; p = plus 740000; pick = some "Press 4" } ∷ [])
    × ((triage_verdict answers two_names 0).level ≡ some 2)
    × ((triage_verdict answers [] 0).level ≡ some 0)
    × ((triage_verdict answers [] 0).to_master ≡ true)
    × ((triage_verdict answers [] 50000).to_master ≡ false)
unfolding triage_verdict outcomes outcome
verdict = (refl, refl, refl, refl, refl, refl)

-- A score that is no number has no level, and the master decides.
abbrev unscored : Answers
unscored = record answers { level = some (record { probabilities = []; score = some nan }) }

no_level :
    ((triage_verdict unscored [] 0).level ≡ none)
    × ((triage_verdict unscored [] 0).to_master ≡ true)
unfolding triage_verdict outcomes
no_level = (refl, refl)

triage_verdict-IsVerdict_example :
    IsVerdict (triage_verdict answers two_names 0)
    × Divided two_names
        (triage_verdict answers two_names 0).settled
        (triage_verdict answers two_names 0).left_open
triage_verdict-IsVerdict_example = triage_verdict-IsVerdict answers two_names 0
