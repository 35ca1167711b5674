-- ===== src/Labels/Examples.antt =====
-- Labels of two models.
use Prim.Native.String.{String}
use gwarestrin.Base.{◌≡◌, refl, none, some, List, [], ◌∷◌, err}
use gwarestrin.Labels.{
  Label, Given, noted, null_entry, given, Entry, apply_label_update, normalize_labels, is_key,
  label, invalid_model,
}
use gwarestrin.Labels.Valid.{AllLabels, written, normalize_labels-written}

abbrev local_label : Label
local_label = record {
  tier = "standard";
  hosting = "on-prem";
  notes = some "on the shelf";
  by_actor = "ann";
  at_time = "2026-01-01";
}

abbrev public_label : Label
public_label = record {
  tier = "frontier";
  hosting = "public-api";
  notes = none;
  by_actor = "ann";
  at_time = "2026-01-02";
}

abbrev two_labels : List (String × Label)
two_labels = ("local/m", local_label) ∷ ("far/org/big", public_label) ∷ []

-- The first says what it said before; the second goes.
abbrev same_again : Given
same_again = record {
  tier = some "standard";
  hosting = some "on-prem";
  notes = noted " on the shelf ";
  by_actor = none;
  at_time = none;
}

abbrev after_changes : List (String × Label)
after_changes = ("local/m", local_label) ∷ []

abbrev changes : List (String × Entry)
changes = ("local/m", given same_again) ∷ ("far/org/big", null_entry) ∷ []

no_provider :
    apply_label_update two_labels "bob" "2026-02-01" (some (("m", null_entry) ∷ []))
    ≡ err (invalid_model "m")
unfolding apply_label_update is_key label
no_provider = refl

two_labels-AllLabels : AllLabels two_labels
unfolding is_key
two_labels-AllLabels = (
  refl,
  record { tier = refl; hosting = refl; notes = (refl, refl, refl) },
  (refl, record { tier = refl; hosting = refl; notes = tt }, tt),
)

normalize_labels-written_example : normalize_labels (some (written two_labels)) ≡ two_labels
normalize_labels-written_example =
    normalize_labels-written two_labels two_labels-AllLabels (refl, (refl, tt))
