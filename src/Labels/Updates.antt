-- ===== src/Labels/Updates.antt =====
-- provisioner/model-labels.mjs: `applyLabelUpdate`, and what each model's label is then.
use Prim.Native.String.{String}
use gwarestrin.Base.{Option, none, some, List, lookup, Result, ok, err}
use gwarestrin.Labels.{Label, Entry, null_entry, not_object, given, LabelError, label, kept_or_new}

module _ (current : List (String × Label)) (actor now : String) where
  -- A label that is given: the one that stood, if it says the same.
  abbrev of_label : String → Result LabelError Label → Option Label
  of_label k (err e) = none
  of_label k (ok l) = some (kept_or_new (lookup k current) l)

  abbrev of_entry : String → Entry → Option Label
  of_entry k null_entry = none
  of_entry k not_object = none
  of_entry k (given v) = of_label k (label k v actor now)

  -- The label of a model after the update, from its entry in the input, if it has one.
  abbrev pub after_update : String → Option Entry → Option Label → Option Label
  after_update k none before = before
  after_update k (some v) before = of_entry k v
