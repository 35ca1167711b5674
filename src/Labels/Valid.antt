-- ===== src/Labels/Valid.antt =====
-- provisioner/model-labels.mjs: `normalizeLabels` at labels that are valid.
use Prim.Native.String.{String}
use gwarestrin.Base.{
  ◌≡◌, refl, sym, ap, ◌∙◌, Bool, true, false, not, ◌||◌, Option, none, some, List, [], ◌∷◌, ◌++◌,
  ◌==◌, if◌then◌else◌, ltb, length, elem, keys, insert, IsDistinct, ok, arith, inl, inr, Bool-cases,
  eq_iff, text-cases,
}
use mathlib.Core.List.{append-nil, append_assoc}
use gwarestrin.Callers.{trim_text}
use gwarestrin.Dates.{codes}
use gwarestrin.Needs.{units}
use gwarestrin.Labels.{
  tiers, hosting_kinds, Label, Notes, noted, absent, Entry, given, label, is_key, among, read_notes,
  with_tier, with_hosting, keep_label, stored_label, normalize_each, normalize_labels,
}

-- The notes of a label: trimmed, not empty, and not too long.
abbrev GoodNotes : Option String → Type 0
GoodNotes none = Unit
GoodNotes (some s) =
    (trim_text s ≡ s) × ((s == "") ≡ false) × (ltb 500 (length (units (codes s))) ≡ false)

pub record IsLabel (l : Label) : Type 0 where
  pub tier : elem l.tier tiers ≡ true
  pub hosting : elem l.hosting hosting_kinds ≡ true
  pub notes : GoodNotes l.notes

abbrev pub AllLabels : List (String × Label) → Type 0
AllLabels [] = Unit
AllLabels ((key, l) ∷ ls) = (is_key key ≡ true) × IsLabel l × AllLabels ls

-- Labels as they are stored.
abbrev notes_written : Option String → Notes
notes_written none = absent
notes_written (some s) = noted s

abbrev entry_of : Label → Entry
entry_of l = given (record {
  tier = some l.tier;
  hosting = some l.hosting;
  notes = notes_written l.notes;
  by_actor = some l.by_actor;
  at_time = some l.at_time;
})

abbrev pub written : List (String × Label) → List (String × Entry)
written [] = []
written ((key, l) ∷ ls) = (key, entry_of l) ∷ written ls

among-elem :
    (s : String) (names : List String) → elem s names ≡ true → among (some s) names ≡ some s
among-elem s names h = rw (among, h)

read_notes-written :
    (notes : Option String) → GoodNotes notes → read_notes (notes_written notes) ≡ some notes
read_notes-written none h = refl
read_notes-written (some s) (t, e, f) = rw (read_notes, f, t, e)

stored_label-entry_of :
    (key : String) (l : Label) → IsLabel l → stored_label key (entry_of l) ≡ ok l
unfolding label
stored_label-entry_of key l v = rw (
  among-elem l.tier tiers v.tier,
  with_tier,
  among-elem l.hosting hosting_kinds v.hosting,
  with_hosting,
  read_notes-written l.notes v.notes,
)

insert-fresh :
    (key : String) (l : Label) (out : List (String × Label))
    → elem key (keys out) ≡ false
    → insert key l out ≡ out ++ (key, l) ∷ []
insert-fresh key l [] h = refl
insert-fresh key l ((k, x) ∷ out) h = elim (Bool-cases (key == k)) [
  | inl e ↦ absurd (cc (rw e at h))
  | inr e ↦ rw (insert, e) (ap (λ ls. (k, x) ∷ ls) (insert-fresh key l out (rw e at h)))
]

elem-keys-append :
    (k : String) (a b : List (String × Label))
    → elem k (keys (a ++ b)) ≡ (elem k (keys a) || elem k (keys b))
elem-keys-append k [] b = refl
elem-keys-append k ((j, l) ∷ a) b = ground (arith, elem-keys-append k a b)

-- None of the keys stands in `out`, nor twice.
abbrev Fresh : List (String × Label) → List (String × Label) → Type 0
Fresh out [] = Unit
Fresh out ((key, l) ∷ ls) = (elem key (keys out) ≡ false) × Fresh (out ++ (key, l) ∷ []) ls

Fresh-distinct :
    (out ls : List (String × Label))
    → ((k : String) → elem k (keys ls) ≡ true → elem k (keys out) ≡ false)
    → IsDistinct (keys ls)
    → Fresh out ls
Fresh-distinct out [] f d = tt
Fresh-distinct out ((key, l) ∷ ls) f (d, ds) = (
  f key (ground (arith, eq_iff key key)),
  Fresh-distinct (out ++ (key, l) ∷ []) ls
      (λ k h. elim (text-cases k key) [
        | inl same ↦ absurd (cc (h, rw (sym same) at d))
        | inr other ↦
            elem-keys-append k out ((key, l) ∷ [])
            ∙ rw (f k (either (k == key) (elem k (keys ls)) h), other)
      ])
      ds,
)
  where
    either : (a b : Bool) → b ≡ true → (a || b) ≡ true
    either a b h = ground arith

kept_round :
    (key : String) (l : Label) (out : List (String × Label))
    → is_key key ≡ true
    → IsLabel l
    → elem key (keys out) ≡ false
    → (if not (is_key key) then out else keep_label key (stored_label key (entry_of l)) out)
      ≡ out ++ (key, l) ∷ []
kept_round key l out k v f =
    rw k (ap (λ r. keep_label key r out) (stored_label-entry_of key l v) ∙ insert-fresh key l out f)

normalize_each-written :
    (ls out : List (String × Label))
    → AllLabels ls
    → Fresh out ls
    → normalize_each (written ls) out ≡ out ++ ls
normalize_each-written [] out v f = sym (append-nil out)
normalize_each-written ((key, l) ∷ ls) out (k, v, vs) (f, fs) =
    ap (normalize_each (written ls)) (kept_round key l out k v f)
    ∙ normalize_each-written ls (out ++ (key, l) ∷ []) vs fs
    ∙ append_assoc out ((key, l) ∷ []) ls

-- Labels that are valid and stored under different models are read back as they are, in their order.
pub normalize_labels-written :
    (ls : List (String × Label))
    → AllLabels ls
    → IsDistinct (keys ls)
    → normalize_labels (some (written ls)) ≡ ls
unfolding normalize_labels
normalize_labels-written ls v d =
    normalize_each-written ls [] v (Fresh-distinct [] ls (λ k h. refl) d)
