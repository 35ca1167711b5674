-- ===== src/Pruning/Counts.antt =====
-- graph-rag/src/prune.js: what the preview counts.
use gwarestrin.Base.{
  ℕ, ◌+◌, ◌≤◌, ◌≡◌, refl, ap, ◌∙◌, Bool, false, List, [], ◌∷◌, arith, eqb, length, sort,
  insert_sorted,
}
use gwarestrin.Pruning.{Days, count_day, count_days, count_due, pruned_on, preview}

abbrev pub total : Days → ℕ
total [] = 0
total ((d, n) ∷ by_day) = n + total by_day

total-count_day : (d : ℕ) (by_day : Days) → total (count_day d by_day) ≡ total by_day + 1
total-count_day d [] = refl
total-count_day d ((e, n) ∷ by_day) = ground (arith, total-count_day d by_day)

total-count_days :
    (after_days now : ℕ) (expired : List ℕ) (by_day : Days)
    → total (count_days after_days now expired by_day) ≡ length expired + total by_day
total-count_days after_days now [] by_day = omega arith
total-count_days after_days now (until ∷ expired) by_day =
    let step = total-count_day (pruned_on after_days now until) by_day in
    let later =
      total-count_days after_days now expired (count_day (pruned_on after_days now until) by_day) in
    omega arith

total-insert_sorted :
    (before : ℕ × ℕ → ℕ × ℕ → Bool) (x : ℕ × ℕ) (by_day : Days)
    → total (insert_sorted before x by_day) ≡ x.1 + total by_day
total-insert_sorted before x [] = refl
total-insert_sorted before x (y ∷ by_day) = ground (arith, total-insert_sorted before x by_day)

total-sort :
    (before : ℕ × ℕ → ℕ × ℕ → Bool) (by_day : Days) → total (sort before by_day) ≡ total by_day
total-sort before [] = refl
total-sort before (x ∷ by_day) =
    total-insert_sorted before x (sort before by_day) ∙ ap (λ n. x.1 + n) (total-sort before by_day)

count_due_le :
    (after_days now : ℕ) (expired : List ℕ) → count_due after_days now expired ≤ length expired
count_due_le after_days now [] = omega arith
count_due_le after_days now (until ∷ expired) = ground (arith, count_due_le after_days now expired)

-- While pruning is on, the days of the preview count every waiting entry once, and no more are due than
-- wait.
pub preview_counts :
    (expired : List ℕ) (after_days now : ℕ)
    → 1 ≤ after_days
    → (total (preview expired after_days now).days ≡ length expired)
      × ((preview expired after_days now).due ≤ (preview expired after_days now).waiting)
unfolding preview
preview_counts expired after_days now on =
    let off : eqb after_days 0 ≡ false = ground arith in
    rw off (
      total-sort _ (count_days after_days now expired [])
          ∙ total-count_days after_days now expired []
          ∙ omega arith,
      count_due_le after_days now expired,
    )
