-- ===== src/Health/Loops.antt =====
-- graph-rag/src/health.js: `createLoops`, how the background loops report. An operation returns the
-- new state and what it writes to the log.
use Prim.Native.String.{◌++◌ as append}
use gwarestrin.Base.{
  ℕ, ◌+◌, String, ◌≡◌, refl, Bool, true, false, Option, none, some, List, [], ◌∷◌, arith, ◌==◌,
  eq_refl, if◌then◌else◌, lookup, insert, lookup-insert,
}
use gwarestrin.Health.{or_now}
use gwarestrin.Delegation.Texts.{take_text}

pub record Loop : Type 0 where
  pub ok_at : Option ℕ
  pub failing : Bool
  pub since : Option ℕ
  pub error : String
  pub count : ℕ

abbrev pub Loops : Type 0
Loops = List (String × Loop)

pub data Line : Type 0 where
  info warn : String → Line

abbrev pub new_loop : Loop
new_loop = record { ok_at = none; failing = false; since = none; error = ""; count = 0 }

abbrev loop_or_new : Option Loop → Loop
loop_or_new none = new_loop
loop_or_new (some l) = l

abbrev pub get_loop : String → Loops → Loop
get_loop name loops = loop_or_new (lookup name loops)

module _ (show : ℕ → String) where
  unfoldable pub ran : ℕ → String → Loops → List Line × Loops
  ran now name loops =
      let l = get_loop name loops in
      (
        (if l.failing
            then info
                (append name (append " recovered after " (append (show l.count) " failed run(s)")))
              ∷ []
            else []),
        insert name
            (record { ok_at = some now; failing = false; since = none; error = ""; count = 0 })
            loops,
      )

unfoldable pub failed : ℕ → String → String → Loops → List Line × Loops
failed now name message loops =
    let l = get_loop name loops in
    let error = take_text 300 message in
    (
      (if error == l.error
          then []
          else warn (append name (append " failed: " (take_text 200 error))) ∷ []),
      insert name
          (record l {
            failing = true;
            since = some (or_now l.since now);
            error = error;
            count = l.count + 1;
          })
          loops,
    )

-- One pass of a loop: `none` is a run that ended well, `some message` one that threw.
unfoldable pub run : (ℕ → String) → ℕ → String → Option String → Loops → List Line × Loops
unfolding ran failed
run show now name none loops = ran show now name loops
run show now name (some message) loops = failed now name message loops

pub data LoopReport : Type 0 where
  fine : Option ℕ → LoopReport
  failing_since : Option ℕ → (failures : ℕ) → (error : String) → LoopReport

abbrev report_loop : Loop → LoopReport
report_loop l = if l.failing then failing_since l.since l.count l.error else fine l.ok_at

unfoldable pub loops_status : Loops → List (String × LoopReport)
loops_status [] = []
loops_status ((n, l) ∷ ls) = (n, report_loop l) ∷ loops_status ls

-- A second failure in a row for the same reason is not logged again, is counted, and leaves the time
-- since when the loop fails as it was.
pub failed-failed :
    (now later : ℕ) (name message : String) (loops : Loops)
    → let once = (failed now name message loops).1 in
      let twice = failed later name message once in
      (twice.0 ≡ [])
      × ((get_loop name twice.1).count ≡ (get_loop name loops).count + 2)
      × ((get_loop name twice.1).since ≡ (get_loop name once).since)
      × ((get_loop name twice.1).failing ≡ true)
unfolding failed
failed-failed now later name message loops =
    simp (lookup-insert, eq_refl) (refl, omega arith, refl, refl)

-- After a run that ended well the loop is no longer failing, whatever came before, and a failure is
-- the first of its kind again.
pub failed-ran :
    (show : ℕ → String) (now later : ℕ) (name message : String) (loops : Loops)
    → let after = (failed later name message (ran show now name loops).1).1 in
      ((get_loop name after).count ≡ 1)
      × ((get_loop name after).since ≡ some later)
      × ((get_loop name after).ok_at ≡ some now)
unfolding failed ran
failed-ran show now later name message loops = simp (lookup-insert, eq_refl) (refl, refl, refl)
