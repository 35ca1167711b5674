-- ===== src/Health/Pauses.antt =====
-- graph-rag/src/health.js: how long a failed dependency is paused.
use Prim.Native.Nat.{min}
use native.Mathlib.Nat.{pow-suc}
use gwarestrin.Base.{
  ℕ, zero, suc, ◌+◌, ◌*◌, ◌^◌, ◌≤◌, String, ◌≡◌, refl, ap, ◌∙◌, not, ◌&&◌, Option, some, List, [],
  ◌∷◌, arith, ◌==◌, if◌then◌else◌, ltb, lookup-insert, is_some,
}
use gwarestrin.Health.{
  Failure, Dep, Deps, get, ok_dep, fail_dep, report_ok, report_failure, is_outage, first_pause,
  max_pause, next_pause, down, outage, or_now, reason_of,
}

-- One outage after another, at these instants.
abbrev pub fail_all : String → List ℕ → Dep → Dep
fail_all reason [] d = d
fail_all reason (t ∷ ts) d = fail_all reason ts (fail_dep t reason d)

abbrev pub length : List ℕ → ℕ
length [] = 0
length (t ∷ ts) = suc (length ts)

two_pow_pos : (k : ℕ) → 1 ≤ 2 ^ k
two_pow_pos zero = omega arith
two_pow_pos (suc k) = omega (arith, two_pow_pos k, pow-suc 2 k)

-- The pause after `k` outages in a row.
abbrev pub pause_after : ℕ → ℕ
pause_after zero = 0
pause_after (suc k) = min max_pause (first_pause * 2 ^ k)

next-pause_after : (k : ℕ) → next_pause (pause_after k) ≡ pause_after (suc k)
next-pause_after zero = refl
next-pause_after (suc k) = ground (arith, two_pow_pos k, pow-suc 2 k)

fail_all-from :
    (reason : String) (ts : List ℕ) (d : Dep) (k : ℕ)
    → d.pause ≡ pause_after k
    → (fail_all reason ts d).pause ≡ pause_after (length ts + k)
unfolding fail_dep
fail_all-from reason [] d k e = e ∙ ap pause_after (omega arith)
fail_all-from reason (t ∷ ts) d k e =
    fail_all-from reason ts (fail_dep t reason d) (suc k) (ap next_pause e ∙ next-pause_after k)
    ∙ ap pause_after (omega arith)

fail_all-since :
    (reason : String) (ts : List ℕ) (d : Dep) (t : ℕ)
    → d.down_since ≡ some t
    → (fail_all reason ts d).down_since ≡ some t
unfolding fail_dep
fail_all-since reason [] d t e = e
fail_all-since reason (u ∷ ts) d t e =
    fail_all-since reason ts (fail_dep u reason d) t (ap (λ o. some (or_now o u)) e)

fail_all-failures :
    (reason : String) (ts : List ℕ) (d : Dep)
    → (fail_all reason ts d).failures ≡ d.failures + length ts
unfolding fail_dep
fail_all-failures reason [] d = omega arith
fail_all-failures reason (t ∷ ts) d =
    omega (arith, fail_all-failures reason ts (fail_dep t reason d))

-- A dependency that answered last and then fails with outages in a row: the pause is a minute after
-- the first and doubles with each further one up to a quarter of an hour; the outage counts from the
-- first of them, and the failures are counted on.
pub outages_in_a_row :
    (reason : String) (ok_at t : ℕ) (ts : List ℕ) (d : Dep)
    → let after = fail_all reason (t ∷ ts) (ok_dep ok_at d) in
      (after.pause ≡ min max_pause (first_pause * 2 ^ length ts))
      × (after.down_since ≡ some t)
      × (after.failures ≡ d.failures + suc (length ts))
unfolding ok_dep fail_dep
outages_in_a_row reason ok_at t ts d = (
  fail_all-from reason (t ∷ ts) (ok_dep ok_at d) zero refl
      ∙ ap pause_after (let e : suc (length ts) + zero ≡ suc (length ts) = omega arith in e),
  fail_all-since reason ts (fail_dep t reason (ok_dep ok_at d)) t refl,
  fail_all-failures reason (t ∷ ts) (ok_dep ok_at d),
)

-- Reporting a failure pauses only the dependency that failed, and only if the failure is an outage:
-- then it is down until the next pause from now is over, and everything else stays as it was.
pub down-report_failure :
    (show : ℕ → String) (now : ℕ) (dep : String) (e : Failure) (status : Option ℕ) (deps : Deps)
    (later : ℕ) (other : String)
    → down later other (report_failure show now dep e status deps).1 ≡ (
        if is_outage status e && other == dep
        then ltb later (now + next_pause (get dep deps).pause)
        else down later other deps)
unfolding down report_failure
down-report_failure show now dep e status deps later other =
    ground
      (arith, lookup-insert dep other (fail_dep now (reason_of show status e) (get dep deps)) deps)

-- A report that a dependency answered ends its pause and no other.
pub down-report_ok :
    (now : ℕ) (dep : String) (deps : Deps) (later : ℕ) (other : String)
    → down later other (report_ok now dep deps) ≡ (not (other == dep) && down later other deps)
unfolding down report_ok
down-report_ok now dep deps later other =
    ground (arith, lookup-insert dep other (ok_dep now (get dep deps)) deps)

-- A call is refused ahead of time, with the outage to throw, exactly while the dependency is down.
pub outage-eq-down :
    (now : ℕ) (dep : String) (deps : Deps) → is_some (outage now dep deps) ≡ down now dep deps
unfolding outage down
outage-eq-down now dep deps = ground arith
