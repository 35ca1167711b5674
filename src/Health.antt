-- ===== src/Health.antt =====
-- graph-rag/src/health.js: which dependencies are paused after failures, and how the background loops
-- report. The clock (`now`) is an argument of each operation, an instant in milliseconds; an ISO date
-- in the state is its instant. `show` prints a status number.
pub mod Pauses
pub mod Loops
mod Examples
use Prim.Native.String.{String, ◌++◌ as append}
use gwarestrin.Base.{
  ℕ, zero, suc, ◌+◌, ◌*◌, ◌≡◌, Bool, true, false, not, ◌&&◌, ◌||◌, Option, none, some, List, [],
  ◌∷◌, ◌==◌, if◌then◌else◌, ltb, leb, eqb, any, lookup, insert,
}
use Prim.Native.Nat.{min}
use gwarestrin.Dates.{codes}
use gwarestrin.Delegation.Texts.{take_text}

-- A thrown error: its `outage` mark, its name, its message (or the error as a text) and its cause's code.
pub record Failure : Type 0 where
  pub outage : Bool
  pub name : String
  pub message : String
  pub code : String

-- The pattern has the flag `i`: ASCII letters are compared in lower case.
abbrev lower : ℕ → ℕ
lower c = if leb b'A' c && leb c b'Z' then c + 32 else c

abbrev starts : List ℕ → List ℕ → Bool
starts [] s = true
starts (p ∷ ps) [] = false
starts (p ∷ ps) (c ∷ s) = eqb (lower p) (lower c) && starts ps s

abbrev mentions : List ℕ → List ℕ → Bool
mentions p [] = starts p []
mentions p (c ∷ s) = starts p (c ∷ s) || mentions p s

abbrev pub network_errors : List String
network_errors =
    "fetch failed" ∷ "ECONNREFUSED" ∷ "ECONNRESET" ∷ "ENOTFOUND" ∷ "EAI_AGAIN" ∷ "ETIMEDOUT"
    ∷ "socket hang up" ∷ []

abbrev pub is_outage_status : ℕ → Bool
is_outage_status s = eqb s 402 || eqb s 408 || eqb s 429 || leb 500 s

unfoldable pub is_outage_error : Failure → Bool
is_outage_error e =
    e.outage
    || (e.name == "TimeoutError" || e.name == "AbortError")
    || any (λ p. mentions (codes p) (codes (append e.message (append " " e.code)))) network_errors

-- `isOutage(status ?? err)`
abbrev pub is_outage : Option ℕ → Failure → Bool
is_outage (some s) e = is_outage_status s
is_outage none e = is_outage_error e

abbrev pub first_pause : ℕ
first_pause = 60000

abbrev pub max_pause : ℕ
max_pause = 15 * 60000

pub record Dep : Type 0 where
  pub down_since : Option ℕ
  pub until : ℕ
  pub pause : ℕ
  pub reason : String
  pub failures : ℕ
  pub ok_at : Option ℕ

abbrev pub Deps : Type 0
Deps = List (String × Dep)

abbrev pub fresh_dep : Dep
fresh_dep = record {
  down_since = none;
  until = 0;
  pause = 0;
  reason = "";
  failures = 0;
  ok_at = none;
}

abbrev pub dep_or_fresh : Option Dep → Dep
dep_or_fresh none = fresh_dep
dep_or_fresh (some d) = d

-- `get(dep)`
abbrev pub get : String → Deps → Dep
get dep deps = dep_or_fresh (lookup dep deps)

unfoldable pub ok_dep : ℕ → Dep → Dep
ok_dep now d = record d { down_since = none; until = 0; pause = 0; reason = ""; ok_at = some now }

unfoldable pub report_ok : ℕ → String → Deps → Deps
unfolding ok_dep
report_ok now dep deps = insert dep (ok_dep now (get dep deps)) deps

abbrev pub or_now : Option ℕ → ℕ → ℕ
or_now none now = now
or_now (some t) now = t

abbrev pub next_pause : ℕ → ℕ
next_pause p = min max_pause (if eqb p 0 then first_pause else p * 2)

-- The entry after an outage.
unfoldable pub fail_dep : ℕ → String → Dep → Dep
fail_dep now reason d = record d {
  down_since = some (or_now d.down_since now);
  until = now + next_pause d.pause;
  pause = next_pause d.pause;
  reason = reason;
  failures = d.failures + 1;
}

pub record Outage : Type 0 where
  pub dep : String
  pub reason : String
  pub until : ℕ

module _ (show : ℕ → String) where
  abbrev status_note : ℕ → String
  status_note s =
      if eqb s 402 then " (out of credit)" else if eqb s 429 then " (rate-limited)" else ""

  abbrev pub reason_of : Option ℕ → Failure → String
  reason_of (some zero) e = take_text 120 e.message
  reason_of (some (suc s)) e = append "HTTP " (append (show (suc s)) (status_note (suc s)))
  reason_of none e = take_text 120 e.message

  -- The outage to throw, if the failure is one, and the new state.
  unfoldable pub report_failure : ℕ → String → Failure → Option ℕ → Deps → Option Outage × Deps
  unfolding fail_dep
  report_failure now dep e status deps =
      if is_outage status e
      then (
        some (record {
          dep = dep;
          reason = reason_of status e;
          until = now + next_pause (get dep deps).pause;
        }),
        insert dep (fail_dep now (reason_of status e) (get dep deps)) deps,
      )
      else (none, deps)

abbrev since_some : Option ℕ → Bool
since_some none = false
since_some (some t) = true

unfoldable pub is_down : ℕ → Dep → Bool
is_down now d = since_some d.down_since && ltb now d.until

abbrev down_in : ℕ → Option Dep → Bool
down_in now none = false
down_in now (some d) = is_down now d

unfoldable pub down : ℕ → String → Deps → Bool
unfolding is_down
down now dep deps = down_in now (lookup dep deps)

abbrev outage_in : ℕ → String → Option Dep → Option Outage
outage_in now dep none = none
outage_in now dep (some d) =
    if is_down now d then some (record { dep = dep; reason = d.reason; until = d.until }) else none

unfoldable pub outage : ℕ → String → Deps → Option Outage
unfolding is_down
outage now dep deps = outage_in now dep (lookup dep deps)

pub data Report : Type 0 where
  fine : Option ℕ → Report
  out : (since : ℕ) (reason : String) (retry_at : ℕ) → Report

abbrev report_dep : Dep → Report
report_dep d = elim d.down_since [ none ↦ fine d.ok_at | some t ↦ out t d.reason d.until ]

unfoldable pub status : Deps → List (String × Report)
status [] = []
status ((k, d) ∷ ds) = (k, report_dep d) ∷ status ds
