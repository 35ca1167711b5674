-- ===== src/Pruning.antt =====
-- graph-rag/src/prune.js: entries past their end are removed for good after a while (`pruneCutoff`,
-- `pruneDate`, `createSink`, `ledgerLine`, `preview`).
--
-- An instant is in milliseconds, an ISO date its number of days; `after_days` that is no number or
-- negative is 0. A sink takes the ids of records and gives those that it accepts.
pub mod Counts
mod Examples
use Prim.Native.Nat.{max}
use Prim.Native.String.{String}
use gwarestrin.Base.{
  ℕ, ◌+◌, ◌-◌, ◌*◌, ◌/◌, ◌≡◌, Bool, true, false, Option, none, some, List, [], ◌∷◌, ◌==◌,
  if◌then◌else◌, ltb, leb, eqb, length, sort,
}
use gwarestrin.Dates.{day}
use gwarestrin.Delegation.Texts.{take_text}

-- Entries that ended before this instant are due; `none` is off.
unfoldable pub prune_cutoff : ℕ → ℕ → Option ℕ
prune_cutoff after_days now = if eqb after_days 0 then none else some (now - after_days * day)

unfoldable pub prune_date : ℕ → ℕ → ℕ
prune_date valid_until after_days = valid_until + after_days * day

pub record Sink : Type 0 where
  pub name : String
  pub keeps : Bool
  pub archive : List String → List String

abbrev discard : Sink
discard = record { name = "discard"; keeps = false; archive = λ rids. rids }

-- `lower` stands for `toLowerCase`; an unknown name gives no sink.
unfoldable pub create_sink : (String → String) → String → Option Sink
create_sink lower name =
    if lower (if name == "" then "discard" else name) == "discard" then some discard else none

pub record PruneRecord : Type 0 where
  pub rid : String
  pub name : Option String
  pub kind : Option String
  pub home : Option String
  pub valid_until : Option ℕ

pub record LedgerLine : Type 0 where
  pub name : String
  pub home : Option String
  pub kind : Option String
  pub valid_until : Option ℕ
  pub pruned_at : ℕ
  pub sink : String
  pub kept : Bool

abbrev text_or : Option String → String
text_or none = ""
text_or (some s) = s

unfoldable pub ledger_line : PruneRecord → Sink → ℕ → LedgerLine
ledger_line r s now = record {
  name = take_text 300 (text_or r.name);
  home = r.home;
  kind = r.kind;
  valid_until = r.valid_until;
  pruned_at = now;
  sink = s.name;
  kept = s.keeps;
}

abbrev pub Days : Type 0
Days = List (ℕ × ℕ)

-- `byDay.set(day, (byDay.get(day) ?? 0) + 1)`
abbrev pub count_day : ℕ → Days → Days
count_day d [] = (d, 1) ∷ []
count_day d ((e, n) ∷ by_day) =
    let rest = count_day d by_day in if eqb d e then (e, n + 1) ∷ by_day else (e, n) ∷ rest

abbrev pub pruned_on : ℕ → ℕ → ℕ → ℕ
pruned_on after_days now until = max (until + after_days * day) now / day

abbrev pub count_days : ℕ → ℕ → List ℕ → Days → Days
count_days after_days now [] by_day = by_day
count_days after_days now (until ∷ expired) by_day =
    count_days after_days now expired (count_day (pruned_on after_days now until) by_day)

abbrev pub count_due : ℕ → ℕ → List ℕ → ℕ
count_due after_days now [] = 0
count_due after_days now (until ∷ expired) =
    let rest = count_due after_days now expired in
    if leb (until + after_days * day) now then rest + 1 else rest

abbrev earlier : ℕ × ℕ → ℕ × ℕ → Bool
earlier a b = ltb a.0 b.0

pub record Preview : Type 0 where
  pub enabled : Bool
  pub waiting : ℕ
  pub due : ℕ
  pub days : Days

-- What is coming (with pruning off there is no `due`, 0 here); `expired` holds the ends of the entries that are past them.
unfoldable pub preview : List ℕ → ℕ → ℕ → Preview
preview expired after_days now =
    if eqb after_days 0
    then record { enabled = false; waiting = length expired; due = 0; days = [] }
    else record {
      enabled = true;
      waiting = length expired;
      due = count_due after_days now expired;
      days = sort earlier (count_days after_days now expired []);
    }
