-- ===== src/Jobs/Threads/Turns.antt =====
-- graph-rag/src/server.js: a thread gets its agent, and ends its turn (`threadAgent`, `finishThread`).
use gwarestrin.Base.{
  ℕ, ◌+◌, ◌*◌, String, Bool, true, false, not, ◌&&◌, ◌||◌, Option, none, some, List, [], ◌∷◌, ◌++◌,
  ◌==◌, if◌then◌else◌, ltb, leb, eqb, length, filter, Result, ok, err,
}
use gwarestrin.Dates.{codes, is_digit}
use gwarestrin.Health.{Outage, Failure, report_failure, report_ok}
use gwarestrin.Delegation.Texts.{take_text, is_job_id}
use gwarestrin.Jobs.{
  Status, pending, waiting, done, failed, is_review, Resume, Task, Payload, Job, Ask, open_ask,
  Question, Write, undecided, Signal, done_signal, stopped, Store, Settings, update_where,
  update_job, review_of,
}
use gwarestrin.Jobs.Threads.Claiming.{model_dep}

pub data ThreadError : Type 0 where
  invalid_job no_thread : ThreadError

abbrev is_name_char : ℕ → Bool
is_name_char c =
    is_digit c
    || (leb b'a' c && leb c b'z')
    || (leb b'A' c && leb c b'Z')
    || eqb c b'_'
    || eqb c b'-'

abbrev all_chars : (ℕ → Bool) → List ℕ → Bool
all_chars p [] = true
all_chars p (c ∷ s) = p c && all_chars p s

-- `/^[\w-]{1,80}$/`
abbrev pub is_agent_id : String → Bool
is_agent_id s =
    leb 1 (length (codes s)) && (leb (length (codes s)) 80 && all_chars is_name_char (codes s))

unfoldable pub thread_agent : String → String → ℕ → Store → Result ThreadError Store
thread_agent job_id agent now st =
    if is_job_id job_id && is_agent_id agent
    then ok (record st {
      jobs =
          update_where (λ j. j.id == job_id && is_review j.kind)
            (λ j. record j { agent_id = some agent; updated_at = now }) st.jobs;
    })
    else err invalid_job

abbrev pub max_outage_deferrals : ℕ
max_outage_deferrals = 6

-- How a turn ended, as its workspace reports it; `outage` says that the model was out.
pub record Report : Type 0 where
  pub failed : Bool
  pub summary : String
  pub outage : Option String

abbrev pub is_asked : Ask → Bool
is_asked open_ask = true
is_asked _ = false

abbrev pub asked_in : String → Question → Bool
asked_in job q = q.job_id == job && is_asked q.state

abbrev pub open_questions : String → Store → ℕ
open_questions job st = length (filter (asked_in job) st.questions)

abbrev pub for_thread : String → Option String → Bool
for_thread job none = false
for_thread job (some j) = j == job

abbrev pub proposed_in : String → Write → Bool
proposed_in job w = for_thread job w.job && undecided w.state

abbrev pub open_writes : String → Store → ℕ
open_writes job st = length (filter (proposed_in job) st.writes)

-- Open questions and undecided proposals of a thread.
abbrev pub open_items : String → Store → ℕ
open_items job st = open_questions job st + open_writes job st

abbrev pub out_of_model : String → Failure
out_of_model message = record {
  outage = true;
  name = "";
  message = take_text 120 message;
  code = "";
}

abbrev pub names_outage : Option String → Bool
names_outage none = false
names_outage (some s) = not (s == "")

abbrev pub is_outage_report : Report → Payload → Bool
is_outage_report r p = r.failed && (names_outage r.outage && ltb p.outages max_outage_deferrals)

abbrev text_or : Option String → String
text_or none = ""
text_or (some s) = s

abbrev until_or : ℕ → Option Outage → ℕ
until_or t none = t
until_or t (some out) = out.until

abbrev pub put_off : ℕ → String → ℕ → Job → Job
put_off now summary until j = record j {
  status = pending;
  summary = take_text 4000 summary;
  payload = record j.payload { outages = j.payload.outages + 1 };
  run_after = until;
  updated_at = now;
}

pub data NextStep : Type 0 where
  next : Status → NextStep
  outage_wait : NextStep

abbrev pub first_of : List Resume → Option Resume
first_of [] = none
first_of (r ∷ rs) = some r

abbrev pub rest_of : List Resume → List Resume
rest_of [] = []
rest_of (r ∷ rs) = rs

-- The message that came first while the thread ran, unless its turn failed.
abbrev pub queued_message : Bool → Payload → Option Resume
queued_message did_fail p = if did_fail then none else first_of p.next_resume

abbrev pub payload_after : Bool → Payload → Payload
payload_after did_fail p = record p {
  outages = if did_fail then p.outages else 0;
  resume = queued_message did_fail p;
  next_resume = if did_fail then p.next_resume else rest_of p.next_resume;
}

abbrev pub after_turn : Option Resume → ℕ → Status
after_turn (some r) items = pending
after_turn none items = if eqb items 0 then done else waiting

abbrev pub status_after : Bool → ℕ → Payload → ℕ → Status
status_after did_fail attempts p items =
    if did_fail
    then (if leb 3 attempts then failed else pending)
    else after_turn (queued_message did_fail p) items

abbrev pub attempts_after : Bool → Job → ℕ
attempts_after did_fail j = if did_fail then j.attempts + 1 else j.attempts

abbrev pub end_turn : ℕ → Report → ℕ → Job → Job
end_turn now r items j = record j {
  status = status_after r.failed (attempts_after r.failed j) j.payload items;
  attempts = attempts_after r.failed j;
  summary = take_text 4000 r.summary;
  payload = payload_after r.failed j.payload;
  run_after = now + (if r.failed then 120000 * attempts_after r.failed j else 0);
  updated_at = now;
}

-- The row after the turn of the thread that was read.
abbrev pub settled : ℕ → Report → ℕ → Job → Job → Job
settled now r items j x =
    let after = end_turn now r items j in
    record x {
      status = after.status;
      attempts = after.attempts;
      summary = after.summary;
      payload = after.payload;
      run_after = after.run_after;
      updated_at = now;
    }

abbrev title_of : Option Task → String
title_of none = "a worker"
title_of (some t) = t.title

-- What the master hears: its worker is done, or stopped.
abbrev pub signal_of : Job → Status → String → List Signal
signal_of j done summary = done_signal j.id (title_of j.payload.task) (take_text 2000 summary) ∷ []
signal_of j waiting summary = stopped j.id (title_of j.payload.task) false ∷ []
signal_of j failed summary = stopped j.id (title_of j.payload.task) true ∷ []
signal_of j _ summary = []

abbrev pub signals_for : Job → Status → String → List Signal
signals_for j s summary = if j.payload.to_master then signal_of j s summary else []

module _ (show : ℕ → String) (ws : Settings) (now : ℕ) where
  abbrev pub defer : String → Report → Job → Store → NextStep × Store
  defer id r j st =
      let (out, deps) =
        report_failure show now (model_dep ws) (out_of_model (text_or r.outage)) none st.deps in
      (
        outage_wait,
        record st {
          jobs =
              update_job id
                (λ x.
                  put_off now r.summary (until_or (now + 60000) out)
                    (record x { payload = j.payload }))
                st.jobs;
          deps = deps;
        },
      )

  abbrev pub settle_turn : String → Report → Job → Store → NextStep × Store
  settle_turn id r j st =
      let after = end_turn now r (open_items id st) j in
      (
        next after.status,
        record st {
          jobs = update_job id (settled now r (open_items id st) j) st.jobs;
          signals = st.signals ++ signals_for j after.status r.summary;
          deps = if r.failed then st.deps else report_ok now (model_dep ws) st.deps;
        },
      )

  -- The thread ended its turn.
  unfoldable pub finish_thread : String → Report → Store → Result ThreadError (NextStep × Store)
  finish_thread id r st =
      if is_job_id id
      then elim (review_of id st.jobs) [
        | none ↦ err no_thread
        | some j ↦
            ok (if is_outage_report r j.payload then defer id r j st else settle_turn id r j st)
      ]
      else err invalid_job
