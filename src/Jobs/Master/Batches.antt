-- ===== src/Jobs/Master/Batches.antt =====
-- graph-rag/src/server.js: what waits for the master, and its batches (`openItems`, `openHandlers`,
-- `masterStatus`, `batchTick`).
use Prim.Native.String.{String, ◌++◌ as append}
use gwarestrin.Base.{
  ℕ, ◌+◌, ◌*◌, Bool, false, not, ◌&&◌, ◌||◌, Option, none, some, List, [], ◌∷◌, ◌++◌, ◌==◌,
  if◌then◌else◌, ltb, leb, length, filter, sort, map,
}
use gwarestrin.Dates.{codes}
use gwarestrin.Delegation.Texts.{is_rid}
use gwarestrin.Jobs.{
  done, is_pending, is_running, is_waiting, is_handler, is_intake, Job, Signal, batch, Store,
  Settings, update_where, take,
}
use gwarestrin.Jobs.Threads.{asked_in, proposed_in}

-- The ids of a stopped thread's open questions and undecided proposals.
abbrev pub open_question_ids : String → Store → List String
open_question_ids job st = map (λ q. q.id) (filter (asked_in job) st.questions)

abbrev pub open_write_ids : String → Store → List String
open_write_ids job st = map (λ w. w.id) (filter (proposed_in job) st.writes)

abbrev pub open_handlers : Store → ℕ
open_handlers st = length (
    filter
      (λ j.
        is_handler j.kind && (is_pending j.status || (is_running j.status || is_waiting j.status)))
      st.jobs)

abbrev pub is_halted : Settings → Store → Bool
is_halted ws st = leb ws.max_handlers (open_handlers st)

abbrev pub is_intake_pending : Job → Bool
is_intake_pending j = is_intake j.kind && is_pending j.status

abbrev older : Job → Job → Bool
older a b = ltb a.created_at b.created_at

abbrev pub next_batch : Settings → Store → List Job
next_batch ws st = take ws.batch_size (sort older (filter is_intake_pending st.jobs))

-- The batch closes at its size, or when its oldest entry has waited long enough.
abbrev pub closes : Settings → ℕ → List Job → Bool
closes ws now [] = false
closes ws now (j ∷ js) =
    leb ws.batch_size (length (j ∷ js)) || leb (j.created_at + ws.batch_minutes * 60000) now

abbrev name_at : (String → Option String) → Option String → Option String
name_at entry_name none = none
name_at entry_name (some rid) = if is_rid (codes rid) then entry_name rid else none

abbrev pub names_of : (String → Option String) → List Job → List String
names_of entry_name [] = []
names_of entry_name (j ∷ js) = elim (name_at entry_name j.payload.rid) [
  | none ↦ names_of entry_name js
  | some name ↦ name ∷ names_of entry_name js
]

abbrev take_in : String → ℕ → Job → List Job → List Job
take_in id now taken jobs =
    update_where (λ j. j.id == taken.id && is_pending j.status)
      (λ j. record j { status = done; summary = append "batch " id; updated_at = now }) jobs

abbrev pub take_all : String → ℕ → List Job → List Job → List Job
take_all id now [] jobs = jobs
take_all id now (t ∷ ts) jobs = take_all id now ts (take_in id now t jobs)

abbrev batch_signal : String → List String → List Signal
batch_signal id [] = []
batch_signal id (n ∷ ns) = batch id (n ∷ ns) ∷ []

abbrev is_on : Settings → Bool
is_on ws = ws.master && ltb 0 ws.pool_size

-- `id` is the new batch's.
unfoldable pub batch_tick : Settings → (String → Option String) → String → ℕ → Store → Store
batch_tick ws entry_name id now st =
    let rows = next_batch ws st in
    if is_on ws && (not (is_halted ws st) && closes ws now rows)
    then record st {
      jobs = take_all id now rows st.jobs;
      signals = st.signals ++ batch_signal id (names_of entry_name rows);
    }
    else st
