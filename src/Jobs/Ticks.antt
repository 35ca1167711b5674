-- ===== src/Jobs/Ticks.antt =====
-- graph-rag/src/server.js: the background passes over the queue (`expireLeases`, `wakeIdleWaiting`,
-- `workerTick`).
--
-- `run_job` is what running a job comes to: `none`, or the error that it throws.
use gwarestrin.Base.{
  ℕ, ◌+◌, ◌-◌, ◌*◌, ◌^◌, String, Bool, false, ◌&&◌, Option, none, some, List, [], ◌∷◌,
  if◌then◌else◌, ltb, leb, eqb, length, filter, sort,
}
use gwarestrin.Delegation.Texts.{take_text}
use gwarestrin.Jobs.{
  pending, running, done, failed, is_pending, is_running, is_waiting, is_review, is_mentions,
  Resume, decided, handled, Job, Store, update_where, take, update_job, job_before,
}
use gwarestrin.Jobs.Threads.{open_questions, open_writes, resume_thread, can_start}

abbrev pub lease_over : ℕ → Option ℕ → Bool
lease_over now none = false
lease_over now (some t) = ltb t now

abbrev pub is_quiet : ℕ → Job → Bool
is_quiet now j = is_review j.kind && (is_running j.status && lease_over now j.lease_until)

abbrev pub give_up_quiet : ℕ → Job → Job
give_up_quiet now j = record j {
  status = failed;
  error = "the thread stopped reporting";
  updated_at = now;
}

abbrev pub run_again : ℕ → Job → Job
run_again now j = record j {
  status = pending;
  attempts = j.attempts + 1;
  error = "the thread stopped reporting";
  updated_at = now;
}

-- A thread whose workspace went quiet past its lease runs again, three times at most.
unfoldable pub expire_leases : ℕ → List Job → List Job
expire_leases now jobs =
    update_where (is_quiet now) (run_again now)
      (update_where (λ j. is_quiet now j && leb 2 j.attempts) (give_up_quiet now) jobs)

abbrev pub left_waiting : ℕ → Job → Bool
left_waiting now j = is_review j.kind && (is_waiting j.status && ltb (j.updated_at + 600000) now)

abbrev pub handled_message : Resume
handled_message =
    decided "your last proposal" handled
      "nothing of yours is waiting any more: check what's in place now and finish." none

abbrev pub wake_one : ℕ → Job → Store → Store
wake_one now j st =
    if eqb (open_questions j.id st) 0 && eqb (open_writes j.id st) 0
    then resume_thread now j.id handled_message st
    else st

abbrev pub wake_each : ℕ → List Job → Store → Store
wake_each now [] st = st
wake_each now (j ∷ js) st = wake_each now js (wake_one now j st)

-- A thread left waiting with nothing open carries on.
unfoldable pub wake_idle_waiting : ℕ → Store → Store
wake_idle_waiting now st = wake_each now (take 50 (filter (left_waiting now) st.jobs)) st

-- An error of a job: `later` puts it off and keeps its tries, until `until` if that is given.
pub record JobError : Type 0 where
  pub message : String
  pub later : Bool
  pub until : Option ℕ

abbrev wait_until : ℕ → Option ℕ → ℕ
wait_until now none = 3600000
wait_until now (some t) = if ltb (t - now) 30000 then 30000 else t - now

abbrev pub tries_after : JobError → Job → ℕ
tries_after e j = if e.later then j.attempts else j.attempts + 1

abbrev wait_after : ℕ → JobError → ℕ → ℕ
wait_after now e attempts = if e.later then wait_until now e.until else 30000 * 4 ^ attempts

abbrev pub put_back : ℕ → JobError → ℕ → Job → Job
put_back now e attempts j = record j {
  status = if leb 5 attempts then failed else pending;
  attempts = attempts;
  run_after = now + wait_after now e attempts;
  error = take_text 300 e.message;
  updated_at = now;
}

abbrev finish_job : ℕ → Job → Job
finish_job now j = record j { status = done; updated_at = now }

abbrev run_start : ℕ → Job → Job
run_start now j = record j { status = running; updated_at = now }

module _ (run_job : Job → Option JobError) (now : ℕ) where
  abbrev pub run_each : List Job → List Job → List Job
  run_each [] jobs = jobs
  run_each (j ∷ due) jobs =
      let skip = run_each due jobs in
      let started = update_where (can_start j.id) (run_start now) jobs in
      let ended = run_each due (update_job j.id (finish_job now) started) in
      let back = λ (e : JobError). update_job j.id (put_back now e (tries_after e j)) started in
      let tried = λ (e : JobError). run_each due (back e) in
      if eqb (length (filter (can_start j.id) jobs)) 1
      then elim (run_job j) [ none ↦ ended | some e ↦ if e.later then back e else tried e ]
      else skip

  -- `ready` is what the tick asks first: the worker is on and set up, and its models are not paused.
  unfoldable pub worker_tick : Bool → List Job → List Job
  worker_tick ready jobs =
      if ready
      then run_each
          (take 3 (
            sort job_before (
              filter (λ j. is_pending j.status && (is_mentions j.kind && leb j.run_after now))
                jobs)))
          jobs
      else jobs
