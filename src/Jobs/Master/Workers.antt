-- ===== src/Jobs/Master/Workers.antt =====
-- graph-rag/src/server.js: the master answers or closes a worker (`answerWorker`, `closeWorker`).
use Prim.Native.String.{String}
use gwarestrin.Base.{ℕ, true, false, ◌&&◌, List, [], ◌∷◌, ◌==◌}
use gwarestrin.Callers.{Caller, Server}
use gwarestrin.Delegation.Texts.{take_text}
use gwarestrin.Jobs.{closed, is_review, replied, Job, Store, update_where}
use gwarestrin.Jobs.Threads.{resume_thread}
use gwarestrin.Jobs.Questions.{answer_questions}
use gwarestrin.Jobs.Proposals.{reject_pending}
use gwarestrin.Jobs.Master.Batches.{open_question_ids, open_write_ids}

-- The master (or a handler) answers a stopped worker, which resumes with the message.
unfoldable pub answer_worker : String → String → String → ℕ → Store → Store
answer_worker job answer by now st =
    let st' = (answer_questions answer false true by now (open_question_ids job st) st).1 in
    resume_thread now job (replied (take_text 3000 answer) by) st'

abbrev pub close_job : ℕ → String → Job → Job
close_job now summary j = record j {
  status = closed;
  summary = take_text 2000 summary;
  updated_at = now;
}

abbrev pub closed_store : ℕ → String → String → Store → Store
closed_store now job summary st = record st {
  jobs = update_where (λ j. j.id == job && is_review j.kind) (close_job now summary) st.jobs;
}

module _ (sv : Server) (c : Caller) (now : ℕ) where
  abbrev pub reject_all : List String → Store → Store
  reject_all [] st = st
  reject_all (id ∷ ids) st =
      reject_all ids (reject_pending sv c now "closed by the master" false id st).1

  -- The master closes a worker that it won't pursue.
  unfoldable pub close_worker : String → String → Store → Store
  close_worker job summary st =
      let st1 = closed_store now job summary st in
      reject_all (open_write_ids job st1)
        (answer_questions "" true false c.user now (open_question_ids job st1) st1).1
