-- ===== src/Jobs/Threads/Messages.antt =====
-- graph-rag/src/server.js: a message to a thread (`resumeThread`).
use gwarestrin.Base.{
  ℕ, String, Bool, ◌&&◌, ◌||◌, none, some, List, [], ◌∷◌, ◌++◌, ◌==◌, if◌then◌else◌,
}
use gwarestrin.Jobs.{
  pending, is_pending, is_running, is_waiting, is_done, Resume, Payload, Job, Store, update_where,
  last, update_job, review_of,
}

abbrev pub queue_message : Resume → Payload → Payload
queue_message r p = record p { next_resume = last 5 (p.next_resume ++ r ∷ []) }

abbrev pub wake : ℕ → Resume → Payload → Job → Job
wake now r p j = record j {
  status = pending;
  payload = record p { resume = some r };
  priority = 8;
  run_after = now;
  updated_at = now;
}

abbrev pub can_wake : String → Job → Bool
can_wake id j = j.id == id && (is_waiting j.status || is_done j.status)

abbrev pub resume_job : ℕ → Resume → Job → List Job → List Job
resume_job now r found jobs =
    if is_running found.status || is_pending found.status
    then update_job found.id (λ j. record j { payload = queue_message r found.payload }) jobs
    else update_where (can_wake found.id) (wake now r found.payload) jobs

-- Wake a thread that waited: it resumes with this message.
unfoldable pub resume_thread : ℕ → String → Resume → Store → Store
resume_thread now id r st = elim (review_of id st.jobs) [
  | none ↦ st
  | some found ↦ record st { jobs = resume_job now r found st.jobs }
]
