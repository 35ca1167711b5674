-- ===== src/Jobs/Delivery.antt =====
-- graph-rag/src/server.js: a message to a thread whose turn runs.
use Prim.Native.String.{String}
use gwarestrin.Base.{
  ℕ, ◌≡◌, refl, ap, ◌∙◌, true, false, ◌||◌, Option, some, [], ◌∷◌, ◌++◌, arith, ◌==◌, eq_refl, ok,
}
use gwarestrin.Delegation.Texts.{is_job_id}
use gwarestrin.Jobs.{
  Status, pending, running, waiting, done, failed, closed, Resume, Job, Store, Settings, last,
  review_of, is_pending, is_running, is_waiting, is_done,
}
use gwarestrin.Jobs.Updates.{review_of-elem, review_of-update_where}
use gwarestrin.Jobs.Threads.{
  Report, next, resume_thread, wake, can_wake, queue_message, finish_thread, settle_turn, settled,
  end_turn, after_turn, first_of, open_items,
}

not_busy :
    (s : Status) → (is_waiting s || is_done s) ≡ true → (is_running s || is_pending s) ≡ false
not_busy pending h = absurd (cc h)
not_busy running h = absurd (cc h)
not_busy waiting h = refl
not_busy done h = refl
not_busy failed h = refl
not_busy closed h = refl

-- A message to a thread that waits or is done wakes it: the thread is queued, before all that is less
-- urgent, to resume with that message at once.
pub resume_thread-wakes :
    (now : ℕ) (id : String) (r : Resume) (st : Store) (j : Job)
    → review_of id st.jobs ≡ some j
    → (is_waiting j.status || is_done j.status) ≡ true
    → review_of id (resume_thread now id r st).jobs ≡ some (wake now r j.payload j)
unfolding resume_thread
resume_thread-wakes now id r st j e rests =
    let (_, same, _) = review_of-elem id st.jobs j e in
    let can : can_wake j.id j ≡ true = rw (eq_refl j.id, rests) refl in
    rw (resume_thread, e, not_busy j.status rests)
      (review_of-update_where id (can_wake j.id) (wake now r j.payload) (λ x. (refl, refl)) st.jobs
        j e can)

module _ (show : ℕ → String) (ws : Settings) where
  queued_found :
      (now : ℕ) (id : String) (r : Resume) (st : Store) (j : Job)
      → review_of id st.jobs ≡ some j
      → is_running j.status ≡ true
      → review_of id (resume_thread now id r st).jobs
        ≡ some (record j { payload = queue_message r j.payload })
  unfolding resume_thread
  queued_found now id r st j e runs =
      let (_, same, _) = review_of-elem id st.jobs j e in
      rw (resume_thread, e, runs)
        (review_of-update_where id (λ x. x.id == j.id) _ (λ x. (refl, refl)) st.jobs j e
          (eq_refl j.id))

  -- A message to a thread that runs, with no message waiting: when the turn ends, unless it failed,
  -- the thread is queued again at once and resumes with that message.
  pub finish_thread-delivers :
      (now later : ℕ) (id : String) (r : Resume) (summary : String) (outage : Option String)
      (st : Store) (j : Job)
      → is_job_id id ≡ true
      → review_of id st.jobs ≡ some j
      → is_running j.status ≡ true
      → j.payload.next_resume ≡ []
      → (st' : Store) × (j' : Job) × (finish_thread show ws later id
            (record { failed = false; summary = summary; outage = outage })
            (resume_thread now id r st)
          ≡ ok (next pending, st'))
        × (review_of id st'.jobs ≡ some j')
        × (j'.status ≡ pending)
        × (j'.payload.resume ≡ some r)
        × (j'.run_after ≡ later)
  unfolding finish_thread
  finish_thread-delivers now later id r summary outage st j good e runs empty =
      let mid = resume_thread now id r st in
      let report : Report = record { failed = false; summary = summary; outage = outage } in
      let turned = record j { payload = queue_message r j.payload } in
      let found = queued_found now id r st j e runs in
      let items = open_items id mid in
      let only : turned.payload.next_resume ≡ r ∷ [] = ap (λ l. last 5 (l ++ r ∷ [])) empty in
      let st' = (settle_turn show ws later id report turned mid).1 in
      let again : (end_turn later report items turned).status ≡ pending =
        ap (λ l. after_turn (first_of l) items) only in
      (
        st',
        settled later report items turned turned,
        rw (finish_thread, good, found) (ap (λ s. ok (next s, st')) again),
        review_of-update_where id (λ x. x.id == id) (settled later report items turned)
            (λ x. (refl, refl)) mid.jobs turned found
            (ap (λ i. i == id) (review_of-elem id st.jobs j e).1 ∙ eq_refl id),
        again,
        ap first_of only,
        omega arith,
      )
