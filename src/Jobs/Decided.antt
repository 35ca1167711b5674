-- ===== src/Jobs/Decided.antt =====
-- graph-rag/src/server.js: the tries of threads under answers, decisions and the master's calls.
use Prim.Native.String.{String}
use gwarestrin.Base.{
  ℕ, ◌≡◌, refl, subst, inl, inr, Bool, true, false, ◌&&◌, ◌||◌, Option, none, some, List, [], ◌∷◌,
  arith, ◌==◌, eqb, length, find, Bool-cases, Option-cases, &&-eq-true,
}
use gwarestrin.Callers.{Caller, Server}
use gwarestrin.Delegation.Texts.{take_text}
use gwarestrin.Jobs.{
  Status, done, closed, Store, Write, Question, Decision, replied, is_waiting, is_review,
}
use gwarestrin.Jobs.Tries.{
  fits_in, is_over, WithinTries, update_where-WithinTries, resume_thread-WithinTries, at_rest,
}
use gwarestrin.Jobs.Threads.{is_asked, open_questions}
use gwarestrin.Jobs.Questions.{
  after_settling, settled_store, close_if_idle, answer_one, answer_questions, is_uuid,
}
use gwarestrin.Jobs.Proposals.{
  tell, carry_out, approve_pending, reject_pending, pending_write, one_pending, may_review,
}
use gwarestrin.Jobs.Master.{
  answer_worker, close_worker, reject_all, close_job, closed_store, open_question_ids,
  open_write_ids,
}

moved-fits :
    (m o a : ℕ) (s s' : Status)
    → is_over s ≡ false
    → fits_in m o s a ≡ true
    → fits_in m o s' a ≡ true
moved-fits m o a s s' k h = ground arith

closed-fits : (m o a : ℕ) (s : Status) → fits_in m o s a ≡ true → fits_in m o closed a ≡ true
closed-fits m o a s h = ground arith

close_if_idle-WithinTries :
    (now : ℕ) (job : String) (st : Store)
    → WithinTries st.jobs
    → WithinTries (close_if_idle now job st).jobs
close_if_idle-WithinTries now job st h = elim (Bool-cases (eqb (open_questions job st) 0)) [
  | inl idle ↦ rw idle (
      update_where-WithinTries (λ j. j.id == job && is_waiting j.status) _ (λ j. (refl, refl))
        st.jobs
        (λ j rests fit.
          moved-fits (length j.payload.next_resume) j.payload.outages j.attempts j.status done
            (at_rest j.status (rw (&&-eq-true (j.id == job) (is_waiting j.status) rests).1 refl))
            fit)
        h)
  | inr held ↦ rw held h
]

module _ (answer : String) (dismiss quiet : Bool) (by : String) (now : ℕ) where
  after_settling-WithinTries :
      (q : Question) (st : Store)
      → WithinTries st.jobs
      → WithinTries (after_settling answer dismiss quiet by now q st).jobs
  after_settling-WithinTries q st h = elim (Bool-cases dismiss) [
    | inl yes_dismiss ↦ rw yes_dismiss (close_if_idle-WithinTries now q.job_id st h)
    | inr answers ↦ rw answers (elim (Bool-cases quiet) [
      | inl hush ↦ rw hush h
      | inr tells ↦ rw tells (resume_thread-WithinTries now q.job_id _ st h)
    ])
  ]

  answer_one-WithinTries :
      (id : String) (st st' : Store)
      → answer_one answer dismiss quiet by now id st ≡ some st'
      → WithinTries st.jobs
      → WithinTries st'.jobs
  unfolding answer_one
  answer_one-WithinTries id st st' e h = elim (Bool-cases (is_uuid id)) [
    | inl good ↦ elim (Option-cases (find (λ q. q.id == id && is_asked q.state) st.questions)) [
      | inl gone ↦ absurd (cc (rw (good, gone) at e))
      | inr (q, found) ↦
          let same : after_settling answer dismiss quiet by now q
                (settled_store answer dismiss quiet by now id st)
              ≡ st' =
            cc (rw (good, found) at e) in
          subst (λ x. WithinTries x.jobs) same
            (after_settling-WithinTries q (settled_store answer dismiss quiet by now id st) h)
    ]
    | inr bad ↦ absurd (cc (rw bad at e))
  ]

  pub answer_questions-WithinTries :
      (qs : List String) (st : Store)
      → WithinTries st.jobs
      → WithinTries (answer_questions answer dismiss quiet by now qs st).1.jobs
  unfolding answer_questions
  answer_questions-WithinTries [] st h = h
  answer_questions-WithinTries (id ∷ qs) st h =
      elim (Option-cases (answer_one answer dismiss quiet by now id st)) [
        | inl gone ↦ rw (answer_questions, gone) (answer_questions-WithinTries qs st h)
        | inr (st', e) ↦
            rw (answer_questions, e)
              (answer_questions-WithinTries qs st' (answer_one-WithinTries id st st' e h))
      ]

tell-WithinTries :
    (now : ℕ) (quiet : Bool) (w : Write) (d : Decision) (reason by : String) (st : Store)
    (job : Option String)
    → w.job ≡ job
    → WithinTries st.jobs
    → WithinTries (tell now quiet w d reason by st).jobs
tell-WithinTries now quiet w d reason by st none e h = rw e h
tell-WithinTries now quiet w d reason by st (some job) e h =
    rw e (elim (Bool-cases (job == "" || quiet)) [
      | inl hush ↦ rw hush h
      | inr tells ↦ rw tells (resume_thread-WithinTries now job _ st h)
    ])

module _ (sv : Server) (c : Caller) (now : ℕ) (reason : String) (quiet : Bool) where
  carry_out-WithinTries :
      (o : Option String) (id : String) (w : Write) (st : Store)
      → WithinTries st.jobs
      → WithinTries (carry_out sv c now reason quiet o id w st).1.jobs
  carry_out-WithinTries none id w st h = tell-WithinTries now quiet w _ reason c.user _ w.job refl h
  carry_out-WithinTries (some message) id w st h =
      tell-WithinTries now quiet w _ _ c.user _ w.job refl h

  pub approve_pending-WithinTries :
      (execute : Write → Option String) (id : String) (st : Store)
      → WithinTries st.jobs
      → WithinTries (approve_pending sv c now reason quiet execute id st).1.jobs
  unfolding approve_pending
  approve_pending-WithinTries execute id st h = elim (Bool-cases (is_uuid id)) [
    | inl good ↦ rw good (elim (Option-cases (pending_write id st.writes)) [
      | inl gone ↦ rw gone h
      | inr (w, found) ↦ rw found (elim (Bool-cases (may_review sv c w)) [
        | inl may ↦ rw may (elim (Bool-cases (one_pending id st.writes)) [
          | inl one ↦ rw one (carry_out-WithinTries (execute w) id w _ h)
          | inr taken ↦ rw taken h
        ])
        | inr hidden ↦ rw hidden h
      ])
    ])
    | inr bad ↦ rw bad h
  ]

  pub reject_pending-WithinTries :
      (id : String) (st : Store)
      → WithinTries st.jobs
      → WithinTries (reject_pending sv c now reason quiet id st).1.jobs
  unfolding reject_pending
  reject_pending-WithinTries id st h = elim (Bool-cases (is_uuid id)) [
    | inl good ↦ rw good (elim (Option-cases (pending_write id st.writes)) [
      | inl gone ↦ rw gone h
      | inr (w, found) ↦ rw found (elim (Bool-cases (may_review sv c w)) [
        | inl may ↦ rw may (elim (Bool-cases (one_pending id st.writes)) [
          | inl one ↦ rw one (tell-WithinTries now quiet w _ reason c.user _ w.job refl h)
          | inr taken ↦ rw taken h
        ])
        | inr hidden ↦ rw hidden h
      ])
    ])
    | inr bad ↦ rw bad h
  ]

pub answer_worker-WithinTries :
    (job answer by : String) (now : ℕ) (st : Store)
    → WithinTries st.jobs
    → WithinTries (answer_worker job answer by now st).jobs
unfolding answer_worker
answer_worker-WithinTries job answer by now st h =
    resume_thread-WithinTries now job (replied (take_text 3000 answer) by) _
      (answer_questions-WithinTries answer false true by now (open_question_ids job st) st h)

module _ (sv : Server) (c : Caller) (now : ℕ) where
  reject_all-WithinTries :
      (qs : List String) (st : Store)
      → WithinTries st.jobs
      → WithinTries (reject_all sv c now qs st).jobs
  reject_all-WithinTries [] st h = h
  reject_all-WithinTries (id ∷ qs) st h =
      reject_all-WithinTries qs _
        (reject_pending-WithinTries sv c now "closed by the master" false id st h)

  pub close_worker-WithinTries :
      (job summary : String) (st : Store)
      → WithinTries st.jobs
      → WithinTries (close_worker sv c now job summary st).jobs
  unfolding close_worker
  close_worker-WithinTries job summary st h =
      let st1 = closed_store now job summary st in
      reject_all-WithinTries (open_write_ids job st1)
        (answer_questions "" true false c.user now (open_question_ids job st1) st1).1
        (answer_questions-WithinTries "" true false c.user now (open_question_ids job st1) st1 (
          update_where-WithinTries (λ j. j.id == job && is_review j.kind) (close_job now summary)
            (λ j. (refl, refl)) st.jobs
            (λ j mine fit.
              closed-fits (length j.payload.next_resume) j.payload.outages j.attempts j.status fit)
            h))
