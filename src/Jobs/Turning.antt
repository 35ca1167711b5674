-- ===== src/Jobs/Turning.antt =====
-- graph-rag/src/server.js: the tries of threads at the end of a turn.
use gwarestrin.Base.{
  ℕ, ◌+◌, ◌≤◌, String, ◌≡◌, refl, subst, inl, inr, Bool, true, false, ◌&&◌, Option, none, some,
  List, [], ◌∷◌, arith, if◌then◌else◌, ltb, leb, length, Bool-cases, Option-cases, ok,
}
use gwarestrin.Jobs.{pending, failed, Resume, Job, Store, Settings, review_of}
use gwarestrin.Delegation.Texts.{is_job_id}
use gwarestrin.Jobs.Updates.{found_of_all}
use gwarestrin.Jobs.Threads.{
  Report, finish_thread, settle_turn, defer, is_outage_report, names_outage, NextStep, open_items,
  rest_of, first_of, after_turn, payload_after, status_after, attempts_after,
}
use gwarestrin.Jobs.Tries.{
  WithinTries, fits, fits_in, is_over, update_job-WithinTries, fits_parts, goes_on, fits_pending,
}

length-rest_of : (rs : List Resume) → length (rest_of rs) ≤ length rs
length-rest_of [] = omega arith
length-rest_of (r ∷ rs) = omega arith

after_turn-fits :
    (o : Option Resume) (items m a : ℕ) → m ≤ 5 → a ≤ 2 → fits_in m 0 (after_turn o items) a ≡ true
after_turn-fits (some r) items m a hm ha = ground arith
after_turn-fits none items m a hm ha = ground arith

few_outages : (a b : Bool) (n : ℕ) → (a && (b && ltb n 6)) ≡ true → n + 1 ≤ 6
few_outages a b n h = ground arith

failed_turn-fits :
    (m o a : ℕ) → m ≤ 5 → o ≤ 6 → fits_in m o (if leb 3 a then failed else pending) a ≡ true
failed_turn-fits m o a hm ho = ground arith

end_turn-fits :
    (did_fail : Bool) (items : ℕ) (j : Job)
    → fits j ≡ true
    → is_over j.status ≡ false
    → fits_in
        (length (payload_after did_fail j.payload).next_resume)
        (payload_after did_fail j.payload).outages
        (status_after did_fail (attempts_after did_fail j) j.payload items)
        (attempts_after did_fail j)
      ≡ true
end_turn-fits true items j h k =
    let (hm, ho, t) =
      fits_parts (length j.payload.next_resume) j.payload.outages j.status j.attempts h in
    failed_turn-fits (length j.payload.next_resume) j.payload.outages (j.attempts + 1) hm ho
end_turn-fits false items j h k =
    let (hm, ho, t) =
      fits_parts (length j.payload.next_resume) j.payload.outages j.status j.attempts h in
    after_turn-fits (first_of j.payload.next_resume) items (length (rest_of j.payload.next_resume))
      j.attempts (let le = length-rest_of j.payload.next_resume in omega arith)
      (goes_on j.status j.attempts t k)

module _ (show : ℕ → String) (ws : Settings) (now : ℕ) where
  settle_turn-WithinTries :
      (id : String) (r : Report) (j : Job) (st : Store)
      → review_of id st.jobs ≡ some j
      → is_over j.status ≡ false
      → WithinTries st.jobs
      → WithinTries (settle_turn show ws now id r j st).1.jobs
  settle_turn-WithinTries id r j st e k h =
      update_job-WithinTries id _ (λ x. (refl, refl)) st.jobs j e
        (end_turn-fits r.failed (open_items id st) j (found_of_all fits id st.jobs j e h.1) k) h

  defer-WithinTries :
      (id : String) (r : Report) (j : Job) (st : Store)
      → review_of id st.jobs ≡ some j
      → is_over j.status ≡ false
      → is_outage_report r j.payload ≡ true
      → WithinTries st.jobs
      → WithinTries (defer show ws now id r j st).1.jobs
  defer-WithinTries id r j st e k o h =
      let (hm, ho, t) =
        fits_parts (length j.payload.next_resume) j.payload.outages j.status j.attempts
          (found_of_all fits id st.jobs j e h.1) in
      update_job-WithinTries id _ (λ x. (refl, refl)) st.jobs j e
        (fits_pending (length j.payload.next_resume) (j.payload.outages + 1) j.attempts hm
          (few_outages r.failed (names_outage r.outage) j.payload.outages o)
          (goes_on j.status j.attempts t k))
        h

  -- A report of a thread that is neither failed nor closed.
  pub finish_thread-WithinTries :
      (id : String) (r : Report) (st : Store) (res : NextStep × Store)
      → ((j : Job) → review_of id st.jobs ≡ some j → is_over j.status ≡ false)
      → finish_thread show ws now id r st ≡ ok res
      → WithinTries st.jobs
      → WithinTries res.1.jobs
  unfolding finish_thread
  finish_thread-WithinTries id r st res timely fin h = elim (Bool-cases (is_job_id id)) [
    | inr bad ↦ absurd (cc (rw bad at fin))
    | inl good ↦ elim (Option-cases (review_of id st.jobs)) [
      | inl gone ↦ absurd (cc (rw (gone, good) at fin))
      | inr (j, e) ↦
          let k = timely j e in
          let turn : (if is_outage_report r j.payload
                then defer show ws now id r j st
                else settle_turn show ws now id r j st)
              ≡ res =
            cc (rw (e, good) at fin) in
          elim (Bool-cases (is_outage_report r j.payload)) [
            | inl out ↦
                subst (λ x. WithinTries x.1.jobs) (rw out at turn)
                  (defer-WithinTries id r j st e k out h)
            | inr not_out ↦
                subst (λ x. WithinTries x.1.jobs) (rw not_out at turn)
                  (settle_turn-WithinTries id r j st e k h)
          ]
    ]
  ]
