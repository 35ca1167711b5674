-- ===== src/Jobs/Passes.antt =====
-- graph-rag/src/server.js: the tries of threads under the background passes.
use gwarestrin.Base.{
  ℕ, ◌≡◌, refl, sym, ap, subst, inl, inr, true, false, ◌&&◌, List, [], ◌∷◌, if◌then◌else◌, leb, eqb,
  length, filter, Bool-cases, &&-eq-true,
}
use gwarestrin.Jobs.{
  Status, pending, running, waiting, done, failed, closed, Job, Store, update_where, take,
  is_pending, is_running, is_review,
}
use gwarestrin.Jobs.Tries.{
  fits, is_over, WithinTries, update_where-WithinTries, resume_thread-WithinTries, again-fits,
  failed-fits, running_on,
}
use gwarestrin.Jobs.Threads.{open_questions, open_writes}
use gwarestrin.Jobs.Ticks.{
  expire_leases, is_quiet, run_again, give_up_quiet, lease_over, wake_one, wake_each,
  wake_idle_waiting, handled_message, left_waiting,
}

-- What becomes of a quiet thread.
abbrev quiet_end : ℕ → Job → Job
quiet_end now j = if leb 2 j.attempts then give_up_quiet now j else run_again now j

failed_not_quiet : (now : ℕ) (j : Job) → is_quiet now (give_up_quiet now j) ≡ false
failed_not_quiet now j = elim (Bool-cases (is_review j.kind)) [
  | inl e ↦ rw e refl
  | inr e ↦ rw e refl
]

expire_one :
    (now : ℕ) (j : Job)
    → (if is_quiet now (if is_quiet now j && leb 2 j.attempts then give_up_quiet now j else j)
        then run_again now (if is_quiet now j && leb 2 j.attempts then give_up_quiet now j else j)
        else (if is_quiet now j && leb 2 j.attempts then give_up_quiet now j else j))
      ≡ (if is_quiet now j then quiet_end now j else j)
expire_one now j = elim (Bool-cases (is_quiet now j)) [
  | inl q ↦ elim (Bool-cases (leb 2 j.attempts)) [
    | inl many ↦ rw (q, many, failed_not_quiet now j) refl
    | inr few ↦ rw (q, few, q) refl
  ]
  | inr idle ↦ rw (idle, idle) refl
]

expire_as_one :
    (now : ℕ) (jobs : List Job)
    → expire_leases now jobs ≡ update_where (is_quiet now) (quiet_end now) jobs
unfolding expire_leases
expire_as_one now [] = refl
expire_as_one now (j ∷ jobs) =
    rw (expire_one now j)
      (ap (λ t. (if is_quiet now j then quiet_end now j else j) ∷ t) (expire_as_one now jobs))

quiet_end-fits :
    (now : ℕ) (j : Job) → is_quiet now j ≡ true → fits j ≡ true → fits (quiet_end now j) ≡ true
quiet_end-fits now j q h =
    let (_, on) =
      &&-eq-true (is_review j.kind) (is_running j.status && lease_over now j.lease_until) q in
    let runs =
      running_on j.status (&&-eq-true (is_running j.status) (lease_over now j.lease_until) on).0 in
    elim (Bool-cases (leb 2 j.attempts)) [
      | inl many ↦ rw many (
          failed-fits (length j.payload.next_resume) j.payload.outages j.attempts j.attempts
            j.status h)
      | inr few ↦ rw few (
          again-fits (length j.payload.next_resume) j.payload.outages j.attempts j.status runs h
            few)
    ]

quiet_end_keeps :
    (now : ℕ) (j : Job) → ((quiet_end now j).id ≡ j.id) × ((quiet_end now j).kind ≡ j.kind)
quiet_end_keeps now j = elim (Bool-cases (leb 2 j.attempts)) [
  | inl many ↦ rw many (refl, refl)
  | inr few ↦ rw few (refl, refl)
]

pub expire_leases-WithinTries :
    (now : ℕ) (jobs : List Job) → WithinTries jobs → WithinTries (expire_leases now jobs)
expire_leases-WithinTries now jobs h = subst WithinTries (sym (expire_as_one now jobs)) (
    update_where-WithinTries (is_quiet now) (quiet_end now) (λ j. quiet_end_keeps now j) jobs
      (quiet_end-fits now) h)

wake_each-WithinTries :
    (now : ℕ) (js : List Job) (st : Store)
    → WithinTries st.jobs
    → WithinTries (wake_each now js st).jobs
wake_each-WithinTries now [] st h = h
wake_each-WithinTries now (j ∷ js) st h =
    wake_each-WithinTries now js (wake_one now j st)
      (elim (Bool-cases (eqb (open_questions j.id st) 0 && eqb (open_writes j.id st) 0)) [
        | inl idle ↦ rw idle (resume_thread-WithinTries now j.id handled_message st h)
        | inr held ↦ rw held h
      ])

pub wake_idle_waiting-WithinTries :
    (now : ℕ) (st : Store) → WithinTries st.jobs → WithinTries (wake_idle_waiting now st).jobs
unfolding wake_idle_waiting
wake_idle_waiting-WithinTries now st h =
    wake_each-WithinTries now (take 50 (filter (left_waiting now) st.jobs)) st h

pending_on : (s : Status) → is_pending s ≡ true → is_over s ≡ false
pending_on pending h = refl
pending_on running h = refl
pending_on waiting h = refl
pending_on done h = refl
pending_on failed h = absurd (cc h)
pending_on closed h = absurd (cc h)
