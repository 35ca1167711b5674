-- ===== src/Jobs/Tries.antt =====
-- graph-rag/src/server.js: how often a thread is tried, and how much waits for it.
use gwarestrin.Base.{
  ℕ, ◌+◌, ◌≤◌, String, ◌≡◌, refl, sym, subst, inl, inr, Bool, true, false, ◌&&◌, ◌||◌, some, List,
  [], ◌∷◌, ◌++◌, arith, ◌==◌, leb, length, all, IsDistinct, Bool-cases, Option-cases, &&-eq-true,
}
use gwarestrin.Jobs.{
  Status, pending, running, waiting, done, failed, closed, Resume, Payload, Job, Store,
  update_where, update_job, review_of, last, is_waiting, is_done, is_pending, is_running,
}
use gwarestrin.Jobs.Updates.{
  ids, KeepsIdentity, ids-update_where, all-update_where, all-update_job, found_of_all,
  review_of-elem,
}
use gwarestrin.Jobs.Threads.{resume_thread, resume_job, wake, can_wake, queue_message}

abbrev pub is_over : Status → Bool
is_over failed = true
is_over closed = true
is_over _ = false

-- At most 5 messages wait, at most 6 outages are counted, and a thread that goes on failed twice at most.
abbrev pub fits_in : ℕ → ℕ → Status → ℕ → Bool
fits_in messages outages s attempts =
    leb messages 5 && (leb outages 6 && (is_over s || leb attempts 2))

abbrev pub fits : Job → Bool
fits j = fits_in (length j.payload.next_resume) j.payload.outages j.status j.attempts

abbrev pub WithinTries : List Job → Type 0
WithinTries jobs = IsDistinct (ids jobs) × (all fits jobs ≡ true)

module _ {ℓ} {A : Type ℓ} where
  length-last : (n : ℕ) (xs : List A) → length (last n xs) ≤ n
  length-last n [] = omega arith
  length-last n (x ∷ xs) = ground (arith, length-last n xs)

pub update_where-WithinTries :
    (p : Job → Bool) (f : Job → Job) (keeps : KeepsIdentity f) (jobs : List Job)
    → ((j : Job) → p j ≡ true → fits j ≡ true → fits (f j) ≡ true)
    → WithinTries jobs
    → WithinTries (update_where p f jobs)
update_where-WithinTries p f keeps jobs h (one, a) = (
  subst IsDistinct (sym (ids-update_where p f keeps jobs)) one,
  all-update_where fits p f jobs h a,
)

pub update_job-WithinTries :
    (id : String) (f : Job → Job) (keeps : KeepsIdentity f) (jobs : List Job) (found : Job)
    → review_of id jobs ≡ some found
    → fits (f found) ≡ true
    → WithinTries jobs
    → WithinTries (update_job id f jobs)
update_job-WithinTries id f keeps jobs found r h (one, a) = (
  subst IsDistinct (sym (ids-update_where (λ j. j.id == id) f keeps jobs)) one,
  all-update_job fits id f jobs found one r h a,
)

pub fits_parts :
    (m o : ℕ) (s : Status) (a : ℕ)
    → fits_in m o s a ≡ true
    → (m ≤ 5) × (o ≤ 6) × ((is_over s || leb a 2) ≡ true)
fits_parts m o s a h = (ground arith, ground arith, ground arith)

pub goes_on : (s : Status) (a : ℕ) → (is_over s || leb a 2) ≡ true → is_over s ≡ false → a ≤ 2
goes_on s a h k = ground arith

pub at_rest : (s : Status) → (is_waiting s || is_done s) ≡ true → is_over s ≡ false
at_rest waiting h = refl
at_rest done h = refl
at_rest pending h = refl
at_rest running h = refl
at_rest failed h = absurd (cc h)
at_rest closed h = absurd (cc h)

pub fits_pending : (m o a : ℕ) → m ≤ 5 → o ≤ 6 → a ≤ 2 → fits_in m o pending a ≡ true
fits_pending m o a hm ho ha = ground arith

wake-fits :
    (now : ℕ) (r : Resume) (p : Payload) (id : String) (j : Job)
    → length p.next_resume ≤ 5
    → p.outages ≤ 6
    → can_wake id j ≡ true
    → fits j ≡ true
    → fits (wake now r p j) ≡ true
wake-fits now r p id j l o can h =
    let (hm, ho, t) =
      fits_parts (length j.payload.next_resume) j.payload.outages j.status j.attempts h in
    let (at, rests) = &&-eq-true (j.id == id) (is_waiting j.status || is_done j.status) can in
    fits_pending (length p.next_resume) p.outages j.attempts l o
      (goes_on j.status j.attempts t (at_rest j.status rests))

fits_fewer :
    (m m' o o' : ℕ) (s : Status) (a : ℕ)
    → m' ≤ 5
    → o' ≤ 6
    → fits_in m o s a ≡ true
    → fits_in m' o' s a ≡ true
fits_fewer m m' o o' s a hm ho h = ground arith

resume_job-WithinTries :
    (now : ℕ) (r : Resume) (found : Job) (id : String) (jobs : List Job)
    → review_of id jobs ≡ some found
    → found.id ≡ id
    → WithinTries jobs
    → WithinTries (resume_job now r found jobs)
resume_job-WithinTries now r found id jobs e at h =
    let ok_found = found_of_all fits id jobs found e h.1 in
    let (hm, ho, t) =
      fits_parts (length found.payload.next_resume) found.payload.outages found.status
        found.attempts ok_found in
    elim (Bool-cases (is_running found.status || is_pending found.status)) [
      | inl runs ↦
          rw (runs, at)
            (update_job-WithinTries id (λ j. record j { payload = queue_message r found.payload })
              (λ j. (refl, refl)) jobs found e
              (fits_fewer (length found.payload.next_resume) _ found.payload.outages _ found.status
                found.attempts (length-last 5 (found.payload.next_resume ++ r ∷ [])) ho ok_found)
              h)
      | inr rests ↦ rw rests (
          update_where-WithinTries (can_wake found.id) (wake now r found.payload)
            (λ j. (refl, refl)) jobs
            (λ j can fit. wake-fits now r found.payload found.id j hm ho can fit) h)
    ]

pub resume_thread-WithinTries :
    (now : ℕ) (id : String) (r : Resume) (st : Store)
    → WithinTries st.jobs
    → WithinTries (resume_thread now id r st).jobs
unfolding resume_thread
resume_thread-WithinTries now id r st h = elim (Option-cases (review_of id st.jobs)) [
  | inl gone ↦ rw (resume_thread, gone) h
  | inr (found, e) ↦
      rw (resume_thread, e)
        (resume_job-WithinTries now r found id st.jobs e (review_of-elem id st.jobs found e).1 h)
]

pub again-fits :
    (m o a : ℕ) (s : Status)
    → is_over s ≡ false
    → fits_in m o s a ≡ true
    → leb 2 a ≡ false
    → fits_in m o pending (a + 1) ≡ true
again-fits m o a s k h few = ground arith

pub running_on : (s : Status) → is_running s ≡ true → is_over s ≡ false
running_on pending h = refl
running_on running h = refl
running_on waiting h = refl
running_on done h = refl
running_on failed h = absurd (cc h)
running_on closed h = absurd (cc h)

pub failed-fits : (m o a b : ℕ) (s : Status) → fits_in m o s a ≡ true → fits_in m o failed b ≡ true
failed-fits m o a b s h = ground arith
