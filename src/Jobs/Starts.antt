-- ===== src/Jobs/Starts.antt =====
-- graph-rag/src/server.js: the tries of threads under a claim.
use gwarestrin.Base.{
  ℕ, String, ◌≡◌, refl, sym, subst, inl, inr, Bool, true, false, not, ◌&&◌, ◌||◌, Option, none,
  some, List, [], ◌∷◌, arith, ◌==◌, eq_iff, leb, eqb, length, filter, all, elem, IsDistinct,
  Bool-cases, &&-eq-true,
}
use gwarestrin.Jobs.{
  Status, pending, running, waiting, done, failed, closed, Job, Store, Settings, update_job,
  is_pending,
}
use gwarestrin.Jobs.Updates.{ids, ids-update_where, all-update_where}
use gwarestrin.Jobs.Tries.{fits, fits_in, is_over, WithinTries}
use gwarestrin.Jobs.Threads.{
  Claim, claim_one, claim_each, claim_unless, claim_threads, begin, can_start, started, entry_gone,
  spend, is_full, brief_of, rid_of, level_room, model_dep, room_for, due_jobs, Group,
}
use gwarestrin.Health.{Outage, outage}

-- The rows with this id go on.
abbrev goes_on_at : String → Job → Bool
goes_on_at id j = not (j.id == id) || not (is_over j.status)

steady : String → Job → Bool
steady id j = fits j && goes_on_at id j

all_none :
    (id : String) (jobs : List Job) → elem id (ids jobs) ≡ false → all (goes_on_at id) jobs ≡ true
all_none id [] h = refl
all_none id (j ∷ jobs) h =
    let other : (j.id == id) ≡ false = ground (arith, eq_iff id j.id, eq_iff j.id id) in
    rw other (all_none id jobs (ground arith))

none_starts :
    (id : String) (jobs : List Job)
    → elem id (ids jobs) ≡ false
    → length (filter (can_start id) jobs) ≡ 0
none_starts id [] h = refl
none_starts id (j ∷ jobs) h =
    let other : (j.id == id) ≡ false = ground (arith, eq_iff id j.id, eq_iff j.id id) in
    rw other (none_starts id jobs (ground arith))

pending_goes_on : (s : Status) → is_pending s ≡ true → is_over s ≡ false
pending_goes_on pending h = refl
pending_goes_on running h = refl
pending_goes_on waiting h = refl
pending_goes_on done h = refl
pending_goes_on failed h = absurd (cc h)
pending_goes_on closed h = absurd (cc h)

-- Where a row with this id can start, the rows with this id go on.
one_starts :
    (id : String) (jobs : List Job)
    → IsDistinct (ids jobs)
    → length (filter (can_start id) jobs) ≡ 1
    → all (goes_on_at id) jobs ≡ true
one_starts id [] one h = refl
one_starts id (j ∷ jobs) (new, one) h = elim (Bool-cases (can_start id j)) [
  | inl can ↦
      let (at, on) = &&-eq-true (j.id == id) (is_pending j.status) can in
      let new' : elem id (ids jobs) ≡ false = rw ((eq_iff j.id id).0 at) at new in
      rw (at, pending_goes_on j.status on) (all_none id jobs new')
  | inr cannot ↦
      let h' : length (filter (can_start id) jobs) ≡ 1 = rw cannot at h in
      let other : (j.id == id) ≡ false = elim (Bool-cases (j.id == id)) [
        | inl at ↦
            let no_more = none_starts id jobs (rw ((eq_iff j.id id).0 at) at new) in ground arith
        | inr away ↦ away
      ] in
      rw other (one_starts id jobs one h')
]

all_and :
    (p q : Job → Bool) (jobs : List Job)
    → all p jobs ≡ true
    → all q jobs ≡ true
    → all (λ j. p j && q j) jobs ≡ true
all_and p q [] a b = refl
all_and p q (j ∷ jobs) a b = ground (arith, all_and p q jobs)

all_left :
    (p q : Job → Bool) (jobs : List Job) → all (λ j. p j && q j) jobs ≡ true → all p jobs ≡ true
all_left p q [] a = refl
all_left p q (j ∷ jobs) a = ground (arith, all_left p q jobs)

steady_move :
    (m o a : ℕ) (s s' : Status) (at : Bool)
    → is_over s' ≡ false
    → at ≡ true
    → (fits_in m o s a && (not at || not (is_over s))) ≡ true
    → (fits_in m o s' a && (not at || not (is_over s'))) ≡ true
steady_move m o a s s' at k here h = ground arith

steady_to :
    (id : String) (s' : Status) (over : is_over s' ≡ false) (j : Job)
    → (j.id == id) ≡ true
    → steady id j ≡ true
    → steady id (record j { status = s' }) ≡ true
unfolding steady
steady_to id s' over j at h =
    steady_move (length j.payload.next_resume) j.payload.outages j.attempts j.status s' (j.id == id)
      over at h

module _ (ws : Settings) (entry_name : String → Option String) (now room : ℕ) where
  started-WithinTries :
      (job : Job) (jobs : List Job)
      → WithinTries jobs
      → length (filter (can_start job.id) jobs) ≡ 1
      → IsDistinct (ids (started ws now job jobs))
        × (all (steady job.id) (started ws now job jobs) ≡ true)
  unfolding steady
  started-WithinTries job jobs (one, a) count = (
    subst IsDistinct (sym (ids-update_where (can_start job.id) _ (λ j. (refl, refl)) jobs)) one,
    all-update_where (steady job.id) (can_start job.id) _ jobs
        (λ j can h.
          steady_to job.id running refl j (&&-eq-true (j.id == job.id) (is_pending j.status) can).0
            h)
        (all_and fits (goes_on_at job.id) jobs a (one_starts job.id jobs one count)),
  )

  begin-WithinTries :
      (job : Job) (jobs : List Job) (groups : List Group) (c : Claim) (b : Option (String × String))
      → IsDistinct (ids jobs)
      → all (steady job.id) jobs ≡ true
      → WithinTries (begin ws entry_name now room job jobs groups c b).jobs
  unfolding steady
  begin-WithinTries job jobs groups c none one a = (
    subst IsDistinct
        (sym (ids-update_where (λ j. j.id == job.id) (entry_gone now) (λ j. (refl, refl)) jobs))
        one,
    all_left fits (goes_on_at job.id) (update_job job.id (entry_gone now) jobs) (
        all-update_where (steady job.id) (λ j. j.id == job.id) (entry_gone now) jobs
          (λ j at h. steady_to job.id done refl j at h) a),
  )
  begin-WithinTries job jobs groups c (some (rid, name)) one a =
      (one, all_left fits (goes_on_at job.id) jobs a)

  claim_one-WithinTries :
      (job : Job) (c : Claim)
      → WithinTries c.jobs
      → WithinTries (claim_one ws entry_name now room job c).jobs
  unfolding claim_one
  claim_one-WithinTries job c h = elim (Bool-cases (leb room (length c.threads))) [
    | inl full ↦ rw full h
    | inr free ↦ rw free (elim (Bool-cases (is_full job.payload.level c.groups)) [
      | inl e ↦ rw e h
      | inr e ↦ rw e (elim (Bool-cases (eqb (length (filter (can_start job.id) c.jobs)) 1)) [
        | inl one ↦
            let (distinct, steady') = started-WithinTries job c.jobs h (ground arith) in
            rw one (
              begin-WithinTries job (started ws now job c.jobs) (spend job.payload.level c.groups) c
                (brief_of entry_name (rid_of job.payload.rid)) distinct steady')
        | inr none_starts' ↦ rw none_starts' h
      ])
    ])
  ]

  claim_each-WithinTries :
      (due : List Job) (c : Claim)
      → WithinTries c.jobs
      → WithinTries (claim_each ws entry_name now room due c).jobs
  unfolding claim_each
  claim_each-WithinTries [] c h = h
  claim_each-WithinTries (job ∷ due) c h =
      claim_each-WithinTries due (claim_one ws entry_name now room job c)
        (claim_one-WithinTries job c h)

claim_unless-WithinTries :
    (ws : Settings) (entry_name : String → Option String) (limit now : ℕ) (groups : List Group)
    (st : Store) (o : Option Outage)
    → WithinTries st.jobs
    → WithinTries (claim_unless ws entry_name limit now groups st o).1.jobs
claim_unless-WithinTries ws entry_name limit now groups st (some out) h = h
claim_unless-WithinTries ws entry_name limit now groups st none h =
    elim (Bool-cases (eqb (room_for ws limit now st.jobs) 0)) [
      | inl full ↦ rw full h
      | inr free ↦ rw free (
          claim_each-WithinTries ws entry_name now (room_for ws limit now st.jobs)
            (due_jobs groups (room_for ws limit now st.jobs) now st.jobs)
            (record { jobs = st.jobs; groups = groups; threads = [] }) h)
    ]

pub claim_threads-WithinTries :
    (ws : Settings) (entry_name : String → Option String) (limit : ℕ) (groups : List Group)
    (now : ℕ) (st : Store)
    → WithinTries st.jobs
    → WithinTries (claim_threads ws entry_name limit groups now st).1.jobs
unfolding claim_threads
claim_threads-WithinTries ws entry_name limit groups now st h =
    claim_unless-WithinTries ws entry_name limit now (level_room groups) st
      (outage now (model_dep ws) st.deps) h
