-- ===== src/Jobs/Claims.antt =====
-- graph-rag/src/server.js: what `claimThreads` hands out.
use gwarestrin.Base.{
  subst, ℕ, suc, ◌-◌, ◌≤◌, String, ◌≡◌, inl, inr, Option, none, some, List, [], ◌∷◌, arith, leb,
  eqb, length, length-append, filter, Bool-cases,
}
use gwarestrin.Health.{Outage, outage}
use gwarestrin.Jobs.{Job, Store, Settings}
use gwarestrin.Jobs.Threads.{
  Group, Thread, Claim, threads, can_start, is_full, begin, claim_one, claim_each, claim_in,
  claim_unless, claim_threads, room_for, threads_today, model_dep, level_room,
}

module _ (ws : Settings) (entry_name : String → Option String) (now room : ℕ) where
  begin-room :
      (job : Job) (jobs : List Job) (groups : List Group) (c : Claim) (b : Option (String × String))
      → suc (length c.threads) ≤ room
      → length (begin ws entry_name now room job jobs groups c b).threads ≤ room
  begin-room job jobs groups c none h = omega arith
  begin-room job jobs groups c (some (rid, name)) h =
      omega (arith, length-append c.threads (_ ∷ []))

  claim_one-room :
      (job : Job) (c : Claim)
      → length c.threads ≤ room
      → length (claim_one ws entry_name now room job c).threads ≤ room
  unfolding claim_one
  claim_one-room job c h = elim (Bool-cases (leb room (length c.threads))) [
    | inl full ↦ rw full h
    | inr free ↦ rw free (elim (Bool-cases (is_full job.payload.level c.groups)) [
      | inl e ↦ rw e h
      | inr e ↦ rw e (elim (Bool-cases (eqb (length (filter (can_start job.id) c.jobs)) 1)) [
        | inl one ↦ rw one (begin-room job _ _ c _ (ground arith))
        | inr one ↦ rw one h
      ])
    ])
  ]

  claim_each-room :
      (due : List Job) (c : Claim)
      → length c.threads ≤ room
      → length (claim_each ws entry_name now room due c).threads ≤ room
  unfolding claim_each
  claim_each-room [] c h = h
  claim_each-room (job ∷ due) c h =
      claim_each-room due (claim_one ws entry_name now room job c) (claim_one-room job c h)

claim_unless-room :
    (ws : Settings) (entry_name : String → Option String) (limit now : ℕ) (groups : List Group)
    (st : Store) (o : Option Outage) (ts : List Thread)
    → (claim_unless ws entry_name limit now groups st o).0 ≡ threads ts
    → length ts ≤ room_for ws limit now st.jobs
claim_unless-room ws entry_name limit now groups st (some out) ts e = absurd (cc e)
claim_unless-room ws entry_name limit now groups st none ts e =
    elim (Bool-cases (eqb (room_for ws limit now st.jobs) 0)) [
      | inl full ↦
          let same : [] ≡ ts = cc (rw full at e) in
          subst (λ l. length l ≤ room_for ws limit now st.jobs) same (omega arith)
      | inr free ↦
          let same : (claim_in ws entry_name now (room_for ws limit now st.jobs) groups st).threads
              ≡ ts =
            cc (rw free at e) in
          subst (λ l. length l ≤ room_for ws limit now st.jobs) same
            (claim_each-room ws entry_name now (room_for ws limit now st.jobs) _ _ (omega arith))
    ]

-- A claim starts no more threads than it asks for, than the pool has, and than the day has left.
pub claim_threads-room :
    (ws : Settings) (entry_name : String → Option String) (limit : ℕ) (groups : List Group)
    (now : ℕ) (st : Store) (ts : List Thread)
    → (claim_threads ws entry_name limit groups now st).0 ≡ threads ts
    → (length ts ≤ limit)
      × (length ts ≤ ws.pool_size)
      × (length ts ≤ ws.daily_threads - threads_today now st.jobs)
unfolding claim_threads
claim_threads-room ws entry_name limit groups now st ts e =
    let h =
      claim_unless-room ws entry_name limit now (level_room groups) st
        (outage now (model_dep ws) st.deps) ts e in
    (omega arith, omega arith, omega arith)
