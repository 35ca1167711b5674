-- ===== src/Workers/Kept.antt =====
-- packages/server/src/agents/graph-pool.ts: what the pool gives back or deletes.
use gwarestrin.Base.{
  ℕ, ◌<◌, ◌*◌, String, ◌≡◌, refl, Bool, true, false, not, ◌||◌, Option, none, some, List, [], ◌∷◌,
  ◌++◌, ltb, filter, elem, is_some, arith, inl, inr, Bool-cases, &&-eq-true,
}
use gwarestrin.Dates.{day}
use gwarestrin.Tokens.{GraphRole}
use gwarestrin.Workers.Idle.{
  AgentRecord, Process, ListedJob, decided, quiet, idle_handler, is_idle, release_idle,
  is_old_worker, is_old_handler, jobs_by_id, or_no_jobs, cleanup,
}

module _ {ℓ} {A : Type ℓ} (P : A → Type 0) where
  abbrev pub AllOf : List A → Type 0
  AllOf [] = Unit
  AllOf (x ∷ xs) = P x × AllOf xs

  filter-AllOf : (p : A → Bool) (xs : List A) → ((x : A) → p x ≡ true → P x) → AllOf (filter p xs)
  filter-AllOf p [] f = tt
  filter-AllOf p (x ∷ xs) f = elim (Bool-cases (p x)) [
    | inl e ↦ rw (filter, e) (f x e, filter-AllOf p xs f)
    | inr e ↦ rw (filter, e) (filter-AllOf p xs f)
  ]

  append-AllOf : (xs ys : List A) → AllOf xs → AllOf ys → AllOf (xs ++ ys)
  append-AllOf [] ys h k = k
  append-AllOf (x ∷ xs) ys (h, hs) k = (h, append-AllOf xs ys hs k)

-- The job of a worker.
abbrev pub worker_job : Option GraphRole → Option String
worker_job (some (GraphRole.worker job entry title)) = some job
worker_job role = none

module _ (running : String → Option Process) (active : List String) where
  -- No run of the pool is under way on it.
  abbrev NotActive : Option String → Type 0
  NotActive none = Unit
  NotActive (some job) = elem job active ≡ false

  -- A process that nothing happens in.
  abbrev Rests : Option Process → Type 0
  Rests none = ⊥
  Rests (some p) = (p.busy ≡ false) × (30000 < p.idle_ms)

  abbrev pub AtRest : AgentRecord → Type 0
  AtRest a = NotActive (worker_job a.graph_role) × Rests (running a.id)

  abbrev pub Stopped : AgentRecord → Type 0
  Stopped a = NotActive (worker_job a.graph_role) × (is_some (running a.id) ≡ false)

  false_of : (b : Bool) → not b ≡ true → b ≡ false
  false_of b h = ground arith

  long_idle :
      (b : Bool) (idle : ℕ)
      → (ltb 900000 idle || b) ≡ true
      → (b ≡ true → 30000 < idle)
      → 30000 < idle
  long_idle true idle h f = f refl
  long_idle false idle h f = ground arith

  idle_handler-long :
      (done : List String) (role : GraphRole) (idle : ℕ)
      → idle_handler running active done role idle ≡ true
      → 30000 < idle
  idle_handler-long done (GraphRole.handler job stopped title) idle h = ground arith
  idle_handler-long done (GraphRole.worker job entry title) idle h = absurd (cc h)
  idle_handler-long done GraphRole.liaison idle h = absurd (cc h)
  idle_handler-long done GraphRole.master idle h = absurd (cc h)

  quiet-Rests :
      (done : List String) (role : GraphRole) (p : Option Process)
      → quiet running active done role p ≡ true
      → Rests p
  quiet-Rests done role none h = absurd (cc h)
  quiet-Rests done role (some p) h =
      let (idle, long) = &&-eq-true (not p.busy) _ h in
      (
        false_of p.busy idle,
        long_idle (idle_handler running active done role p.idle_ms) p.idle_ms long
            (idle_handler-long done role p.idle_ms),
      )

  is_idle-AtRest :
      (done : List String) (role : Option GraphRole) (p : Option Process)
      → is_idle running active done role p ≡ true
      → NotActive (worker_job role) × Rests p
  is_idle-AtRest done none p h = absurd (cc h)
  is_idle-AtRest done (some GraphRole.master) p h = absurd (cc h)
  is_idle-AtRest done (some GraphRole.liaison) p h = absurd (cc h)
  is_idle-AtRest done (some (GraphRole.worker job entry title)) p h =
      let (spared, still) = &&-eq-true (not (elem job active)) _ h in
      (
        false_of (elem job active) spared,
        quiet-Rests done (GraphRole.worker job entry title) p still,
      )
  is_idle-AtRest done (some (GraphRole.handler job stopped title)) p h =
      (tt, quiet-Rests done (GraphRole.handler job stopped title) p h)

  is_old_worker-Stopped :
      (now age : ℕ) (jobs : List (String × ListedJob)) (a : AgentRecord) (role : Option GraphRole)
      → is_old_worker running active now age jobs a role ≡ true
      → NotActive (worker_job role) × (is_some (running a.id) ≡ false)
  is_old_worker-Stopped now age jobs a none h = absurd (cc h)
  is_old_worker-Stopped now age jobs a (some GraphRole.master) h = absurd (cc h)
  is_old_worker-Stopped now age jobs a (some GraphRole.liaison) h = absurd (cc h)
  is_old_worker-Stopped now age jobs a (some (GraphRole.handler job stopped title)) h =
      absurd (cc h)
  is_old_worker-Stopped now age jobs a (some (GraphRole.worker job entry title)) h =
      let (stopped, rest) = &&-eq-true (not (is_some (running a.id))) _ h in
      (
        false_of (elem job active) (&&-eq-true (not (elem job active)) _ rest).0,
        false_of (is_some (running a.id)) stopped,
      )

  is_old_handler-Stopped :
      (now : ℕ) (handlers : List (String × ListedJob)) (a : AgentRecord) (role : Option GraphRole)
      → is_old_handler running active now handlers a role ≡ true
      → NotActive (worker_job role) × (is_some (running a.id) ≡ false)
  is_old_handler-Stopped now handlers a none h = absurd (cc h)
  is_old_handler-Stopped now handlers a (some GraphRole.master) h = absurd (cc h)
  is_old_handler-Stopped now handlers a (some GraphRole.liaison) h = absurd (cc h)
  is_old_handler-Stopped now handlers a (some (GraphRole.worker job entry title)) h = absurd (cc h)
  is_old_handler-Stopped now handlers a (some (GraphRole.handler job stopped title)) h =
      (tt, false_of (is_some (running a.id)) (&&-eq-true (not (is_some (running a.id))) _ h).0)

  cleanup-Stopped :
      (keep_days now : ℕ) (threads handlers : Option (List ListedJob)) (agents : List AgentRecord)
      → AllOf Stopped (cleanup running active keep_days now threads handlers agents)
  unfolding cleanup
  cleanup-Stopped keep_days now none handlers agents = tt
  cleanup-Stopped keep_days now (some threads) handlers agents =
      append-AllOf Stopped _ _
        (filter-AllOf Stopped _ agents (λ a h.
          is_old_worker-Stopped now (keep_days * day) (jobs_by_id threads []) a a.graph_role h))
        (filter-AllOf Stopped _ agents (λ a h.
          is_old_handler-Stopped now (jobs_by_id (or_no_jobs handlers) []) a a.graph_role h))

  -- The pool takes nothing from under a run: an agent that it gives back for being idle has done nothing for half
  -- a minute, an agent that it deletes has no process, and of neither is a thread running in the pool.
  pub housekeeping_spares :
      (keep_days now : ℕ) (threads handlers : Option (List ListedJob)) (agents : List AgentRecord)
      → AllOf AtRest (release_idle running active handlers agents)
        × AllOf Stopped (cleanup running active keep_days now threads handlers agents)
  unfolding release_idle
  housekeeping_spares keep_days now threads handlers agents = (
    filter-AllOf AtRest _ agents
        (λ a h. is_idle-AtRest (decided handlers) a.graph_role (running a.id) h),
    cleanup-Stopped keep_days now threads handlers agents,
  )
