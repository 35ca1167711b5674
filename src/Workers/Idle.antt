-- ===== src/Workers/Idle.antt =====
-- packages/server/src/agents/graph-pool.ts: what the pool gives back and deletes (`releaseOrphans`, `releaseIdle`,
-- `cleanup`).
--
-- `running` is the process of an agent, if it has one. An answer of the graph service is `none` unless its status
-- is 200. Neither release nor delete throws.
use gwarestrin.Base.{
  ℕ, ◌+◌, ◌*◌, String, Bool, true, false, not, ◌&&◌, ◌||◌, Option, none, some, List, [], ◌∷◌, ◌++◌,
  ltb, filter, elem, map, lookup, insert, is_some,
}
use gwarestrin.Dates.{DateText, blank, unreadable, instant, day}
use gwarestrin.Tokens.{GraphRole}

pub record AgentRecord : Type 0 where
  pub id : String
  pub graph_role : Option GraphRole
  pub created_at : DateText

pub record Process : Type 0 where
  pub busy : Bool
  pub idle_ms : ℕ

pub data JobStatus : Type 0 where
  job_done job_failed job_open : JobStatus

-- A job as `/api/worker/threads` and `/api/worker/handlers` list it.
pub record ListedJob : Type 0 where
  pub id : String
  pub status : JobStatus
  pub updated_at : Option DateText

abbrev is_done : JobStatus → Bool
is_done job_done = true
is_done _ = false

abbrev is_over : JobStatus → Bool
is_over job_open = false
is_over _ = true

abbrev pub or_no_jobs : Option (List ListedJob) → List ListedJob
or_no_jobs none = []
or_no_jobs (some jobs) = jobs

abbrev ids_of : List ListedJob → List String
ids_of jobs = map (λ j. j.id) jobs

abbrev pub decided : Option (List ListedJob) → List String
decided handlers = ids_of (filter (λ h. is_done h.status) (or_no_jobs handlers))

abbrev pub jobs_by_id : List ListedJob → List (String × ListedJob) → List (String × ListedJob)
jobs_by_id [] m = m
jobs_by_id (j ∷ jobs) m = jobs_by_id jobs (insert j.id j m)

module _ (running : String → Option Process) (active : List String) where
  -- Given back after a restart: the graph agents without a process.
  abbrev pub is_orphan : AgentRecord → Bool
  is_orphan a = is_some a.graph_role && not (is_some (running a.id))

  unfoldable pub release_orphans : List AgentRecord → List AgentRecord
  release_orphans agents = filter is_orphan agents

  abbrev pub idle_handler : List String → GraphRole → ℕ → Bool
  idle_handler done (GraphRole.handler job stopped title) idle = elem job done && ltb 30000 idle
  idle_handler done role idle = false

  abbrev pub quiet : List String → GraphRole → Option Process → Bool
  quiet done role none = false
  quiet done role (some p) =
      not p.busy && (ltb 900000 p.idle_ms || idle_handler done role p.idle_ms)

  abbrev pub is_idle : List String → Option GraphRole → Option Process → Bool
  is_idle done none p = false
  is_idle done (some GraphRole.master) p = false
  is_idle done (some GraphRole.liaison) p = false
  is_idle done (some (GraphRole.worker job entry title)) p =
      not (elem job active) && quiet done (GraphRole.worker job entry title) p
  is_idle done (some (GraphRole.handler job stopped title)) p =
      quiet done (GraphRole.handler job stopped title) p

  -- `handlers`: what `/api/worker/handlers` answers.
  unfoldable pub release_idle : Option (List ListedJob) → List AgentRecord → List AgentRecord
  release_idle handlers agents =
      filter (λ a. is_idle (decided handlers) a.graph_role (running a.id)) agents

  -- `Number.isFinite(last) && last < now - age`
  abbrev pub older : ℕ → ℕ → DateText → Bool
  older now age (instant last) = ltb (last + age) now
  older now age blank = false
  older now age unreadable = false

  abbrev or_date : Option DateText → DateText → DateText
  or_date none d = d
  or_date (some t) d = t

  abbrev pub old_thread : ℕ → ℕ → Option ListedJob → DateText → Bool
  old_thread now age none created = older now age created
  old_thread now age (some job) created =
      is_over job.status && older now age (or_date job.updated_at created)

  abbrev pub is_old_worker :
      ℕ → ℕ → List (String × ListedJob) → AgentRecord → Option GraphRole → Bool
  is_old_worker now age jobs a (some (GraphRole.worker job entry title)) =
      not (is_some (running a.id))
      && (not (elem job active) && old_thread now age (lookup job jobs) a.created_at)
  is_old_worker now age jobs a role = false

  abbrev settled_handler : ℕ → Option ListedJob → Bool
  settled_handler now none = false
  settled_handler now (some h) = is_done h.status && older now day (or_date h.updated_at blank)

  abbrev pub is_old_handler : ℕ → List (String × ListedJob) → AgentRecord → Option GraphRole → Bool
  is_old_handler now handlers a (some (GraphRole.handler job stopped title)) =
      not (is_some (running a.id)) && settled_handler now (lookup job handlers)
  is_old_handler now handlers a role = false

  -- The agents deleted, in order; `handlers` is asked for once the threads are known.
  unfoldable pub cleanup :
      ℕ
      → ℕ
      → Option (List ListedJob)
      → Option (List ListedJob)
      → List AgentRecord
      → List AgentRecord
  cleanup keep_days now none handlers agents = []
  cleanup keep_days now (some threads) handlers agents =
      filter (λ a. is_old_worker now (keep_days * day) (jobs_by_id threads []) a a.graph_role)
        agents
      ++ filter (λ a. is_old_handler now (jobs_by_id (or_no_jobs handlers) []) a a.graph_role)
          agents
