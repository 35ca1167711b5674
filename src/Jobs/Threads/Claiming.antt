-- ===== src/Jobs/Threads/Claiming.antt =====
-- graph-rag/src/server.js: threads are claimed (`levelRoom`, `claimThreads`).
use gwarestrin.Base.{
  ℕ, ◌+◌, ◌-◌, ◌*◌, ◌/◌, String, Bool, false, not, ◌&&◌, ◌||◌, Option, none, some, List, [], ◌∷◌,
  ◌++◌, ◌==◌, if◌then◌else◌, leb, eqb, length, filter, map, sort,
}
use Prim.Native.Nat.{min}
use Prim.Native.String.{◌++◌ as append}
use mathlib.Core.List.{reverse}
use gwarestrin.Dates.{codes, day}
use gwarestrin.Health.{Outage, outage}
use gwarestrin.Delegation.Texts.{is_rid}
use gwarestrin.Jobs.{
  running, done, is_pending, is_review, Resume, Task, Payload, Job, Store, Settings, update_where,
  take, update_job, job_before,
}

-- A limited model: the levels that run on it, and how many threads more it takes.
pub record Group : Type 0 where
  pub left : ℕ
  pub levels : List ℕ

abbrev has_level : ℕ → List ℕ → Bool
has_level n [] = false
has_level n (l ∷ ls) = eqb n l || has_level n ls

abbrev real_levels : Group → Group
real_levels g = record g { levels = filter (λ l. leb l 3) g.levels }

-- The groups, the last first: a level belongs to the last group that names it.
unfoldable pub level_room : List Group → List Group
level_room groups = reverse (map real_levels (take 8 groups))

abbrev pub is_full : ℕ → List Group → Bool
is_full level [] = false
is_full level (g ∷ gs) =
    let rest = is_full level gs in if has_level level g.levels then eqb g.left 0 else rest

-- `counter.left--`
abbrev pub spend : ℕ → List Group → List Group
spend level [] = []
spend level (g ∷ gs) =
    let rest = spend level gs in
    if has_level level g.levels then record g { left = g.left - 1 } ∷ gs else g ∷ rest

pub data Message : Type 0 where
  resumed : Resume → Message
  tasked : Task → Message
  about_entry : Option String → Message

pub record Thread : Type 0 where
  pub job : String
  pub entry : String
  pub name : String
  pub agent_id : Option String
  pub level : ℕ
  pub minutes : ℕ
  pub message : Message

abbrev message_without : Payload → Option Task → Message
message_without p none = about_entry p.why
message_without p (some t) = tasked t

abbrev message_of : Payload → Option Resume → Message
message_of p none = message_without p p.task
message_of p (some r) = resumed r

abbrev pub minutes_of : Settings → Payload → ℕ
minutes_of ws p = if eqb p.minutes 0 then ws.thread_minutes else p.minutes

-- `UPDATE Job SET status = 'running', ... WHERE id = :id AND status = 'pending'`
abbrev pub start_job : ℕ → ℕ → Job → Job
start_job now lease j = record j {
  status = running;
  claimed_at = some now;
  lease_until = some lease;
  updated_at = now;
}

abbrev pub can_start : String → Job → Bool
can_start id j = j.id == id && is_pending j.status

abbrev pub started : Settings → ℕ → Job → List Job → List Job
started ws now job jobs =
    update_where (can_start job.id) (start_job now (now + (minutes_of ws job.payload + 5) * 60000))
      jobs

abbrev pub entry_gone : ℕ → Job → Job
entry_gone now j = record j { status = done; summary = "the entry is gone"; updated_at = now }

pub record Claim : Type 0 where
  pub jobs : List Job
  pub groups : List Group
  pub threads : List Thread

abbrev pub thread_of : Settings → Job → String → String → Thread
thread_of ws job rid name = record {
  job = job.id;
  entry = rid;
  name = name;
  agent_id = job.agent_id;
  level = job.payload.level;
  minutes = minutes_of ws job.payload;
  message = message_of job.payload job.payload.resume;
}

abbrev pub rid_of : Option String → Option String
rid_of none = none
rid_of (some rid) = if is_rid (codes rid) then some rid else none

abbrev pub brief_of : (String → Option String) → Option String → Option (String × String)
brief_of entry_name none = none
brief_of entry_name (some rid) = elim (entry_name rid) [
  | none ↦ none
  | some name ↦ some (rid, name)
]

module _ (ws : Settings) (entry_name : String → Option String) (now room : ℕ) where
  abbrev pub begin : Job → List Job → List Group → Claim → Option (String × String) → Claim
  begin job jobs groups c none = record c {
    jobs = update_job job.id (entry_gone now) jobs;
    groups = groups;
  }
  begin job jobs groups c (some (rid, name)) = record {
    jobs = jobs;
    groups = groups;
    threads = c.threads ++ thread_of ws job rid name ∷ [];
  }

  -- One round of the loop; past a `break` the later rounds change nothing either.
  unfoldable pub claim_one : Job → Claim → Claim
  claim_one job c =
      if leb room (length c.threads)
      then c
      else if is_full job.payload.level c.groups
      then c
      else if eqb (length (filter (can_start job.id) c.jobs)) 1
      then begin job (started ws now job c.jobs) (spend job.payload.level c.groups) c
          (brief_of entry_name (rid_of job.payload.rid))
      else c

  unfoldable pub claim_each : List Job → Claim → Claim
  unfolding claim_one
  claim_each [] c = c
  claim_each (job ∷ due) c = claim_each due (claim_one job c)

abbrev pub is_due : ℕ → Job → Bool
is_due now j = is_review j.kind && (is_pending j.status && leb j.run_after now)

abbrev since : ℕ → Option ℕ → Bool
since day_start none = false
since day_start (some t) = leb day_start t

-- First starts and resumes since the day began (in UTC).
abbrev pub threads_today : ℕ → List Job → ℕ
threads_today now jobs =
    length (filter (λ j. is_review j.kind && since (now / day * day) j.claimed_at) jobs)

abbrev pub room_for : Settings → ℕ → ℕ → List Job → ℕ
room_for ws limit now jobs =
    min limit (min ws.pool_size (ws.daily_threads - threads_today now jobs))

abbrev is_limited : List Group → Bool
is_limited [] = false
is_limited (g ∷ gs) = not (eqb (length g.levels) 0) || is_limited gs

abbrev pub due_jobs : List Group → ℕ → ℕ → List Job → List Job
due_jobs groups room now jobs =
    take (if is_limited groups then min 200 (room * 10) else room)
      (sort job_before (filter (is_due now) jobs))

abbrev pub model_dep : Settings → String
model_dep ws = append "model:" ws.model

pub data Claimed : Type 0 where
  paused : Outage → Claimed
  threads : List Thread → Claimed

abbrev pub claim_in : Settings → (String → Option String) → ℕ → ℕ → List Group → Store → Claim
claim_in ws entry_name now room groups st =
    claim_each ws entry_name now room (due_jobs groups room now st.jobs)
      (record { jobs = st.jobs; groups = groups; threads = [] })

abbrev pub claim_unless :
    Settings
    → (String → Option String)
    → ℕ
    → ℕ
    → List Group
    → Store
    → Option Outage
    → Claimed × Store
claim_unless ws entry_name limit now groups st (some out) = (paused out, st)
claim_unless ws entry_name limit now groups st none =
    let c = claim_in ws entry_name now (room_for ws limit now st.jobs) groups st in
    if eqb (room_for ws limit now st.jobs) 0
    then (threads [], st)
    else (threads c.threads, record st { jobs = c.jobs })

unfoldable pub claim_threads :
    Settings → (String → Option String) → ℕ → List Group → ℕ → Store → Claimed × Store
unfolding claim_each level_room
claim_threads ws entry_name limit groups now st =
    claim_unless ws entry_name limit now (level_room groups) st (outage now (model_dep ws) st.deps)
