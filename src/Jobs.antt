-- ===== src/Jobs.antt =====
-- graph-rag/src/server.js: the store behind the worker pool: jobs, questions, proposals and signals,
-- and the queue of jobs (`enqueue`).
--
-- A stored payload is the record that its JSON is parsed to; an absent number is 0, as the code reads
-- it, and an absent text `none`. A time is an instant in milliseconds. A query filters a table of the
-- store in its order of insertion, an update maps over it, and neither fails. What runs between two
-- `await`s of one operation is the other operations, one after another; an operation here runs whole.
-- Ids that the code makes at random are arguments.
mod Rows
pub mod Threads
pub mod Questions
pub mod Proposals
pub mod Master
pub mod Ticks
pub mod Updates
pub mod Claims
pub mod Tries
pub mod Turning
pub mod Passes
pub mod Starts
pub mod Asking
pub mod Handlers
pub mod Decided
pub mod Sequences
pub mod Delivery
pub mod Approvals
pub mod Race
mod Examples
pub use Rows.*
use gwarestrin.Base.{
  ℕ, zero, suc, ◌+◌, ◌-◌, ◌*◌, String, ◌≡◌, Bool, true, false, not, ◌&&◌, ◌||◌, Option, none, some,
  List, [], ◌∷◌, ◌++◌, ◌==◌, if◌then◌else◌, ltb, leb, eqb, length, head?, filter, any, find, map,
  sort,
}
use gwarestrin.Health.{Deps}

module _ {ℓ} {A : Type ℓ} where
  -- `UPDATE ... WHERE p`
  abbrev pub update_where : (A → Bool) → (A → A) → List A → List A
  update_where p f [] = []
  update_where p f (x ∷ xs) = (if p x then f x else x) ∷ update_where p f xs

  -- `LIMIT n`
  abbrev pub take : ℕ → List A → List A
  take zero xs = []
  take (suc n) [] = []
  take (suc n) (x ∷ xs) = x ∷ take n xs

  -- `xs.slice(-n)`
  abbrev pub last : ℕ → List A → List A
  last n [] = []
  last n (x ∷ xs) = let rest = last n xs in if leb (suc (length xs)) n then x ∷ xs else rest

abbrev pub update_job : String → (Job → Job) → List Job → List Job
update_job id f jobs = update_where (λ j. j.id == id) f jobs

-- The first row with this id among those of a kind.
abbrev pub review_of : String → List Job → Option Job
review_of id jobs = find (λ j. j.id == id && is_review j.kind) jobs

-- `ORDER BY priority DESC, created_at ASC`
abbrev pub job_before : Job → Job → Bool
job_before a b =
    if eqb a.priority b.priority then ltb a.created_at b.created_at else ltb b.priority a.priority

abbrev pub empty_payload : Payload
empty_payload = record {
  rid = none;
  level = 0;
  minutes = 0;
  outages = 0;
  resume = none;
  next_resume = [];
  to_master = false;
  entries = [];
  task = none;
  why = none;
  for_job = none;
}

abbrev pub new_job : String → Kind → String → Payload → ℕ → ℕ → Job
new_job id kind key payload priority now = record {
  id = id;
  kind = kind;
  job_key = key;
  payload = payload;
  status = pending;
  attempts = 0;
  priority = priority;
  run_after = now;
  created_at = now;
  updated_at = now;
  summary = "";
  error = "";
  agent_id = none;
  lease_until = none;
  claimed_at = none;
}

abbrev pub is_queued : String → Job → Bool
is_queued key j = j.job_key == key && (is_pending j.status || is_running j.status)

abbrev raise_priority : ℕ → Job → List Job → List Job
raise_priority priority found jobs =
    if ltb found.priority priority
    then update_where (λ j. j.id == found.id && is_pending j.status)
        (λ j. record j { priority = priority }) jobs
    else jobs

-- The id of the queued job, and the table.
unfoldable pub enqueue : String → Kind → String → Payload → ℕ → ℕ → List Job → String × List Job
enqueue id kind key payload priority now jobs = elim (find (is_queued key) jobs) [
  | some found ↦ (found.id, raise_priority priority found jobs)
  | none ↦ (id, jobs ++ new_job id kind key payload priority now ∷ [])
]
