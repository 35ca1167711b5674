-- ===== src/Jobs/Rows.antt =====
-- graph-rag/src/server.js: the rows of the store: jobs, questions, queued writes, signals.
use gwarestrin.Base.{ℕ, String, Bool, true, false, Option, List}
use gwarestrin.Health.{Deps}

pub data Status : Type 0 where
  pending running waiting done failed closed : Status

pub data Kind : Type 0 where
  review mentions handler intake : Kind

abbrev pub is_pending : Status → Bool
is_pending pending = true
is_pending _ = false

abbrev pub is_running : Status → Bool
is_running running = true
is_running _ = false

abbrev pub is_waiting : Status → Bool
is_waiting waiting = true
is_waiting _ = false

abbrev pub is_done : Status → Bool
is_done done = true
is_done _ = false

abbrev pub is_failed : Status → Bool
is_failed failed = true
is_failed _ = false

abbrev pub is_review : Kind → Bool
is_review review = true
is_review _ = false

abbrev pub is_handler : Kind → Bool
is_handler handler = true
is_handler _ = false

abbrev pub is_intake : Kind → Bool
is_intake intake = true
is_intake _ = false

abbrev pub is_mentions : Kind → Bool
is_mentions mentions = true
is_mentions _ = false

pub data Decision : Type 0 where
  approved rejected broken handled : Decision

-- What a waiting thread resumes with: an answer, a decision on its proposal, or a reply.
pub data Resume : Type 0 where
  answered : (question answer by : String) → Resume
  decided :
      (proposal : String) (decision : Decision) (reason : String) (by : Option String) → Resume
  replied : (message by : String) → Resume

pub record Task : Type 0 where
  pub title : String
  pub brief : String

-- `to_master` is `parent === MASTER`.
pub record Payload : Type 0 where
  pub rid : Option String
  pub level : ℕ
  pub minutes : ℕ
  pub outages : ℕ
  pub resume : Option Resume
  pub next_resume : List Resume
  pub to_master : Bool
  pub entries : List String
  pub task : Option Task
  pub why : Option String
  pub for_job : Option String

pub record Job : Type 0 where
  pub id : String
  pub kind : Kind
  pub job_key : String
  pub payload : Payload
  pub status : Status
  pub attempts : ℕ
  pub priority : ℕ
  pub run_after : ℕ
  pub created_at : ℕ
  pub updated_at : ℕ
  pub summary : String
  pub error : String
  pub agent_id : Option String
  pub lease_until : Option ℕ
  pub claimed_at : Option ℕ

pub data Ask : Type 0 where
  open_ask answered_ask dismissed_ask : Ask

-- A row of `WorkerQuestion`.
pub record Question : Type 0 where
  pub id : String
  pub job_id : String
  pub entry : String
  pub question : String
  pub options : List String
  pub why : String
  pub asked_by : String
  pub state : Ask
  pub answer : String
  pub answered_by : Option String
  pub at : ℕ

pub data WriteState : Type 0 where
  pending executing approved rejected failed : WriteState

abbrev pub undecided : WriteState → Bool
undecided pending = true
undecided _ = false

-- The kinds of `PendingWrite` that the code tells apart here.
pub data WriteKind : Type 0 where
  command upsert ingest other : WriteKind
  rehome : (from : Option String) (to : String) → WriteKind

-- A row of `PendingWrite`.
pub record Write : Type 0 where
  pub id : String
  pub kind : WriteKind
  pub requested_by : String
  pub created_at : ℕ
  pub state : WriteState
  pub home : Option String
  pub note : Option String
  pub job : Option String
  pub approved_by : Option String
  pub executed_at : Option ℕ

pub data Signal : Type 0 where
  batch : (id : String) (entries : List String) → Signal
  done_signal : (job title summary : String) → Signal
  stopped : (job title : String) (for_good : Bool) → Signal
  resolved : (job decision : String) → Signal

pub record Store : Type 0 where
  pub jobs : List Job
  pub questions : List Question
  pub writes : List Write
  pub signals : List Signal
  pub deps : Deps

-- The model's settings: `workerModel()` and the pool's numbers that these operations read.
pub record Settings : Type 0 where
  pub model : String
  pub pool_size : ℕ
  pub daily_threads : ℕ
  pub thread_minutes : ℕ
  pub batch_size : ℕ
  pub batch_minutes : ℕ
  pub max_handlers : ℕ
  pub master : Bool
