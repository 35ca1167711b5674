-- ===== src/Workers/Examples.antt =====
-- A pool of two threads, with a model that takes one.
use Prim.Native.String.{String}
use gwarestrin.Base.{
  ℕ, ◌≡◌, refl, true, false, Option, none, some, List, [], ◌∷◌, ◌++◌, ◌==◌, arith, ok, err, elem,
}
use gwarestrin.Dates.{instant}
use gwarestrin.Tokens.{GraphRole}
use gwarestrin.Jobs.{Settings, Store, new_job, review, empty_payload}
use gwarestrin.Jobs.Threads.{Thread, Group, about_entry}
use gwarestrin.Workers.Models.{
  Model, level_1, level_2, level_3, Profile, Workspace, model_refusal, new_thread_model_key,
  thread_model_key, model_caps, level_groups,
}
use gwarestrin.Workers.Runs.{GraphPool, PoolStatus, begin_run, end_run, tick}
use gwarestrin.Workers.Turns.{
  Turn, Outcomes, is_model_outage, run_turn, turn_failed, finish_thread, start_agent, prompt_agent,
  release_agent,
}
use gwarestrin.Workers.Idle.{AgentRecord, Process, ListedJob, job_done, release_idle, cleanup}
use gwarestrin.Workers.MasterTurn.{
  Signal, Round, stalled, Ready, given_back, master_turn, nudge_loop,
}
use gwarestrin.Workers.Limits.{WithinLimits, here, ticked, ended, Reaches-WithinLimits}
use gwarestrin.Workers.Size.{Fits, claim_from, tick-claim_from}
use gwarestrin.Workers.Reports.{Reported, run_turn-Reported}
use gwarestrin.Workers.Replies.{
  Message, Speaker, user_role, assistant_role, StopReason, other_reason, stop_error, blocks_of,
  last_of, ended_of, last_turn, last_reply,
}
use gwarestrin.Workers.Latest.{IsSaid, IsSilent, last_turn-latest}
use gwarestrin.Workers.Nudges.{IsTurn, master_turn-IsTurn}

abbrev local : Model
local = record { provider = "local"; model_id = "m" }

-- Levels 1 and 2 run on the local model, which takes one thread.
abbrev profile : Profile
profile = record {
  level_models = λ l. elim l [ level_1 ↦ some local | level_2 ↦ some local | level_3 ↦ none ];
  level_limits = λ l. elim l [ level_1 ↦ some 1 | level_2 ↦ some 2 | level_3 ↦ none ];
  default_model = none;
}

abbrev w : Workspace
w = record { metadata = none; profile = some profile; default_model = none }

abbrev no_model : String → Option Model
no_model agent_id = none

abbrev thread_at : String → ℕ → Thread
thread_at job level = record {
  job = job;
  entry = "#1:1";
  name = "the rota";
  agent_id = none;
  level = level;
  minutes = 30;
  message = about_entry none;
}

abbrev empty_pool : GraphPool
empty_pool = record { active = []; released = [] }

abbrev status : PoolStatus
status = record { pool_size = some 2; master_on = true }

abbrev two_threads : ℕ → List Group → List Thread
two_threads room groups = thread_at "a" 1 ∷ thread_at "b" 2 ∷ []

abbrev after_tick : GraphPool
after_tick = record { active = ("a", "local/m") ∷ []; released = "b" ∷ [] }

-- The second thread goes back to the queue: its model is full.
one_of_two : tick w no_model 4 0 two_threads (some status) empty_pool ≡ after_tick
unfolding tick begin_run thread_model_key new_thread_model_key model_refusal model_caps level_groups
one_of_two = refl

one_group : level_groups w after_tick.active ≡ record { left = 0; levels = 1 ∷ 2 ∷ [] } ∷ []
unfolding level_groups new_thread_model_key model_refusal model_caps
one_group = refl

empty_pool-WithinLimits : WithinLimits w empty_pool
empty_pool-WithinLimits = record { within = λ key cap e. omega arith }

Reaches-WithinLimits_example :
    WithinLimits w (end_run "a" (tick w no_model 4 0 two_threads (some status) empty_pool))
Reaches-WithinLimits_example =
    Reaches-WithinLimits w empty_pool
      (end_run "a" (tick w no_model 4 0 two_threads (some status) empty_pool))
      empty_pool-WithinLimits (ended "a" (ticked no_model 4 0 two_threads (some status) here))

abbrev queue_settings : Settings
queue_settings = record {
  model = "m";
  pool_size = 2;
  daily_threads = 10;
  thread_minutes = 30;
  batch_size = 5;
  batch_minutes = 10;
  max_handlers = 1;
  master = true;
}

abbrev queue : Store
queue = record {
  jobs = new_job "j1" review "review:#1:1" (record empty_payload { rid = some "#1:1" }) 1 1000 ∷ [];
  questions = [];
  writes = [];
  signals = [];
  deps = [];
}

abbrev rota : String → Option String
rota rid = some "the rota"

tick-claim_from_example :
    Fits w no_model status 4 1 after_tick
      (tick w no_model 4 1 (claim_from queue_settings rota 2000 queue) (some status) after_tick)
tick-claim_from_example =
    tick-claim_from w no_model queue_settings rota 2000 queue 4 1 status after_tick

abbrev cut_short : Turn
cut_short = record { text = "half of it"; ended = some "HTTP 503 from the model" }

abbrev outcomes : Outcomes
outcomes = record {
  stored = λ id. true;
  running = λ id. false;
  created = err "none needed";
  told = ok tt;
  started = ok tt;
  prompted = ok tt;
  settled = ok tt;
  turn = ok cut_short;
  finished_ok = ok tt;
}

abbrev resumed_thread : Thread
resumed_thread = record (thread_at "a" 1) { agent_id = some "x" }

outage_reported :
    run_turn outcomes resumed_thread
    ≡ start_agent "x"
      ∷ prompt_agent "x"
      ∷ finish_thread (record {
        status = turn_failed;
        summary = "half of it\n\n(HTTP 503 from the model)";
        outage = some "HTTP 503 from the model";
      })
      ∷ release_agent "x"
      ∷ []
unfolding run_turn is_model_outage
outage_reported = refl

run_turn-Reported_example : Reported outcomes (some "x") (run_turn outcomes resumed_thread)
run_turn-Reported_example = run_turn-Reported outcomes resumed_thread

abbrev worker_of : String → AgentRecord
worker_of id = record {
  id = id;
  graph_role = some (GraphRole.worker id "#1:1" "the rota");
  created_at = instant 0;
}

abbrev process_of : String → Option Process
process_of id = elim (elem id ("b" ∷ [])) [
  | true ↦ some (record { busy = false; idle_ms = 1000000 })
  | false ↦ none
]

abbrev listed : ListedJob
listed = record { id = "c"; status = job_done; updated_at = some (instant 5) }

abbrev three_workers : List AgentRecord
three_workers = worker_of "a" ∷ worker_of "b" ∷ worker_of "c" ∷ []

idle_given_back : release_idle process_of ("a" ∷ []) none three_workers ≡ worker_of "b" ∷ []
unfolding release_idle
idle_given_back = refl

old_deleted :
    cleanup process_of ("a" ∷ []) 1 200000000 (some (listed ∷ [])) none three_workers
    ≡ worker_of "c" ∷ []
unfolding cleanup
old_deleted = refl

abbrev stuck_rounds : ℕ → Round
stuck_rounds n = record { prompted = true; acked = true; outcome = stalled true }

abbrev ready : Ready
ready = record {
  master_running = true;
  since_last = 0;
  running_count = 1;
  agents_max = 4;
  started = true;
}

abbrev one_signal : List Signal
one_signal = record { id = "s1"; kind = "batch" } ∷ []

stuck_given_back : (master_turn ready stuck_rounds one_signal "plan").1 ≡ some given_back
unfolding master_turn nudge_loop
stuck_given_back = refl

master_turn-IsTurn_example : IsTurn (master_turn ready stuck_rounds one_signal "plan")
master_turn-IsTurn_example = master_turn-IsTurn ready stuck_rounds one_signal "plan"

abbrev says : Speaker → String → StopReason → Message
says role s why = record {
  role = role;
  content = blocks_of (some s ∷ []);
  stop_reason = why;
  error_message = some "503";
}

abbrev asked_before : List Message
asked_before =
    says user_role "go" other_reason ∷ says assistant_role "an old answer" other_reason ∷ []

abbrev in_turn : List Message
in_turn = says assistant_role "half of it " other_reason ∷ says assistant_role " " stop_error ∷ []

abbrev the_prompt : Message
the_prompt = says user_role "again" other_reason

reply_with_error :
    last_reply (asked_before ++ the_prompt ∷ in_turn)
    ≡ "half of it\n\n(the turn ended with an error: 503 after this)"
unfolding last_reply last_turn
reply_with_error = refl

last_turn-latest_example :
    ((last_turn (asked_before ++ the_prompt ∷ in_turn)).ended ≡ ended_of (last_of in_turn))
    × (((last_turn (asked_before ++ the_prompt ∷ in_turn)).text == "") ≡ true → IsSilent in_turn)
    × (((last_turn (asked_before ++ the_prompt ∷ in_turn)).text == "") ≡ false
        → IsSaid (last_turn (asked_before ++ the_prompt ∷ in_turn)).text in_turn)
last_turn-latest_example = last_turn-latest asked_before in_turn the_prompt refl refl
