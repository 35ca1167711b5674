-- ===== src/Jobs/Examples.antt =====
-- Threads, questions and proposals of a small queue.
use Prim.Native.String.{String}
use gwarestrin.Base.{ℕ, ◌≤◌, ◌≡◌, refl, true, false, Option, none, some, [], ◌∷◌, arith, ok, err}
use gwarestrin.Delegation.{ordinary}
use gwarestrin.Positions.Examples.{org}
use gwarestrin.Positions.{can_see}
use gwarestrin.Health.{outage}
use gwarestrin.Callers.{Caller, Server}
use gwarestrin.Callers.Homes.{server_of}
use gwarestrin.Jobs.{
  pending, running, waiting, done, review, handler, answered, replied, empty_payload, Job, new_job,
  Store, Write, executing, rehome, Settings, review_of, empty_payload,
}
use gwarestrin.Jobs.Threads.{
  Claimed, about_entry, threads, Thread, next, Report, resume_thread, finish_thread, claim_threads,
  wake,
}
use gwarestrin.Jobs.Questions.{is_uuid, New, raise_question, new_question, answer_questions}
use gwarestrin.Jobs.Proposals.{
  claim_write, approve_pending, reject_pending, may_review, pending_write, none_pending,
}
use gwarestrin.Jobs.Master.{close_worker, handler_decide, Decided, already_decided}
use gwarestrin.Jobs.Ticks.{expire_leases}
use gwarestrin.Jobs.Sequences.{Reach, here, next, finish, expire}
use gwarestrin.Jobs.Approvals.{approve_pending-decides, approved_once, was_tried}
use gwarestrin.Jobs.Handlers.{handler_decide-refused}
use gwarestrin.Jobs.Delivery.{finish_thread-delivers}
use gwarestrin.Jobs.Race.{Racing, take_it, untouched, and_then, Raced, look, carry_out, runs_once}

abbrev j1 : String
j1 = "00000000-0000-0000-0000-000000000001"

abbrev w1 : String
w1 = "00000000-0000-0000-0000-0000000000a1"

abbrev ws : Settings
ws = record {
  model = "m";
  pool_size = 2;
  daily_threads = 10;
  thread_minutes = 30;
  batch_size = 5;
  batch_minutes = 10;
  max_handlers = 1;
  master = true;
}

-- A thread about an entry, which is due.
abbrev fresh : Job
fresh = new_job j1 review "review:#1:1" (record empty_payload { rid = some "#1:1" }) 1 1000

abbrev store_of : Job → Store
store_of j = record { jobs = j ∷ []; questions = []; writes = []; signals = []; deps = [] }

abbrev entry : String → Option String
entry rid = some "the rota"

abbrev claimed : Claimed × Store
claimed = claim_threads ws entry 1 [] 2000 (store_of fresh)

abbrev on_rota : Thread
on_rota = record {
  job = j1;
  entry = "#1:1";
  name = "the rota";
  agent_id = none;
  level = 0;
  minutes = 30;
  message = about_entry none;
}

hands_out : claimed.0 ≡ threads (on_rota ∷ [])
unfolding claim_threads outage
hands_out = refl

abbrev no_report : Report
no_report = record { failed = true; summary = "stuck"; outage = none }

abbrev show : ℕ → String
show n = "1"

-- The same job, running.
abbrev busy : Job
busy = record fresh {
  status = running;
  claimed_at = some 2000;
  lease_until = some 2102000;
  updated_at = 2000;
}

starts : claimed.1 ≡ store_of busy
unfolding claim_threads outage
starts = refl

abbrev tried_again : Store
tried_again = store_of (record busy {
  status = pending;
  attempts = 1;
  summary = "stuck";
  run_after = 123000;
  updated_at = 3000;
})

fails_once :
    finish_thread show ws 3000 j1 no_report (store_of busy) ≡ ok (next pending, tried_again)
unfolding finish_thread
fails_once = refl

claim_then_expire :
    Reach (store_of busy) (record tried_again { jobs = expire_leases 9000000 tried_again.jobs })
claim_then_expire =
    next
      (next here
        (finish show ws 3000 j1 no_report (store_of busy) (next pending, tried_again) fails_once))
      (expire 9000000 tried_again)

abbrev which_rota : New
which_rota = record {
  id = w1;
  entry = "the rota";
  question = "Which week?";
  options = [];
  why = "";
  asked_by = "ann";
}

abbrev asked : Store
asked = record (store_of busy) { questions = new_question which_rota j1 3000 ∷ [] }

asks : raise_question j1 which_rota 3000 (store_of busy) ≡ ok asked
unfolding raise_question
asks = refl

-- A turn that ends with a question open waits; its answer wakes it.
answers_wake :
    ((answer_questions "Week 12" false false "ken" 5000
      (w1 ∷ [])
      (record asked { jobs = record busy { status = waiting } ∷ [] })).1.jobs)
    ≡ wake 5000
        (answered "Which week?" "Week 12" "ken")
        busy.payload
        (record busy { status = waiting })
      ∷ []
unfolding answer_questions resume_thread
answers_wake = refl

abbrev move_up : Write
move_up = record {
  id = w1;
  kind = rehome (some "floor") "org";
  requested_by = "ann";
  created_at = 3000;
  state = pending;
  home = some "floor";
  note = none;
  job = some j1;
  approved_by = none;
  executed_at = none;
}

abbrev proposed : Store
proposed = record (store_of (record busy { status = waiting })) { writes = move_up ∷ [] }

abbrev boss : Caller
boss = record {
  user = "ann";
  key = none;
  agent = none;
  role = ordinary;
  caps = record { read = true; write = "direct"; approve = true; raw = false };
  positions = "org" ∷ [];
  is_open = false;
}

abbrev small : Server
small = server_of org [] 12

abbrev runs_fine : Write → Option String
runs_fine w = none

approves : was_tried (approve_pending small boss 6000 "" false runs_fine w1 proposed).0 ≡ true
unfolding approve_pending may_review can_see is_uuid
approves = refl

approve_pending-decides_example :
    ((w : Write) × (pending_write w1 (move_up ∷ []) ≡ some w) × (may_review small boss w ≡ true))
    × (pending_write w1 (approve_pending small boss 6000 "" false runs_fine w1 proposed).1.writes
        ≡ none)
approve_pending-decides_example =
    approve_pending-decides small boss 6000 "" false runs_fine w1 proposed approves

abbrev after_first : Store
after_first = (approve_pending small boss 6000 "" false runs_fine w1 proposed).1

approved_once_example :
    (approve_pending small boss 7000 "" false runs_fine w1 after_first
      ≡ (err none_pending, after_first))
    × (reject_pending small boss 7000 "" false w1 after_first ≡ (err none_pending, after_first))
approved_once_example =
    approved_once small small boss boss 6000 7000 "" "" false false runs_fine runs_fine w1 proposed
      approves

abbrev old_handler : Job
old_handler = record (new_job w1 handler "handler:1" empty_payload 9 1000) { status = done }

abbrev say_yes : Decided
say_yes = record { answer = some "yes"; approve = []; reject = [] }

over :
    (handler_decide small 8000 runs_fine (λ e. "") w1 say_yes boss (store_of old_handler)).0
    ≡ err already_decided
unfolding handler_decide
over = refl

handler_decide-refused_example :
    (handler_decide small 8000 runs_fine (λ e. "") w1 say_yes boss (store_of old_handler)).1
    ≡ store_of old_handler
handler_decide-refused_example =
    handler_decide-refused small 8000 runs_fine (λ e. "") w1 say_yes boss (store_of old_handler)
      already_decided over refl

finish_thread-delivers_example :
    (st' : Store) × (j' : Job) × (finish_thread show ws 9000 j1
        (record { failed = false; summary = "ready"; outage = none })
        (resume_thread 6000 j1 (replied "go on" "ken") (store_of busy))
      ≡ ok (next pending, st'))
    × (review_of j1 st'.jobs ≡ some j')
    × (j'.status ≡ pending)
    × (j'.payload.resume ≡ some (replied "go on" "ken"))
    × (j'.run_after ≡ 9000)
finish_thread-delivers_example =
    finish_thread-delivers show ws 6000 9000 j1 (replied "go on" "ken") "ready" none (store_of busy)
      busy refl refl refl refl

abbrev race_start : Racing
race_start = record { writes = move_up ∷ []; looked = []; won = []; runs = 0 }

-- Ann and Ken both find the write pending; Ann's claim takes it, and runs.
race : Raced w1 race_start (record {
  writes = claim_write w1 executing "ann" (move_up ∷ []);
  looked = "ken" ∷ "ann" ∷ [];
  won = [];
  runs = 1;
})
race =
    and_then
      (and_then
        (and_then (and_then untouched (look "ann" move_up race_start refl))
          (look "ken" move_up (record race_start { looked = "ann" ∷ [] }) refl))
        (take_it "ann" (record race_start { looked = "ken" ∷ "ann" ∷ [] }) refl refl))
      (carry_out "ann" []
        (record {
          writes = claim_write w1 executing "ann" (move_up ∷ []);
          looked = "ken" ∷ "ann" ∷ [];
          won = "ann" ∷ [];
          runs = 0;
        })
        refl)

runs_once_example : 1 ≤ 1
runs_once_example = runs_once w1 (move_up ∷ []) (omega arith) race

-- A worker that the master closes while its thread runs is queued again when the turn fails.
closed_then_queued :
    (finish_thread show ws 3000 j1 no_report
      (close_worker small boss 2500 j1 "not now" (store_of busy)))
    ≡ ok (
      next pending,
      store_of (record busy {
        status = pending;
        attempts = 1;
        summary = "stuck";
        run_after = 123000;
        updated_at = 3000;
      }),
    )
unfolding finish_thread close_worker answer_questions
closed_then_queued = refl
