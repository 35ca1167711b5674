-- ===== src/Workers/Reports.antt =====
-- packages/server/src/agents/graph-pool.ts: the report at the end of a turn.
use gwarestrin.Base.{
  String, ◌≡◌, refl, Option, none, some, List, [], ◌∷◌, ◌++◌, Result, ok, err, inl, inr, Bool-cases,
}
use mathlib.Core.List.{append_assoc}
use gwarestrin.Jobs.Threads.{Thread}
use gwarestrin.Workers.Turns.{
  Turn, turn_done, Report, Call, create_agent, tell_agent, start_agent, prompt_agent, abort_agent,
  release_agent, finish_thread, Outcomes, Progress, known_agent, report_of, after_call, made,
  finish_turn, take_turn, start_turn, with_new_agent, try_turn, for_agent, failed_report, caught,
  run_turn,
}

module _ (o : Outcomes) where
  -- A `try` block that throws nothing ends with the report of a turn that was read.
  abbrev EndsWith : List Call → Option String → Type 0
  EndsWith calls (some message) = Unit
  EndsWith calls none =
      (front : List Call) × (turn : Turn) × (o.turn ≡ ok turn)
      × (calls ≡ front ++ finish_thread (report_of turn turn.ended) ∷ [])

  abbrev Ends : Progress → Type 0
  Ends p = EndsWith p.calls p.thrown

  after_call-Ends :
      (r : Result String Unit) (p : Progress) (next : Progress → Progress)
      → Ends (next p)
      → Ends (after_call r p next)
  after_call-Ends (err message) p next h = tt
  after_call-Ends (ok done) p next h = h

  finish_turn-Ends :
      (r : Result String Turn) (p : Progress)
      → p.thrown ≡ none
      → o.turn ≡ r
      → Ends (finish_turn o r p)
  finish_turn-Ends (err message) p h e = tt
  finish_turn-Ends (ok turn) p h e =
      after_call-Ends o.finished_ok (made (finish_thread (report_of turn turn.ended)) p) (λ q. q)
        (rw h (p.calls, turn, e, refl))

  take_turn-Ends : (id : String) (p : Progress) → p.thrown ≡ none → Ends (take_turn o id p)
  take_turn-Ends id p h = after_call-Ends o.prompted (made (prompt_agent id) p) _ (
      after_call-Ends o.settled (made (prompt_agent id) p) _
        (finish_turn-Ends o.turn (made (prompt_agent id) p) h refl))

  start_turn-Ends : (id : String) (p : Progress) → p.thrown ≡ none → Ends (start_turn o id p)
  start_turn-Ends id p h = elim (Bool-cases (o.running id)) [
    | inl r ↦ rw (start_turn, r) (take_turn-Ends id p h)
    | inr r ↦
        rw (start_turn, r)
          (after_call-Ends o.started (made (start_agent id) p) (λ q. take_turn o id q)
            (take_turn-Ends id (made (start_agent id) p) h))
  ]

  with_new_agent-Ends :
      (r : Result String String) (p : Progress) → p.thrown ≡ none → Ends (with_new_agent o r p)
  with_new_agent-Ends (err message) p h = tt
  with_new_agent-Ends (ok id) p h =
      after_call-Ends o.told (made (tell_agent id) (record p { agent = some id }))
        (λ q. start_turn o id q)
        (start_turn-Ends id (made (tell_agent id) (record p { agent = some id })) h)

  try_turn-Ends : (agent : Option String) → Ends (try_turn o agent)
  try_turn-Ends none =
      with_new_agent-Ends o.created
        (record { calls = create_agent ∷ []; agent = none; thrown = none }) refl
  try_turn-Ends (some id) =
      start_turn-Ends id (record { calls = []; agent = some id; thrown = none }) refl

  after_call-agent :
      (r : Result String Unit) (p : Progress) (next : Progress → Progress) (a : Option String)
      → p.agent ≡ a
      → (next p).agent ≡ a
      → (after_call r p next).agent ≡ a
  after_call-agent (err message) p next a e h = e
  after_call-agent (ok done) p next a e h = h

  finish_turn-agent : (r : Result String Turn) (p : Progress) → (finish_turn o r p).agent ≡ p.agent
  finish_turn-agent (err message) p = refl
  finish_turn-agent (ok turn) p =
      after_call-agent o.finished_ok (made (finish_thread (report_of turn turn.ended)) p) (λ q. q)
        p.agent refl refl

  take_turn-agent : (id : String) (p : Progress) → (take_turn o id p).agent ≡ p.agent
  take_turn-agent id p = after_call-agent o.prompted (made (prompt_agent id) p) _ p.agent refl (
      after_call-agent o.settled (made (prompt_agent id) p) _ p.agent refl
        (finish_turn-agent o.turn (made (prompt_agent id) p)))

  start_turn-agent : (id : String) (p : Progress) → (start_turn o id p).agent ≡ p.agent
  start_turn-agent id p = elim (Bool-cases (o.running id)) [
    | inl r ↦ rw (start_turn, r) (take_turn-agent id p)
    | inr r ↦
        rw (start_turn, r)
          (after_call-agent o.started (made (start_agent id) p) (λ q. take_turn o id q) p.agent refl
            (take_turn-agent id (made (start_agent id) p)))
  ]

  -- The agent that a turn runs on: the one it had, or the one it made.
  abbrev pub agent_of : Option String → Result String String → Option String
  agent_of (some id) r = some id
  agent_of none (ok id) = some id
  agent_of none (err message) = none

  with_new_agent-agent :
      (r : Result String String) (p : Progress)
      → p.agent ≡ none
      → (with_new_agent o r p).agent ≡ agent_of none r
  with_new_agent-agent (err message) p h = h
  with_new_agent-agent (ok id) p h =
      after_call-agent o.told (made (tell_agent id) (record p { agent = some id }))
        (λ q. start_turn o id q) (some id) refl
        (start_turn-agent id (made (tell_agent id) (record p { agent = some id })))

  try_turn-agent : (agent : Option String) → (try_turn o agent).agent ≡ agent_of agent o.created
  try_turn-agent none =
      with_new_agent-agent o.created
        (record { calls = create_agent ∷ []; agent = none; thrown = none }) refl
  try_turn-agent (some id) =
      start_turn-agent id (record { calls = []; agent = some id; thrown = none })

  -- What a report may say: that the turn is done, with its text, only where the turn was read and did not end badly.
  abbrev pub IsTrue : Report → Type 0
  IsTrue report =
      report.status ≡ turn_done
      → (turn : Turn) × (o.turn ≡ ok turn) × (turn.ended ≡ none) × (report.summary ≡ turn.text)

  report_of-IsTrue :
      (turn : Turn) (ended : Option String)
      → o.turn ≡ ok turn
      → turn.ended ≡ ended
      → IsTrue (report_of turn ended)
  report_of-IsTrue turn none e h d = (turn, e, h, refl)
  report_of-IsTrue turn (some why) e h d = absurd (cc d)

  -- How a turn's calls end: with a true report, and with its agent given back if there is one.
  pub record Reported (agent : Option String) (calls : List Call) : Type 0 where
    pub front : List Call
    pub report : Report
    pub true_report : IsTrue report
    pub ends : calls ≡ front ++ finish_thread report ∷ for_agent release_agent agent

  caught-Reported :
      (p : Progress) (thrown : Option String) (agent : Option String)
      → EndsWith p.calls thrown
      → p.agent ≡ agent
      → Reported agent (caught o thrown p ++ for_agent release_agent p.agent)
  caught-Reported p none agent (front, turn, e, c) a = record {
    front = front;
    report = report_of turn turn.ended;
    true_report = report_of-IsTrue turn turn.ended e refl;
    ends = rw (c, a, append_assoc);
  }
  caught-Reported p (some message) agent h a = record {
    front = p.calls ++ for_agent abort_agent p.agent;
    report = failed_report message;
    true_report = λ d. absurd (cc d);
    ends = rw (a, append_assoc, append_assoc);
  }

  -- Whatever fails on the way, the calls of a turn end with a report of it and then, if it had an agent or made
  -- one, with the release of that agent; and the report says that the turn is done only if its end was read, it
  -- did not end badly, and the report has its text.
  pub run_turn-Reported :
      (t : Thread) → Reported (agent_of (known_agent o.stored t.agent_id) o.created) (run_turn o t)
  unfolding run_turn
  run_turn-Reported t =
      caught-Reported (try_turn o (known_agent o.stored t.agent_id))
        (try_turn o (known_agent o.stored t.agent_id)).thrown _
        (try_turn-Ends (known_agent o.stored t.agent_id))
        (try_turn-agent (known_agent o.stored t.agent_id))
