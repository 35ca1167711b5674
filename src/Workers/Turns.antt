-- ===== src/Workers/Turns.antt =====
-- packages/server/src/agents/graph-pool.ts: one thread's turn (`run` after its limit is checked, `isModelOutage`).
--
-- `Outcomes` is what each awaited call of the agent manager and of the graph service gives, in the order of the
-- code; a call that throws is an error with its message. The calls that a turn makes are listed in order.
-- Aborting and releasing an agent throw nothing that reaches the code, nor does the report of a turn that failed.
use Prim.Native.String.{String, ◌++◌ as append}
use gwarestrin.Base.{
  ℕ, ◌+◌, Bool, true, false, not, ◌&&◌, ◌||◌, Option, none, some, List, [], ◌∷◌, ◌++◌, ◌==◌,
  if◌then◌else◌, leb, eqb, Result, ok, err,
}
use gwarestrin.Dates.{codes, is_digit}
use gwarestrin.Jobs.Threads.{Thread}

-- `A` to `Z` as `a` to `z`
abbrev lower : ℕ → ℕ
lower c = if leb b'A' c && leb c b'Z' then c + 32 else c

-- A pattern of plain letters, which stand for both cases; a question mark is a letter that may be missing, and a
-- dot any code unit that does not end a line, or none.
pub data Pattern : Type 0 where
  finished : Pattern
  letter perhaps : ℕ → Pattern → Pattern
  perhaps_any : Pattern → Pattern

abbrev ends_line : ℕ → Bool
ends_line c = eqb c 10 || eqb c 13 || eqb c 8232 || eqb c 8233

abbrev pub starts : Pattern → List ℕ → Bool
starts finished s = true
starts (letter a p) [] = false
starts (letter a p) (c ∷ s) = let rest = starts p s in eqb (lower c) a && rest
starts (perhaps a p) [] = starts p []
starts (perhaps a p) (c ∷ s) =
    let with_it = starts p s in
    let without = starts p (c ∷ s) in (eqb (lower c) a && with_it) || without
starts (perhaps_any p) [] = starts p []
starts (perhaps_any p) (c ∷ s) =
    let with_it = starts p s in
    let without = starts p (c ∷ s) in (not (ends_line c) && (leb c 65535 && with_it)) || without

abbrev pub matches : Pattern → List ℕ → Bool
matches p [] = starts p []
matches p (c ∷ s) = starts p (c ∷ s) || matches p s

abbrev plain_letters : List ℕ → Pattern → Pattern
plain_letters [] p = p
plain_letters (c ∷ s) p = letter (lower c) (plain_letters s p)

abbrev plain : String → Pattern
plain s = plain_letters (codes s) finished

abbrev plain_then : String → Pattern → Pattern
plain_then s p = plain_letters (codes s) p

abbrev outage_patterns : List Pattern
outage_patterns =
    plain "connection error"
    ∷ plain "terminated"
    ∷ plain_then "time" (perhaps b'd' (perhaps 32 (plain "out")))
    ∷ plain "fetch failed"
    ∷ plain "socket hang up"
    ∷ plain "econn"
    ∷ plain "etimedout"
    ∷ plain "eai_again"
    ∷ plain "enotfound"
    ∷ plain "overloaded"
    ∷ plain_then "rate" (perhaps_any (plain "limit"))
    ∷ plain "insufficient credits"
    ∷ plain "service unavailable"
    ∷ plain "bad gateway"
    ∷ []

-- `\w`
abbrev is_word : ℕ → Bool
is_word c = is_digit c || (leb b'a' (lower c) && leb (lower c) b'z') || eqb c b'_'

abbrev ends_word : List ℕ → Bool
ends_word [] = true
ends_word (c ∷ s) = not (is_word c)

abbrev is_outage_code : ℕ → ℕ → ℕ → Bool
is_outage_code a b c =
    (eqb a b'4' && eqb b b'0' && (eqb c b'2' || eqb c b'8'))
    || (eqb a b'4' && eqb b b'2' && eqb c b'9')
    || (eqb a b'5' && is_digit b && is_digit c)

-- `\b(402|408|429|5\d\d)\b`; `inside` says that a word character stands in front.
abbrev pub has_outage_code : Bool → List ℕ → Bool
has_outage_code inside (a ∷ b ∷ c ∷ s) =
    (not inside && is_outage_code a b c && ends_word s) || has_outage_code (is_word a) (b ∷ c ∷ s)
has_outage_code inside _ = false

abbrev matches_any : List Pattern → List ℕ → Bool
matches_any [] s = false
matches_any (p ∷ ps) s = matches p s || matches_any ps s

unfoldable pub is_model_outage : String → Bool
is_model_outage ended =
    matches_any outage_patterns (codes ended) || has_outage_code false (codes ended)

-- The latest turn: what it last said, and why it ended badly if it did.
pub record Turn : Type 0 where
  pub text : String
  pub ended : Option String

pub data Status : Type 0 where
  turn_done turn_failed : Status

-- The report to `/api/worker/threads/:job/finish`.
pub record Report : Type 0 where
  pub status : Status
  pub summary : String
  pub outage : Option String

pub data Call : Type 0 where
  create_agent : Call
  tell_agent : (agent_id : String) → Call
  start_agent prompt_agent abort_agent release_agent : (agent_id : String) → Call
  finish_thread : Report → Call

pub record Outcomes : Type 0 where
  pub stored : String → Bool
  pub running : String → Bool
  pub created : Result String String
  pub told : Result String Unit
  pub started : Result String Unit
  pub prompted : Result String Unit
  pub settled : Result String Unit
  pub turn : Result String Turn
  pub finished_ok : Result String Unit

-- The calls made so far, the agent if there is one, and the message of the call that threw.
pub record Progress : Type 0 where
  pub calls : List Call
  pub agent : Option String
  pub thrown : Option String

abbrev pub known_agent : (String → Bool) → Option String → Option String
known_agent stored none = none
known_agent stored (some id) = if stored id then some id else none

abbrev pub report_of : Turn → Option String → Report
report_of turn none = record { status = turn_done; summary = turn.text; outage = none }
report_of turn (some ended) = record {
  status = turn_failed;
  summary = if turn.text == "" then ended else append turn.text (append "\n\n(" (append ended ")"));
  outage = if is_model_outage ended then some ended else none;
}

abbrev pub after_call : Result String Unit → Progress → (Progress → Progress) → Progress
after_call (err message) p next = record p { thrown = some message }
after_call (ok done) p next = next p

abbrev pub made : Call → Progress → Progress
made call p = record p { calls = p.calls ++ call ∷ [] }

abbrev pub for_agent : (String → Call) → Option String → List Call
for_agent call none = []
for_agent call (some id) = call id ∷ []

abbrev pub failed_report : String → Report
failed_report message = record { status = turn_failed; summary = message; outage = none }

module _ (o : Outcomes) where
  abbrev pub finish_turn : Result String Turn → Progress → Progress
  finish_turn (err message) p = record p { thrown = some message }
  finish_turn (ok turn) p =
      after_call o.finished_ok (made (finish_thread (report_of turn turn.ended)) p) (λ q. q)

  abbrev pub take_turn : String → Progress → Progress
  take_turn id p =
      after_call o.prompted (made (prompt_agent id) p)
        (λ q. after_call o.settled q (λ r. finish_turn o.turn r))

  abbrev pub start_turn : String → Progress → Progress
  start_turn id p =
      if o.running id
      then take_turn id p
      else after_call o.started (made (start_agent id) p) (λ q. take_turn id q)

  abbrev pub with_new_agent : Result String String → Progress → Progress
  with_new_agent (err message) p = record p { thrown = some message }
  with_new_agent (ok id) p =
      after_call o.told (made (tell_agent id) (record p { agent = some id })) (λ q. start_turn id q)

  -- The `try` block.
  abbrev pub try_turn : Option String → Progress
  try_turn none =
      with_new_agent o.created (record { calls = create_agent ∷ []; agent = none; thrown = none })
  try_turn (some id) = start_turn id (record { calls = []; agent = some id; thrown = none })

  -- The `catch` block.
  abbrev pub caught : Option String → Progress → List Call
  caught none p = p.calls
  caught (some message) p =
      p.calls ++ for_agent abort_agent p.agent ++ finish_thread (failed_report message) ∷ []

  -- A turn's calls, up to the release of its agent in the `finally` block.
  unfoldable pub run_turn : Thread → List Call
  unfolding is_model_outage
  run_turn t =
      let p = try_turn (known_agent o.stored t.agent_id) in
      caught p.thrown p ++ for_agent release_agent p.agent
