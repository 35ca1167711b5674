-- ===== src/Jobs/Questions.antt =====
-- graph-rag/src/server.js: the questions of threads (`assertNotWaiting`, `raiseQuestion`,
-- `answerQuestions`). The caller is a worker's thread, or anyone else; `PENDING_ID_RE` is `is_uuid`.
use Prim.Native.String.{String}
use gwarestrin.Base.{
  ℕ, zero, suc, Bool, true, false, not, ◌&&◌, ◌||◌, Option, none, some, List, [], ◌∷◌, ◌++◌, ◌==◌,
  if◌then◌else◌, leb, eqb, find, Result, ok, err,
}
use gwarestrin.Dates.{codes, is_digit}
use gwarestrin.Delegation.Texts.{take_text}
use gwarestrin.Jobs.{
  done, is_waiting, answered, open_ask, answered_ask, dismissed_ask, Question, Store, update_where,
}
use gwarestrin.Jobs.Threads.{is_asked, open_questions, open_writes, resume_thread}

abbrev hex : ℕ → Bool
hex c = is_digit c || ((leb b'a' c && leb c b'f') || (leb b'A' c && leb c b'F'))

-- `n` hexadecimal digits, then `k` of the rest.
abbrev hex_then : ℕ → (List ℕ → Bool) → List ℕ → Bool
hex_then zero k s = k s
hex_then (suc n) k [] = false
hex_then (suc n) k (c ∷ s) = hex c && hex_then n k s

abbrev dash_then : (List ℕ → Bool) → List ℕ → Bool
dash_then k [] = false
dash_then k (c ∷ s) = eqb c b'-' && k s

abbrev at_end : List ℕ → Bool
at_end [] = true
at_end (c ∷ s) = false

-- `/^[0-9a-f]{8}-[0-9a-f]{4}-[0-9a-f]{4}-[0-9a-f]{4}-[0-9a-f]{12}$/i`
unfoldable pub is_uuid : String → Bool
is_uuid s =
    hex_then 8
      (dash_then (
        hex_then 4
          (dash_then (hex_then 4 (dash_then (hex_then 4 (dash_then (hex_then 12 at_end))))))))
      (codes s)

pub data QuestionError : Type 0 where
  waiting_on_question waiting_on_proposal three_open : QuestionError

-- `job` is the thread of a worker, or `none` for any other caller.
unfoldable pub assert_not_waiting : Option String → Store → Result QuestionError Unit
assert_not_waiting none st = ok tt
assert_not_waiting (some job) st =
    if not (eqb (open_questions job st) 0)
    then err waiting_on_question
    else if not (eqb (open_writes job st) 0)
    then err waiting_on_proposal
    else ok tt

-- A worker's question: `id` is the new one's.
pub record New : Type 0 where
  pub id : String
  pub entry : String
  pub question : String
  pub options : List String
  pub why : String
  pub asked_by : String

abbrev pub new_question : New → String → ℕ → Question
new_question q job now = record {
  id = q.id;
  job_id = job;
  entry = q.entry;
  question = q.question;
  options = q.options;
  why = q.why;
  asked_by = q.asked_by;
  state = open_ask;
  answer = "";
  answered_by = none;
  at = now;
}

abbrev ask_unless :
    String → New → ℕ → Store → Result QuestionError Unit → Result QuestionError Store
ask_unless job q now st (err e) = err e
ask_unless job q now st (ok _) =
    if leb 3 (open_questions job st)
    then err three_open
    else ok (record st { questions = st.questions ++ new_question q job now ∷ [] })

unfoldable pub raise_question : String → New → ℕ → Store → Result QuestionError Store
unfolding assert_not_waiting
raise_question job q now st = ask_unless job q now st (assert_not_waiting (some job) st)

abbrev pub settle_question : Bool → String → String → Question → Question
settle_question dismiss answer by q = record q {
  state = if dismiss then dismissed_ask else answered_ask;
  answer = take_text 2000 answer;
  answered_by = some by;
}

-- A thread with nothing left to wait for is done.
abbrev pub close_if_idle : ℕ → String → Store → Store
close_if_idle now job st =
    if eqb (open_questions job st) 0
    then record st {
      jobs =
          update_where (λ j. j.id == job && is_waiting j.status)
            (λ j. record j { status = done; updated_at = now }) st.jobs;
    }
    else st

module _ (answer : String) (dismiss quiet : Bool) (by : String) (now : ℕ) where
  abbrev pub settled_store : String → Store → Store
  settled_store id st = record st {
    questions = update_where (λ q. q.id == id) (settle_question dismiss answer by) st.questions;
  }

  abbrev pub after_settling : Question → Store → Store
  after_settling q st =
      if dismiss
      then close_if_idle now q.job_id st
      else if quiet
      then st
      else resume_thread now q.job_id (answered q.question answer by) st

  unfoldable pub answer_one : String → Store → Option Store
  unfolding is_uuid
  answer_one id st =
      if is_uuid id
      then elim (find (λ q. q.id == id && is_asked q.state) st.questions) [
        | none ↦ none
        | some q ↦ some (after_settling q (settled_store id st))
      ]
      else none

  abbrev keep : String → List String × Store → List String × Store
  keep id r = (id ∷ r.0, r.1)

  -- The ids that were answered, and the store.
  unfoldable pub answer_questions : List String → Store → List String × Store
  unfolding answer_one
  answer_questions [] st = ([], st)
  answer_questions (id ∷ ids) st = elim (answer_one id st) [
    | none ↦ answer_questions ids st
    | some st' ↦ keep id (answer_questions ids st')
  ]
