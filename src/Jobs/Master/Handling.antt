-- ===== src/Jobs/Master/Handling.antt =====
-- graph-rag/src/server.js: handlers and their decisions (`startHandler`, `handlerDecide`).
use Prim.Native.String.{String, ◌++◌ as append}
use gwarestrin.Base.{
  ℕ, Bool, true, false, not, ◌&&◌, ◌||◌, Option, none, some, List, [], ◌∷◌, ◌++◌, ◌==◌,
  if◌then◌else◌, leb, length, filter, find, map, Result, ok, err, ◌>>=◌,
}
use gwarestrin.Dates.{codes}
use gwarestrin.Callers.{Caller, Server, trim_text}
use gwarestrin.Delegation.Texts.{take_text, is_job_id, after_prefix}
use gwarestrin.Jobs.{
  done, is_waiting, is_done, is_handler, handler, replied, Payload, empty_payload, Job, new_job,
  Write, undecided, resolved, Store, Settings, update_job, review_of,
}
use gwarestrin.Jobs.Threads.{resume_thread}
use gwarestrin.Jobs.Questions.{answer_questions}
use gwarestrin.Jobs.Proposals.{approve_pending, reject_pending, DecideError}
use gwarestrin.Jobs.Master.Batches.{open_question_ids, open_write_ids, is_halted}

pub data HandlerError : Type 0 where
  which_worker no_worker not_waiting halted no_handler already_decided nothing_to_record :
      HandlerError
  not_one_pending : String → HandlerError
  not_rejected : DecideError → HandlerError

abbrev handler_payload : String → Payload
handler_payload job = record empty_payload { for_job = some job }

-- `id` is the new job's. The title and the description are text for the operator.
unfoldable pub start_handler : Settings → String → String → ℕ → Store → Result HandlerError Store
start_handler ws job id now st =
    if not (is_job_id job) then err which_worker else elim (review_of job st.jobs) [
      | none ↦ err no_worker
      | some found ↦
          if not (is_waiting found.status)
          then err not_waiting
          else if is_halted ws st
          then err halted
          else ok (record st {
            jobs =
                st.jobs
                ++ new_job id handler (append "handler:" (append job (append ":" (take_text 8 id))))
                    (handler_payload job) 9 now
                  ∷ [];
          })
    ]

abbrev starts_with : String → String → Bool
starts_with s p = elim (after_prefix p s) [ none ↦ false | some _ ↦ true ]

abbrev pub matches : String → String → Bool
matches id p = p == id || (leb 8 (length (codes id)) && starts_with p id)

abbrev pub one_of : String → List String → Result HandlerError String
one_of id (p ∷ []) = ok p
one_of id _ = err (not_one_pending id)

abbrev own_or : String → List String → List String → Result HandlerError String
own_or id [] pending_ids = one_of id (filter (matches id) pending_ids)
own_or id own pending_ids = one_of id own

-- The one pending proposal that an id or its beginning names, the worker's own first.
abbrev pub resolve_write : List String → List String → String → Result HandlerError String
resolve_write mine pending_ids id = own_or id (filter (matches id) mine) pending_ids

abbrev pub resolve_writes :
    List String → List String → List String → Result HandlerError (List String)
resolve_writes mine pending_ids [] = ok []
resolve_writes mine pending_ids (id ∷ ids) = resolve_write mine pending_ids id >>= λ w.
    resolve_writes mine pending_ids ids >>= λ ws. ok (w ∷ ws)

-- The handler's call: an answer, proposals to apply, and proposals to reject with a reason.
pub record Decided : Type 0 where
  pub answer : Option String
  pub approve : List String
  pub reject : List (String × String)

abbrev is_blank : Option String → Bool
is_blank none = true
is_blank (some s) = trim_text s == ""

abbrev is_none : List String → Bool
is_none [] = true
is_none (x ∷ xs) = false

abbrev zip_reasons : List String → List (String × String) → List (String × String)
zip_reasons [] rs = []
zip_reasons (id ∷ ids) [] = []
zip_reasons (id ∷ ids) (r ∷ rs) = (id, r.1) ∷ zip_reasons ids rs

-- The ids that the call names, or what is wrong with it; nothing is recorded before this holds.
abbrev pub read_decision :
    List String → List String → Decided → Result HandlerError (List String × List (String × String))
read_decision mine pending_ids d = resolve_writes mine pending_ids d.approve >>= λ approve.
    resolve_writes mine pending_ids (map (λ r. r.0) d.reject) >>= λ reject.
    if is_blank d.answer && (is_none approve && is_none reject)
    then err nothing_to_record
    else ok (approve, zip_reasons reject d.reject)

abbrev note_of : (DecideError → String) → String → Result DecideError Unit → String
note_of explain id (ok _) = append "applied " (take_text 8 id)
note_of explain id (err e) =
    append "couldn't apply " (append (take_text 8 id) (append ": " (take_text 120 (explain e))))

abbrev answer_parts : Option String → List String
answer_parts none = []
answer_parts (some s) = if s == "" then [] else append "The operator: " s ∷ []

abbrev join : List String → String
join [] = ""
join (s ∷ []) = s
join (s ∷ t ∷ ts) = append s (append "; " (join (t ∷ ts)))

abbrev carry_on : String → String
carry_on s = if s == "" then "The operator looked at it: carry on." else s

abbrev pub text_or_none : Option String → String
text_or_none none = "undefined"
text_or_none (some s) = s

abbrev pub on_word : Caller → Caller
on_word c = record c { user = append c.user " (on the operator's word)" }

module _ (sv : Server) (now : ℕ) (execute : Write → Option String)
    (explain : DecideError → String) where
  -- Each approval is tried; what fails is noted.
  abbrev pub apply_all : Caller → List String → List String → Store → List String × Store
  apply_all c [] notes st = (notes, st)
  apply_all c (id ∷ ids) notes st =
      let (r, st') = approve_pending sv c now "" true execute id st in
      apply_all c ids (notes ++ note_of explain id r ∷ []) st'

  -- A rejection that fails stops the handler's call.
  abbrev pub reject_each :
      Caller
      → List (String × String)
      → List String
      → Store
      → Result HandlerError (List String) × Store
  reject_each c [] notes st = (ok notes, st)
  reject_each c ((id, reason) ∷ rs) notes st =
      let (r, st') = reject_pending sv c now reason true id st in
      let rest = reject_each c rs (notes ++ append "rejected " (take_text 8 id) ∷ []) st' in
      elim r [ ok _ ↦ rest | err e ↦ (err (not_rejected e), st') ]

  abbrev answer_open : String → Decided → String → Store → Store
  answer_open job d by st = elim d.answer [
    | none ↦ st
    | some s ↦
        if s == ""
        then st
        else (answer_questions s false true by now (open_question_ids job st) st).1
  ]

  abbrev conclude : String → String → Decided → String → List String → Store → Store
  conclude own job d by notes st =
      let decision = join (answer_parts d.answer ++ notes) in
      let st1 = resume_thread now job (replied (carry_on decision) by) (answer_open job d by st) in
      record st1 {
        jobs =
            update_job own
              (λ j. record j { status = done; summary = take_text 2000 decision; updated_at = now })
              st1.jobs;
        signals = st1.signals ++ resolved job decision ∷ [];
      }

  abbrev pub finish_decision :
      String
      → String
      → Decided
      → Caller
      → Result HandlerError (List String) × Store
      → Result HandlerError Unit × Store
  finish_decision own job d c (err e, st) = (err e, st)
  finish_decision own job d c (ok notes, st) = (ok tt, conclude own job d c.user notes st)

  abbrev pub carry_decision :
      String
      → String
      → Decided
      → Caller
      → Store
      → Result HandlerError (List String × List (String × String))
      → Result HandlerError Unit × Store
  carry_decision own job d c st (err e) = (err e, st)
  carry_decision own job d c st (ok (approve, reject)) =
      let (notes, st1) = apply_all (on_word c) approve [] st in
      finish_decision own job d (on_word c) (reject_each (on_word c) reject notes st1)

  abbrev pub decide_for : String → Decided → Caller → Store → Job → Result HandlerError Unit × Store
  decide_for own d c st h =
      let job = text_or_none h.payload.for_job in
      if is_done h.status
      then (err already_decided, st)
      else carry_decision own job d c st (
          read_decision (open_write_ids job st)
            (map (λ w. w.id) (filter (λ w. undecided w.state) st.writes)) d)

  -- `own` is the handler's job.
  unfoldable pub handler_decide :
      String → Decided → Caller → Store → Result HandlerError Unit × Store
  handler_decide own d c st = elim (find (λ j. j.id == own && is_handler j.kind) st.jobs) [
    | none ↦ (err no_handler, st)
    | some h ↦ decide_for own d c st h
  ]
