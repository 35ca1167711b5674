-- ===== src/Jobs/Sequences.antt =====
-- graph-rag/src/server.js: the operations on threads, one after another in any order.
use Prim.Native.String.{String}
use gwarestrin.Base.{ℕ, ◌≡◌, Bool, false, Option, some, List, ok}
use gwarestrin.Callers.{Caller, Server}
use gwarestrin.Jobs.{Resume, Job, Store, Write, Settings, review_of}
use gwarestrin.Jobs.Tries.{is_over}
use gwarestrin.Jobs.Threads.{Report, NextStep, Group, resume_thread, finish_thread, claim_threads}
use gwarestrin.Jobs.Questions.{New, raise_question, answer_questions}
use gwarestrin.Jobs.Proposals.{queue_write, approve_pending, reject_pending}
use gwarestrin.Jobs.Master.{answer_worker, close_worker}
use gwarestrin.Jobs.Ticks.{expire_leases, wake_idle_waiting}

-- One operation, at any time and with any arguments.
pub data Step : Store → Store → Type 0 where
  claim :
      (ws : Settings) (entry_name : String → Option String) (limit : ℕ) (groups : List Group)
      (now : ℕ) (st : Store)
      → Step st (claim_threads ws entry_name limit groups now st).1
  finish :
      (show : ℕ → String) (ws : Settings) (now : ℕ) (id : String) (r : Report) (st : Store)
      (res : NextStep × Store)
      → finish_thread show ws now id r st ≡ ok res
      → Step st res.1
  resume : (now : ℕ) (id : String) (r : Resume) (st : Store) → Step st (resume_thread now id r st)
  expire : (now : ℕ) (st : Store) → Step st (record st { jobs = expire_leases now st.jobs })
  wake_idle : (now : ℕ) (st : Store) → Step st (wake_idle_waiting now st)
  ask :
      (job : String) (q : New) (now : ℕ) (st st' : Store)
      → raise_question job q now st ≡ ok st'
      → Step st st'
  answer :
      (answer : String) (dismiss quiet : Bool) (by : String) (now : ℕ) (qs : List String)
      (st : Store)
      → Step st (answer_questions answer dismiss quiet by now qs st).1
  propose : (w : Write) (st : Store) → Step st (queue_write w st)
  approve :
      (sv : Server) (c : Caller) (now : ℕ) (reason : String) (quiet : Bool)
      (execute : Write → Option String) (id : String) (st : Store)
      → Step st (approve_pending sv c now reason quiet execute id st).1
  reject :
      (sv : Server) (c : Caller) (now : ℕ) (reason : String) (quiet : Bool) (id : String)
      (st : Store)
      → Step st (reject_pending sv c now reason quiet id st).1
  reply :
      (job answer by : String) (now : ℕ) (st : Store) → Step st (answer_worker job answer by now st)
  close :
      (sv : Server) (c : Caller) (now : ℕ) (job summary : String) (st : Store)
      → Step st (close_worker sv c now job summary st)

pub data Reach (s : Store) : Store → Type 0 where
  here : Reach s s
  next : {t u : Store} → Reach s t → Step t u → Reach s u

-- A step is late if it reports the turn of a thread that has failed or is closed.
abbrev pub IsTimely : {s t : Store} → Step s t → Type 0
IsTimely (finish show ws now id r st res f) =
    (j : Job) → review_of id st.jobs ≡ some j → is_over j.status ≡ false
IsTimely (claim ws entry_name limit groups now st) = Unit
IsTimely (resume now id r st) = Unit
IsTimely (expire now st) = Unit
IsTimely (wake_idle now st) = Unit
IsTimely (ask job q now st st' e) = Unit
IsTimely (answer a dismiss quiet by now qs st) = Unit
IsTimely (propose w st) = Unit
IsTimely (approve sv c now reason quiet execute id st) = Unit
IsTimely (reject sv c now reason quiet id st) = Unit
IsTimely (reply job a by now st) = Unit
IsTimely (close sv c now job summary st) = Unit

abbrev pub NoneLate : {s t : Store} → Reach s t → Type 0
NoneLate here = Unit
NoneLate (next r step) = NoneLate r × IsTimely step
