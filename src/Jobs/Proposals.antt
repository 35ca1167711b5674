-- ===== src/Jobs/Proposals.antt =====
-- graph-rag/src/server.js: queued writes and their decisions (`queueWrite`, `mayReview`, `listPending`,
-- `approvePending`, `rejectPending`, `decideProposal`, `needsOperator`).
--
-- `execute` is what carrying out the write (`executePending`) comes to: `none`, or the message of the
-- error that it throws. What an approved or rejected write does to waiting shares and to the document
-- store is left out.
use Prim.Native.String.{String}
use gwarestrin.Base.{
  ℕ, Bool, true, false, not, ◌&&◌, ◌||◌, Option, none, some, List, [], ◌∷◌, ◌++◌, ◌==◌,
  if◌then◌else◌, eqb, ltb, length, filter, find, sort, Result, ok, err,
}
use gwarestrin.Delegation.Texts.{take_text}
use gwarestrin.Positions.{PositionMap, Move, restrict, widen, held_positions, can_see, move_kind}
use gwarestrin.Callers.{Caller, Server}
use gwarestrin.Jobs.{
  decided, Decision, approved, rejected, broken, Write, WriteKind, WriteState, pending, executing,
  failed, command, upsert, ingest, other, rehome, undecided, Store, update_where, take,
}
use gwarestrin.Jobs.Threads.{resume_thread}
use gwarestrin.Jobs.Questions.{is_uuid}

unfoldable pub queue_write : Write → Store → Store
queue_write w st = record st {
  writes = st.writes ++ record w { state = pending; approved_by = none; executed_at = none } ∷ [];
}

abbrev pub review_in : PositionMap → List String → Write → WriteKind → Bool
review_in m held w (rehome from to) = can_see m held w.home && can_see m held (some to)
review_in m held w _ = can_see m held w.home

abbrev pub review_at : Option PositionMap → List String → Write → Bool
review_at none held w = false
review_at (some m) held w = review_in m (held_positions m held) w w.kind

-- May the approver see where the write lands, and where it comes from?
unfoldable pub may_review : Server → Caller → Write → Bool
may_review sv c w =
    if not sv.scoped || c.is_open then true else review_at sv.position_map c.positions w

-- `ORDER BY created_at DESC`
abbrev newer : Write → Write → Bool
newer a b = ltb b.created_at a.created_at

unfoldable pub list_pending : Server → Caller → List Write → List Write
list_pending sv c writes =
    filter (may_review sv c) (take 100 (sort newer (filter (λ w. undecided w.state) writes)))

pub data DecideError : Type 0 where
  invalid_id none_pending already_handled : DecideError
  not_applied : String → DecideError

abbrev pub pending_write : String → List Write → Option Write
pending_write id writes = find (λ w. w.id == id && undecided w.state) writes

-- `UPDATE PendingWrite SET status = ... WHERE id = :id AND status = 'pending'`
abbrev pub claim_write : String → WriteState → String → List Write → List Write
claim_write id s by writes =
    update_where (λ w. w.id == id && undecided w.state)
      (λ w. record w { state = s; approved_by = some by }) writes

abbrev pub reject_write : String → ℕ → String → List Write → List Write
reject_write id now by writes =
    update_where (λ w. w.id == id && undecided w.state)
      (λ w. record w { state = rejected; executed_at = some now; approved_by = some by }) writes

abbrev pub set_state : String → WriteState → ℕ → List Write → List Write
set_state id s now writes =
    update_where (λ w. w.id == id) (λ w. record w { state = s; executed_at = some now }) writes

abbrev kind_word : WriteKind → String
kind_word command = "command"
kind_word upsert = "upsert"
kind_word ingest = "ingest"
kind_word other = "other"
kind_word (rehome from to) = "rehome"

abbrev shown_note : Option String → WriteKind → String
shown_note none k = kind_word k
shown_note (some s) k = if s == "" then kind_word k else s

-- The thread that proposed the write hears of the decision.
abbrev pub tell : ℕ → Bool → Write → Decision → String → String → Store → Store
tell now quiet w d reason by st = elim w.job [
  | none ↦ st
  | some job ↦
      if job == "" || quiet
      then st
      else resume_thread now job (decided (shown_note w.note w.kind) d reason (some by)) st
]

abbrev pub one_pending : String → List Write → Bool
one_pending id writes = eqb (length (filter (λ w. w.id == id && undecided w.state) writes)) 1

module _ (sv : Server) (c : Caller) (now : ℕ) (reason : String) (quiet : Bool) where
  -- The write was claimed: it is carried out, and its thread hears how that went.
  abbrev pub carry_out : Option String → String → Write → Store → Result DecideError Unit × Store
  carry_out none id w st = (
    ok tt,
    tell now quiet w approved reason c.user
        (record st { writes = set_state id approved now st.writes }),
  )
  carry_out (some message) id w st = (
    err (not_applied message),
    tell now quiet w broken (take_text 600 message) c.user
        (record st { writes = set_state id failed now st.writes }),
  )

  abbrev pub approve_found :
      (Write → Option String) → String → Store → Write → Result DecideError Unit × Store
  approve_found execute id st w =
      if may_review sv c w
      then (if one_pending id st.writes
          then carry_out (execute w) id w
              (record st { writes = claim_write id executing c.user st.writes })
          else (err already_handled, st))
      else (err none_pending, st)

  unfoldable pub approve_pending :
      (Write → Option String) → String → Store → Result DecideError Unit × Store
  approve_pending execute id st =
      if is_uuid id
      then elim (pending_write id st.writes) [
        | none ↦ (err none_pending, st)
        | some w ↦ approve_found execute id st w
      ]
      else (err invalid_id, st)

  abbrev pub reject_found : String → Store → Write → Result DecideError Unit × Store
  reject_found id st w =
      if may_review sv c w
      then (if one_pending id st.writes
          then (
            ok tt,
            tell now quiet w rejected reason c.user
                (record st { writes = reject_write id now c.user st.writes }),
          )
          else (err already_handled, st))
      else (err none_pending, st)

  unfoldable pub reject_pending : String → Store → Result DecideError Unit × Store
  reject_pending id st =
      if is_uuid id
      then elim (pending_write id st.writes) [
        | none ↦ (err none_pending, st)
        | some w ↦ reject_found id st w
      ]
      else (err invalid_id, st)

abbrev is_job_write : Write → Bool
is_job_write w = elim w.job [ none ↦ false | some _ ↦ true ]

-- The decision on a worker's proposal.
unfoldable pub decide_proposal :
    Server
    → Caller
    → ℕ
    → (Write → Option String)
    → String
    → Bool
    → String
    → Store
    → Result DecideError Unit × Store
unfolding approve_pending reject_pending
decide_proposal sv c now execute id approve reason st =
    elim (find (λ w. w.id == id && (undecided w.state && is_job_write w)) st.writes) [
      | none ↦ (err none_pending, st)
      | some w ↦
          if approve
          then approve_pending sv c now reason false execute id st
          else reject_pending sv c now reason false id st
    ]

pub data OperatorOnly : Type 0 where
  raw_command widening : OperatorOnly

abbrev is_widening : Move → Bool
is_widening widen = true
is_widening restrict = false

abbrev operator_for : PositionMap → WriteKind → Option OperatorOnly
operator_for m command = some raw_command
operator_for m (rehome from to) = if is_widening (move_kind m from to) then some widening else none
operator_for m _ = none

-- Raw commands and widening who sees something are the operator's.
unfoldable pub needs_operator : PositionMap → String → List Write → Option OperatorOnly
needs_operator m id writes = elim (find (λ w. w.id == id) writes) [
  | none ↦ none
  | some w ↦ operator_for m w.kind
]
