-- ===== src/Jobs/Approvals.antt =====
-- graph-rag/src/server.js: the decisions on a queued write.
use Prim.Native.String.{String}
use gwarestrin.Base.{
  ℕ, ◌≡◌, refl, ap, ◌∙◌, inl, inr, Bool, true, false, ◌&&◌, ◌||◌, Option, none, some, List, [], ◌∷◌,
  ◌==◌, Bool-cases, Option-cases, &&-eq-true, Result, ok, err,
}
use gwarestrin.Callers.{Caller, Server}
use gwarestrin.Jobs.{
  Store, Write, WriteState, approved, failed, Decision, Resume, undecided, review_of,
}
use gwarestrin.Jobs.Threads.{resume_thread}
use gwarestrin.Jobs.Questions.{is_uuid}
use gwarestrin.Jobs.Proposals.{
  tell, carry_out, approve_pending, reject_pending, pending_write, one_pending, may_review,
  set_state, reject_write, DecideError, none_pending, not_applied,
}

-- The decision was carried out or failed to apply, rather than being refused.
abbrev pub was_tried : Result DecideError Unit → Bool
was_tried (ok _) = true
was_tried (err (not_applied message)) = true
was_tried (err _) = false

resume_thread-writes :
    (now : ℕ) (id : String) (r : Resume) (st : Store)
    → (resume_thread now id r st).writes ≡ st.writes
unfolding resume_thread
resume_thread-writes now id r st = elim (Option-cases (review_of id st.jobs)) [
  | inl gone ↦ rw (resume_thread, gone) refl
  | inr (found, e) ↦ rw (resume_thread, e) refl
]

tell-writes :
    (now : ℕ) (quiet : Bool) (w : Write) (d : Decision) (reason by : String) (st : Store)
    (job : Option String)
    → w.job ≡ job
    → (tell now quiet w d reason by st).writes ≡ st.writes
tell-writes now quiet w d reason by st none e = rw e refl
tell-writes now quiet w d reason by st (some job) e = rw e (elim (Bool-cases (job == "" || quiet)) [
  | inl hush ↦ rw hush refl
  | inr tells ↦ rw tells (resume_thread-writes now job _ st)
])

none_pending_after :
    (id : String) (s : WriteState) (now : ℕ) (writes : List Write)
    → undecided s ≡ false
    → pending_write id (set_state id s now writes) ≡ none
none_pending_after id s now [] k = refl
none_pending_after id s now (w ∷ writes) k = elim (Bool-cases (w.id == id)) [
  | inl at ↦ rw (at, at, k) (none_pending_after id s now writes k)
  | inr away ↦ rw (away, away) (none_pending_after id s now writes k)
]

none_pending_rejected :
    (id : String) (now : ℕ) (by : String) (writes : List Write)
    → pending_write id (reject_write id now by writes) ≡ none
none_pending_rejected id now by [] = refl
none_pending_rejected id now by (w ∷ writes) = elim (Bool-cases (w.id == id && undecided w.state)) [
  | inl open_at ↦
      rw (open_at, (&&-eq-true (w.id == id) (undecided w.state) open_at).0)
        (none_pending_rejected id now by writes)
  | inr not_open ↦ rw (not_open, not_open) (none_pending_rejected id now by writes)
]

module _ (sv : Server) (c : Caller) (now : ℕ) (reason : String) (quiet : Bool) where
  carry_out-decides :
      (o : Option String) (id : String) (w : Write) (st : Store)
      → pending_write id (carry_out sv c now reason quiet o id w st).1.writes ≡ none
  carry_out-decides none id w st =
      ap (pending_write id) (tell-writes now quiet w _ reason c.user _ w.job refl)
      ∙ none_pending_after id approved now st.writes refl
  carry_out-decides (some message) id w st =
      ap (pending_write id) (tell-writes now quiet w _ _ c.user _ w.job refl)
      ∙ none_pending_after id failed now st.writes refl

  -- Whoever approves a write, whether or not it then applies, may see where it lands and where it
  -- comes from; and afterwards no write with its id waits for a decision.
  pub approve_pending-decides :
      (execute : Write → Option String) (id : String) (st : Store)
      → was_tried (approve_pending sv c now reason quiet execute id st).0 ≡ true
      → ((w : Write) × (pending_write id st.writes ≡ some w) × (may_review sv c w ≡ true))
        × (pending_write id (approve_pending sv c now reason quiet execute id st).1.writes ≡ none)
  unfolding approve_pending
  approve_pending-decides execute id st tried = elim (Bool-cases (is_uuid id)) [
    | inl good ↦ elim (Option-cases (pending_write id st.writes)) [
      | inl gone ↦ absurd (cc (rw (good, gone) at tried))
      | inr (w, found) ↦ elim (Bool-cases (may_review sv c w)) [
        | inl may ↦ elim (Bool-cases (one_pending id st.writes)) [
          | inl one ↦
              ((w, found, may), rw (good, found, may, one) (carry_out-decides (execute w) id w _))
          | inr taken ↦ absurd (cc (rw (good, found, may, taken) at tried))
        ]
        | inr hidden ↦ absurd (cc (rw (good, found, hidden) at tried))
      ]
    ]
    | inr bad ↦ absurd (cc (rw bad at tried))
  ]

  pub reject_pending-decides :
      (id : String) (st : Store)
      → was_tried (reject_pending sv c now reason quiet id st).0 ≡ true
      → ((w : Write) × (pending_write id st.writes ≡ some w) × (may_review sv c w ≡ true))
        × (pending_write id (reject_pending sv c now reason quiet id st).1.writes ≡ none)
  unfolding reject_pending
  reject_pending-decides id st tried = elim (Bool-cases (is_uuid id)) [
    | inl good ↦ elim (Option-cases (pending_write id st.writes)) [
      | inl gone ↦ absurd (cc (rw (good, gone) at tried))
      | inr (w, found) ↦ elim (Bool-cases (may_review sv c w)) [
        | inl may ↦ elim (Bool-cases (one_pending id st.writes)) [
          | inl one ↦ (
            (w, found, may),
            rw (good, found, may, one)
                (ap (pending_write id) (tell-writes now quiet w _ reason c.user _ w.job refl)
                  ∙ none_pending_rejected id now c.user st.writes),
          )
          | inr taken ↦ absurd (cc (rw (good, found, may, taken) at tried))
        ]
        | inr hidden ↦ absurd (cc (rw (good, found, hidden) at tried))
      ]
    ]
    | inr bad ↦ absurd (cc (rw bad at tried))
  ]

-- A write that nobody waits on can't be decided: nothing changes, and nothing runs.
refused :
    (sv : Server) (c : Caller) (now : ℕ) (reason : String) (quiet : Bool)
    (execute : Write → Option String) (id : String) (st : Store)
    → is_uuid id ≡ true
    → pending_write id st.writes ≡ none
    → (approve_pending sv c now reason quiet execute id st ≡ (err none_pending, st))
      × (reject_pending sv c now reason quiet id st ≡ (err none_pending, st))
unfolding approve_pending reject_pending
refused sv c now reason quiet execute id st good gone = (rw (good, gone) refl, rw (good, gone) refl)

module _ (sv sv' : Server) (c c' : Caller) (now now' : ℕ) (reason reason' : String)
    (quiet quiet' : Bool) (execute : Write → Option String) where
  -- Once a write is approved, whether or not it then applies, a second approval or a rejection, by
  -- anyone, is refused with `none_pending` and changes nothing.
  pub approved_once :
      (first : Write → Option String) (id : String) (st : Store)
      → was_tried (approve_pending sv c now reason quiet first id st).0 ≡ true
      → (approve_pending sv' c' now' reason' quiet' execute id
            (approve_pending sv c now reason quiet first id st).1
          ≡ (err none_pending, (approve_pending sv c now reason quiet first id st).1))
        × (reject_pending sv' c' now' reason' quiet' id
              (approve_pending sv c now reason quiet first id st).1
            ≡ (err none_pending, (approve_pending sv c now reason quiet first id st).1))
  unfolding approve_pending
  approved_once first id st tried = elim (Bool-cases (is_uuid id)) [
    | inl good ↦
        refused sv' c' now' reason' quiet' execute id
          (approve_pending sv c now reason quiet first id st).1 good
          (approve_pending-decides sv c now reason quiet first id st tried).1
    | inr bad ↦ absurd (cc (rw bad at tried))
  ]

  -- Once a write is rejected, an approval or a second rejection, by anyone, is refused with
  -- `none_pending` and changes nothing.
  pub rejected_once :
      (id : String) (st : Store)
      → was_tried (reject_pending sv c now reason quiet id st).0 ≡ true
      → (approve_pending sv' c' now' reason' quiet' execute id
            (reject_pending sv c now reason quiet id st).1
          ≡ (err none_pending, (reject_pending sv c now reason quiet id st).1))
        × (reject_pending sv' c' now' reason' quiet' id
              (reject_pending sv c now reason quiet id st).1
            ≡ (err none_pending, (reject_pending sv c now reason quiet id st).1))
  unfolding reject_pending
  rejected_once id st tried = elim (Bool-cases (is_uuid id)) [
    | inl good ↦
        refused sv' c' now' reason' quiet' execute id (reject_pending sv c now reason quiet id st).1
          good (reject_pending-decides sv c now reason quiet id st tried).1
    | inr bad ↦ absurd (cc (rw bad at tried))
  ]
