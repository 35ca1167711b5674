-- ===== src/Jobs/Handlers.antt =====
-- graph-rag/src/server.js: the calls of a handler that `handlerDecide` refuses.
use Prim.Native.String.{String, ◌++◌ as append}
use gwarestrin.Delegation.Texts.{take_text}
use gwarestrin.Base.{
  ℕ, ◌≡◌, refl, sym, ap, ◌∙◌, inl, inr, Bool, true, false, Option, List, [], ◌∷◌, ◌==◌, ◌&&◌, ◌++◌,
  Result-cases, find, Bool-cases, Option-cases, Result, ok, err,
}
use gwarestrin.Callers.{Caller, Server}
use gwarestrin.Jobs.{Store, Write, is_handler, is_done}
use gwarestrin.Jobs.Proposals.{DecideError, reject_pending}
use gwarestrin.Jobs.Master.{
  Decided, HandlerError, not_rejected, reject_each, finish_decision, apply_all, carry_decision,
  on_word, text_or_none, handler_decide,
}

-- The one error that comes after something was recorded.
abbrev pub is_late : HandlerError → Bool
is_late (not_rejected e) = true
is_late _ = false

module _ (sv : Server) (now : ℕ) (execute : Write → Option String)
    (explain : DecideError → String) where
  reject_each-late :
      (c : Caller) (rs : List (String × String)) (notes : List String) (st : Store)
      (e : HandlerError)
      → (reject_each sv now execute explain c rs notes st).0 ≡ err e
      → is_late e ≡ true
  reject_each-late c [] notes st e h = absurd (cc h)
  reject_each-late c ((id, reason) ∷ rs) notes st e h =
      elim (Result-cases (reject_pending sv c now reason true id st).0) [
        | inl (a, fine) ↦
            reject_each-late c rs (notes ++ append "rejected " (take_text 8 id) ∷ [])
              (reject_pending sv c now reason true id st).1 e (rw (reject_each, fine) at h)
        | inr (x, wrong) ↦
            let same : not_rejected x ≡ e = cc (rw (reject_each, wrong) at h) in
            ap is_late (sym same)
      ]

  finish_decision-late :
      (own job : String) (d : Decided) (c : Caller)
      (res : Result HandlerError (List String) × Store) (e : HandlerError)
      → (finish_decision sv now execute explain own job d c res).0 ≡ err e
      → res.0 ≡ err e
  finish_decision-late own job d c (err x, st) e h = ap (elim [ ok _ ↦ err e | err y ↦ err y ]) h
  finish_decision-late own job d c (ok notes, st) e h = absurd (cc h)

  carry_decision-refused :
      (own job : String) (d : Decided) (c : Caller) (st : Store)
      (read : Result HandlerError (List String × List (String × String))) (e : HandlerError)
      → (carry_decision sv now execute explain own job d c st read).0 ≡ err e
      → is_late e ≡ false
      → (carry_decision sv now execute explain own job d c st read).1 ≡ st
  carry_decision-refused own job d c st (err x) e h early = refl
  carry_decision-refused own job d c st (ok (approve, reject)) e h early =
      let (notes, st1) = apply_all sv now execute explain (on_word c) approve [] st in
      absurd (
        cc (
          sym early
          ∙ reject_each-late (on_word c) reject notes st1 e (
              finish_decision-late own job d (on_word c)
                (reject_each sv now execute explain (on_word c) reject notes st1) e h)))

  -- A refused call of a handler leaves the store as it is, unless one of its rejections failed.
  pub handler_decide-refused :
      (own : String) (d : Decided) (c : Caller) (st : Store) (e : HandlerError)
      → (handler_decide sv now execute explain own d c st).0 ≡ err e
      → is_late e ≡ false
      → (handler_decide sv now execute explain own d c st).1 ≡ st
  unfolding handler_decide
  handler_decide-refused own d c st e h early =
      elim (Option-cases (find (λ j. j.id == own && is_handler j.kind) st.jobs)) [
        | inl gone ↦ rw (handler_decide, gone) refl
        | inr (j, found) ↦ elim (Bool-cases (is_done j.status)) [
          | inl over ↦ rw (handler_decide, found, over) refl
          | inr on ↦
              rw (handler_decide, found, on)
                (carry_decision-refused own (text_or_none j.payload.for_job) d c st _ e
                  (rw (handler_decide, found, on) at h) early)
        ]
      ]
