-- ===== src/Jobs/Asking.antt =====
-- graph-rag/src/server.js: what a thread has open when it asks.
use Prim.Native.String.{String}
use gwarestrin.Base.{
  ℕ, ◌+◌, ◌≡◌, refl, sym, ap, ◌∙◌, subst, inl, inr, Bool, true, List, [], ◌∷◌, ◌++◌, arith, eq_refl,
  eqb, length, length-append, filter, Bool-cases, ok,
}
use gwarestrin.Jobs.{Store}
use gwarestrin.Jobs.Threads.{asked_in, open_questions, open_writes, open_items}
use gwarestrin.Jobs.Questions.{New, new_question, raise_question}

filter-append {ℓ} :
    {A : Type ℓ} (p : A → Bool) (xs ys : List A) → filter p (xs ++ ys) ≡ filter p xs ++ filter p ys
filter-append p [] ys = refl
filter-append p (x ∷ xs) ys = elim (Bool-cases (p x)) [
  | inl e ↦ rw e (ap (λ t. x ∷ t) (filter-append p xs ys))
  | inr e ↦ rw e (filter-append p xs ys)
]

asked_new : (q : New) (job : String) (now : ℕ) → asked_in job (new_question q job now) ≡ true
asked_new q job now = rw (eq_refl job) refl

-- A worker's question is recorded only when nothing of its thread is open, neither a question nor a
-- proposal; then it is the one open question of the thread, and no job and no proposal changes.
pub raise_question-asks :
    (job : String) (q : New) (now : ℕ) (st st' : Store)
    → raise_question job q now st ≡ ok st'
    → (open_items job st ≡ 0)
      × (open_questions job st' ≡ 1)
      × (st'.writes ≡ st.writes)
      × (st'.jobs ≡ st.jobs)
unfolding raise_question
raise_question-asks job q now st st' e = elim (Bool-cases (eqb (open_questions job st) 0)) [
  | inl none_asked ↦ elim (Bool-cases (eqb (open_writes job st) 0)) [
    | inl none_proposed ↦
        let zero_q : open_questions job st ≡ 0 = ground arith in
        let zero_w : open_writes job st ≡ 0 = ground arith in
        let same : record st { questions = st.questions ++ new_question q job now ∷ [] } ≡ st' =
          cc (rw (zero_q, zero_w) at e) in
        let one_more : open_questions job
              (record st { questions = st.questions ++ new_question q job now ∷ [] })
            ≡ 1 =
          ap length (filter-append (asked_in job) st.questions (new_question q job now ∷ []))
          ∙ rw (asked_new q job now) (
              length-append (filter (asked_in job) st.questions) (new_question q job now ∷ [])
              ∙ ap (λ n. n + 1) zero_q) in
        (
          (let two : open_questions job st + open_writes job st ≡ 0 = omega arith in two),
          subst (λ x. open_questions job x ≡ 1) same one_more,
          ap (λ x. x.writes) (sym same),
          ap (λ x. x.jobs) (sym same),
        )
    | inr proposed ↦ absurd (cc (rw (none_asked, proposed) at e))
  ]
  | inr asked ↦ absurd (cc (rw asked at e))
]
