-- ===== src/Decisions/Triage.antt =====
-- graph-rag/src/decisions.js: what a triage verdict promises.
use gwarestrin.Base.{
  String, none, some, ◌≢◌, Option-cases, eq_refl, subst, ℕ, zero, suc, ◌≤◌, ◌≡◌, refl, inl, inr,
  Bool, true, ◌&&◌, Option, List, [], ◌∷◌, arith, ◌==◌, Bool-cases, &&-eq-true, any,
}
use gwarestrin.Decisions.{
  Number, plus, minus, nan, at_least, is_less, Candidate, rounded_level, at_index, candidate_at,
  candidate_index, chosen, probability, settle, Answers, Unsure, Choice, Settled, Open, Outcome,
  Verdict, settled, open_name, outcome, outcomes, settled_in, open_in, none_open, nothing, level_of,
  verdict_of, triage_verdict, settle_min, contradiction_min, or_zero, score_of,
}

-- A settled name is one of the unsure ones, with one of its candidates, at the threshold or above.
abbrev pub settles : Settled → Unsure → Bool
settles s u =
    s.name == u.name
    && (at_least settle_min s.p && any (λ c. c.rid == s.rid && c.label == s.label) u.candidates)

-- The unsure names in order, each either settled or left open under its own name.
pub data Divided : List Unsure → List Settled → List Open → Type 0 where
  finished : Divided [] [] []
  by_choice :
      (u : Unsure) (s : Settled) {us : List Unsure} {ss : List Settled} {os : List Open}
      → settles s u ≡ true
      → Divided us ss os
      → Divided (u ∷ us) (s ∷ ss) os
  by_master :
      (u : Unsure) (o : Open) {us : List Unsure} {ss : List Settled} {os : List Open}
      → o.name ≡ u.name
      → Divided us ss os
      → Divided (u ∷ us) ss (o ∷ os)

-- Does an outcome settle this name, or leave it open?
abbrev Decides : Unsure → Outcome → Type 0
Decides u (settled s) = settles s u ≡ true
Decides u (open_name o) = o.name ≡ u.name

at_index-any :
    (cs : List Candidate) (n : ℕ) (c : Candidate) (rid label : String)
    → at_index cs n ≡ some c
    → c.rid ≡ rid
    → c.label ≡ label
    → any (λ d. d.rid == rid && d.label == label) cs ≡ true
at_index-any [] n c rid label e er el = cc
at_index-any (d ∷ cs) zero c rid label e er el =
    let same : d ≡ c = cc in rw (same, er, el) (ground (arith, eq_refl rid, eq_refl label))
at_index-any (d ∷ cs) (suc n) c rid label e er el =
    ground (arith, at_index-any cs n c rid label e er el)

candidate_at-any :
    (cs : List Candidate) (o : Option ℕ) (c : Candidate)
    → candidate_at cs o ≡ some c
    → any (λ d. d.rid == c.rid && d.label == c.label) cs ≡ true
candidate_at-any cs none c e = cc
candidate_at-any cs (some n) c e = at_index-any cs n c c.rid c.label e refl refl

settle-Decides :
    (u : Unsure) (p : Number) (o : Option ℕ) → Decides u (settle u p (candidate_at u.candidates o))
settle-Decides u p o = elim (Option-cases (candidate_at u.candidates o)) [
  | inl e ↦ rw e refl
  | inr (c, e) ↦ elim (Bool-cases (at_least settle_min p)) [
    | inl sure ↦
        rw (e, sure) (ground (arith, sure, eq_refl u.name, candidate_at-any u.candidates o c e))
    | inr unsure ↦ rw (e, unsure) refl
  ]
]

outcome-Decides : (u : Unsure) (a : Option Choice) → Decides u (outcome u a)
unfolding outcome
outcome-Decides u a = settle-Decides u (probability a) (candidate_index (chosen a))

Divided-cons :
    (u : Unsure) (o : Outcome) (us : List Unsure) (os : List Outcome)
    → Decides u o
    → Divided us (settled_in os) (open_in os)
    → Divided (u ∷ us) (settled_in (o ∷ os)) (open_in (o ∷ os))
Divided-cons u (settled s) us os d h = by_choice u s d h
Divided-cons u (open_name o) us os d h = by_master u o d h

outcomes-Divided :
    (left i : ℕ) (who : ℕ → Option Choice) (us : List Unsure)
    → Divided us (settled_in (outcomes left i who us)) (open_in (outcomes left i who us))
unfolding outcomes
outcomes-Divided left i who [] = finished
outcomes-Divided zero i who (u ∷ us) = by_master u _ refl (outcomes-Divided zero i who us)
outcomes-Divided (suc left) i who (u ∷ us) =
    Divided-cons u (outcome u (who i)) us (outcomes left (suc i) who us) (outcome-Decides u (who i))
      (outcomes-Divided left (suc i) who us)

-- How the parts of a verdict agree; a level that is `none` comes of a score that is no number.
pub record IsVerdict (v : Verdict) : Type 0 where
  pub level_bound : (l : ℕ) → v.level ≡ some l → l ≤ 3
  pub level_none : v.level ≡ none → v.score ≡ nan
  pub level_zero :
      v.level ≡ some 0 → (v.left_open ≡ []) × (is_less v.contradiction contradiction_min ≡ true)
  pub worked_on : v.level ≢ some 0 → v.to_master ≡ true
  pub sampled : v.level ≡ some 0 → v.to_master ≡ v.sample

rounded_level-bounds : (score : ℕ) → (1 ≤ rounded_level score) × (rounded_level score ≤ 3)
rounded_level-bounds score = (ground arith, ground arith)

level_of-bounds : (score : Number) (l : ℕ) → level_of score ≡ some l → (1 ≤ l) × (l ≤ 3)
level_of-bounds (plus score) l h =
    subst (λ (l : ℕ). (1 ≤ l) × (l ≤ 3)) (let e : rounded_level score ≡ l = cc in e)
      (rounded_level-bounds score)
level_of-bounds (minus score) l h = let e : 1 ≡ l = cc in (omega arith, omega arith)
level_of-bounds nan l h = cc

level_of-none : (score : Number) → level_of score ≡ none → score ≡ nan
level_of-none (plus score) h = cc
level_of-none (minus score) h = cc
level_of-none nan h = refl

none_open-eq : (os : List Open) → none_open os ≡ true → os ≡ []
none_open-eq [] h = refl
none_open-eq (o ∷ os) h = cc

verdict_of-IsVerdict :
    (a : Answers) (random : ℕ) (os : List Outcome) → IsVerdict (verdict_of a random os)
verdict_of-IsVerdict a random os = elim (Bool-cases (nothing a os)) [
  | inl e ↦ record {
    level_bound = λ l h. let h' : some 0 ≡ some l = rw e at h in let z : 0 ≡ l = cc in omega arith;
    level_none = λ h. absurd (let h' : some 0 ≡ none = rw e at h in cc);
    level_zero = λ h.
        let (closed, rest) = &&-eq-true (none_open (open_in os)) _ e in
        let (calm, idle) =
          &&-eq-true (is_less (or_zero a.contradiction) contradiction_min) _ rest in
        (none_open-eq (open_in os) closed, calm);
    worked_on = λ h. absurd (h (rw e refl));
    sampled = λ h. rw e refl;
  }
  | inr e ↦ record {
    level_bound = λ l h. (level_of-bounds (score_of a.level) l (rw e at h)).1;
    level_none = λ h. level_of-none (score_of a.level) (rw e at h);
    level_zero = λ h.
        absurd (let low = level_of-bounds (score_of a.level) 0 (rw e at h) in omega (arith, low.0));
    worked_on = λ h. rw e refl;
    sampled = λ h.
        absurd (let low = level_of-bounds (score_of a.level) 0 (rw e at h) in omega (arith, low.0));
  }
]

-- The parts of a verdict agree: no level is above 3, and one that is no number comes of a score that is
-- none; level 0 means that no name is left open, that nothing contradicts, and that only a sample goes to
-- the master; anything else goes to the master. The unsure names, in their order, are each settled or
-- left open under that name, once: settled with a record id and a label of one of its candidates, at the
-- threshold or above.
pub triage_verdict-IsVerdict :
    (a : Answers) (unsure : List Unsure) (random : ℕ)
    → IsVerdict (triage_verdict a unsure random)
      × Divided unsure
          (triage_verdict a unsure random).settled
          (triage_verdict a unsure random).left_open
unfolding triage_verdict
triage_verdict-IsVerdict a unsure random =
    (verdict_of-IsVerdict a random (outcomes 6 0 a.who unsure), outcomes-Divided 6 0 a.who unsure)
