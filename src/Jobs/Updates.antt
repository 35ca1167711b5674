-- ===== src/Jobs/Updates.antt =====
-- graph-rag/src/server.js: the table of jobs under updates of one row, where no id stands twice.
use gwarestrin.Base.{
  String, ◌≡◌, refl, sym, ap, ◌∙◌, subst, inl, inr, Bool, true, false, ◌&&◌, some, List, [], ◌∷◌,
  arith, ◌==◌, eq_iff, eq_refl, all, map, elem, IsDistinct, Bool-cases, &&-eq-true,
}
use gwarestrin.Jobs.{Job, update_where, update_job, review_of, is_review}

abbrev pub ids : List Job → List String
ids jobs = map (λ j. j.id) jobs

-- What an update of a row may not change.
abbrev pub KeepsIdentity : (Job → Job) → Type 0
KeepsIdentity f = (j : Job) → ((f j).id ≡ j.id) × ((f j).kind ≡ j.kind)

pub ids-update_where :
    (p : Job → Bool) (f : Job → Job) (keeps : KeepsIdentity f) (jobs : List Job)
    → ids (update_where p f jobs) ≡ ids jobs
ids-update_where p f keeps [] = refl
ids-update_where p f keeps (j ∷ jobs) = elim (Bool-cases (p j)) [
  | inl e ↦ rw (e, (keeps j).0, ids-update_where p f keeps jobs) refl
  | inr e ↦ rw (e, ids-update_where p f keeps jobs) refl
]

-- Rows that pass a test still do when each row that is updated does.
pub all-update_where :
    (q p : Job → Bool) (f : Job → Job) (jobs : List Job)
    → ((j : Job) → p j ≡ true → q j ≡ true → q (f j) ≡ true)
    → all q jobs ≡ true
    → all q (update_where p f jobs) ≡ true
all-update_where q p f [] h a = refl
all-update_where q p f (j ∷ jobs) h a = elim (Bool-cases (p j)) [
  | inl e ↦ ground (arith, all-update_where q p f jobs h, h j e)
  | inr e ↦ ground (arith, all-update_where q p f jobs h)
]

update_job_none :
    (id : String) (f : Job → Job) (jobs : List Job)
    → elem id (ids jobs) ≡ false
    → update_job id f jobs ≡ jobs
update_job_none id f [] no_id = refl
update_job_none id f (j ∷ jobs) no_id =
    let other : (j.id == id) ≡ false = ground (arith, eq_iff id j.id, eq_iff j.id id) in
    rw (other, update_job_none id f jobs (ground arith)) refl

abbrev is_it : String → Job → Bool
is_it id j = j.id == id && is_review j.kind

pub review_of-elem :
    (id : String) (jobs : List Job) (found : Job)
    → review_of id jobs ≡ some found
    → (elem id (ids jobs) ≡ true) × (found.id ≡ id) × (is_review found.kind ≡ true)
review_of-elem id [] found r = absurd (cc r)
review_of-elem id (j ∷ jobs) found r = elim (Bool-cases (is_it id j)) [
  | inl e ↦
      let same : j ≡ found = cc (rw e at r) in
      let (at, kind) = &&-eq-true (j.id == id) (is_review j.kind) e in
      let here = (eq_iff j.id id).0 at in
      subst (λ x. (elem id (ids (j ∷ jobs)) ≡ true) × (x.id ≡ id) × (is_review x.kind ≡ true)) same
        (rw (here, eq_refl id) refl, here, kind)
  | inr e ↦
      let (m, same, kind) = review_of-elem id jobs found (rw e at r) in
      (ground (arith, m), same, kind)
]

-- A row that is found by its id may be updated alone, where no id stands twice.
pub all-update_job :
    (q : Job → Bool) (id : String) (f : Job → Job) (jobs : List Job) (found : Job)
    → IsDistinct (ids jobs)
    → review_of id jobs ≡ some found
    → q (f found) ≡ true
    → all q jobs ≡ true
    → all q (update_job id f jobs) ≡ true
all-update_job q id f [] found one r h a = refl
all-update_job q id f (j ∷ jobs) found (new, one) r h a =
    let (first, rest) = &&-eq-true (q j) (all q jobs) a in
    elim (Bool-cases (is_it id j)) [
      | inl e ↦
          let same : j ≡ found = cc (rw e at r) in
          let (at, kind) = &&-eq-true (j.id == id) (is_review j.kind) e in
          let here = (eq_iff j.id id).0 at in
          let keep = update_job_none id f jobs (rw here at new) in rw (at, keep, same, h) rest
      | inr e ↦
          let r' : review_of id jobs ≡ some found = rw e at r in
          let (m, same, kind) = review_of-elem id jobs found r' in
          let other : (j.id == id) ≡ false = elim (Bool-cases (j.id == id)) [
            | inl at ↦ absurd (cc (sym m ∙ rw ((eq_iff j.id id).0 at) at new))
            | inr not_at ↦ not_at
          ] in
          rw (other, first) (all-update_job q id f jobs found one r' h rest)
    ]

is_it_keeps :
    (id : String) (f : Job → Job) (keeps : KeepsIdentity f) (j : Job) → is_it id (f j) ≡ is_it id j
is_it_keeps id f keeps j =
    ap (λ i. i == id && is_review (f j).kind) (keeps j).0
    ∙ ap (λ k. j.id == id && is_review k) (keeps j).1

-- The row that is found by its id, after an update of it.
pub review_of-update_where :
    (id : String) (p : Job → Bool) (f : Job → Job) (keeps : KeepsIdentity f) (jobs : List Job)
    (found : Job)
    → review_of id jobs ≡ some found
    → p found ≡ true
    → review_of id (update_where p f jobs) ≡ some (f found)
review_of-update_where id p f keeps [] found r h = absurd (cc r)
review_of-update_where id p f keeps (j ∷ jobs) found r h = elim (Bool-cases (is_it id j)) [
  | inl e ↦
      let same : j ≡ found = cc (rw e at r) in
      let here : p j ≡ true = ap p same ∙ h in
      let still : is_it id (f j) ≡ true = is_it_keeps id f keeps j ∙ e in
      rw (here, still) (ap (λ x. some (f x)) same)
  | inr e ↦
      let r' : review_of id jobs ≡ some found = rw e at r in
      elim (Bool-cases (p j)) [
        | inl here ↦
            let still : is_it id (f j) ≡ false = is_it_keeps id f keeps j ∙ e in
            rw (here, still) (review_of-update_where id p f keeps jobs found r' h)
        | inr away ↦ rw (away, e) (review_of-update_where id p f keeps jobs found r' h)
      ]
]

-- A row that is found passes what all rows pass.
pub found_of_all :
    (q : Job → Bool) (id : String) (jobs : List Job) (found : Job)
    → review_of id jobs ≡ some found
    → all q jobs ≡ true
    → q found ≡ true
found_of_all q id [] found r a = absurd (cc r)
found_of_all q id (j ∷ jobs) found r a =
    let (first, rest) = &&-eq-true (q j) (all q jobs) a in
    elim (Bool-cases (is_it id j)) [
      | inl e ↦ let same : j ≡ found = cc (rw e at r) in sym (ap q same) ∙ first
      | inr e ↦ found_of_all q id jobs found (rw e at r) rest
    ]
