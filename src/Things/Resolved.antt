-- ===== src/Things/Resolved.antt =====
-- graph-rag/src/things.js: the grounds on which `resolve` takes a mention for a thing.
use Prim.Native.String.{String}
use gwarestrin.Base.{
  ℕ, ◌≤◌, ◌≡◌, refl, sym, ap, ◌∙◌, subst, ◌⊎◌, inl, inr, Bool, true, false, not, Option, none, some,
  List, [], ◌∷◌, leb, filter, find, any, sort, insert_sorted, head?, is_some, arith, Bool-cases,
  &&-eq-true,
}
use gwarestrin.Dates.{is_digit}
use gwarestrin.Things.{
  Letters, Mention, Candidate, use_thing, same_min, maybe_min, normalize, designators_differ,
  has_key, same_kind, exact_name, score_of, near, ranked, by_score, by_name, by_key, resolve,
}

abbrev pub In : Candidate → List Candidate → Type 0
In c [] = ⊥
In c (x ∷ xs) = (c ≡ x) ⊎ In c xs

filter-In :
    (p : Candidate → Bool) (c : Candidate) (xs : List Candidate)
    → In c (filter p xs)
    → In c xs × (p c ≡ true)
filter-In p c [] h = elim h [ ]
filter-In p c (x ∷ xs) h = elim (Bool-cases (p x)) [
  | inl e ↦ kept (filter-In p c xs) (rw e at h) e
  | inr e ↦ let (m, k) = filter-In p c xs (rw e at h) in (inr m, k)
]
  where
    kept :
        (In c (filter p xs) → In c xs × (p c ≡ true))
        → In c (x ∷ filter p xs)
        → p x ≡ true
        → In c (x ∷ xs) × (p c ≡ true)
    kept f (inl same) e = (inl same, ap p same ∙ e)
    kept f (inr m) e = (inr (f m).0, (f m).1)

insert_sorted-In :
    (before : Candidate → Candidate → Bool) (c x : Candidate) (xs : List Candidate)
    → In c (insert_sorted before x xs)
    → In c (x ∷ xs)
insert_sorted-In before c x [] h = h
insert_sorted-In before c x (y ∷ ys) h = elim (Bool-cases (before y x)) [
  | inl e ↦ moved (insert_sorted-In before c x ys) (rw e at h)
  | inr e ↦ rw e at h
]
  where
    swap : In c (x ∷ ys) → In c (x ∷ y ∷ ys)
    swap (inl same) = inl same
    swap (inr m) = inr (inr m)

    moved :
        (In c (insert_sorted before x ys) → In c (x ∷ ys))
        → In c (y ∷ insert_sorted before x ys)
        → In c (x ∷ y ∷ ys)
    moved f (inl same) = inr (inl same)
    moved f (inr m) = swap (f m)

sort-In :
    (before : Candidate → Candidate → Bool) (c : Candidate) (xs : List Candidate)
    → In c (sort before xs)
    → In c xs
sort-In before c [] h = h
sort-In before c (x ∷ xs) h = elim (insert_sorted-In before c x (sort before xs) h) [
  | inl e ↦ inl e
  | inr m ↦ inr (sort-In before c xs m)
]

find-In :
    (p : Candidate → Bool) (xs : List Candidate) (c : Candidate)
    → find p xs ≡ some c
    → In c xs × (p c ≡ true)
find-In p [] c h = absurd (cc h)
find-In p (x ∷ xs) c h = elim (Bool-cases (p x)) [
  | inl e ↦ (inl (found (rw e at h)), ap p (found (rw e at h)) ∙ e)
  | inr e ↦ let (m, k) = find-In p xs c (rw e at h) in (inr m, k)
]
  where
    found : ◌≡◌ {A = Option Candidate} (some x) (some c) → c ≡ x
    found e = sym (cc e)

module _ (l : Letters) (m : Mention) where
  -- The grounds on which a mention may be taken for a thing.
  abbrev pub Alike : Candidate → Type 0
  Alike c =
      (any is_digit (normalize l m.name) ≡ false)
      × (designators_differ l (normalize l m.name) (normalize l c.name) ≡ false)
      × (same_min ≤ score_of l c)

  abbrev pub Meant : Candidate → Type 0
  Meant c =
      (has_key l m.key c ≡ true)
      ⊎ ((same_kind l m c ≡ true) × ((exact_name l m c ≡ true) ⊎ Alike c))

  abbrev pub Used : List Candidate → String → Type 0
  Used candidates rid = (c : Candidate) × In c candidates × (c.rid ≡ rid) × Meant c

  used_rid :
      (c : Candidate) (alias : Option (List ℕ)) (rid : String) (out : Option (List ℕ))
      → use_thing c.rid alias ≡ use_thing rid out
      → c.rid ≡ rid
  used_rid c alias rid out e = cc e

  head_In : (xs : List Candidate) (c : Candidate) → head? xs ≡ some c → In c xs
  head_In [] c e = absurd (cc e)
  head_In (x ∷ xs) c e = inl (sym (cc e))

  by_score-Alike :
      (best : Option Candidate) (rid : String) (out : Option (List ℕ))
      → by_score l m best ≡ use_thing rid out
      → (c : Candidate) × (best ≡ some c) × (c.rid ≡ rid) × (same_min ≤ score_of l c)
  by_score-Alike none rid out e = absurd (cc e)
  by_score-Alike (some c) rid out e = elim (Bool-cases (leb same_min (score_of l c))) [
    | inl h ↦ (c, refl, used_rid c (some m.name) rid out (rw h at e), at_least (score_of l c) h)
    | inr h ↦ elim (Bool-cases (leb maybe_min (score_of l c))) [
      | inl k ↦ absurd (cc (rw (h, k) at e))
      | inr k ↦ absurd (cc (rw (h, k) at e))
    ]
  ]
    where
      at_least : (n : ℕ) → leb same_min n ≡ true → same_min ≤ n
      at_least n h = ground arith

  near-Alike :
      (c : Candidate)
      → near l m c ≡ true
      → designators_differ l (normalize l m.name) (normalize l c.name) ≡ false
  near-Alike c h =
      false_of (designators_differ l (normalize l m.name) (normalize l c.name))
        (&&-eq-true (is_some c.score) _ h).1
    where
      false_of : (b : Bool) → not b ≡ true → b ≡ false
      false_of b h = ground arith

  -- Among things of the kind, one that is ranked first and near enough.
  ranked-Used :
      (candidates : List Candidate) (rid : String) (out : Option (List ℕ))
      → any is_digit (normalize l m.name) ≡ false
      → by_score l m (head? (ranked l m (filter (same_kind l m) candidates))) ≡ use_thing rid out
      → Used candidates rid
  ranked-Used candidates rid out no_digit e =
      let (c, first, same, high) =
        by_score-Alike (head? (ranked l m (filter (same_kind l m) candidates))) rid out e in
      let (among, close) =
        filter-In (near l m) c (filter (same_kind l m) candidates)
          (sort-In _ c _ (head_In (ranked l m (filter (same_kind l m) candidates)) c first)) in
      let (there, kind) = filter-In (same_kind l m) c candidates among in
      (c, there, same, inr (kind, inr (no_digit, near-Alike c close, high)))

  by_name-Used :
      (candidates exacts : List Candidate) (rid : String) (out : Option (List ℕ))
      → filter (exact_name l m) (filter (same_kind l m) candidates) ≡ exacts
      → by_name l m (filter (same_kind l m) candidates) exacts ≡ use_thing rid out
      → Used candidates rid
  by_name-Used candidates [] rid out f e = elim (Bool-cases (any is_digit (normalize l m.name))) [
    | inl h ↦ absurd (cc (rw h at e))
    | inr h ↦ ranked-Used candidates rid out h (rw h at e)
  ]
  by_name-Used candidates (c ∷ []) rid out f e =
      let (among, exact) =
        filter-In (exact_name l m) c (filter (same_kind l m) candidates)
          (subst (In c) (sym f) (inl refl)) in
      let (there, kind) = filter-In (same_kind l m) c candidates among in
      (c, there, used_rid c none rid out e, inr (kind, inl exact))
  by_name-Used candidates (c ∷ d ∷ cs) rid out f e = absurd (cc e)

  by_key-Used :
      (candidates : List Candidate) (keyed : Option Candidate) (rid : String)
      (out : Option (List ℕ))
      → find (has_key l m.key) candidates ≡ keyed
      → by_key l m candidates keyed ≡ use_thing rid out
      → Used candidates rid
  by_key-Used candidates none rid out f e = by_name-Used candidates _ rid out refl e
  by_key-Used candidates (some c) rid out f e =
      let (there, key) = find-In (has_key l m.key) candidates c f in
      (c, there, used_rid c _ rid out e, inl key)

  -- A mention is taken for an existing thing only if that thing has the mention's record key, or is of the
  -- mention's kind, is not keyed to another record, and either has its name as name or alias, or is close to it, where
  -- the name holds no digit and the two names do not differ by a short designator alone.
  pub resolve-Used :
      (candidates : List Candidate) (rid : String) (alias : Option (List ℕ))
      → resolve l m candidates ≡ use_thing rid alias
      → Used candidates rid
  unfolding resolve
  resolve-Used candidates rid alias e =
      by_key-Used candidates (find (has_key l m.key) candidates) rid alias refl e
