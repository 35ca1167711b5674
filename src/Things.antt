-- ===== src/Things.antt =====
-- graph-rag/src/things.js: the thing that a statement's mention means (`normalize`, `resolve`, `designatorsDiffer`).
--
-- A name is its list of code points. `Letters` is what the code takes from the language: `toLowerCase`, and the
-- letters and digits of Unicode. A similarity is in millionths; one that is not finite is `none`, one below 0 is 0.
pub mod Resolved
mod Examples
use Prim.Native.String.{String}
use gwarestrin.Base.{
  ℕ, zero, suc, ◌≡◌, Bool, true, false, not, ◌&&◌, ◌||◌, Option, none, some, List, [], ◌∷◌, ◌==◌,
  if◌then◌else◌, leb, ltb, eqb, length, filter, find, any, all, elem, map, sort, head?, is_some,
}
use gwarestrin.Dates.{is_digit}
use gwarestrin.Delegation.Texts.{same_bytes}
use gwarestrin.Needs.{units}

pub record Letters : Type 0 where
  pub to_lower : List ℕ → List ℕ
  pub in_word : ℕ → Bool

pub record Mention : Type 0 where
  pub name : List ℕ
  pub kind : String
  pub key : Option String

pub record Candidate : Type 0 where
  pub rid : String
  pub kind : String
  pub name : List ℕ
  pub aliases : List (List ℕ)
  pub keys : List String
  pub score : Option ℕ

pub data Resolution : Type 0 where
  use_thing : (rid : String) (alias : Option (List ℕ)) → Resolution
  ambiguous : List String → Resolution
  create_thing : (maybe : Option String) → Resolution

abbrev pub same_min : ℕ
same_min = 920000

abbrev pub maybe_min : ℕ
maybe_min = 800000

abbrev with_space : Bool → List ℕ → List ℕ
with_space true s = 32 ∷ s
with_space false s = s

-- `\p{L}` and `\p{N}` in runs, a space between two of them; `gap` says that something else stood in between.
abbrev spaced : (ℕ → Bool) → Bool → List ℕ → List ℕ
spaced in_word gap [] = []
spaced in_word gap (c ∷ s) =
    let within = spaced in_word false s in
    let beyond = spaced in_word true s in if in_word c then with_space gap (c ∷ within) else beyond

abbrev skip_gap : (ℕ → Bool) → List ℕ → List ℕ
skip_gap in_word [] = []
skip_gap in_word (c ∷ s) = let rest = skip_gap in_word s in if in_word c then c ∷ s else rest

abbrev pub push_word : ℕ → List (List ℕ) → List (List ℕ)
push_word c [] = (c ∷ []) ∷ []
push_word c (w ∷ ws) = (c ∷ w) ∷ ws

-- `s.split(" ")`
abbrev pub split_spaces : List ℕ → List (List ℕ)
split_spaces [] = [] ∷ []
split_spaces (c ∷ s) = let rest = split_spaces s in if eqb c 32 then [] ∷ rest else push_word c rest

abbrev is_short : List ℕ → Bool
is_short w = leb (length (units w)) 2

-- The words that differ, in pairs.
abbrev differing : List (List ℕ) → List (List ℕ) → List (List ℕ × List ℕ)
differing (w ∷ ws) (v ∷ vs) =
    let rest = differing ws vs in if same_bytes w v then rest else (w, v) ∷ rest
differing _ _ = []

abbrev short_words : List (List ℕ) → List (List ℕ) → Bool
short_words x y =
    not (eqb (length (differing x y)) 0) && all (λ d. is_short d.0 && is_short d.1) (differing x y)

module _ (l : Letters) where
  abbrev pub normalize : List ℕ → List ℕ
  normalize s = spaced l.in_word false (skip_gap l.in_word (l.to_lower s))

  unfoldable pub designators_differ : List ℕ → List ℕ → Bool
  designators_differ a b =
      let x = split_spaces (normalize a) in
      let y = split_spaces (normalize b) in
      if not (eqb (length x) (length y)) || ltb (length x) 2 then false else short_words x y

  abbrev pub has_key : Option String → Candidate → Bool
  has_key none c = false
  has_key (some key) c = elem key c.keys

  -- `mention.key && (c.keys ?? []).length && !(c.keys ?? []).includes(mention.key)`
  abbrev pub other_key : Option String → Candidate → Bool
  other_key none c = false
  other_key (some key) c = not (eqb (length c.keys) 0) && not (elem key c.keys)

  abbrev pub same_kind : Mention → Candidate → Bool
  same_kind m c = c.kind == m.kind && not (other_key m.key c)

  abbrev pub exact_name : Mention → Candidate → Bool
  exact_name m c =
      same_bytes (normalize c.name) (normalize m.name)
      || any (λ a. same_bytes (normalize a) (normalize m.name)) c.aliases

  abbrev pub score_of : Candidate → ℕ
  score_of c = elim c.score [ none ↦ 0 | some n ↦ n ]

  abbrev pub near : Mention → Candidate → Bool
  near m c = is_some c.score && not (designators_differ (normalize m.name) (normalize c.name))

  abbrev pub ranked : Mention → List Candidate → List Candidate
  ranked m same = sort (λ y x. ltb (score_of x) (score_of y)) (filter (near m) same)

  abbrev pub by_score : Mention → Option Candidate → Resolution
  by_score m none = create_thing none
  by_score m (some best) =
      if leb same_min (score_of best)
      then use_thing best.rid (some m.name)
      else if leb maybe_min (score_of best)
      then create_thing (some best.rid)
      else create_thing none

  abbrev pub by_name : Mention → List Candidate → List Candidate → Resolution
  by_name m same [] =
      if any is_digit (normalize m.name)
      then create_thing none
      else by_score m (head? (ranked m same))
  by_name m same (c ∷ []) = use_thing c.rid none
  by_name m same (c ∷ d ∷ cs) = ambiguous (map (λ e. e.rid) (c ∷ d ∷ cs))

  abbrev pub by_key : Mention → List Candidate → Option Candidate → Resolution
  by_key m candidates (some keyed) =
      use_thing keyed.rid
        (if same_bytes (normalize keyed.name) (normalize m.name) then none else some m.name)
  by_key m candidates none =
      let same = filter (same_kind m) candidates in by_name m same (filter (exact_name m) same)

  -- An empty key is none.
  unfoldable pub resolve : Mention → List Candidate → Resolution
  unfolding designators_differ
  resolve m candidates = by_key m candidates (find (has_key m.key) candidates)
