-- ===== src/Decisions.antt =====
-- graph-rag/src/decisions.js: `triageVerdict`, what the answers of the decision model mean for an entry.
--
-- A probability or score is what `Number` makes of it, counted in millionths (`one` is 1), as is the
-- value of `random`. An answer that is missing, or lacks a property, is `none`.
pub mod Triage
mod Examples
use Prim.Native.String.{String}
use gwarestrin.Base.{
  ℕ, zero, suc, ◌+◌, ◌-◌, ◌*◌, ◌/◌, ◌≡◌, Bool, true, false, not, ◌&&◌, ◌||◌, Option, none, some,
  List, [], ◌∷◌, ◌++◌, ◌==◌, map, if◌then◌else◌, ltb, leb, eqb, lookup,
}
use gwarestrin.Dates.{codes, is_digit}

-- A number of an answer: at or above 0, below it, or none.
pub data Number : Type 0 where
  plus minus : ℕ → Number
  nan : Number

-- `x >= n`
abbrev pub at_least : ℕ → Number → Bool
at_least n (plus x) = leb n x
at_least n (minus x) = eqb n 0 && eqb x 0
at_least n nan = false

-- `x < n`
abbrev pub is_less : Number → ℕ → Bool
is_less (plus x) n = ltb x n
is_less (minus x) n = not (eqb n 0 && eqb x 0)
is_less nan n = false

abbrev pub one : ℕ
one = 1000000

abbrev pub settle_min : ℕ
settle_min = 750000

abbrev pub nothing_min : ℕ
nothing_min = 600000

abbrev pub contradiction_min : ℕ
contradiction_min = 500000

abbrev pub plain_min : ℕ
plain_min = 500000

abbrev pub sample_rate : ℕ
sample_rate = 50000

pub record Candidate : Type 0 where
  pub rid : String
  pub label : String

pub record Unsure : Type 0 where
  pub name : String
  pub candidates : List Candidate

-- An answer to a choice: what was chosen, and the probability of each.
pub record Choice : Type 0 where
  pub choice : Option String
  pub probabilities : List (String × Number)

pub record Level : Type 0 where
  pub probabilities : List (String × Number)
  pub score : Option Number

pub record Answers : Type 0 where
  pub who : ℕ → Option Choice
  pub level : Option Level
  pub reason : Option Choice
  pub contradiction : Option Number

pub record Settled : Type 0 where
  pub name : String
  pub rid : String
  pub label : String
  pub p : Number

pub record Open : Type 0 where
  pub name : String
  pub p : Number
  pub pick : Option String

pub data Outcome : Type 0 where
  settled : Settled → Outcome
  open_name : Open → Outcome

abbrev pub or_zero : Option Number → Number
or_zero none = plus 0
or_zero (some n) = n

abbrev pub chosen : Option Choice → Option String
chosen none = none
chosen (some a) = a.choice

abbrev probability_of : Choice → Option String → Number
probability_of a none = plus 0
probability_of a (some pick) = or_zero (lookup pick a.probabilities)

-- `a?.probabilities?.[a?.choice] ?? 0`
abbrev pub probability : Option Choice → Number
probability none = plus 0
probability (some a) = probability_of a a.choice

abbrev digits_value : ℕ → List ℕ → Option ℕ
digits_value n [] = some n
digits_value n (c ∷ cs) =
    let rest = digits_value (n * 10 + (c - b'0')) cs in if is_digit c then rest else none

abbrev index_in : List ℕ → Option ℕ
index_in [] = none
index_in (c ∷ []) = none
index_in (c ∷ d ∷ ds) = if eqb c b'c' then digits_value 0 (d ∷ ds) else none

-- `/^c(\d+)$/`
abbrev pub candidate_index : Option String → Option ℕ
candidate_index none = none
candidate_index (some pick) = index_in (codes pick)

abbrev pub at_index : List Candidate → ℕ → Option Candidate
at_index [] n = none
at_index (c ∷ cs) zero = some c
at_index (c ∷ cs) (suc n) = at_index cs n

abbrev pub candidate_at : List Candidate → Option ℕ → Option Candidate
candidate_at cs none = none
candidate_at cs (some n) = at_index cs n

abbrev label_of : Option Candidate → Option String
label_of none = none
label_of (some c) = some c.label

abbrev pub settle : Unsure → Number → Option Candidate → Outcome
settle u p none = open_name (record { name = u.name; p = p; pick = none })
settle u p (some c) =
    if at_least settle_min p
    then settled (record { name = u.name; rid = c.rid; label = c.label; p = p })
    else open_name (record { name = u.name; p = p; pick = some c.label })

-- One name: settled by a sure choice of a candidate, else left open.
unfoldable pub outcome : Unsure → Option Choice → Outcome
outcome u a = settle u (probability a) (candidate_at u.candidates (candidate_index (chosen a)))

abbrev unasked : Unsure → Outcome
unasked u = open_name (record { name = u.name; p = plus 0; pick = none })

-- The names in order: at most `left` of them were asked about.
unfoldable pub outcomes : ℕ → ℕ → (ℕ → Option Choice) → List Unsure → List Outcome
unfolding outcome
outcomes left i who [] = []
outcomes zero i who (u ∷ us) = unasked u ∷ outcomes zero i who us
outcomes (suc left) i who (u ∷ us) = outcome u (who i) ∷ outcomes left (suc i) who us

abbrev pub settled_in : List Outcome → List Settled
settled_in [] = []
settled_in (settled s ∷ os) = s ∷ settled_in os
settled_in (open_name o ∷ os) = settled_in os

abbrev pub open_in : List Outcome → List Open
open_in [] = []
open_in (settled s ∷ os) = open_in os
open_in (open_name o ∷ os) = o ∷ open_in os

abbrev pub none_open : List Open → Bool
none_open [] = true
none_open (o ∷ os) = false

abbrev probability_none : Option Level → Number
probability_none none = plus 0
probability_none (some l) = or_zero (lookup "0" l.probabilities)

abbrev pub score_of : Option Level → Number
score_of none = plus 0
score_of (some l) = or_zero l.score

abbrev is_plain : Option String → Bool
is_plain none = false
is_plain (some r) = r == "plain_fact"

abbrev pub rounded_level : ℕ → ℕ
rounded_level score =
    let rounded = (score + one / 2) / one in
    if ltb rounded 1 then 1 else if ltb 3 rounded then 3 else rounded

-- `Math.max(1, Math.min(3, Math.round(score)))`; `none` is NaN.
abbrev pub level_of : Number → Option ℕ
level_of (minus score) = some 1
level_of nan = none
level_of (plus score) = some (rounded_level score)

pub record Verdict : Type 0 where
  pub level : Option ℕ
  pub reason : Option String
  pub score : Number
  pub p_nothing : Number
  pub reason_p : Number
  pub contradiction : Number
  pub settled : List Settled
  pub left_open : List Open
  pub to_master : Bool
  pub sample : Bool

abbrev pub plain : Answers → Bool
plain a =
    is_plain (chosen a.reason)
    && (at_least plain_min (probability a.reason) && is_less (score_of a.level) one)

-- Is there nothing to do for the entry?
abbrev pub nothing : Answers → List Outcome → Bool
nothing a os =
    none_open (open_in os)
    && (is_less (or_zero a.contradiction) contradiction_min
        && (at_least nothing_min (probability_none a.level) || plain a))

abbrev verdict_reason : Answers → List Outcome → Option String
verdict_reason a os =
    if nothing a os
    then some "plain_fact"
    else if at_least contradiction_min (or_zero a.contradiction)
    then some "contradiction"
    else if none_open (open_in os)
    then chosen a.reason
    else some "ambiguous_name"

abbrev pub verdict_of : Answers → ℕ → List Outcome → Verdict
verdict_of a random os = record {
  level = if nothing a os then some 0 else level_of (score_of a.level);
  reason = verdict_reason a os;
  score = score_of a.level;
  p_nothing = probability_none a.level;
  reason_p = probability a.reason;
  contradiction = or_zero a.contradiction;
  settled = settled_in os;
  left_open = open_in os;
  to_master = not (nothing a os) || (nothing a os && ltb random sample_rate);
  sample = nothing a os && ltb random sample_rate;
}

unfoldable pub triage_verdict : Answers → List Unsure → ℕ → Verdict
unfolding outcomes
triage_verdict a unsure random = verdict_of a random (outcomes 6 0 a.who unsure)
