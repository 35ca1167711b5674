-- ===== src/Jobs/Race.antt =====
-- graph-rag/src/server.js: approvals of one write that race (`approvePending`, before and after its claim).
--
-- The row is looked up first (`pending_write`); the claim then takes it only if it is still pending,
-- in one query of the database; only a claim that took it carries the write out.
use Prim.Native.String.{String}
use gwarestrin.Base.{
  ℕ, suc, ◌+◌, ◌≤◌, ◌≡◌, refl, ap, inl, inr, true, false, ◌&&◌, some, List, [], ◌∷◌, arith, ◌==◌,
  elem, filter, length, Bool-cases, &&-eq-true,
}
use gwarestrin.Jobs.{Write, executing, undecided}
use gwarestrin.Jobs.Proposals.{claim_write, one_pending, pending_write}

-- The table, the approvers that found the write pending, those whose claim took it, and how often the
-- write was carried out.
pub record Racing : Type 0 where
  pub writes : List Write
  pub looked : List String
  pub won : List String
  pub runs : ℕ

-- One step of one of the approvers; the steps of several of them mix in any order.
pub data RaceStep (id : String) : Racing → Racing → Type 0 where
  look :
      (by : String) (w : Write) (s : Racing)
      → pending_write id s.writes ≡ some w
      → RaceStep id s (record s { looked = by ∷ s.looked })
  take_it :
      (by : String) (s : Racing)
      → elem by s.looked ≡ true
      → one_pending id s.writes ≡ true
      → RaceStep id s (record s { writes = claim_write id executing by s.writes; won = by ∷ s.won })
  lose :
      (by : String) (s : Racing)
      → elem by s.looked ≡ true
      → one_pending id s.writes ≡ false
      → RaceStep id s s
  carry_out :
      (by : String) (rest : List String) (s : Racing)
      → s.won ≡ by ∷ rest
      → RaceStep id s (record s { won = rest; runs = s.runs + 1 })

pub data Raced (id : String) (s : Racing) : Racing → Type 0 where
  untouched : Raced id s s
  and_then : {t u : Racing} → Raced id s t → RaceStep id t u → Raced id s u

-- How many rows with this id still wait for a decision.
abbrev pub waiting_rows : String → List Write → ℕ
waiting_rows id writes = length (filter (λ w. w.id == id && undecided w.state) writes)

claimed_none :
    (id by : String) (writes : List Write)
    → waiting_rows id (claim_write id executing by writes) ≡ 0
claimed_none id by [] = refl
claimed_none id by (w ∷ writes) = elim (Bool-cases (w.id == id && undecided w.state)) [
  | inl open_at ↦
      rw (open_at, (&&-eq-true (w.id == id) (undecided w.state) open_at).0)
        (claimed_none id by writes)
  | inr not_open ↦ rw (not_open, not_open) (claimed_none id by writes)
]

-- Rows that wait, claims that won and runs together stay within one.
abbrev WithinOne : String → Racing → Type 0
WithinOne id s = waiting_rows id s.writes + (length s.won + s.runs) ≤ 1

RaceStep-WithinOne :
    (id : String) {s t : Racing} → RaceStep id s t → WithinOne id s → WithinOne id t
RaceStep-WithinOne id (look by w s e) h = h
RaceStep-WithinOne id (take_it by s l one) h =
    let zero_left = claimed_none id by s.writes in
    let was_one : waiting_rows id s.writes ≡ 1 = ground arith in omega arith
RaceStep-WithinOne id (lose by s l no_row) h = h
RaceStep-WithinOne id (carry_out by rest s e) h =
    let same : length s.won ≡ suc (length rest) = ap length e in omega arith

Raced-WithinOne : (id : String) {s t : Racing} → WithinOne id s → Raced id s t → WithinOne id t
Raced-WithinOne id h untouched = h
Raced-WithinOne id h (and_then r st) = RaceStep-WithinOne id st (Raced-WithinOne id h r)

-- However the approvals of a write mix, from a table with one row of its id that waits and nothing
-- run, the write is carried out once at most.
pub runs_once :
    (id : String) (writes : List Write) {t : Racing}
    → waiting_rows id writes ≤ 1
    → Raced id (record { writes = writes; looked = []; won = []; runs = 0 }) t
    → t.runs ≤ 1
runs_once id writes h r =
    let all_in =
      Raced-WithinOne id
        (let start : WithinOne id (record { writes = writes; looked = []; won = []; runs = 0 }) =
            omega arith in
          start)
        r in
    omega arith
