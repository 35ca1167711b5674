-- ===== src/Workers/MasterTurn.antt =====
-- packages/server/src/agents/graph-pool.ts: the master's turn (`masterTurn`).
--
-- `Round` is what the awaited calls of one round of its loop give; `Ready` what stands before the loop.
-- The loop is on fuel: a round for each nudge and one more is enough.
use gwarestrin.Base.{
  ℕ, zero, suc, String, Bool, true, not, ◌&&◌, ◌||◌, Option, none, some, List, [], ◌∷◌, ◌++◌, ◌==◌,
  if◌then◌else◌, ltb, leb, eqb, any, map,
}

abbrev pub master_nudges : ℕ
master_nudges = 2

abbrev master_idle_ms : ℕ
master_idle_ms = 600000

pub record Signal : Type 0 where
  pub id : String
  pub kind : String

pub data Prompt : Type 0 where
  signals_text : String → Prompt
  carry_on cut_off : Prompt

pub data MasterCall : Type 0 where
  start_master abort_master release_master compact_master : MasterCall
  prompt_master : Prompt → MasterCall
  ack_signals : List String → MasterCall

-- How a prompted turn comes out: settled, with why it ended badly if it did; quiet past the stall limit, and whether it could
-- be aborted; or a call
-- of the manager threw.
pub data RoundEnd : Type 0 where
  settled_as : Option String → RoundEnd
  stalled : (aborted : Bool) → RoundEnd
  threw : RoundEnd

pub record Round : Type 0 where
  pub prompted : Bool
  pub acked : Bool
  pub outcome : RoundEnd

pub data Ending : Type 0 where
  handled given_back gave_up out_of_fuel : Ending

pub record TurnOf : Type 0 where
  pub calls : List MasterCall
  pub ending : Ending

abbrev pub then_calls : List MasterCall → TurnOf → TurnOf
then_calls calls t = record t { calls = calls ++ t.calls }

abbrev pub give_up : TurnOf
give_up = record { calls = []; ending = gave_up }

-- `!turn.ended || turn.ended === "the turn was stopped"`
abbrev pub is_through : Option String → Bool
is_through none = true
is_through (some ended) = ended == "" || ended == "the turn was stopped"

abbrev pub ids_of : List Signal → List String
ids_of signals = map (λ s. s.id) signals

module _ (rounds : ℕ → Round) (ids : List String) where
  -- What follows a round, given what the next round would make.
  abbrev pub after_round : ℕ → RoundEnd → (Prompt → TurnOf) → TurnOf
  after_round nudge threw next = give_up
  after_round nudge (stalled aborted) next = then_calls (abort_master ∷ []) (
      if not aborted
      then give_up
      else if leb master_nudges nudge
      then record { calls = release_master ∷ []; ending = given_back }
      else next carry_on)
  after_round nudge (settled_as ended) next =
      if is_through ended
      then record { calls = []; ending = handled }
      else if leb master_nudges nudge
      then record { calls = release_master ∷ []; ending = given_back }
      else next cut_off

  abbrev pub prompted_round : ℕ → Round → Prompt → (Prompt → TurnOf) → TurnOf
  prompted_round nudge r prompt next = then_calls (prompt_master prompt ∷ []) (
      if not r.prompted
      then give_up
      else if eqb nudge 0
      then then_calls (ack_signals ids ∷ [])
          (if r.acked then after_round nudge r.outcome next else give_up)
      else after_round nudge r.outcome next)

  unfoldable pub nudge_loop : ℕ → ℕ → Prompt → TurnOf
  nudge_loop zero nudge prompt = record { calls = []; ending = out_of_fuel }
  nudge_loop (suc fuel) nudge prompt =
      prompted_round nudge (rounds nudge) prompt (λ next. nudge_loop fuel (suc nudge) next)

-- What a turn finds: whether the master runs and how long since its last turn, how many agents run and may run.
pub record Ready : Type 0 where
  pub master_running : Bool
  pub since_last : ℕ
  pub running_count : ℕ
  pub agents_max : ℕ
  pub started : Bool

abbrev pub is_batch : List Signal → Bool
is_batch signals = any (λ s. s.kind == "batch") signals

abbrev pub compacted : List Signal → TurnOf → TurnOf
compacted signals t = elim t.ending [
  | handled ↦ if is_batch signals then record t { calls = t.calls ++ compact_master ∷ [] } else t
  | given_back ↦ t
  | gave_up ↦ t
  | out_of_fuel ↦ t
]

abbrev pub signalled : (ℕ → Round) → List Signal → String → TurnOf
signalled rounds signals message =
    compacted signals
      (nudge_loop rounds (ids_of signals) (suc master_nudges) 0 (signals_text message))

-- The calls of a turn while no other turn of the master runs; `none` where it comes to no end worth one (no
-- signals, or no room).
unfoldable pub master_turn :
    Ready → (ℕ → Round) → List Signal → String → List MasterCall × Option Ending
unfolding nudge_loop
master_turn r rounds [] message =
    if r.master_running && ltb master_idle_ms r.since_last
    then (release_master ∷ [], none)
    else ([], none)
master_turn r rounds (s ∷ signals) message =
    let turn = signalled rounds (s ∷ signals) message in
    if r.master_running
    then (turn.calls, some turn.ending)
    else if leb r.agents_max r.running_count
    then ([], none)
    else if r.started
    then (start_master ∷ turn.calls, some turn.ending)
    else (start_master ∷ [], some gave_up)
