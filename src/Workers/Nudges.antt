-- ===== src/Workers/Nudges.antt =====
-- packages/server/src/agents/graph-pool.ts: the calls of a turn of the master.
use gwarestrin.Base.{
  ℕ, zero, suc, ◌+◌, ◌≤◌, String, ◌≡◌, ◌≢◌, refl, sym, subst, Bool, true, false, not, Option, none,
  some, List, [], ◌∷◌, ◌++◌, if◌then◌else◌, leb, eqb, arith,
}
use gwarestrin.Workers.MasterTurn.{
  master_nudges, Signal, Prompt, MasterCall, start_master, abort_master, release_master,
  compact_master, prompt_master, ack_signals, signals_text, carry_on, cut_off, RoundEnd, settled_as,
  stalled, threw, Round, Ending, handled, given_back, gave_up, out_of_fuel, TurnOf, then_calls,
  give_up, is_through, after_round, prompted_round, nudge_loop, Ready, is_batch, compacted, ids_of,
  signalled, master_turn,
}

abbrev prompt_count : MasterCall → ℕ
prompt_count (prompt_master p) = 1
prompt_count _ = 0

abbrev ack_count : MasterCall → ℕ
ack_count (ack_signals ids) = 1
ack_count _ = 0

abbrev pub prompts : List MasterCall → ℕ
prompts [] = 0
prompts (c ∷ cs) = prompt_count c + prompts cs

abbrev pub acks : List MasterCall → ℕ
acks [] = 0
acks (c ∷ cs) = ack_count c + acks cs

-- At most `k` prompts and `a` acknowledgements; the master is given back only after the `k`-th prompt.
pub record IsBounded (k a : ℕ) (t : TurnOf) : Type 0 where
  pub few : prompts t.calls ≤ k
  pub once : acks t.calls ≤ a
  pub all_tried : t.ending ≡ given_back → prompts t.calls ≡ k
  pub ends : t.ending ≢ out_of_fuel

give_up-IsBounded : (k a : ℕ) → IsBounded k a give_up
give_up-IsBounded k a = record {
  few = omega arith;
  once = omega arith;
  all_tried = λ e. absurd (cc e);
  ends = λ e. absurd (cc e);
}

IsBounded-then :
    (c : MasterCall) (k a n m : ℕ) (t : TurnOf)
    → n ≡ prompt_count c + k
    → m ≡ ack_count c + a
    → IsBounded k a t
    → IsBounded n m (then_calls (c ∷ []) t)
IsBounded-then c k a n m t en em v = record {
  few = omega (arith, v.few, en);
  once = omega (arith, v.once, em);
  all_tried = λ e. omega (arith, v.all_tried e, en);
  ends = v.ends;
}

IsBounded-if :
    (b : Bool) (k a : ℕ) (t u : TurnOf)
    → (b ≡ true → IsBounded k a t)
    → (b ≡ false → IsBounded k a u)
    → IsBounded k a (if b then t else u)
IsBounded-if true k a t u f g = f refl
IsBounded-if false k a t u f g = g refl

IsBounded-more : (k a : ℕ) (t : TurnOf) → IsBounded k 0 t → IsBounded k a t
IsBounded-more k a t v = record {
  few = v.few;
  once = omega (arith, v.once);
  all_tried = v.all_tried;
  ends = v.ends;
}

handled-IsBounded : (k : ℕ) → IsBounded k 0 (record { calls = []; ending = handled })
handled-IsBounded k = record {
  few = omega arith;
  once = omega arith;
  all_tried = λ e. absurd (cc e);
  ends = λ e. absurd (cc e);
}

given_back-IsBounded :
    (k : ℕ) → k ≡ 0 → IsBounded k 0 (record { calls = release_master ∷ []; ending = given_back })
given_back-IsBounded k z = record {
  few = omega arith;
  once = omega arith;
  all_tried = λ e. sym z;
  ends = λ e. absurd (cc e);
}

no_ack_later : (nudge : ℕ) → ◌≡◌ {A = ℕ} (if eqb (suc nudge) 0 then 1 else 0) 0
no_ack_later nudge = ground arith

module _ (rounds : ℕ → Round) (ids : List String) where
  after_round-IsBounded :
      (nudge k : ℕ) (outcome : RoundEnd) (next : Prompt → TurnOf)
      → (leb master_nudges nudge ≡ true → k ≡ 0)
      → (leb master_nudges nudge ≡ false → (p : Prompt) → IsBounded k 0 (next p))
      → IsBounded k 0 (after_round rounds ids nudge outcome next)
  after_round-IsBounded nudge k threw next l n = give_up-IsBounded k 0
  after_round-IsBounded nudge k (stalled aborted) next l n =
      IsBounded-then abort_master k 0 k 0 _ (omega arith) (omega arith) (
        IsBounded-if (not aborted) k 0 _ _ (λ e. give_up-IsBounded k 0)
          (λ e.
            IsBounded-if (leb master_nudges nudge) k 0 _ _ (λ h. given_back-IsBounded k (l h))
              (λ h. n h carry_on)))
  after_round-IsBounded nudge k (settled_as ended) next l n =
      IsBounded-if (is_through ended) k 0 _ _ (λ e. handled-IsBounded k)
        (λ e.
          IsBounded-if (leb master_nudges nudge) k 0 _ _ (λ h. given_back-IsBounded k (l h))
            (λ h. n h cut_off))

  prompted_round-IsBounded :
      (nudge k : ℕ) (r : Round) (prompt : Prompt) (next : Prompt → TurnOf)
      → (leb master_nudges nudge ≡ true → k ≡ 0)
      → (leb master_nudges nudge ≡ false → (p : Prompt) → IsBounded k 0 (next p))
      → IsBounded
          (suc k)
          (if eqb nudge 0 then 1 else 0)
          (prompted_round rounds ids nudge r prompt next)
  prompted_round-IsBounded nudge k r prompt next l n =
      IsBounded-then (prompt_master prompt) k (if eqb nudge 0 then 1 else 0) _ _ _ (omega arith)
        (omega arith)
        (IsBounded-if (not r.prompted) k (if eqb nudge 0 then 1 else 0) _ _
          (λ e. give_up-IsBounded k (if eqb nudge 0 then 1 else 0))
          (λ e. first_or_later (eqb nudge 0)))
    where
      rest : IsBounded k 0 (after_round rounds ids nudge r.outcome next)
      rest = after_round-IsBounded nudge k r.outcome next l n

      first_or_later :
          (b : Bool)
          → IsBounded k (if b then 1 else 0) (
              if b
              then then_calls
                  (ack_signals ids ∷ [])
                  (if r.acked then after_round rounds ids nudge r.outcome next else give_up)
              else after_round rounds ids nudge r.outcome next)
      first_or_later true =
          IsBounded-then (ack_signals ids) k 0 k 1 _ (omega arith) (omega arith)
            (IsBounded-if r.acked k 0 _ _ (λ e. rest) (λ e. give_up-IsBounded k 0))
      first_or_later false = rest

  -- Fuel for the rounds that are left is enough.
  nudge_loop-IsBounded :
      (fuel nudge : ℕ) (prompt : Prompt)
      → fuel + nudge ≡ 2
      → IsBounded
          (suc fuel)
          (if eqb nudge 0 then 1 else 0)
          (nudge_loop rounds ids (suc fuel) nudge prompt)
  unfolding nudge_loop
  nudge_loop-IsBounded zero nudge prompt h =
      prompted_round-IsBounded nudge 0 (rounds nudge) prompt
        (λ next. nudge_loop rounds ids 0 (suc nudge) next) (λ e. refl) (λ e. absurd (ground arith))
  nudge_loop-IsBounded (suc fuel) nudge prompt h =
      prompted_round-IsBounded nudge (suc fuel) (rounds nudge) prompt
        (λ next. nudge_loop rounds ids (suc fuel) (suc nudge) next) (λ e. absurd (ground arith))
        (λ e p.
          subst (λ a. IsBounded (suc fuel) a (nudge_loop rounds ids (suc fuel) (suc nudge) p))
            (no_ack_later nudge) (nudge_loop-IsBounded fuel (suc nudge) p (omega arith)))

prompts-append : (cs ds : List MasterCall) → prompts (cs ++ ds) ≡ prompts cs + prompts ds
prompts-append [] ds = omega arith
prompts-append (c ∷ cs) ds = omega (arith, prompts-append cs ds)

acks-append : (cs ds : List MasterCall) → acks (cs ++ ds) ≡ acks cs + acks ds
acks-append [] ds = omega arith
acks-append (c ∷ cs) ds = omega (arith, acks-append cs ds)

IsBounded-snoc :
    (t : TurnOf)
    → IsBounded 3 1 t
    → IsBounded 3 1 (record t { calls = t.calls ++ compact_master ∷ [] })
IsBounded-snoc t v = record {
  few = omega (arith, v.few, prompts-append t.calls (compact_master ∷ []));
  once = omega (arith, v.once, acks-append t.calls (compact_master ∷ []));
  all_tried = λ e. omega (arith, v.all_tried e, prompts-append t.calls (compact_master ∷ []));
  ends = v.ends;
}

compacted-IsBounded :
    (signals : List Signal) (t : TurnOf) (ending : Ending)
    → t.ending ≡ ending
    → IsBounded 3 1 t
    → IsBounded 3 1 (compacted signals t)
compacted-IsBounded signals t handled e v =
    rw (compacted, e) (IsBounded-if (is_batch signals) 3 1 _ _ (λ b. IsBounded-snoc t v) (λ b. v))
compacted-IsBounded signals t given_back e v = rw (compacted, e) v
compacted-IsBounded signals t gave_up e v = rw (compacted, e) v
compacted-IsBounded signals t out_of_fuel e v = rw (compacted, e) v

signalled-IsBounded :
    (rounds : ℕ → Round) (signals : List Signal) (message : String)
    → IsBounded 3 1 (signalled rounds signals message)
signalled-IsBounded rounds signals message =
    compacted-IsBounded signals _ _ refl
      (nudge_loop-IsBounded rounds (ids_of signals) 2 0 (signals_text message) refl)

-- The calls of one turn of the master.
pub record IsTurn (out : List MasterCall × Option Ending) : Type 0 where
  pub few_prompts : prompts out.0 ≤ 3
  pub acked_once : acks out.0 ≤ 1
  pub all_tried : out.1 ≡ some given_back → prompts out.0 ≡ 3
  pub ends : out.1 ≢ some out_of_fuel

IsTurn-none : (calls : List MasterCall) → prompts calls ≡ 0 → acks calls ≡ 0 → IsTurn (calls, none)
IsTurn-none calls p a = record {
  few_prompts = omega (arith, p);
  acked_once = omega (arith, a);
  all_tried = λ e. absurd (cc e);
  ends = λ e. absurd (cc e);
}

IsTurn-started :
    (front : List MasterCall) (t : TurnOf)
    → prompts front ≡ 0
    → acks front ≡ 0
    → IsBounded 3 1 t
    → IsTurn (front ++ t.calls, some t.ending)
IsTurn-started front t p a v = record {
  few_prompts = omega (arith, prompts-append front t.calls, p, v.few);
  acked_once = omega (arith, acks-append front t.calls, a, v.once);
  all_tried = λ e. omega (arith, prompts-append front t.calls, p, v.all_tried (cc e));
  ends = λ e. v.ends (cc e);
}

if_IsTurn :
    (b : Bool) (x y : List MasterCall × Option Ending)
    → IsTurn x
    → IsTurn y
    → IsTurn (if b then x else y)
if_IsTurn true x y v w = v
if_IsTurn false x y v w = w

-- However its requests stall, end badly or fail, a turn of the master comes to an end: it prompts three times at
-- most, takes its signals off the inbox once at most, and gives the master back as stuck only after three prompts.
pub master_turn-IsTurn :
    (r : Ready) (rounds : ℕ → Round) (signals : List Signal) (message : String)
    → IsTurn (master_turn r rounds signals message)
unfolding master_turn
master_turn-IsTurn r rounds [] message =
    if_IsTurn _ _ _ (IsTurn-none (release_master ∷ []) refl refl) (IsTurn-none [] refl refl)
master_turn-IsTurn r rounds (s ∷ signals) message =
    if_IsTurn r.master_running _ _ (IsTurn-started [] _ refl refl turn) (
      if_IsTurn (leb r.agents_max r.running_count) _ _ (IsTurn-none [] refl refl) (
        if_IsTurn r.started _ _ (IsTurn-started (start_master ∷ []) _ refl refl turn) (record {
          few_prompts = omega arith;
          acked_once = omega arith;
          all_tried = λ e. absurd (cc e);
          ends = λ e. absurd (cc e);
        })))
  where
    turn : IsBounded 3 1 (signalled rounds (s ∷ signals) message)
    turn = signalled-IsBounded rounds (s ∷ signals) message
