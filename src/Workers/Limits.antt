-- ===== src/Workers/Limits.antt =====
-- packages/server/src/agents/graph-pool.ts: the limits of models, over rounds, beginnings and ends of runs.
use gwarestrin.Base.{
  ℕ, suc, ◌+◌, ◌≤◌, String, ◌≡◌, Bool, false, Option, some, List, [], ◌∷◌, ◌==◌, if◌then◌else◌,
  lookup, insert, remove, arith, inl, inr, Bool-cases, text-cases,
}
use gwarestrin.Jobs.Threads.{Group, Thread}
use gwarestrin.Workers.Models.{
  Model, Workspace, thread_model_key, model_caps, busy_on, level_groups,
}
use gwarestrin.Workers.Runs.{
  GraphPool, PoolStatus, at_limit, begin_run, end_run, begin_each, tick, tick_cases, room_of,
}

busy_on-insert :
    (key job model : String) (active : List (String × String))
    → busy_on key (insert job model active) ≤ busy_on key active + (if model == key then 1 else 0)
busy_on-insert key job model [] = ground arith
busy_on-insert key job model ((j, m) ∷ active) = ground (arith, busy_on-insert key job model active)

busy_on-remove :
    (key job : String) (active : List (String × String))
    → busy_on key (remove job active) ≤ busy_on key active
busy_on-remove key job [] = ground arith
busy_on-remove key job ((j, m) ∷ active) = ground (arith, busy_on-remove key job active)

at_limit-below : (cap busy : ℕ) → at_limit (some cap) busy ≡ false → suc busy ≤ cap
at_limit-below cap busy h = ground arith

-- No model with a limit runs more threads than it takes.
pub record WithinLimits (w : Workspace) (pool : GraphPool) : Type 0 where
  pub within :
      (key : String) (cap : ℕ)
      → lookup key (model_caps w) ≡ some cap
      → busy_on key pool.active ≤ cap

module _ (w : Workspace) (model_of : String → Option Model) where
  begin_run-added :
      (t : Thread) (pool : GraphPool) (key : String) (cap : ℕ)
      → WithinLimits w pool
      → at_limit
          (lookup (thread_model_key w model_of t) (model_caps w))
          (busy_on (thread_model_key w model_of t) pool.active)
        ≡ false
      → lookup key (model_caps w) ≡ some cap
      → busy_on key (insert t.job (thread_model_key w model_of t) pool.active) ≤ cap
  begin_run-added t pool key cap v h e = elim (text-cases (thread_model_key w model_of t) key) [
    | inl same ↦ omega (
      arith,
      busy_on-insert key t.job (thread_model_key w model_of t) pool.active,
      at_limit-below cap (busy_on key pool.active) (rw (same, e) at h),
      added_one (thread_model_key w model_of t == key),
    )
    | inr other ↦ omega (
      arith,
      v.within key cap e,
      rw other at (busy_on-insert key t.job (thread_model_key w model_of t) pool.active),
    )
  ]
    where
      added_one : (b : Bool) → (if b then 1 else 0) ≤ 1
      added_one b = ground arith

  pub begin_run-WithinLimits :
      (t : Thread) (pool : GraphPool)
      → WithinLimits w pool
      → WithinLimits w (begin_run w model_of t pool)
  unfolding begin_run
  begin_run-WithinLimits t pool v = record {
    within = λ key cap e.
        elim (Bool-cases (
          at_limit (lookup (thread_model_key w model_of t) (model_caps w))
            (busy_on (thread_model_key w model_of t) pool.active))) [
              | inl h ↦ rw h (v.within key cap e)
              | inr h ↦ rw h (begin_run-added t pool key cap v h e)
            ];
  }

  begin_each-WithinLimits :
      (ts : List Thread) (pool : GraphPool)
      → WithinLimits w pool
      → WithinLimits w (begin_each w model_of ts pool)
  begin_each-WithinLimits [] pool v = v
  begin_each-WithinLimits (t ∷ ts) pool v =
      begin_each-WithinLimits ts (begin_run w model_of t pool) (begin_run-WithinLimits t pool v)

  tick-WithinLimits :
      (agents_max running : ℕ) (claim : ℕ → List Group → List Thread) (status : Option PoolStatus)
      (pool : GraphPool)
      → WithinLimits w pool
      → WithinLimits w (tick w model_of agents_max running claim status pool)
  tick-WithinLimits agents_max running claim status pool v =
      tick_cases w model_of agents_max running claim (WithinLimits w) status pool v (λ st e h.
        begin_each-WithinLimits
          (claim (room_of st agents_max running pool) (level_groups w pool.active)) pool v)

end_run-WithinLimits :
    (w : Workspace) (job : String) (pool : GraphPool)
    → WithinLimits w pool
    → WithinLimits w (end_run job pool)
unfolding end_run
end_run-WithinLimits w job pool v = record {
  within = λ key cap e. omega (arith, v.within key cap e, busy_on-remove key job pool.active);
}

-- What happens to a pool: a round of `tick`, with whatever the graph service and the agent manager answer; the
-- beginning of one run, as where runs end while a round waits for its threads; or the end of a run. The workspace's
-- settings stay as they are.
pub data Reaches (w : Workspace) (p : GraphPool) : GraphPool → Type 0 where
  here : Reaches w p p
  ticked :
      (model_of : String → Option Model) (agents_max running : ℕ)
      (claim : ℕ → List Group → List Thread) (status : Option PoolStatus) {q : GraphPool}
      → Reaches w p q
      → Reaches w p (tick w model_of agents_max running claim status q)
  begun :
      (model_of : String → Option Model) (t : Thread) {q : GraphPool}
      → Reaches w p q
      → Reaches w p (begin_run w model_of t q)
  ended : (job : String) {q : GraphPool} → Reaches w p q → Reaches w p (end_run job q)

-- A model with a limit never runs more threads than it takes, if it does not to begin with, through any rounds of the
-- pool, beginnings and ends of runs, whatever threads the graph service hands out and whichever models their agents have.
pub Reaches-WithinLimits :
    (w : Workspace) (p q : GraphPool) → WithinLimits w p → Reaches w p q → WithinLimits w q
Reaches-WithinLimits w p _ v here = v
Reaches-WithinLimits w p _ v (ticked model_of agents_max running claim status r) =
    tick-WithinLimits w model_of agents_max running claim status _ (Reaches-WithinLimits w p _ v r)
Reaches-WithinLimits w p _ v (begun model_of t r) =
    begin_run-WithinLimits w model_of t _ (Reaches-WithinLimits w p _ v r)
Reaches-WithinLimits w p _ v (ended job r) =
    end_run-WithinLimits w job _ (Reaches-WithinLimits w p _ v r)
