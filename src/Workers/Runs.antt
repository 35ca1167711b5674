-- ===== src/Workers/Runs.antt =====
-- packages/server/src/agents/graph-pool.ts: a round of the pool (`tick`) up to the first await of each thread's
-- `run`, where the limit of its model is checked, and the end of a run.
use Prim.Native.Nat.{min}
use gwarestrin.Base.{
  ℕ, ◌-◌, String, Bool, false, Option, none, some, List, [], ◌∷◌, ◌++◌, if◌then◌else◌, leb, eqb,
  length, lookup, insert, remove, ◌≡◌, refl, sym, subst, inl, inr, Bool-cases, if_true, if_false,
}
use gwarestrin.Jobs.Threads.{Group, Thread}
use gwarestrin.Workers.Models.{
  Model, Workspace, Profile, thread_model_key, model_caps, busy_on, level_groups,
}

-- The running threads, and the jobs given back to the queue because their model was full.
pub record GraphPool : Type 0 where
  pub active : List (String × String)
  pub released : List String

-- `cap !== undefined && this.busyOn(model) >= cap`
abbrev pub at_limit : Option ℕ → ℕ → Bool
at_limit none busy = false
at_limit (some cap) busy = leb cap busy

unfoldable pub begin_run : Workspace → (String → Option Model) → Thread → GraphPool → GraphPool
unfolding thread_model_key model_caps
begin_run w model_of t pool =
    let model = thread_model_key w model_of t in
    if at_limit (lookup model (model_caps w)) (busy_on model pool.active)
    then record pool { released = pool.released ++ t.job ∷ [] }
    else record pool { active = insert t.job model pool.active }

-- `this.active.delete(t.job)`
unfoldable pub end_run : String → GraphPool → GraphPool
end_run job pool = record pool { active = remove job pool.active }

abbrev pub begin_each : Workspace → (String → Option Model) → List Thread → GraphPool → GraphPool
begin_each w model_of [] pool = pool
begin_each w model_of (t ∷ ts) pool = begin_each w model_of ts (begin_run w model_of t pool)

-- What `GET /api/worker` answers, as far as a round needs it: the pool's size, if there is one, and whether the
-- master is on.
pub record PoolStatus : Type 0 where
  pub pool_size : Option ℕ
  pub master_on : Bool

abbrev pub size_of : PoolStatus → ℕ
size_of st = elim st.pool_size [ none ↦ 0 | some n ↦ n ]

abbrev pub reserve_of : PoolStatus → ℕ
reserve_of st = if st.master_on then 1 else 0

abbrev pub room_of : PoolStatus → (agents_max running : ℕ) → GraphPool → ℕ
room_of st agents_max running pool =
    min (size_of st - length pool.active) (agents_max - running - reserve_of st)

module _ (w : Workspace) (model_of : String → Option Model) (agents_max running : ℕ)
    (claim : ℕ → List Group → List Thread) where
  -- `if (room <= 0) return`, and what follows
  abbrev tick_round : PoolStatus → GraphPool → GraphPool
  tick_round st pool =
      if eqb (room_of st agents_max running pool) 0
      then pool
      else begin_each w model_of
          (claim (room_of st agents_max running pool) (level_groups w pool.active)) pool

  abbrev tick_with : Option Profile → Option PoolStatus → GraphPool → GraphPool
  tick_with none status pool = pool
  tick_with (some profile) none pool = pool
  tick_with (some profile) (some st) pool = tick_round st pool

  -- `claim` asks the graph service for threads. A round without a profile or an answer does nothing.
  unfoldable pub tick : Option PoolStatus → GraphPool → GraphPool
  unfolding begin_run level_groups
  tick status pool = tick_with w.profile status pool

  -- A round leaves the pool as it is or begins the threads it asked for.
  module _ (P : GraphPool → Type 0) where
    tick_with_cases :
        (profile : Option Profile) (status : Option PoolStatus) (pool : GraphPool)
        → P pool
        → ((st : PoolStatus)
            → status ≡ some st
            → eqb (room_of st agents_max running pool) 0 ≡ false
            → P (
                begin_each w model_of
                  (claim (room_of st agents_max running pool) (level_groups w pool.active))
                  pool))
        → P (tick_with profile status pool)
    tick_with_cases none status pool v f = v
    tick_with_cases (some profile) none pool v f = v
    tick_with_cases (some profile) (some st) pool v f =
        elim (Bool-cases (eqb (room_of st agents_max running pool) 0)) [
          | inl h ↦ subst P (sym (if_true _ _ _ h)) v
          | inr h ↦ subst P (sym (if_false _ _ _ h)) (f st refl h)
        ]

    pub tick_cases :
        (status : Option PoolStatus) (pool : GraphPool)
        → P pool
        → ((st : PoolStatus)
            → status ≡ some st
            → eqb (room_of st agents_max running pool) 0 ≡ false
            → P (
                begin_each w model_of
                  (claim (room_of st agents_max running pool) (level_groups w pool.active))
                  pool))
        → P (tick status pool)
    unfolding tick
    tick_cases status pool v f = tick_with_cases w.profile status pool v f
