-- ===== src/Workers/Size.antt =====
-- packages/server/src/agents/graph-pool.ts: the size of the pool over a round.
use Prim.Native.Nat.{min}
use gwarestrin.Base.{
  ℕ, suc, ◌+◌, ◌-◌, ◌≤◌, String, ◌≡◌, refl, sym, subst, Option, some, List, [], ◌∷◌, length, lookup,
  insert, arith, inl, inr, Bool-cases,
}
use gwarestrin.Jobs.{Settings, Store}
use gwarestrin.Jobs.Threads.{Group, Thread, Claimed, paused, threads, claim_threads}
use gwarestrin.Jobs.Claims.{claim_threads-room}
use gwarestrin.Workers.Models.{
  Model, Workspace, thread_model_key, model_caps, busy_on, level_groups,
}
use gwarestrin.Workers.Runs.{
  GraphPool, PoolStatus, at_limit, begin_run, begin_each, tick, tick_cases, reserve_of, room_of,
  size_of,
}

length-insert : (k v : String) (m : List (String × String)) → length (insert k v m) ≤ suc (length m)
length-insert k v [] = omega arith
length-insert k v ((j, x) ∷ m) = ground (arith, length-insert k v m)

-- What the service hands out: nothing while it is paused.
abbrev pub handed_out : Claimed → List Thread
handed_out (paused out) = []
handed_out (threads ts) = ts

-- The graph service answers a claim from its queue.
abbrev pub claim_from :
    Settings → (String → Option String) → ℕ → Store → ℕ → List Group → List Thread
claim_from ws entry_name now st limit groups =
    handed_out (claim_threads ws entry_name limit groups now st).0

claim_from-limit :
    (ws : Settings) (entry_name : String → Option String) (now : ℕ) (st : Store) (limit : ℕ)
    (groups : List Group)
    → length (claim_from ws entry_name now st limit groups) ≤ limit
claim_from-limit ws entry_name now st limit groups =
    of_claimed (claim_threads ws entry_name limit groups now st).0
      (λ ts e. (claim_threads-room ws entry_name limit groups now st ts e).0)
  where
    of_claimed :
        (c : Claimed)
        → ((ts : List Thread) → c ≡ threads ts → length ts ≤ limit)
        → length (handed_out c) ≤ limit
    of_claimed (paused out) h = omega arith
    of_claimed (threads ts) h = h ts refl

room_of-bounds :
    (size busy free : ℕ)
    → (busy ≤ size → busy + min (size - busy) free ≤ size) × (min (size - busy) free ≤ free)
room_of-bounds size busy free = (ground arith, ground arith)

PoolStatus-same : (a b : PoolStatus) → some a ≡ some b → a ≡ b
PoolStatus-same a b e = cc e

module _ (w : Workspace) (model_of : String → Option Model) where
  begin_run-length :
      (t : Thread) (pool : GraphPool)
      → length (begin_run w model_of t pool).active ≤ suc (length pool.active)
  unfolding begin_run
  begin_run-length t pool =
      elim (Bool-cases (
        at_limit (lookup (thread_model_key w model_of t) (model_caps w))
          (busy_on (thread_model_key w model_of t) pool.active))) [
            | inl h ↦ rw h (omega arith)
            | inr h ↦ rw h (length-insert t.job (thread_model_key w model_of t) pool.active)
          ]

  begin_each-length :
      (ts : List Thread) (pool : GraphPool)
      → length (begin_each w model_of ts pool).active ≤ length pool.active + length ts
  begin_each-length [] pool = omega arith
  begin_each-length (t ∷ ts) pool =
      omega (arith, begin_each-length ts (begin_run w model_of t pool), begin_run-length t pool)

  -- What a round leaves, against what it found.
  abbrev pub Fits : PoolStatus → (agents_max running : ℕ) → GraphPool → GraphPool → Type 0
  Fits st agents_max running before after =
      (length before.active ≤ size_of st → length after.active ≤ size_of st)
      × (length after.active ≤ length before.active + (agents_max - running - reserve_of st))

  begin_each-Fits :
      (st : PoolStatus) (agents_max running : ℕ) (ts : List Thread) (pool : GraphPool)
      → length ts ≤ room_of st agents_max running pool
      → Fits st agents_max running pool (begin_each w model_of ts pool)
  begin_each-Fits st agents_max running ts pool h = (
    λ full. omega (
      arith,
      begin_each-length ts pool,
      h,
      full,
      (room_of-bounds (size_of st) (length pool.active) (agents_max - running - reserve_of st)).0,
    ),
    omega (
      arith,
      begin_each-length ts pool,
      h,
      (room_of-bounds (size_of st) (length pool.active) (agents_max - running - reserve_of st)).1,
    ),
  )

  -- A round that claims from the graph service's queue never brings the pool above the size the service names, nor
  -- starts more threads than the workspace has agents left, of which one stays free while the master is on.
  pub tick-claim_from :
      (ws : Settings) (entry_name : String → Option String) (now : ℕ) (store : Store)
      (agents_max running : ℕ) (st : PoolStatus) (pool : GraphPool)
      → Fits st agents_max running pool
          (tick w model_of agents_max running (claim_from ws entry_name now store) (some st) pool)
  tick-claim_from ws entry_name now store agents_max running st pool =
      tick_cases w model_of agents_max running (claim_from ws entry_name now store)
        (Fits st agents_max running pool) (some st) pool (λ full. full, omega arith)
        (λ st' e h.
          begin_each-Fits st agents_max running
            (claim_from ws entry_name now store (room_of st' agents_max running pool)
              (level_groups w pool.active))
            pool
            (subst
              (λ s.
                length (
                  claim_from ws entry_name now store (room_of st' agents_max running pool)
                    (level_groups w pool.active))
                ≤ room_of s agents_max running pool)
              (sym (PoolStatus-same st st' e))
              (claim_from-limit ws entry_name now store (room_of st' agents_max running pool)
                (level_groups w pool.active))))
