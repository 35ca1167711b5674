-- ===== src/Reads/Examples.antt =====
-- What a person of the small organization read, and where what it writes goes.
use gwarestrin.Base.{◌≡◌, refl, true, false, none, some, [], ◌∷◌, arith}
use gwarestrin.Positions.{can_see, common_ancestor}
use gwarestrin.Positions.Examples.{org, org-IsTree}
use gwarestrin.Placement.{place, floor_lifts}
use gwarestrin.Delegation.{ordinary}
use gwarestrin.Callers.{Caller, Server}
use gwarestrin.Callers.Homes.{server_of}
use gwarestrin.Reads.{Marks, record_reads, derived_floor, worker_write_floor}
use gwarestrin.Reads.Floor.{read_then_written}
use gwarestrin.Reads.Workers.{worker_write_floor-hides, worker_write_floor_stays}

abbrev ann : Caller
ann = record {
  user = "ann";
  key = none;
  agent = none;
  role = ordinary;
  caps = record { read = true; write = "direct"; approve = false; raw = false };
  positions = "org" ∷ [];
  is_open = false;
}

abbrev small : Server
small = server_of org [] 12

-- Ann read something of the night shift and something of sales.
abbrev after : Marks
after = (record_reads small ann (some "shift" ∷ none ∷ some "sales" ∷ []) 7000000 []).0

stored : (record_reads small ann (some "shift" ∷ some "shift" ∷ []) 7000000 []).1 ≡ "shift" ∷ []
unfolding record_reads
stored = refl

raised : derived_floor small after 8000000 ann (some "shift") ≡ some "org"
unfolding derived_floor record_reads common_ancestor
raised = refl

forgotten : derived_floor small after 60000000 ann (some "shift") ≡ some "shift"
unfolding derived_floor record_reads common_ancestor
forgotten = refl

lifted : (worker_write_floor small after 8000000 ann (some "shift")).floor ≡ some "shift"
unfolding worker_write_floor record_reads common_ancestor floor_lifts
lifted = refl

org_sees :
    can_see org ("org" ∷ []) (
      some
        (place
          (λ n. "1")
          org
          "shift"
          none
          false
          none
          false
          (derived_floor small after 8000000 ann (some "shift"))
          60).home)
    ≡ true
unfolding derived_floor record_reads common_ancestor place can_see
org_sees = refl

read_then_written_example : can_see org ("org" ∷ []) (some "sales") ≡ true
read_then_written_example =
    read_then_written org [] 12 ann refl (some "shift" ∷ none ∷ some "sales" ∷ []) 7000000 8000000
      [] (λ n. "1") "shift" none false none false 60 ("org" ∷ []) "sales" org-IsTree (omega arith)
      (omega arith) refl refl refl tt org_sees

not_lifted : (worker_write_floor small after 8000000 ann (some "org")).lift ≡ none
unfolding worker_write_floor record_reads common_ancestor floor_lifts
not_lifted = refl

sees_org : can_see org ("org" ∷ []) (some "org") ≡ true
unfolding can_see
sees_org = refl

worker_write_floor-hides_example : can_see org ("org" ∷ []) (some "sales") ≡ true
worker_write_floor-hides_example =
    worker_write_floor-hides org-IsTree [] 12 ann refl (omega arith) after 8000000 "org"
      ("org" ∷ []) "sales" refl not_lifted (unfold record_reads in refl) sees_org

worker_write_floor_stays_example :
    (worker_write_floor small after 8000000 ann (some "shift")).floor ≡ some "shift"
worker_write_floor_stays_example =
    worker_write_floor_stays org-IsTree [] 12 ann refl (omega arith) after 8000000 "shift" refl
