-- ===== src/Pipeline/Pool/Tests.antt =====
-- The theorems on the pools at a pipeline of three buffers, the nodes 1, 2 and 3.
use gaminganywhere.Base.{ℕ, ◌+◌, ◌≡◌, refl, List, [], ◌∷◌, ◌++◌, arith, length, some}
use gaminganywhere.Pipeline.Pool.{Pool, allocate_data, store_data, destroy}
use gaminganywhere.Pipeline.Pool.Chains.{NotIn, Distinct}
use gaminganywhere.Pipeline.Pool.Refine.{Holds, allocate-free, store_refines}
use gaminganywhere.Pipeline.Pool.Destroy.{freed_of, destroy-freed}
use gaminganywhere.Pipeline.Pool.Traffic.{Traffic, allocate, here, then, Conserves, Reach-counts}
use gaminganywhere.Pipeline.Pool.Setup.{built, datapool_init-Holds}

abbrev nodes : List ℕ
nodes = 1 ∷ 2 ∷ 3 ∷ []

abbrev pool : Pool
pool = built nodes

nodes-Distinct : Distinct nodes
nodes-Distinct = ground arith

pool-Holds : Holds pool (3 ∷ 2 ∷ 1 ∷ []) []
pool-Holds = (datapool_init-Holds nodes 10 (λ e. cc) (omega arith) nodes-Distinct).1

-- the first buffer is taken
taken :
    (s : Pool) × (allocate_data pool ≡ some (3, s))
    × Holds s (2 ∷ 1 ∷ []) []
    × NotIn 3 ((2 ∷ 1 ∷ []) ++ [])
taken = allocate-free pool-Holds

abbrev one_taken : Pool
one_taken = taken.0

abbrev stored : Pool
stored = store_data one_taken 3

abbrev traffic : Traffic
traffic = record { pool = pool; held = [] }

abbrev after : Traffic
after = record { pool = one_taken; held = 3 ∷ [] }

traffic-Conserves : Conserves 3 traffic
traffic-Conserves = record {
  free = 3 ∷ 2 ∷ 1 ∷ [];
  queue = [];
  holds = pool-Holds;
  apart = ground arith;
  total = refl;
}

Reach-counts_example :
    (after.pool.bufcount + after.pool.datacount + length after.held ≡ 3) × Conserves 3 after
Reach-counts_example = Reach-counts traffic-Conserves (then here (allocate taken.1))

destroy-freed_example : (t : Pool) × (destroy 3 stored ≡ some (freed_of (2 ∷ 1 ∷ []) (3 ∷ []), t))
destroy-freed_example =
    destroy-freed 3 stored (2 ∷ 1 ∷ []) (3 ∷ []) (store_refines 3 (2 ∷ 1 ∷ []) [] taken.3 taken.2)
      (omega arith)
