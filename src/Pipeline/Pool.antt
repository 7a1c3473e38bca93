-- ===== src/Pipeline/Pool.antt =====
-- The buffer pools of a pipeline (class pipeline of ga/core/pipeline.cpp): a free list and a work
-- queue of `struct pooldata`, linked by their `next` pointers. Nodes are addresses, and the heap is
-- the `next` field of each; `none` is NULL. Each method runs under `poolmutex`, so it is one step.
-- `malloc` and `free` are the caller's: a list of the addresses that `malloc` returns, and the list
-- of the addresses that were freed, in order.
pub mod Chains
pub mod Refine
pub mod Traffic
pub mod Transit
pub mod Setup
pub mod Destroy
mod Tests
use gaminganywhere.Base.{
  ℕ, zero, suc, ◌+◌, ◌-◌, ◌==◌, length, Bool, true, false, if◌then◌else◌, ◌||◌, List, [], ◌∷◌, ◌++◌,
  Option, none, some,
}

abbrev pub Ptr : Type 0
Ptr = Option ℕ

pub record Pool : Type 0 where
  pub next : ℕ → Ptr
  pub bufpool : Ptr
  pub datahead : Ptr
  pub datatail : Ptr
  pub datacount : ℕ
  pub bufcount : ℕ

abbrev pub is_null : Ptr → Bool
is_null none = true
is_null (some p) = false

-- `p->next = q`
abbrev pub update : (ℕ → Ptr) → ℕ → Ptr → ℕ → Ptr
update f p q x = if p == x then q else f x

-- The constructor: no data.
abbrev pub empty : Pool
empty = record {
  next = λ x. none;
  bufpool = none;
  datahead = none;
  datatail = none;
  datacount = 0;
  bufcount = 0;
}

-- The nodes that the loop of `datapool_free` frees, with fuel for its rounds; `none` means that the
-- fuel ran out.
pub free_loop : ℕ → (ℕ → Ptr) → Ptr → Option (List ℕ)
free_loop fuel next none = some []
free_loop zero next (some p) = none
free_loop (suc fuel) next (some p) = elim (free_loop fuel next (next p)) [
  | none ↦ none
  | some ps ↦ some (p ∷ ps)
]

-- What `datapool_free` leaves of the pools, where its argument is not NULL.
abbrev pub reset : Pool → Pool
reset s = record s { bufpool = none; datahead = none; datatail = none; datacount = 0; bufcount = 0 }

-- The nodes freed, and the pool.
pub datapool_free : ℕ → Pool → Ptr → Option (List ℕ × Pool)
datapool_free fuel s none = some ([], s)
datapool_free fuel s (some p) = elim (free_loop fuel s.next (some p)) [
  | none ↦ none
  | some ps ↦ some (ps, reset s)
]

-- One round of the loop of `datapool_init`: the new node goes in front of the free list.
abbrev pub add_node : Pool → ℕ → Pool
add_node s p = record s { next = update s.next p s.bufpool; bufpool = some p }

-- The loop of `datapool_init`, over what `malloc` returns in each round. Where it returns NULL the
-- nodes are freed, and the flag is false. `made` counts the nodes, and is the fuel to free them.
pub init_loop : ℕ → Pool → List Ptr → Option (Bool × List ℕ × Pool)
init_loop made s [] = some (true, [], s)
init_loop made s (none ∷ rest) = elim (datapool_free made s s.bufpool) [
  | none ↦ none
  | some (ps, s') ↦ some (false, ps, record s' { bufpool = none })
]
init_loop made s (some p ∷ rest) = init_loop (suc made) (add_node s p) rest

-- The counts are set behind the loop, where it did not fail.
abbrev pub finish_init : ℕ → Option (Bool × List ℕ × Pool) → Option (Bool × List ℕ × Pool)
finish_init n none = none
finish_init n (some (false, ps, s)) = some (false, ps, s)
finish_init n (some (true, ps, s)) = some (true, ps, record s { datacount = 0; bufcount = n })

-- `datapool_init(n, datasize)`, `n` the length of the list. The result is NULL where the flag is
-- false, and `bufpool` where it is true.
pub datapool_init : Pool → List Ptr → ℕ → Option (Bool × List ℕ × Pool)
unfolding init_loop datapool_free free_loop
datapool_init s rounds datasize =
    if length rounds == 0 || datasize == 0
    then some (false, [], s)
    else finish_init (length rounds) (init_loop 0 (record s { bufpool = none }) rounds)

-- `load_data_unlocked` behind its test, on the node at the head
abbrev pub unlink_head : Pool → ℕ → Pool
unlink_head s d = record s {
  next = update s.next d none;
  datahead = s.next d;
  datatail = if is_null (s.next d) then none else s.datatail;
  datacount = s.datacount - 1;
}

-- `load_data`, and `load_data_unlocked`. The source follows `datahead` where `datatail` is not NULL;
-- a NULL `datahead` there would be a fault, for which no node is returned.
pub load_data : Pool → Ptr × Pool
load_data s = elim s.datatail [
  | none ↦ (none, s)
  | some t ↦ elim s.datahead [ none ↦ (none, s) | some d ↦ (some d, unlink_head s d) ]
]

-- `allocate_data`; `none` is the `exit(-1)`.
pub allocate_data : Pool → Option (ℕ × Pool)
unfolding load_data
allocate_data s = elim s.bufpool [
  | none ↦ let (d?, s') = load_data s in elim d? [ none ↦ none | some d ↦ some (d, s') ]
  | some d ↦
      some
        (d, record s { next = update s.next d none; bufpool = s.next d; bufcount = s.bufcount - 1 })
]

pub store_data : Pool → ℕ → Pool
store_data s d = elim s.datatail [
  | none ↦ record s {
    next = update s.next d none;
    datahead = some d;
    datatail = some d;
    datacount = s.datacount + 1;
  }
  | some t ↦ record s {
    next = update (update s.next d none) t (some d);
    datatail = some d;
    datacount = s.datacount + 1;
  }
]

pub release_data : Pool → ℕ → Pool
release_data s d = record s {
  next = update s.next d s.bufpool;
  bufpool = some d;
  bufcount = s.bufcount + 1;
}

-- The pools' part of `~pipeline`, behind the freeing of the free list: the nodes freed.
abbrev pub free_data : ℕ → Option (List ℕ × Pool) → Option (List ℕ × Pool)
free_data fuel none = none
free_data fuel (some (ps, s)) = elim (datapool_free fuel (record s { bufpool = none }) s.datahead) [
  | none ↦ none
  | some (qs, t) ↦ some (ps ++ qs, record t { datahead = none; datatail = none })
]

-- `~pipeline`, with fuel for the nodes: those freed, in order.
pub destroy : ℕ → Pool → Option (List ℕ × Pool)
destroy fuel s = free_data fuel (datapool_free fuel s s.bufpool)
