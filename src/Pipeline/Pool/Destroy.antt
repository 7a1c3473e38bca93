-- ===== src/Pipeline/Pool/Destroy.antt =====
-- What the destructor of a pipeline frees.
use gaminganywhere.Base.{
  ℕ, ◌+◌, ◌≤◌, ◌≡◌, refl, ap, ◌∙◌, arith, length, List, [], ◌∷◌, none, some, append_nil,
}
use gaminganywhere.Pipeline.Pool.{Ptr, Pool, datapool_free, free_data, destroy, reset}
use gaminganywhere.Pipeline.Pool.Chains.{Linked, free_loop-Linked}
use gaminganywhere.Pipeline.Pool.Refine.{Holds}

-- What is freed: the free list alone, or the work queue where no node is free.
abbrev pub freed_of : List ℕ → List ℕ → List ℕ
freed_of [] queue = queue
freed_of (x ∷ free) queue = x ∷ free

abbrev after_free : List ℕ → Pool → Pool
after_free [] s = s
after_free (x ∷ xs) s = reset s

chain_freed :
    (fuel : ℕ) (s : Pool) (p : Ptr) (xs : List ℕ)
    → Linked s.next p xs
    → length xs ≤ fuel
    → datapool_free fuel s p ≡ some (xs, after_free xs s)
unfolding datapool_free
chain_freed fuel s p [] l h = rw (l, datapool_free) refl
chain_freed fuel s p (x ∷ xs) l h =
    ap (datapool_free fuel s) l.0
    ∙ rw (free_loop-Linked fuel s.next (some x) (x ∷ xs) (refl, l.1) h, datapool_free) refl

-- A destroyed pipeline with free nodes frees these and no other: datapool_free also forgets the work
-- queue, whose nodes stay allocated. The work queue is freed where no node is free.
pub destroy-freed :
    (fuel : ℕ) (s : Pool) (free queue : List ℕ)
    → Holds s free queue
    → length free + length queue ≤ fuel
    → (t : Pool) × (destroy fuel s ≡ some (freed_of free queue, t))
unfolding destroy
destroy-freed fuel s [] queue h enough =
    let first = chain_freed fuel s s.bufpool [] h.pool (omega arith) in
    let second =
      chain_freed fuel (record s { bufpool = none }) s.datahead queue h.work (omega arith) in
    (
      record (after_free queue (record s { bufpool = none })) { datahead = none; datatail = none },
      ap (free_data fuel) first ∙ rw (second, free_data) refl,
    )
destroy-freed fuel s (x ∷ free) queue h enough =
    let first = chain_freed fuel s s.bufpool (x ∷ free) h.pool (omega arith) in
    let t = reset s in
    let second = chain_freed fuel (record t { bufpool = none }) none [] refl (omega arith) in
    (
      record t { bufpool = none; datahead = none; datatail = none },
      ap (free_data fuel) first ∙ rw (second, free_data) (rw (append_nil free) refl),
    )
