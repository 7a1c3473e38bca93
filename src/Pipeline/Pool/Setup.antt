-- ===== src/Pipeline/Pool/Setup.antt =====
-- `datapool_init` and `datapool_free`: the pools that a new pipeline gets, and what a failure frees.
use mathlib.Core.List.{append-nil}
use mathlib.Core.Path.{subst}
use gaminganywhere.Base.{
  ℕ, suc, ◌+◌, ◌≡◌, ◌≢◌, refl, sym, ap, ◌∙◌, List, [], ◌∷◌, ◌++◌, map, none, some, arith, length,
  length-map, length-append, ◌≤◌, true, false, ◌<◌,
}
use gaminganywhere.Pipeline.Pool.{
  Ptr, Pool, update, free_loop, datapool_free, add_node, init_loop, datapool_init, finish_init,
  empty, reset,
}
use gaminganywhere.Pipeline.Pool.Chains.{
  Linked, NotIn, Distinct, Linked-update, free_loop-Linked, NotIn-split, Distinct-remove,
  Distinct-insert,
}
use gaminganywhere.Pipeline.Pool.Refine.{Holds}

-- The nodes in the order in which they come to stand: the last one made is first.
abbrev pub stacked : List ℕ → List ℕ → List ℕ
stacked [] made = made
stacked (p ∷ ps) made = stacked ps (p ∷ made)

-- the pool after the nodes `ps` were added
abbrev pub add_nodes : Pool → List ℕ → Pool
add_nodes s [] = s
add_nodes s (p ∷ ps) = add_nodes (add_node s p) ps

add_node-Linked :
    (s : Pool) (p : ℕ) (made : List ℕ)
    → NotIn p made
    → Linked s.next s.bufpool made
    → Linked (update s.next p s.bufpool) (some p) (p ∷ made)
add_node-Linked s p made out l =
    (refl, rw self (Linked-update s.next p s.bufpool s.bufpool made out l))
  where
    self : update s.next p s.bufpool p ≡ s.bufpool
    self = ground arith

add_nodes-Linked :
    (s : Pool) (ps made : List ℕ)
    → Distinct (ps ++ made)
    → Linked s.next s.bufpool made
    → Linked (add_nodes s ps).next (add_nodes s ps).bufpool (stacked ps made)
      × Distinct (stacked ps made)
add_nodes-Linked s [] made d l = (l, d)
add_nodes-Linked s (p ∷ ps) made d l =
    add_nodes-Linked (add_node s p) ps (p ∷ made)
      (subst Distinct refl
        (let r = Distinct-remove [] p (ps ++ made) d in Distinct-insert ps p made r.1 r.0))
      (add_node-Linked s p made (NotIn-split p ps made d.0).1 l)

add_nodes_other :
    (s : Pool) (ps : List ℕ)
    → ((add_nodes s ps).datahead ≡ s.datahead)
      × ((add_nodes s ps).datatail ≡ s.datatail)
      × ((add_nodes s ps).datacount ≡ s.datacount)
      × ((add_nodes s ps).bufcount ≡ s.bufcount)
add_nodes_other s [] = (refl, refl, refl, refl)
add_nodes_other s (p ∷ ps) = add_nodes_other (add_node s p) ps

length-stacked : (ps made : List ℕ) → length (stacked ps made) ≡ length ps + length made
length-stacked [] made = omega arith
length-stacked (p ∷ ps) made = omega (arith, length-stacked ps (p ∷ made))

-- The loop adds what `malloc` returns, up to the first NULL.
init_loop-append :
    (made : ℕ) (s : Pool) (ps : List ℕ) (rest : List Ptr)
    → init_loop made s (map some ps ++ rest) ≡ init_loop (made + length ps) (add_nodes s ps) rest
unfolding init_loop
init_loop-append made s [] rest =
    let e : made ≡ made + 0 = omega arith in ap (λ k. init_loop k s rest) e
init_loop-append made s (p ∷ ps) rest =
    let e : suc made + length ps ≡ made + suc (length ps) = omega arith in
    init_loop-append (suc made) (add_node s p) ps rest
    ∙ ap (λ k. init_loop k (add_nodes (add_node s p) ps) rest) e

init_loop-null :
    (made : ℕ) (s : Pool) (rest : List Ptr) {ps : List ℕ} {s' : Pool}
    → datapool_free made s s.bufpool ≡ some (ps, s')
    → init_loop made s (none ∷ rest) ≡ some (false, ps, record s' { bufpool = none })
unfolding init_loop
init_loop-null made s rest e = ground (arith, e)

-- Behind its guard, `datapool_init` is the loop.
datapool_init-loop :
    (s : Pool) (rounds : List Ptr) (datasize : ℕ)
    → 0 < length rounds
    → 0 < datasize
    → datapool_init s rounds datasize
      ≡ finish_init (length rounds) (init_loop 0 (record s { bufpool = none }) rounds)
unfolding datapool_init
datapool_init-loop s rounds datasize h k = ground arith

-- the state of a new pipeline whose pool was built from the nodes `ps`
abbrev pub built : List ℕ → Pool
built ps = record (add_nodes empty ps) { datacount = 0; bufcount = length ps }

made :
    (ps : List ℕ) (datasize : ℕ)
    → ps ≢ []
    → 0 < datasize
    → datapool_init empty (map some ps) datasize ≡ some (true, [], built ps)
unfolding init_loop
made [] datasize ne h = absurd (ne refl)
made (p ∷ ps) datasize ne h =
    datapool_init-loop empty (map some (p ∷ ps)) datasize (omega arith) h
    ∙ ap (λ l. finish_init (suc (length (map {B = Ptr} some ps))) (init_loop 0 empty l))
        (sym (append-nil (map some (p ∷ ps))))
    ∙ ap (finish_init _) (init_loop-append 0 empty (p ∷ ps) [])
    ∙ ap
        (λ n.
          some (true, [], record (add_nodes empty (p ∷ ps)) { datacount = 0; bufcount = suc n }))
        (length-map some ps)

-- Where every `malloc` gives a new node, `datapool_init` on a new pipeline succeeds, and leaves all
-- the nodes free and no data.
pub datapool_init-Holds :
    (ps : List ℕ) (datasize : ℕ)
    → ps ≢ []
    → 0 < datasize
    → Distinct ps
    → (datapool_init empty (map some ps) datasize ≡ some (true, [], built ps))
      × Holds (built ps) (stacked ps []) []
datapool_init-Holds ps datasize some_nodes sized d = (
  init_run,
  record {
    pool = (add_nodes-Linked empty ps [] nodes refl).0;
    work = (add_nodes_other empty ps).0;
    tail = (add_nodes_other empty ps).1;
    distinct = subst Distinct (sym (append-nil _)) (add_nodes-Linked empty ps [] nodes refl).1;
    free_count = omega (arith, length-stacked ps []);
    work_count = refl;
  },
)
  where
    nodes : Distinct (ps ++ [])
    nodes = subst Distinct (sym (append-nil ps)) d

    init_run : datapool_init empty (map some ps) datasize ≡ some (true, [], built ps)
    init_run = made ps datasize some_nodes sized

-- Freeing the pool of a pipeline with no data.
datapool_free-Linked :
    (fuel : ℕ) (s : Pool) (xs : List ℕ)
    → length xs ≤ fuel
    → Linked s.next s.bufpool xs
    → (s.datahead ≡ none) × (s.datatail ≡ none) × (s.datacount ≡ 0) × (s.bufcount ≡ 0)
    → (s' : Pool) × (datapool_free fuel s s.bufpool ≡ some (xs, s'))
      × Holds (record s' { bufpool = none }) [] []
unfolding datapool_free
datapool_free-Linked fuel s [] h l idle = (
  s,
  ap (datapool_free fuel s) l,
  record {
    pool = refl;
    work = idle.0;
    tail = idle.1;
    distinct = tt;
    free_count = idle.3;
    work_count = idle.2;
  },
)
datapool_free-Linked fuel s (x ∷ xs) h l idle = (
  reset s,
  rw (l.0, datapool_free) (rw (freed)),
  record {
    pool = refl;
    work = refl;
    tail = refl;
    distinct = tt;
    free_count = refl;
    work_count = refl;
  },
)
  where
    freed : free_loop fuel s.next (some x) ≡ some (x ∷ xs)
    freed = free_loop-Linked fuel s.next (some x) (x ∷ xs) (refl, l.1) h

-- Where `malloc` gives NULL after the nodes `ps`, `datapool_init` fails, has freed each of these
-- nodes once, and leaves an empty pipeline.
pub datapool_init_fails :
    (ps : List ℕ) (rest : List Ptr) (datasize : ℕ)
    → 0 < datasize
    → Distinct ps
    → (s : Pool) × (datapool_init empty (map some ps ++ (none ∷ rest)) datasize
        ≡ some (false, stacked ps [], s))
      × Holds s [] []
datapool_init_fails ps rest datasize sized d =
    let (s', freed, h) =
      datapool_free-Linked (0 + length ps) (add_nodes empty ps) (stacked ps [])
        (omega (arith, length-stacked ps [])) (add_nodes-Linked empty ps [] nodes refl).0
        (add_nodes_other empty ps) in
    (record s' { bufpool = none }, failed freed, h)
  where
    nodes : Distinct (ps ++ [])
    nodes = subst Distinct (sym (append-nil ps)) d

    failed :
        {s' : Pool}
        → datapool_free (0 + length ps) (add_nodes empty ps) (add_nodes empty ps).bufpool
          ≡ some (stacked ps [], s')
        → datapool_init empty (map some ps ++ (none ∷ rest)) datasize
          ≡ some (false, stacked ps [], record s' { bufpool = none })
    failed e =
        datapool_init-loop empty (map some ps ++ (none ∷ rest)) datasize
          (omega (arith, length-append (map {B = Ptr} some ps) (none ∷ rest))) sized
        ∙ ap (finish_init _) (init_loop-append 0 empty ps (none ∷ rest))
        ∙ ap (finish_init _) (init_loop-null _ _ rest e)
