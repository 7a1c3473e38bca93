-- ===== src/Pipeline/Pool/Refine.antt =====
-- The pools of a pipeline against their contract: a set of free buffers and a first-in first-out
-- queue of filled ones. `Holds s free queue` says that the two chains are these nodes, that no node
-- stands in them twice, and that the counts are right.
use mathlib.Core.Path.{subst}
use mathlib.Core.List.{append_assoc}
use gaminganywhere.Base.{
  ℕ, ◌-◌, ◌≡◌, refl, sym, ◌∙◌, List, [], ◌∷◌, ◌++◌, none, some, arith, length, if◌then◌else◌,
  length-append,
}
use gaminganywhere.Pipeline.Pool.{
  Pool, update, is_null, unlink_head, load_data, allocate_data, store_data, release_data, empty,
}
use gaminganywhere.Pipeline.Pool.Chains.{
  Linked, last, NotIn, Distinct, NotIn-split, Distinct-snoc, Distinct-split, Distinct-remove,
  Linked-update, Linked-snoc, last-snoc, last-NotIn,
}

pub record Holds (s : Pool) (free queue : List ℕ) : Type 0 where
  pub pool : Linked s.next s.bufpool free
  pub work : Linked s.next s.datahead queue
  pub tail : s.datatail ≡ last queue
  pub distinct : Distinct (free ++ queue)
  pub free_count : s.bufcount ≡ length free
  pub work_count : s.datacount ≡ length queue

pub empty-Holds : Holds empty [] []
empty-Holds = record {
  pool = refl;
  work = refl;
  tail = refl;
  distinct = tt;
  free_count = refl;
  work_count = refl;
}

-- `allocate_data` takes a free buffer where there is one.
pub allocate-free :
    {s : Pool} {x : ℕ} {free queue : List ℕ}
    → Holds s (x ∷ free) queue
    → (s' : Pool) × (allocate_data s ≡ some (x, s')) × Holds s' free queue × NotIn x (free ++ queue)
unfolding allocate_data
allocate-free {s} {x} {free} {queue} h = (
  record s { next = update s.next x none; bufpool = s.next x; bufcount = s.bufcount - 1 },
  rw (h.pool.0),
  record {
    pool = Linked-update s.next x none (s.next x) free (apart.0) h.pool.1;
    work = Linked-update s.next x none s.datahead queue (apart.1) h.work;
    tail = h.tail;
    distinct = h.distinct.1;
    free_count = omega (arith, h.free_count);
    work_count = h.work_count;
  },
  h.distinct.0,
)
  where
    apart : NotIn x free × NotIn x queue
    apart = NotIn-split x free queue h.distinct.0

-- Unlinking the oldest buffer of the queue.
unlink-Holds :
    {s : Pool} {x : ℕ} {free queue : List ℕ}
    → Holds s free (x ∷ queue)
    → Holds (unlink_head s x) free queue × NotIn x (free ++ queue)
unlink-Holds {s} {x} {free} {queue} h = (
  record {
    pool = Linked-update s.next x none s.bufpool free (apart.0) h.pool;
    work = Linked-update s.next x none (s.next x) queue (apart.1) h.work.1;
    tail = new_tail queue h.work.1 h.tail;
    distinct = removed.0;
    free_count = h.free_count;
    work_count = omega (arith, h.work_count);
  },
  removed.1,
)
  where
    removed : Distinct (free ++ queue) × NotIn x (free ++ queue)
    removed = Distinct-remove free x queue h.distinct

    apart : NotIn x free × NotIn x queue
    apart = NotIn-split x free queue removed.1

    new_tail :
        (ys : List ℕ)
        → Linked s.next (s.next x) ys
        → s.datatail ≡ last (x ∷ ys)
        → (if is_null (s.next x) then none else s.datatail) ≡ last ys
    new_tail [] l e = rw l
    new_tail (y ∷ ys) l e = rw (l.0) e

last-some : (x : ℕ) (xs : List ℕ) → (t : ℕ) × (last (x ∷ xs) ≡ some t)
last-some x [] = (x, refl)
last-some x (y ∷ ys) = last-some y ys

-- `load_data` takes the oldest buffer of the queue.
pub load_refines :
    {s : Pool} {x : ℕ} {free queue : List ℕ}
    → Holds s free (x ∷ queue)
    → (load_data s ≡ (some x, unlink_head s x))
      × Holds (unlink_head s x) free queue
      × NotIn x (free ++ queue)
unfolding load_data
load_refines {s} {x} {free} {queue} h =
    let t = last-some x queue in
    (rw (h.tail ∙ t.1, h.work.0), (unlink-Holds h).0, (unlink-Holds h).1)

-- `load_data` returns NULL on an empty queue.
pub load-empty : {s : Pool} {free : List ℕ} → Holds s free [] → load_data s ≡ (none, s)
unfolding load_data
load-empty h = rw (h.tail)

-- With no free buffer `allocate_data` takes the oldest one of the queue, whose data is lost.
pub allocate-oldest :
    {s : Pool} {x : ℕ} {queue : List ℕ}
    → Holds s [] (x ∷ queue)
    → allocate_data s ≡ some (x, unlink_head s x)
unfolding allocate_data
allocate-oldest {s} {x} h = ground (arith, h.pool, (load_refines h).0)

-- With no buffer at all the source exits.
pub allocate-fatal : {s : Pool} → Holds s [] [] → allocate_data s ≡ none
unfolding allocate_data
allocate-fatal h = ground (arith, h.pool, load-empty h)

-- `release_data` puts a buffer back in front of the free ones.
pub release_refines :
    {s : Pool} (x : ℕ) {free queue : List ℕ}
    → NotIn x (free ++ queue)
    → Holds s free queue
    → Holds (release_data s x) (x ∷ free) queue
unfolding release_data
release_refines {s} x {free} {queue} out h =
    let apart = NotIn-split x free queue out in
    record {
      pool = (refl, rw (self) (Linked-update s.next x s.bufpool s.bufpool free apart.0 h.pool));
      work = Linked-update s.next x s.bufpool s.datahead queue apart.1 h.work;
      tail = h.tail;
      distinct = (out, h.distinct);
      free_count = omega (arith, h.free_count);
      work_count = h.work_count;
    }
  where
    self : update s.next x s.bufpool x ≡ s.bufpool
    self = ground arith

-- `store_data` appends a buffer to the queue.
pub store_refines :
    {s : Pool} (x : ℕ) (free queue : List ℕ)
    → NotIn x (free ++ queue)
    → Holds s free queue
    → Holds (store_data s x) free (queue ++ (x ∷ []))
unfolding store_data
store_refines {s} x free [] out h =
    rw (h.tail, store_data)
      (record {
        pool = Linked-update s.next x none s.bufpool free (NotIn-split x free [] out).0 h.pool;
        work = (refl, self);
        tail = refl;
        distinct =
            Distinct-snoc x free (NotIn-split x free [] out).0
              (Distinct-split free [] h.distinct).0;
        free_count = h.free_count;
        work_count = omega (arith, h.work_count);
      })
  where
    self : update s.next x none x ≡ none
    self = ground arith
store_refines {s} x free (y ∷ ys) out h =
    let t = last-some y ys in
    rw (h.tail ∙ t.1, store_data)
      (record {
        pool =
            Linked-update _ t.0 (some x) s.bufpool free
              (last-NotIn free (y ∷ ys) t.0 h.distinct t.1)
              (Linked-update s.next x none s.bufpool free (NotIn-split x free (y ∷ ys) out).0
                h.pool);
        work =
            Linked-snoc s.next x t.0 s.datahead (y ∷ ys) (NotIn-split x free (y ∷ ys) out).1
              (Distinct-split free (y ∷ ys) h.distinct).1 t.1 h.work;
        tail = sym (last-snoc x (y ∷ ys));
        distinct =
            subst Distinct (append_assoc free (y ∷ ys) (x ∷ []))
              (Distinct-snoc x (free ++ (y ∷ ys)) out h.distinct);
        free_count = h.free_count;
        work_count = omega (arith, h.work_count, length-append (y ∷ ys) (x ∷ []));
      })
