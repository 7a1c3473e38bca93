-- ===== src/Pipeline/Pool/Traffic.antt =====
-- The buffers of a pipeline while its threads run: each call of a pool method is one step, in any
-- order, and a thread stores or releases only a buffer that it holds.
use mathlib.Core.Path.{subst}
use mathlib.Core.Option.{some-injective}
use mathlib.Core.List.{append_assoc}
use gaminganywhere.Base.{
  ℕ, ◌+◌, ◌≡◌, refl, sym, ◌∙◌, List, [], ◌∷◌, ◌++◌, some, arith, length, length-append,
}
use gaminganywhere.Pipeline.Pool.{Ptr, Pool, load_data, allocate_data, store_data, release_data}
use gaminganywhere.Pipeline.Pool.Chains.{
  NotIn, Distinct, NotIn-split, Distinct-remove, Distinct-insert,
}
use gaminganywhere.Pipeline.Pool.Refine.{
  Holds, allocate-free, allocate-oldest, allocate-fatal, load_refines, load-empty, store_refines,
  release_refines,
}

-- The pool, and the buffers that threads hold.
pub record Traffic : Type 0 where
  pub pool : Pool
  pub held : List ℕ

pub data Step : Traffic → Traffic → Type 0 where
  allocate :
      {s s' : Pool} {x : ℕ} {held : List ℕ}
      → allocate_data s ≡ some (x, s')
      → Step (record { pool = s; held = held }) (record { pool = s'; held = x ∷ held })
  load :
      {s s' : Pool} {x : ℕ} {held : List ℕ}
      → load_data s ≡ (some x, s')
      → Step (record { pool = s; held = held }) (record { pool = s'; held = x ∷ held })
  store :
      {s : Pool} (x : ℕ) (before behind : List ℕ)
      → Step
          (record { pool = s; held = before ++ (x ∷ behind) })
          (record { pool = store_data s x; held = before ++ behind })
  release :
      {s : Pool} (x : ℕ) (before behind : List ℕ)
      → Step
          (record { pool = s; held = before ++ (x ∷ behind) })
          (record { pool = release_data s x; held = before ++ behind })

pub data Reach (t : Traffic) : Traffic → Type 0 where
  here : Reach t t
  then : {u v : Traffic} → Reach t u → Step u v → Reach t v

-- All `n` buffers are in one place each: free, queued or held.
pub record Conserves (n : ℕ) (t : Traffic) : Type 0 where
  pub free : List ℕ
  pub queue : List ℕ
  pub holds : Holds t.pool free queue
  pub apart : Distinct ((free ++ queue) ++ t.held)
  pub total : length free + length queue + length t.held ≡ n

-- What stands first among the free buffers, or in the queue, may be handed out.
handed_out :
    (held : List ℕ) (x : ℕ) (free queue : List ℕ)
    → Distinct (free ++ (x ∷ (queue ++ held)))
    → Distinct ((free ++ queue) ++ (x ∷ held))
handed_out held x free queue d =
    let r = Distinct-remove free x (queue ++ held) d in
    Distinct-insert (free ++ queue) x held
      (subst (NotIn x) (sym (append_assoc free queue held)) r.1)
      (subst Distinct (sym (append_assoc free queue held)) r.0)

-- A held buffer stands nowhere else.
given_back :
    (x : ℕ) (before behind known : List ℕ)
    → Distinct (known ++ (before ++ (x ∷ behind)))
    → Distinct (known ++ (before ++ behind)) × NotIn x (known ++ (before ++ behind))
given_back x before behind known d =
    let r =
      Distinct-remove (known ++ before) x behind
        (subst Distinct (sym (append_assoc known before (x ∷ behind))) d) in
    (
      subst Distinct (append_assoc known before behind) r.0,
      subst (NotIn x) (append_assoc known before behind) r.1,
    )

module _ {n : ℕ} {s : Pool} (held : List ℕ) where
  allocate-Conserves :
      {s' : Pool} {x : ℕ} (free queue : List ℕ)
      → Holds s free queue
      → Distinct ((free ++ queue) ++ held)
      → length free + length queue + length held ≡ n
      → allocate_data s ≡ some (x, s')
      → Conserves n (record { pool = s'; held = x ∷ held })
  allocate-Conserves [] [] h d total e = cc (allocate-fatal h)
  allocate-Conserves [] (y ∷ queue) h d total e =
      subst (λ (p : ℕ × Pool). Conserves n (record { pool = p.1; held = p.0 ∷ held }))
        (some-injective _ _ (sym (allocate-oldest h) ∙ e))
        (record {
          free = [];
          queue = queue;
          holds = (load_refines h).1;
          apart = handed_out held y [] queue d;
          total = omega (arith, total);
        })
  allocate-Conserves (y ∷ free) queue h d total e =
      let (s'', made, h', out) = allocate-free h in
      subst (λ (p : ℕ × Pool). Conserves n (record { pool = p.1; held = p.0 ∷ held }))
        (some-injective _ _ (sym made ∙ e))
        (record {
          free = free;
          queue = queue;
          holds = h';
          apart = Distinct-insert (free ++ queue) y held d.0 d.1;
          total = omega (arith, total);
        })

  load-Conserves :
      {s' : Pool} {x : ℕ} (free queue : List ℕ)
      → Holds s free queue
      → Distinct ((free ++ queue) ++ held)
      → length free + length queue + length held ≡ n
      → load_data s ≡ (some x, s')
      → Conserves n (record { pool = s'; held = x ∷ held })
  load-Conserves free [] h d total e = cc (load-empty h)
  load-Conserves {s'} {x} free (y ∷ queue) h d total e =
      subst
        (λ (p : Ptr × Pool). (p.0 ≡ some x) → Conserves n (record { pool = p.1; held = x ∷ held }))
        (sym (load_refines h).0 ∙ e)
        (λ q. rw (← some-injective _ _ q) (record {
          free = free;
          queue = queue;
          holds = (load_refines h).1;
          apart =
              handed_out held y free queue (subst Distinct (append_assoc free (y ∷ queue) held) d);
          total = omega (arith, total);
        }))
        refl

module _ {n : ℕ} {s : Pool} (x : ℕ) (before behind : List ℕ) where
  store-Conserves :
      Conserves n (record { pool = s; held = before ++ (x ∷ behind) })
      → Conserves n (record { pool = store_data s x; held = before ++ behind })
  store-Conserves c =
      let (d, out) = given_back x before behind (c.free ++ c.queue) c.apart in
      record {
        free = c.free;
        queue = c.queue ++ (x ∷ []);
        holds = store_refines x c.free c.queue (NotIn-split x (c.free ++ c.queue) _ out).0 c.holds;
        apart =
            subst Distinct regroup (Distinct-insert (c.free ++ c.queue) x (before ++ behind) out d);
        total = omega (
          arith,
          c.total,
          length-append before (x ∷ behind),
          length-append before behind,
          length-append c.queue (x ∷ []),
        );
      }
    where
      regroup :
          (c.free ++ c.queue) ++ (x ∷ (before ++ behind))
          ≡ (c.free ++ (c.queue ++ (x ∷ []))) ++ (before ++ behind)
      regroup = simp append_assoc

  release-Conserves :
      Conserves n (record { pool = s; held = before ++ (x ∷ behind) })
      → Conserves n (record { pool = release_data s x; held = before ++ behind })
  release-Conserves c =
      let (d, out) = given_back x before behind (c.free ++ c.queue) c.apart in
      record {
        free = x ∷ c.free;
        queue = c.queue;
        holds = release_refines x (NotIn-split x (c.free ++ c.queue) _ out).0 c.holds;
        apart = (out, d);
        total =
            omega (arith, c.total, length-append before (x ∷ behind), length-append before behind);
      }

-- A call of a pool method keeps all buffers: none is lost, and none gets into two places.
pub Step-Conserves : {n : ℕ} {t u : Traffic} → Step t u → Conserves n t → Conserves n u
Step-Conserves (allocate {held = held} e) c =
    allocate-Conserves held c.free c.queue c.holds c.apart c.total e
Step-Conserves (load {held = held} e) c =
    load-Conserves held c.free c.queue c.holds c.apart c.total e
Step-Conserves (store x before behind) c = store-Conserves x before behind c
Step-Conserves (release x before behind) c = release-Conserves x before behind c

Reach-Conserves : {n : ℕ} {t u : Traffic} → Reach t u → Conserves n t → Conserves n u
Reach-Conserves here c = c
Reach-Conserves (then r st) c = Step-Conserves st (Reach-Conserves r c)

-- However the threads' calls of `allocate_data`, `store_data`, `load_data` and `release_data`
-- interleave, from a pipeline that conserves `n` buffers on: the two counts and the buffers that
-- threads hold make up `n`, and each buffer is in one place, free, queued or held by one thread.
pub Reach-counts :
    {n : ℕ} {t u : Traffic}
    → Conserves n t
    → Reach t u
    → (u.pool.bufcount + u.pool.datacount + length u.held ≡ n) × Conserves n u
Reach-counts c r =
    let d = Reach-Conserves r c in
    (omega (arith, d.total, d.holds.free_count, d.holds.work_count), d)
