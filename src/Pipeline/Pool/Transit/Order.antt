-- ===== src/Pipeline/Pool/Transit/Order.antt =====
-- The reader of a pipeline gets what the writer wrote, in order, and never a buffer that is being
-- written; what is missing was dropped from the queue for a new buffer.
use mathlib.Core.List.Sublist
use mathlib.Core.List.{Sublist, sublist-append_left}
use mathlib.Core.Path.{subst}
use mathlib.Core.Option.{some-injective}
use gaminganywhere.Base.{
  ℕ, ◌≡◌, refl, sym, ap, ◌∙◌, arith, List, [], ◌∷◌, ◌++◌, some, map, append_assoc, append_nil,
}
use gaminganywhere.Pipeline.Pool.{Pool, Ptr, load_data, allocate_data, store_data, release_data}
use gaminganywhere.Pipeline.Pool.Chains.{NotIn, NotIn-append, NotIn-split}
use gaminganywhere.Pipeline.Pool.Refine.{
  Holds, allocate-free, allocate-oldest, allocate-fatal, load_refines, load-empty, store_refines,
  release_refines,
}
use gaminganywhere.Pipeline.Pool.Transit.{
  Writer, filling, filled, Reader, holding, done, Transit, put, Step, allocate, fill, store, load,
  read, release, Reach, here, then, at_start,
}
use gaminganywhere.Pipeline.Pool.Transit.Places.{
  writer_node, reader_node, pending, stored_next, AllOut, AllOut-remove, AllOut-insert, one-AllOut,
  AllOut-one, map-put, nil-AllOut, NotIn-pending, drop-Sublist, map-snoc,
}

-- Each buffer is in one place, and what was read, with what is on its way, is in order what was
-- written, but for what was dropped.
pub record Passes {A : Type 0} (t : Transit A) : Type 0 where
  pub free : List ℕ
  pub queue : List ℕ
  pub holds : Holds t.pool free queue
  pub writer_out : AllOut (writer_node t.writer) (free ++ queue)
  pub reader_out : AllOut (reader_node t.reader) (free ++ queue)
  pub apart : AllOut (reader_node t.reader) (writer_node t.writer)
  pub order :
      Sublist
        ((t.got ++ map t.contents (pending t.reader ++ queue))
          ++ map t.contents (stored_next t.writer))
        t.written

module _ {A : Type 0} {s : Pool} {c : ℕ → A} {w g : List A} where
  allocate-Passes :
      {s' : Pool} {x : ℕ} {r : Reader} (free queue : List ℕ)
      → Holds s free queue
      → AllOut (reader_node r) (free ++ queue)
      → Sublist ((g ++ map c (pending r ++ queue)) ++ []) w
      → allocate_data s ≡ some (x, s')
      → Passes
          (record { pool = s'; contents = c; writer = filling x; reader = r; written = w; got = g })
  allocate-Passes [] [] h out order e = cc (allocate-fatal h)
  allocate-Passes {s'} {x} {r} [] (y ∷ queue) h out order e =
      subst
        (λ (p : ℕ × Pool). Passes (record {
          pool = p.1;
          contents = c;
          writer = filling p.0;
          reader = r;
          written = w;
          got = g;
        }))
        (some-injective _ _ (sym (allocate-oldest h) ∙ e))
        (record {
          free = [];
          queue = queue;
          holds = (load_refines h).1;
          writer_out = one-AllOut y queue (load_refines h).2;
          reader_out = out.1;
          apart = (out.0, tt);
          order =
              Sublist.trans
                (Sublist.append
                  (Sublist.append (Sublist.refl g) (drop-Sublist c (pending r) y queue))
                  (Sublist.refl []))
                order;
        })
  allocate-Passes {s'} {x} {r} (y ∷ free) queue h out order e =
      let (s'', made, h', outside) = allocate-free h in
      subst
        (λ (p : ℕ × Pool). Passes (record {
          pool = p.1;
          contents = c;
          writer = filling p.0;
          reader = r;
          written = w;
          got = g;
        }))
        (some-injective _ _ (sym made ∙ e))
        (record {
          free = free;
          queue = queue;
          holds = h';
          writer_out = one-AllOut y (free ++ queue) outside;
          reader_out = out.1;
          apart = (out.0, tt);
          order = order;
        })

  load-Passes :
      {s' : Pool} {x : ℕ} (p : Writer) (free queue : List ℕ)
      → Holds s free queue
      → AllOut (writer_node p) (free ++ queue)
      → Sublist ((g ++ map c queue) ++ map c (stored_next p)) w
      → load_data s ≡ (some x, s')
      → Passes
          (record { pool = s'; contents = c; writer = p; reader = holding x; written = w; got = g })
  load-Passes p free [] h out order e = cc (load-empty h)
  load-Passes {s'} {x} p free (y ∷ queue) h out order e =
      subst
        (λ (q : Ptr × Pool).
          (q.0 ≡ some x)
          → Passes (record {
            pool = q.1;
            contents = c;
            writer = p;
            reader = holding x;
            written = w;
            got = g;
          }))
        (sym (load_refines h).0 ∙ e)
        (λ q. rw (← some-injective _ _ q) (record {
          free = free;
          queue = queue;
          holds = (load_refines h).1;
          writer_out = (AllOut-remove (writer_node p) free y queue out).1;
          reader_out = one-AllOut y (free ++ queue) (load_refines h).2;
          apart = one-AllOut y (writer_node p) (AllOut-remove (writer_node p) free y queue out).0;
          order = order;
        }))
        refl

  fill-Passes :
      {r : Reader} (x : ℕ) (a : A)
      → Passes
          (record { pool = s; contents = c; writer = filling x; reader = r; written = w; got = g })
      → Passes (record {
        pool = s;
        contents = put c x a;
        writer = filled x;
        reader = r;
        written = w ++ (a ∷ []);
        got = g;
      })
  fill-Passes {r} x a p = record {
    free = p.free;
    queue = p.queue;
    holds = p.holds;
    writer_out = p.writer_out;
    reader_out = p.reader_out;
    apart = p.apart;
    order =
        let outside : NotIn x (pending r ++ p.queue) =
          NotIn-append x (pending r) p.queue (NotIn-pending r x p.apart.0)
            (NotIn-split x p.free p.queue (AllOut-one x (p.free ++ p.queue) p.writer_out)).1 in
        let self : put c x a x ≡ a = ground arith in
        rw (map-put c x a (pending r ++ p.queue) outside, self)
          (Sublist.append
            (subst (λ l. Sublist l w) (append_nil (g ++ map c (pending r ++ p.queue))) p.order)
            (Sublist.refl (a ∷ [])));
  }

  store-Passes :
      {r : Reader} (x : ℕ)
      → Passes
          (record { pool = s; contents = c; writer = filled x; reader = r; written = w; got = g })
      → Passes (record {
        pool = store_data s x;
        contents = c;
        writer = Writer.idle;
        reader = r;
        written = w;
        got = g;
      })
  store-Passes {r} x p = record {
    free = p.free;
    queue = p.queue ++ (x ∷ []);
    holds = store_refines x p.free p.queue (AllOut-one x (p.free ++ p.queue) p.writer_out) p.holds;
    writer_out = nil-AllOut (p.free ++ (p.queue ++ (x ∷ [])));
    reader_out = subst (AllOut (reader_node r)) (append_assoc p.free p.queue (x ∷ [])) (
        AllOut-insert (reader_node r) (p.free ++ p.queue) x [] p.apart.0
          (subst (AllOut (reader_node r)) (sym (append_nil (p.free ++ p.queue))) p.reader_out));
    apart = tt;
    order =
        subst (λ l. Sublist l w)
          (append_assoc g (map c (pending r ++ p.queue)) (c x ∷ [])
            ∙ ap (◌++◌ g) (sym (map-snoc c (pending r) p.queue x))
            ∙ sym (append_nil (g ++ map c (pending r ++ (p.queue ++ (x ∷ []))))))
          p.order;
  }

  release-Passes :
      {p : Writer} (x : ℕ)
      → Passes
          (record { pool = s; contents = c; writer = p; reader = done x; written = w; got = g })
      → Passes (record {
        pool = release_data s x;
        contents = c;
        writer = p;
        reader = Reader.idle;
        written = w;
        got = g;
      })
  release-Passes {p} x h = record {
    free = x ∷ h.free;
    queue = h.queue;
    holds = release_refines x (AllOut-one x (h.free ++ h.queue) h.reader_out) h.holds;
    writer_out = (AllOut-one x (writer_node p) h.apart, h.writer_out);
    reader_out = nil-AllOut (x ∷ (h.free ++ h.queue));
    apart = nil-AllOut (writer_node p);
    order = h.order;
  }

  read-Passes :
      {p : Writer} (x : ℕ)
      → Passes
          (record { pool = s; contents = c; writer = p; reader = holding x; written = w; got = g })
      → Passes (record {
        pool = s;
        contents = c;
        writer = p;
        reader = done x;
        written = w;
        got = g ++ (c x ∷ []);
      })
  read-Passes {p} x h = record {
    free = h.free;
    queue = h.queue;
    holds = h.holds;
    writer_out = h.writer_out;
    reader_out = h.reader_out;
    apart = h.apart;
    order =
        subst (λ l. Sublist (l ++ map c (stored_next p)) w)
          (sym (append_assoc g (c x ∷ []) (map c h.queue))) h.order;
  }

Step-Passes : {A : Type 0} {t u : Transit A} → Step t u → Passes t → Passes u
Step-Passes (allocate e) p = allocate-Passes p.free p.queue p.holds p.reader_out p.order e
Step-Passes (fill x a) p = fill-Passes x a p
Step-Passes (store x) p = store-Passes x p
Step-Passes (load {p = q} e) p = load-Passes q p.free p.queue p.holds p.writer_out p.order e
Step-Passes (read x) p = read-Passes x p
Step-Passes (release x) p = release-Passes x p

Reach-Passes : {A : Type 0} {t u : Transit A} → Passes t → Reach t u → Passes u
Reach-Passes p here = p
Reach-Passes p (then r st) = Step-Passes st (Reach-Passes p r)

-- However the calls of a writer and a reader of one pipeline interleave, from a pool of free buffers
-- on: what the reader has got is, in order and unchanged, a part of what the writer has written, no
-- buffer is with both threads, and neither has one that is free or queued.
pub Reach-order :
    {A : Type 0} {pool : Pool} (c : ℕ → A) (free : List ℕ) {t : Transit A}
    → Holds pool free []
    → Reach (at_start pool c) t
    → Sublist t.got t.written × Passes t
Reach-order c free {t} h r =
    let p : Passes t =
      Reach-Passes
        (record {
          free = free;
          queue = [];
          holds = h;
          writer_out = nil-AllOut (free ++ []);
          reader_out = nil-AllOut (free ++ []);
          apart = tt;
          order = Sublist.refl [];
        })
        r in
    (
      Sublist.trans
          (Sublist.trans (sublist-append_left t.got (map t.contents (pending t.reader ++ p.queue)))
            (sublist-append_left (t.got ++ map t.contents (pending t.reader ++ p.queue))
              (map t.contents (stored_next t.writer))))
          p.order,
      p,
    )
