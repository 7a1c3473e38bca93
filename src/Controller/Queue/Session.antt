-- ===== src/Controller/Queue/Session.antt =====
-- A whole session on the message queue, from `ctrl_queue_init` on, against the list that it stands
-- for: writes by one side, `ctrl_server_readnext` by the other, `ctrl_queue_clear` by either.
use native.Mathlib.Nat.{zero-mul, mod-eq-sub-div-mul, div-mul-le_self, le-div_iff_mul-le}
use gaminganywhere.Base.{
  ℕ, ◌+◌, ◌-◌, ◌/◌, ◌%◌, ◌≤◌, ◌<◌, ◌≡◌, refl, sym, ap, ◌∙◌, List, [], ◌∷◌, arith, length, Option,
  none, some, true,
}
use gaminganywhere.Controller.Queue.{
  MsgQueue, sizeof_queuemsg, init_with, init, write_msg, clear, server_readnext, Next, release_msg,
}
use gaminganywhere.Controller.Queue.Refine.{
  Holds, fifo_write, write_refines, fifo_next, readnext_refines,
}

pub data Op : Type 0 where
  write : List ℕ → Op
  next : ℕ → Op
  reset : Op

-- What a call returns: the size written, the outcome of a read, or nothing.
pub data Reply : Type 0 where
  wrote : ℕ → Reply
  got : Next → Reply
  nothing : Reply

-- one call on the queue of the source
unfoldable pub step : MsgQueue → Op → Reply × MsgQueue
step q (write msg) = let (n, q') = write_msg q msg in (wrote n, q')
step q (next msglen) = let (r, q') = server_readnext q msglen in (got r, q')
step q reset = (nothing, clear q)

unfoldable pub run : MsgQueue → List Op → List Reply
run q [] = []
run q (op ∷ ops) = (step q op).0 ∷ run (step q op).1 ops

-- the same call on a list of messages
pub fifo_step : ℕ → ℕ → List (List ℕ) → Op → Reply × List (List ℕ)
fifo_step unit count ms (write msg) = let (n, ms') = fifo_write unit count ms msg in (wrote n, ms')
fifo_step unit count ms (next msglen) = let (r, ms') = fifo_next ms msglen in (got r, ms')
fifo_step unit count ms reset = (nothing, [])

pub fifo_run : ℕ → ℕ → List (List ℕ) → List Op → List Reply
fifo_run unit count ms [] = []
fifo_run unit count ms (op ∷ ops) =
    (fifo_step unit count ms op).0 ∷ fifo_run unit count (fifo_step unit count ms op).1 ops

pub clear-Holds :
    {q : MsgQueue} {count : ℕ} {ms : List (List ℕ)} → Holds q count ms → Holds (clear q) count []
unfolding clear
clear-Holds {q} {count} h = record {
  first = 0;
  layout = record {
    room = h.layout.room;
    size = h.layout.size;
    memory = h.layout.memory;
    first_in = omega (arith, h.layout.first_in);
    one_free = omega (arith, h.layout.first_in);
    head = sym (zero-mul q.qunit);
    tail = sym (zero-mul q.qunit);
    fits = tt;
  };
  contents = refl;
}

init_with-Holds :
    (block : Option (List ℕ)) (size unit : ℕ)
    → ((b : List ℕ) → block ≡ some b → length b ≡ size - size % unit)
    → sizeof_queuemsg ≤ unit
    → unit ≤ size
    → (init_with block (size - size % unit) unit).0 ≡ true
    → Holds (init_with block (size - size % unit) unit).1 (size / unit) []
unfolding init_with
init_with-Holds none size unit sized room fits e = cc
init_with-Holds (some b) size unit sized room fits e = record {
  first = 0;
  layout = record {
    room = room;
    size = omega (arith, mod-eq-sub-div-mul size unit, div-mul-le_self size unit);
    memory = sized b refl;
    first_in = some_unit;
    one_free = some_unit;
    head = sym (zero-mul unit);
    tail = sym (zero-mul unit);
    fits = tt;
  };
  contents = refl;
}
  where
    some_unit : 0 < size / unit
    some_unit = (le-div_iff_mul-le {k = unit} {x = 1} {y = size} (omega arith)).1 (omega arith)

-- `ctrl_queue_init`, given a block of the size that it asks for, leaves an empty queue of
-- `size / (maxunit + 4)` units, provided that one unit fits.
pub init-Holds :
    (malloc : ℕ → Option (List ℕ)) (size maxunit : ℕ)
    → ((n : ℕ) (b : List ℕ) → malloc n ≡ some b → length b ≡ n)
    → maxunit + sizeof_queuemsg ≤ size
    → (init malloc size maxunit).0 ≡ true
    → Holds (init malloc size maxunit).1 (size / (maxunit + sizeof_queuemsg)) []
unfolding init
init-Holds malloc size maxunit sized fits e =
    init_with-Holds (malloc (size - size % unit)) size unit (sized (size - size % unit))
      (omega arith) fits e
  where
    unit : ℕ
    unit = maxunit + sizeof_queuemsg

qunit-step : (q : MsgQueue) (op : Op) → (step q op).1.qunit ≡ q.qunit
unfolding step write_msg server_readnext clear release_msg
qunit-step q (write msg) = ground arith
qunit-step q (next n) = ground arith
qunit-step q reset = refl

step_refines :
    {q : MsgQueue} {count : ℕ} {ms : List (List ℕ)} (op : Op)
    → Holds q count ms
    → q.qunit < 65540
    → ((step q op).0 ≡ (fifo_step q.qunit count ms op).0)
      × Holds (step q op).1 count (fifo_step q.qunit count ms op).1
unfolding step fifo_step
step_refines (write msg) h small = let r = write_refines msg h small in (ap wrote r.0, r.1)
step_refines {ms = ms} (next n) h small = let r = readnext_refines ms n h in (ap got r.0, r.1)
step_refines reset h small = (refl, clear-Holds h)

pub run_refines :
    (ops : List Op) {q : MsgQueue} {count : ℕ} {ms : List (List ℕ)}
    → Holds q count ms
    → q.qunit < 65540
    → run q ops ≡ fifo_run q.qunit count ms ops
unfolding run fifo_run
run_refines [] h small = refl
run_refines (op ∷ ops) {q} h small =
    let r = step_refines op h small in
    rw (r.0, run_refines ops r.1 (rw (qunit-step q op) small), qunit-step q op)

init-qunit :
    (malloc : ℕ → Option (List ℕ)) (size maxunit : ℕ)
    → (init malloc size maxunit).1.qunit ≡ maxunit + sizeof_queuemsg
unfolding init init_with
init-qunit malloc size maxunit = by_block (malloc (size - size % (maxunit + sizeof_queuemsg)))
  where
    by_block :
        (block : Option (List ℕ))
        → (init_with block
            (size - size % (maxunit + sizeof_queuemsg))
            (maxunit + sizeof_queuemsg)).1.qunit
          ≡ maxunit + sizeof_queuemsg
    by_block none = refl
    by_block (some b) = refl

-- A queue that `ctrl_queue_init` set up answers every sequence of writes, reads and clears as a
-- bounded first-in first-out list of messages does: of one message less than there are units, and of
-- messages that fit a unit. Conditions: `malloc` returns blocks of the size asked for, the
-- initialisation succeeded, one unit fits, and a unit is below 65540 bytes.
pub session_refines :
    (malloc : ℕ → Option (List ℕ)) (size maxunit : ℕ) (ops : List Op)
    → ((n : ℕ) (b : List ℕ) → malloc n ≡ some b → length b ≡ n)
    → maxunit + sizeof_queuemsg ≤ size
    → maxunit + sizeof_queuemsg < 65540
    → (init malloc size maxunit).0 ≡ true
    → run (init malloc size maxunit).1 ops
      ≡ fifo_run (maxunit + sizeof_queuemsg) (size / (maxunit + sizeof_queuemsg)) [] ops
session_refines malloc size maxunit ops sized fits small e =
    run_refines ops (init-Holds malloc size maxunit sized fits e)
      (rw (init-qunit malloc size maxunit) small)
    ∙ ap (λ u. fifo_run u (size / (maxunit + sizeof_queuemsg)) [] ops)
        (init-qunit malloc size maxunit)
