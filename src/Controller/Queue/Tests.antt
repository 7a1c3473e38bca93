-- ===== src/Controller/Queue/Tests.antt =====
-- The theorems on the message queue at a queue of three units of eight bytes, and runs of its code.
use mathlib.Core.Option.{some-injective}
use gaminganywhere.Base.{
  ℕ, ◌+◌, ◌/◌, ◌≡◌, ◌<◌, refl, sym, ap, ◌∙◌, List, [], ◌∷◌, arith, length, length-replicate,
  replicate, Option, some,
}
use gaminganywhere.Controller.Queue.{
  MsgQueue, sizeof_queuemsg, init_with, init, write_msg, server_readnext, wait, copied, read_msg,
  release_msg,
}
use gaminganywhere.Controller.Queue.Refine.{Holds}
use gaminganywhere.Controller.Queue.Session.{
  Op, write, next, wrote, got, run, step, fifo_run, init-Holds, session_refines,
}

abbrev block : ℕ → Option (List ℕ)
block n = some (replicate n 0)

block-sized : (n : ℕ) (b : List ℕ) → block n ≡ some b → length b ≡ n
block-sized n b e = ap length (sym (some-injective _ _ e)) ∙ length-replicate n 0

abbrev queue : MsgQueue
queue = (init block 24 4).1

abbrev ops : List Op
ops =
    write (7 ∷ 8 ∷ [])
    ∷ write (1 ∷ 2 ∷ 3 ∷ 4 ∷ 5 ∷ [])
    ∷ write (9 ∷ [])
    ∷ write (6 ∷ [])
    ∷ next 4
    ∷ write (5 ∷ [])
    ∷ next 4
    ∷ next 4
    ∷ next 4
    ∷ []

fits_lem : 4 + sizeof_queuemsg < 65540
fits_lem = omega arith

queue-Holds : Holds queue (24 / (4 + sizeof_queuemsg)) []
unfolding init init_with
queue-Holds = init-Holds block 24 4 block-sized (omega arith) refl

session_refines_example :
    run queue ops ≡ fifo_run (4 + sizeof_queuemsg) (24 / (4 + sizeof_queuemsg)) [] ops
unfolding init init_with
session_refines_example = session_refines block 24 4 ops block-sized (omega arith) fits_lem refl

-- A full queue drops a message, and the ring goes round.
run_test :
    run queue ops
    ≡ wrote 2
      ∷ wrote 0
      ∷ wrote 1
      ∷ wrote 0
      ∷ got (copied (7 ∷ 8 ∷ []))
      ∷ wrote 1
      ∷ got (copied (9 ∷ []))
      ∷ got (copied (5 ∷ []))
      ∷ got wait
      ∷ []
unfolding run step init init_with write_msg server_readnext read_msg release_msg
run_test = refl
