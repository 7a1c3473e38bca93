-- ===== src/Controller/Tests.antt =====
-- The theorems on the controller's network side at short messages, and a run of the server.
use gaminganywhere.Base.{
  ℕ, ◌+◌, ◌/◌, ◌≡◌, ◌≢◌, refl, arith, true, false, List, [], ◌∷◌, ◌++◌, Option, none, some, length,
  replicate, length-replicate, slice, ◌==◌, ap, sym, ◌∙◌, if◌then◌else◌,
}
use mathlib.Core.Option.{some-injective}
use gaminganywhere.Controller.Queue.{MsgQueue, write_msg, init, init_with, sizeof_queuemsg}
use gaminganywhere.Controller.Queue.Refine as QueueRefine
use gaminganywhere.Controller.Queue.Refine.{fifo_write, write_refines}
use gaminganywhere.Controller.Queue.Session.{init-Holds}
use gaminganywhere.Controller.Server.{
  Bytes, buf_size, Receiver, reading, tcp_serve, tcp_recv, handshake,
}
use gaminganywhere.Controller.Server.Frames.{IsMessage}
use gaminganywhere.Controller.Server.Stream.{
  Waits, Cuts, done, part, whole, serve-Cuts, recv_straddles,
}
use gaminganywhere.Controller.Client.{drain, hello}
use gaminganywhere.Controller.Client.Drain.{send_all, drain_refines, TakesAll}
use gaminganywhere.Controller.Client.Hello.{handshake-hello}
use gaminganywhere.Controller.Sockets.{
  System, Settings, Sockets, tcp, other, client_init, client_failed, server_known,
}
use gaminganywhere.Controller.Sockets.Failed.{left_by, client_init_failed}

-- `replicate`, shut, so that the buffer is not spelled out
zeros : ℕ → Bytes
zeros n = replicate n 0

length-zeros : (n : ℕ) → length (zeros n) ≡ n
unfolding zeros
length-zeros n = length-replicate n 0

abbrev fresh : Receiver
fresh = record { buf = zeros buf_size; bufhead = 0; buflen = 0 }

fresh-Waits : Waits fresh []
fresh-Waits = record {
  holds = record {
    memory = length-zeros buf_size;
    inside = omega arith;
    count = refl;
    bytes = refl;
  };
  front = refl;
}

abbrev key : Bytes
key = 0 ∷ 3 ∷ 9 ∷ []

abbrev move : Bytes
move = 0 ∷ 4 ∷ 1 ∷ 2 ∷ []

abbrev short : Bytes
short = 0 ∷ 4 ∷ 1 ∷ []

key-IsMessage : IsMessage key
key-IsMessage = record { header = omega arith; size = refl }

move-IsMessage : IsMessage move
move-IsMessage = record { header = omega arith; size = refl }

abbrev chunks : List Bytes
chunks = (0 ∷ []) ∷ (3 ∷ 9 ∷ 0 ∷ 4 ∷ 1 ∷ 2 ∷ []) ∷ (0 ∷ 3 ∷ 9 ∷ []) ∷ []

chunks-Cuts : Cuts [] chunks (key ∷ move ∷ key ∷ [])
chunks-Cuts =
    part [] (0 ∷ []) _ _ (omega arith)
      (record { fits = omega arith; more = λ h. absurd (omega arith) })
      (whole (0 ∷ []) _ _ key (move ∷ []) (key ∷ []) _ (omega arith) (omega arith)
        (key-IsMessage, (move-IsMessage, tt)) refl
        (whole [] _ _ key [] [] _ (omega arith) (omega arith) (key-IsMessage, tt) refl done refl)
        refl)

serve-Cuts_example :
    (t : Receiver) × (tcp_serve (reading fresh) chunks ≡ (key ∷ move ∷ key ∷ [], reading t))
    × Waits t []
serve-Cuts_example = serve-Cuts fresh [] chunks (key ∷ move ∷ key ∷ []) fresh-Waits chunks-Cuts

recv_straddles_example :
    (t : Receiver) × (tcp_recv fresh (key ++ short) ≡ (key ∷ [], reading t))
    × (t.bufhead ≡ length key)
    × (t.buflen ≡ length short)
    × (slice 0 (length short) t.buf ≡ short)
recv_straddles_example =
    recv_straddles fresh key short fresh-Waits key-IsMessage (omega arith) (omega arith)
      (omega arith)

abbrev block : ℕ → Option (List ℕ)
block n = some (replicate n 0)

block-sized : (n : ℕ) (b : List ℕ) → block n ≡ some b → length b ≡ n
block-sized n b e = ap length (sym (some-injective _ _ e)) ∙ length-replicate n 0

abbrev queue : MsgQueue
queue = (init block 24 4).1

queue-Holds : QueueRefine.Holds queue (24 / (4 + sizeof_queuemsg)) []
unfolding init init_with
queue-Holds = init-Holds block 24 4 block-sized (omega arith) refl

abbrev busy : MsgQueue
busy = (write_msg queue key).1

busy-Holds : QueueRefine.Holds busy 3 (key ∷ [])
unfolding init init_with fifo_write
busy-Holds = (write_refines key queue-Holds (omega arith)).1

-- A `send` that fails from its second call on.
abbrev once : ℕ → List ℕ → Option ℕ
once k bytes = if k == 0 then some (length bytes) else none

drain_refines_example :
    ((drain once 2 1 busy).sent ≡ (send_all once 1 (key ∷ [])).sent)
    × ((drain once 2 1 busy).end ≡ (send_all once 1 (key ∷ [])).end)
    × QueueRefine.Holds (drain once 2 1 busy).queue 3 (send_all once 1 (key ∷ [])).left
drain_refines_example = drain_refines once 2 1 busy 3 (key ∷ []) busy-Holds (omega arith)

abbrev always : ℕ → List ℕ → Option ℕ
always k bytes = some (length bytes)

always-TakesAll : TakesAll always
always-TakesAll k bytes = refl

-- "GACtrlV01"
abbrev version : Bytes
version = 71 ∷ 65 ∷ 67 ∷ 116 ∷ 114 ∷ 108 ∷ 86 ∷ 48 ∷ 49 ∷ []

handshake-hello_example :
    handshake (version ++ 0 ∷ 0 ∷ []) (hello version ++ 7 ∷ []) (length (hello version)) ≡ (0 == 7)
handshake-hello_example = handshake-hello version (omega arith) 0 7 [] []

-- A system that connects and does not know the server's name.
abbrev offline : System
offline = record {
  socket = λ p. some 5;
  inet_addr = λ h. none;
  gethostbyname = λ h. none;
  connect = λ fd. true;
  send = λ fd bytes. some (length bytes);
  setsockopt = λ fd. true;
  bind = λ fd. true;
  listen = λ fd. true;
}

abbrev conf : Settings
conf = record { ctrlproto = tcp; servername = some version }

abbrev start : Sockets
start = record { ctrlsocket = none; ctrlenabled = true; myctrlid = none; closed = [] }

tcp-ne-other : tcp ≢ other
tcp-ne-other e = cc

offline_fails : (client_init offline conf version start).0 ≡ false
unfolding client_init
offline_fails = refl

client_init_failed_example :
    (client_init offline conf version start).1
    ≡ left_by (server_known offline conf.servername) (client_failed 5) 5 start
client_init_failed_example =
    client_init_failed offline conf version start 5 tcp-ne-other refl offline_fails
