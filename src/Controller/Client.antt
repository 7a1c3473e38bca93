-- ===== src/Controller/Client.antt =====
-- The client of ga/core/controller.cpp: the handshake that it sends, ctrl_client_sendmsg, and the
-- loop of ctrl_client_thread that empties the queue into the socket. `send` is a parameter: the k-th
-- call on a block returns how many bytes it took, or none where the source sees a negative result.
pub mod Drain
pub mod Hello
use gaminganywhere.Base.{
  ℕ, zero, suc, ◌+◌, ◌%◌, Bool, true, false, List, [], ◌∷◌, ◌++◌, Option, none, some, ltb, ◌==◌,
  if◌then◌else◌, length, take, replicate, ◌-◌,
}
use gaminganywhere.Controller.Queue.{MsgQueue, read_msg, release_msg, write_msg, msg_at}

-- CTRL_MAX_ID_LENGTH
abbrev pub max_id_length : ℕ
max_id_length = 64

-- `sizeof(struct ctrlhandshake)`
abbrev pub sizeof_handshake : ℕ
sizeof_handshake = 1 + max_id_length

-- `strncpy(hh.id, ctrlid, sizeof(hh.id))`: the rest is zero bytes.
abbrev pub strncpy : ℕ → List ℕ → List ℕ
strncpy n id = take n id ++ replicate (n - length id) 0

-- `hh.length`, an `unsigned char`
abbrev pub hello_length : List ℕ → ℕ
hello_length id =
    let n = (1 + length id + 1) % 256 in if ltb sizeof_handshake n then sizeof_handshake else n

-- The bytes of `hh` that are sent.
unfoldable pub hello : List ℕ → List ℕ
hello id = take (hello_length id) (hello_length id ∷ strncpy max_id_length id)

-- Is the thread signalled, and the queue afterwards. The flag is `ctrlenabled`.
unfoldable pub client_sendmsg : Bool → MsgQueue → List ℕ → Bool × MsgQueue
client_sendmsg false q msg = (false, q)
client_sendmsg true q msg = let (n, q') = write_msg q msg in (n == length msg, q')

-- How the loop over the queue ends: the queue is empty, `exit(-1)`, or the fuel is used up.
pub data End : Type 0 where
  empty exited unfinished : End

pub record Drained : Type 0 where
  pub sent : List (List ℕ)
  pub queue : MsgQueue
  pub end : End

abbrev pub add_sent : List ℕ → Drained → Drained
add_sent bytes d = record d { sent = bytes ∷ d.sent }

-- `while((qm = ctrl_queue_read_msg()) != NULL)`: a message that was taken in part counts as sent.
unfoldable pub drain : (ℕ → List ℕ → Option ℕ) → ℕ → ℕ → MsgQueue → Drained
drain send zero k q = record { sent = []; queue = q; end = unfinished }
drain send (suc fuel) k q = elim (read_msg q) [
  | none ↦ record { sent = []; queue = q; end = empty }
  | some pos ↦ elim (send k (msg_at q.qbuffer pos)) [
    | none ↦ record { sent = []; queue = q; end = exited }
    | some n ↦
        add_sent (take n (msg_at q.qbuffer pos)) (drain send fuel (k + 1) (release_msg q pos))
  ]
]
