-- ===== src/Client/Packets.antt =====
-- The packet queue of ga/client/rtspclient.cpp: packet_queue_init, packet_queue_put and
-- packet_queue_get. An operation holds the mutex from its start to its end, so it is one step; a call
-- that would wait for the condition is `waits`, with the mutex given back and nothing changed.
-- `av_dup_packet` is an answer. A packet is its bytes, of which `size` counts the lengths.
use gaminganywhere.Base.{
  ℕ, ◌+◌, ◌-◌, ◌≡◌, refl, arith, if◌then◌else◌, Bool, true, false, List, [], ◌∷◌, ◌++◌, length,
}

abbrev Packet : Type 0
Packet = List ℕ

-- `struct PacketQueue`
record PacketQueue : Type 0 where
  queue : List Packet
  size : ℕ

-- The list is cleared; the size is left as it is.
abbrev packet_queue_init : PacketQueue → PacketQueue
packet_queue_init q = record q { queue = [] }

-- Whether the packet was put, and the queue.
abbrev packet_queue_put : (dup : Bool) → PacketQueue → Packet → Bool × PacketQueue
packet_queue_put dup q pkt =
    if dup
    then (true, record { queue = q.queue ++ (pkt ∷ []); size = q.size + length pkt })
    else (false, q)

data Got : Type 0 where
  got : Packet → PacketQueue → Got
  nothing : Got
  waits : Got

abbrev get_from : List Packet → ℕ → (block : Bool) → Got
get_from [] size block = if block then waits else nothing
get_from (pkt ∷ rest) size block = got pkt (record { queue = rest; size = size - length pkt })

abbrev packet_queue_get : PacketQueue → (block : Bool) → Got
packet_queue_get q block = get_from q.queue q.size block

abbrev total : List Packet → ℕ
total [] = 0
total (pkt ∷ rest) = length pkt + total rest

-- The size is that of the packets in the queue.
abbrev Counts : PacketQueue → Type 0
Counts q = q.size ≡ total q.queue

total-snoc : (l : List Packet) (pkt : Packet) → total (l ++ (pkt ∷ [])) ≡ total l + length pkt
total-snoc [] pkt = ground arith
total-snoc (a ∷ l) pkt = ground (arith, total-snoc l pkt)

-- A put keeps the size that of the packets, whether it fails or not.
put-Counts :
    (dup : Bool) (q : PacketQueue) (pkt : Packet) → Counts q → Counts (packet_queue_put dup q pkt).1
put-Counts true q pkt c = ground (arith, total-snoc q.queue pkt)
put-Counts false q pkt c = c

-- Where the size counts the packets, a get after a put that succeeds takes the packet that was first before, with the others and the
-- new one left in order and their size counted.
get-put :
    (block : Bool) (first : Packet) (rest : List Packet) (n : ℕ) (pkt : Packet)
    → Counts (record { queue = first ∷ rest; size = n })
    → (next : PacketQueue) × (packet_queue_get
          (packet_queue_put true (record { queue = first ∷ rest; size = n }) pkt).1
          block
        ≡ got first next)
      × (next.queue ≡ rest ++ (pkt ∷ []))
      × Counts next
get-put block first rest n pkt counted = (
  record { queue = rest ++ (pkt ∷ []); size = (n + length pkt) - length first },
  refl,
  refl,
  ground (arith, total-snoc rest pkt),
)
