-- ===== src/Controller/Server.antt =====
-- `ctrl_server_thread` of ga/core/controller.cpp, behind `accept`: the handshake, and the loop that
-- cuts what arrives into messages. A message starts with its size in two bytes, the high one first.
-- The messages go to the replay callback, or to the queue: both take them in the order of the calls,
-- and here the calls are the list of the messages. `recv` is a list of what it returns.
pub mod Frames
pub mod Delivery
pub mod Stream
use gaminganywhere.Base.{
  ℕ, zero, suc, ◌+◌, ◌-◌, ◌*◌, ltb, ◌==◌, if◌then◌else◌, Bool, true, false, List, [], ◌∷◌, ◌++◌,
  Option, none, some, length, get_or, take, slice, blit,
}

abbrev pub Bytes : Type 0
Bytes = List ℕ

-- `sizeof(buf)`
abbrev pub buf_size : ℕ
buf_size = 8192

-- `buf`, `bufhead` and `buflen`
pub record Receiver : Type 0 where
  pub buf : Bytes
  pub bufhead : ℕ
  pub buflen : ℕ

-- What the thread comes to: it is at the next `recv`, or has closed the connection, or has read behind
-- its buffer.
pub data Serving : Type 0 where
  reading : Receiver → Serving
  closed overrun : Serving

-- `ntohs(*((unsigned short*) (buf + pos)))`
abbrev pub size_at : Bytes → ℕ → ℕ
size_at buf pos = get_or buf pos 0 * 256 + get_or buf (pos + 1) 0

abbrev pub deliver : Bytes → List Bytes × Serving → List Bytes × Serving
deliver m (ms, s) = (m ∷ ms, s)

-- From the label `tcp_again` on. A round takes a byte at least: `buflen` is enough fuel, and where it
-- is 0 the source is at `tcp_readmore` too.
unfoldable pub tcp_again : ℕ → Receiver → List Bytes × Serving
tcp_again zero s = ([], reading s)
tcp_again (suc fuel) s =
    let msglen = size_at s.buf s.bufhead in
    let again =
      tcp_again fuel (record s { bufhead = s.bufhead + msglen; buflen = s.buflen - msglen }) in
    if ltb s.buflen 2
    then ([], reading s)
    else if ltb buf_size (s.bufhead + 2)
    then ([], overrun)
    else if msglen == 0
    then ([], reading (record s { bufhead = 0 }))
    else if ltb s.buflen msglen
    then (if ltb buf_size (s.bufhead + s.buflen)
        then ([], overrun)
        else ([], reading (record s { buf = blit s.buf 0 (slice s.bufhead s.buflen s.buf) })))
    else if ltb buf_size (s.bufhead + msglen)
    then ([], overrun)
    else if ltb msglen s.buflen
    then deliver (slice s.bufhead msglen s.buf) again
    else (slice s.bufhead msglen s.buf ∷ [], reading (record s { bufhead = 0; buflen = 0 }))

-- `recv` at `tcp_readmore`: nothing is the end of the connection or an error, and a full buffer asks
-- for no bytes. It returns no more than it was asked for.
unfoldable pub tcp_recv : Receiver → Bytes → List Bytes × Serving
unfolding tcp_again
tcp_recv s chunk =
    let got = take (buf_size - s.buflen) chunk in
    if length got == 0
    then ([], closed)
    else tcp_again (s.buflen + length got)
        (record s { buf = blit s.buf s.buflen got; buflen = s.buflen + length got })

abbrev pub deliver_all : List Bytes → List Bytes × Serving → List Bytes × Serving
deliver_all ms (ns, s) = (ms ++ ns, s)

-- The thread over what `recv` returns, call by call.
unfoldable pub tcp_serve : Serving → List Bytes → List Bytes × Serving
unfolding tcp_recv
tcp_serve st [] = ([], st)
tcp_serve (reading s) (c ∷ cs) = let (ms, next) = tcp_recv s c in deliver_all ms (tcp_serve next cs)
tcp_serve st (c ∷ cs) = ([], st)

-- One datagram over UDP: a message whose size is the datagram's.
unfoldable pub udp_recv : Bytes → List Bytes
udp_recv datagram =
    let got = take buf_size datagram in
    if ltb (length got) 2
    then []
    else if size_at got 0 == 0
    then []
    else if size_at got 0 == length got
    then got ∷ []
    else []

-- `memcmp` of the first `n` bytes of two blocks
unfoldable pub same_bytes : ℕ → Bytes → Bytes → Bool
same_bytes zero xs ys = true
same_bytes (suc n) [] ys = true
same_bytes (suc n) (x ∷ xs) [] = true
same_bytes (suc n) (x ∷ xs) (y ∷ ys) =
    let rest = same_bytes n xs ys in if x == y then rest else false

-- Is the handshake in `buf`, of which `got` bytes have just arrived, taken? `memory` is what stands
-- from `myctrlid` on: the id, its null byte, and whatever is behind the block.
unfoldable pub handshake : Bytes → Bytes → ℕ → Bool
unfolding same_bytes
handshake memory [] got = false
handshake memory (n ∷ id) got =
    if got == 0 then false else if ltb got n then false else same_bytes n memory id
