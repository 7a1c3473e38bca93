-- ===== src/Rtsp/Reader.antt =====
-- The reading side of an RTSP connection, of ga/core/rtspserver.cpp: rtsp_read_internal,
-- rtsp_read_text, rtsp_read_binary and rtsp_getnext. What the peer has sent and `read` has not yet
-- returned is `pending`; the k-th `read` returns at most `sizes k` bytes of it.
pub mod Stream
pub mod Lines
pub mod Packets
pub mod Session
mod Tests
use gaminganywhere.Base.{
  ℕ, zero, suc, ◌+◌, ◌-◌, ◌*◌, min, ltb, ◌==◌, if◌then◌else◌, List, [], ◌∷◌, ◌++◌, Option, none,
  some, Bool, true, false, length, take, drop, slice, blit, get_or, replicate,
}

abbrev pub Bytes : Type 0
Bytes = List ℕ

-- The fields of `struct RTSPContext` for reading, and the connection. A null `rbuffer` is empty.
pub record Conn : Type 0 where
  pub rbuffer : Bytes
  pub rbufhead : ℕ
  pub rbuftail : ℕ
  pub rbufsize : ℕ
  pub pending : Bytes
  pub reads : ℕ

-- How many bytes `read` returns: 0 where it fails, at the end of the connection, and for no room.
abbrev pub read_size : (ℕ → ℕ) → Conn → ℕ
read_size sizes c = min (sizes c.reads) (min (c.rbufsize - c.rbuftail) (length c.pending))

-- The state after a `read` of `n` bytes.
abbrev pub read_bytes : ℕ → Conn → Conn
read_bytes n c = record c {
  rbuffer = blit c.rbuffer c.rbuftail (take n c.pending);
  rbuftail = c.rbuftail + n;
  pending = drop n c.pending;
  reads = c.reads + 1;
}

-- The flag is false for -1.
unfoldable pub read_internal : (ℕ → ℕ) → Conn → Bool × Conn
read_internal sizes c =
    if read_size sizes c == 0
    then (false, record c { reads = c.reads + 1 })
    else (true, read_bytes (read_size sizes c) c)

-- The offset of the first `b`.
unfoldable pub index : ℕ → Bytes → Option ℕ
index b [] = none
index b (d ∷ s) =
    let rest = index b s in
    if d == b then some 0 else elim rest [ none ↦ none | some i ↦ some (suc i) ]

-- What a call comes to. `too_long` is the text that does not fit the caller's array, `smashed` the
-- packet that is copied over its end, and `unfinished` that the fuel is used up.
pub data Got : Type 0 where
  failed too_long full smashed unfinished : Got
  message : Bytes → Got

-- The bytes between `rbufhead` and `rbuftail`
abbrev pub held : Conn → Bytes
held c = slice c.rbufhead (c.rbuftail - c.rbufhead) c.rbuffer

-- `rbufhead += n; if(rbufhead == rbuftail) rbufhead = rbuftail = 0;`
abbrev pub consume : ℕ → Conn → Conn
consume n c =
    if c.rbufhead + n == c.rbuftail
    then record c { rbufhead = 0; rbuftail = 0 }
    else record c { rbufhead = c.rbufhead + n }

-- The held bytes moved to the start of the buffer.
abbrev pub compact : Conn → Conn
compact c = record c {
  rbuffer = blit c.rbuffer 0 (held c);
  rbuftail = c.rbuftail - c.rbufhead;
  rbufhead = 0;
}

-- A line that ends at offset `i` of the held bytes. `textlen > count - 1` is unsigned: `count` is not 0.
abbrev pub take_text : ℕ → Conn → ℕ → Got × Conn
take_text count c i =
    if ltb (count - 1) (i + 1)
    then (too_long, c)
    else (message (slice c.rbufhead (i + 1) c.rbuffer), consume (i + 1) c)

-- Behind a `read` that may fail.
abbrev pub retry : Bool × Conn → Got × Conn → Got × Conn
retry (false, c) r = (failed, c)
retry (true, c) r = r

-- From the label `again` on. Each round but the last reads a byte at least.
unfoldable pub read_text : (ℕ → ℕ) → ℕ → ℕ → Conn → Got × Conn
read_text sizes zero count c = (unfinished, c)
read_text sizes (suc fuel) count c =
    let more = read_internal sizes (compact c) in
    let again = read_text sizes fuel count more.1 in
    elim (index 10 (held c)) [
      | some i ↦ take_text count c i
      | none ↦ if c.rbuftail - c.rbufhead == c.rbufsize then (full, c) else retry more again
    ]

-- `reqlength`, from the two bytes behind the first two
abbrev pub packet_length : Conn → ℕ
packet_length c = get_or c.rbuffer (c.rbufhead + 2) 0 * 256 + get_or c.rbuffer (c.rbufhead + 3) 0

abbrev pub take_packet : ℕ → Conn → ℕ → Got × Conn
take_packet count c n =
    if ltb count n then (smashed, c) else (message (slice c.rbufhead n c.rbuffer), consume n c)

-- From the label `again` on.
unfoldable pub read_packet : (ℕ → ℕ) → ℕ → ℕ → Conn → Got × Conn
read_packet sizes zero count c = (unfinished, c)
read_packet sizes (suc fuel) count c =
    let more = read_internal sizes (compact c) in
    let again = read_packet sizes fuel count more.1 in
    if ltb (c.rbuftail - c.rbufhead) (4 + packet_length c)
    then (if c.rbuftail - c.rbufhead == c.rbufsize then (full, c) else retry more again)
    else take_packet count c (4 + packet_length c)

-- A buffer with fewer than four bytes is at `readmore`.
unfoldable pub read_binary : (ℕ → ℕ) → ℕ → ℕ → Conn → Got × Conn
read_binary sizes fuel count c =
    let more = read_internal sizes (compact c) in
    if ltb (c.rbuftail - c.rbufhead) 4
    then retry more (read_packet sizes fuel count more.1)
    else read_packet sizes fuel count c

-- Behind the read that fills an empty buffer.
abbrev pub getnext_held : (ℕ → ℕ) → ℕ → ℕ → Conn → Got × Conn
getnext_held sizes fuel count c =
    if get_or c.rbuffer c.rbufhead 0 == b'$'
    then read_binary sizes fuel count c
    else read_text sizes fuel count c

-- The buffer's first use. `malloc` is a parameter.
abbrev pub alloc_with : (ℕ → Option Bytes) → Bytes → Conn → Option Conn
alloc_with malloc (x ∷ b) c = some c
alloc_with malloc [] c = elim (malloc 65536) [
  | none ↦ none
  | some b ↦ some (record c { rbuffer = b; rbufsize = 65536; rbufhead = 0; rbuftail = 0 })
]

abbrev pub allocated : (ℕ → Option Bytes) → Conn → Option Conn
allocated malloc c = alloc_with malloc c.rbuffer c

abbrev pub getnext_in : (ℕ → ℕ) → ℕ → ℕ → Conn → Got × Conn
getnext_in sizes fuel count c =
    let more = read_internal sizes c in
    if c.rbuftail == c.rbufhead
    then retry more (getnext_held sizes fuel count more.1)
    else getnext_held sizes fuel count c

unfoldable pub getnext : (ℕ → ℕ) → (ℕ → Option Bytes) → ℕ → ℕ → Conn → Got × Conn
getnext sizes malloc fuel count c = elim (allocated malloc c) [
  | none ↦ (failed, record c { rbufsize = 0 })
  | some d ↦ getnext_in sizes fuel count d
]
