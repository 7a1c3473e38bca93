-- ===== src/Rtsp/Reader/Session.antt =====
-- rtsp_getnext over a connection: the lines and packets of the peer, one by one.
use gaminganywhere.Base.{
  ℕ, zero, suc, ◌+◌, ◌*◌, ◌<◌, ◌≤◌, ◌≡◌, refl, sym, ap, ◌∙◌, arith, ◌==◌, List, [], ◌∷◌, ◌++◌,
  Option, some, true, false, length, length-append, get_or, map, Bool-cases, inl, inr, ==_iff,
}
use mathlib.Core.Path.{ap₂}
use gaminganywhere.Rtsp.Reader.{
  Bytes, Conn, Got, message, held, getnext, getnext_in, getnext_held, allocated, alloc_with,
}
use gaminganywhere.Rtsp.Reader.Stream.{
  IsConn, stream, length-held, Reliable, read_internal_lem, Left, Gained-Left,
}
use gaminganywhere.Rtsp.Reader.Lines.{AllLine, line_of, read_text-line, length-line}
use gaminganywhere.Rtsp.Reader.Packets.{packet, read_binary-packet, stream-get_or}

-- What a peer sends: a line of text, or a packet with its channel, length and payload.
pub data Item : Type 0 where
  line : Bytes → Item
  binary : ℕ → ℕ → ℕ → Bytes → Item

abbrev pub bytes_of : Item → Bytes
bytes_of (line s) = line_of s
bytes_of (binary channel high low payload) = packet channel high low payload

-- A line does not start as a packet does, has no line feed inside, and leaves room for a null byte.
-- A packet's length is that of its payload, and it fits the caller's array.
abbrev pub IsItem : ℕ → Item → Type 0
IsItem count (line s) =
    ((get_or (line_of s) 0 0 == b'$') ≡ false) × AllLine s × (length s + 1 < count)
IsItem count (binary channel high low payload) =
    (high * 256 + low ≡ length payload) × (4 + length payload ≤ count)

abbrev pub AllItems : ℕ → List Item → Type 0
AllItems count [] = Unit
AllItems count (i ∷ is) = IsItem count i × AllItems count is

abbrev pub sent : List Item → Bytes
sent [] = []
sent (i ∷ is) = bytes_of i ++ sent is

bytes_of-pos : (i : Item) → 0 < length (bytes_of i)
bytes_of-pos (line s) = omega (arith, length-line s)
bytes_of-pos (binary channel high low payload) = omega arith

get_or-front : (s t : Bytes) → 0 < length s → get_or (s ++ t) 0 0 ≡ get_or s 0 0
get_or-front [] t h = absurd (omega arith)
get_or-front (x ∷ s) t h = refl

module _ (sizes : ℕ → ℕ) (fuel count : ℕ) (ok : Reliable sizes) where
  -- The first byte of the stream, where something is held.
  first_byte :
      (c : Conn) (i : Item) (rest : Bytes)
      → IsConn c
      → 0 < length (held c)
      → stream c ≡ bytes_of i ++ rest
      → get_or c.rbuffer c.rbufhead 0 ≡ get_or (bytes_of i) 0 0
  first_byte c i rest v some_held e =
      let here : c.rbufhead ≡ c.rbufhead + 0 = omega arith in
      ap (λ k. get_or c.rbuffer k 0) here
      ∙ stream-get_or c 0 v some_held
      ∙ ap (λ s. get_or s 0 0) e
      ∙ get_or-front (bytes_of i) rest (bytes_of-pos i)

  getnext_held-item :
      (c : Conn) (i : Item) (rest : Bytes)
      → IsConn c
      → count ≤ c.rbufsize
      → 0 < length (held c)
      → IsItem count i
      → stream c ≡ bytes_of i ++ rest
      → length c.pending < fuel
      → (d : Conn) × (getnext_held sizes fuel count c ≡ (message (bytes_of i), d)) × Left c d rest
  getnext_held-item c (line s) rest v room some_held (text, all, fits) e enough =
      let kind : (get_or c.rbuffer c.rbufhead 0 == b'$') ≡ false =
        ap (λ b. b == b'$') (first_byte c (line s) rest v some_held e) ∙ text in
      let r = read_text-line sizes fuel count c s rest ok v all fits (omega arith) e enough in
      (r.0, rw kind r.1, r.2)
  getnext_held-item c (binary channel high low payload) rest v room some_held (sized, fits) e
        enough =
      let kind : (get_or c.rbuffer c.rbufhead 0 == b'$') ≡ true =
        ap (λ b. b == b'$') (first_byte c (binary channel high low payload) rest v some_held e) in
      let r =
        read_binary-packet channel high low payload sized sizes fuel count c rest ok v fits
          (omega arith) e enough in
      (r.0, rw kind r.1, r.2)

  getnext_in-item :
      (c : Conn) (i : Item) (rest : Bytes)
      → IsConn c
      → count ≤ c.rbufsize
      → 0 < c.rbufsize
      → IsItem count i
      → stream c ≡ bytes_of i ++ rest
      → length c.pending < fuel
      → (d : Conn) × (getnext_in sizes fuel count c ≡ (message (bytes_of i), d)) × Left c d rest
  getnext_in-item c i rest v room pos item e enough = elim (Bool-cases (c.rbuftail == c.rbufhead)) [
    | inr busy ↦
        let some_held : 0 < length (held c) = ground (arith, length-held c v, v.order) in
        let r = getnext_held-item c i rest v room some_held item e enough in (r.0, rw busy r.1, r.2)
    | inl idle ↦
        let same : c.rbuftail ≡ c.rbufhead = (==_iff _ _).0 idle in
        let zero_tail : c.rbuftail ≡ 0 = v.empty (sym same) in
        let some_left : 0 < length c.pending = omega (
          arith,
          ap length e,
          length-append (held c) c.pending,
          length-append (bytes_of i) rest,
          bytes_of-pos i,
          length-held c v,
        ) in
        let more = read_internal_lem sizes c ok v (omega arith) some_left in
        let some_held : 0 < length (held more.0) = omega (
          arith,
          ap length more.2.same,
          length-append (held c) c.pending,
          length-append (held more.0) more.0.pending,
          more.2.less,
        ) in
        let r =
          getnext_held-item more.0 i rest more.2.conn (omega (arith, more.2.size)) some_held item
            (more.2.same ∙ e) (omega (arith, more.2.less)) in
        (r.0, rw idle (rw (more.1) r.1), Gained-Left rest more.2 r.2)
  ]

  -- The buffer that `allocated` finds or makes.
  getnext-item :
      (malloc : ℕ → Option Bytes) (c b : Conn) (i : Item) (rest : Bytes)
      → allocated malloc c ≡ some b
      → IsConn b
      → count ≤ b.rbufsize
      → 0 < b.rbufsize
      → IsItem count i
      → stream b ≡ bytes_of i ++ rest
      → length b.pending < fuel
      → (d : Conn) × (getnext sizes malloc fuel count c ≡ (message (bytes_of i), d)) × Left b d rest
  unfolding getnext
  getnext-item malloc c b i rest made v room pos item e enough =
      let r = getnext_in-item b i rest v room pos item e enough in
      (r.0, rw (made, getnext) r.1, r.2)

-- `n` calls, one after another.
unfoldable pub calls : (ℕ → ℕ) → (ℕ → Option Bytes) → ℕ → ℕ → ℕ → Conn → List Got
calls sizes malloc fuel count zero c = []
calls sizes malloc fuel count (suc n) c =
    let r = getnext sizes malloc fuel count c in r.0 ∷ calls sizes malloc fuel count n r.1

alloc-IsConn :
    (malloc : ℕ → Option Bytes) (c : Conn) → IsConn c → 0 < c.rbufsize → allocated malloc c ≡ some c
alloc-IsConn malloc c v pos = alloc_some c.rbuffer (omega (arith, v.memory))
  where
    alloc_some : (b : Bytes) → 0 < length b → alloc_with malloc b c ≡ some c
    alloc_some [] h = absurd (omega arith)
    alloc_some (x ∷ b) h = refl

-- A peer's lines and packets come out of rtsp_getnext one by one, each whole and unchanged, in the
-- order sent, wherever `read` cuts the stream: the buffer is there or is allocated, no `read` fails
-- while there is something to read, the fuel is more than the pending bytes, and each item fits the
-- caller's array, which is no larger than the buffer.
pub calls-items :
    (sizes : ℕ → ℕ) (malloc : ℕ → Option Bytes) (fuel count : ℕ) (c b : Conn) (is : List Item)
    → Reliable sizes
    → allocated malloc c ≡ some b
    → IsConn b
    → count ≤ b.rbufsize
    → 0 < b.rbufsize
    → AllItems count is
    → stream b ≡ sent is
    → length b.pending < fuel
    → calls sizes malloc fuel count (length is) c ≡ map (λ i. message (bytes_of i)) is
unfolding calls
calls-items sizes malloc fuel count c b [] ok made v room pos all e enough = refl
calls-items sizes malloc fuel count c b (i ∷ is) ok made v room pos all e enough =
    let r =
      getnext-item sizes fuel count ok malloc c b i (sent is) made v room pos all.0 e enough in
    let l = r.2 in
    let rest =
      calls-items sizes malloc fuel count r.0 r.0 is ok
        (alloc-IsConn malloc r.0 l.conn (omega (arith, l.size))) l.conn (omega (arith, l.size))
        (omega (arith, l.size)) all.1 l.behind (omega (arith, l.pending)) in
    ap₂ ◌∷◌ (ap (λ (x : Got × Conn). x.0) r.1)
      (ap (λ (x : Got × Conn). calls sizes malloc fuel count (length is) x.1) r.1 ∙ rest)
