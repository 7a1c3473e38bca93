-- ===== src/Rtsp/Reader/Packets.antt =====
-- rtsp_read_binary gives the next packet of the stream, however `read` cuts it.
use gaminganywhere.Base.{
  ℕ, zero, suc, ◌+◌, ◌-◌, ◌*◌, ◌<◌, ◌≤◌, ◌≡◌, refl, sym, ap, ◌∙◌, arith, ltb, ◌==◌, [], ◌∷◌, ◌++◌,
  true, false, length, length-append, dec_lt, get_or, get_or-slice,
}
use mathlib.Core.Path.{ap₂}
use gaminganywhere.Rtsp.Reader.{
  Bytes, Conn, read_internal, message, held, consume, compact, packet_length, read_packet,
  read_binary,
}
use gaminganywhere.Rtsp.Reader.Stream.{
  IsConn, stream, length-held, Reliable, more_lem, taken, consume-Consumed, append-split, Left,
  Consumed-Left, Gained-Left,
}

-- The channel, the two bytes of the length, and the payload.
abbrev pub packet : ℕ → ℕ → ℕ → Bytes → Bytes
packet channel high low payload = b'$' ∷ channel ∷ high ∷ low ∷ payload

held-get_or :
    (c : Conn) (i : ℕ)
    → IsConn c
    → i < length (held c)
    → get_or c.rbuffer (c.rbufhead + i) 0 ≡ get_or (held c) i 0
held-get_or c i v lt = sym (
    get_or-slice c.rbuffer c.rbufhead (c.rbuftail - c.rbufhead) i 0
      (omega (arith, length-held c v)))

get_or-append : (s t : Bytes) (i : ℕ) → i < length s → get_or (s ++ t) i 0 ≡ get_or s i 0
get_or-append [] t i h = absurd (omega arith)
get_or-append (x ∷ s) t zero h = refl
get_or-append (x ∷ s) t (suc i) h = get_or-append s t i (omega arith)

-- A byte of the buffer, where it is held, is that of the stream.
pub stream-get_or :
    (c : Conn) (i : ℕ)
    → IsConn c
    → i < length (held c)
    → get_or c.rbuffer (c.rbufhead + i) 0 ≡ get_or (stream c) i 0
stream-get_or c i v lt = held-get_or c i v lt ∙ sym (get_or-append (held c) c.pending i lt)

module _ (channel high low : ℕ) (payload : Bytes) (sized : high * 256 + low ≡ length payload) where
  m : Bytes
  m = packet channel high low payload

  length-m : length m ≡ 4 + length payload
  unfolding m
  length-m = omega arith

  packet_length_lem :
      (c : Conn) (rest : Bytes)
      → IsConn c
      → stream c ≡ m ++ rest
      → 4 ≤ length (held c)
      → packet_length c ≡ length payload
  unfolding m
  packet_length_lem c rest v e four =
      let second : get_or c.rbuffer (c.rbufhead + 2) 0 ≡ high =
        stream-get_or c 2 v (omega arith) ∙ ap (λ s. get_or s 2 0) e in
      let third : get_or c.rbuffer (c.rbufhead + 3) 0 ≡ low =
        stream-get_or c 3 v (omega arith) ∙ ap (λ s. get_or s 3 0) e in
      ap₂ (λ a b. a * 256 + b) second third ∙ sized

  packet-held :
      (sizes : ℕ → ℕ) (fuel count : ℕ) (c : Conn) (r rest : Bytes)
      → IsConn c
      → length m ≤ count
      → stream c ≡ m ++ rest
      → held c ≡ m ++ r
      → read_packet sizes (suc fuel) count c ≡ (message m, consume (length m) c)
  unfolding read_packet
  packet-held sizes fuel count c r rest v fits e h =
      let long : length m ≤ length (held c) = omega (arith, ap length h, length-append m r) in
      let n : 4 + packet_length c ≡ length m =
        ap (◌+◌ 4) (packet_length_lem c rest v e (omega (arith, length-m))) ∙ sym length-m in
      let there : ltb (c.rbuftail - c.rbufhead) (length m) ≡ false =
        ground (arith, length-held c v) in
      let fit : ltb count (length m) ≡ false = ground arith in
      rw n (rw (there, fit) (rw (taken c m r v h) refl))

  packet-more :
      (sizes : ℕ → ℕ) (fuel count : ℕ) (c d : Conn) (rest : Bytes)
      → IsConn c
      → stream c ≡ m ++ rest
      → length (held c) < length m
      → length (held c) < c.rbufsize
      → read_internal sizes (compact c) ≡ (true, d)
      → read_packet sizes (suc fuel) count c ≡ read_packet sizes fuel count d
  unfolding read_packet
  packet-more sizes fuel count c d rest v e short room read =
      let less : ltb (c.rbuftail - c.rbufhead) (4 + packet_length c) ≡ true =
        elim (dec_lt (length (held c)) 4) [
          | yes few ↦ ground (arith, length-held c v)
          | no four ↦
              ground (arith, length-held c v, packet_length_lem c rest v e (omega arith), length-m)
        ] in
      let free : (c.rbuftail - c.rbufhead == c.rbufsize) ≡ false =
        ground (arith, length-held c v) in
      rw less (rw (free, read) refl)

  -- A packet that is not all held leaves bytes to read.
  pending-lem :
      (c : Conn) (rest : Bytes)
      → stream c ≡ m ++ rest
      → length (held c) < length m
      → 0 < length c.pending
  pending-lem c rest e short =
      omega (arith, ap length e, length-append (held c) c.pending, length-append m rest)

  read_packet-packet :
      (sizes : ℕ → ℕ) (fuel count : ℕ) (c : Conn) (rest : Bytes)
      → Reliable sizes
      → IsConn c
      → length m ≤ count
      → length m ≤ c.rbufsize
      → stream c ≡ m ++ rest
      → length c.pending < fuel
      → (d : Conn) × (read_packet sizes fuel count c ≡ (message m, d)) × Left c d rest
  read_packet-packet sizes zero count c rest ok v fits room e enough = absurd (omega arith)
  read_packet-packet sizes (suc fuel) count c rest ok v fits room e enough =
      elim (dec_lt (length (held c)) (length m)) [
        | no here ↦
            let s = append-split (held c) c.pending m rest e (omega arith) in
            (
              consume (length m) c,
              packet-held sizes fuel count c s.0 rest v fits e s.1,
              Consumed-Left rest (consume-Consumed c m s.0 v s.1) s.2,
            )
        | yes short ↦
            let more = more_lem sizes c ok v (omega arith) (pending-lem c rest e short) in
            let ih =
              read_packet-packet sizes fuel count more.0 rest ok more.2.conn fits
                (omega (arith, more.2.size)) (more.2.same ∙ e) (omega (arith, more.2.less)) in
            (
              ih.0,
              packet-more sizes fuel count c more.0 rest v e short (omega arith) more.1 ∙ ih.1,
              Gained-Left rest more.2 ih.2,
            )
      ]

  -- Whatever part of a packet the buffer holds, and however `read` cuts the rest, rtsp_read_binary
  -- gives the packet with its header and leaves the stream behind it.
  pub read_binary-packet :
      (sizes : ℕ → ℕ) (fuel count : ℕ) (c : Conn) (rest : Bytes)
      → Reliable sizes
      → IsConn c
      → 4 + length payload ≤ count
      → 4 + length payload ≤ c.rbufsize
      → stream c ≡ packet channel high low payload ++ rest
      → length c.pending < fuel
      → (d : Conn) × (read_binary sizes fuel count c
          ≡ (message (packet channel high low payload), d))
        × Left c d rest
  unfolding read_binary m
  read_binary-packet sizes fuel count c rest ok v fits room e enough =
      elim (dec_lt (length (held c)) 4) [
        | no four ↦
            let there : ltb (c.rbuftail - c.rbufhead) 4 ≡ false = ground (arith, length-held c v) in
            let r =
              read_packet-packet sizes fuel count c rest ok v (omega arith) (omega arith) e
                enough in
            (r.0, rw there r.1, r.2)
        | yes few ↦
            let there : ltb (c.rbuftail - c.rbufhead) 4 ≡ true = ground (arith, length-held c v) in
            let more =
              more_lem sizes c ok v (omega arith)
                (pending-lem c rest e (omega (arith, length-m))) in
            let r =
              read_packet-packet sizes fuel count more.0 rest ok more.2.conn (omega arith)
                (omega (arith, more.2.size)) (more.2.same ∙ e) (omega (arith, more.2.less)) in
            (r.0, rw there (rw (more.1) r.1), Gained-Left rest more.2 r.2)
      ]
