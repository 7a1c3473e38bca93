-- ===== src/Rtsp/Interleaved.antt =====
-- `rtsp_write_bindata` of ga/core/rtspserver.cpp: the RTP packets that `avio_close_dyn_buf` returns,
-- each behind its size in four bytes, go to the RTSP connection as interleaved frames, under
-- `rtsp_writer_mutex`. Sizes are below 2^31. Whether a call of `rtsp_write` writes all of its bytes is
-- an answer for each call.
pub mod Frames
mod Tests
use mathlib.Core.Path.{ap₂}
use gaminganywhere.Base.{
  ℕ, zero, suc, ◌+◌, ◌-◌, ◌*◌, ◌/◌, ◌%◌, ◌≡◌, ◌<◌, ◌≤◌, refl, sym, ap, ◌∙◌, arith, ltb, ◌==◌,
  if◌then◌else◌, List, [], ◌∷◌, ◌++◌, Option, none, some, Bool, true, false, length, take, drop,
  length-append, append_assoc, append_nil,
}

abbrev pub Bytes : Type 0
Bytes = List ℕ

-- What a call comes to: the offset that it returns, the blocks that it wrote, and whether it returns
-- with the mutex locked.
pub record Written : Type 0 where
  pub count : ℕ
  pub blocks : List Bytes
  pub locked : Bool

-- the size in front of a packet
abbrev pub be32 : ℕ → ℕ → ℕ → ℕ → ℕ
be32 a b c d = a * 16777216 + b * 65536 + c * 256 + d

-- `header`
abbrev pub frame_header : ℕ → ℕ → Bytes
frame_header streamid pktlen = b'$' ∷ streamid * 2 % 256 ∷ pktlen / 256 % 256 ∷ pktlen % 256 ∷ []

-- The two blocks of a frame in front of the rest's.
abbrev pub with_frame : Bytes → Bytes → Option Written → Option Written
with_frame h p none = none
with_frame h p (some w) = some (record w { blocks = h ∷ p ∷ w.blocks })

-- One packet, with what the loop comes to behind it.
unfoldable pub write_packet :
    ℕ → Bytes → Bytes → List Bool → (List Bool → Option Written) → Option Written
write_packet i header packet [] rest = none
write_packet i header packet (false ∷ answers) rest =
    some (record { count = i; blocks = []; locked = false })
write_packet i header packet (true ∷ []) rest = none
write_packet i header packet (true ∷ false ∷ answers) rest =
    some (record { count = i; blocks = header ∷ []; locked = true })
write_packet i header packet (true ∷ true ∷ answers) rest = with_frame header packet (rest answers)

-- The loop at the offset `i`, over the bytes from there on. The result is `none` where the fuel or the
-- answers run out, or the source reads behind the buffer.
unfoldable pub bindata_loop : ℕ → ℕ → ℕ → Bytes → List Bool → Option Written
unfolding write_packet
bindata_loop fuel streamid i [] answers = some (record { count = i; blocks = []; locked = false })
bindata_loop zero streamid i (a ∷ buf) answers = none
bindata_loop (suc fuel) streamid i (a ∷ []) answers = none
bindata_loop (suc fuel) streamid i (a ∷ b ∷ []) answers = none
bindata_loop (suc fuel) streamid i (a ∷ b ∷ c ∷ []) answers = none
bindata_loop (suc fuel) streamid i (a ∷ b ∷ c ∷ d ∷ buf) answers =
    let pktlen = be32 a b c d in
    let skipped = bindata_loop fuel streamid (i + 4) buf answers in
    let rest =
      λ (left : List Bool). bindata_loop fuel streamid (i + (4 + pktlen)) (drop pktlen buf) left in
    if pktlen == 0
    then skipped
    else if ltb (length buf) pktlen
    then none
    else write_packet i (frame_header streamid pktlen) (take pktlen buf) answers rest

-- A round takes four bytes at least, so that a unit of fuel for each byte is enough.
unfoldable pub rtsp_write_bindata : ℕ → Bytes → List Bool → Option Written
unfolding bindata_loop
rtsp_write_bindata streamid buf answers =
    if ltb (length buf) 4
    then some (record { count = length buf; blocks = []; locked = false })
    else bindata_loop (length buf) streamid 0 buf answers
