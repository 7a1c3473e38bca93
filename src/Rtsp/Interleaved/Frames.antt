-- ===== src/Rtsp/Interleaved/Frames.antt =====
-- What `rtsp_write_bindata` writes for the packets of libav.
use mathlib.Core.Path.{ap₂}
use gaminganywhere.Base.{
  ℕ, zero, suc, ◌+◌, ◌-◌, ◌*◌, ◌/◌, ◌%◌, ◌≡◌, ◌<◌, ◌≤◌, refl, sym, ap, ◌∙◌, arith, ltb, ◌==◌, List,
  [], ◌∷◌, ◌++◌, Option, some, Bool, true, false, length, take, drop, length-append, append_assoc,
  append_nil,
}
use gaminganywhere.Rtsp.Interleaved.{
  Bytes, Written, be32, frame_header, with_frame, write_packet, bindata_loop, rtsp_write_bindata,
}

-- The packets of a buffer as libav puts them there.
abbrev pub encode : List Bytes → Bytes
encode [] = []
encode (p ∷ ps) =
    length p / 16777216
    ∷ length p / 65536 % 256
    ∷ length p / 256 % 256
    ∷ length p % 256
    ∷ (p ++ encode ps)

-- The header of interleaved data in RTSP (RFC 2326, 10.12): a dollar sign, the channel, and the size
-- in two bytes, the high one first. The even channels are those of RTP.
abbrev pub rtsp_header : ℕ → ℕ → Bytes
rtsp_header streamid n = 36 ∷ (streamid + streamid) ∷ n / 256 ∷ (n - 256 * (n / 256)) ∷ []

-- The blocks that should be written for them.
abbrev pub expected_blocks : ℕ → List Bytes → List Bytes
expected_blocks streamid [] = []
expected_blocks streamid (p ∷ ps) =
    rtsp_header streamid (length p) ∷ p ∷ expected_blocks streamid ps

-- Packets are not empty, and their sizes fit two bytes.
abbrev pub AllSized : List Bytes → Type 0
AllSized [] = Unit
AllSized (p ∷ ps) = (0 < length p) × (length p < 65536) × AllSized ps

frame_header-rtsp :
    (streamid n : ℕ) → streamid < 128 → n < 65536 → frame_header streamid n ≡ rtsp_header streamid n
frame_header-rtsp streamid n channel small =
    let e0 : streamid * 2 % 256 ≡ streamid + streamid = omega arith in
    let e1 : n / 256 % 256 ≡ n / 256 = omega arith in
    let e2 : n % 256 ≡ n - 256 * (n / 256) = omega arith in rw (e0, e1, e2) refl

be32_lem : (n : ℕ) → be32 (n / 16777216) (n / 65536 % 256) (n / 256 % 256) (n % 256) ≡ n
be32_lem n = omega arith

take-append_self : (xs ys : Bytes) → take (length xs) (xs ++ ys) ≡ xs
take-append_self [] ys = refl
take-append_self (x ∷ xs) ys = ap (◌∷◌ x) (take-append_self xs ys)

drop-append_self : (xs ys : Bytes) → drop (length xs) (xs ++ ys) ≡ ys
drop-append_self [] ys = refl
drop-append_self (x ∷ xs) ys = drop-append_self xs ys

-- Every write succeeds.
abbrev pub all_written : List Bytes → List Bool
all_written [] = []
all_written (p ∷ ps) = true ∷ true ∷ all_written ps

loop-step :
    (fuel streamid i a b c d n : ℕ) (buf : Bytes) (answers : List Bool)
    → be32 a b c d ≡ n
    → 0 < n
    → n ≤ length buf
    → bindata_loop (suc fuel) streamid i (a ∷ b ∷ c ∷ d ∷ buf) (true ∷ true ∷ answers)
      ≡ with_frame
          (frame_header streamid n)
          (take n buf)
          (bindata_loop fuel streamid (i + (4 + n)) (drop n buf) answers)
unfolding bindata_loop write_packet
loop-step fuel streamid i a b c d n buf answers e some_bytes inside =
    let filled : (n == 0) ≡ false = ground arith in
    let there : ltb (length buf) n ≡ false = ground arith in rw e (rw (filled, there) refl)

-- The frames of packets in front of the rest's.
abbrev pub after_packets : ℕ → List Bytes → Option Written → Option Written
after_packets streamid [] w = w
after_packets streamid (p ∷ ps) w =
    with_frame (rtsp_header streamid (length p)) p (after_packets streamid ps w)

-- The loop over packets that are written, with what it comes to behind them.
loop-packets :
    (ps : List Bytes) (left streamid i : ℕ) (buf : Bytes) (answers : List Bool)
    → streamid < 128
    → AllSized ps
    → bindata_loop (length ps + left) streamid i (encode ps ++ buf) (all_written ps ++ answers)
      ≡ after_packets streamid ps (bindata_loop left streamid (i + length (encode ps)) buf answers)
loop-packets [] left streamid i buf answers channel h =
    ap₂ (λ n k. bindata_loop n streamid k buf answers) (omega arith) (omega arith)
loop-packets (p ∷ ps) left streamid i buf answers channel h =
    let more : suc (length ps) + left ≡ suc (length ps + left) = omega arith in
    let split = append_assoc p (encode ps) buf in
    ap
      (λ n.
        bindata_loop n streamid i (encode (p ∷ ps) ++ buf)
          (true ∷ true ∷ (all_written ps ++ answers)))
      more
    ∙ loop-step (length ps + left) streamid i _ _ _ _ (length p) ((p ++ encode ps) ++ buf)
        (all_written ps ++ answers) (be32_lem (length p)) h.0
        (omega (arith, length-append p (encode ps), length-append (p ++ encode ps) buf))
    ∙ ap₂
        (λ b r. with_frame (frame_header streamid (length p)) b (
          bindata_loop (length ps + left) streamid (i + (4 + length p)) r
            (all_written ps ++ answers)))
        (ap (take (length p)) split ∙ take-append_self p (encode ps ++ buf))
        (ap (drop (length p)) split ∙ drop-append_self p (encode ps ++ buf))
    ∙ ap₂ (λ f w. with_frame f p w) (frame_header-rtsp streamid (length p) channel h.1)
        (loop-packets ps left streamid (i + (4 + length p)) buf answers channel h.2
          ∙ ap (λ k. after_packets streamid ps (bindata_loop left streamid k buf answers))
              (omega (arith, length-append p (encode ps))))

after_packets-some :
    (streamid : ℕ) (ps bs : List Bytes) (n : ℕ) (b : Bool)
    → after_packets streamid ps (some (record { count = n; blocks = bs; locked = b }))
      ≡ some (record { count = n; blocks = expected_blocks streamid ps ++ bs; locked = b })
after_packets-some streamid [] bs n b = refl
after_packets-some streamid (p ∷ ps) bs n b =
    ap (with_frame (rtsp_header streamid (length p)) p) (after_packets-some streamid ps bs n b)

encode-append : (ps qs : List Bytes) → encode (ps ++ qs) ≡ encode ps ++ encode qs
encode-append [] qs = refl
encode-append (p ∷ ps) qs =
    ap
      (λ (r : Bytes).
        length p / 16777216 ∷ length p / 65536 % 256 ∷ length p / 256 % 256 ∷ length p % 256 ∷ r)
      (ap (λ r. p ++ r) (encode-append ps qs) ∙ sym (append_assoc p (encode ps) (encode qs)))

length-encode : (ps : List Bytes) → length ps ≤ length (encode ps)
length-encode [] = omega arith
length-encode (p ∷ ps) = omega (arith, length-encode ps, length-append p (encode ps))

loop-end :
    (left streamid i : ℕ)
    → bindata_loop left streamid i [] [] ≡ some (record { count = i; blocks = []; locked = false })
unfolding bindata_loop
loop-end zero streamid i = refl
loop-end (suc left) streamid i = refl

-- The whole call, where the loop is reached.
call-packets :
    (ps qs : List Bytes) (streamid : ℕ) (answers : List Bool)
    → streamid < 128
    → AllSized ps
    → 4 ≤ length (encode (ps ++ qs))
    → rtsp_write_bindata streamid (encode (ps ++ qs)) (all_written ps ++ answers)
      ≡ after_packets streamid ps (
          bindata_loop
            (length (encode (ps ++ qs)) - length ps)
            streamid
            (length (encode ps))
            (encode qs)
            answers)
unfolding rtsp_write_bindata
call-packets ps qs streamid answers channel h long =
    let test : ltb (length (encode (ps ++ qs))) 4 ≡ false = ground arith in
    let room : length (encode (ps ++ qs)) ≡ length ps + (length (encode (ps ++ qs)) - length ps) =
      omega (
        arith,
        length-encode ps,
        ap length (encode-append ps qs),
        length-append (encode ps) (encode qs),
      ) in
    rw test (
      ap₂ (λ n b. bindata_loop n streamid 0 b (all_written ps ++ answers)) room
        (encode-append ps qs)
      ∙ loop-packets ps (length (encode (ps ++ qs)) - length ps) streamid 0 (encode qs) answers
          channel h
      ∙ ap
          (λ k.
            after_packets streamid ps (
              bindata_loop (length (encode (ps ++ qs)) - length ps) streamid k (encode qs) answers))
          (omega arith))

-- Where every write succeeds, `rtsp_write_bindata` writes each packet of the buffer once, in order,
-- behind the header that RTSP asks for, with its channel and its size, returns the length of the
-- buffer, and leaves the mutex unlocked: for any number of packets that are not empty and whose sizes
-- fit two bytes, and for a stream whose channel fits a byte.
pub write-encode :
    (ps : List Bytes) (streamid : ℕ)
    → streamid < 128
    → AllSized ps
    → rtsp_write_bindata streamid (encode ps) (all_written ps)
      ≡ some (record {
        count = length (encode ps);
        blocks = expected_blocks streamid ps;
        locked = false;
      })
unfolding rtsp_write_bindata
write-encode [] streamid channel h = refl
write-encode (p ∷ ps) streamid channel h =
    let all = p ∷ ps in
    let same = append_nil all in
    ap₂ (rtsp_write_bindata streamid) (ap encode (sym same)) (sym (append_nil (all_written all)))
    ∙ call-packets all [] streamid [] channel h (omega (arith, ap length (ap encode same)))
    ∙ ap (after_packets streamid all)
        (loop-end (length (encode (all ++ [])) - length all) streamid (length (encode all)))
    ∙ after_packets-some streamid all [] (length (encode all)) false
    ∙ ap (λ l. some (record { count = length (encode all); blocks = l; locked = false }))
        (append_nil (expected_blocks streamid all))

-- One packet whose writes stop, behind others.
stopped-packet :
    (fuel streamid i : ℕ) (p : Bytes) (qs : List Bytes) (answers : List Bool)
    → streamid < 128
    → AllSized (p ∷ [])
    → 0 < fuel
    → (bindata_loop fuel streamid i (encode (p ∷ qs)) (false ∷ answers)
        ≡ some (record { count = i; blocks = []; locked = false }))
      × (bindata_loop fuel streamid i (encode (p ∷ qs)) (true ∷ false ∷ answers)
          ≡ some
              (record { count = i; blocks = rtsp_header streamid (length p) ∷ []; locked = true }))
unfolding bindata_loop write_packet
stopped-packet zero streamid i p qs answers channel h some_fuel = absurd (omega arith)
stopped-packet (suc fuel) streamid i p qs answers channel h some_fuel =
    let filled : (length p == 0) ≡ false = ground arith in
    let there : ltb (length (p ++ encode qs)) (length p) ≡ false =
      ground (arith, length-append p (encode qs)) in
    (
      rw (be32_lem (length p)) (rw (filled, there) refl),
      rw (be32_lem (length p))
          (rw (filled, there, frame_header-rtsp streamid (length p) channel h.1) refl),
    )

-- Where a write for the packet behind `ps` is the first to fail, `rtsp_write_bindata` has written the
-- frames of `ps`, returns the offset of that packet, and writes nothing more of the packets behind it:
-- where the header's write fails, it leaves the mutex unlocked, but where the write of the packet's
-- bytes fails behind the header's, it leaves the mutex locked. The packets up to that one are not
-- empty and their sizes fit two bytes, and the stream's channel fits a byte.
pub write-locked :
    (ps : List Bytes) (p : Bytes) (qs : List Bytes) (streamid : ℕ) (answers : List Bool)
    → streamid < 128
    → AllSized ps
    → AllSized (p ∷ [])
    → (rtsp_write_bindata streamid (encode (ps ++ (p ∷ qs))) (all_written ps ++ (false ∷ answers))
        ≡ some (record {
          count = length (encode ps);
          blocks = expected_blocks streamid ps;
          locked = false;
        }))
      × (rtsp_write_bindata streamid
            (encode (ps ++ (p ∷ qs)))
            (all_written ps ++ (true ∷ false ∷ answers))
          ≡ some (record {
            count = length (encode ps);
            blocks = expected_blocks streamid ps ++ (rtsp_header streamid (length p) ∷ []);
            locked = true;
          }))
write-locked ps p qs streamid answers channel h one =
    let size =
      ap length (encode-append ps (p ∷ qs)) ∙ length-append (encode ps) (encode (p ∷ qs)) in
    let stop =
      stopped-packet (length (encode (ps ++ (p ∷ qs))) - length ps) streamid (length (encode ps)) p
        qs answers channel one (omega (arith, size, length-encode ps)) in
    (
      call-packets ps (p ∷ qs) streamid (false ∷ answers) channel h (omega (arith, size))
          ∙ ap (after_packets streamid ps) stop.0
          ∙ after_packets-some streamid ps [] (length (encode ps)) false
          ∙ ap (λ l. some (record { count = length (encode ps); blocks = l; locked = false }))
              (append_nil (expected_blocks streamid ps)),
      call-packets ps (p ∷ qs) streamid (true ∷ false ∷ answers) channel h (omega (arith, size))
          ∙ ap (after_packets streamid ps) stop.1
          ∙ after_packets-some streamid ps (rtsp_header streamid (length p) ∷ [])
              (length (encode ps)) true,
    )
