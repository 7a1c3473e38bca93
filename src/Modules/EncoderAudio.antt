-- ===== src/Modules/EncoderAudio.antt =====
-- aencoder_threadproc of ga/module/encoder-audio/encoder-audio.cpp: frames are read from the thread's
-- audio buffer into a block, and the block is encoded as soon as it holds a frame of the codec.
-- Outside the source are the codec, whose answers are listed by the number of the frame, and the
-- conversion of samples. Time stamps are natural numbers: `pts` is -1 before the first read, which is
-- `started = false`, and at least `ptsSync` from then on, so that a `newpts` below 0 is not taken.
pub mod Cuts
pub mod ReadIn
pub mod Frames
pub mod Run
mod Tests
use gaminganywhere.Base.{
  ℕ, zero, suc, ◌+◌, ◌-◌, ◌*◌, ◌/◌, ◌==◌, ltb, leb, if◌then◌else◌, Bool, true, false, List, [], ◌∷◌,
  ◌++◌, Option, none, some, length, slice, blit,
}
use gaminganywhere.Audio.Buffer.{AudioBuffer, buffer_read}

-- What the thread has set up: `source_size` is what `av_samples_get_buffer_size` says of the frames
-- of the source, and `convert` is `swr_convert` to `convbuf`, where the formats differ.
pub record Setup : Type 0 where
  pub frame_size : ℕ
  pub frameunit : ℕ
  pub source_size : ℕ
  pub samplerate : ℕ
  pub convert : Option (List ℕ → List ℕ)

-- What `avcodec_encode_audio2` does with a frame: an error, no packet, or a packet. The packet and the
-- coded frame may have a time stamp; `sent` says whether `encoder_send_packet_all` succeeds.
pub data Answer : Type 0 where
  failed : Answer
  no_packet : Answer
  packet : (pkt_pts coded_pts : Option ℕ) (sent : Bool) → Answer

-- The variables of the thread, with the bytes read so far, the frames given to the codec and the
-- packets given to `encoder_send_packet_all`, each with its time stamps.
pub record Encoding : Type 0 where
  pub samples : List ℕ
  pub nsamples : ℕ
  pub samplebytes : ℕ
  pub started : Bool
  pub pts : ℕ
  pub pts_sync : ℕ
  pub pts_offset : ℕ
  pub taken : List ℕ
  pub frames : List (List ℕ × ℕ)
  pub packets : List (ℕ × ℕ)

abbrev pub with_default : Option ℕ → ℕ → ℕ
with_default none d = d
with_default (some n) d = n

-- The time stamp behind a read of `r` frames, `us` microseconds behind the first one; `sync` is what
-- `encoder_pts_sync` returns at the first one.
abbrev pub handle_pts : ℕ → ℕ → ℕ → ℕ → Encoding → Encoding
handle_pts rate r us sync s = record s {
  started = true;
  pts =
      let ahead = s.pts_sync + us * rate / 1000000 in
      let back = r + s.pts_offset in
      if s.started then (if ltb (s.pts + back) ahead then ahead - back else s.pts) else sync;
  pts_sync = if s.started then s.pts_sync else sync;
  pts_offset = if s.started then s.pts_offset else r;
}

abbrev pub convert_with : Option (List ℕ → List ℕ) → List ℕ → List ℕ
convert_with none b = b
convert_with (some f) b = f b

-- `srcbuf` at an offset
abbrev pub source : Setup → Encoding → ℕ → List ℕ
source p s offset = convert_with p.convert (slice offset p.source_size s.samples)

-- Behind the label `drop_audio_frame`
abbrev pub next_frame : Setup → Encoding → Encoding
next_frame p s = record s { nsamples = s.nsamples - p.frame_size; pts = s.pts + p.frame_size }

-- The packet goes to the clients.
abbrev pub send : Option ℕ → Option ℕ → Encoding → Encoding
send pkt_pts coded_pts s = record s {
  packets = s.packets ++ ((with_default pkt_pts s.pts, with_default coded_pts s.pts) ∷ []);
}

-- What the codec's answer comes to: whether the thread goes on, and its variables.
abbrev pub handle_answer : Setup → Answer → Encoding → Bool × Encoding
handle_answer p failed s = (false, s)
handle_answer p no_packet s = (true, next_frame p s)
handle_answer p (packet pp cp false) s = (false, send pp cp s)
handle_answer p (packet pp cp true) s = (true, next_frame p (send pp cp s))

-- One frame is given to the codec.
abbrev pub encode_frame : Setup → (ℕ → Answer) → Encoding → ℕ → Bool × Encoding
encode_frame p answer s offset =
    handle_answer p (answer (length s.frames))
      (record s { frames = s.frames ++ ((source p s offset, s.pts) ∷ []) })

-- The loop over the frames in the block, with fuel for its rounds: whether the thread goes on, its
-- variables, and the offset. `none` means that the fuel ran out.
pub encode_loop : Setup → (ℕ → Answer) → ℕ → Encoding → ℕ → Option (Bool × Encoding × ℕ)
encode_loop p answer zero s offset = none
encode_loop p answer (suc fuel) s offset =
    let (more, s') = encode_frame p answer s offset in
    elim (leb p.frame_size s.nsamples) [
      | false ↦ some (true, s, offset)
      | true ↦ elim more [
        | false ↦ some (false, s', offset)
        | true ↦ encode_loop p answer fuel s' (offset + p.frame_size * p.frameunit)
      ]
    ]

-- What is left moves to the front of the block.
abbrev pub move_rest : Encoding → ℕ → Encoding
move_rest s offset = record s {
  samples =
      if ltb 0 offset
      then blit s.samples 0 (slice offset (s.samplebytes - offset) s.samples)
      else s.samples;
  samplebytes = if ltb 0 offset then s.samplebytes - offset else s.samplebytes;
}

abbrev pub finish_round : Option (Bool × Encoding × ℕ) → Option (Bool × Encoding)
finish_round none = none
finish_round (some (false, s, offset)) = some (false, s)
finish_round (some (true, s, offset)) = some (true, move_rest s offset)

-- The frames read are in the block.
abbrev pub take_in : Setup → ℕ → List ℕ → Encoding → Encoding
take_in p r bytes s = record s {
  samples = blit s.samples s.samplebytes bytes;
  nsamples = s.nsamples + r;
  samplebytes = s.samplebytes + r * p.frameunit;
  taken = s.taken ++ bytes;
}

-- What a round depends on besides the buffer: what the buffer has become when the wait for data ends,
-- the time since the first read, and `encoder_pts_sync`.
pub record Moment : Type 0 where
  pub waited : AudioBuffer → AudioBuffer
  pub elapsed : ℕ
  pub sync : ℕ

-- A round of the thread behind its read. A block holds as many frames as `nsamples`, which is enough
-- fuel with one more for the test that fails.
pub encode_read : Setup → (ℕ → Answer) → Moment → ℕ → List ℕ → Encoding → Option (Bool × Encoding)
encode_read p answer m r bytes s =
    if r == 0
    then some (true, s)
    else finish_round (
        encode_loop p answer (suc (s.nsamples + r))
          (take_in p r bytes (handle_pts p.samplerate r m.elapsed m.sync s)) 0)

-- A round: the audio buffer that it leaves, and whether the thread goes on.
pub round :
    Setup → (ℕ → Answer) → Moment → AudioBuffer × Encoding → Option (Bool × AudioBuffer × Encoding)
round p answer m (ab, s) =
    let (r, bytes, ab') = buffer_read m.waited ab (p.frame_size - s.nsamples) in
    elim (encode_read p answer m r bytes s) [ none ↦ none | some (more, s') ↦ some (more, ab', s') ]

-- The rounds at these moments, up to the first that ends the thread.
pub rounds :
    Setup
    → (ℕ → Answer)
    → List Moment
    → AudioBuffer × Encoding
    → Option (Bool × AudioBuffer × Encoding)
rounds p answer [] (ab, s) = some (true, ab, s)
rounds p answer (m ∷ ms) (ab, s) = elim (round p answer m (ab, s)) [
  | none ↦ none
  | some (false, ab', s') ↦ some (false, ab', s')
  | some (true, ab', s') ↦ rounds p answer ms (ab', s')
]

-- The variables before the first round, on the block that `malloc` returned.
abbrev pub start : List ℕ → Encoding
start block = record {
  samples = block;
  nsamples = 0;
  samplebytes = 0;
  started = false;
  pts = 0;
  pts_sync = 0;
  pts_offset = 0;
  taken = [];
  frames = [];
  packets = [];
}
