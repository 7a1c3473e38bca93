-- ===== src/Client/Sound.antt =====
-- audio_fill_buffer of ga/client/rtspclient.cpp: the callback that gives SDL its sound, from a buffer
-- that is filled from the packet queue. The decoder and the resampler of libav are parameters, with a
-- state of their own; the conversion to the device's format around them is Client/Sound/Convert. The
-- buffer is the list of its `abmaxsize` bytes, whose `malloc` succeeds; what would be written behind its
-- end is not written. Where the queue is empty the callback waits.
pub mod Convert
pub mod Packets
pub mod Stream
mod Tests
use gaminganywhere.Base.{
  ℕ, zero, suc, ◌+◌, ◌-◌, ◌==◌, ltb, leb, if◌then◌else◌, List, [], ◌∷◌, Option, none, some, length,
  slice, blit, replicate, take, drop,
}

-- The static variables of the callback.
pub record SoundBuffer : Type 0 where
  pub audiobuf : List ℕ
  pub absize : ℕ
  pub abpos : ℕ

-- A round of the loop over a packet: the decoder fails, the program exits, or the bytes taken and the
-- sound of a frame in the device's format, where the decoder got one.
pub data Round : Type 0 where
  failed exits : Round
  went : (len : ℕ) (sound : Option (List ℕ)) → Round

-- What the loop over a packet comes to, with the state of libav.
pub data Used (S : Type 0) : Type 0 where
  used : (st : S) (s : SoundBuffer) → Used S
  exited unfinished : Used S

-- The bytes for SDL, with the buffer and the packets that are left; or the buffer of a callback that
-- waits; or `exit(-1)`.
pub data Filled (S : Type 0) : Type 0 where
  filled : (out : List ℕ) (st : S) (s : SoundBuffer) (queue : List (List ℕ)) → Filled S
  waits : (st : S) (s : SoundBuffer) → Filled S
  stopped out_of_fuel : Filled S

-- The held bytes move to the front.
abbrev pub to_front : SoundBuffer → SoundBuffer
to_front s = record {
  audiobuf = blit s.audiobuf 0 (slice s.abpos (s.absize - s.abpos) s.audiobuf);
  absize = s.absize - s.abpos;
  abpos = 0;
}

-- At the label `fill_silence`
abbrev pub fill_silence : SoundBuffer → SoundBuffer
fill_silence s = record s {
  audiobuf = blit s.audiobuf s.absize (replicate 1024 0);
  absize = s.absize + 1024;
}

-- `datalen`, cut to what the buffer has room for
abbrev pub datalen_for : ℕ → SoundBuffer → ℕ → ℕ
datalen_for abmaxsize s datalen =
    if ltb abmaxsize (s.absize + datalen)
    then datalen - (s.absize + datalen - abmaxsize)
    else datalen

abbrev pub add_sound : ℕ → SoundBuffer → List ℕ → SoundBuffer
add_sound abmaxsize s b =
    let datalen = datalen_for abmaxsize s (length b) in
    record s { audiobuf = blit s.audiobuf s.absize (take datalen b); absize = s.absize + datalen }

abbrev pub add_frame : ℕ → SoundBuffer → Option (List ℕ) → SoundBuffer
add_frame abmaxsize s none = s
add_frame abmaxsize s (some b) = add_sound abmaxsize s b

-- Behind the round at the front of a packet, where `next` are the rounds behind it.
abbrev pub use_round :
    {S : Type 0}
    → ℕ
    → (S → SoundBuffer → List ℕ → Used S)
    → SoundBuffer
    → List ℕ
    → S × Round
    → Used S
use_round abmaxsize next s pkt (st, failed) = used st (fill_silence s)
use_round abmaxsize next s pkt (st, exits) = exited
use_round abmaxsize next s pkt (st, went len sound) =
    next st (add_frame abmaxsize s sound) (drop len pkt)

-- Behind the loop over a packet: again.
abbrev pub use_packet : {S : Type 0} → (S → SoundBuffer → Filled S) → Used S → Filled S
use_packet again (used st s) = again st s
use_packet again exited = stopped
use_packet again unfinished = out_of_fuel

module _ {S : Type 0} (round : S → List ℕ → S × Round) (abmaxsize : ℕ) where
  -- The loop over a packet, for so many rounds.
  pub decode_packet : ℕ → S → SoundBuffer → List ℕ → Used S
  decode_packet n st s [] = used st s
  decode_packet zero st s (b ∷ pkt) = unfinished
  decode_packet (suc n) st s (b ∷ pkt) =
      use_round abmaxsize (decode_packet n) s (b ∷ pkt) (round st (b ∷ pkt))

  -- From the label `again` on, over the packets in the queue, with `fuel` rounds for each.
  pub fill_buffer : ℕ → List (List ℕ) → S → SoundBuffer → ℕ → Filled S
  fill_buffer fuel [] st s ssize =
      if leb ssize (s.absize - s.abpos)
      then filled (slice s.abpos ssize s.audiobuf) st (record s { abpos = s.abpos + ssize }) []
      else waits st (to_front s)
  fill_buffer fuel (pkt ∷ queue) st s ssize =
      let next : Filled S =
        use_packet (λ st' s'. fill_buffer fuel queue st' s' ssize)
          (decode_packet fuel st (to_front s) pkt) in
      if leb ssize (s.absize - s.abpos)
      then filled (slice s.abpos ssize s.audiobuf) st (record s { abpos = s.abpos + ssize })
          (pkt ∷ queue)
      else next
