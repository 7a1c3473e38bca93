-- ===== src/Client/Sound/Convert.antt =====
-- A round of the decoding loop of audio_fill_buffer: the decoder, and the conversion of its frame to the
-- format of the device. Sizes are not negative.
pub mod Frames
use gaminganywhere.Base.{
  ℕ, ◌*◌, ◌≤◌, ◌≡◌, refl, sym, ap, ◌∙◌, arith, ltb, ◌==◌, if◌then◌else◌, Bool, true, false, List,
  Option, none, some, length, take, blit, length-blit, length-take, Bool-cases, inl, inr,
}
use gaminganywhere.Client.Sound.{Round, failed, exits, went}

-- What is read of an AVFrame: `samples` are the bytes of `data[0]`, as many as
-- `av_samples_get_buffer_size` gives for the frame.
pub record Frame : Type 0 where
  pub format : ℕ
  pub nb_samples : ℕ
  pub samples : List ℕ

-- An error of the decoder, or the bytes taken and the frame, where there is one.
pub data Decoded : Type 0 where
  error : Decoded
  got : (len : ℕ) (frame : Option Frame) → Decoded

-- libav, with the states of a decoder and of a resampler: `swr_open` is `swr_alloc_set_opts` and
-- `swr_init` for a first frame, `swr_convert` gives the bytes written to `dstplanes[0]` for all
-- the planes of a frame, and
-- `buffer_size` is `av_samples_get_buffer_size` for the channels and the format of the device.
pub record Libav (D C : Type 0) : Type 0 where
  pub decode : D → List ℕ → D × Decoded
  pub swr_open : Frame → Option C
  pub swr_convert : C → Frame → C × List ℕ
  pub buffer_size : ℕ → ℕ
  pub malloc : ℕ → Option (List ℕ)

pub record SoundConf : Type 0 where
  pub audio_device_format : ℕ
  pub audio_samplerate : ℕ

-- The static variables `swrctx`, `convbuf` and `max_decoder_size`.
pub record Converter (C : Type 0) : Type 0 where
  pub swrctx : Option C
  pub convbuf : List ℕ
  pub max_decoder_size : ℕ

pub record Playing (D C : Type 0) : Type 0 where
  pub decoder : D
  pub converter : Converter C

module _ {D C : Type 0} (lib : Libav D C) (conf : SoundConf) where
  -- `max_decoder_size`: room for two seconds
  abbrev pub two_seconds : ℕ
  two_seconds = lib.buffer_size (conf.audio_samplerate * 2)

  abbrev pub with_convbuf : C → Option (List ℕ) → Option (Converter C)
  with_convbuf c none = none
  with_convbuf c (some b) =
      some (record { swrctx = some c; convbuf = b; max_decoder_size = two_seconds })

  abbrev pub with_swr : Option C → Option (Converter C)
  with_swr none = none
  with_swr (some c) = with_convbuf c (lib.malloc two_seconds)

  -- Behind `swrctx == NULL`; none is `exit(-1)`.
  abbrev pub opened : Converter C → Option C → Frame → Option (Converter C)
  opened v none frame = with_swr (lib.swr_open frame)
  opened v (some c) frame = some v

  -- `swr_convert`, with the bytes of `convbuf` that are used
  abbrev pub converted : Converter C → ℕ → C × List ℕ → Converter C × List ℕ
  converted v datalen (c, out) =
      let b = blit v.convbuf 0 out in (record v { swrctx = some c; convbuf = b }, take datalen b)

  abbrev pub convert_with : Converter C → Option C → Frame → Option (Converter C × List ℕ)
  convert_with v none frame = none
  convert_with v (some c) frame =
      if ltb v.max_decoder_size (lib.buffer_size frame.nb_samples)
      then none
      else some (converted v (lib.buffer_size frame.nb_samples) (lib.swr_convert c frame))

  abbrev pub convert_opened : Option (Converter C) → Frame → Option (Converter C × List ℕ)
  convert_opened none frame = none
  convert_opened (some v) frame = convert_with v v.swrctx frame

  -- `srcbuf` and its `datalen` bytes
  pub frame_bytes : Converter C → Frame → Option (Converter C × List ℕ)
  frame_bytes v frame =
      if frame.format == conf.audio_device_format
      then some (v, frame.samples)
      else convert_opened (opened v v.swrctx frame) frame

  abbrev pub use_bytes : D → Converter C → ℕ → Option (Converter C × List ℕ) → Playing D C × Round
  use_bytes d v len none = (record { decoder = d; converter = v }, exits)
  use_bytes d v len (some (v', b)) = (record { decoder = d; converter = v' }, went len (some b))

  abbrev pub use_decoded : Converter C → D × Decoded → Playing D C × Round
  use_decoded v (d, error) = (record { decoder = d; converter = v }, failed)
  use_decoded v (d, got len none) = (record { decoder = d; converter = v }, went len none)
  use_decoded v (d, got len (some frame)) = use_bytes d v len (frame_bytes v frame)

  pub decode_round : Playing D C → List ℕ → Playing D C × Round
  decode_round p pkt = use_decoded p.converter (lib.decode p.decoder pkt)
