-- ===== src/Client/Sound/Tests.antt =====
-- The theorem on the sound callback at a decoder that takes one byte for each frame: the frame of byte 1
-- has the device's format, and that of another byte is resampled.
use gaminganywhere.Base.{
  ℕ, ◌+◌, ◌*◌, ◌==◌, refl, inl, inr, if◌then◌else◌, ◌++◌, List, [], ◌∷◌, none, some, arith,
  replicate,
}
use gaminganywhere.Client.Sound.{SoundBuffer, went, fill_buffer}
use gaminganywhere.Client.Sound.Convert.{
  Frame, Decoded, error, got, Libav, SoundConf, Converter, Playing, decode_round,
}
use gaminganywhere.Client.Sound.Convert.Frames.{IsRound}
use gaminganywhere.Client.Sound.Packets.{held, Plays}
use gaminganywhere.Client.Sound.Stream.{PlaysAll, Gives, fill_buffer_refines}

abbrev frame_of : ℕ → Frame
frame_of b = record { format = if b == 1 then 7 else 8; nb_samples = 1; samples = b ∷ b ∷ [] }

-- The states count the frames.
abbrev take_byte : ℕ → List ℕ → ℕ × Decoded
take_byte d [] = (d, error)
take_byte d (b ∷ pkt) = (d + 1, got 1 (some (frame_of b)))

abbrev libav : Libav ℕ ℕ
libav = record {
  decode = take_byte;
  swr_open = λ f. some 0;
  swr_convert = λ c f. (c + 1, 5 ∷ 6 ∷ []);
  buffer_size = λ n. n * 2;
  malloc = λ n. some (replicate n 0);
}

abbrev conf : SoundConf
conf = record { audio_device_format = 7; audio_samplerate = 1 }

abbrev unopened : Converter ℕ
unopened = record { swrctx = none; convbuf = []; max_decoder_size = 0 }

abbrev opened_first : Converter ℕ
opened_first = record { swrctx = some 0; convbuf = 0 ∷ 0 ∷ 0 ∷ 0 ∷ []; max_decoder_size = 4 }

abbrev opened_after : Converter ℕ
opened_after = record { swrctx = some 1; convbuf = 5 ∷ 6 ∷ 0 ∷ 0 ∷ []; max_decoder_size = 4 }

abbrev playing : Playing ℕ ℕ
playing = record { decoder = 0; converter = unopened }

abbrev one_held : SoundBuffer
one_held = record { audiobuf = 9 ∷ 0 ∷ 0 ∷ 0 ∷ 0 ∷ 0 ∷ 0 ∷ 0 ∷ []; absize = 1; abpos = 0 }

abbrev queue : List (List ℕ)
queue = (1 ∷ 2 ∷ []) ∷ []

abbrev sound : List ℕ
sound = 1 ∷ 1 ∷ 5 ∷ 6 ∷ []

second :
    Plays
      (IsRound libav conf)
      1
      (record { decoder = 1; converter = unopened })
      (2 ∷ [])
      (record { decoder = 2; converter = opened_after })
      (5 ∷ 6 ∷ [])
second = (
  (record { decoder = 2; converter = opened_after }, went 1 (some (5 ∷ 6 ∷ []))),
  (
    opened_after,
    5 ∷ 6 ∷ [],
    inr (
      (λ e. omega (arith, e)),
      opened_first,
      0,
      1,
      inr (refl, refl, 0 ∷ 0 ∷ 0 ∷ 0 ∷ [], refl, refl),
      (refl, refl, omega arith, omega arith, refl),
    ),
    refl,
  ),
  ([], (refl, refl), refl),
)

queue-plays : PlaysAll (IsRound libav conf) 8 2 4 playing queue sound
queue-plays = (
  record { decoder = 2; converter = opened_after },
  sound,
  [],
  (
    (record { decoder = 1; converter = unopened }, went 1 (some (1 ∷ 1 ∷ []))),
    (unopened, 1 ∷ 1 ∷ [], inl (refl, refl, refl), refl),
    (5 ∷ 6 ∷ [], second, refl),
  ),
  omega arith,
  refl,
  refl,
)

fill_buffer_refines_example :
    Gives
      (IsRound libav conf)
      8
      2
      4
      (held one_held ++ sound)
      (fill_buffer (decode_round libav conf) 8 2 queue playing one_held 4)
fill_buffer_refines_example =
    fill_buffer_refines libav conf 8 2 4 queue playing one_held sound
      (record { memory = refl; ordered = omega arith; inside = omega arith }) queue-plays
