-- ===== src/Modules/EncoderAudio/Tests.antt =====
-- The theorem on the audio encoder at a codec with frames of two samples of one byte.
use gaminganywhere.Base.{ℕ, refl, true, List, [], ◌∷◌, none, ◌==◌, if◌then◌else◌, arith}
use gaminganywhere.Audio.Buffer.{AudioBuffer}
use gaminganywhere.Modules.EncoderAudio.{Setup, Answer, no_packet, packet, Moment, rounds, start}
use gaminganywhere.Modules.EncoderAudio.Run.{Ran, rounds-cuts}

abbrev pairs : Setup
pairs = record { frame_size = 2; frameunit = 1; source_size = 2; samplerate = 1000; convert = none }

abbrev answers : ℕ → Answer
answers n = if n == 0 then no_packet else packet none none true

abbrev three_held : AudioBuffer
three_held = record {
  buf_pts = 0;
  frames = 4;
  channels = 1;
  bitspersample = 8;
  bufsize = 4;
  bufhead = 0;
  buftail = 3;
  bframes = 3;
  buffer = 1 ∷ 2 ∷ 3 ∷ 0 ∷ [];
}

abbrev at : ℕ → Moment
at us = record { waited = λ b. b; elapsed = us; sync = 7 }

abbrev three_rounds : List Moment
three_rounds = at 0 ∷ at 5000 ∷ at 6000 ∷ []

rounds-cuts_example : Ran pairs (rounds pairs answers three_rounds (three_held, start (0 ∷ 0 ∷ [])))
rounds-cuts_example =
    rounds-cuts pairs answers three_rounds three_held (0 ∷ 0 ∷ []) (omega arith) refl refl
      (record {
        whole = refl;
        memory = refl;
        ordered = omega arith;
        inside = omega arith;
        counted = omega arith;
      })
      (λ b v. v, (λ b v. v, (λ b v. v, tt)))
