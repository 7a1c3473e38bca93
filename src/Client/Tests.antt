-- ===== src/Client/Tests.antt =====
-- The theorem on the assembly of video frames at a frame with a marker and one that lost it.
use gaminganywhere.Base.{◌≡◌, refl, List, [], ◌∷◌, ◌++◌, true, false, arith}
use gaminganywhere.Client.Assembly.{TimeVal, DecoderBuffer, flush, play_all}
use gaminganywhere.Client.Assembly.Frames.{Frame, AllFrames, all_packets, played, play_all-frames}

abbrev first_time : TimeVal
first_time = record { tv_sec = 1; tv_usec = 0 }

abbrev second_time : TimeVal
second_time = record { tv_sec = 1; tv_usec = 40000 }

abbrev new_decoder : DecoderBuffer
new_decoder = record { privbuf = []; lastpts = record { tv_sec = 0; tv_usec = 0 } }

abbrev two_frames : List Frame
two_frames =
    record { pts = first_time; front = (10 ∷ 11 ∷ []) ∷ []; last = 12 ∷ []; marked = true }
    ∷ record { pts = second_time; front = (20 ∷ []) ∷ []; last = 21 ∷ 22 ∷ []; marked = false }
    ∷ []

two_frames-AllFrames : AllFrames new_decoder.lastpts two_frames
two_frames-AllFrames = (
  refl,
  record { bytes = (ground arith, ground arith); fits = ground arith },
  (refl, record { bytes = (ground arith, ground arith); fits = ground arith }, tt),
)

play_all-frames_example :
    (play_all new_decoder (all_packets two_frames)).0
      ++ flush (play_all new_decoder (all_packets two_frames)).1
    ≡ flush new_decoder ++ played two_frames
play_all-frames_example = play_all-frames new_decoder two_frames two_frames-AllFrames
