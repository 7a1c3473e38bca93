-- ===== src/Video/Tests.antt =====
-- The setup of two channels, and a frame.
use gaminganywhere.Base.{
  ℕ, ◌+◌, ◌*◌, ◌%◌, ◌<◌, ◌≤◌, ◌≡◌, refl, true, List, [], ◌∷◌, Option, none, some, length, replicate,
}
use gaminganywhere.Conf.Maps.{Bytes, eqb, find, assign}
use gaminganywhere.Pipeline.Registry.{do_register}
use gaminganywhere.Video.{
  Frame, Config, Answers, Source, frame_init, ga_malloc, init_frames, setup_channel, setup_loop,
  setup_ex,
}
use gaminganywhere.Video.Frames.{frame_init-fits}
use gaminganywhere.Video.Setup.{IsSource, AllChannels, setup_ex-AllChannels}

abbrev block : ℕ → Option ℕ
block n = some 1000

frame_init-fits_example :
    (f : Frame) × (frame_init block 64 48 256 ≡ some f)
    × (f.imgbuf % 16 ≡ 0)
    × (1000 < f.imgbuf)
    × (f.imgbuf + f.imgbufsize ≤ 1000 + (48 * 256 + 16))
frame_init-fits_example = frame_init-fits block 64 48 256 1000 refl

abbrev config : Config
config = record { width = 64; height = 48; stride = 256 }

abbrev answers : ℕ → Answers
answers p = record { pipe = p; privdata = true; datapool = true; frames = block ∷ block ∷ [] }

abbrev none_yet : Source
none_yet = record {
  channels = 0;
  width = replicate 8 0;
  height = replicate 8 0;
  stride = replicate 8 0;
  pipe = replicate 8 none;
  registry = record { pipelinemap = []; named = [] };
  privdata = [];
}

abbrev two : List (Config × Answers)
two = (config, answers 7) ∷ (config, answers 9) ∷ []

abbrev name : ℕ → Bytes
name i = b'v' ∷ i ∷ []

none_yet-IsSource : IsSource none_yet
none_yet-IsSource = record { widths = refl; heights = refl; strides = refl; pipes = refl }

two_succeed : (setup_ex name two none_yet).0 ≡ true
unfolding setup_ex setup_loop setup_channel init_frames frame_init ga_malloc do_register find assign
    eqb
two_succeed = refl

setup_ex-AllChannels_example :
    ((setup_ex name two none_yet).1.channels ≡ length two)
    × AllChannels name 0 two (setup_ex name two none_yet).1
setup_ex-AllChannels_example = setup_ex-AllChannels name two none_yet none_yet-IsSource two_succeed
