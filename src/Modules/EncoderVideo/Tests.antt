-- ===== src/Modules/EncoderVideo/Tests.antt =====
-- The theorem on the video encoder at a pipeline of two buffers, of which one holds an image.
use gaminganywhere.Base.{ℕ, ◌+◌, true, [], ◌∷◌, none, arith}
use gaminganywhere.Pipeline.Pool.{Pool, store_data}
use gaminganywhere.Pipeline.Pool.Refine.{Holds, store_refines, release_refines, empty-Holds}
use gaminganywhere.Pipeline.Pool.{empty, release_data}
use gaminganywhere.Modules.Image.{yuv420p, Image}
use gaminganywhere.Modules.EncoderVideo.{Setup, packet, start, Moment, round}
use gaminganywhere.Modules.EncoderVideo.Stamps.{IsRising}
use gaminganywhere.Modules.EncoderVideo.Rounds.{take_waited, Agrees, round_refines}

abbrev small : Setup
small = record { linesize = 2 ∷ 1 ∷ 1 ∷ []; pic_in_size = 3; scale = λ i. i.imgbuf }

abbrev gray : ℕ → Image
gray n = record {
  imgpts = 5 + n;
  imgtype = yuv420p;
  linesize = 2 ∷ 1 ∷ 1 ∷ 0 ∷ [];
  stride = 8;
  imgbuf = n ∷ n ∷ n ∷ n ∷ [];
}

abbrev moment : Moment
moment = record { waited = λ s. none; answer = packet none true; sync = 9 }

abbrev one_stored : Pool
one_stored = store_data (release_data empty 1) 2

one_stored-Holds : Holds one_stored (1 ∷ []) (2 ∷ [])
one_stored-Holds = store_refines 2 (1 ∷ []) [] (ground arith) (release_refines 1 tt empty-Holds)

round_refines_example :
    Agrees small gray moment
      (round small gray moment one_stored start)
      (take_waited small gray moment (1 ∷ [], 2 ∷ []) none start)
    × IsRising (round small gray moment one_stored start).2
round_refines_example =
    round_refines small gray moment (1 ∷ []) (2 ∷ []) none start one_stored-Holds tt (omega arith)
