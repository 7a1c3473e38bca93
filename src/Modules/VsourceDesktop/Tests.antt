-- ===== src/Modules/VsourceDesktop/Tests.antt =====
-- The theorem on a shot's way to the codec, at a screen of two by two pixels.
use gaminganywhere.Base.{refl, none, true, [], ◌∷◌, arith}
use gaminganywhere.Pipeline.Pool.{Pool, empty, release_data}
use gaminganywhere.Pipeline.Pool.Refine.{Holds, release_refines, empty-Holds}
use gaminganywhere.Modules.Image.{rgba, Image}
use gaminganywhere.Modules.FilterRgb2yuv
use gaminganywhere.Modules.FilterRgb2yuv.{Filter}
use gaminganywhere.Modules.EncoderVideo
use gaminganywhere.Modules.EncoderVideo.{packet}
use gaminganywhere.Modules.VsourceDesktop.{Shot, Source, capture}
use gaminganywhere.Modules.VsourceDesktop.Through.{Encoded, shot-Encoded}

abbrev two_by_two : FilterRgb2yuv.Setup
two_by_two = record { iwidth = 2; iheight = 2; scale = λ i. (i.imgbuf, 5 ∷ [], 6 ∷ []) }

abbrev codec : EncoderVideo.Setup
codec = record { linesize = 2 ∷ 1 ∷ 1 ∷ []; pic_in_size = 6; scale = λ i. i.imgbuf }

abbrev moment : EncoderVideo.Moment
moment = record { waited = λ s. none; answer = packet none true; sync = 9 }

abbrev gray : Shot
gray = record { elapsed = 100000; pixels = 1 ∷ 2 ∷ 3 ∷ 4 ∷ [] }

abbrev small : Image
small = record {
  imgpts = 0;
  imgtype = rgba;
  linesize = 2 ∷ 2 ∷ 2 ∷ 2 ∷ [];
  stride = 2;
  imgbuf = 0 ∷ 0 ∷ 0 ∷ 0 ∷ [];
}

abbrev large : Image
large = record small { imgbuf = 0 ∷ 0 ∷ 0 ∷ 0 ∷ 0 ∷ 0 ∷ 0 ∷ 0 ∷ [] }

abbrev one_free : Pool
one_free = release_data empty 1

one_free-Holds : Holds one_free (1 ∷ []) []
one_free-Holds = release_refines 1 tt empty-Holds

abbrev source : Source
source = record { pool = one_free; images = λ n. small }

abbrev filter : Filter
filter = record {
  srcpool = one_free;
  srcimages = λ n. small;
  dstpool = one_free;
  dstimages = λ n. large;
}

shot-Encoded_example : Encoded 24 gray two_by_two codec moment source 1 [] filter 1 []
unfolding capture
shot-Encoded_example =
    shot-Encoded 24 gray two_by_two codec moment source filter [] [] one_free-Holds one_free-Holds
      (record { luma = refl; first_chroma = refl; second_chroma = refl }) (omega arith) refl refl
