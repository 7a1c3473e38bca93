-- ===== src/Modules/FilterRgb2yuv/Tests.antt =====
-- The theorems on the filter at an image of two by two pixels, and at pipelines of one buffer.
use gaminganywhere.Base.{◌≡◌, [], ◌∷◌, some}
use gaminganywhere.Pipeline.Pool.{Pool, empty, store_data}
use gaminganywhere.Pipeline.Pool.Refine.{Holds, store_refines, empty-Holds}
use gaminganywhere.Modules.Image.{rgba, Image}
use gaminganywhere.Modules.EncoderVideo
use gaminganywhere.Modules.EncoderVideo.{picture}
use gaminganywhere.Modules.FilterRgb2yuv.{Setup, Filter, round}
use gaminganywhere.Modules.FilterRgb2yuv.Rounds.{Filtered, at_once, oldest, filter_refines}

abbrev two_by_two : Setup
two_by_two = record { iwidth = 2; iheight = 2; scale = λ i. (1 ∷ 2 ∷ 3 ∷ 4 ∷ [], 5 ∷ [], 6 ∷ []) }

abbrev codec : EncoderVideo.Setup
codec = record { linesize = 2 ∷ 1 ∷ 1 ∷ []; pic_in_size = 6; scale = λ i. i.imgbuf }

abbrev captured : Image
captured = record {
  imgpts = 8;
  imgtype = rgba;
  linesize = 8 ∷ 0 ∷ 0 ∷ 0 ∷ [];
  stride = 8;
  imgbuf = [];
}

abbrev blank : Image
blank = record {
  imgpts = 0;
  imgtype = rgba;
  linesize = 8 ∷ 8 ∷ 8 ∷ 8 ∷ [];
  stride = 8;
  imgbuf = 0 ∷ 0 ∷ 0 ∷ 0 ∷ 0 ∷ 0 ∷ 0 ∷ 0 ∷ [];
}

abbrev full : Pool
full = store_data empty 1

full-Holds : Holds full [] (1 ∷ [])
full-Holds = store_refines 1 [] [] tt empty-Holds

abbrev filter : Filter
filter = record {
  srcpool = full;
  srcimages = λ n. captured;
  dstpool = full;
  dstimages = λ n. blank;
}

filter_refines_example :
    (t : Filter) × (round two_by_two (λ s. s) filter ≡ some t)
    × Filtered two_by_two filter 1 1 [] [] [] [] t
filter_refines_example =
    filter_refines two_by_two (λ s. s) filter [] [] [] [] (at_once full-Holds) (oldest full-Holds)
