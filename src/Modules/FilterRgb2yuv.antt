-- ===== src/Modules/FilterRgb2yuv.antt =====
-- filter_RGB2YUV_threadproc of ga/module/filter-rgb2yuv/filter-rgb2yuv.cpp: an image is taken from one
-- pipeline, converted into a buffer of the other, and stored there. `sws_scale` is a parameter, which
-- gives the three planes of an image; what other threads do with the source's pool while this one waits
-- is a function.
pub mod Planes
pub mod Rounds
mod Tests
use gaminganywhere.Base.{
  ℕ, ◌+◌, ◌*◌, ◌/◌, List, [], ◌∷◌, Option, none, some, blit, get_or, set, take,
}
use gaminganywhere.Pipeline.Pool.{Ptr, Pool, load_data, allocate_data, store_data, release_data}
use gaminganywhere.Pipeline.Pool.Transit.{put}
use gaminganywhere.Modules.Image.{ImageType, rgba, yuv420p, Image}

pub record Setup : Type 0 where
  pub iwidth : ℕ
  pub iheight : ℕ
  pub scale : Image → List ℕ × List ℕ × List ℕ

abbrev pub pic_size : Setup → ℕ
pic_size p = p.iwidth * p.iheight + p.iwidth * p.iheight / 4 + p.iwidth * p.iheight / 4

-- `dst[1]` and `dst[2]`
abbrev pub second_plane : Setup → ℕ
second_plane p = p.iheight * p.iwidth

abbrev pub third_plane : Setup → ℕ
third_plane p = p.iheight * p.iwidth + p.iheight * p.iwidth / 4

-- The planes go to their places in `imgbuf`.
abbrev pub copy_planes : Setup → List ℕ × List ℕ × List ℕ → List ℕ → List ℕ
copy_planes p (y, u, v) buf = blit (blit (blit buf 0 y) (second_plane p) u) (third_plane p) v

-- What the image `src` makes of the buffer `dst`.
abbrev pub convert_to : Setup → ImageType → Image → Image → Image
convert_to p rgba src dst = record dst {
  imgpts = src.imgpts;
  imgtype = yuv420p;
  linesize = p.iwidth ∷ p.iwidth / 2 ∷ p.iwidth / 2 ∷ 0 ∷ [];
  imgbuf = copy_planes p (p.scale src) dst.imgbuf;
}
convert_to p yuv420p src dst = record dst {
  imgpts = src.imgpts;
  imgtype = yuv420p;
  linesize =
      set (set (set dst.linesize 0 (get_or src.linesize 0 0)) 1 (get_or src.linesize 1 0)) 2
        (get_or src.linesize 2 0);
  imgbuf = blit dst.imgbuf 0 (take (pic_size p) src.imgbuf);
}

unfoldable pub convert : Setup → Image → Image → Image
convert p src dst = convert_to p src.imgtype src dst

-- The two pools and the contents of their buffers.
pub record Filter : Type 0 where
  pub srcpool : Pool
  pub srcimages : ℕ → Image
  pub dstpool : Pool
  pub dstimages : ℕ → Image

-- The round of the loaded buffer `x` with the allocated buffer `y`.
abbrev pub filter_into : Setup → Filter → ℕ → ℕ × Pool → Filter
filter_into p s x (y, dstpool) = record s {
  srcpool = release_data s.srcpool x;
  dstpool = store_data dstpool y;
  dstimages = put s.dstimages y (convert p (s.srcimages x) (s.dstimages y));
}

abbrev pub filter_allocated : Setup → Filter → ℕ → Option (ℕ × Pool) → Option Filter
filter_allocated p s x none = none
filter_allocated p s x (some d) = some (filter_into p s x d)

-- `none` is the `exit(-1)` for a buffer that is missing.
abbrev pub filter_loaded : Setup → Filter → Ptr × Pool → Option Filter
filter_loaded p s (none, srcpool) = none
filter_loaded p s (some x, srcpool) =
    filter_allocated p (record s { srcpool = srcpool }) x (allocate_data s.dstpool)

abbrev pub filter_next : Setup → (Pool → Pool) → Filter → Ptr × Pool → Option Filter
filter_next p waited s (none, srcpool) = filter_loaded p s (load_data (waited srcpool))
filter_next p waited s (some x, srcpool) = filter_loaded p s (some x, srcpool)

-- A round of the thread.
pub round : Setup → (Pool → Pool) → Filter → Option Filter
round p waited s = filter_next p waited s (load_data s.srcpool)
