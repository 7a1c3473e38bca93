-- ===== src/Modules/VsourceDesktop.antt =====
-- vsource_threadproc of ga/module/vsource-desktop/vsource-desktop.cpp: while an encoder runs, the screen
-- is captured into a buffer of the pipeline and stored. There is one source (SOURCES is 1), so nothing
-- is duplicated. What the capture of a platform writes is a parameter; the times are microseconds since
-- the thread began.
pub mod Through
mod Tests
use gaminganywhere.Base.{ℕ, ◌+◌, ◌/◌, Bool, true, false, List, Option, none, some, blit, set}
use gaminganywhere.Pipeline.Pool.{Pool, allocate_data, store_data}
use gaminganywhere.Pipeline.Pool.Transit.{put}
use gaminganywhere.Modules.Image.{rgba, Image}

-- In microseconds.
abbrev pub frame_interval : ℕ → ℕ
frame_interval video_fps = 1000000 / video_fps + 1

-- What is captured, and when.
pub record Shot : Type 0 where
  pub elapsed : ℕ
  pub pixels : List ℕ

-- The buffer with the shot in it.
unfoldable pub capture : ℕ → Shot → Image → Image
capture video_fps shot frame = record frame {
  imgtype = rgba;
  linesize = set frame.linesize 0 frame.stride;
  imgbuf = blit frame.imgbuf 0 shot.pixels;
  imgpts = shot.elapsed / frame_interval video_fps;
}

-- The pool and the contents of its buffers.
pub record Source : Type 0 where
  pub pool : Pool
  pub images : ℕ → Image

abbrev pub capture_into : ℕ → Shot → (ℕ → Image) → Option (ℕ × Pool) → Option Source
capture_into video_fps shot images none = none
capture_into video_fps shot images (some (x, pool)) =
    some (record {
      pool = store_data pool x;
      images = put images x (capture video_fps shot (images x));
    })

-- A round of the thread; none is the `exit(-1)` of `allocate_data`.
pub round : ℕ → (encoder_running : Bool) → Shot → Source → Option Source
round video_fps false shot s = some s
round video_fps true shot s = capture_into video_fps shot s.images (allocate_data s.pool)
