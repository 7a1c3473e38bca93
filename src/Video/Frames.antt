-- ===== src/Video/Frames.antt =====
-- The buffer of a frame lies in the block that was allocated for it.
use gaminganywhere.Base.{ℕ, ◌+◌, ◌*◌, ◌%◌, ◌<◌, ◌≤◌, ◌≡◌, refl, arith, Option, some, replicate}
use gaminganywhere.Video.{Frame, max_stride, ga_malloc, frame_init, alignment_of}

-- Where `malloc` gives a block, vsource_frame_init makes a frame whose buffer starts at a multiple of 16,
-- lies behind the start of the block, and ends inside it.
pub frame_init-fits :
    (malloc : ℕ → Option ℕ) (width height stride ptr : ℕ)
    → malloc (height * stride + 16) ≡ some ptr
    → (f : Frame) × (frame_init malloc width height stride ≡ some f)
      × (f.imgbuf % 16 ≡ 0)
      × (ptr < f.imgbuf)
      × (f.imgbuf + f.imgbufsize ≤ ptr + (height * stride + 16))
unfolding frame_init ga_malloc
frame_init-fits malloc width height stride ptr given = (
  record {
    linesize = replicate max_stride stride;
    stride = stride;
    imgbufsize = height * stride;
    imgbuf = ptr + alignment_of ptr;
    imgbuf_internal = ptr;
    alignment = alignment_of ptr;
  },
  rw (given, frame_init) refl,
  omega arith,
  omega arith,
  omega arith,
)
