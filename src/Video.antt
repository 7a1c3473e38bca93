-- ===== src/Video.antt =====
-- The video source's setup, of ga/core/vsource.cpp, with ga_malloc of ga/core/ga-common.cpp: the frames
-- of a channel's pipeline, and video_source_setup_ex. Addresses are numbers. What `malloc` and `new`
-- answer is a record for each channel; the name that `snprintf` makes of the format is a parameter.
pub mod Frames
pub mod Setup
mod Tests
use gaminganywhere.Base.{
  ℕ, zero, suc, ◌+◌, ◌-◌, ◌*◌, ◌%◌, ltb, ◌==◌, if◌then◌else◌, Bool, true, false, List, [], ◌∷◌,
  Option, none, some, length, set, get_elem?, replicate,
}
use gaminganywhere.Conf.Maps.{Bytes}
use gaminganywhere.Pipeline.Registry.{Registry, do_register}

-- IMAGE_SOURCE_CHANNEL_MAX
abbrev pub channel_max : ℕ
channel_max = 8

-- MAX_STRIDE
abbrev pub max_stride : ℕ
max_stride = 4

-- `struct vsource_frame`
pub record Frame : Type 0 where
  pub linesize : List ℕ
  pub stride : ℕ
  pub imgbufsize : ℕ
  pub imgbuf : ℕ
  pub imgbuf_internal : ℕ
  pub alignment : ℕ

-- The alignment for what `malloc(size + 16)` returned.
abbrev pub alignment_of : ℕ → ℕ
alignment_of ptr = 16 - ptr % 16

-- The pointer and the alignment, or none for -1.
unfoldable pub ga_malloc : (ℕ → Option ℕ) → ℕ → Option (ℕ × ℕ)
ga_malloc malloc size = elim (malloc (size + 16)) [
  | none ↦ none
  | some ptr ↦ some (ptr, alignment_of ptr)
]

unfoldable pub frame_init : (ℕ → Option ℕ) → ℕ → ℕ → ℕ → Option Frame
frame_init malloc width height stride = elim (ga_malloc malloc (height * stride)) [
  | none ↦ none
  | some (ptr, alignment) ↦ some (record {
    linesize = replicate max_stride stride;
    stride = stride;
    imgbufsize = height * stride;
    imgbuf = ptr + alignment;
    imgbuf_internal = ptr;
    alignment = alignment;
  })
]

-- The pointer that is freed.
unfoldable pub frame_release : Option Frame → List ℕ
frame_release none = []
frame_release (some f) = f.imgbuf ∷ []

pub record Config : Type 0 where
  pub width : ℕ
  pub height : ℕ
  pub stride : ℕ

-- What the calls for a channel answer: the new pipeline, alloc_privdata, datapool_init, and `malloc`
-- for each frame of the pool.
pub record Answers : Type 0 where
  pub pipe : ℕ
  pub privdata : Bool
  pub datapool : Bool
  pub frames : List (ℕ → Option ℕ)

-- The globals, and the registry of the pipelines.
pub record Source : Type 0 where
  pub channels : ℕ
  pub width : List ℕ
  pub height : List ℕ
  pub stride : List ℕ
  pub pipe : List (Option ℕ)
  pub registry : Registry
  -- The configurations copied to the pipelines' private data, with their ids, the last one first.
  pub privdata : List (ℕ × ℕ × Config)

abbrev pub is_made : Option Frame → Bool → Bool
is_made none rest = false
is_made (some f) rest = rest

-- The loop over the frames of the pool.
unfoldable pub init_frames : Config → List (ℕ → Option ℕ) → Bool
init_frames c [] = true
init_frames c (malloc ∷ ms) =
    let rest = init_frames c ms in is_made (frame_init malloc c.width c.height c.stride) rest

-- The globals of channel `idx` are set.
abbrev pub with_channel : ℕ → Config → ℕ → Source → Source
with_channel idx c pipe s = record s {
  width = set s.width idx c.width;
  height = set s.height idx c.height;
  stride = set s.stride idx c.stride;
  pipe = set s.pipe idx (some pipe);
}

-- `config[idx].id = idx;` and `set_privdata`
abbrev pub with_privdata : ℕ → Config → ℕ → Source → Source
with_privdata idx c pipe s = record s { privdata = (pipe, idx, c) ∷ s.privdata }

-- `delete gPipe[idx]; gPipe[idx] = NULL;`
abbrev pub without_pipe : ℕ → Source → Source
without_pipe idx s = record s { pipe = set s.pipe idx none }

abbrev pub register_channel : Source → Bytes → ℕ → Bool × Source
register_channel s name pipe =
    let (ok, r) = do_register s.registry name pipe in (ok, record s { registry = r })

unfoldable pub setup_channel : (ℕ → Bytes) → ℕ → Config → Answers → Source → Bool × Source
setup_channel name idx c a s =
    let t = with_channel idx c a.pipe s in
    let u = with_privdata idx c a.pipe t in
    if a.privdata
    then (if a.datapool
        then (if init_frames c a.frames then register_channel u (name idx) a.pipe else (false, u))
        else (false, without_pipe idx u))
    else (false, without_pipe idx t)

-- The loop, over the configurations with what is answered for them.
unfoldable pub setup_loop : (ℕ → Bytes) → ℕ → List (Config × Answers) → Source → Bool × Source
setup_loop name idx [] s = (true, s)
setup_loop name idx ((c, a) ∷ cs) s =
    let (ok, t) = setup_channel name idx c a s in
    let rest = setup_loop name (idx + 1) cs t in if ok then rest else (false, t)

abbrev pub finish_setup : ℕ → Bool × Source → Bool × Source
finish_setup n (false, s) = (false, s)
finish_setup n (true, s) = (true, record s { channels = n })

-- A null `config` or no configuration is the empty list.
unfoldable pub setup_ex : (ℕ → Bytes) → List (Config × Answers) → Source → Bool × Source
setup_ex name cs s =
    if length cs == 0
    then (false, s)
    else if ltb channel_max (length cs)
    then (false, s)
    else finish_setup (length cs) (setup_loop name 0 cs s)

-- `video_source_setup`: one channel
unfoldable pub setup_one : (ℕ → Bytes) → Config → Answers → Source → Bool × Source
setup_one name c a s = setup_ex name ((c, a) ∷ []) s

unfoldable pub channels : Source → ℕ
channels s = s.channels

-- The getters read the arrays; none is a read behind them.
unfoldable pub channel_width : Source → ℕ → Option ℕ
channel_width s channel = get_elem? s.width channel

unfoldable pub channel_height : Source → ℕ → Option ℕ
channel_height s channel = get_elem? s.height channel

unfoldable pub channel_stride : Source → ℕ → Option ℕ
channel_stride s channel = get_elem? s.stride channel
