-- ===== src/Modules/EncoderVideo.antt =====
-- vencoder_threadproc of ga/module/encoder-video/encoder-video.cpp: images are taken from a pipeline,
-- brought into the codec's picture, given a time stamp and encoded. Outside the source are the codec,
-- `sws_scale`, and what other threads do with the pool while this one waits. Time stamps are natural
-- numbers, with none for -1; a `newpts` below 0 counts as 0, which gives the same `pts`.
pub mod Stamps
pub mod Rounds
mod Tests
use gaminganywhere.Base.{
  ℕ, suc, ◌+◌, ◌-◌, ◌==◌, ltb, if◌then◌else◌, ◌&&◌, Bool, true, false, List, [], ◌∷◌, ◌++◌, Option,
  none, some, get_or, take,
}
use gaminganywhere.Pipeline.Pool.{Ptr, Pool, load_data, release_data}
use gaminganywhere.Modules.Image.{ImageType, rgba, yuv420p, Image}

-- `linesize` and the size of the codec's picture, and `sws_scale` of an image to it.
pub record Setup : Type 0 where
  pub linesize : List ℕ
  pub pic_in_size : ℕ
  pub scale : Image → List ℕ

-- What `avcodec_encode_video2` does: an error, no packet, or a packet, which may have a time stamp and
-- which `encoder_send_packet_all` sends or fails to send.
pub data Answer : Type 0 where
  failed : Answer
  no_packet : Answer
  packet : (pkt_pts : Option ℕ) (sent : Bool) → Answer

-- The variables of the thread, with the pictures given to the codec, each with its time stamp, and the
-- time stamps of the packets given to `encoder_send_packet_all`.
pub record Encoding : Type 0 where
  pub base_pts : Option ℕ
  pub pts_sync : ℕ
  pub pts : Option ℕ
  pub pictures : List (List ℕ × ℕ)
  pub packets : List ℕ

abbrev pub start : Encoding
start = record { base_pts = none; pts_sync = 0; pts = none; pictures = []; packets = [] }

-- `newpts`; `sync` is what `encoder_pts_sync` returns at the first image.
abbrev pub new_pts : Option ℕ → ℕ → ℕ → ℕ → ℕ
new_pts none pts_sync sync imgpts = sync
new_pts (some base) pts_sync sync imgpts = (pts_sync + imgpts) - base

-- The time stamps at an image.
abbrev pub handle_pts : ℕ → ℕ → Encoding → ℕ × Encoding
handle_pts sync imgpts s = (
  new_pts s.base_pts s.pts_sync sync imgpts,
  elim s.base_pts [ none ↦ record s { base_pts = some imgpts; pts_sync = sync } | some base ↦ s ],
)

abbrev pub same_lines : List ℕ → List ℕ → Bool
same_lines a b =
    get_or a 0 0 == get_or b 0 0 && (get_or a 1 0 == get_or b 1 0 && get_or a 2 0 == get_or b 2 0)

-- The picture that an image becomes; none where its lines are not those of the codec's picture.
abbrev pub picture : Setup → Image → ImageType → Option (List ℕ)
picture p image rgba = some (p.scale image)
picture p image yuv420p =
    if same_lines p.linesize image.linesize then some (take p.pic_in_size image.imgbuf) else none

-- `pts` must be monotonically increasing.
abbrev pub next_pts : Option ℕ → ℕ → ℕ
next_pts none newpts = newpts
next_pts (some pts) newpts = if ltb pts newpts then newpts else suc pts

abbrev pub with_default : Option ℕ → ℕ → ℕ
with_default none d = d
with_default (some n) d = n

-- What the codec's answer comes to: whether the thread goes on, and its variables.
abbrev pub handle_answer : Answer → ℕ → Encoding → Bool × Encoding
handle_answer failed pts s = (false, s)
handle_answer no_packet pts s = (true, s)
handle_answer (packet pkt_pts sent) pts s =
    (sent, record s { packets = s.packets ++ (with_default pkt_pts pts ∷ []) })

abbrev pub encode_picture : Answer → Option (List ℕ) → ℕ → Encoding → Bool × Encoding
encode_picture a none newpts s = (false, s)
encode_picture a (some pic) newpts s =
    let pts = next_pts s.pts newpts in
    handle_answer a pts (record s { pts = some pts; pictures = s.pictures ++ ((pic, pts) ∷ []) })

-- The round of an image: whether the thread goes on, and its variables.
pub encode_image : Setup → Answer → ℕ → Image → Encoding → Bool × Encoding
encode_image p a sync image s =
    let (newpts, s') = handle_pts sync image.imgpts s in
    encode_picture a (picture p image image.imgtype) newpts s'

-- What a round depends on besides the pool: `waited` is what the pool has become when `timedwait`
-- returns, none where it times out; the codec's answer; and `encoder_pts_sync`.
pub record Moment : Type 0 where
  pub waited : Pool → Option Pool
  pub answer : Answer
  pub sync : ℕ

-- The image of a buffer is encoded and the buffer is released, on every branch. Without a buffer the
-- round is over.
abbrev pub encode_loaded :
    Setup → (ℕ → Image) → Moment → Ptr × Pool → Encoding → Bool × Pool × Encoding
encode_loaded p images m (none, pool) s = (true, pool, s)
encode_loaded p images m (some d, pool) s =
    let (more, s') = encode_image p m.answer m.sync (images d) s in (more, release_data pool d, s')

-- Behind the wait.
abbrev pub encode_waited :
    Setup → (ℕ → Image) → Moment → Pool → Option Pool → Encoding → Bool × Pool × Encoding
encode_waited p images m pool none s = (true, pool, s)
encode_waited p images m pool (some pool') s = encode_loaded p images m (load_data pool') s

-- Behind the first load.
abbrev pub encode_next :
    Setup → (ℕ → Image) → Moment → Ptr × Pool → Encoding → Bool × Pool × Encoding
encode_next p images m (none, pool) s = encode_waited p images m pool (m.waited pool) s
encode_next p images m (some d, pool) s = encode_loaded p images m (some d, pool) s

-- A round of the thread on its pool, where `images` is what the buffers hold.
pub round : Setup → (ℕ → Image) → Moment → Pool → Encoding → Bool × Pool × Encoding
round p images m pool s = encode_next p images m (load_data pool) s
