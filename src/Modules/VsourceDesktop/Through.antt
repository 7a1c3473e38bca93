-- ===== src/Modules/VsourceDesktop/Through.antt =====
-- An image on its way from the screen through the filter to the video encoder's codec.
use gaminganywhere.Base.{
  ℕ, ◌/◌, ◌≤◌, ◌≡◌, refl, ap, ◌∙◌, arith, true, List, [], ◌∷◌, ◌++◌, some, length,
}
use gaminganywhere.Pipeline.Pool.Refine.{Holds, store_refines}
use gaminganywhere.Pipeline.Pool.Transit.{put}
use gaminganywhere.Modules.FilterRgb2yuv
use gaminganywhere.Modules.FilterRgb2yuv.{Filter, convert, pic_size}
use gaminganywhere.Modules.FilterRgb2yuv.Planes.{Fits, convert-picture}
use gaminganywhere.Modules.FilterRgb2yuv.Rounds.{
  Filtered, Takes, free_one, Takes-allocates, at_once,
}
use gaminganywhere.Modules.FilterRgb2yuv.Rounds as FilterRounds
use gaminganywhere.Modules.EncoderVideo
use gaminganywhere.Modules.EncoderVideo.{Answer, no_packet, Encoding, start, picture, encode_image}
use gaminganywhere.Modules.EncoderVideo.Stamps.{encode_image-start}
use gaminganywhere.Modules.EncoderVideo.Rounds as EncoderRounds
use gaminganywhere.Modules.VsourceDesktop.{Shot, Source, capture, capture_into, round}

put_self : {A : Type 0} (c : ℕ → A) (x : ℕ) (a : A) → put c x a x ≡ a
put_self c x a = ground arith

-- The shot is in `x`, at the end of the queue.
pub record Captured (video_fps : ℕ) (shot : Shot) (s : Source) (x : ℕ) (free queue : List ℕ)
    (t : Source) : Type 0 where
  pub pool : Holds t.pool free (queue ++ (x ∷ []))
  pub images : t.images ≡ put s.images x (capture video_fps shot (s.images x))

-- A round of the capture takes a free buffer, or else the oldest of the queue.
pub round-captures :
    (video_fps : ℕ) (shot : Shot) (s : Source) {x : ℕ} (free queue : List ℕ)
    → Takes s.pool x queue free
    → (t : Source) × (round video_fps true shot s ≡ some t)
      × Captured video_fps shot s x free queue t
unfolding round
round-captures video_fps shot s {x} free queue takes =
    let (d, made, held, outside) = Takes-allocates takes in
    (
      _,
      ap (capture_into video_fps shot s.images) made,
      record { pool = store_refines x free queue outside held; images = refl },
    )

-- What the first shot comes to: the three threads in turn.
pub record Encoded (video_fps : ℕ) (shot : Shot) (p : FilterRgb2yuv.Setup) (e : EncoderVideo.Setup)
    (m : EncoderVideo.Moment) (s : Source) (x : ℕ) (free : List ℕ) (f : Filter) (y : ℕ)
    (dstfree : List ℕ) : Type 0 where
  pub captured : Source
  pub captures : round video_fps true shot s ≡ some captured
  pub filtered : Filter
  pub filters :
      FilterRgb2yuv.round p
        (λ pool. pool)
        (record f { srcpool = captured.pool; srcimages = captured.images })
      ≡ some filtered
  pub pictures :
      (EncoderVideo.round e filtered.dstimages m filtered.dstpool start).2.pictures
      ≡ (
        (p.scale (capture video_fps shot (s.images x))).0
            ++ ((p.scale (capture video_fps shot (s.images x))).1
                ++ (p.scale (capture video_fps shot (s.images x))).2),
        m.sync,
      )
        ∷ []
  pub source : Holds filtered.srcpool (x ∷ free) []
  pub destination :
      Holds (EncoderVideo.round e filtered.dstimages m filtered.dstpool start).1 (y ∷ dstfree) []

-- A shot that is captured into an empty pipeline, converted by the filter and taken by the video
-- encoder reaches the codec as its three planes, whole, with the first time stamp; both pipelines are
-- empty again, with all their buffers free. The planes of the shot have their sizes, the buffer of the
-- filter has room for them, and the codec's picture has the filter's lines and size.
pub shot-Encoded :
    (video_fps : ℕ) (shot : Shot) (p : FilterRgb2yuv.Setup) (e : EncoderVideo.Setup)
    (m : EncoderVideo.Moment) (s : Source) (f : Filter) {x y : ℕ} (free dstfree : List ℕ)
    → Holds s.pool (x ∷ free) []
    → Holds f.dstpool (y ∷ dstfree) []
    → Fits p (p.scale (capture video_fps shot (s.images x)))
    → pic_size p ≤ length (f.dstimages y).imgbuf
    → e.linesize ≡ p.iwidth ∷ p.iwidth / 2 ∷ p.iwidth / 2 ∷ []
    → e.pic_in_size ≡ pic_size p
    → Encoded video_fps shot p e m s x free f y dstfree
unfolding capture
shot-Encoded video_fps shot p e m s f {x} {y} free dstfree h d fits room lines size =
    let (captured, captures, c) = round-captures video_fps shot s free [] (free_one h) in
    let f' : Filter = record f { srcpool = captured.pool; srcimages = captured.images } in
    let (filtered, filters, g) =
      FilterRounds.filter_refines p (λ pool. pool) f' free [] dstfree [] (at_once c.pool)
        (free_one d) in
    let first : captured.images x ≡ capture video_fps shot (s.images x) =
      ap (λ i. i x) c.images ∙ put_self s.images x (capture video_fps shot (s.images x)) in
    let second : filtered.dstimages y
        ≡ convert p (capture video_fps shot (s.images x)) (f.dstimages y) =
      ap (λ i. i y) g.images
      ∙ put_self f.dstimages y (convert p (captured.images x) (f.dstimages y))
      ∙ ap (λ i. convert p i (f.dstimages y)) first in
    let pic =
      convert-picture p e (capture video_fps shot (s.images x)) (f.dstimages y) refl fits room lines
        size in
    let agrees = EncoderRounds.round-oldest e filtered.dstimages m dstfree [] start g.destination in
    record {
      captured = captured;
      captures = captures;
      filtered = filtered;
      filters = filters;
      pictures =
          ap (λ (r : Encoding). r.pictures) agrees.encoding
          ∙ ap (λ i. (encode_image e m.answer m.sync i start).1.pictures) second
          ∙ encode_image-start e m.answer m.sync _ _ pic.0;
      source = g.source;
      destination = agrees.pool;
    }
