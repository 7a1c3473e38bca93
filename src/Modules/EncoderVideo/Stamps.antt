-- ===== src/Modules/EncoderVideo/Stamps.antt =====
-- The time stamps of the pictures that the video encoder gives to its codec.
use gaminganywhere.Base.{
  ℕ, suc, ◌≤◌, ◌≡◌, refl, ap, ◌∙◌, arith, List, [], ◌∷◌, ◌++◌, Option, none, some,
}
use gaminganywhere.Modules.Image.{Image}
use gaminganywhere.Modules.EncoderVideo.{
  Setup, Answer, failed, no_packet, packet, Encoding, start, handle_pts, picture, next_pts,
  handle_answer, encode_picture, encode_image,
}

-- The time stamps rise, from `from` on, and stay below `end`.
abbrev pub Rising : ℕ → List (List ℕ × ℕ) → ℕ → Type 0
Rising from [] end = from ≤ end
Rising from ((b, t) ∷ fs) end = (from ≤ t) × Rising (suc t) fs end

Rising-snoc :
    (from : ℕ) (fs : List (List ℕ × ℕ)) (b : List ℕ) (end t : ℕ)
    → Rising from fs end
    → end ≤ t
    → Rising from (fs ++ ((b, t) ∷ [])) (suc t)
Rising-snoc from [] b end t h le = (omega arith, omega arith)
Rising-snoc from ((c, u) ∷ fs) b end t h le = (h.0, Rising-snoc (suc u) fs b end t h.1 le)

-- The first time stamp that is still free.
abbrev pub next : Option ℕ → ℕ
next none = 0
next (some pts) = suc pts

next_pts-free : (pts : Option ℕ) (newpts : ℕ) → next pts ≤ next_pts pts newpts
next_pts-free none newpts = omega arith
next_pts-free (some pts) newpts = ground arith

abbrev pub IsRising : Encoding → Type 0
IsRising s = Rising 0 s.pictures (next s.pts)

handle_answer-IsRising :
    (a : Answer) (pts : ℕ) (s : Encoding) → IsRising s → IsRising (handle_answer a pts s).1
handle_answer-IsRising failed pts s h = h
handle_answer-IsRising no_packet pts s h = h
handle_answer-IsRising (packet pkt_pts sent) pts s h = h

encode_picture-IsRising :
    (a : Answer) (pic : Option (List ℕ)) (newpts : ℕ) (s : Encoding)
    → IsRising s
    → IsRising (encode_picture a pic newpts s).1
encode_picture-IsRising a none newpts s h = h
encode_picture-IsRising a (some pic) newpts s h =
    handle_answer-IsRising a (next_pts s.pts newpts) _ (
      Rising-snoc 0 s.pictures pic (next s.pts) (next_pts s.pts newpts) h
        (next_pts-free s.pts newpts))

handle_pts-IsRising :
    (sync imgpts : ℕ) (s : Encoding) (base : Option ℕ)
    → s.base_pts ≡ base
    → IsRising s
    → IsRising (handle_pts sync imgpts s).1
handle_pts-IsRising sync imgpts s none e h = rw e h
handle_pts-IsRising sync imgpts s (some b) e h = rw e h

pub encode_image-IsRising :
    (p : Setup) (a : Answer) (sync : ℕ) (image : Image) (s : Encoding)
    → IsRising s
    → IsRising (encode_image p a sync image s).1
unfolding encode_image
encode_image-IsRising p a sync image s h =
    let (newpts, s') = handle_pts sync image.imgpts s in
    encode_picture-IsRising a (picture p image image.imgtype) newpts s'
      (handle_pts-IsRising sync image.imgpts s s.base_pts refl h)

handle_answer-pictures :
    (a : Answer) (pts : ℕ) (s : Encoding) → (handle_answer a pts s).1.pictures ≡ s.pictures
handle_answer-pictures failed pts s = refl
handle_answer-pictures no_packet pts s = refl
handle_answer-pictures (packet pkt_pts sent) pts s = refl

-- The first picture has the time stamp of `encoder_pts_sync`.
pub encode_image-start :
    (p : Setup) (a : Answer) (sync : ℕ) (image : Image) (pic : List ℕ)
    → picture p image image.imgtype ≡ some pic
    → (encode_image p a sync image start).1.pictures ≡ (pic, sync) ∷ []
unfolding encode_image
encode_image-start p a sync image pic e =
    ap (λ o. (encode_picture a o sync (handle_pts sync image.imgpts start).1).1.pictures) e
    ∙ handle_answer-pictures a sync _
