-- ===== src/Modules/FilterRgb2yuv/Planes.antt =====
-- An image from the filter to the video encoder.
use gaminganywhere.Base.{
  ℕ, ◌+◌, ◌*◌, ◌/◌, ◌≤◌, ◌≡◌, refl, sym, ap, ◌∙◌, arith, List, [], ◌∷◌, ◌++◌, true, some, length,
  blit, slice, take, slice-blit_self, slice-blit_next, length-blit, append_assoc,
}
use native.Mathlib.Nat.{mul_comm}
use mathlib.Core.Path.{subst}
use gaminganywhere.Modules.Image.{rgba, Image}
use gaminganywhere.Modules.EncoderVideo
use gaminganywhere.Modules.EncoderVideo.{same_lines, picture}
use gaminganywhere.Modules.FilterRgb2yuv.{
  Setup, pic_size, second_plane, third_plane, copy_planes, convert_to, convert,
}

-- Three neighbouring blocks, copied one after the other, read back as one.
three_blocks :
    (buf a b c : List ℕ) (i j : ℕ)
    → length a ≡ i
    → i + length b ≡ j
    → j + length c ≤ length buf
    → take (j + length c) (blit (blit (blit buf 0 a) i b) j c) ≡ a ++ (b ++ c)
three_blocks buf a b c i j ea eb fits =
    let front = blit buf 0 a in
    let middle = blit front i b in
    let long : length middle ≡ length buf = length-blit front i b ∙ length-blit buf 0 a in
    let first : slice 0 i front ≡ a =
      ap (λ n. slice 0 n front) (sym ea) ∙ slice-blit_self buf 0 a (omega arith) in
    let second : slice 0 j middle ≡ a ++ b =
      ap (λ n. slice 0 n middle) (sym eb)
      ∙ slice-blit_next front i b (omega (arith, length-blit buf 0 a))
      ∙ ap (λ l. l ++ b) first in
    slice-blit_next middle j c (omega (arith, long)) ∙ ap (λ l. l ++ c) second ∙ append_assoc a b c

-- The planes of a picture that `sws_scale` makes have the sizes of YUV 4:2:0.
pub record Fits (p : Setup) (planes : List ℕ × List ℕ × List ℕ) : Type 0 where
  pub luma : length planes.0 ≡ p.iwidth * p.iheight
  pub first_chroma : length planes.1 ≡ p.iwidth * p.iheight / 4
  pub second_chroma : length planes.2 ≡ p.iwidth * p.iheight / 4

-- An image that the filter has converted is the codec's picture: the three planes of the image, each
-- whole, with its time stamp; where the planes have their sizes, the buffer has room for them, and the
-- codec's picture has the filter's lines and size.
pub convert-picture :
    (p : Setup) (e : EncoderVideo.Setup) (src dst : Image)
    → src.imgtype ≡ rgba
    → Fits p (p.scale src)
    → pic_size p ≤ length dst.imgbuf
    → e.linesize ≡ p.iwidth ∷ p.iwidth / 2 ∷ p.iwidth / 2 ∷ []
    → e.pic_in_size ≡ pic_size p
    → let image = convert p src dst in
      (picture e image image.imgtype
        ≡ some ((p.scale src).0 ++ ((p.scale src).1 ++ (p.scale src).2)))
      × (image.imgpts ≡ src.imgpts)
unfolding convert
convert-picture p e src dst typed fits room lines size =
    let (y, u, v) = p.scale src in
    let turned : p.iheight * p.iwidth ≡ p.iwidth * p.iheight = mul_comm p.iheight p.iwidth in
    let chroma : p.iheight * p.iwidth / 4 ≡ p.iwidth * p.iheight / 4 = ap (λ n. n / 4) turned in
    let end : third_plane p + length v ≡ e.pic_in_size =
      omega (arith, fits.second_chroma, size, turned, chroma) in
    let bytes : take e.pic_in_size (copy_planes p (p.scale src) dst.imgbuf) ≡ y ++ (u ++ v) =
      ap (λ n. take n (copy_planes p (p.scale src) dst.imgbuf)) (sym end)
      ∙ three_blocks dst.imgbuf y u v (second_plane p) (third_plane p) (fits.luma ∙ sym turned)
          (omega (arith, fits.first_chroma, turned, chroma)) (omega (arith, end, size)) in
    let same : same_lines e.linesize (p.iwidth ∷ p.iwidth / 2 ∷ p.iwidth / 2 ∷ 0 ∷ []) ≡ true =
      rw lines (ground arith) in
    subst
      (λ (image : Image).
        (picture e image image.imgtype ≡ some (y ++ (u ++ v))) × (image.imgpts ≡ src.imgpts))
      (ap (λ t. convert_to p t src dst) (sym typed)) (rw same (ap some bytes), refl)
