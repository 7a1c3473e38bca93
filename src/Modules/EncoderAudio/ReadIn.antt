-- ===== src/Modules/EncoderAudio/ReadIn.antt =====
-- The block of the audio encoder after a read.
use native.Mathlib.Nat.{mul-le-mul_right}
use gaminganywhere.Base.{
  ℕ, ◌+◌, ◌*◌, ◌≤◌, ◌<◌, ◌≡◌, sym, ap, ◌∙◌, arith, List, ◌++◌, length, slice, blit, append_assoc,
  length-append, slice-blit_next, length-blit, length-slice,
}
use gaminganywhere.Modules.EncoderAudio.{Setup, Encoding, handle_pts, take_in, Moment}
use gaminganywhere.Modules.EncoderAudio.Cuts.{concat, Cut, Holds, Spaced-later, handle_pts-grows}

abbrev pub read_in : Setup → Moment → ℕ → List ℕ → Encoding → Encoding
read_in p m r bytes s = take_in p r bytes (handle_pts p.samplerate r m.elapsed m.sync s)

module _ (p : Setup) (m : Moment) (r : ℕ) (bytes : List ℕ) (whole : length bytes ≡ r * p.frameunit)
    (s : Encoding) (rest : List ℕ) (cut : Cut p s rest) (holds : Holds p s rest) where
  pub read_in-Cut : Cut p (read_in p m r bytes s) (rest ++ bytes)
  read_in-Cut = record {
    chunks = cut.chunks;
    fed = cut.fed;
    whole_frames = cut.whole_frames;
    in_order = ap (λ l. l ++ bytes) cut.in_order ∙ append_assoc (concat cut.chunks) rest bytes;
    until = cut.until;
    timed = cut.timed;
  }

  pub read_in-held :
      s.nsamples + r ≤ p.frame_size
      → (slice 0 (s.samplebytes + r * p.frameunit) (blit s.samples s.samplebytes bytes)
          ≡ rest ++ bytes)
        × (s.samplebytes + r * p.frameunit ≡ (s.nsamples + r) * p.frameunit)
  read_in-held fits =
      let count : s.samplebytes + r * p.frameunit ≡ (s.nsamples + r) * p.frameunit =
        grind (arith, holds.counted) in
      let room : (s.nsamples + r) * p.frameunit ≤ p.frame_size * p.frameunit =
        mul-le-mul_right p.frameunit fits in
      (
        ap (λ k. slice 0 (s.samplebytes + k) (blit s.samples s.samplebytes bytes)) (sym whole)
            ∙ slice-blit_next s.samples s.samplebytes bytes
                (omega (arith, whole, count, room, holds.memory))
            ∙ ap (λ l. l ++ bytes) holds.held,
        count,
      )

  pub read_in-Holds :
      s.nsamples + r < p.frame_size → Holds p (read_in p m r bytes s) (rest ++ bytes)
  read_in-Holds short =
      let (held, count) = read_in-held (omega arith) in
      record {
        held = held;
        below = short;
        counted = count;
        memory = length-blit s.samples s.samplebytes bytes ∙ holds.memory;
        spaced =
            Spaced-later p.frame_size 0 s.frames s.pts _ holds.spaced
              (handle_pts-grows p.samplerate r m.elapsed m.sync s holds.idle);
        idle = λ e. cc;
      }

  pub read_in-whole :
      s.nsamples + r ≡ p.frame_size
      → (slice 0 (p.frame_size * p.frameunit) (read_in p m r bytes s).samples ≡ rest ++ bytes)
        × (length (rest ++ bytes) ≡ p.frame_size * p.frameunit)
  read_in-whole full =
      let (held, count) = read_in-held (omega arith) in
      let all : s.samplebytes + r * p.frameunit ≡ p.frame_size * p.frameunit =
        count ∙ ap (λ n. n * p.frameunit) full in
      let long : length rest ≡ s.samplebytes =
        ap length (sym holds.held)
        ∙ length-slice 0 s.samplebytes s.samples (omega (arith, all, holds.memory)) in
      (
        ap (λ n. slice 0 n (blit s.samples s.samplebytes bytes)) (sym all) ∙ held,
        omega (arith, length-append rest bytes, whole, all, long),
      )
