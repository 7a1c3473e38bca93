-- ===== src/Client/Sound/Convert/Frames.antt =====
-- The sound of a frame, in the format of the device, and what a round of the decoding is.
use gaminganywhere.Base.{
  ℕ, ◌≤◌, ◌≡◌, ◌≢◌, ◌⊎◌, inl, inr, sym, ap, ◌∙◌, arith, ltb, ◌==◌, if◌then◌else◌, true, false, List,
  none, some, length, take, blit, slice-blit_self,
}
use gaminganywhere.Client.Sound.{Round, failed, went}
use gaminganywhere.Client.Sound.Convert.{
  Frame, Decoded, error, got, Libav, SoundConf, Converter, Playing, two_seconds, opened, with_swr,
  with_convbuf, converted, convert_with, convert_opened, frame_bytes, use_bytes, use_decoded,
  decode_round,
}

module _ {D C : Type 0} (lib : Libav D C) (conf : SoundConf) where
  -- `w` has the resampler `c`: the one that there was, or the one opened for a first frame, with room
  -- for two seconds of sound.
  abbrev pub Ready : Converter C → Frame → Converter C → C → Type 0
  Ready v frame w c =
      ((v.swrctx ≡ some c) × (w ≡ v))
      ⊎ ((v.swrctx ≡ none)
          × (lib.swr_open frame ≡ some c)
          × (b : List ℕ) × (lib.malloc (two_seconds lib conf) ≡ some b)
          × (w ≡ record { swrctx = some c; convbuf = b; max_decoder_size = two_seconds lib conf }))

  -- What the resampler makes of a frame
  abbrev pub Resampled : Converter C → Frame → Converter C → C → C → List ℕ → Type 0
  Resampled w frame v' c c' b =
      (lib.swr_convert c frame ≡ (c', b))
      × (length b ≡ lib.buffer_size frame.nb_samples)
      × (lib.buffer_size frame.nb_samples ≤ w.max_decoder_size)
      × (w.max_decoder_size ≤ length w.convbuf)
      × (v' ≡ record w { swrctx = some c'; convbuf = blit w.convbuf 0 b })

  -- The sound of a frame, with the converter before and after it.
  abbrev pub FrameSound : Converter C → Frame → Converter C → List ℕ → Type 0
  FrameSound v frame v' b =
      ((frame.format ≡ conf.audio_device_format) × (v' ≡ v) × (b ≡ frame.samples))
      ⊎ ((frame.format ≢ conf.audio_device_format)
          × (w : Converter C) × (c : C) × (c' : C) × Ready v frame w c
          × Resampled w frame v' c c' b)

  -- What a round is, over what the decoder answers.
  abbrev pub IsRoundOf : Converter C → D × Decoded → Playing D C × Round → Type 0
  IsRoundOf v (d, error) r = r ≡ (record { decoder = d; converter = v }, failed)
  IsRoundOf v (d, got len none) r = r ≡ (record { decoder = d; converter = v }, went len none)
  IsRoundOf v (d, got len (some frame)) r =
      (v' : Converter C) × (b : List ℕ) × FrameSound v frame v' b
      × (r ≡ (record { decoder = d; converter = v' }, went len (some b)))

  abbrev pub IsRound : Playing D C → List ℕ → Playing D C × Round → Type 0
  IsRound p pkt r = IsRoundOf p.converter (lib.decode p.decoder pkt) r

  opened-Ready :
      (v w : Converter C) (frame : Frame) (c : C)
      → Ready v frame w c
      → opened lib conf v v.swrctx frame ≡ some w
  opened-Ready v w frame c (inl (open_, e)) =
      ap (λ k. opened lib conf v k frame) open_ ∙ ap some (sym e)
  opened-Ready v w frame c (inr (shut, opens, b, made, e)) =
      ap (λ k. opened lib conf v k frame) shut
      ∙ ap (with_swr lib conf) opens
      ∙ ap (with_convbuf lib conf c) made
      ∙ ap some (sym e)

  Ready-swrctx : (v w : Converter C) (frame : Frame) (c : C) → Ready v frame w c → w.swrctx ≡ some c
  Ready-swrctx v w frame c (inl (open_, e)) = ap (λ (k : Converter C). k.swrctx) e ∙ open_
  Ready-swrctx v w frame c (inr (shut, opens, b, made, e)) = ap (λ (k : Converter C). k.swrctx) e

  convert_with-Resampled :
      (w v' : Converter C) (frame : Frame) (c c' : C) (b : List ℕ)
      → Resampled w frame v' c c' b
      → convert_with lib conf w (some c) frame ≡ some (v', b)
  convert_with-Resampled w v' frame c c' b (out, long, small, room, e) =
      let n = lib.buffer_size frame.nb_samples in
      let test : ltb w.max_decoder_size n ≡ false = ground arith in
      let whole : take n (blit w.convbuf 0 b) ≡ b =
        ap (λ k. take k (blit w.convbuf 0 b)) (sym long)
        ∙ slice-blit_self w.convbuf 0 b (omega (arith, long, small, room)) in
      ap (λ t. if t then none else some (converted lib conf w n (lib.swr_convert c frame))) test
      ∙ ap (λ r. some (converted lib conf w n r)) out
      ∙ (λ i. some (sym e i, whole i))

  frame_bytes-FrameSound :
      (v v' : Converter C) (frame : Frame) (b : List ℕ)
      → FrameSound v frame v' b
      → frame_bytes lib conf v frame ≡ some (v', b)
  unfolding frame_bytes
  frame_bytes-FrameSound v v' frame b (inl (same, e, eb)) =
      let test : (frame.format == conf.audio_device_format) ≡ true = ground arith in
      ap
        (λ t.
          if t
          then some (v, frame.samples)
          else convert_opened lib conf (opened lib conf v v.swrctx frame) frame)
        test
      ∙ (λ i. some (sym e i, sym eb i))
  frame_bytes-FrameSound v v' frame b (inr (other, w, c, c', ready, made)) =
      let test : (frame.format == conf.audio_device_format) ≡ false = ground arith in
      ap
        (λ t.
          if t
          then some (v, frame.samples)
          else convert_opened lib conf (opened lib conf v v.swrctx frame) frame)
        test
      ∙ ap (λ k. convert_opened lib conf k frame) (opened-Ready v w frame c ready)
      ∙ ap (λ k. convert_with lib conf w k frame) (Ready-swrctx v w frame c ready)
      ∙ convert_with-Resampled w v' frame c c' b made

  decoded-agrees :
      (v : Converter C) (x : D × Decoded) (r : Playing D C × Round)
      → IsRoundOf v x r
      → use_decoded lib conf v x ≡ r
  decoded-agrees v (d, error) r e = sym e
  decoded-agrees v (d, got len none) r e = sym e
  decoded-agrees v (d, got len (some frame)) r (v', b, h, e) =
      ap (use_bytes lib conf d v len) (frame_bytes-FrameSound v v' frame b h) ∙ sym e

  pub decode_round-agrees :
      (p : Playing D C) (pkt : List ℕ) (r : Playing D C × Round)
      → IsRound p pkt r
      → decode_round lib conf p pkt ≡ r
  unfolding decode_round
  decode_round-agrees p pkt r h = decoded-agrees p.converter (lib.decode p.decoder pkt) r h
