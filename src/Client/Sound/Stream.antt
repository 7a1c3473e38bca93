-- ===== src/Client/Sound/Stream.antt =====
-- The sound that SDL gets is the sound of the packets.
use mathlib.Core.Path.{subst}
use gaminganywhere.Base.{
  ℕ, ◌+◌, ◌-◌, ◌≤◌, ◌<◌, ◌≡◌, refl, sym, ap, ◌∙◌, arith, leb, List, [], ◌∷◌, ◌++◌, length, slice,
  Bool-cases, inl, inr, leb→le, append_assoc, append_nil, length-append, slice-append, length-slice,
}
use gaminganywhere.Client.Sound.{
  SoundBuffer, Round, Used, Filled, filled, waits, stopped, out_of_fuel, to_front, use_packet,
  fill_buffer,
}
use gaminganywhere.Client.Sound.Convert.{Libav, SoundConf, Playing, decode_round}
use gaminganywhere.Client.Sound.Convert.Frames.{IsRound, decode_round-agrees}
use gaminganywhere.Client.Sound.Packets.{held, IsValid, Plays, to_front-held, decode_packet-Adds}

module _ {S : Type 0} (IsRound : S → List ℕ → S × Round → Type 0) (abmaxsize fuel ssize : ℕ) where
  -- The sound of a queue: each packet's, one behind the other, which takes at most `fuel` rounds and
  -- fits the buffer behind less than `ssize` held bytes.
  abbrev pub PlaysAll : S → List (List ℕ) → List ℕ → Type 0
  PlaysAll st [] sound = sound ≡ []
  PlaysAll st (pkt ∷ queue) sound =
      (st' : S) × (b : List ℕ) × (rest : List ℕ) × Plays IsRound fuel st pkt st' b
      × (ssize + length b ≤ abmaxsize)
      × PlaysAll st' queue rest
      × (sound ≡ b ++ rest)

  -- What a call of the callback comes to: as many bytes as asked for, in front of the sound that is
  -- left; or all the sound, which is too little, held for the next packet.
  abbrev pub Gives : List ℕ → Filled S → Type 0
  Gives sound (filled out st s queue) =
      (length out ≡ ssize)
      × IsValid abmaxsize s
      × (rest : List ℕ) × PlaysAll st queue rest
      × (sound ≡ out ++ (held s ++ rest))
  Gives sound (waits st s) = (held s ≡ sound) × (length sound < ssize) × IsValid abmaxsize s
  Gives sound stopped = ⊥
  Gives sound out_of_fuel = ⊥

  taken-Gives :
      (st : S) (s : SoundBuffer) (queue : List (List ℕ)) (sound : List ℕ)
      → IsValid abmaxsize s
      → ssize ≤ s.absize - s.abpos
      → PlaysAll st queue sound
      → Gives
          (held s ++ sound)
          (filled (slice s.abpos ssize s.audiobuf) st (record s { abpos = s.abpos + ssize }) queue)
  taken-Gives st s queue sound v enough plays =
      let left = s.absize - (s.abpos + ssize) in
      let out = slice s.abpos ssize s.audiobuf in
      let split : held s ≡ out ++ slice (s.abpos + ssize) left s.audiobuf =
        ap (λ n. slice s.abpos n s.audiobuf) (omega arith)
        ∙ slice-append s.abpos ssize left s.audiobuf in
      (
        length-slice s.abpos ssize s.audiobuf (omega (arith, v.memory, v.inside, v.ordered)),
        record { memory = v.memory; ordered = omega (arith, v.ordered); inside = v.inside },
        sound,
        plays,
        ap (λ l. l ++ sound) split ∙ append_assoc out _ _,
      )

  waits-Gives :
      (st : S) (s : SoundBuffer) (sound : List ℕ)
      → IsValid abmaxsize s
      → s.absize - s.abpos < ssize
      → sound ≡ []
      → Gives (held s ++ sound) (waits st (to_front s))
  waits-Gives st s sound v few none_left =
      let f = to_front-held abmaxsize s v in
      (
        f.1 ∙ sym (append_nil (held s)) ∙ ap (λ l. held s ++ l) (sym none_left),
        omega (arith, few, f.2, length-append (held s) sound, ap length none_left),
        f.0,
      )

module _ {S : Type 0} (round : S → List ℕ → S × Round) (IsRound : S → List ℕ → S × Round → Type 0)
    (agrees : (st : S) (pkt : List ℕ) (r : S × Round) → IsRound st pkt r → round st pkt ≡ r)
    (abmaxsize fuel ssize : ℕ) where
  fill_buffer-Gives :
      (queue : List (List ℕ)) (st : S) (s : SoundBuffer) (sound : List ℕ)
      → IsValid abmaxsize s
      → PlaysAll IsRound abmaxsize fuel ssize st queue sound
      → Gives IsRound abmaxsize fuel ssize
          (held s ++ sound)
          (fill_buffer round abmaxsize fuel queue st s ssize)
  unfolding fill_buffer
  fill_buffer-Gives [] st s sound v plays = elim (Bool-cases (leb ssize (s.absize - s.abpos))) [
    | inl enough ↦
        rw enough
          (taken-Gives IsRound abmaxsize fuel ssize st s [] sound v (leb→le _ _ enough) plays)
    | inr short ↦
        rw short (waits-Gives IsRound abmaxsize fuel ssize st s sound v (ground arith) plays)
  ]
  fill_buffer-Gives (pkt ∷ queue) st s sound v (st', b, rest, one, room, later, e) =
      elim (Bool-cases (leb ssize (s.absize - s.abpos))) [
        | inl enough ↦ rw enough (
            taken-Gives IsRound abmaxsize fuel ssize st s (pkt ∷ queue) sound v (leb→le _ _ enough)
              (st', b, rest, one, room, later, e))
        | inr short ↦
            let few : s.absize - s.abpos < ssize = ground arith in
            let f = to_front-held abmaxsize s v in
            let (t, made, g) =
              decode_packet-Adds round IsRound agrees abmaxsize fuel st (to_front s) pkt st' b one
                f.0 refl (omega (arith, few, room)) in
            let same : held t ++ rest ≡ held s ++ sound =
              ap (λ l. l ++ rest) (g.sound ∙ ap (λ l. l ++ b) f.1)
              ∙ append_assoc (held s) b rest
              ∙ ap (λ l. held s ++ l) (sym e) in
            rw short (
              subst
                (λ (r : Used S).
                  Gives IsRound abmaxsize fuel ssize (held s ++ sound)
                    (use_packet (λ st1 s'. fill_buffer round abmaxsize fuel queue st1 s' ssize) r))
                (sym made)
                (subst
                  (λ l.
                    Gives IsRound abmaxsize fuel ssize l
                      (fill_buffer round abmaxsize fuel queue st' t ssize))
                  same (fill_buffer-Gives queue st' t rest g.valid later)))
      ]

-- audio_fill_buffer gives SDL as many bytes as it asks for, which are the first of the sound that the
-- buffer holds and the packets of the queue play, and leaves the rest of that sound in order, in the
-- buffer and the queue; or it waits for a packet, with all that sound in its buffer, which is less
-- than SDL asks for. It neither exits nor runs on, where each packet is taken, or its decoding fails,
-- within some number of rounds, and its sound fits the buffer behind what SDL asks for. The sound of a
-- frame is its samples where it has the device's format, and what the resampler makes of it otherwise,
-- where the resampler opens and makes as many bytes as `av_samples_get_buffer_size` says, which are
-- not more than those of two seconds, for which `convbuf` has room; where the decoding fails there are 1024 bytes of silence.
pub fill_buffer_refines :
    {D C : Type 0} (lib : Libav D C) (conf : SoundConf) (abmaxsize fuel ssize : ℕ)
    (queue : List (List ℕ)) (p : Playing D C) (s : SoundBuffer) (sound : List ℕ)
    → IsValid abmaxsize s
    → PlaysAll (IsRound lib conf) abmaxsize fuel ssize p queue sound
    → Gives
        (IsRound lib conf)
        abmaxsize
        fuel
        ssize
        (held s ++ sound)
        (fill_buffer (decode_round lib conf) abmaxsize fuel queue p s ssize)
fill_buffer_refines lib conf abmaxsize fuel ssize queue p s sound v plays =
    fill_buffer-Gives (decode_round lib conf) (IsRound lib conf) (decode_round-agrees lib conf)
      abmaxsize fuel ssize queue p s sound v plays
