-- ===== src/Client/Sound/Packets.antt =====
-- The sound of a packet, and how it gets into the buffer.
use mathlib.Core.Path.{ap₂, subst}
use gaminganywhere.Base.{
  ℕ, zero, suc, ◌+◌, ◌-◌, ◌≤◌, ◌≡◌, refl, sym, ap, ◌∙◌, arith, List, [], ◌∷◌, ◌++◌, Option, none,
  some, length, slice, blit, replicate, take, drop, append_assoc, append_nil, length-append,
  slice-blit_self, slice-blit_next, length-blit, length-replicate, length-slice, take_all,
}
use gaminganywhere.Client.Sound.{
  SoundBuffer, Round, failed, exits, went, Used, used, to_front, fill_silence, datalen_for,
  add_frame, use_round, decode_packet,
}

-- The bytes that are still to be given to SDL.
abbrev pub held : SoundBuffer → List ℕ
held s = slice s.abpos (s.absize - s.abpos) s.audiobuf

pub record IsValid (abmaxsize : ℕ) (s : SoundBuffer) : Type 0 where
  pub memory : length s.audiobuf ≡ abmaxsize
  pub ordered : s.abpos ≤ s.absize
  pub inside : s.absize ≤ abmaxsize

abbrev pub frame_sound : Option (List ℕ) → List ℕ
frame_sound none = []
frame_sound (some b) = b

-- Behind the round at the front of a packet, over what its rest plays.
abbrev pub PlaysBehind :
    {S : Type 0} → (S → List ℕ → S → List ℕ → Type 0) → List ℕ → S × Round → S → List ℕ → Type 0
PlaysBehind rest pkt (st, failed) st' sound = (st' ≡ st) × (sound ≡ replicate 1024 0)
PlaysBehind rest pkt (st, exits) st' sound = ⊥
PlaysBehind rest pkt (st, went len b) st' sound =
    (later : List ℕ) × (rest st (drop len pkt) st' later) × (sound ≡ frame_sound b ++ later)

-- `IsRound st pkt r` says what a round does. In so many rounds the packet is taken, or the decoder
-- fails: its sound is that of its frames in their order, with 1024 bytes of silence at a failure, and
-- libav is left in the state `st'`.
abbrev pub Plays :
    {S : Type 0} → (S → List ℕ → S × Round → Type 0) → ℕ → S → List ℕ → S → List ℕ → Type 0
Plays IsRound n st [] st' sound = (st' ≡ st) × (sound ≡ [])
Plays IsRound zero st (b ∷ pkt) st' sound = ⊥
Plays {S} IsRound (suc n) st (b ∷ pkt) st' sound =
    (r : S × Round) × IsRound st (b ∷ pkt) r × PlaysBehind (Plays IsRound n) (b ∷ pkt) r st' sound

pub to_front-held :
    (abmaxsize : ℕ) (s : SoundBuffer)
    → IsValid abmaxsize s
    → IsValid abmaxsize (to_front s)
      × (held (to_front s) ≡ held s)
      × ((to_front s).absize ≡ length (held s))
to_front-held abmaxsize s v =
    let long : length (held s) ≡ s.absize - s.abpos =
      length-slice s.abpos (s.absize - s.abpos) s.audiobuf
        (omega (arith, v.memory, v.inside, v.ordered)) in
    (
      record {
        memory = length-blit s.audiobuf 0 (held s) ∙ v.memory;
        ordered = omega arith;
        inside = omega (arith, v.inside);
      },
      ap (λ n. slice 0 n (blit s.audiobuf 0 (held s))) (omega (arith, long))
          ∙ slice-blit_self s.audiobuf 0 (held s) (omega (arith, long, v.memory, v.inside)),
      sym long,
    )

slice_front : (o n : ℕ) (xs : List ℕ) → o ≡ 0 → slice o (n - o) xs ≡ slice 0 n xs
slice_front o n xs e = ap₂ (λ i k. slice i k xs) e (omega arith)

-- Sound behind the held bytes, where there is room for it.
abbrev pub appended : SoundBuffer → List ℕ → SoundBuffer
appended s b = record s { audiobuf = blit s.audiobuf s.absize b; absize = s.absize + length b }

-- A buffer that has got more sound behind what it held.
pub record Grows (abmaxsize : ℕ) (s : SoundBuffer) (b : List ℕ) (t : SoundBuffer) : Type 0 where
  pub valid : IsValid abmaxsize t
  pub front : t.abpos ≡ 0
  pub sound : held t ≡ held s ++ b
  pub size : t.absize ≡ s.absize + length b

module _ (abmaxsize : ℕ) (s : SoundBuffer) (v : IsValid abmaxsize s) (front : s.abpos ≡ 0) where
  appended-Grows :
      (b : List ℕ) → s.absize + length b ≤ abmaxsize → Grows abmaxsize s b (appended s b)
  appended-Grows b room = record {
    valid = record {
      memory = length-blit s.audiobuf s.absize b ∙ v.memory;
      ordered = omega (arith, v.ordered);
      inside = room;
    };
    front = front;
    sound =
        slice_front s.abpos (s.absize + length b) (blit s.audiobuf s.absize b) front
        ∙ slice-blit_next s.audiobuf s.absize b (omega (arith, v.memory))
        ∙ ap (λ l. l ++ b) (sym (slice_front s.abpos s.absize s.audiobuf front));
    size = refl;
  }

  add_frame-Grows :
      (frame : Option (List ℕ))
      → s.absize + length (frame_sound frame) ≤ abmaxsize
      → Grows abmaxsize s (frame_sound frame) (add_frame abmaxsize s frame)
  add_frame-Grows none room = record {
    valid = v;
    front = front;
    sound = sym (append_nil (held s));
    size = omega arith;
  }
  add_frame-Grows (some b) room =
      let whole : datalen_for abmaxsize s (length b) ≡ length b = ground arith in
      subst (Grows abmaxsize s b)
        (ap₂ (λ n d. record s { audiobuf = blit s.audiobuf s.absize d; absize = s.absize + n })
          (sym whole) (sym (ap (λ n. take n b) whole ∙ take_all (length b) b (omega arith))))
        (appended-Grows b room)

  silence-Grows :
      s.absize + 1024 ≤ abmaxsize → Grows abmaxsize s (replicate 1024 0) (fill_silence s)
  silence-Grows room =
      let long : length (replicate {A = ℕ} 1024 0) ≡ 1024 = length-replicate {A = ℕ} 1024 0 in
      subst (Grows abmaxsize s (replicate 1024 0))
        (ap
          (λ n. record s {
            audiobuf = blit s.audiobuf s.absize (replicate 1024 0);
            absize = s.absize + n;
          })
          long)
        (appended-Grows (replicate 1024 0) (omega (arith, long)))

Grows-trans :
    {abmaxsize : ℕ} {s t u : SoundBuffer} (a b : List ℕ)
    → Grows abmaxsize s a t
    → Grows abmaxsize t b u
    → Grows abmaxsize s (a ++ b) u
Grows-trans {s = s} a b g h = record {
  valid = h.valid;
  front = h.front;
  sound = h.sound ∙ ap (λ l. l ++ b) g.sound ∙ append_assoc (held s) a b;
  size = omega (arith, h.size, g.size, length-append a b);
}

-- A result of the loop over a packet that adds this sound.
abbrev pub Adds : {S : Type 0} → ℕ → S → SoundBuffer → List ℕ → Used S → Type 0
Adds abmaxsize st' s sound result =
    (t : SoundBuffer) × (result ≡ used st' t) × Grows abmaxsize s sound t

nothing-Adds :
    {S : Type 0} (abmaxsize : ℕ) (st st' : S) (s : SoundBuffer) (sound : List ℕ)
    → IsValid abmaxsize s
    → s.abpos ≡ 0
    → (st' ≡ st) × (sound ≡ [])
    → Adds abmaxsize st' s sound (used st s)
nothing-Adds abmaxsize st st' s sound v front (e, none_made) = (
  s,
  ap (λ k. used k s) (sym e),
  subst (λ l. Grows abmaxsize s l s) (sym none_made)
      (record { valid = v; front = front; sound = sym (append_nil (held s)); size = omega arith }),
)

module _ {S : Type 0} (abmaxsize : ℕ) where
  use_round-Adds :
      (next : S → SoundBuffer → List ℕ → Used S) (rest : S → List ℕ → S → List ℕ → Type 0)
      (s : SoundBuffer) (pkt : List ℕ) (r : S × Round) (st' : S) (sound : List ℕ)
      → ((t : SoundBuffer) (st : S) (len : ℕ) (later : List ℕ)
          → rest st (drop len pkt) st' later
          → IsValid abmaxsize t
          → t.abpos ≡ 0
          → t.absize + length later ≤ abmaxsize
          → Adds abmaxsize st' t later (next st t (drop len pkt)))
      → IsValid abmaxsize s
      → s.abpos ≡ 0
      → s.absize + length sound ≤ abmaxsize
      → PlaysBehind rest pkt r st' sound
      → Adds abmaxsize st' s sound (use_round abmaxsize next s pkt r)
  use_round-Adds next rest s pkt (st, failed) st' sound ih v front room (e, silent) = (
    fill_silence s,
    ap (λ k. used k (fill_silence s)) (sym e),
    subst (λ l. Grows abmaxsize s l (fill_silence s)) (sym silent)
        (silence-Grows abmaxsize s v front
          (omega (arith, room, ap length silent, length-replicate {A = ℕ} 1024 0))),
  )
  use_round-Adds next rest s pkt (st, exits) st' sound ih v front room h = elim h [ ]
  use_round-Adds next rest s pkt (st, went len b) st' sound ih v front room (later, h, e) =
      let total = ap length e ∙ length-append (frame_sound b) later in
      let g = add_frame-Grows abmaxsize s v front b (omega (arith, room, total)) in
      let (t, made, g') =
        ih (add_frame abmaxsize s b) st len later h g.valid g.front
          (omega (arith, g.size, room, total)) in
      (t, made, subst (λ l. Grows abmaxsize s l t) (sym e) (Grows-trans (frame_sound b) later g g'))

module _ {S : Type 0} (round : S → List ℕ → S × Round) (IsRound : S → List ℕ → S × Round → Type 0)
    (agrees : (st : S) (pkt : List ℕ) (r : S × Round) → IsRound st pkt r → round st pkt ≡ r)
    (abmaxsize : ℕ) where
  -- The loop over a packet ends, and adds the packet's sound, where the buffer has room for it.
  pub decode_packet-Adds :
      (n : ℕ) (st : S) (s : SoundBuffer) (pkt : List ℕ) (st' : S) (sound : List ℕ)
      → Plays IsRound n st pkt st' sound
      → IsValid abmaxsize s
      → s.abpos ≡ 0
      → s.absize + length sound ≤ abmaxsize
      → Adds abmaxsize st' s sound (decode_packet round abmaxsize n st s pkt)
  unfolding decode_packet
  decode_packet-Adds zero st s [] st' sound h v front room =
      nothing-Adds abmaxsize st st' s sound v front h
  decode_packet-Adds (suc n) st s [] st' sound h v front room =
      nothing-Adds abmaxsize st st' s sound v front h
  decode_packet-Adds zero st s (b ∷ pkt) st' sound h v front room = elim h [ ]
  decode_packet-Adds (suc n) st s (b ∷ pkt) st' sound (r, is, behind) v front room =
      subst
        (λ (q : S × Round).
          Adds abmaxsize st' s sound
            (use_round abmaxsize (decode_packet round abmaxsize n) s (b ∷ pkt) q))
        (sym (agrees st (b ∷ pkt) r is))
        (use_round-Adds abmaxsize (decode_packet round abmaxsize n) (Plays IsRound n) s (b ∷ pkt) r
          st' sound
          (λ t st1 len later h' v' front' room'.
            decode_packet-Adds n st1 t (drop len (b ∷ pkt)) st' later h' v' front' room')
          v front room behind)
