-- ===== src/Modules/EncoderAudio/Frames.antt =====
-- The frames that the audio encoder gives to its codec.
use mathlib.Core.Path.{ap₂, subst}
use native.Mathlib.Nat.{zero-mul}
use gaminganywhere.Base.{
  ℕ, suc, ◌+◌, ◌-◌, ◌*◌, ◌≤◌, ◌<◌, ◌≡◌, refl, sym, ap, ◌∙◌, arith, ltb, leb, ◌==◌, if◌then◌else◌,
  Bool, true, false, List, [], ◌∷◌, ◌++◌, Option, some, length, slice, Bool-cases, inl, inr, ==_iff,
  nil_of_length, ltb→lt, append_nil, length-blit,
}
use gaminganywhere.Modules.EncoderAudio.{
  Setup, Answer, failed, no_packet, packet, Encoding, source, handle_answer, encode_frame,
  encode_loop, move_rest, finish_round, Moment, encode_read,
}
use gaminganywhere.Modules.EncoderAudio.Cuts.{
  converted, concat, bytes_of, Spaced, Cut, Holds, concat-snoc, AllLength-snoc, bytes_of-snoc,
  map-snoc, Spaced-snoc, Spaced-later, handle_pts-grows,
}
use gaminganywhere.Modules.EncoderAudio.ReadIn.{
  read_in, read_in-Cut, read_in-held, read_in-Holds, read_in-whole,
}

-- What the codec's answer leaves alone, and what it counts where the thread goes on.
record Answered (p : Setup) (s : Encoding) (more : Bool) (t : Encoding) : Type 0 where
  taken : t.taken ≡ s.taken
  frames : t.frames ≡ s.frames
  samples : t.samples ≡ s.samples
  bytes : t.samplebytes ≡ s.samplebytes
  started : t.started ≡ s.started
  frames_left : more ≡ true → t.nsamples ≡ s.nsamples - p.frame_size
  pts : more ≡ true → t.pts ≡ s.pts + p.frame_size

handle_answer-Answered :
    (p : Setup) (a : Answer) (s : Encoding)
    → Answered p s (handle_answer p a s).0 (handle_answer p a s).1
handle_answer-Answered p failed s = record {
  taken = refl;
  frames = refl;
  samples = refl;
  bytes = refl;
  started = refl;
  frames_left = λ e. cc;
  pts = λ e. cc;
}
handle_answer-Answered p no_packet s = record {
  taken = refl;
  frames = refl;
  samples = refl;
  bytes = refl;
  started = refl;
  frames_left = λ e. refl;
  pts = λ e. refl;
}
handle_answer-Answered p (packet pp cp false) s = record {
  taken = refl;
  frames = refl;
  samples = refl;
  bytes = refl;
  started = refl;
  frames_left = λ e. cc;
  pts = λ e. cc;
}
handle_answer-Answered p (packet pp cp true) s = record {
  taken = refl;
  frames = refl;
  samples = refl;
  bytes = refl;
  started = refl;
  frames_left = λ e. refl;
  pts = λ e. refl;
}

-- A round that ends with the bytes `rest'` in the block.
pub record Rounds (p : Setup) (s : Encoding) (bytes : List ℕ) (result : Option (Bool × Encoding))
    : Type 0 where
  pub more : Bool
  pub next : Encoding
  pub rest : List ℕ
  pub made : result ≡ some (more, next)
  pub cut : Cut p next rest
  pub goes_on : more ≡ true → Holds p next rest
  pub took : next.taken ≡ s.taken ++ bytes

module _ (p : Setup) (answer : ℕ → Answer) (some_frames : 0 < p.frame_size)
    (sized : p.source_size ≡ p.frame_size * p.frameunit) where
  loop_stop :
      (n : ℕ) (s : Encoding) (offset : ℕ)
      → s.nsamples < p.frame_size
      → encode_loop p answer (suc n) s offset ≡ some (true, s, offset)
  unfolding encode_loop
  loop_stop n s offset short =
      let test : leb p.frame_size s.nsamples ≡ false = ground arith in rw (test, encode_loop) refl

  loop_quit :
      (n : ℕ) (s : Encoding) (offset : ℕ)
      → p.frame_size ≤ s.nsamples
      → (encode_frame p answer s offset).0 ≡ false
      → encode_loop p answer (suc n) s offset
        ≡ some (false, (encode_frame p answer s offset).1, offset)
  unfolding encode_loop
  loop_quit n s offset full quit =
      let test : leb p.frame_size s.nsamples ≡ true = ground arith in
      rw (test, encode_loop) (rw (quit, encode_loop) refl)

  loop_more :
      (n : ℕ) (s : Encoding) (offset : ℕ)
      → p.frame_size ≤ s.nsamples
      → (encode_frame p answer s offset).0 ≡ true
      → encode_loop p answer (suc n) s offset
        ≡ encode_loop p answer n
            (encode_frame p answer s offset).1
            (offset + p.frame_size * p.frameunit)
  unfolding encode_loop
  loop_more n s offset full more =
      let test : leb p.frame_size s.nsamples ≡ true = ground arith in
      rw (test, encode_loop) (rw (more, encode_loop) refl)

  -- The block holds a frame, which goes to the codec.
  fed-Cut :
      (s : Encoding) (chunk : List ℕ)
      → slice 0 (p.frame_size * p.frameunit) s.samples ≡ chunk
      → length chunk ≡ p.frame_size * p.frameunit
      → Spaced p.frame_size 0 s.frames s.pts
      → Cut p s chunk
      → Cut p (encode_frame p answer s 0).1 []
  fed-Cut s chunk first fits spaced cut =
      let fed : Encoding = record s { frames = s.frames ++ ((source p s 0, s.pts) ∷ []) } in
      let a = handle_answer-Answered p (answer (length s.frames)) fed in
      let same : source p s 0 ≡ converted p chunk =
        ap (converted p) (ap (λ n. slice 0 n s.samples) sized ∙ first) in
      record {
        chunks = cut.chunks ++ (chunk ∷ []);
        fed =
            ap bytes_of a.frames
            ∙ bytes_of-snoc s.frames (source p s 0) s.pts
            ∙ ap₂ (λ l b. l ++ (b ∷ [])) cut.fed same
            ∙ sym (map-snoc (converted p) cut.chunks chunk);
        whole_frames =
            AllLength-snoc (p.frame_size * p.frameunit) cut.chunks chunk cut.whole_frames fits;
        in_order =
            a.taken
            ∙ cut.in_order
            ∙ sym (append_nil (concat (cut.chunks ++ (chunk ∷ []))) ∙ concat-snoc cut.chunks chunk);
        until = s.pts + p.frame_size;
        timed =
            subst (λ fs. Spaced p.frame_size 0 fs (s.pts + p.frame_size)) (sym a.frames)
              (Spaced-snoc p.frame_size 0 s.frames (source p s 0) s.pts spaced);
      }

  -- Behind the only frame the block is empty.
  moved-Holds :
      (t : Encoding)
      → t.samplebytes ≡ p.frame_size * p.frameunit
      → length t.samples ≡ p.frame_size * p.frameunit
      → t.nsamples ≡ 0
      → t.started ≡ true
      → Spaced p.frame_size 0 t.frames t.pts
      → Holds p (move_rest t (p.frame_size * p.frameunit)) []
  moved-Holds t bytes memory none_left started spaced =
      let size = p.frame_size * p.frameunit in
      let gone : (if ltb 0 size then t.samplebytes - size else t.samplebytes) ≡ 0 = ground arith in
      record {
        held = ap (λ n. slice 0 n (move_rest t size).samples) gone;
        below = omega arith;
        counted = gone ∙ sym (zero-mul p.frameunit) ∙ ap (λ n. n * p.frameunit) (sym none_left);
        memory = elim (Bool-cases (ltb 0 size)) [
          | inl some_moved ↦ rw some_moved (length-blit t.samples 0 _ ∙ memory)
          | inr nothing ↦ rw nothing memory
        ];
        spaced = spaced;
        idle = λ e. cc;
      }

  full_round :
      (n : ℕ) (s : Encoding) (chunk : List ℕ)
      → s.nsamples ≡ p.frame_size
      → s.samplebytes ≡ p.frame_size * p.frameunit
      → length s.samples ≡ p.frame_size * p.frameunit
      → slice 0 (p.frame_size * p.frameunit) s.samples ≡ chunk
      → length chunk ≡ p.frame_size * p.frameunit
      → Spaced p.frame_size 0 s.frames s.pts
      → s.started ≡ true
      → Cut p s chunk
      → (more : Bool) × (t : Encoding) × (finish_round (encode_loop p answer (suc (suc n)) s 0)
          ≡ some (more, t))
        × Cut p t []
        × (more ≡ true → Holds p t [])
        × (t.taken ≡ s.taken)
  unfolding fed-Cut
  full_round n s chunk full bytes memory first fits spaced started cut =
      let size = p.frame_size * p.frameunit in
      let fed : Encoding = record s { frames = s.frames ++ ((source p s 0, s.pts) ∷ []) } in
      let a = handle_answer-Answered p (answer (length s.frames)) fed in
      let result = encode_frame p answer s 0 in
      let some_left : p.frame_size ≤ s.nsamples = omega arith in
      let all_fed : Cut p result.1 [] = fed-Cut s chunk first fits spaced cut in
      let start : 0 + size ≡ size = omega arith in
      elim (Bool-cases result.0) [
        | inl more ↦
            let none_left : result.1.nsamples ≡ 0 = omega (arith, a.frames_left more) in
            (
              true,
              move_rest result.1 size,
              ap finish_round (
                  loop_more (suc n) s 0 some_left more
                  ∙ ap (encode_loop p answer (suc n) result.1) start
                  ∙ loop_stop n result.1 size (omega (arith, none_left))),
              record {
                chunks = all_fed.chunks;
                fed = all_fed.fed;
                whole_frames = all_fed.whole_frames;
                in_order = all_fed.in_order;
                until = all_fed.until;
                timed = all_fed.timed;
              },
              λ e.
                  moved-Holds result.1 (a.bytes ∙ bytes) (ap length a.samples ∙ memory) none_left
                    (a.started ∙ started)
                    (subst (Spaced p.frame_size 0 result.1.frames) (sym (a.pts more))
                      all_fed.timed),
              a.taken,
            )
        | inr quit ↦ (
          false,
          result.1,
          ap finish_round (loop_quit (suc n) s 0 some_left quit),
          all_fed,
          λ e. cc,
          a.taken,
        )
      ]

  full_Rounds :
      (m : Moment) (r : ℕ) (bytes : List ℕ) (s : Encoding) (rest : List ℕ)
      → length bytes ≡ r * p.frameunit
      → s.nsamples + r ≡ p.frame_size
      → Cut p s rest
      → Holds p s rest
      → Rounds p s bytes
          (finish_round (encode_loop p answer (suc (s.nsamples + r)) (read_in p m r bytes s) 0))
  full_Rounds m r bytes s rest whole full cut holds =
      let t = read_in p m r bytes s in
      let (first, fits) = read_in-whole p m r bytes whole s rest cut holds full in
      let (held, count) = read_in-held p m r bytes whole s rest cut holds (omega arith) in
      let fuel : s.nsamples + r ≡ suc (p.frame_size - 1) = omega arith in
      let (more, u, made, all_cut, goes_on, took) =
        full_round (p.frame_size - 1) t (rest ++ bytes) full
          (count ∙ ap (λ n. n * p.frameunit) full)
          (length-blit s.samples s.samplebytes bytes ∙ holds.memory) first fits
          (Spaced-later p.frame_size 0 s.frames s.pts _ holds.spaced
            (handle_pts-grows p.samplerate r m.elapsed m.sync s holds.idle))
          refl (read_in-Cut p m r bytes whole s rest cut holds) in
      record {
        more = more;
        next = u;
        rest = [];
        made = ap (λ n. finish_round (encode_loop p answer (suc n) t 0)) fuel ∙ made;
        cut = all_cut;
        goes_on = goes_on;
        took = took;
      }

  -- A round of the thread behind its read.
  pub encode_read-Rounds :
      (m : Moment) (r : ℕ) (bytes : List ℕ) (s : Encoding) (rest : List ℕ)
      → length bytes ≡ r * p.frameunit
      → r ≤ p.frame_size - s.nsamples
      → Cut p s rest
      → Holds p s rest
      → Rounds p s bytes (encode_read p answer m r bytes s)
  unfolding encode_read
  encode_read-Rounds m r bytes s rest whole asked cut holds = elim (Bool-cases (r == 0)) [
    | inl idle ↦
        let none_read : bytes ≡ [] =
          nil_of_length bytes
            (whole ∙ ap (λ n. n * p.frameunit) ((==_iff r 0).0 idle) ∙ zero-mul p.frameunit) in
        record {
          more = true;
          next = s;
          rest = rest;
          made = rw idle refl;
          cut = cut;
          goes_on = λ e. holds;
          took = sym (append_nil s.taken) ∙ ap (◌++◌ s.taken) (sym none_read);
        }
    | inr some_read ↦ rw some_read (elim (Bool-cases (ltb (s.nsamples + r) p.frame_size)) [
      | inl short ↦ record {
        more = true;
        next = read_in p m r bytes s;
        rest = rest ++ bytes;
        made =
            ap finish_round
              (loop_stop (s.nsamples + r) (read_in p m r bytes s) 0 (ltb→lt _ _ short));
        cut = read_in-Cut p m r bytes whole s rest cut holds;
        goes_on = λ e. read_in-Holds p m r bytes whole s rest cut holds (ltb→lt _ _ short);
        took = refl;
      }
      | inr long ↦ full_Rounds m r bytes s rest whole (ground arith) cut holds
    ])
  ]
