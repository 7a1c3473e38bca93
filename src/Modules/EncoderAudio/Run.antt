-- ===== src/Modules/EncoderAudio/Run.antt =====
-- Whole runs of the audio encoder's thread, with its audio buffer.
use mathlib.Core.Path.{subst}
use native.Mathlib.Nat.{zero-mul}
use gaminganywhere.Base.{
  ℕ, ◌-◌, ◌*◌, ◌<◌, ◌≡◌, refl, sym, arith, Bool, true, false, List, [], ◌∷◌, Option, some, length,
  Bool-cases, inl, inr,
}
use gaminganywhere.Audio.Buffer.{AudioBuffer, buffer_read}
use gaminganywhere.Audio.Buffer.Bytes.{IsValid}
use gaminganywhere.Audio.Buffer.Reads.{read_refines}
use gaminganywhere.Modules.EncoderAudio.{Setup, Answer, Encoding, Moment, round, rounds, start}
use gaminganywhere.Modules.EncoderAudio.Cuts.{Cut, Holds}
use gaminganywhere.Modules.EncoderAudio.Frames.{encode_read-Rounds}

-- The waits for data leave the buffer valid.
abbrev pub AllKeep : ℕ → List Moment → Type 0
AllKeep size [] = Unit
AllKeep size (m ∷ ms) =
    ((b : AudioBuffer) → IsValid size b → IsValid size (m.waited b)) × AllKeep size ms

-- What a run has come to: a result, whose frames are cut from the bytes that it read.
pub record Ran (p : Setup) (result : Option (Bool × AudioBuffer × Encoding)) : Type 0 where
  pub more : Bool
  pub buffer : AudioBuffer
  pub last : Encoding
  pub rest : List ℕ
  pub made : result ≡ some (more, buffer, last)
  pub valid : IsValid p.frameunit buffer
  pub cut : Cut p last rest
  pub goes_on : more ≡ true → Holds p last rest

module _ (p : Setup) (answer : ℕ → Answer) (some_frames : 0 < p.frame_size)
    (sized : p.source_size ≡ p.frame_size * p.frameunit) where
  round-Ran :
      (m : Moment) (ab : AudioBuffer) (s : Encoding) (rest : List ℕ)
      → ((b : AudioBuffer) → IsValid p.frameunit b → IsValid p.frameunit (m.waited b))
      → IsValid p.frameunit ab
      → Cut p s rest
      → Holds p s rest
      → Ran p (round p answer m (ab, s))
  unfolding round
  round-Ran m ab s rest keeps v cut holds =
      let asked = p.frame_size - s.nsamples in
      let read = buffer_read m.waited ab asked in
      let took = read_refines m.waited asked keeps v in
      let r =
        encode_read-Rounds p answer some_frames sized m read.0 read.1 s rest took.whole_frames
          (omega (arith, took.count)) cut holds in
      record {
        more = r.more;
        buffer = read.2;
        last = r.next;
        rest = r.rest;
        made = rw (r.made, round) refl;
        valid = took.valid;
        cut = r.cut;
        goes_on = r.goes_on;
      }

  rounds-Ran :
      (ms : List Moment) (ab : AudioBuffer) (s : Encoding) (rest : List ℕ)
      → AllKeep p.frameunit ms
      → IsValid p.frameunit ab
      → Cut p s rest
      → Holds p s rest
      → Ran p (rounds p answer ms (ab, s))
  unfolding rounds
  rounds-Ran [] ab s rest keeps v cut holds = record {
    more = true;
    buffer = ab;
    last = s;
    rest = rest;
    made = refl;
    valid = v;
    cut = cut;
    goes_on = λ e. holds;
  }
  rounds-Ran (m ∷ ms) ab s rest keeps v cut holds =
      let first = round-Ran m ab s rest keeps.0 v cut holds in
      elim (Bool-cases first.more) [
        | inl more ↦
            let result : round p answer m (ab, s) ≡ some (true, first.buffer, first.last) =
              subst (λ b. round p answer m (ab, s) ≡ some (b, first.buffer, first.last)) more
                first.made in
            rw (result, rounds)
              (rounds-Ran ms first.buffer first.last first.rest keeps.1 first.valid first.cut
                (first.goes_on more))
        | inr quit ↦
            let result : round p answer m (ab, s) ≡ some (false, first.buffer, first.last) =
              subst (λ b. round p answer m (ab, s) ≡ some (b, first.buffer, first.last)) quit
                first.made in
            rw (result, rounds)
              (record {
                more = false;
                buffer = first.buffer;
                last = first.last;
                rest = first.rest;
                made = refl;
                valid = first.valid;
                cut = first.cut;
                goes_on = λ e. cc;
              })
      ]

-- The audio encoder, from its start on a block of one frame of the codec, on any buffer that is valid
-- and whatever the codec and the clients answer: its loops end, its buffer stays valid, and the bytes
-- that it reads are the frames that it gives to the codec, converted where that is set up, each whole
-- and in order, and a rest. The time stamps of the frames are at least a frame apart. While the thread
-- goes on, the rest is less than a frame and lies at the front of the block, which keeps its length.
pub rounds-cuts :
    (p : Setup) (answer : ℕ → Answer) (ms : List Moment) (ab : AudioBuffer) (block : List ℕ)
    → 0 < p.frame_size
    → p.source_size ≡ p.frame_size * p.frameunit
    → length block ≡ p.frame_size * p.frameunit
    → IsValid p.frameunit ab
    → AllKeep p.frameunit ms
    → Ran p (rounds p answer ms (ab, start block))
rounds-cuts p answer ms ab block some_frames sized memory v keeps =
    rounds-Ran p answer some_frames sized ms ab (start block) [] keeps v
      (record {
        chunks = [];
        fed = refl;
        whole_frames = tt;
        in_order = refl;
        until = 0;
        timed = omega arith;
      })
      (record {
        held = refl;
        below = some_frames;
        counted = sym (zero-mul p.frameunit);
        memory = memory;
        spaced = omega arith;
        idle = λ e. refl;
      })
