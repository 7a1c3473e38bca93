-- ===== src/Audio/Buffer/Bytes.antt =====
-- The representation invariant of an audio buffer, and the bytes that it holds.
use mathlib.Core.Path.{subst}
use mathlib.Core.Option.{some-injective}
use native.Mathlib.Nat.{zero-mul, mul_assoc, mul-div_right}
use gaminganywhere.Base.{
  ℕ, ◌+◌, ◌-◌, ◌*◌, ◌/◌, ◌≤◌, ◌≡◌, refl, ap, ◌∙◌, List, [], arith, Option, none, some, length,
  slice,
}
use gaminganywhere.Audio.Buffer.{AudioBuffer, Setup, init_with, buffer_init, bytes_of}

-- `size` is the bytes of one frame, which the channels and the sample width make up.
pub record IsValid (size : ℕ) (ab : AudioBuffer) : Type 0 where
  pub whole : ab.channels * ab.bitspersample ≡ 8 * size
  pub memory : length ab.buffer ≡ ab.bufsize
  pub ordered : ab.bufhead ≤ ab.buftail
  pub inside : ab.buftail ≤ ab.bufsize
  pub counted : ab.buftail ≡ ab.bufhead + ab.bframes * size

-- the bytes that were filled in and not yet read
abbrev pub contents : AudioBuffer → List ℕ
contents ab = slice ab.bufhead (ab.buftail - ab.bufhead) ab.buffer

pub bytes_of_frames : (n c b size : ℕ) → c * b ≡ 8 * size → bytes_of n c b ≡ n * size
bytes_of_frames n c b size e =
    ap (λ k. k / 8) (mul_assoc n c b ∙ ap (λ k. n * k) e)
    ∙ ap (λ k. k / 8) rearrange
    ∙ mul-div_right (n * size) {m = 8} (omega arith)
  where
    rearrange : n * (8 * size) ≡ 8 * (n * size)
    rearrange = omega arith

init_with-IsValid :
    {size : ℕ} (frames channels bits : ℕ) (struct : Option ℕ) (block : Option (List ℕ))
    {ab : AudioBuffer}
    → ((b : List ℕ) → block ≡ some b → length b ≡ bytes_of frames channels bits)
    → channels * bits ≡ 8 * size
    → init_with frames channels bits struct block ≡ some ab
    → IsValid size ab × (contents ab ≡ []) × (ab.bufsize ≡ frames * size)
unfolding init_with
init_with-IsValid frames channels bits none block sized whole e = cc
init_with-IsValid frames channels bits (some p) none sized whole e = cc
init_with-IsValid {size} frames channels bits (some p) (some b) sized whole e =
    subst (λ ab. IsValid size ab × (contents ab ≡ []) × (ab.bufsize ≡ frames * size))
      (some-injective _ _ e)
      (
        record {
          whole = whole;
          memory = sized b refl;
          ordered = omega arith;
          inside = omega arith;
          counted = omega (arith, zero-mul size);
        },
        refl,
        bytes_of_frames frames channels bits size whole,
      )

-- A buffer that `audio_source_buffer_init` returns is valid and empty, where a frame is a whole
-- number of bytes and `malloc` returns blocks of the size that it is asked for.
pub buffer_init-IsValid :
    {size : ℕ} (s : Setup) (struct : Option ℕ) (malloc : ℕ → Option (List ℕ)) {ab : AudioBuffer}
    → ((n : ℕ) (b : List ℕ) → malloc n ≡ some b → length b ≡ n)
    → s.channels * s.bitspersample ≡ 8 * size
    → buffer_init s struct malloc ≡ some ab
    → IsValid size ab × (contents ab ≡ []) × (ab.bufsize ≡ s.chunksize * 4 * size)
unfolding buffer_init
buffer_init-IsValid {size} s struct malloc {ab} sized whole e =
    init_with-IsValid (s.chunksize * 4) s.channels s.bitspersample struct (malloc bytes)
      (sized bytes) whole (ground (arith, e))
  where
    bytes : ℕ
    bytes = bytes_of (s.chunksize * 4) s.channels s.bitspersample
