-- ===== src/Audio/Buffer/Tests.antt =====
-- The theorems on the audio buffer at a buffer of sixteen frames of four bytes.
use mathlib.Core.Option.{some-injective}
use gaminganywhere.Base.{
  ℕ, ◌*◌, ◌≡◌, refl, sym, ap, ◌∙◌, List, [], ◌∷◌, length, length-replicate, replicate, Option, some,
}
use gaminganywhere.Audio.Buffer.{
  AudioBuffer, Setup, buffer_init, init_with, fresh, fill_one, buffer_read, payload,
}
use gaminganywhere.Audio.Buffer.Bytes.{IsValid, buffer_init-IsValid}
use gaminganywhere.Audio.Buffer.Refine.{Filled, fill_refines}
use gaminganywhere.Audio.Buffer.Reads.{Took, ready, read_refines}

abbrev stereo : Setup
stereo = record { chunksize = 4; samplerate = 44100; bitspersample = 16; channels = 2 }

abbrev block : ℕ → Option (List ℕ)
block n = some (replicate n 0)

block-sized : (n : ℕ) (b : List ℕ) → block n ≡ some b → length b ≡ n
block-sized n b e = ap length (sym (some-injective _ _ e)) ∙ length-replicate n 0

abbrev new_buffer : AudioBuffer
new_buffer = record {
  buf_pts = 0;
  frames = 16;
  channels = 2;
  bitspersample = 16;
  bufsize = 64;
  bufhead = 0;
  buftail = 0;
  bframes = 0;
  buffer = replicate 64 0;
}

made : buffer_init stereo (some 1) block ≡ some new_buffer
unfolding buffer_init init_with fresh
made = refl

new_buffer-IsValid : IsValid 4 new_buffer
new_buffer-IsValid = (buffer_init-IsValid stereo (some 1) block block-sized refl made).0

fill_refines_example :
    (ab : AudioBuffer) × (fill_one new_buffer (some (1 ∷ 2 ∷ 3 ∷ 4 ∷ [])) 1 ≡ some ab)
    × Filled 4 new_buffer (payload (some (1 ∷ 2 ∷ 3 ∷ 4 ∷ [])) (1 * 4)) ab
fill_refines_example = fill_refines new_buffer-IsValid (some (1 ∷ 2 ∷ 3 ∷ 4 ∷ [])) 1 refl

filled :
    (ab : AudioBuffer) × (fill_one new_buffer (some (1 ∷ 2 ∷ 3 ∷ 4 ∷ [])) 1 ≡ some ab)
    × Filled 4 new_buffer (payload (some (1 ∷ 2 ∷ 3 ∷ 4 ∷ [])) (1 * 4)) ab
filled = fill_refines new_buffer-IsValid (some (1 ∷ 2 ∷ 3 ∷ 4 ∷ [])) 1 refl

abbrev unchanged : AudioBuffer → AudioBuffer
unchanged ab = ab

read_refines_example :
    let (n, out, ab') = buffer_read unchanged filled.0 2 in
    Took 4 (ready unchanged filled.0 2) 2 n out ab'
read_refines_example = read_refines unchanged 2 (λ b v. v) filled.2.valid
