-- ===== src/Audio/Buffer/Reads.antt =====
-- What a read of an audio buffer takes off, after the wait for data.
use mathlib.Core.Path.{ap₂}
use native.Mathlib.Nat.{add-mul, zero-mul}
use gaminganywhere.Base.{
  ℕ, ◌+◌, ◌-◌, ◌*◌, ◌≤◌, ◌≡◌, refl, sym, ap, ◌∙◌, List, ◌++◌, arith, length, slice, ◌==◌,
  if◌then◌else◌, Bool, true, false, Bool-cases, inl, inr, ==_iff, length-slice, slice-append, min,
}
use gaminganywhere.Audio.Buffer.{AudioBuffer, bytes_of, advance, copyframe, read_now, buffer_read}
use gaminganywhere.Audio.Buffer.Bytes.{IsValid, contents, bytes_of_frames}

-- A read of `ab` that took `n` frames as the bytes `out` and left `ab'`.
pub record Took (size : ℕ) (ab : AudioBuffer) (frames n : ℕ) (out : List ℕ) (ab' : AudioBuffer)
    : Type 0 where
  pub count : n ≡ min frames ab.bframes
  pub whole_frames : length out ≡ n * size
  pub in_order : contents ab ≡ out ++ contents ab'
  pub pts : ab'.buf_pts ≡ ab.buf_pts + n
  pub valid : IsValid size ab'

module _ {size : ℕ} {ab : AudioBuffer} (v : IsValid size ab) (n : ℕ)
    (some_left : n ≤ ab.bframes) where
  some_bytes : n * size + (ab.bframes - n) * size ≡ ab.bframes * size
  some_bytes =
      sym (add-mul n (ab.bframes - n) size)
      ∙ (let all : n + (ab.bframes - n) ≡ ab.bframes = omega arith in ap (λ k. k * size) all)

  bytes_taken : bytes_of n ab.channels ab.bitspersample ≡ n * size
  bytes_taken = bytes_of_frames n ab.channels ab.bitspersample size v.whole

  length-copied : length (slice ab.bufhead (n * size) ab.buffer) ≡ n * size
  length-copied =
      length-slice ab.bufhead (n * size) ab.buffer
        (omega (arith, some_bytes, v.counted, v.inside, v.memory))

  contents-split :
      contents ab
      ≡ slice ab.bufhead (n * size) ab.buffer
        ++ slice (ab.bufhead + n * size) ((ab.bframes - n) * size) ab.buffer
  contents-split =
      ap (λ k. slice ab.bufhead k ab.buffer) (omega (arith, some_bytes, v.counted))
      ∙ slice-append ab.bufhead (n * size) ((ab.bframes - n) * size) ab.buffer

  no_rest : (ab.bframes - n == 0) ≡ true → (ab.bframes - n) * size ≡ 0
  no_rest last = ap (λ k. k * size) ((==_iff _ _).0 last) ∙ zero-mul size

  contents-advance :
      contents (advance ab n) ≡ slice (ab.bufhead + n * size) ((ab.bframes - n) * size) ab.buffer
  unfolding advance
  contents-advance = elim (Bool-cases (ab.bframes - n == 0)) [
    | inl last ↦ rw last (sym (ap (λ k. slice (ab.bufhead + n * size) k ab.buffer) (no_rest last)))
    | inr more ↦ rw more (
        ap₂ (λ o k. slice o k ab.buffer) (ap (λ k. ab.bufhead + k) bytes_taken)
          (omega (arith, bytes_taken, some_bytes, v.counted)))
  ]

  advance-IsValid : IsValid size (advance ab n)
  unfolding advance
  advance-IsValid = elim (Bool-cases (ab.bframes - n == 0)) [
    | inl last ↦ rw last (record {
      whole = v.whole;
      memory = v.memory;
      ordered = omega arith;
      inside = omega arith;
      counted = omega (arith, no_rest last);
    })
    | inr more ↦ rw more (record {
      whole = v.whole;
      memory = v.memory;
      ordered = omega (arith, bytes_taken, some_bytes, v.counted);
      inside = v.inside;
      counted = omega (arith, bytes_taken, some_bytes, v.counted);
    })
  ]

copyframe-min : (ab : AudioBuffer) (frames : ℕ) → copyframe ab frames ≡ min frames ab.bframes
copyframe-min ab frames = ground arith

pub read_now-Took :
    {size : ℕ} {ab : AudioBuffer} (frames : ℕ)
    → IsValid size ab
    → let (n, out, ab') = read_now ab frames in Took size ab frames n out ab'
unfolding read_now
read_now-Took {size} {ab} frames v = elim (Bool-cases (copyframe ab frames == 0)) [
  | inl idle ↦ rw idle (record {
    count = sym ((==_iff _ _).0 idle) ∙ copyframe-min ab frames;
    whole_frames = sym (zero-mul size);
    in_order = refl;
    pts = omega arith;
    valid = v;
  })
  | inr busy ↦
      rw (busy, bytes_taken v n some_left)
        (record {
          count = copyframe-min ab frames;
          whole_frames = length-copied v n some_left;
          in_order =
              contents-split v n some_left
              ∙ ap (λ l. slice ab.bufhead (n * size) ab.buffer ++ l)
                  (sym (contents-advance v n some_left));
          pts = unfold advance in refl;
          valid = advance-IsValid v n some_left;
        })
]
  where
    n : ℕ
    n = copyframe ab frames

    some_left : n ≤ ab.bframes
    some_left = ground arith

-- the buffer that a read takes from
abbrev pub ready : (AudioBuffer → AudioBuffer) → AudioBuffer → ℕ → AudioBuffer
ready waited ab frames = if frames == 0 then ab else if ab.bframes == 0 then waited ab else ab

-- `audio_source_buffer_read` takes as many of the asked frames as the buffer holds once the wait is
-- over, copies their bytes in the order in which they were filled in, leaves the bytes behind them,
-- moves the time stamp on, and keeps the buffer valid. The wait may change the buffer in any way
-- that keeps it valid.
pub read_refines :
    {size : ℕ} (waited : AudioBuffer → AudioBuffer) {ab : AudioBuffer} (frames : ℕ)
    → ((b : AudioBuffer) → IsValid size b → IsValid size (waited b))
    → IsValid size ab
    → let (n, out, ab') = buffer_read waited ab frames in
      Took size (ready waited ab frames) frames n out ab'
unfolding buffer_read
read_refines {size} waited {ab} frames keeps v = elim (Bool-cases (frames == 0)) [
  | inl nothing ↦ rw nothing (record {
    count = omega (arith, (==_iff _ _).0 nothing);
    whole_frames = sym (zero-mul size);
    in_order = refl;
    pts = omega arith;
    valid = v;
  })
  | inr asked ↦ rw asked (read_now-Took frames (ready_valid (ab.bframes == 0)))
]
  where
    ready_valid : (empty : Bool) → IsValid size (if empty then waited ab else ab)
    ready_valid true = keeps ab v
    ready_valid false = v
