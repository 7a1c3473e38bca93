-- ===== src/Audio/Buffer/Refine.antt =====
-- An audio buffer against its contract: a first-in first-out run of bytes of bounded size, filled
-- in blocks of whole frames and read in whole frames.
use mathlib.Core.Path.{ap₂}
use native.Mathlib.Nat.{add-mul, zero-mul}
use mathlib.Core.List.{append-nil}
use gaminganywhere.Base.{
  ℕ, suc, ◌+◌, ◌-◌, ◌*◌, ◌≤◌, ◌<◌, ◌≡◌, ◌≢◌, refl, sym, ap, ◌∙◌, List, ◌++◌, arith, length, slice,
  blit, ltb, ◌==◌, if◌then◌else◌, Option, some, true, false, ==_iff, nil_of_length, dec_lt,
  ℕ_discrete, length-blit, length-slice, slice-append, slice-blit_self, slice-blit_before,
}
use gaminganywhere.Audio.Buffer.{
  AudioBuffer, bytes_of, compact, payload, append, fill_retry, fill_one,
}
use gaminganywhere.Audio.Buffer.Bytes.{IsValid, contents, bytes_of_frames}

pub length-contents :
    {size : ℕ} {ab : AudioBuffer} → IsValid size ab → length (contents ab) ≡ ab.bframes * size
length-contents {size} {ab} v =
    length-slice ab.bufhead (ab.buftail - ab.bufhead) ab.buffer
      (omega (arith, v.memory, v.ordered, v.inside))
    ∙ omega (arith, v.counted)

module _ {size : ℕ} {ab : AudioBuffer} (v : IsValid size ab) where
  compact-IsValid : IsValid size (compact ab)
  unfolding compact
  compact-IsValid = record {
    whole = v.whole;
    memory = length-blit ab.buffer 0 _ ∙ v.memory;
    ordered = omega arith;
    inside = omega (arith, v.inside);
    counted = omega (arith, v.counted);
  }

  contents-compact : contents (compact ab) ≡ contents ab
  unfolding compact
  contents-compact =
      let all : ab.buftail - ab.bufhead - 0 ≡ length (contents ab) =
        omega (arith, length-contents v, v.counted) in
      ap (λ n. slice 0 n (blit ab.buffer 0 (contents ab))) all
      ∙ slice-blit_self ab.buffer 0 (contents ab)
          (omega (arith, length-contents v, v.counted, v.inside, v.memory))

  module _ (ds : Option (List ℕ)) (frames : ℕ)
      (given : length (payload ds (frames * size)) ≡ frames * size)
      (fits : frames * size ≤ ab.bufsize - ab.buftail) where
    append-IsValid : IsValid size (append ab ds frames (frames * size))
    unfolding append
    append-IsValid = record {
      whole = v.whole;
      memory = length-blit ab.buffer ab.buftail _ ∙ v.memory;
      ordered = omega (arith, v.ordered);
      inside = omega (arith, v.inside);
      counted = omega (arith, v.counted, add-mul ab.bframes frames size);
    }

    contents-append :
        contents (append ab ds frames (frames * size)) ≡ contents ab ++ payload ds (frames * size)
    unfolding append
    contents-append =
        ap (λ n. slice ab.bufhead n block) (omega (arith, v.ordered))
        ∙ slice-append ab.bufhead (ab.buftail - ab.bufhead) (frames * size) block
        ∙ ap₂ ◌++◌
            (slice-blit_before ab.buffer ab.buftail new ab.bufhead (ab.buftail - ab.bufhead)
              (omega (arith, v.ordered)))
            (ap₂ (λ o n. slice o n block) (omega (arith, v.ordered)) (sym given)
              ∙ slice-blit_self ab.buffer ab.buftail new
                  (omega (arith, given, fits, v.inside, v.memory)))
      where
        new : List ℕ
        new = payload ds (frames * size)

        block : List ℕ
        block = blit ab.buffer ab.buftail new

-- The three ways out of one round at the label `retry`.
module _ (fuel : ℕ) (ab : AudioBuffer) (ds : Option (List ℕ)) (frames framesize : ℕ) where
  retry_drop :
      ab.bufhead + (ab.bufsize - ab.buftail) < framesize
      → fill_retry (suc fuel) ab ds frames framesize ≡ some ab
  unfolding fill_retry
  retry_drop h = ground arith

  retry_append :
      framesize ≤ ab.bufsize - ab.buftail
      → fill_retry (suc fuel) ab ds frames framesize ≡ some (append ab ds frames framesize)
  unfolding fill_retry
  retry_append h = ground arith

  retry_compact :
      framesize ≤ ab.bufhead + (ab.bufsize - ab.buftail)
      → ab.bufsize - ab.buftail < framesize
      → fill_retry (suc fuel) ab ds frames framesize
        ≡ fill_retry fuel (compact ab) ds frames framesize
  unfolding fill_retry
  retry_compact h k = ground arith

-- The contract of a fill: the bytes are appended, or dropped as a whole where they do not fit.
pub byte_fill : ℕ → List ℕ → List ℕ → List ℕ
byte_fill capacity bs ds = if ltb capacity (length bs + length ds) then bs else bs ++ ds

-- A buffer that a fill may leave.
pub record Filled (size : ℕ) (ab : AudioBuffer) (new : List ℕ) (ab' : AudioBuffer) : Type 0 where
  pub valid : IsValid size ab'
  pub bytes : contents ab' ≡ byte_fill ab.bufsize (contents ab) new
  pub same_size : ab'.bufsize ≡ ab.bufsize

module _ {size : ℕ} {ab : AudioBuffer} (v : IsValid size ab) (ds : Option (List ℕ)) (frames : ℕ)
    (given : length (payload ds (frames * size)) ≡ frames * size) where
  new : List ℕ
  new = payload ds (frames * size)

  room : ab.bufhead + (ab.bufsize - ab.buftail) + length (contents ab) ≡ ab.bufsize
  room = omega (arith, length-contents v, v.counted, v.inside)

  fits-bytes :
      frames * size ≤ ab.bufhead + (ab.bufsize - ab.buftail)
      → byte_fill ab.bufsize (contents ab) (payload ds (frames * size))
        ≡ contents ab ++ payload ds (frames * size)
  unfolding byte_fill
  fits-bytes h = ground (arith, room, given)

  dropped :
      ab.bufhead + (ab.bufsize - ab.buftail) < frames * size
      → Filled size ab (payload ds (frames * size)) ab
  unfolding byte_fill
  dropped h = record { valid = v; bytes = ground (arith, room, given); same_size = refl }

  appended :
      frames * size ≤ ab.bufsize - ab.buftail
      → Filled size ab (payload ds (frames * size)) (append ab ds frames (frames * size))
  unfolding append
  appended h = record {
    valid = unfold append in append-IsValid v ds frames given h;
    bytes = contents-append v ds frames given h ∙ sym (fits-bytes (omega arith));
    same_size = refl;
  }

  compacted_fit :
      frames * size ≤ ab.bufhead + (ab.bufsize - ab.buftail)
      → frames * size ≤ (compact ab).bufsize - (compact ab).buftail
  unfolding compact
  compacted_fit h = omega (arith, v.ordered, v.inside)

  untouched : frames ≡ 0 → Filled size ab (payload ds (frames * size)) ab
  untouched e = record {
    valid = v;
    bytes =
        sym (append-nil (contents ab))
        ∙ ap (λ l. contents ab ++ l) (sym (nil_of_length _ (given ∙ no_bytes)))
        ∙ sym (fits-bytes (omega (arith, no_bytes)));
    same_size = refl;
  }
    where
      no_bytes : frames * size ≡ 0
      no_bytes = rw e (zero-mul size)

  moved :
      frames * size ≤ ab.bufhead + (ab.bufsize - ab.buftail)
      → Filled size ab (payload ds (frames * size)) (append (compact ab) ds frames (frames * size))
  unfolding append compact
  moved h = record {
    valid = append-IsValid (compact-IsValid v) ds frames given (compacted_fit h);
    bytes =
        contents-append (compact-IsValid v) ds frames given (compacted_fit h)
        ∙ ap (λ l. l ++ payload ds (frames * size)) (contents-compact v)
        ∙ sym (fits-bytes h);
    same_size = refl;
  }

  framesize : bytes_of frames ab.channels ab.bitspersample ≡ frames * size
  framesize = bytes_of_frames frames ab.channels ab.bitspersample size v.whole

  fill_one-retry : frames ≢ 0 → fill_one ab ds frames ≡ fill_retry 2 ab ds frames (frames * size)
  unfolding fill_one
  fill_one-retry h =
      let some_frames : (frames == 0) ≡ false = ground arith in
      rw some_frames (ap (fill_retry 2 ab ds frames) framesize)

  -- `audio_source_buffer_fill_one` ends after at most one jump back, on every branch. It keeps the
  -- buffer valid, and the bytes in it become what `byte_fill` says: appended, or dropped as a
  -- whole. What is given is a whole number of frames, or NULL for silence.
  pub fill_refines :
      (ab' : AudioBuffer) × (fill_one ab ds frames ≡ some ab')
      × Filled size ab (payload ds (frames * size)) ab'
  fill_refines = elim (ℕ_discrete frames 0) [
    | yes e ↦ (ab, fill_one-none e, untouched e)
    | no n ↦ elim (dec_lt (ab.bufhead + (ab.bufsize - ab.buftail)) (frames * size)) [
      | yes big ↦ (ab, fill_one-retry n ∙ retry_drop 1 ab ds frames _ big, dropped big)
      | no h ↦ elim (dec_lt (ab.bufsize - ab.buftail) (frames * size)) [
        | yes far ↦ (
          append (compact ab) ds frames (frames * size),
          fill_one-retry n
              ∙ retry_compact 1 ab ds frames _ (omega arith) far
              ∙ retry_append 0 (compact ab) ds frames _ (compacted_fit (omega arith)),
          moved (omega arith),
        )
        | no near ↦ (
          append ab ds frames (frames * size),
          fill_one-retry n ∙ retry_append 1 ab ds frames _ (omega arith),
          appended (omega arith),
        )
      ]
    ]
  ]
    where
      fill_one-none : frames ≡ 0 → fill_one ab ds frames ≡ some ab
      fill_one-none e =
          let nothing : (frames == 0) ≡ true = (==_iff _ _).1 e in unfold fill_one in rw nothing
