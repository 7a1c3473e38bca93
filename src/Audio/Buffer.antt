-- ===== src/Audio/Buffer.antt =====
-- The audio buffer of ga/core/asource.cpp (`struct AudioBuffer` and the audio_source_buffer_*
-- functions): bytes between `bufhead` and `buftail` of one block, moved to the front when the end
-- is reached. Each function runs under `bufmutex`, so it is one step on the record; signals to
-- `bufcond` are left out. Counts are natural numbers (the source returns at once at a count below 1,
-- and here the count 0 stands for these), and `int` sums are taken without overflow.
pub mod Bytes
pub mod Refine
pub mod Reads
mod Tests
use gaminganywhere.Base.{
  ℕ, zero, suc, ◌+◌, ◌-◌, ◌*◌, ◌/◌, ◌==◌, ltb, leb, if◌then◌else◌, List, [], Option, none, some,
  take, slice, blit, replicate, ◌||◌,
}

pub record AudioBuffer : Type 0 where
  pub buf_pts : ℕ
  pub frames : ℕ
  pub channels : ℕ
  pub bitspersample : ℕ
  pub bufsize : ℕ
  pub bufhead : ℕ
  pub buftail : ℕ
  pub bframes : ℕ
  pub buffer : List ℕ

-- the globals that `audio_source_setup` sets
pub record Setup : Type 0 where
  pub chunksize : ℕ
  pub samplerate : ℕ
  pub bitspersample : ℕ
  pub channels : ℕ

-- `n * ab->channels * ab->bitspersample / 8`
abbrev pub bytes_of : ℕ → ℕ → ℕ → ℕ
bytes_of n channels bits = n * channels * bits / 8

fresh : ℕ → ℕ → ℕ → List ℕ → AudioBuffer
fresh frames channels bits block = record {
  buf_pts = 0;
  frames = frames;
  channels = channels;
  bitspersample = bits;
  bufsize = bytes_of frames channels bits;
  bufhead = 0;
  buftail = 0;
  bframes = 0;
  buffer = block;
}

-- what the two allocations come to: one for the struct, one for its block of bytes; `none` is NULL
init_with : ℕ → ℕ → ℕ → Option ℕ → Option (List ℕ) → Option AudioBuffer
unfolding fresh
init_with frames channels bits none block = none
init_with frames channels bits (some p) none = none
init_with frames channels bits (some p) (some block) = some (fresh frames channels bits block)

-- `struct` is what `malloc` returns for the struct, `malloc` what it returns for the block.
pub buffer_init : Setup → Option ℕ → (ℕ → Option (List ℕ)) → Option AudioBuffer
unfolding init_with
buffer_init s struct malloc =
    let frames = s.chunksize * 4 in
    if frames == 0 || s.channels == 0 || s.bitspersample == 0
    then none
    else init_with frames s.channels s.bitspersample struct
        (malloc (bytes_of frames s.channels s.bitspersample))

-- case #2: the bytes move to the front of the block
pub compact : AudioBuffer → AudioBuffer
compact ab = record ab {
  buffer = blit ab.buffer 0 (slice ab.bufhead (ab.buftail - ab.bufhead) ab.buffer);
  buftail = ab.buftail - ab.bufhead;
  bufhead = 0;
}

-- what `bcopy` or `bzero` puts in the buffer; `none` is a NULL `data`
abbrev pub payload : Option (List ℕ) → ℕ → List ℕ
payload none n = replicate n 0
payload (some ds) n = take n ds

-- case #1: the bytes go behind the tail
pub append : AudioBuffer → Option (List ℕ) → ℕ → ℕ → AudioBuffer
append ab ds frames framesize = record ab {
  buffer = blit ab.buffer ab.buftail (payload ds framesize);
  buftail = ab.buftail + framesize;
  bframes = ab.bframes + frames;
}

-- From the label `retry` on, with fuel for the jumps back to it; `none` means that the fuel ran out.
pub fill_retry : ℕ → AudioBuffer → Option (List ℕ) → ℕ → ℕ → Option AudioBuffer
fill_retry zero ab ds frames framesize = none
fill_retry (suc fuel) ab ds frames framesize =
    let again = fill_retry fuel (compact ab) ds frames framesize in
    if ltb (ab.bufhead + (ab.bufsize - ab.buftail)) framesize
    then some ab
    else if leb framesize (ab.bufsize - ab.buftail)
    then some (append ab ds frames framesize)
    else again

-- `audio_source_buffer_fill_one` on a buffer that is not NULL. One jump back is enough.
pub fill_one : AudioBuffer → Option (List ℕ) → ℕ → Option AudioBuffer
fill_one ab ds frames =
    if frames == 0
    then some ab
    else fill_retry 2 ab ds frames (bytes_of frames ab.channels ab.bitspersample)

-- the frames that a read takes
abbrev pub copyframe : AudioBuffer → ℕ → ℕ
copyframe ab frames = if leb frames ab.bframes then frames else ab.bframes

-- the buffer after `n` frames were taken off
pub advance : AudioBuffer → ℕ → AudioBuffer
advance ab n =
    let left = ab.bframes - n in
    record ab {
      bufhead = if left == 0 then 0 else ab.bufhead + bytes_of n ab.channels ab.bitspersample;
      buftail = if left == 0 then 0 else ab.buftail;
      bframes = left;
      buf_pts = ab.buf_pts + n;
    }

-- the part of a read behind the wait: the count, the bytes copied to `buf`, and the buffer
pub read_now : AudioBuffer → ℕ → ℕ × List ℕ × AudioBuffer
read_now ab frames =
    let n = copyframe ab frames in
    if n == 0
    then (0, [], ab)
    else (n, slice ab.bufhead (bytes_of n ab.channels ab.bitspersample) ab.buffer, advance ab n)

-- `waited` is what the buffer has become when `pthread_cond_timedwait` returns: other threads may
-- have filled it.
pub buffer_read : (AudioBuffer → AudioBuffer) → AudioBuffer → ℕ → ℕ × List ℕ × AudioBuffer
buffer_read waited ab frames =
    if frames == 0 then (0, [], ab) else read_now (if ab.bframes == 0 then waited ab else ab) frames
