-- ===== src/Audio/Clients/Tests.antt =====
-- The theorem on the audio source's clients at two clients, one with no buffer.
use gaminganywhere.Base.{arith, ◌*◌, ◌≡◌, refl, [], ◌∷◌, none, some, replicate}
use gaminganywhere.Audio.Buffer.{AudioBuffer, payload}
use gaminganywhere.Audio.Buffer.Bytes.{IsValid}
use gaminganywhere.Audio.Clients.{Clients, buffer_fill, AllFilled, fill-AllFilled}

abbrev small_buffer : AudioBuffer
small_buffer = record {
  buf_pts = 0;
  frames = 2;
  channels = 2;
  bitspersample = 16;
  bufsize = 8;
  bufhead = 0;
  buftail = 0;
  bframes = 0;
  buffer = replicate 8 0;
}

small_buffer-IsValid : IsValid 4 small_buffer
small_buffer-IsValid = record {
  whole = refl;
  memory = refl;
  ordered = omega arith;
  inside = omega arith;
  counted = refl;
}

abbrev clients : Clients
clients = (1, some small_buffer) ∷ (2, none) ∷ []

fill-AllFilled_example :
    (after : Clients) × (buffer_fill clients none 1 ≡ some after)
    × AllFilled 4 (payload none (1 * 4)) clients after
fill-AllFilled_example = fill-AllFilled clients none 1 (small_buffer-IsValid, tt) refl
