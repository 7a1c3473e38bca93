-- ===== src/Audio/Clients.antt =====
-- The clients of the audio source and its parameters, of ga/core/asource.cpp: `gClients`, a map from
-- thread ids to buffers, which `audio_source_buffer_fill` fills with the same frames. The map is a
-- list of its bindings; each function runs under `ccmutex`.
mod Tests
use mathlib.Core.Path.{ap₂}
use gaminganywhere.Base.{
  ap, ℕ, ◌*◌, ◌/◌, ◌==◌, ◌≡◌, refl, if◌then◌else◌, List, [], ◌∷◌, Option, none, some, length,
}
use gaminganywhere.Audio.Buffer.{AudioBuffer, Setup, bytes_of, fill_one, payload}
use gaminganywhere.Audio.Buffer.Bytes.{IsValid}
use gaminganywhere.Audio.Buffer.Refine.{Filled, fill_refines}

-- The buffer may be NULL.
abbrev pub Clients : Type 0
Clients = List (ℕ × Option AudioBuffer)

-- `gClients[tid] = ab`
unfoldable pub client_register : Clients → ℕ → Option AudioBuffer → Clients
client_register [] tid ab = (tid, ab) ∷ []
client_register ((t, b) ∷ cs) tid ab =
    let rest = client_register cs tid ab in if t == tid then (t, ab) ∷ cs else (t, b) ∷ rest

-- `gClients.erase(tid)`
unfoldable pub client_unregister : Clients → ℕ → Clients
client_unregister [] tid = []
client_unregister ((t, b) ∷ cs) tid =
    let rest = client_unregister cs tid in if t == tid then cs else (t, b) ∷ rest

unfoldable pub client_count : Clients → ℕ
client_count cs = length cs

-- `audio_source_setup`
unfoldable pub source_setup : ℕ → ℕ → ℕ → ℕ → Setup
source_setup chunksize samplerate bitspersample channels = record {
  chunksize = chunksize;
  samplerate = samplerate;
  bitspersample = bitspersample;
  channels = channels;
}

-- `audio_source_chunkbytes`
unfoldable pub chunkbytes : Setup → ℕ
chunkbytes s = s.chunksize * s.channels * s.bitspersample / 8

-- one client in front of the others
abbrev pub with_client : ℕ → Option AudioBuffer → Option Clients → Option Clients
with_client tid ab none = none
with_client tid ab (some cs) = some ((tid, ab) ∷ cs)

-- `audio_source_buffer_fill`; `none` where a fill runs out of fuel.
unfoldable pub buffer_fill : Clients → Option (List ℕ) → ℕ → Option Clients
buffer_fill [] ds frames = some []
buffer_fill ((t, none) ∷ cs) ds frames = with_client t none (buffer_fill cs ds frames)
buffer_fill ((t, some ab) ∷ cs) ds frames =
    let rest = buffer_fill cs ds frames in
    elim (fill_one ab ds frames) [ none ↦ none | some filled ↦ with_client t (some filled) rest ]

-- All buffers are valid, with frames of the same size.
abbrev pub AllValid : ℕ → Clients → Type 0
AllValid size [] = Unit
AllValid size ((t, none) ∷ cs) = AllValid size cs
AllValid size ((t, some ab) ∷ cs) = IsValid size ab × AllValid size cs

-- The same clients, each buffer filled with the bytes `new`.
pub data AllFilled (size : ℕ) (new : List ℕ) : Clients → Clients → Type 0 where
  nobody : AllFilled size new [] []
  without :
      {t : ℕ} {cs cs' : Clients}
      → AllFilled size new cs cs'
      → AllFilled size new ((t, none) ∷ cs) ((t, none) ∷ cs')
  filled :
      {t : ℕ} {ab ab' : AudioBuffer} {cs cs' : Clients}
      → Filled size ab new ab'
      → AllFilled size new cs cs'
      → AllFilled size new ((t, some ab) ∷ cs) ((t, some ab') ∷ cs')

-- `audio_source_buffer_fill` fills the buffer of every client, as `byte_fill` says: what is appended
-- for one client does not depend on how full another's buffer is. The buffers are valid, and what is
-- given is a whole number of frames, or NULL for silence.
pub fill-AllFilled :
    {size : ℕ} (cs : Clients) (ds : Option (List ℕ)) (frames : ℕ)
    → AllValid size cs
    → length (payload ds (frames * size)) ≡ frames * size
    → (after : Clients) × (buffer_fill cs ds frames ≡ some after)
      × AllFilled size (payload ds (frames * size)) cs after
unfolding buffer_fill
fill-AllFilled [] ds frames v given = ([], refl, nobody)
fill-AllFilled ((t, none) ∷ cs) ds frames v given =
    let (after, e, all) = fill-AllFilled cs ds frames v given in
    ((t, none) ∷ after, ap (with_client t none) e, without all)
fill-AllFilled ((t, some ab) ∷ cs) ds frames v given =
    let (after, e, all) = fill-AllFilled cs ds frames v.1 given in
    let (ab', e1, f) = fill_refines v.0 ds frames given in
    (
      (t, some ab') ∷ after,
      ap₂ (λ x r. elim x [ none ↦ none | some b ↦ with_client t (some b) r ]) e1 e,
      filled f all,
    )
