-- ===== src/Modules/EncoderVideo/Rounds.antt =====
-- A round of the video encoder's thread against its contract: it takes the oldest image of the
-- pipeline, and gives its buffer back.
use mathlib.Core.Path.{subst}
use gaminganywhere.Base.{ℕ, ◌≡◌, refl, sym, Bool, true, List, [], ◌∷◌, Option, none, some}
use gaminganywhere.Pipeline.Pool.{Pool, load_data}
use gaminganywhere.Pipeline.Pool.Refine.{Holds, load_refines, load-empty, release_refines}
use gaminganywhere.Modules.Image.{Image}
use gaminganywhere.Modules.EncoderVideo.{
  Setup, Encoding, Moment, encode_image, encode_loaded, encode_waited, round,
}
use gaminganywhere.Modules.EncoderVideo.Stamps.{IsRising, encode_image-IsRising}

-- The free buffers and the queue.
abbrev pub Lists : Type 0
Lists = List ℕ × List ℕ

-- What the wait has made of the pool, where it did not time out.
abbrev pub WaitHolds : Option Pool → Option Lists → Type 0
WaitHolds none none = Unit
WaitHolds none (some l) = ⊥
WaitHolds (some pool) none = ⊥
WaitHolds (some pool) (some (free, queue)) = Holds pool free queue

module _ (p : Setup) (images : ℕ → Image) (m : Moment) where
  -- The oldest image is encoded, and its buffer is free again, whatever the codec answers.
  abbrev pub take_oldest : Lists → Encoding → Bool × Lists × Encoding
  take_oldest (free, []) s = (true, (free, []), s)
  take_oldest (free, x ∷ queue) s =
      let (more, s') = encode_image p m.answer m.sync (images x) s in (more, (x ∷ free, queue), s')

  abbrev pub take_waited : Lists → Option Lists → Encoding → Bool × Lists × Encoding
  take_waited (free, x ∷ queue) w s = take_oldest (free, x ∷ queue) s
  take_waited (free, []) none s = (true, (free, []), s)
  take_waited (free, []) (some l) s = take_oldest l s

  -- A result of the thread is one of the contract.
  pub record Agrees (got : Bool × Pool × Encoding) (want : Bool × Lists × Encoding) : Type 0 where
    pub more : got.0 ≡ want.0
    pub pool : Holds got.1 want.1.0 want.1.1
    pub encoding : got.2 ≡ want.2

  loaded-Agrees :
      {pool : Pool} (free queue : List ℕ) (s : Encoding)
      → Holds pool free queue
      → Agrees (encode_loaded p images m (load_data pool) s) (take_oldest (free, queue) s)
  loaded-Agrees free [] s h = rw (load-empty h) (record { more = refl; pool = h; encoding = refl })
  loaded-Agrees free (x ∷ queue) s h =
      let (loaded, left, out) = load_refines h in
      rw loaded (record { more = refl; pool = release_refines x out left; encoding = refl })

  waited-Agrees :
      {pool : Pool} (free : List ℕ) (w : Option Pool) (l : Option Lists) (s : Encoding)
      → Holds pool free []
      → WaitHolds w l
      → Agrees (encode_waited p images m pool w s) (take_waited (free, []) l s)
  waited-Agrees free none none s h wait = record { more = refl; pool = h; encoding = refl }
  waited-Agrees free none (some l) s h wait = absurd wait
  waited-Agrees free (some pool) none s h wait = absurd wait
  waited-Agrees free (some pool) (some (free', queue')) s h wait = loaded-Agrees free' queue' s wait

  pub round-oldest :
      {pool : Pool} {x : ℕ} (free queue : List ℕ) (s : Encoding)
      → Holds pool free (x ∷ queue)
      → Agrees (round p images m pool s) (take_oldest (free, x ∷ queue) s)
  unfolding round
  round-oldest free queue s h =
      let (loaded, left, out) = load_refines h in
      rw loaded (record { more = refl; pool = release_refines _ out left; encoding = refl })

  round-Agrees :
      {pool : Pool} (free queue : List ℕ) (l : Option Lists) (s : Encoding)
      → Holds pool free queue
      → WaitHolds (m.waited pool) l
      → Agrees (round p images m pool s) (take_waited (free, queue) l s)
  unfolding round
  round-Agrees {pool} free [] l s h wait =
      rw (load-empty h) (waited-Agrees free (m.waited pool) l s h wait)
  round-Agrees free (x ∷ queue) l s h wait = round-oldest free queue s h

  take_oldest-IsRising : (l : Lists) (s : Encoding) → IsRising s → IsRising (take_oldest l s).2
  take_oldest-IsRising (free, []) s h = h
  take_oldest-IsRising (free, x ∷ queue) s h =
      encode_image-IsRising p m.answer m.sync (images x) s h

  take_waited-IsRising :
      (free queue : List ℕ) (l : Option Lists) (s : Encoding)
      → IsRising s
      → IsRising (take_waited (free, queue) l s).2
  take_waited-IsRising free (x ∷ queue) l s h = take_oldest-IsRising (free, x ∷ queue) s h
  take_waited-IsRising free [] none s h = h
  take_waited-IsRising free [] (some l) s h = take_oldest-IsRising l s h

-- A round of the video encoder takes the oldest image of the queue, or of what the wait has made of an
-- empty one, and does nothing where there is none; the image's buffer is among the free ones behind
-- the round on every branch, errors of the codec and of the network included. The time stamps of the
-- pictures that the codec gets stay strictly rising.
pub round_refines :
    (p : Setup) (images : ℕ → Image) (m : Moment) {pool : Pool} (free queue : List ℕ)
    (waited : Option Lists) (s : Encoding)
    → Holds pool free queue
    → WaitHolds (m.waited pool) waited
    → IsRising s
    → Agrees p images m (round p images m pool s) (take_waited p images m (free, queue) waited s)
      × IsRising (round p images m pool s).2
round_refines p images m free queue waited s h wait rising =
    let agrees = round-Agrees p images m free queue waited s h wait in
    (
      agrees,
      subst IsRising (sym agrees.encoding)
          (take_waited-IsRising p images m free queue waited s rising),
    )
