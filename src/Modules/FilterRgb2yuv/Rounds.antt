-- ===== src/Modules/FilterRgb2yuv/Rounds.antt =====
-- A round of the filter's thread against the contracts of its two pipelines.
use gaminganywhere.Base.{ℕ, ◌≡◌, refl, ap, ◌∙◌, List, [], ◌∷◌, ◌++◌, some}
use gaminganywhere.Pipeline.Pool.{Pool, unlink_head, allocate_data}
use gaminganywhere.Pipeline.Pool.Chains.{NotIn}
use gaminganywhere.Pipeline.Pool.Refine.{
  Holds, allocate-free, allocate-oldest, load_refines, load-empty, store_refines, release_refines,
}
use gaminganywhere.Pipeline.Pool.Transit.{put}
use gaminganywhere.Modules.FilterRgb2yuv.{
  Setup, Filter, convert, filter_into, filter_allocated, filter_loaded, filter_next, round,
}

-- The filter has taken the image of `x`, and stored it in `y`.
pub record Filtered (p : Setup) (s : Filter) (x y : ℕ) (free queue dstfree dstqueue : List ℕ)
    (t : Filter) : Type 0 where
  pub source : Holds t.srcpool (x ∷ free) queue
  pub destination : Holds t.dstpool dstfree (dstqueue ++ (y ∷ []))
  pub images : t.dstimages ≡ put s.dstimages y (convert p (s.srcimages x) (s.dstimages y))
  pub source_images : t.srcimages ≡ s.srcimages

-- The oldest image of the source, at once or behind the wait, and what is left of the source.
pub data Loads (waited : Pool → Pool) (src : Pool) (x : ℕ) (free queue : List ℕ) : Type 0 where
  at_once : Holds src free (x ∷ queue) → Loads waited src x free queue
  behind_wait :
      (before : List ℕ)
      → Holds src before []
      → Holds (waited src) free (x ∷ queue)
      → Loads waited src x free queue

-- The buffer that the filter writes to, and what is left of its own pipeline: a free buffer, or else
-- the oldest of the queue, whose image is dropped.
pub data Takes (dst : Pool) (y : ℕ) (queue : List ℕ) : List ℕ → Type 0 where
  free_one : {free : List ℕ} → Holds dst (y ∷ free) queue → Takes dst y queue free
  oldest : Holds dst [] (y ∷ queue) → Takes dst y queue []

pub Takes-allocates :
    {dst : Pool} {y : ℕ} {queue free : List ℕ}
    → Takes dst y queue free
    → (d : Pool) × (allocate_data dst ≡ some (y, d)) × Holds d free queue × NotIn y (free ++ queue)
Takes-allocates (free_one h) = allocate-free h
Takes-allocates (oldest h) =
    let (gone, left, out) = load_refines h in (_, allocate-oldest h, left, out)

module _ (p : Setup) (waited : Pool → Pool) (s : Filter) where
  loaded-Filtered :
      {x y : ℕ} {dst : Pool} (free queue dstfree dstqueue : List ℕ) (src : Pool)
      → Holds src free queue
      → NotIn x (free ++ queue)
      → allocate_data s.dstpool ≡ some (y, dst)
      → Holds dst dstfree dstqueue
      → NotIn y (dstfree ++ dstqueue)
      → (t : Filter) × (filter_loaded p s (some x, src) ≡ some t)
        × Filtered p s x y free queue dstfree dstqueue t
  loaded-Filtered {x} {y} {dst} free queue dstfree dstqueue src h out made d outside = (
    filter_into p (record s { srcpool = src }) x (y, dst),
    ap (filter_allocated p (record s { srcpool = src }) x) made,
    record {
      source = release_refines x out h;
      destination = store_refines y dstfree dstqueue outside d;
      images = refl;
      source_images = refl;
    },
  )

  next_loads :
      {x : ℕ} (free queue : List ℕ)
      → Holds s.srcpool free (x ∷ queue)
      → round p waited s ≡ filter_loaded p s (some x, unlink_head s.srcpool x)
  unfolding round
  next_loads free queue h = ap (filter_next p waited s) (load_refines h).0

  next_waits :
      {x : ℕ} (free free' queue : List ℕ)
      → Holds s.srcpool free []
      → Holds (waited s.srcpool) free' (x ∷ queue)
      → round p waited s ≡ filter_loaded p s (some x, unlink_head (waited s.srcpool) x)
  unfolding round
  next_waits free free' queue h w =
      ap (filter_next p waited s) (load-empty h) ∙ ap (filter_loaded p s) (load_refines w).0

  round-Filtered :
      {x y : ℕ} (free queue dstfree dstqueue : List ℕ)
      → Loads waited s.srcpool x free queue
      → (d : Pool) × (allocate_data s.dstpool ≡ some (y, d))
        × Holds d dstfree dstqueue
        × NotIn y (dstfree ++ dstqueue)
      → (t : Filter) × (round p waited s ≡ some t) × Filtered p s x y free queue dstfree dstqueue t
  round-Filtered {x} free queue dstfree dstqueue (at_once h) (d, made, d', outside) =
      let (loaded, left, out) = load_refines h in
      let (t, result, filtered) =
        loaded-Filtered free queue dstfree dstqueue (unlink_head s.srcpool x) left out made d'
          outside in
      (t, next_loads free queue h ∙ result, filtered)
  round-Filtered {x} free queue dstfree dstqueue (behind_wait before h w) (d, made, d', outside) =
      let (loaded, left, out) = load_refines w in
      let (t, result, filtered) =
        loaded-Filtered free queue dstfree dstqueue (unlink_head (waited s.srcpool) x) left out made
          d' outside in
      (t, next_waits before free queue h w ∙ result, filtered)

-- A round of the filter: it takes the oldest image of the source, for which it waits where there is
-- none, gives its buffer back, and appends what it makes of the image to the queue of its own pipeline,
-- in a free buffer or else in the one of the oldest image there, which is dropped. No other buffer is
-- changed, and the round ends without the exit.
pub filter_refines :
    (p : Setup) (waited : Pool → Pool) (s : Filter) {x y : ℕ} (free queue dstfree dstqueue : List ℕ)
    → Loads waited s.srcpool x free queue
    → Takes s.dstpool y dstqueue dstfree
    → (t : Filter) × (round p waited s ≡ some t) × Filtered p s x y free queue dstfree dstqueue t
filter_refines p waited s free queue dstfree dstqueue loads takes =
    round-Filtered p waited s free queue dstfree dstqueue loads (Takes-allocates takes)
