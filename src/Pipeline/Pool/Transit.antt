-- ===== src/Pipeline/Pool/Transit.antt =====
-- What passes through a pipeline from a thread that writes images to one that reads them: the buffers
-- with their contents, while the calls of the two threads interleave in any order. The writer allocates
-- a buffer, fills it and stores it (vsource_threadproc of ga/module/vsource-desktop/vsource-desktop.cpp,
-- play_video_priv of ga/client/rtspclient.cpp); the reader loads one, uses it and releases it
-- (vencoder_threadproc of ga/module/encoder-video/encoder-video.cpp, render_image of
-- ga/client/ga-client.cpp).
pub mod Places
pub mod Order
mod Tests
use gaminganywhere.Base.{ℕ, ◌≡◌, ◌==◌, if◌then◌else◌, List, [], ◌∷◌, ◌++◌, some}
use gaminganywhere.Pipeline.Pool.{Pool, load_data, allocate_data, store_data, release_data}

-- Where the writer is: without a buffer, with one to fill, or with one that is filled.
pub data Writer : Type 0 where
  idle : Writer
  filling : ℕ → Writer
  filled : ℕ → Writer

-- Where the reader is: without a buffer, with one that it has not used yet, or with one that it has.
pub data Reader : Type 0 where
  idle : Reader
  holding : ℕ → Reader
  done : ℕ → Reader

-- The pool, the contents of the buffers, the threads, and what was written and read so far.
pub record Transit (A : Type 0) : Type 0 where
  pub pool : Pool
  pub contents : ℕ → A
  pub writer : Writer
  pub reader : Reader
  pub written : List A
  pub got : List A

-- A write to what the buffer `x` holds.
abbrev pub put : {A : Type 0} → (ℕ → A) → ℕ → A → ℕ → A
put c x a y = if x == y then a else c y

pub data Step {A : Type 0} : Transit A → Transit A → Type 0 where
  allocate :
      {s s' : Pool} {c : ℕ → A} {r : Reader} {w g : List A} {x : ℕ}
      → allocate_data s ≡ some (x, s')
      → Step
          (record {
            pool = s;
            contents = c;
            writer = Writer.idle;
            reader = r;
            written = w;
            got = g;
          })
          (record { pool = s'; contents = c; writer = filling x; reader = r; written = w; got = g })
  fill :
      {s : Pool} {c : ℕ → A} {r : Reader} {w g : List A} (x : ℕ) (a : A)
      → Step
          (record { pool = s; contents = c; writer = filling x; reader = r; written = w; got = g })
          (record {
            pool = s;
            contents = put c x a;
            writer = filled x;
            reader = r;
            written = w ++ (a ∷ []);
            got = g;
          })
  store :
      {s : Pool} {c : ℕ → A} {r : Reader} {w g : List A} (x : ℕ)
      → Step
          (record { pool = s; contents = c; writer = filled x; reader = r; written = w; got = g })
          (record {
            pool = store_data s x;
            contents = c;
            writer = Writer.idle;
            reader = r;
            written = w;
            got = g;
          })
  load :
      {s s' : Pool} {c : ℕ → A} {p : Writer} {w g : List A} {x : ℕ}
      → load_data s ≡ (some x, s')
      → Step
          (record {
            pool = s;
            contents = c;
            writer = p;
            reader = Reader.idle;
            written = w;
            got = g;
          })
          (record { pool = s'; contents = c; writer = p; reader = holding x; written = w; got = g })
  read :
      {s : Pool} {c : ℕ → A} {p : Writer} {w g : List A} (x : ℕ)
      → Step
          (record { pool = s; contents = c; writer = p; reader = holding x; written = w; got = g })
          (record {
            pool = s;
            contents = c;
            writer = p;
            reader = done x;
            written = w;
            got = g ++ (c x ∷ []);
          })
  release :
      {s : Pool} {c : ℕ → A} {p : Writer} {w g : List A} (x : ℕ)
      → Step
          (record { pool = s; contents = c; writer = p; reader = done x; written = w; got = g })
          (record {
            pool = release_data s x;
            contents = c;
            writer = p;
            reader = Reader.idle;
            written = w;
            got = g;
          })

pub data Reach {A : Type 0} (t : Transit A) : Transit A → Type 0 where
  here : Reach t t
  then : {u v : Transit A} → Reach t u → Step u v → Reach t v

-- Both threads before their first call.
abbrev pub at_start : {A : Type 0} → Pool → (ℕ → A) → Transit A
at_start pool c = record {
  pool = pool;
  contents = c;
  writer = Writer.idle;
  reader = Reader.idle;
  written = [];
  got = [];
}
