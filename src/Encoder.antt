-- ===== src/Encoder.antt =====
-- The encoder threads and their clients, of ga/core/encoder-common.cpp: one set of encoder threads
-- serves all playing clients. The maps of the source go by addresses; here they are lists in the
-- order of insertion. Each function that changes the clients runs under the write lock, so it is one
-- step. Thread creation is a list of answers: the id of the thread, or `none` for a failure.
pub mod Lifecycle
pub mod Sending
mod Tests
use gaminganywhere.Base.{
  ℕ, zero, suc, ◌+◌, ◌-◌, ◌==◌, ltb, if◌then◌else◌, List, [], ◌∷◌, ◌++◌, Option, none, some, Bool,
  true, false, length, get_or, set, take, replicate,
}

-- `vethreadId` and `aethreadId` hold `none` where no thread was ever created.
pub record Registry : Type 0 where
  pub clients : List ℕ
  pub launched : Bool
  pub vethread : List (Option ℕ)
  pub aethread : Option ℕ
  pub sync_reset : Bool
  pub vencoder : List (ℕ × ℕ)
  pub aencoder : List (ℕ × ℕ)

-- `m[arg] = threadproc`
unfoldable pub put : List (ℕ × ℕ) → ℕ → ℕ → List (ℕ × ℕ)
put [] arg proc = (arg, proc) ∷ []
put ((a, p) ∷ m) arg proc = if a == arg then (arg, proc) ∷ m else (a, p) ∷ put m arg proc

unfoldable pub register_vencoder : Registry → ℕ → ℕ → Registry
unfolding put
register_vencoder r proc arg = record r { vencoder = put r.vencoder arg proc }

unfoldable pub register_aencoder : Registry → ℕ → ℕ → Registry
unfolding put
register_aencoder r proc arg = record r { aencoder = put r.aencoder arg proc }

-- what `pthread_create` answers: for each video encoder in turn, and for the audio encoder
pub record Created : Type 0 where
  pub video : List (Option ℕ)
  pub audio : Option ℕ

-- The loop over the video encoders, `vcount` of which are started. The flag is false where a thread
-- failed to start.
unfoldable pub start_video :
    List (ℕ × ℕ) → List (Option ℕ) → ℕ → List (Option ℕ) → Bool × List (Option ℕ)
start_video [] answers vcount ids = (true, ids)
start_video (e ∷ es) [] vcount ids = (false, ids)
start_video (e ∷ es) (none ∷ answers) vcount ids = (false, ids)
start_video (e ∷ es) (some t ∷ answers) vcount ids =
    start_video es answers (suc vcount) (set ids vcount (some t))

-- The audio thread, of the first audio encoder only.
unfoldable pub start_audio : List (ℕ × ℕ) → Option ℕ → Option ℕ → Bool × Option ℕ
start_audio [] answer old = (true, old)
start_audio (e ∷ es) none old = (false, old)
start_audio (e ∷ es) (some t) old = (true, some t)

unfoldable pub contains : List ℕ → ℕ → Bool
contains [] c = false
contains (x ∷ xs) c = if x == c then true else contains xs c

-- `encoder_clients[rtsp] = rtsp`
unfoldable pub add_client : List ℕ → ℕ → List ℕ
unfolding contains
add_client cs c = if contains cs c then cs else cs ++ (c ∷ [])

-- `encoder_clients.erase(rtsp)`
unfoldable pub erase_client : List ℕ → ℕ → List ℕ
erase_client [] c = []
erase_client (x ∷ xs) c = let rest = erase_client xs c in if x == c then rest else x ∷ rest

-- the threads that the first client starts; the flag is false where one failed
unfoldable pub start_threads : Registry → Created → Bool × Registry
unfolding start_video start_audio
start_threads r made =
    let (video, ids) = start_video r.vencoder made.video 0 r.vethread in
    if video
    then (let (audio, id) = start_audio r.aencoder made.audio r.aethread in
        (audio, record r { vethread = ids; aethread = id; launched = audio }))
    else (false, record r { vethread = ids; launched = false })

-- `encoder_register_client`; the flag is false where the source returns -1.
unfoldable pub register_client : Registry → Created → ℕ → Bool × Registry
unfolding start_threads add_client
register_client r made c =
    let (started, r') = if length r.clients == 0 then start_threads r made else (true, r) in
    if started then (true, record r' { clients = add_client r'.clients c }) else (false, r')

-- `vethreadId[0]` up to `vethreadId[n - 1]`
abbrev pub video_ids : List (Option ℕ) → ℕ → List (Option ℕ)
video_ids ids n = take n ids

-- `encoder_unregister_client`, for `n` video channels: the ids handed to `pthread_join` in order,
-- and the registry.
unfoldable pub unregister_client : Registry → ℕ → ℕ → List (Option ℕ) × Registry
unfolding erase_client
unregister_client r n c =
    let left = erase_client r.clients c in
    if length left == 0
    then (
      video_ids r.vethread n ++ (r.aethread ∷ []),
      record r { clients = left; launched = false; sync_reset = true },
    )
    else ([], record r { clients = left })

-- the statics of the source, for `n` video channels at most
abbrev pub initial : Registry
initial = record {
  clients = [];
  launched = false;
  vethread = replicate 8 none;
  aethread = none;
  sync_reset = true;
  vencoder = [];
  aencoder = [];
}
