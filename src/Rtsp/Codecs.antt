-- ===== src/Rtsp/Codecs.antt =====
-- per_client_init, close_av and per_client_deinit of ga/core/rtspserver.cpp: the codecs and streams of
-- a connection, on a heap that says of each AVStream its `codec`, and of each AVFormatContext its
-- `streams` and whether it has a `pb`. The calls that give something back are logged in their order.
-- A codec is not NULL, which rtspconf_load_codec sees to, and there is sound (ENABLE_AUDIO).
pub mod Given
pub mod Sdp
pub mod Freed
pub mod Opened
mod Tests
use gaminganywhere.Base.{
  ℕ, zero, suc, ◌+◌, ◌==◌, if◌then◌else◌, ◌&&◌, Bool, true, false, List, [], ◌∷◌, ◌++◌, Option,
  none, some,
}
use gaminganywhere.Rtsp.Server.{LowerTransport, udp, same_transport}

pub data Event : Type 0 where
  codec_closed : ℕ → Event
  codec_freed : ℕ → Event
  stream_freed : ℕ → Event
  pb_closed : ℕ → Event
  context_freed : ℕ → Event
  rbuffer_freed : Event

pub record Heap : Type 0 where
  pub codec : ℕ → Option ℕ
  pub streams : ℕ → List ℕ
  pub pb : ℕ → Bool
  pub next : ℕ
  pub log : List Event

abbrev pub note : Event → Heap → Heap
note e h = record h { log = h.log ++ (e ∷ []) }

abbrev pub set_codec : ℕ → Option ℕ → Heap → Heap
set_codec s c h = record h { codec = λ x. if x == s then c else h.codec x }

abbrev pub same_ptr : Option ℕ → Option ℕ → Bool
same_ptr none none = true
same_ptr (some p) (some q) = p == q
same_ptr _ _ = false

abbrev pub ga_avcodec_close : Option ℕ → Heap → Heap
ga_avcodec_close none h = h
ga_avcodec_close (some c) h = note (codec_closed c) h

-- `av_free` on a codec context, or NULL
abbrev pub free_codec : Option ℕ → Heap → Heap
free_codec none h = h
free_codec (some c) h = note (codec_freed c) h

abbrev pub free_stream : Option ℕ → Heap → Heap
free_stream none h = h
free_stream (some s) h = note (stream_freed s) h

-- The part of close_av on `st->codec`, over what the stream holds.
abbrev pub close_held : Option ℕ → ℕ → Option ℕ → Heap → Heap
close_held cctx s none h = h
close_held cctx s (some c) h =
    set_codec s none (if same_ptr (some c) cctx then h else ga_avcodec_close (some c) h)

abbrev pub close_stream_codec : Option ℕ → Option ℕ → Heap → Heap
close_stream_codec cctx none h = h
close_stream_codec cctx (some s) h = close_held cctx s (h.codec s) h

-- `st` and `cctx` are set to NULL where the context turns out to hold them.
pub record Closing : Type 0 where
  pub heap : Heap
  pub st : Option ℕ
  pub cctx : Option ℕ

-- A round of the loop over `fctx->streams`, over the stream's codec.
abbrev pub close_next : Closing → ℕ → Option ℕ → Closing
close_next c s held = record {
  heap = note (stream_freed s) (
      set_codec s none
        (free_codec held (if same_ptr c.cctx held then c.heap else ga_avcodec_close held c.heap)));
  st = if same_ptr c.st (some s) then none else c.st;
  cctx = if same_ptr c.cctx held then none else c.cctx;
}

pub close_streams : Closing → List ℕ → Closing
close_streams c [] = c
close_streams c (s ∷ ss) = close_streams (close_next c s (c.heap.codec s)) ss

abbrev pub close_pb : ℕ → LowerTransport → Heap → Heap
close_pb f transport h = if same_transport transport udp && h.pb f then note (pb_closed f) h else h

abbrev pub close_context : Option ℕ → LowerTransport → Closing → Closing
close_context none transport c = c
close_context (some f) transport c =
    let c' = close_streams c (c.heap.streams f) in
    record c' { heap = note (context_freed f) (close_pb f transport c'.heap) }

abbrev pub free_left : Closing → Heap
free_left c = free_stream c.st (free_codec c.cctx c.heap)

pub close_av : Option ℕ → Option ℕ → Option ℕ → LowerTransport → Heap → Heap
close_av fctx st cctx transport h = free_left (
    close_context fctx transport (record {
      heap = close_stream_codec cctx st (ga_avcodec_close cctx h);
      st = st;
      cctx = cctx;
    }))

-- `fmtctx`, `stream`, `encoder` and `lower_transport` at one index
pub record Slot : Type 0 where
  pub fmtctx : Option ℕ
  pub stream : Option ℕ
  pub encoder : Option ℕ
  pub lower_transport : LowerTransport

pub record Connection : Type 0 where
  pub slots : List Slot
  pub sdp_fmtctx : Option ℕ
  pub rbuffer : Bool
  pub rbufhead : ℕ
  pub rbuftail : ℕ
  pub rbufsize : ℕ

abbrev pub close_slot : Slot → Heap → Heap
close_slot x h = close_av x.fmtctx x.stream x.encoder x.lower_transport h

-- The loop of per_client_deinit for so many rounds; none means that it leaves the arrays.
pub close_slots : ℕ → List Slot → Heap → Option Heap
close_slots zero xs h = some h
close_slots (suc n) [] h = none
close_slots (suc n) (x ∷ xs) h = close_slots n xs (close_slot x h)

abbrev pub free_rbuffer : Bool → Heap → Heap
free_rbuffer true h = note rbuffer_freed h
free_rbuffer false h = h

-- behind the loop
abbrev pub deinit_rest : Connection → Heap → Connection × Heap
deinit_rest c h = (
  record c { rbufsize = 0; rbufhead = 0; rbuftail = 0 },
  free_rbuffer c.rbuffer (close_av c.sdp_fmtctx none none udp h),
)

abbrev pub deinit_with : Connection → Option Heap → Option (Connection × Heap)
deinit_with c none = none
deinit_with c (some h) = some (deinit_rest c h)

pub per_client_deinit : ℕ → Connection → Heap → Option (Connection × Heap)
per_client_deinit channels c h = deinit_with c (close_slots (channels + 1) c.slots h)

-- What libav answers in per_client_init; stream number `channels` is the sound.
pub record InitAnswers : Type 0 where
  pub format : Bool
  pub context : Bool
  pub new_stream : ℕ → Bool
  pub open_codec : ℕ → Bool

-- `avformat_new_stream`: a stream with a codec context of its own, behind those that are there
abbrev pub add_stream : ℕ → Heap → Heap
add_stream f h = record h {
  codec = λ x. if x == h.next then some (h.next + 1) else h.codec x;
  streams = λ x. if x == f then h.streams f ++ (h.next ∷ []) else h.streams x;
  next = h.next + 2;
}

-- ga_avcodec_vencoder_init and ga_avcodec_aencoder_init on the codec of a stream: where the codec does
-- not open, its context is freed, and the stream still holds it.
abbrev pub encoder_init : Bool → ℕ → Heap → Bool × Heap
encoder_init true c h = (true, h)
encoder_init false c h = (false, note (codec_freed c) (note (codec_closed c) h))

abbrev pub init_stream : InitAnswers → ℕ → ℕ → Heap → Bool × Heap
init_stream av f i h =
    if av.new_stream i
    then encoder_init (av.open_codec i) (h.next + 1) (add_stream f h)
    else (false, h)

-- A stream for each channel from `i` on, and one for the sound behind them; it stops at a failure.
pub init_streams : InitAnswers → ℕ → ℕ → ℕ → Heap → Bool × Heap
init_streams av f zero i h = init_stream av f i h
init_streams av f (suc n) i h =
    let r = init_stream av f i h in
    let rest = init_streams av f n (suc i) r.1 in if r.0 then rest else (false, r.1)

-- `avformat_alloc_context`
abbrev pub add_context : Heap → Heap
add_context h = record h {
  streams = λ x. if x == h.next then [] else h.streams x;
  pb = λ x. if x == h.next then false else h.pb x;
  next = h.next + 1;
}

-- Is it successful, `sdp_fmtctx`, and the heap.
pub per_client_init : InitAnswers → ℕ → Heap → Bool × (Option ℕ × Heap)
per_client_init av channels h =
    if av.format && av.context
    then (let r = init_streams av h.next channels 0 (add_context h) in (r.0, (some h.next, r.1)))
    else (false, (none, h))
