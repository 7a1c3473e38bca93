-- ===== src/Rtsp/Server/Streams.antt =====
-- `rtp_new_av_stream` of ga/core/rtspserver.cpp: the output stream that a SETUP makes. What the
-- calls of libav come to is a record of answers.
use gaminganywhere.Base.{
  ℕ, ◌==◌, ltb, if◌then◌else◌, ◌&&◌, not, ◌≡◌, arith, Option, none, some, Bool, true, false,
  get_elem?, set,
}
use gaminganywhere.Rtsp.Server.{
  Context, ServerConf, LowerTransport, udp, tcp, multicast, source_channel_max,
}

pub record AvAnswers : Type 0 where
  pub format : Bool
  pub context : Bool
  pub open_url : Bool
  pub open_packet_buf : Bool
  pub new_stream : Bool
  pub encoder_init : Bool
  pub write_header : Bool

-- Does the output of the transport open? For another transport `pb` stays NULL, and is followed.
abbrev pub opens : AvAnswers → LowerTransport → Option Bool
opens av udp = some av.open_url
opens av tcp = some av.open_packet_buf
opens av multicast = none

-- The pointers are stored before the header is written.
abbrev pub store_stream : Context → ℕ → Context
store_stream c i = record c {
  encoder = set c.encoder i true;
  stream = set c.stream i true;
  fmtctx = set c.fmtctx i true;
}

-- behind the opened output
finish_stream : AvAnswers → Context → ℕ → Option Bool → Option (Bool × Context)
finish_stream av c i none = none
finish_stream av c i (some opened) =
    if opened && av.new_stream && av.encoder_init
    then some (av.write_header, store_stream c i)
    else some (false, c)

-- behind the test of the stream's number, over `ctx->fmtctx[streamid]` and the stream's transport
open_stream :
    AvAnswers → Context → ℕ → Option Bool → Option LowerTransport → Option (Bool × Context)
unfolding finish_stream
open_stream av c i (some busy) (some t) =
    if busy
    then some (false, c)
    else if not (av.format && av.context)
    then some (false, c)
    else finish_stream av c i (opens av t)
open_stream av c i _ _ = none

-- The flag is false where the source returns -1; `none` is an index behind the end of the
-- arrays, or a NULL pointer followed.
unfoldable pub rtp_new_av_stream :
    ServerConf → AvAnswers → Context → ℕ → ℕ → Option (Bool × Context)
unfolding open_stream
rtp_new_av_stream conf av c streamid codecid =
    if ltb source_channel_max streamid
    then some (false, c)
    else if not (codecid == conf.video_codec) && not (codecid == conf.audio_codec)
    then some (false, c)
    else open_stream av c streamid (get_elem? c.fmtctx streamid)
        (get_elem? c.lower_transport streamid)

pub state-rtp_new_av_stream :
    (conf : ServerConf) (av : AvAnswers) (c : Context) (i codecid : ℕ) {b : Bool} {c' : Context}
    → rtp_new_av_stream conf av c i codecid ≡ some (b, c')
    → c'.state ≡ c.state
unfolding rtp_new_av_stream
state-rtp_new_av_stream conf av c i codecid e = ground arith
