-- ===== src/Rtsp/Server/Commands.antt =====
-- The command handlers of ga/core/rtspserver.cpp. What they call outside the repository is a record
-- of answers for each request.
use gaminganywhere.Base.{
  ℕ, suc, ◌+◌, ◌*◌, if◌then◌else◌, not, ◌==◌, List, [], ◌∷◌, ◌++◌, Option, none, some, Bool, true,
  false, set, length, ltb,
}
use gaminganywhere.Rtsp.Server.{
  Bytes, Context, ServerState, idle, ready, playing, pause, teardown, Status, ok, session, state,
  aggregate, transport, internal, service, Header, ServerConf, TransportField, LowerTransport, udp,
  tcp, multicast, Line, status_line, cseq, blank, public_methods, content_type, session_line,
  content_base, content_length, content, transport_udp, transport_tcp, Outcome, done, fault,
  reply_header, reply_error, same, has_prefix, find_transport, find_stream, stream_name,
  source_channel_max, channel_max,
}
use gaminganywhere.Rtsp.Server.Streams.{AvAnswers, rtp_new_av_stream}

-- `path` is what `av_url_split` makes of the URL, `stale` what its array holds behind the end;
-- `sdp` is the description that `av_sdp_create` prints; `fresh_id` is the id made from `rand`;
-- `registered` is whether `encoder_register_client` succeeds.
pub record Answers : Type 0 where
  pub path : Bytes
  pub stale : Bytes
  pub sdp : Bytes
  pub fresh_id : Bytes
  pub peername : Bool
  pub sockname : Bool
  pub rtp_port : ℕ
  pub rtcp_port : ℕ
  pub registered : Bool
  pub av : AvAnswers

-- `content_length` comes from `strlen`, so it is not below 0.
unfoldable pub describe : ServerConf → Answers → Context → Bytes → Outcome
unfolding same
describe conf env c url =
    if same env.path conf.object
    then done c (
        reply_header c ok
        ++ (content_base url
            ∷ content_type
            ∷ content_length (length env.sdp)
            ∷ blank
            ∷ content env.sdp
            ∷ []))
    else done c (reply_error c service)

unfoldable pub options : Context → Outcome
options c = done c (status_line ok ∷ cseq c.seq ∷ public_methods ∷ blank ∷ [])

-- The label `error_setup`: the session is dropped and the stream's pointers are cleared. The arrays
-- are read first, which stream 8 is out of.
abbrev pub cleared : Context → ℕ → Context
cleared c i = record c {
  session_id = none;
  encoder = set c.encoder i false;
  stream = set c.stream i false;
  fmtctx = set c.fmtctx i false;
}

abbrev pub setup_failed : Context → ℕ → Status → Outcome
setup_failed c i err =
    if ltb i channel_max then done (cleared c i) (reply_error (cleared c i) err) else fault

-- the `Transport:` line of a SETUP's reply
abbrev pub transport_line : Answers → TransportField → ℕ → LowerTransport → List Line
transport_line env th i udp =
    transport_udp th.client_port_min th.client_port_max env.rtp_port env.rtcp_port ∷ []
transport_line env th i tcp = transport_tcp (i * 2) (i * 2 + 1) ∷ []
transport_line env th i multicast = []

-- behind `rtp_new_av_stream`, with the session's id
unfoldable pub finish_setup :
    Answers → TransportField → ℕ → Bytes → Option (Bool × Context) → Outcome
finish_setup env th i id none = fault
finish_setup env th i id (some (false, c)) = setup_failed c i transport
finish_setup env th i id (some (true, c)) =
    done (record c { state = ready })
      (reply_header c ok ++ (session_line id ∷ (transport_line env th i th.lower ++ (blank ∷ []))))

-- the transport that a SETUP takes: UDP where it is offered, else TCP
abbrev pub pick_transport : List TransportField → Option TransportField
pick_transport ths = elim (find_transport ths udp) [
  | some th ↦ some th
  | none ↦ find_transport ths tcp
]

-- from `find_transport` on, with the session's id. Stream 8 has no room in the arrays.
unfoldable pub setup_transport :
    ServerConf → Answers → Context → ℕ → Bytes → Option TransportField → Outcome
unfolding finish_setup rtp_new_av_stream
setup_transport conf env c i id none = setup_failed c i transport
setup_transport conf env c i id (some th) =
    if not env.peername
    then setup_failed c i internal
    else if not env.sockname
    then setup_failed c i internal
    else if not (ltb i channel_max)
    then fault
    else finish_setup env th i id (
        rtp_new_av_stream conf env.av
          (record c { lower_transport = set c.lower_transport i th.lower }) i
          (if i == conf.channels then conf.audio_codec else conf.video_codec))

-- The session's id behind the code that may make one: the context's and the header's, and whether
-- they match.
unfoldable pub setup_session :
    ServerConf → Answers → Context → Header → ℕ → Option Bytes → Bytes → Outcome
unfolding setup_transport
setup_session conf env c h i (some id) given =
    if same id given
    then setup_transport conf env c i id (pick_transport h.transports)
    else setup_failed c i session
setup_session conf env c h i none [] =
    setup_transport conf env (record c { session_id = some env.fresh_id }) i env.fresh_id
      (pick_transport h.transports)
setup_session conf env c h i none (x ∷ xs) = setup_failed c i session

abbrev pub may_setup : ServerState → Bool
may_setup idle = true
may_setup ready = true
may_setup _ = false

unfoldable pub setup_stream : ServerConf → Answers → Context → Header → Option ℕ → Outcome
unfolding setup_session
setup_stream conf env c h none = done c (reply_error c service)
setup_stream conf env c h (some i) =
    if may_setup c.state
    then setup_session conf env c h i c.session_id h.header_session
    else done c (reply_error c state)

unfoldable pub setup : ServerConf → Answers → Context → Header → Outcome
unfolding setup_stream has_prefix find_stream stream_name find_transport same
setup conf env c h =
    if has_prefix env.path conf.object
    then setup_stream conf env c h
        (find_stream (stream_name env.path conf.object env.stale) 0 (suc source_channel_max))
    else done c (reply_error c aggregate)

-- What PLAY, PAUSE and TEARDOWN test first. `strcmp` is handed `ctx->session_id`, set or not.
unfoldable pub with_session : ServerConf → Answers → Context → Header → (Bytes → Outcome) → Outcome
unfolding has_prefix same
with_session conf env c h act =
    if has_prefix env.path conf.object
    then elim c.session_id [
      | none ↦ fault
      | some id ↦ if same id h.header_session then act id else done c (reply_error c session)
    ]
    else done c (reply_error c session)

-- the reply to a command that changes the state
abbrev pub accept : Context → ServerState → Bytes → Outcome
accept c st id =
    done (record c { state = st }) (reply_header c ok ++ (session_line id ∷ blank ∷ []))

abbrev pub may_play : ServerState → Bool
may_play ready = true
may_play pause = true
may_play _ = false

unfoldable pub play : ServerConf → Answers → Context → Header → Outcome
unfolding with_session
play conf env c h = with_session conf env c h λ id.
    if not (may_play c.state)
    then done c (reply_error c state)
    else if not env.registered
    then done c (reply_error c internal)
    else accept c playing id

abbrev pub may_pause : ServerState → Bool
may_pause playing = true
may_pause _ = false

unfoldable pub pause_stream : ServerConf → Answers → Context → Header → Outcome
unfolding with_session
pause_stream conf env c h =
    with_session conf env c h
      λ id. if may_pause c.state then accept c pause id else done c (reply_error c state)

unfoldable pub tear_down : ServerConf → Answers → Context → Header → Outcome
unfolding with_session
tear_down conf env c h = with_session conf env c h λ id. accept c teardown id
