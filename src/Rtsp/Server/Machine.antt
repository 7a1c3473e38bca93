-- ===== src/Rtsp/Server/Machine.antt =====
-- The request loop of `rtspserver` (ga/core/rtspserver.cpp), over the requests of one connection, and
-- its protocol: the state machine of `RTSPServerState` that each command moves.
use gaminganywhere.Base.{if◌then◌else◌, not, List, [], ◌∷◌, none, Bool, true, false, replicate}
use gaminganywhere.Rtsp.Server.{
  Bytes, codes, Context, ServerState, idle, teardown, method, version, Header, ServerConf, udp,
  Line, reply_error, Outcome, done, fault, same, channel_max,
}
use gaminganywhere.Rtsp.Server.Commands.{
  Answers, describe, options, setup, play, pause_stream, tear_down,
}

pub data Command : Type 0 where
  describe_cmd options_cmd setup_cmd play_cmd pause_cmd teardown_cmd unknown_cmd : Command

-- the chain of `strcmp(cmd, …)`
unfoldable pub command : Bytes → Command
unfolding same
command cmd =
    if same cmd (codes "DESCRIBE")
    then describe_cmd
    else if same cmd (codes "OPTIONS")
    then options_cmd
    else if same cmd (codes "SETUP")
    then setup_cmd
    else if same cmd (codes "PLAY")
    then play_cmd
    else if same cmd (codes "PAUSE")
    then pause_cmd
    else if same cmd (codes "TEARDOWN")
    then teardown_cmd
    else unknown_cmd

-- one request as it was read, with the answers of the outside to its handler
pub record Request : Type 0 where
  pub cmd : Bytes
  pub url : Bytes
  pub protocol : Bytes
  pub header : Header
  pub answers : Answers

unfoldable pub dispatch : ServerConf → Command → Context → Request → Outcome
unfolding describe options setup play pause_stream tear_down
dispatch conf describe_cmd c r = describe conf r.answers c r.url
dispatch conf options_cmd c r = options c
dispatch conf setup_cmd c r = setup conf r.answers c r.header
dispatch conf play_cmd c r = play conf r.answers c r.header
dispatch conf pause_cmd c r = pause_stream conf r.answers c r.header
dispatch conf teardown_cmd c r = tear_down conf r.answers c r.header
dispatch conf unknown_cmd c r = done c (reply_error c method)

-- How a connection stands: it waits for a request, it was closed, or it hit a fault.
pub data Connection : Type 0 where
  waiting closed : Context → Connection
  crashed : Connection

abbrev pub is_teardown : ServerState → Bool
is_teardown teardown = true
is_teardown _ = false

-- What the loop does behind a handler: it ends in the state TEARDOWN.
unfoldable pub after : Outcome → List Line × Connection
after fault = ([], crashed)
after (done c out) = (out, if is_teardown c.state then closed c else waiting c)

-- One round of the loop on a request; `ctx.seq` is set before the handler runs.
unfoldable pub serve_one : ServerConf → Context → Request → List Line × Connection
unfolding after dispatch command same
serve_one conf c r =
    if not (same r.protocol (codes "RTSP/1.0"))
    then (reply_error c version, closed (record c { state = teardown }))
    else after (dispatch conf (command r.cmd) (record c { seq = r.header.header_seq }) r)

-- A connection that is not waiting reads no more requests.
unfoldable pub serve : ServerConf → Connection → List Request → List (List Line) × Connection
serve conf s [] = ([], s)
serve conf (waiting c) (r ∷ rs) =
    let (out, s) = serve_one conf c r in let (outs, s') = serve conf s rs in (out ∷ outs, s')
serve conf s (r ∷ rs) = ([], s)

-- the context behind the `bzero` of `rtspserver`
abbrev pub initial : Context
initial = record {
  state = idle;
  seq = 0;
  session_id = none;
  lower_transport = replicate channel_max udp;
  fmtctx = replicate channel_max false;
  stream = replicate channel_max false;
  encoder = replicate channel_max false;
}
