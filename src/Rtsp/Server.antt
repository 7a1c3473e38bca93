-- ===== src/Rtsp/Server.antt =====
-- The state of one RTSP connection (`RTSPContext` of ga/core/rtspserver.h), and what the command
-- handlers of ga/core/rtspserver.cpp share: replies, transports and paths. A reply is the list of
-- the lines that are printed to the socket.
pub mod Streams
pub mod Commands
pub mod Machine
pub mod Faults
pub mod Protocol
pub mod Traces
mod Tests
use Prim.Native.Char.{code}
use Prim.Native.String.{String}
use gaminganywhere.Base.{
  ℕ, zero, suc, ◌+◌, ◌==◌, ltb, if◌then◌else◌, ◌&&◌, List, [], ◌∷◌, ◌++◌, Option, none, some, Bool,
  true, false, length, drop,
}

abbrev pub Bytes : Type 0
Bytes = List ℕ

-- The code points of a text: its bytes, for the ASCII texts of the source.
abbrev pub codes : String → Bytes
codes String.[] = []
codes (String.◌∷◌ c s) = code c ∷ codes s

-- `enum RTSPServerState`
pub data ServerState : Type 0 where
  idle ready playing pause teardown : ServerState

-- `enum RTSPLowerTransport`, as far as the server looks at it
pub data LowerTransport : Type 0 where
  udp tcp multicast : LowerTransport

-- `enum RTSPStatusCode`, as far as the server replies with it
pub data Status : Type 0 where
  ok method session state aggregate transport internal service version : Status

-- `RTSP_CHANNEL_MAX`: the size of the arrays of a context
abbrev pub channel_max : ℕ
channel_max = 8

-- `IMAGE_SOURCE_CHANNEL_MAX`
abbrev pub source_channel_max : ℕ
source_channel_max = 8

-- What the command handlers read and write of a `RTSPContext`. In the arrays of pointers a flag
-- says whether the pointer is set.
pub record Context : Type 0 where
  pub state : ServerState
  pub seq : ℕ
  pub session_id : Option Bytes
  pub lower_transport : List LowerTransport
  pub fmtctx : List Bool
  pub stream : List Bool
  pub encoder : List Bool

pub record TransportField : Type 0 where
  pub lower : LowerTransport
  pub client_port_min : ℕ
  pub client_port_max : ℕ

-- what the handlers read of a `RTSPMessageHeader`; an empty session id is none
pub record Header : Type 0 where
  pub header_seq : ℕ
  pub header_session : Bytes
  pub transports : List TransportField

-- what the handlers read of the `RTSPConf`
pub record ServerConf : Type 0 where
  pub object : Bytes
  pub video_codec : ℕ
  pub audio_codec : ℕ
  pub channels : ℕ

pub data Line : Type 0 where
  status_line : Status → Line
  cseq : ℕ → Line
  date blank public_methods content_type : Line
  session_line : Bytes → Line
  content_base : Bytes → Line
  content_length : ℕ → Line
  content : Bytes → Line
  transport_udp : ℕ → ℕ → ℕ → ℕ → Line
  transport_tcp : ℕ → ℕ → Line

-- What a handler comes to. A fault is undefined behaviour of the source: a NULL pointer handed to
-- `strcmp`, or an index behind the end of an array.
pub data Outcome : Type 0 where
  done : Context → List Line → Outcome
  fault : Outcome

-- `rtsp_reply_header`
abbrev pub reply_header : Context → Status → List Line
reply_header c s = status_line s ∷ cseq c.seq ∷ date ∷ []

-- `rtsp_reply_error`
abbrev pub reply_error : Context → Status → List Line
reply_error c s = reply_header c s ++ (blank ∷ [])

-- `strcmp(a, b) == 0`
unfoldable pub same : Bytes → Bytes → Bool
same [] [] = true
same (x ∷ xs) (y ∷ ys) = x == y && same xs ys
same _ _ = false

-- `strncmp(path, object, strlen(object)) == 0`
unfoldable pub has_prefix : Bytes → Bytes → Bool
has_prefix path [] = true
has_prefix [] (y ∷ ys) = false
has_prefix (x ∷ xs) (y ∷ ys) = x == y && has_prefix xs ys

unfoldable pub same_transport : LowerTransport → LowerTransport → Bool
same_transport udp udp = true
same_transport tcp tcp = true
same_transport multicast multicast = true
same_transport _ _ = false

-- `find_transport`
unfoldable pub find_transport : List TransportField → LowerTransport → Option TransportField
unfolding same_transport
find_transport [] t = none
find_transport (th ∷ ths) t = if same_transport th.lower t then some th else find_transport ths t

-- `snprintf(channelname[i], …, "streamid=%d", i)`, for one digit
abbrev pub channelname : ℕ → Bytes
channelname i = codes "streamid=" ++ ((b'0' + i) ∷ [])

-- the loop over `channelname`, with `n` names left from name `i` on
unfoldable pub find_stream : Bytes → ℕ → ℕ → Option ℕ
unfolding same
find_stream name i zero = none
find_stream name i (suc n) =
    let rest = find_stream name (suc i) n in if same name (channelname i) then some i else rest

-- `path + baselen + 1`. Where the path ends at `baselen`, this is behind its terminator, and `stale`
-- is what the array holds there.
unfoldable pub stream_name : Bytes → Bytes → Bytes → Bytes
stream_name path object stale =
    if length path == length object then stale else drop (suc (length object)) path
