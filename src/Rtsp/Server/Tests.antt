-- ===== src/Rtsp/Server/Tests.antt =====
-- The theorems on the RTSP server at a connection to the object `/desktop`.
use gaminganywhere.Base.{length, List, ◌≡◌, ◌↔◌, refl, [], ◌∷◌, none, true}
use gaminganywhere.Rtsp.Server.{
  same, Bytes, codes, ServerConf, Header, tcp, fault, has_prefix, find_stream, stream_name,
}
use gaminganywhere.Rtsp.Server.Streams.{AvAnswers}
use gaminganywhere.Rtsp.Server.Commands.{
  describe, options, Answers, setup, play, pause_stream, tear_down,
}
use gaminganywhere.Rtsp.Server.Machine.{
  setup_cmd, Request, dispatch, initial, waiting, serve, serve_one, after, command,
}
use gaminganywhere.Rtsp.Server.Traces.{AllAnswered, serve-AllAnswered}
use gaminganywhere.Rtsp.Server.Protocol.{Keeps, dispatch-Keeps}
use gaminganywhere.Rtsp.Server.Faults.{play-fault_iff, setup_out_of_range}

abbrev conf : ServerConf
conf = record { object = codes "/desktop"; video_codec = 27; audio_codec = 86017; channels = 1 }

abbrev av : AvAnswers
av = record {
  format = true;
  context = true;
  open_url = true;
  open_packet_buf = true;
  new_stream = true;
  encoder_init = true;
  write_header = true;
}

abbrev answers_for : Bytes → Answers
answers_for path = record {
  path = path;
  stale = [];
  sdp = [];
  fresh_id = codes "0123456789abcdef";
  peername = true;
  sockname = true;
  rtp_port = 5000;
  rtcp_port = 5001;
  registered = true;
  av = av;
}

abbrev header : Header
header = record {
  header_seq = 3;
  header_session = [];
  transports = record { lower = tcp; client_port_min = 0; client_port_max = 0 } ∷ [];
}

abbrev setup_request : Request
setup_request = record {
  cmd = codes "SETUP";
  url = codes "rtsp://host/desktop/streamid=0";
  protocol = codes "RTSP/1.0";
  header = header;
  answers = answers_for (codes "/desktop/streamid=0");
}

dispatch-Keeps_example :
    Keeps setup_cmd initial.state (dispatch conf setup_cmd initial setup_request)
dispatch-Keeps_example = dispatch-Keeps conf setup_cmd initial setup_request

play-fault_iff_example :
    ((play conf (answers_for (codes "/desktop")) initial header ≡ fault)
      ↔ ((has_prefix (codes "/desktop") conf.object ≡ true) × (initial.session_id ≡ none)))
    × ((pause_stream conf (answers_for (codes "/desktop")) initial header ≡ fault)
        ↔ ((has_prefix (codes "/desktop") conf.object ≡ true) × (initial.session_id ≡ none)))
    × ((tear_down conf (answers_for (codes "/desktop")) initial header ≡ fault)
        ↔ ((has_prefix (codes "/desktop") conf.object ≡ true) × (initial.session_id ≡ none)))
play-fault_iff_example = play-fault_iff conf (answers_for (codes "/desktop")) initial header

setup_out_of_range_example :
    setup conf (answers_for (codes "/desktop/streamid=8")) initial header ≡ fault
unfolding has_prefix find_stream stream_name
setup_out_of_range_example =
    setup_out_of_range conf (answers_for (codes "/desktop/streamid=8")) initial header refl refl
      refl

abbrev request_for : Bytes → Request
request_for cmd = record {
  cmd = cmd;
  url = codes "rtsp://host/desktop";
  protocol = codes "RTSP/1.0";
  header = header;
  answers = answers_for (codes "/desktop");
}

abbrev requests : List Request
requests = request_for (codes "OPTIONS") ∷ request_for (codes "DESCRIBE") ∷ []

serve-AllAnswered_example :
    (length (serve conf (waiting initial) requests).0 ≡ length requests)
    × AllAnswered (serve conf (waiting initial) requests).0
unfolding serve serve_one after dispatch command same describe options
serve-AllAnswered_example =
    serve-AllAnswered conf requests initial (record initial { seq = 3 }) refl
