-- ===== src/Lib.antt =====
-- A model of GamingAnywhere's core, an open cloud gaming server: a server captures frames and sound,
-- encodes them, and streams them over RTSP and RTP; a client sends its input events back.
--
-- The parts, and how they work together. A video source sets up a pipeline for each channel (Video:
-- ga/core/vsource.cpp) and fills frames into its buffers, from which filters and encoders take them
-- (Pipeline/Pool: the pools of ga/core/pipeline.cpp). The audio source fills the same sound into
-- one buffer for each client, from which its encoder reads (Audio/Buffer: ga/core/asource.cpp). The
-- RTSP server runs one connection in one thread, whose commands move a state machine (Rtsp/Server:
-- ga/core/rtspserver.cpp). PLAY registers the connection with the encoders, which start with the
-- first client and end with the last, and send each packet to the playing clients (Encoder:
-- ga/core/encoder-common.cpp). The client makes messages of its input events (Input:
-- ga/client/ctrl-sdl.cpp), which go through the queue of its controller over a socket to the
-- server's controller, which cuts the stream into messages and replays them (Controller:
-- ga/core/controller.cpp). All of them read their settings from the configuration (Conf:
-- ga/core/ga-conf.cpp, ga/core/ga-confvar.cpp, ga/core/rtspconf.cpp).
--
-- How the code is modelled. The globals or the struct that a group of functions shares is a record,
-- and each function takes it and returns it. A function that holds one mutex from its start to its
-- end is one step. So is a round of `ctrl_server_readnext`, which takes the mutex for the read and
-- again for the release: what another thread does between the two is put behind it. Interleavings
-- are sequences of steps (Pipeline/Pool/Traffic, the `run` of Controller/Queue/Session and of
-- Encoder/Lifecycle). Definitions keep the names of the functions:
-- - Controller/Queue: `ctrl_queue_*` and `ctrl_server_readnext` on the bytes of `qbuffer`; Layout and
--   Units are the arithmetic of the ring, Refine and Session its contract as a list of messages.
-- - Controller/Server: the handshake and the loop of `ctrl_server_thread`; Frames and Delivery are the
--   rounds on one buffer, Stream whole connections. Controller/Client: `ctrl_client_thread`; Drain is
--   its loop on the queue's contract, Hello the handshake of both sides. Controller/Sockets: the setup.
-- - Input: `struct sdlmsg` and its builders; Layout is its memory, Replay the calls of XTest, Events one
--   event from builder to replay, Session the way through queue, socket and server.
-- - Audio/Buffer: `audio_source_buffer_init`, `_fill_one` and `_read`; Bytes is the invariant, Refine
--   and Reads the contract as a run of bytes. Audio/Clients: the map of clients, and the fill of all.
-- - Pipeline/Pool: the class `pipeline`'s buffer pools on a heap of `next` pointers; Chains is the
--   theory of linked nodes, Refine the contract of each method, Setup the building of the pools,
--   Destroy the destructor. Pipeline/Registry: the pipelines by name; Pipeline/Private: private data;
--   Pipeline/Clients: the conditions of the threads that wait.
-- - Video: `vsource_frame_init` and `video_source_setup_ex`; Frames is the buffer of a frame, Setup the
--   channels.
-- - Rtsp/Server: the context and replies; Streams is `rtp_new_av_stream`, Commands the handlers,
--   Machine the dispatch of requests, Protocol the state machine, Traces whole connections, Faults
--   the undefined behaviour.
-- - Rtsp/Interleaved: `rtsp_write_bindata`, RTP packets on the RTSP connection; Frames is what it
--   writes for them. Rtsp/Reader: `rtsp_getnext` and its kin; Stream is the bytes still to come,
--   Lines and Packets one message, Session a connection. Rtsp/Request: the words of a request and
--   the fixes of its session header. Rtsp/Codecs: `per_client_init`, `close_av` and
--   `per_client_deinit` on a heap of codecs and streams; Given is what a call gives back, Sdp and
--   Freed the end of a connection, Opened its whole life.
-- - Encoder: `encoder_register_client` and its kin; Lifecycle the theorems on threads, Sending is
--   `encoder_send_packet` and `encoder_send_packet_all`.
-- - Client/Assembly: `play_video` of ga/client/rtspclient.cpp; Frames is what a decoder gets.
--   Client/Packets: its queue of audio packets; Client/Sound: `audio_fill_buffer`, which decodes
--   them for SDL, with its conversion in Client/Sound/Convert. Client/Process: `ProcessEvent` of
--   ga/client/ga-client.cpp; Queued is the queue behind it, Replays the way of the window's events
--   to the server's display.
-- - Modules: the threads of ga/module. VsourceDesktop is `vsource_threadproc`, FilterRgb2yuv
--   `filter_RGB2YUV_threadproc`, EncoderVideo `vencoder_threadproc` and EncoderAudio
--   `aencoder_threadproc`; Rounds and Run are their contracts, Through the way of a shot from the
--   screen to the codec. Pipeline/Pool/Transit: a writer and a reader of one pipeline.
-- - Conf: Maps is `std::map` as it is used, Store the variables, Numbers the readers of numbers and
--   flags with `strtol`, Settings and Settings/Parse `rtspconf_parse`, Checked its outcomes; Parser is
--   `ga_conf_load`, with Trim and Lines for the parts of a line, Url `ga_url_parse`, and Keys the walk
--   over the variables.
-- The modules called Tests hold the theorems at concrete values.
--
-- Outside calls are parameters: `malloc` and thread creation give answers, libav calls are records of
-- answers, and the wait of `audio_source_buffer_read` is a function on the buffer. Undefined behaviour
-- that the model meets is a value: `fault`, `overrun`, or `none`.
--
-- Bounds and fuel. Sizes and counts are natural numbers: the sums of the source that are an `int`
-- are taken without overflow, and the 16 bits of a message's size and the conversion of a `long` to
-- an `int` are written out. The retry of `audio_source_buffer_fill_one` has fuel for two rounds,
-- since a buffer moved to the front has no gap left; the loop that frees a chain has fuel for the
-- nodes made; the loop over the video options has a pass for each entry and one for the end, since
-- each pass moves the iterator; and the loop over interleaved packets has a round for each byte,
-- since each takes four at least. A round of the server's framing takes a byte at least, so
-- `buflen` is enough; a round of the client's loop takes a message; a round of `rtsp_read_text` and
-- `rtsp_read_binary` reads a byte at least; and the fuel of `ga_conf_load` is the number of files
-- that may still be opened, without which `fopen` fails. A round of the audio encoder encodes at
-- most as many frames as it has samples. How many rounds a packet takes depends on the decoder of
-- libav, and is a hypothesis of the theorem on the client's sound. All other recursion is
-- structural.
--
-- Not modelled: the key map of the input replay and the replays of Windows and of the Mac, the
-- client's video decoding and rendering, platform interfaces for screen and sound, and what libav,
-- SDL, live555 and the systems do.
pub mod Base
pub mod Controller
pub mod Input
pub mod Audio
pub mod Pipeline
pub mod Video
pub mod Client
pub mod Rtsp
pub mod Encoder
pub mod Conf
pub mod Modules
