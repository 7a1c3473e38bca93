-- ===== src/Conf/Settings/Parse.antt =====
-- `rtspconf_parse` of ga/core/rtspconf.cpp, part by part in the order of the source.

pub mod Ranges
pub mod Specific
mod Tests
use gaminganywhere.Base.{
  ℕ, zero, suc, ltb, ◌==◌, if◌then◌else◌, not, ◌&&◌, List, [], ◌∷◌, ◌++◌, Option, none, some, Bool,
  true, false, length, take,
}
use gaminganywhere.Conf.Checked.{Checked, ok, rejected, overrun, out_of_fuel, ◌>>=◌}
use gaminganywhere.Conf.Maps.{Bytes, eqb}
use gaminganywhere.Conf.Store.{
  Vars, Reading, absent, unterminated, value, codes, ga_conf_readv, ga_conf_mapsize,
  ga_conf_mapreset, ga_conf_mapkey, ga_conf_mapvalue, ga_conf_mapnextkey,
}
use gaminganywhere.Conf.Numbers.{ℤ, pos, negsuc, ga_conf_readint, ga_conf_readbool}
use gaminganywhere.Conf.Settings.{
  RtspConf, Codecs, ipproto_tcp, ipproto_udp, rtspconf_init, find_codec, rtspconf_load_codec,
}

-- `ga_conf_readv(k, buf, sizeof(buf))` with a buffer of 1024 bytes
unfoldable pub read_text : Vars → Bytes → Checked (Option Bytes)
unfolding ga_conf_readv
read_text vars k = elim (ga_conf_readv vars k (some 1024)) [
  | absent ↦ ok none
  | unterminated ↦ overrun
  | value v ↦ ok (some v)
]

-- A field that keeps its default where the variable is missing, and one that must be there.
abbrev pub or_default : Option Bytes → ℕ → Bytes → Bytes
or_default none n default = default
or_default (some v) n default = take n v

abbrev pub needed : Option Bytes → Checked Bytes
needed none = rejected
needed (some v) = ok v

-- `v <= 0 || v > most`
unfoldable pub within : ℤ → ℕ → Checked ℕ
within (pos v) most = if v == 0 then rejected else if ltb most v then rejected else ok v
within (negsuc v) most = rejected

unfoldable pub proto_of : Option Bytes → ℕ
unfolding eqb
proto_of none = ipproto_udp
proto_of (some v) = if eqb v (codes "tcp") then ipproto_tcp else ipproto_udp

unfoldable pub parse_names : Vars → RtspConf → Checked RtspConf
unfolding read_text
parse_names vars conf = do
  server ← read_text vars (codes "server-name")
  object ← read_text vars (codes "base-object")
  title ← read_text vars (codes "title")
  display ← read_text vars (codes "display")
  ok (record conf {
    servername = server;
    object = or_default object 128 conf.object;
    title = or_default title 256 conf.title;
    display = or_default display 16 conf.display;
  })

unfoldable pub parse_network : Vars → RtspConf → Checked RtspConf
unfolding within proto_of read_text
parse_network vars conf = do
  v ← ga_conf_readint vars (codes "server-port")
  port ← within v 65535
  proto ← read_text vars (codes "proto")
  ok (record conf { serverport = port; proto = proto_of proto })

-- The part for a controller that is enabled.
unfoldable pub control_settings : Vars → RtspConf → Checked RtspConf
unfolding within proto_of read_text
control_settings vars conf = do
  v ← ga_conf_readint vars (codes "control-port")
  port ← within v 65535
  proto ← read_text vars (codes "control-proto")
  motion ← ga_conf_readbool vars (codes "control-send-mouse-motion") (pos 1)
  ok (record conf { ctrlport = port; ctrlproto = proto_of proto; sendmousemotion = motion })

abbrev pub is_nonzero : ℤ → Bool
is_nonzero (pos v) = not (v == 0)
is_nonzero (negsuc v) = true

unfoldable pub parse_control : Vars → RtspConf → Checked RtspConf
unfolding control_settings
parse_control vars conf = do
  enabled ← ga_conf_readbool vars (codes "control-enabled") (pos 0)
  if is_nonzero enabled
      then control_settings vars (record conf { ctrlenable = enabled })
      else ok (record conf { ctrlenable = enabled })

-- One codec variable: without a value it changes nothing.
unfoldable pub load_named :
    Vars → (Bytes → Option ℕ) → Bytes → List Bytes × Option ℕ → Checked (List Bytes × Option ℕ)
unfolding read_text rtspconf_load_codec find_codec
load_named vars by_name k old = do
  v ← read_text vars k
  elim v [
    | none ↦ ok old
    | some names ↦ rtspconf_load_codec (find_codec by_name) names >>= (λ r. ok (r.0, some r.1))
  ]

unfoldable pub parse_codecs : Codecs → Vars → RtspConf → Checked RtspConf
unfolding load_named
parse_codecs env vars conf = do
  ve ←
      load_named vars env.encoder_by_name (codes "video-encoder")
        (conf.video_encoder_name, conf.video_encoder_codec)
  vd ←
      load_named vars env.decoder_by_name (codes "video-decoder")
        (conf.video_decoder_name, conf.video_decoder_codec)
  ae ←
      load_named vars env.encoder_by_name (codes "audio-encoder")
        (conf.audio_encoder_name, conf.audio_encoder_codec)
  ad ←
      load_named vars env.decoder_by_name (codes "audio-decoder")
        (conf.audio_decoder_name, conf.audio_decoder_codec)
  ok (record conf {
    video_encoder_name = ve.0;
    video_encoder_codec = ve.1;
    video_decoder_name = vd.0;
    video_decoder_codec = vd.1;
    audio_encoder_name = ae.0;
    audio_encoder_codec = ae.1;
    audio_decoder_name = ad.0;
    audio_decoder_codec = ad.1;
  })

unfoldable pub is_software : Option Bytes → Bool
unfolding eqb
is_software none = false
is_software (some v) = eqb v (codes "software")

unfoldable pub parse_video : Vars → RtspConf → Checked RtspConf
unfolding within is_software read_text
parse_video vars conf = do
  v ← ga_conf_readint vars (codes "video-fps")
  fps ← within v 120
  renderer ← read_text vars (codes "video-renderer")
  ok (record conf { video_fps = fps; video_renderer_software = is_software renderer })

-- `v < 1`
unfoldable pub positive : ℤ → Checked ℕ
positive (pos v) = if v == 0 then rejected else ok v
positive (negsuc v) = rejected

unfoldable pub parse_audio : Vars → RtspConf → Checked RtspConf
unfolding within positive
parse_audio vars conf = do
  b ← ga_conf_readint vars (codes "audio-bitrate")
  bitrate ← within b 1024000
  s ← ga_conf_readint vars (codes "audio-samplerate")
  samplerate ← within s 1024000
  c ← ga_conf_readint vars (codes "audio-channels")
  channels ← positive c
  ok (record conf {
    audio_bitrate = bitrate;
    audio_samplerate = samplerate;
    audio_channels = channels;
  })

-- A sample format that must be there and be known, and a channel layout.
unfoldable pub parse_format : Codecs → Vars → Bytes → Checked (Option ℕ)
unfolding read_text
parse_format env vars k = do
  v ← read_text vars k
  name ← needed v
  elim (env.get_sample_fmt name) [ none ↦ rejected | some f ↦ ok (some f) ]

unfoldable pub parse_layout : Codecs → Vars → Bytes → Checked ℕ
unfolding read_text
parse_layout env vars k = do
  v ← read_text vars k
  name ← needed v
  if env.get_channel_layout name == 0 then rejected else ok (env.get_channel_layout name)

unfoldable pub parse_formats : Codecs → Vars → RtspConf → Checked RtspConf
unfolding parse_format parse_layout
parse_formats env vars conf = do
  device_format ← parse_format env vars (codes "audio-device-format")
  device_layout ← parse_layout env vars (codes "audio-device-channel-layout")
  codec_format ← parse_format env vars (codes "audio-codec-format")
  codec_layout ← parse_layout env vars (codes "audio-codec-channel-layout")
  ok (record conf {
    audio_device_format = device_format;
    audio_device_channel_layout = device_layout;
    audio_codec_format = codec_format;
    audio_codec_channel_layout = codec_layout;
  })

-- The loop over the map: `key` is what the last call for a key left. Each round moves
-- the iterator of the map, so that a round for each entry, and one for the end, is enough fuel.
unfoldable pub specific_loop : ℕ → Vars → Reading → List Bytes → Checked (List Bytes × Vars)
unfolding ga_conf_mapvalue ga_conf_mapnextkey
specific_loop zero vars key vso = out_of_fuel
specific_loop (suc fuel) vars absent vso = ok (vso, vars)
specific_loop (suc fuel) vars unterminated vso = overrun
specific_loop (suc fuel) vars (value k) vso =
    let (key, moved) = ga_conf_mapnextkey vars (codes "video-specific") (some 1024) in
    let skip = specific_loop fuel moved key vso in
    elim (ga_conf_mapvalue vars (codes "video-specific") (some 1024)) [
      | absent ↦ skip
      | unterminated ↦ overrun
      | value v ↦
          (if length v == 0 then skip else specific_loop fuel moved key (vso ++ (k ∷ v ∷ [])))
    ]

unfoldable pub parse_specific : Vars → RtspConf → Checked (RtspConf × Vars)
unfolding ga_conf_mapsize ga_conf_mapreset ga_conf_mapkey specific_loop
parse_specific vars conf =
    let size = ga_conf_mapsize vars (codes "video-specific") in
    if size == 0
    then ok (conf, vars)
    else let begun = ga_conf_mapreset vars (codes "video-specific") in
      specific_loop (suc size) begun (ga_conf_mapkey begun (codes "video-specific") (some 1024))
        conf.vso
      >>= (λ r. ok (record conf { vso = r.0 }, r.1))

-- `rtspconf_parse`
unfoldable pub rtspconf_parse : Codecs → Vars → Checked (RtspConf × Vars)
unfolding rtspconf_init parse_names parse_network parse_control parse_codecs parse_video parse_audio
    parse_formats parse_specific
rtspconf_parse env vars = do
  names ← parse_names vars (rtspconf_init env)
  network ← parse_network vars names
  control ← parse_control vars network
  codecs ← parse_codecs env vars control
  video ← parse_video vars codecs
  audio ← parse_audio vars video
  formats ← parse_formats env vars audio
  parse_specific vars formats
