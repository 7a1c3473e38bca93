-- ===== src/Conf/Settings/Parse/Tests.antt =====
-- The theorems on the configuration at a small configuration file's variables.
use gaminganywhere.Base.{◌≡◌, refl, if◌then◌else◌, [], ◌∷◌, ◌++◌, none, some, false, arith}
use gaminganywhere.Conf.Checked.{ok}
use gaminganywhere.Conf.Maps.{Bytes, eqb, find}
use gaminganywhere.Conf.Store.{Var, Vars, codes, copy_out, ga_conf_readv, ga_conf_mapsize}
use gaminganywhere.Conf.Numbers.{
  ga_conf_readint, ga_conf_readbool, int_of, bool_of, strtol, strtol_from, after_space, unsigned,
  signed, digits, digit, to_int, pos,
}
use gaminganywhere.Conf.Settings.{
  RtspConf, Codecs, ipproto_tcp, ipproto_udp, rtspconf_init, find_codec, rtspconf_load_codec,
  tokens_from,
}
use gaminganywhere.Conf.Settings.Parse.{
  rtspconf_parse, parse_names, parse_network, parse_control, parse_codecs, load_named, parse_video,
  parse_audio, parse_formats, parse_format, parse_layout, parse_specific, read_text, within,
  positive, proto_of, is_software,
}
use gaminganywhere.Conf.Settings.Parse.Ranges.{InRange, rtspconf_parse-InRange}
use gaminganywhere.Conf.Settings.Parse.Specific.{Readable, options, specific-collects}

abbrev plain : Bytes → Var
plain v = record { data_ = v; mapdata = []; mi = none }

abbrev specific : Var
specific = record {
  data_ = [];
  mapdata = (codes "crf", codes "24") ∷ (codes "preset", codes "faster") ∷ (codes "tune", []) ∷ [];
  mi = none;
}

abbrev vars : Vars
vars =
    (codes "audio-bitrate", plain (codes "128000"))
    ∷ (codes "audio-channels", plain (codes "2"))
    ∷ (codes "audio-codec-channel-layout", plain (codes "stereo"))
    ∷ (codes "audio-codec-format", plain (codes "s16"))
    ∷ (codes "audio-device-channel-layout", plain (codes "stereo"))
    ∷ (codes "audio-device-format", plain (codes "s16"))
    ∷ (codes "audio-samplerate", plain (codes "44100"))
    ∷ (codes "server-port", plain (codes "0x216a"))
    ∷ (codes "video-encoder", plain (codes "nvenc libx264"))
    ∷ (codes "video-fps", plain (codes " 50"))
    ∷ []

abbrev codecs : Codecs
codecs = record {
  encoder_by_name = λ n. if eqb n (codes "libx264") then some 27 else none;
  decoder_by_name = λ n. none;
  get_sample_fmt = λ n. some 1;
  get_channel_layout = λ n. 3;
  sample_fmt_s16 = 1;
  layout_stereo = 3;
}

abbrev settings : RtspConf
settings = record {
  object = codes "/desktop";
  title = codes "Real-Time Desktop";
  display = codes ":0";
  servername = none;
  serverport = 8554;
  proto = ipproto_udp;
  ctrlenable = pos 0;
  ctrlport = 555;
  ctrlproto = ipproto_tcp;
  sendmousemotion = pos 0;
  video_encoder_name = codes "nvenc" ∷ codes "libx264" ∷ [];
  video_encoder_codec = some 27;
  video_decoder_name = [];
  video_decoder_codec = none;
  video_fps = 50;
  video_renderer_software = false;
  audio_encoder_name = [];
  audio_encoder_codec = none;
  audio_decoder_name = [];
  audio_decoder_codec = none;
  audio_bitrate = 128000;
  audio_samplerate = 44100;
  audio_channels = 2;
  audio_device_format = some 1;
  audio_device_channel_layout = 3;
  audio_codec_format = some 1;
  audio_codec_channel_layout = 3;
  vso = [];
}

rtspconf_parse-InRange_example : InRange settings
unfolding rtspconf_parse parse_names parse_network parse_control parse_codecs load_named parse_video
    parse_audio parse_formats parse_format parse_layout parse_specific read_text within positive
    proto_of is_software rtspconf_init find_codec rtspconf_load_codec tokens_from ga_conf_readint
    ga_conf_readbool int_of bool_of strtol strtol_from after_space unsigned signed digits digit
    to_int ga_conf_readv ga_conf_mapsize find eqb copy_out
rtspconf_parse-InRange_example = rtspconf_parse-InRange codecs vars settings vars refl

abbrev with_specific : Vars
with_specific = (codes "video-specific", specific) ∷ []

specific-Readable : Readable specific.mapdata
unfolding eqb
specific-Readable = ground arith

specific-collects_example :
    (after : Vars) × (parse_specific with_specific settings
      ≡ ok (record settings { vso = [] ++ options specific.mapdata }, after))
unfolding find eqb
specific-collects_example = specific-collects with_specific specific settings refl specific-Readable
