-- ===== src/Conf/Settings.antt =====
-- The settings of server and client, of ga/core/rtspconf.cpp: what `rtspconf_parse` reads and
-- checks. libavcodec's and libavutil's lookups by name are parameters. A field that `strncpy` fills
-- to its end has no final null byte.
pub mod Parse
use gaminganywhere.Base.{
  ℕ, zero, suc, ltb, ◌==◌, if◌then◌else◌, not, ◌&&◌, ◌||◌, List, [], ◌∷◌, ◌++◌, Option, none, some,
  Bool, true, false, length, take,
}
use gaminganywhere.Conf.Checked.{Checked, ok, rejected, overrun, ◌>>=◌}
use gaminganywhere.Conf.Maps.{Bytes, eqb}
use gaminganywhere.Conf.Store.{
  Vars, Reading, absent, unterminated, value, codes, ga_conf_readv, ga_conf_mapsize,
  ga_conf_mapreset, ga_conf_mapkey, ga_conf_mapvalue, ga_conf_mapnextkey,
}
use gaminganywhere.Conf.Numbers.{ℤ, pos, negsuc, ga_conf_readint, ga_conf_readbool}

-- `struct RTSPConf`: a codec is a number that stands for its address, and so are a sample format and
-- a channel layout, where 0 is the missing layout.
pub record RtspConf : Type 0 where
  pub object : Bytes
  pub title : Bytes
  pub display : Bytes
  pub servername : Option Bytes
  pub serverport : ℕ
  pub proto : ℕ
  pub ctrlenable : ℤ
  pub ctrlport : ℕ
  pub ctrlproto : ℕ
  pub sendmousemotion : ℤ
  pub video_encoder_name : List Bytes
  pub video_encoder_codec : Option ℕ
  pub video_decoder_name : List Bytes
  pub video_decoder_codec : Option ℕ
  pub video_fps : ℕ
  pub video_renderer_software : Bool
  pub audio_encoder_name : List Bytes
  pub audio_encoder_codec : Option ℕ
  pub audio_decoder_name : List Bytes
  pub audio_decoder_codec : Option ℕ
  pub audio_bitrate : ℕ
  pub audio_samplerate : ℕ
  pub audio_channels : ℕ
  pub audio_device_format : Option ℕ
  pub audio_device_channel_layout : ℕ
  pub audio_codec_format : Option ℕ
  pub audio_codec_channel_layout : ℕ
  pub vso : List Bytes

-- `IPPROTO_TCP` and `IPPROTO_UDP`
abbrev pub ipproto_tcp : ℕ
ipproto_tcp = 6

abbrev pub ipproto_udp : ℕ
ipproto_udp = 17

-- What the libraries answer. `sample_fmt_s16` and `layout_stereo` are constants of theirs.
pub record Codecs : Type 0 where
  pub encoder_by_name : Bytes → Option ℕ
  pub decoder_by_name : Bytes → Option ℕ
  pub get_sample_fmt : Bytes → Option ℕ
  pub get_channel_layout : Bytes → ℕ
  pub sample_fmt_s16 : ℕ
  pub layout_stereo : ℕ

-- `rtspconf_init`: the layout of the codec keeps the 0 of the `memset`.
unfoldable pub rtspconf_init : Codecs → RtspConf
rtspconf_init env = record {
  object = codes "/desktop";
  title = codes "Real-Time Desktop";
  display = codes ":0";
  servername = none;
  serverport = 554;
  proto = ipproto_udp;
  ctrlenable = pos 0;
  ctrlport = 555;
  ctrlproto = ipproto_tcp;
  sendmousemotion = pos 0;
  video_encoder_name = [];
  video_encoder_codec = none;
  video_decoder_name = [];
  video_decoder_codec = none;
  video_fps = 24;
  video_renderer_software = false;
  audio_encoder_name = [];
  audio_encoder_codec = none;
  audio_decoder_name = [];
  audio_decoder_codec = none;
  audio_bitrate = 128000;
  audio_samplerate = 44100;
  audio_channels = 2;
  audio_device_format = some env.sample_fmt_s16;
  audio_device_channel_layout = env.layout_stereo;
  audio_codec_format = some env.sample_fmt_s16;
  audio_codec_channel_layout = 0;
  vso = [];
}

-- `DELIM`
abbrev pub is_delim : ℕ → Bool
is_delim c = c == 32 || c == 9 || c == 10 || c == 13

-- The tokens that `strtok_r` finds, with the token that is being read.
unfoldable pub tokens_from : Bytes → Bytes → List Bytes
tokens_from [] [] = []
tokens_from (a ∷ t) [] = (a ∷ t) ∷ []
tokens_from [] (c ∷ s) =
    let rest = tokens_from [] s in
    let more = tokens_from (c ∷ []) s in if is_delim c then rest else more
tokens_from (a ∷ t) (c ∷ s) =
    let rest = tokens_from [] s in
    let more = tokens_from ((a ∷ t) ++ (c ∷ [])) s in if is_delim c then (a ∷ t) ∷ rest else more

-- `ga_avcodec_find_encoder` and `ga_avcodec_find_decoder` for `AV_CODEC_ID_NONE`: the first name
-- that the library knows.
unfoldable pub find_codec : (Bytes → Option ℕ) → List Bytes → Option ℕ
find_codec by_name [] = none
find_codec by_name (n ∷ ns) = elim (by_name n) [ none ↦ find_codec by_name ns | some c ↦ some c ]

-- `rtspconf_load_codec`, with `RTSPCONF_CODECNAME_SIZE` names at most; `finder` looks names up.
unfoldable pub rtspconf_load_codec : (List Bytes → Option ℕ) → Bytes → Checked (List Bytes × ℕ)
unfolding tokens_from
rtspconf_load_codec finder v =
    let names = take 8 (tokens_from [] v) in
    if length names == 0
    then rejected
    else elim (finder names) [ none ↦ rejected | some c ↦ ok (names, c) ]
