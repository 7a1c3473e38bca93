-- ===== src/Conf/Settings/Parse/Ranges.antt =====
-- Which settings `rtspconf_parse` accepts.
use gaminganywhere.Base.{ℕ, suc, ltb, ◌==◌, if◌then◌else◌, some, Bool, true, false, ◌≡◌, arith, ◌≤◌}
use gaminganywhere.Conf.Checked.{
  Checked, ok, rejected, Ensures, Ensures-bind, Ensures-then, Ensures-if, Ensures-result,
}
use gaminganywhere.Conf.Store.{Vars, codes, ga_conf_mapsize, ga_conf_mapreset, ga_conf_mapkey}
use gaminganywhere.Conf.Numbers.{ℤ, pos, negsuc, ga_conf_readint, ga_conf_readbool}
use gaminganywhere.Conf.Settings.{RtspConf, Codecs, rtspconf_init}
use gaminganywhere.Conf.Settings.Parse.{
  within, positive, parse_names, parse_network, control_settings, parse_control, is_nonzero,
  parse_codecs, parse_video, parse_audio, parse_layout, parse_formats, parse_specific,
  rtspconf_parse, read_text, parse_format, specific_loop, load_named,
}

within-Ensures : (v : ℤ) (most : ℕ) → Ensures (λ n. (1 ≤ n) × (n ≤ most)) (within v most)
unfolding within
within-Ensures (pos v) most =
    Ensures-if _ (v == 0) rejected _ (λ e. tt)
      (λ e. Ensures-if _ (ltb most v) rejected (ok v) (λ e2. tt) (λ e2. ground arith))
within-Ensures (negsuc v) most = tt

positive-Ensures : (v : ℤ) → Ensures (λ n. 1 ≤ n) (positive v)
unfolding positive
positive-Ensures (pos v) = Ensures-if _ (v == 0) rejected (ok v) (λ e. tt) (λ e. ground arith)
positive-Ensures (negsuc v) = tt

-- the fields that the server's network settings come in
abbrev pub InRange : RtspConf → Type 0
InRange c =
    ((1 ≤ c.serverport) × (c.serverport ≤ 65535))
    × ((1 ≤ c.ctrlport) × (c.ctrlport ≤ 65535))
    × ((1 ≤ c.video_fps) × (c.video_fps ≤ 120))
    × ((1 ≤ c.audio_bitrate) × (c.audio_bitrate ≤ 1024000))
    × ((1 ≤ c.audio_samplerate) × (c.audio_samplerate ≤ 1024000))
    × (1 ≤ c.audio_channels)

abbrev Keeps : (RtspConf → Checked RtspConf) → Type 0
Keeps step = (conf : RtspConf) → InRange conf → Ensures InRange (step conf)

init-InRange : (env : Codecs) → InRange (rtspconf_init env)
unfolding rtspconf_init
init-InRange env = ground arith

names-Keeps : (vars : Vars) → Keeps (parse_names vars)
unfolding parse_names
names-Keeps vars conf h = Ensures-then InRange (read_text vars (codes "server-name")) _ (λ s.
    Ensures-then InRange (read_text vars (codes "base-object")) _ (λ o.
      Ensures-then InRange (read_text vars (codes "title")) _
        (λ t. Ensures-then InRange (read_text vars (codes "display")) _ (λ d. h))))

network-Keeps : (vars : Vars) → Keeps (parse_network vars)
unfolding parse_network
network-Keeps vars conf h =
    Ensures-then InRange (ga_conf_readint vars (codes "server-port")) _ (λ v.
      Ensures-bind InRange _ (within v 65535) _ (within-Ensures v 65535) (λ p hp.
        Ensures-then InRange (read_text vars (codes "proto")) _
          (λ t. (hp, h.1, h.2, h.3, h.4, h.5))))

control-Keeps : (vars : Vars) → Keeps (parse_control vars)
unfolding parse_control control_settings
control-Keeps vars conf h =
    Ensures-then InRange (ga_conf_readbool vars (codes "control-enabled") (pos 0)) _
      (λ enabled. by_flag enabled (is_nonzero enabled))
  where
    by_flag :
        (enabled : ℤ) (b : Bool)
        → Ensures InRange (
            if b
            then control_settings vars (record conf { ctrlenable = enabled })
            else ok (record conf { ctrlenable = enabled }))
    by_flag enabled true =
        Ensures-then InRange (ga_conf_readint vars (codes "control-port")) _ (λ v.
          Ensures-bind InRange _ (within v 65535) _ (within-Ensures v 65535) (λ p hp.
            Ensures-then InRange (read_text vars (codes "control-proto")) _ (λ t.
              Ensures-then InRange
                (ga_conf_readbool vars (codes "control-send-mouse-motion") (pos 1)) _
                (λ m. (h.0, hp, h.2, h.3, h.4, h.5)))))
    by_flag enabled false = h

codecs-Keeps : (env : Codecs) (vars : Vars) → Keeps (parse_codecs env vars)
unfolding parse_codecs
codecs-Keeps env vars conf h =
    Ensures-then InRange (load_named vars env.encoder_by_name (codes "video-encoder") _) _ (λ a.
      Ensures-then InRange (load_named vars env.decoder_by_name (codes "video-decoder") _) _ (λ b.
        Ensures-then InRange (load_named vars env.encoder_by_name (codes "audio-encoder") _) _ (λ c.
          Ensures-then InRange (load_named vars env.decoder_by_name (codes "audio-decoder") _) _
            (λ d. h))))

video-Keeps : (vars : Vars) → Keeps (parse_video vars)
unfolding parse_video
video-Keeps vars conf h = Ensures-then InRange (ga_conf_readint vars (codes "video-fps")) _ (λ v.
    Ensures-bind InRange _ (within v 120) _ (within-Ensures v 120) (λ p hp.
      Ensures-then InRange (read_text vars (codes "video-renderer")) _
        (λ t. (h.0, h.1, hp, h.3, h.4, h.5))))

audio-Keeps : (vars : Vars) → Keeps (parse_audio vars)
unfolding parse_audio
audio-Keeps vars conf h =
    Ensures-then InRange (ga_conf_readint vars (codes "audio-bitrate")) _ (λ b.
      Ensures-bind InRange _ (within b 1024000) _ (within-Ensures b 1024000) (λ p hp.
        Ensures-then InRange (ga_conf_readint vars (codes "audio-samplerate")) _ (λ s.
          Ensures-bind InRange _ (within s 1024000) _ (within-Ensures s 1024000) (λ q hq.
            Ensures-then InRange (ga_conf_readint vars (codes "audio-channels")) _ (λ c.
              Ensures-bind InRange _ (positive c) _ (positive-Ensures c)
                (λ r hr. (h.0, h.1, h.2, hp, hq, hr)))))))

formats-Keeps : (env : Codecs) (vars : Vars) → Keeps (parse_formats env vars)
unfolding parse_formats
formats-Keeps env vars conf h =
    Ensures-then InRange (parse_format env vars (codes "audio-device-format")) _ (λ a.
      Ensures-then InRange (parse_layout env vars (codes "audio-device-channel-layout")) _ (λ b.
        Ensures-then InRange (parse_format env vars (codes "audio-codec-format")) _ (λ c.
          Ensures-then InRange (parse_layout env vars (codes "audio-codec-channel-layout")) _
            (λ d. h))))

-- the settings of a result, which comes with the variables
abbrev pub Accepted : RtspConf × Vars → Type 0
Accepted r = InRange r.0

specific-Accepted :
    (vars : Vars) (conf : RtspConf) → InRange conf → Ensures Accepted (parse_specific vars conf)
unfolding parse_specific
specific-Accepted vars conf h =
    Ensures-if Accepted (ga_conf_mapsize vars (codes "video-specific") == 0) (ok (conf, vars)) _
      (λ e. h)
      (λ e.
        Ensures-then Accepted
          (specific_loop (suc (ga_conf_mapsize vars (codes "video-specific")))
            (ga_conf_mapreset vars (codes "video-specific"))
            (ga_conf_mapkey (ga_conf_mapreset vars (codes "video-specific"))
              (codes "video-specific") (some 1024))
            conf.vso)
          (λ r. ok (record conf { vso = r.0 }, r.1)) (λ r. h))

parse-Ensures : (env : Codecs) (vars : Vars) → Ensures Accepted (rtspconf_parse env vars)
unfolding rtspconf_parse
parse-Ensures env vars =
    Ensures-bind Accepted InRange (parse_names vars (rtspconf_init env)) _
      (names-Keeps vars (rtspconf_init env) (init-InRange env))
      (λ c0 h0.
        Ensures-bind Accepted InRange (parse_network vars c0) _ (network-Keeps vars c0 h0) (λ c1 h1.
          Ensures-bind Accepted InRange (parse_control vars c1) _ (control-Keeps vars c1 h1)
            (λ c2 h2.
              Ensures-bind Accepted InRange (parse_codecs env vars c2) _
                (codecs-Keeps env vars c2 h2)
                (λ c3 h3.
                  Ensures-bind Accepted InRange (parse_video vars c3) _ (video-Keeps vars c3 h3)
                    (λ c4 h4.
                      Ensures-bind Accepted InRange (parse_audio vars c4) _ (audio-Keeps vars c4 h4)
                        (λ c5 h5.
                          Ensures-bind Accepted InRange (parse_formats env vars c5) _
                            (formats-Keeps env vars c5 h5)
                            (λ c6 h6. specific-Accepted vars c6 h6)))))))

-- Whatever the configuration says, settings that `rtspconf_parse` accepts are in their ranges:
-- both ports from 1 to 65535, the frame rate from 1 to 120, the audio's bit and sample rates from 1
-- to 1024000, and at least one audio channel.
pub rtspconf_parse-InRange :
    (env : Codecs) (vars : Vars) (conf : RtspConf) (after : Vars)
    → rtspconf_parse env vars ≡ ok (conf, after)
    → InRange conf
rtspconf_parse-InRange env vars conf after e =
    Ensures-result Accepted (rtspconf_parse env vars) (conf, after) (parse-Ensures env vars) e
