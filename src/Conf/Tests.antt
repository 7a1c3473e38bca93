-- ===== src/Conf/Tests.antt =====
-- The theorems on configuration files and URLs at small ones.
use gaminganywhere.Base.{◌≡◌, refl, [], ◌∷◌, ◌++◌, List, some, arith, map, length, suc}
use gaminganywhere.Conf.Maps.{eqb}
use gaminganywhere.Conf.Store.{codes, ga_conf_writev}
use gaminganywhere.Conf.Parser.{Files, ga_conf_load}
use gaminganywhere.Conf.Parser.Load.{
  Entry, setting, map_setting, comment, section, print, AllEntries, perform_all, load-print,
}
use gaminganywhere.Conf.Url.{parsed, ga_url_parse}
use gaminganywhere.Conf.Url.Parts.{url_parse-parts}

abbrev entries : List Entry
entries =
    section (codes "core]")
    ∷ setting (codes "server-port") (codes "8554")
    ∷ comment (codes " video = none")
    ∷ map_setting (codes "video-specific") (codes "crf") (codes "24")
    ∷ setting (codes "title") (codes "a b")
    ∷ []

abbrev files : Files
files = record { lines = λ f. some (map print entries); dirname = λ f. f }

entries-AllEntries : AllEntries entries
unfolding eqb
entries-AllEntries = ground arith

load-print_example :
    ga_conf_load files (suc 7) [] (codes "server.conf")
    ≡ (some (length entries), perform_all [] entries)
load-print_example = load-print files 7 [] (codes "server.conf") entries refl entries-AllEntries

url_parse-parts_example :
    ga_url_parse []
      (some (codes "rtsp://" ++ (codes "ga.org" ++ b':' ∷ (codes "8554" ++ codes "/desktop"))))
    ≡ parsed (
        ga_conf_writev
          (ga_conf_writev
            (ga_conf_writev [] (codes "server-port") (codes "8554"))
            (codes "server-url")
            (codes "rtsp://" ++ (codes "ga.org" ++ b':' ∷ (codes "8554" ++ codes "/desktop"))))
          (codes "server-name")
          (codes "ga.org"))
url_parse-parts_example =
    url_parse-parts [] (codes "ga.org") (codes "8554") (codes "/desktop") (ground arith)
      (omega arith) (ground arith) refl (omega arith)
