-- ===== src/Conf/Url.antt =====
-- ga_url_parse of ga/core/ga-conf.cpp: the server's name and port out of a URL. `strncpy` does not
-- end a text that fills the array `servername`: a scan that runs out of it is `overrun`.
pub mod Parts
use gaminganywhere.Base.{
  ℕ, zero, suc, ◌+◌, ltb, leb, ◌==◌, if◌then◌else◌, ◌&&◌, List, [], ◌∷◌, ◌++◌, Option, none, some,
  Bool, true, false, length, take, drop,
}
use gaminganywhere.Conf.Maps.{Bytes}
use gaminganywhere.Conf.Store.{Vars, codes, ga_conf_writev}

-- `tolower`
abbrev pub lower : ℕ → ℕ
lower c = if leb b'A' c && leb c b'Z' then c + 32 else c

-- Is the text of the length of `prefix` the same, but for the case? The end of the text is a null
-- byte, which no prefix here has.
unfoldable pub same_nocase : Bytes → Bytes → Bool
same_nocase [] s = true
same_nocase (p ∷ ps) [] = false
same_nocase (p ∷ ps) (c ∷ s) =
    let rest = same_nocase ps s in if lower p == lower c then rest else false

-- `isdigit`
abbrev pub is_digit : ℕ → Bool
is_digit c = leb b'0' c && leb c b'9'

-- `sizeof(servername)`
abbrev pub name_size : ℕ
name_size = 1024

-- `sizeof(serverport) - 1`
abbrev pub port_digits : ℕ
port_digits = 63

-- The digits behind the colon, at most `n`; none where the array ends in them with no null byte.
unfoldable pub scan_port : ℕ → Bool → Bytes → Option Bytes
scan_port zero ended s = some []
scan_port (suc n) ended [] = if ended then some [] else none
scan_port (suc n) ended (c ∷ s) =
    let rest = scan_port n ended s in
    if is_digit c then elim rest [ none ↦ none | some ds ↦ some (c ∷ ds) ] else some []

-- The name, with the port where there is a colon.
unfoldable pub scan_name : Bool → Bytes → Option (Bytes × Option Bytes)
unfolding scan_port
scan_name ended [] = if ended then some ([], none) else none
scan_name ended (c ∷ s) =
    let rest = scan_name ended s in
    if c == b'/'
    then some ([], none)
    else if c == b':'
    then elim (scan_port port_digits ended s) [ none ↦ none | some ds ↦ some ([], some ds) ]
    else elim rest [ none ↦ none | some (name, port) ↦ some (c ∷ name, port) ]

pub data Url : Type 0 where
  refused overrun : Url
  parsed : Vars → Url

abbrev pub write_port : Vars → Option Bytes → Vars
write_port vars none = vars
write_port vars (some ds) = ga_conf_writev vars (codes "server-port") ds

abbrev pub write_name : Vars → Bytes → Option (Bytes × Option Bytes) → Url
write_name vars url none = overrun
write_name vars url (some (name, port)) = parsed (
    ga_conf_writev (ga_conf_writev (write_port vars port) (codes "server-url") url)
      (codes "server-name") name)

-- A null `url` is none.
unfoldable pub ga_url_parse : Vars → Option Bytes → Url
ga_url_parse vars none = refused
ga_url_parse vars (some url) =
    if same_nocase (codes "rtsp://") url
    then (let copied = take name_size (drop 7 url) in
        write_name vars url (scan_name (ltb (length (drop 7 url)) name_size) copied))
    else refused
