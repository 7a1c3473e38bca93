-- ===== src/Conf/Url/Parts.antt =====
-- The parts of a URL are what ga_url_parse writes to the configuration.
use gaminganywhere.Base.{
  ℕ, zero, suc, ◌<◌, ◌≤◌, ◌≡◌, refl, arith, ◌==◌, [], ◌∷◌, ◌++◌, some, true, false, length, take,
  take_all, lt→ltb,
}
use gaminganywhere.Conf.Maps.{Bytes}
use gaminganywhere.Conf.Store.{Vars, codes, ga_conf_writev}
use gaminganywhere.Conf.Url.{
  same_nocase, is_digit, name_size, port_digits, scan_port, scan_name, parsed, ga_url_parse,
}

abbrev pub AllDigits : Bytes → Type 0
AllDigits [] = Unit
AllDigits (c ∷ s) = (is_digit c ≡ true) × AllDigits s

abbrev pub AllHost : Bytes → Type 0
AllHost [] = Unit
AllHost (c ∷ s) = ((c == b'/') ≡ false) × ((c == b':') ≡ false) × AllHost s

-- What may follow a port: nothing, or a byte that is not a digit.
abbrev pub IsBehind : Bytes → Type 0
IsBehind [] = Unit
IsBehind (c ∷ s) = is_digit c ≡ false

scan_port_lem :
    (n : ℕ) (ds rest : Bytes)
    → length ds ≤ n
    → AllDigits ds
    → IsBehind rest
    → scan_port n true (ds ++ rest) ≡ some ds
unfolding scan_port
scan_port_lem zero [] rest fits all b = refl
scan_port_lem zero (c ∷ ds) rest fits all b = absurd (omega arith)
scan_port_lem (suc n) [] [] fits all b = refl
scan_port_lem (suc n) [] (c ∷ rest) fits all b = rw b refl
scan_port_lem (suc n) (c ∷ ds) rest fits all b =
    rw (all.0, scan_port_lem n ds rest (omega arith) all.1 b) refl

scan_name_lem :
    (host ds rest : Bytes)
    → AllHost host
    → length ds ≤ port_digits
    → AllDigits ds
    → IsBehind rest
    → scan_name true (host ++ b':' ∷ (ds ++ rest)) ≡ some (host, some ds)
unfolding scan_name
scan_name_lem [] ds rest h fits all b = rw (scan_port_lem port_digits ds rest fits all b) refl
scan_name_lem (c ∷ host) ds rest h fits all b =
    rw (h.0, h.1, scan_name_lem host ds rest h.2 fits all b) refl

-- A URL `rtsp://host:port` with anything behind, the host with no slash or colon, the port of at most
-- 63 digits, and all of it behind the slashes shorter than 1024 bytes, writes the port to
-- `server-port`, the whole URL to `server-url` and the host to `server-name`.
pub url_parse-parts :
    (vars : Vars) (host ds rest : Bytes)
    → AllHost host
    → length ds ≤ port_digits
    → AllDigits ds
    → IsBehind rest
    → length (host ++ b':' ∷ (ds ++ rest)) < name_size
    → ga_url_parse vars (some (codes "rtsp://" ++ (host ++ b':' ∷ (ds ++ rest))))
      ≡ parsed (
          ga_conf_writev
            (ga_conf_writev
              (ga_conf_writev vars (codes "server-port") ds)
              (codes "server-url")
              (codes "rtsp://" ++ (host ++ b':' ∷ (ds ++ rest))))
            (codes "server-name")
            host)
unfolding ga_url_parse same_nocase
url_parse-parts vars host ds rest h fits all b short =
    let whole : take name_size (host ++ b':' ∷ (ds ++ rest)) ≡ host ++ b':' ∷ (ds ++ rest) =
      take_all name_size _ (omega arith) in
    rw (lt→ltb _ _ short) (rw whole (rw (scan_name_lem host ds rest h fits all b) refl))
