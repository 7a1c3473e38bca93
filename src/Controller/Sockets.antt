-- ===== src/Controller/Sockets.antt =====
-- The socket setup of ga/core/controller.cpp: name_resolve, ctrl_socket_init, ctrl_client_init and
-- ctrl_server_init. What the system's calls answer is a record; a negative answer is none or false.
pub mod Failed
use gaminganywhere.Base.{
  ℕ, Bool, true, false, ◌&&◌, List, [], ◌∷◌, Option, none, some, if◌then◌else◌, ltb,
}
use gaminganywhere.Controller.Client.{hello}

-- `conf->ctrlproto`
pub data Protocol : Type 0 where
  tcp udp other : Protocol

-- The fields of `struct RTSPConf` that are read.
pub record Settings : Type 0 where
  pub ctrlproto : Protocol
  pub servername : Option (List ℕ)

-- What the calls answer: `socket`, `inet_addr`, `gethostbyname`, `connect`, `setsockopt`, `bind`,
-- `listen`, and `send` with the bytes of the handshake.
pub record System : Type 0 where
  pub socket : Protocol → Option ℕ
  pub inet_addr : List ℕ → Option ℕ
  pub gethostbyname : List ℕ → Option ℕ
  pub connect : ℕ → Bool
  pub send : ℕ → List ℕ → Option ℕ
  pub setsockopt : ℕ → Bool
  pub bind : ℕ → Bool
  pub listen : ℕ → Bool

-- `ctrlsocket`, `ctrlenabled` and `myctrlid`, and the sockets that were closed, the last one first.
pub record Sockets : Type 0 where
  pub ctrlsocket : Option ℕ
  pub ctrlenabled : Bool
  pub myctrlid : Option (List ℕ)
  pub closed : List ℕ

abbrev or_else : Option ℕ → Option ℕ → Option ℕ
or_else (some a) b = some a
or_else none b = b

unfoldable pub name_resolve : System → List ℕ → Option ℕ
name_resolve sys hostname = or_else (sys.inet_addr hostname) (sys.gethostbyname hostname)

abbrev is_some : Option ℕ → Bool
is_some none = false
is_some (some a) = true

-- Is `conf->servername` missing or resolved?
unfoldable pub server_known : System → Option (List ℕ) → Bool
unfolding name_resolve
server_known sys none = true
server_known sys (some hostname) = is_some (name_resolve sys hostname)

-- Behind `socket`: a failure is only reported there.
unfoldable pub with_socket : System → Settings → Option ℕ → Sockets → Option ℕ × Sockets
unfolding server_known
with_socket sys conf fd s =
    if server_known sys conf.servername
    then (fd, record s { ctrlsocket = fd })
    else (none, record s { ctrlsocket = fd })

unfoldable pub open_with : System → Settings → Protocol → Sockets → Option ℕ × Sockets
unfolding with_socket
open_with sys conf tcp s = with_socket sys conf (sys.socket tcp) s
open_with sys conf udp s = with_socket sys conf (sys.socket udp) s
open_with sys conf other s = (none, s)

-- The result is `ctrlsocket`, or none for -1.
unfoldable pub socket_init : System → Settings → Sockets → Option ℕ × Sockets
unfolding open_with
socket_init sys conf s = open_with sys conf conf.ctrlproto s

-- `send` answers 0 for a closed connection.
abbrev sent_some : Option ℕ → Bool
sent_some none = false
sent_some (some n) = ltb 0 n

-- The label `error` of the client.
abbrev pub client_failed : ℕ → Sockets → Sockets
client_failed fd s = record s { ctrlsocket = none; ctrlenabled = false; closed = fd ∷ s.closed }

unfoldable pub greet : System → Protocol → List ℕ → ℕ → Sockets → Bool × Sockets
greet sys tcp id fd s =
    if sys.connect fd
    then (if sent_some (sys.send fd (hello id)) then (true, s) else (false, client_failed fd s))
    else (false, client_failed fd s)
greet sys udp id fd s = (true, s)
greet sys other id fd s = (true, s)

abbrev pub client_next : System → Settings → List ℕ → Option ℕ × Sockets → Bool × Sockets
client_next sys conf id (none, s) = (false, s)
client_next sys conf id (some fd, s) = greet sys conf.ctrlproto id fd s

unfoldable pub client_init : System → Settings → List ℕ → Sockets → Bool × Sockets
unfolding socket_init greet
client_init sys conf id s = client_next sys conf id (socket_init sys conf s)

-- The label `error` of the server.
abbrev pub server_failed : ℕ → Sockets → Sockets
server_failed fd s = record s { ctrlsocket = none; closed = fd ∷ s.closed }

unfoldable pub listens : System → Protocol → ℕ → Bool
listens sys tcp fd = sys.listen fd
listens sys udp fd = true
listens sys other fd = true

unfoldable pub bind_server : System → Protocol → ℕ → Sockets → Bool × Sockets
unfolding listens
bind_server sys proto fd s =
    if sys.setsockopt fd && sys.bind fd && listens sys proto fd
    then (true, s)
    else (false, server_failed fd s)

abbrev pub server_next : System → Settings → List ℕ → Option ℕ × Sockets → Bool × Sockets
server_next sys conf id (none, s) = (false, s)
server_next sys conf id (some fd, s) =
    bind_server sys conf.ctrlproto fd (record s { myctrlid = some id })

unfoldable pub server_init : System → Settings → List ℕ → Sockets → Bool × Sockets
unfolding socket_init bind_server
server_init sys conf id s = server_next sys conf id (socket_init sys conf s)
