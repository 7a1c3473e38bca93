-- ===== src/Controller/Sockets/Failed.antt =====
-- What a failed ctrl_client_init or ctrl_server_init leaves behind.
use gaminganywhere.Base.{
  ℕ, ◌≡◌, ◌≢◌, refl, ap, ◌∙◌, sym, Bool, true, false, List, Option, none, some, arith,
  if◌then◌else◌,
}
use gaminganywhere.Controller.Sockets.{
  Protocol, tcp, udp, other, Settings, System, Sockets, server_known, with_socket, open_with,
  socket_init, client_failed, greet, client_init, server_failed, bind_server, server_init,
  client_next, server_next,
}

-- What a failed setup leaves, by whether the server's name is known; `failed` is the label `error`.
abbrev pub left_by : Bool → (Sockets → Sockets) → ℕ → Sockets → Sockets
left_by known failed fd s =
    if known then failed (record s { ctrlsocket = some fd }) else record s { ctrlsocket = some fd }

-- What `with_socket` gives, by the test.
abbrev opened_as : Bool → ℕ → Sockets → Option ℕ × Sockets
opened_as b fd s =
    if b
    then (some fd, record s { ctrlsocket = some fd })
    else (none, record s { ctrlsocket = some fd })

greet_failed :
    (sys : System) (proto : Protocol) (id : List ℕ) (fd : ℕ) (s : Sockets)
    → (greet sys proto id fd s).0 ≡ false
    → (greet sys proto id fd s).1 ≡ client_failed fd s
unfolding greet
greet_failed sys tcp id fd s failed = ground arith
greet_failed sys udp id fd s failed = ground arith
greet_failed sys other id fd s failed = ground arith

bind_failed :
    (sys : System) (proto : Protocol) (fd : ℕ) (s : Sockets)
    → (bind_server sys proto fd s).0 ≡ false
    → (bind_server sys proto fd s).1 ≡ server_failed fd s
unfolding bind_server
bind_failed sys proto fd s failed = ground arith

open_lem :
    (sys : System) (conf : Settings) (proto : Protocol) (s : Sockets) (fd : ℕ)
    → proto ≢ other
    → sys.socket proto ≡ some fd
    → open_with sys conf proto s ≡ with_socket sys conf (some fd) s
unfolding open_with
open_lem sys conf tcp s fd known opened = ap (λ o. with_socket sys conf o s) opened
open_lem sys conf udp s fd known opened = ap (λ o. with_socket sys conf o s) opened
open_lem sys conf other s fd known opened = absurd (known refl)

client_next_failed :
    (sys : System) (conf : Settings) (id : List ℕ) (s : Sockets) (fd : ℕ)
    → (client_next sys conf id (with_socket sys conf (some fd) s)).0 ≡ false
    → (client_next sys conf id (with_socket sys conf (some fd) s)).1
      ≡ left_by (server_known sys conf.servername) (client_failed fd) fd s
unfolding with_socket
client_next_failed sys conf id s fd =
    elim (server_known sys conf.servername)
      as (λ b.
        (client_next sys conf id (opened_as b fd s)).0 ≡ false
        → (client_next sys conf id (opened_as b fd s)).1 ≡ left_by b (client_failed fd) fd s) [
          | true ↦ greet_failed sys conf.ctrlproto id fd (record s { ctrlsocket = some fd })
          | false ↦ λ failed. refl
        ]

server_next_failed :
    (sys : System) (conf : Settings) (id : List ℕ) (s : Sockets) (fd : ℕ)
    → (server_next sys conf id (with_socket sys conf (some fd) s)).0 ≡ false
    → (server_next sys conf id (with_socket sys conf (some fd) s)).1
      ≡ left_by
          (server_known sys conf.servername)
          (λ t. server_failed fd (record t { myctrlid = some id }))
          fd
          s
unfolding with_socket
server_next_failed sys conf id s fd =
    elim (server_known sys conf.servername)
      as (λ b.
        (server_next sys conf id (opened_as b fd s)).0 ≡ false
        → (server_next sys conf id (opened_as b fd s)).1
          ≡ left_by b (λ t. server_failed fd (record t { myctrlid = some id })) fd s) [
            | true ↦
                bind_failed sys conf.ctrlproto fd
                  (record s { ctrlsocket = some fd; myctrlid = some id })
            | false ↦ λ failed. refl
          ]

module _ (sys : System) (conf : Settings) (id : List ℕ) (s : Sockets) (fd : ℕ)
    (proto : conf.ctrlproto ≢ other) (opened : sys.socket conf.ctrlproto ≡ some fd) where
  -- Where `socket` gave `fd`, a ctrl_client_init that fails has closed `fd`, forgotten it and disabled
  -- the controller if the server's name is missing or known; if the name is not resolved, `fd` stays
  -- open in `ctrlsocket` and nothing else changes.
  pub client_init_failed :
      (client_init sys conf id s).0 ≡ false
      → (client_init sys conf id s).1
        ≡ left_by (server_known sys conf.servername) (client_failed fd) fd s
  unfolding client_init socket_init
  client_init_failed failed =
      let e = open_lem sys conf conf.ctrlproto s fd proto opened in
      ap (λ o. (client_next sys conf id o).1) e
      ∙ client_next_failed sys conf id s fd
          (sym (ap (λ o. (client_next sys conf id o).0) e) ∙ failed)

  -- The same of ctrl_server_init, which keeps the id that it was given.
  pub server_init_failed :
      (server_init sys conf id s).0 ≡ false
      → (server_init sys conf id s).1
        ≡ left_by
            (server_known sys conf.servername)
            (λ t. server_failed fd (record t { myctrlid = some id }))
            fd
            s
  unfolding server_init socket_init
  server_init_failed failed =
      let e = open_lem sys conf conf.ctrlproto s fd proto opened in
      ap (λ o. (server_next sys conf id o).1) e
      ∙ server_next_failed sys conf id s fd
          (sym (ap (λ o. (server_next sys conf id o).0) e) ∙ failed)
