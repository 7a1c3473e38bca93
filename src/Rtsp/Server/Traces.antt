-- ===== src/Rtsp/Server/Traces.antt =====
-- Whole connections: what a client that sends requests one after another is answered.
use gaminganywhere.Base.{
  suc, ◌≡◌, refl, ap, if◌then◌else◌, not, List, [], ◌∷◌, Bool, true, false, length,
}
use gaminganywhere.Rtsp.Server.{
  codes, Context, ServerState, teardown, Status, ok, version, ServerConf, Line, reply_error,
  Outcome, done, fault, same,
}
use gaminganywhere.Rtsp.Server.Machine.{
  Command, command, Request, dispatch, Connection, waiting, closed, crashed, after, serve_one,
  serve,
}
use gaminganywhere.Rtsp.Server.Protocol.{statuses, accepted, refused, Keeps, dispatch-Keeps}

-- the reply has one status line
abbrev pub HasStatus : List Line → Type 0
HasStatus out = (s : Status) × (statuses out ≡ s ∷ [])

abbrev pub AllAnswered : List (List Line) → Type 0
AllAnswered [] = Unit
AllAnswered (out ∷ outs) = HasStatus out × AllAnswered outs

after-HasStatus :
    (cmd : Command) (st : ServerState) (o : Outcome) (c : Context)
    → Keeps cmd st o
    → (after o).1 ≡ waiting c
    → HasStatus (after o).0
unfolding after
after-HasStatus cmd st fault c k e = cc
after-HasStatus cmd st (done d out) c (accepted s m) e = (ok, s)
after-HasStatus cmd st (done d out) c (refused s e1 ne same_state) e = (s, e1)

serve_one-HasStatus :
    (conf : ServerConf) (c : Context) (r : Request) (d : Context)
    → (serve_one conf c r).1 ≡ waiting d
    → HasStatus (serve_one conf c r).0
unfolding serve_one
serve_one-HasStatus conf c r d e = by_protocol (same r.protocol (codes "RTSP/1.0")) e
  where
    answer : List Line × Connection
    answer = after (dispatch conf (command r.cmd) (record c { seq = r.header.header_seq }) r)

    by_protocol :
        (b : Bool)
        → (if not b
            then (reply_error c version, closed (record c { state = teardown }))
            else answer).1
          ≡ waiting d
        → HasStatus
            (if not b
              then (reply_error c version, closed (record c { state = teardown }))
              else answer).0
    by_protocol true e =
        after-HasStatus (command r.cmd) c.state _ d
          (dispatch-Keeps conf (command r.cmd) (record c { seq = r.header.header_seq }) r) e
    by_protocol false e = cc

serve_ended :
    (conf : ServerConf) (rs : List Request) (c : Context)
    → ((serve conf crashed rs).1 ≡ crashed) × ((serve conf (closed c) rs).1 ≡ closed c)
unfolding serve
serve_ended conf [] c = (refl, refl)
serve_ended conf (r ∷ rs) c = (refl, refl)

-- A connection that still waits after a list of requests has answered each of them, in order, by a
-- reply with one status line: given a connection that waits before them.
pub serve-AllAnswered :
    (conf : ServerConf) (rs : List Request) (c d : Context)
    → (serve conf (waiting c) rs).1 ≡ waiting d
    → (length (serve conf (waiting c) rs).0 ≡ length rs) × AllAnswered (serve conf (waiting c) rs).0
unfolding serve
serve-AllAnswered conf [] c d e = (refl, tt)
serve-AllAnswered conf (r ∷ rs) c d e =
    by_state (serve_one conf c r).1 refl e (λ c1. serve-AllAnswered conf rs c1 d)
  where
    by_state :
        (s : Connection)
        → (serve_one conf c r).1 ≡ s
        → (serve conf s rs).1 ≡ waiting d
        → ((c1 : Context)
            → (serve conf (waiting c1) rs).1 ≡ waiting d
            → (length (serve conf (waiting c1) rs).0 ≡ length rs)
              × AllAnswered (serve conf (waiting c1) rs).0)
        → (suc (length (serve conf s rs).0) ≡ suc (length rs))
          × (HasStatus (serve_one conf c r).0 × AllAnswered (serve conf s rs).0)
    by_state (waiting c1) e1 e2 rest =
        let (l, a) = rest c1 e2 in (ap suc l, (serve_one-HasStatus conf c r c1 e1, a))
    by_state (closed c1) e1 e2 rest = let ended = (serve_ended conf rs c1).1 in cc
    by_state crashed e1 e2 rest = let ended = (serve_ended conf rs c).0 in cc
