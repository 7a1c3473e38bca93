-- ===== src/Rtsp/Server/Protocol.antt =====
-- The protocol that the command handlers keep: which state changes a command may make, and that
-- each request is answered by one status line.
use gaminganywhere.Base.{
  ℕ, ◌≡◌, ◌≢◌, refl, ◌∙◌, if◌then◌else◌, not, List, [], ◌∷◌, ◌++◌, Option, none, some, Bool, true,
  false, ltb,
}
use gaminganywhere.Rtsp.Server.{
  Bytes, Context, ServerState, idle, ready, playing, pause, teardown, Status, ok, method, session,
  state, aggregate, transport, internal, service, Header, ServerConf, TransportField, channel_max,
  LowerTransport, udp, tcp, multicast, Line, status_line, cseq, date, blank, public_methods,
  content_type, session_line, content_base, content_length, content, transport_udp, transport_tcp,
  reply_error, Outcome, done, fault, same, has_prefix,
}
use gaminganywhere.Rtsp.Server.Streams.{state-rtp_new_av_stream}
use gaminganywhere.Rtsp.Server.Commands.{
  Answers, describe, options, setup, play, pause_stream, tear_down, with_session, setup_stream,
  setup_session, setup_transport, finish_setup, setup_failed, may_setup, may_play, may_pause,
  pick_transport, transport_line, cleared,
}
use gaminganywhere.Rtsp.Server.Machine.{
  Command, describe_cmd, options_cmd, setup_cmd, play_cmd, pause_cmd, teardown_cmd, unknown_cmd,
  Request, dispatch,
}

-- The state changes of the protocol, by the command that makes them.
pub data Moves : Command → ServerState → ServerState → Type 0 where
  describes : (s : ServerState) → Moves describe_cmd s s
  lists : (s : ServerState) → Moves options_cmd s s
  sets_up : Moves setup_cmd idle ready
  sets_up_more : Moves setup_cmd ready ready
  starts : Moves play_cmd ready playing
  resumes : Moves play_cmd pause playing
  pauses : Moves pause_cmd playing pause
  tears_down : (s : ServerState) → Moves teardown_cmd s teardown

-- the status lines among the lines of a reply
abbrev pub statuses : List Line → List Status
statuses [] = []
statuses (status_line s ∷ ls) = s ∷ statuses ls
statuses (cseq n ∷ ls) = statuses ls
statuses (date ∷ ls) = statuses ls
statuses (blank ∷ ls) = statuses ls
statuses (public_methods ∷ ls) = statuses ls
statuses (content_type ∷ ls) = statuses ls
statuses (session_line id ∷ ls) = statuses ls
statuses (content_base url ∷ ls) = statuses ls
statuses (content_length n ∷ ls) = statuses ls
statuses (content bytes ∷ ls) = statuses ls
statuses (transport_udp a b c d ∷ ls) = statuses ls
statuses (transport_tcp a b ∷ ls) = statuses ls

-- One status line answers the command: either it is OK, and the state moved as the protocol says,
-- or it is another, and the state is what it was.
pub data Answered (cmd : Command) (st st' : ServerState) (ss : List Status) : Type 0 where
  accepted : ss ≡ ok ∷ [] → Moves cmd st st' → Answered cmd st st' ss
  refused : (s : Status) → ss ≡ s ∷ [] → s ≢ ok → st' ≡ st → Answered cmd st st' ss

-- what a handler that was called in the state `st` may come to
abbrev pub Keeps : Command → ServerState → Outcome → Type 0
Keeps cmd st fault = Unit {0}
Keeps cmd st (done c out) = Answered cmd st c.state (statuses out)

module _ (cmd : Command) (st : ServerState) where
  Keeps-if :
      (b : Bool) (x y : Outcome)
      → (b ≡ true → Keeps cmd st x)
      → (b ≡ false → Keeps cmd st y)
      → Keeps cmd st (if b then x else y)
  Keeps-if true x y h k = h refl
  Keeps-if false x y h k = k refl

  Keeps-error :
      (c : Context) (s : Status) → s ≢ ok → c.state ≡ st → Keeps cmd st (done c (reply_error c s))
  Keeps-error c s ne e = refused s refl ne e

  Keeps-with_session :
      (conf : ServerConf) (env : Answers) (c : Context) (h : Header) (act : Bytes → Outcome)
      → c.state ≡ st
      → ((id : Bytes) → Keeps cmd st (act id))
      → Keeps cmd st (with_session conf env c h act)
  unfolding with_session
  Keeps-with_session conf env c h act e k =
      Keeps-if (has_prefix env.path conf.object) _ _ (λ p. by_session c.session_id)
        (λ p. Keeps-error c session (λ q. cc) e)
    where
      by_session :
          (s : Option Bytes)
          → Keeps cmd st (elim s [
            | none ↦ fault
            | some id ↦ if same id h.header_session then act id else done c (reply_error c session)
          ])
      by_session none = tt
      by_session (some id) =
          Keeps-if (same id h.header_session) _ _ (λ p. k id)
            (λ p. Keeps-error c session (λ q. cc) e)

play-Moves : (st : ServerState) → may_play st ≡ true → Moves play_cmd st playing
play-Moves ready e = starts
play-Moves pause e = resumes
play-Moves idle e = cc
play-Moves playing e = cc
play-Moves teardown e = cc

pause-Moves : (st : ServerState) → may_pause st ≡ true → Moves pause_cmd st pause
pause-Moves playing e = pauses
pause-Moves idle e = cc
pause-Moves ready e = cc
pause-Moves pause e = cc
pause-Moves teardown e = cc

setup-Moves : (st : ServerState) → may_setup st ≡ true → Moves setup_cmd st ready
setup-Moves idle e = sets_up
setup-Moves ready e = sets_up_more
setup-Moves playing e = cc
setup-Moves pause e = cc
setup-Moves teardown e = cc

not-true : (b : Bool) → not b ≡ false → b ≡ true
not-true true e = refl
not-true false e = cc

module _ (conf : ServerConf) (env : Answers) (c : Context) (h : Header) where
  play-Keeps : Keeps play_cmd c.state (play conf env c h)
  unfolding play
  play-Keeps = Keeps-with_session play_cmd c.state conf env c h _ refl λ id.
      Keeps-if play_cmd c.state (not (may_play c.state)) _ _
        (λ p. Keeps-error play_cmd c.state c state (λ q. cc) refl)
        (λ p.
          Keeps-if play_cmd c.state (not env.registered) _ _
            (λ q. Keeps-error play_cmd c.state c internal (λ r. cc) refl)
            (λ q. accepted refl (play-Moves c.state (not-true _ p))))

  pause-Keeps : Keeps pause_cmd c.state (pause_stream conf env c h)
  unfolding pause_stream
  pause-Keeps = Keeps-with_session pause_cmd c.state conf env c h _ refl λ id.
      Keeps-if pause_cmd c.state (may_pause c.state) _ _
        (λ p. accepted refl (pause-Moves c.state p))
        (λ p. Keeps-error pause_cmd c.state c state (λ q. cc) refl)

  teardown-Keeps : Keeps teardown_cmd c.state (tear_down conf env c h)
  unfolding tear_down
  teardown-Keeps =
      Keeps-with_session teardown_cmd c.state conf env c h _ refl
        λ id. accepted refl (tears_down c.state)

module _ (conf : ServerConf) (env : Answers) (st : ServerState) (may : may_setup st ≡ true) where
  failed-Keeps :
      (c : Context) (i : ℕ) (s : Status)
      → s ≢ ok
      → c.state ≡ st
      → Keeps setup_cmd st (setup_failed c i s)
  failed-Keeps c i s ne e =
      Keeps-if setup_cmd st (ltb i channel_max) _ _
        (λ p. Keeps-error setup_cmd st (cleared c i) s ne e) (λ p. tt)

  finish-Keeps :
      (th : TransportField) (i : ℕ) (id : Bytes) (made : Option (Bool × Context))
      → ((b : Bool) (c : Context) → made ≡ some (b, c) → c.state ≡ st)
      → Keeps setup_cmd st (finish_setup env th i id made)
  unfolding finish_setup
  finish-Keeps th i id none e = tt
  finish-Keeps th i id (some (false, c)) e = failed-Keeps c i transport (λ q. cc) (e false c refl)
  finish-Keeps th i id (some (true, c)) e = accepted (one_status th.lower) (setup-Moves st may)
    where
      one_status :
          (t : LowerTransport) → ok ∷ statuses (transport_line env th i t ++ (blank ∷ [])) ≡ ok ∷ []
      one_status udp = refl
      one_status tcp = refl
      one_status multicast = refl

  transport-Keeps :
      (c : Context) (i : ℕ) (id : Bytes) (th : Option TransportField)
      → c.state ≡ st
      → Keeps setup_cmd st (setup_transport conf env c i id th)
  unfolding setup_transport
  transport-Keeps c i id none e = failed-Keeps c i transport (λ q. cc) e
  transport-Keeps c i id (some th) e =
      Keeps-if setup_cmd st (not env.peername) _ _ (λ p. failed-Keeps c i internal (λ q. cc) e)
        λ p.
          Keeps-if setup_cmd st (not env.sockname) _ _ (λ p. failed-Keeps c i internal (λ q. cc) e)
            λ p.
              Keeps-if setup_cmd st (not (ltb i channel_max)) _ _ (λ p. tt)
                λ p.
                  finish-Keeps th i id _
                    (λ b c' made. state-rtp_new_av_stream conf env.av _ i _ made ∙ e)

  session-Keeps :
      (c : Context) (h : Header) (i : ℕ) (id : Option Bytes) (given : Bytes)
      → c.state ≡ st
      → Keeps setup_cmd st (setup_session conf env c h i id given)
  unfolding setup_session
  session-Keeps c h i (some id) given e =
      Keeps-if setup_cmd st (same id given) _ _
        (λ p. transport-Keeps c i id (pick_transport h.transports) e)
        (λ p. failed-Keeps c i session (λ q. cc) e)
  session-Keeps c h i none [] e =
      transport-Keeps (record c { session_id = some env.fresh_id }) i env.fresh_id
        (pick_transport h.transports) e
  session-Keeps c h i none (x ∷ xs) e = failed-Keeps c i session (λ q. cc) e

module _ (conf : ServerConf) (env : Answers) (c : Context) (h : Header) where
  stream-Keeps : (i : Option ℕ) → Keeps setup_cmd c.state (setup_stream conf env c h i)
  unfolding setup_stream
  stream-Keeps none = Keeps-error setup_cmd c.state c service (λ q. cc) refl
  stream-Keeps (some i) =
      Keeps-if setup_cmd c.state (may_setup c.state) _ _
        (λ p. session-Keeps conf env c.state p c h i c.session_id h.header_session refl)
        (λ p. Keeps-error setup_cmd c.state c state (λ q. cc) refl)

  setup-Keeps : Keeps setup_cmd c.state (setup conf env c h)
  unfolding setup
  setup-Keeps =
      Keeps-if setup_cmd c.state (has_prefix env.path conf.object) _ _ (λ p. stream-Keeps _)
        (λ p. Keeps-error setup_cmd c.state c aggregate (λ q. cc) refl)

  describe-Keeps : (url : Bytes) → Keeps describe_cmd c.state (describe conf env c url)
  unfolding describe
  describe-Keeps url =
      Keeps-if describe_cmd c.state (same env.path conf.object) _ _
        (λ p. accepted refl (describes c.state))
        (λ p. Keeps-error describe_cmd c.state c service (λ q. cc) refl)

-- Every handler, on every branch that does not fault, prints one status line. If it is OK, the state
-- has moved as the protocol allows this command in this state; if it is another, the state is
-- unchanged.
pub dispatch-Keeps :
    (conf : ServerConf) (cmd : Command) (c : Context) (r : Request)
    → Keeps cmd c.state (dispatch conf cmd c r)
unfolding dispatch
dispatch-Keeps conf describe_cmd c r = describe-Keeps conf r.answers c r.header r.url
dispatch-Keeps conf options_cmd c r = unfold options in accepted refl (lists c.state)
dispatch-Keeps conf setup_cmd c r = setup-Keeps conf r.answers c r.header
dispatch-Keeps conf play_cmd c r = play-Keeps conf r.answers c r.header
dispatch-Keeps conf pause_cmd c r = pause-Keeps conf r.answers c r.header
dispatch-Keeps conf teardown_cmd c r = teardown-Keeps conf r.answers c r.header
dispatch-Keeps conf unknown_cmd c r = Keeps-error unknown_cmd c.state c method (λ q. cc) refl
