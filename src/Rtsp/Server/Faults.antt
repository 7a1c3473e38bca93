-- ===== src/Rtsp/Server/Faults.antt =====
-- Where the command handlers run into undefined behaviour.
use gaminganywhere.Base.{
  suc, ◌≡◌, ◌≢◌, ◌↔◌, refl, ap, ◌∙◌, [], ◌∷◌, arith, if◌then◌else◌, Option, none, some, Bool, true,
  false,
}
use gaminganywhere.Rtsp.Server.{
  Bytes, Context, session, Header, ServerConf, TransportField, channel_max, source_channel_max,
  Outcome, reply_error, done, fault, same, has_prefix, find_stream, stream_name,
}
use gaminganywhere.Rtsp.Server.Commands.{
  Answers, setup, play, pause_stream, tear_down, with_session, setup_stream, setup_session,
  setup_transport, may_setup, pick_transport,
}

-- A command whose own part does not fault.
with_session_fault :
    (conf : ServerConf) (env : Answers) (c : Context) (h : Header) (act : Bytes → Outcome)
    → ((id : Bytes) → act id ≢ fault)
    → (with_session conf env c h act ≡ fault)
      ↔ ((has_prefix env.path conf.object ≡ true) × (c.session_id ≡ none))
unfolding with_session
with_session_fault conf env c h act safe = (λ e. fault_needs e, λ e. rw (e.0) (rw (e.1)))
  where
    by_match :
        (m : Bool) (id : Bytes) → (if m then act id else done c (reply_error c session)) ≢ fault
    by_match true id e = safe id e
    by_match false id e = cc

    by_parts :
        (b : Bool) (s : Option Bytes)
        → (if b
            then elim s [
              | none ↦ fault
              | some id ↦
                  if same id h.header_session then act id else done c (reply_error c session)
            ]
            else done c (reply_error c session))
          ≡ fault
        → (b ≡ true) × (s ≡ none)
    by_parts true none e = (refl, refl)
    by_parts true (some id) e = absurd (by_match (same id h.header_session) id e)
    by_parts false s e = cc

    fault_needs :
        with_session conf env c h act ≡ fault
        → (has_prefix env.path conf.object ≡ true) × (c.session_id ≡ none)
    fault_needs e = by_parts (has_prefix env.path conf.object) c.session_id e

-- PLAY, PAUSE and TEARDOWN fault exactly when the URL names the server's object and no SETUP has
-- left a session: `strcmp` is handed the NULL `session_id`. On every other branch they reply.
pub play-fault_iff :
    (conf : ServerConf) (env : Answers) (c : Context) (h : Header)
    → ((play conf env c h ≡ fault)
        ↔ ((has_prefix env.path conf.object ≡ true) × (c.session_id ≡ none)))
      × ((pause_stream conf env c h ≡ fault)
          ↔ ((has_prefix env.path conf.object ≡ true) × (c.session_id ≡ none)))
      × ((tear_down conf env c h ≡ fault)
          ↔ ((has_prefix env.path conf.object ≡ true) × (c.session_id ≡ none)))
unfolding play pause_stream tear_down
play-fault_iff conf env c h = (
  with_session_fault conf env c h _ (λ id e. ground arith),
  with_session_fault conf env c h _ (λ id e. ground arith),
  with_session_fault conf env c h _ (λ id e. cc),
)

transport_out_of_range :
    (conf : ServerConf) (env : Answers) (c : Context) (id : Bytes) (th : Option TransportField)
    → setup_transport conf env c channel_max id th ≡ fault
unfolding setup_transport
transport_out_of_range conf env c id none = refl
transport_out_of_range conf env c id (some th) = ground arith

session_out_of_range :
    (conf : ServerConf) (env : Answers) (c : Context) (h : Header) (id : Option Bytes)
    (given : Bytes)
    → setup_session conf env c h channel_max id given ≡ fault
unfolding setup_session
session_out_of_range conf env c h (some id) given =
    ground (arith, transport_out_of_range conf env c id (pick_transport h.transports))
session_out_of_range conf env c h none [] =
    transport_out_of_range conf env (record c { session_id = some env.fresh_id }) env.fresh_id
      (pick_transport h.transports)
session_out_of_range conf env c h none (x ∷ xs) = refl

-- A SETUP of the stream 8, which the loop over the channel names accepts, indexes behind the arrays
-- of 8 channels, whatever the session, the transports and the answers are.
pub setup_out_of_range :
    (conf : ServerConf) (env : Answers) (c : Context) (h : Header)
    → has_prefix env.path conf.object ≡ true
    → find_stream (stream_name env.path conf.object env.stale) 0 (suc source_channel_max)
      ≡ some channel_max
    → may_setup c.state ≡ true
    → setup conf env c h ≡ fault
unfolding setup
setup_out_of_range conf env c h p f m = rw p (
    ap (setup_stream conf env c h) f
    ∙ unfold setup_stream in rw m (session_out_of_range conf env c h c.session_id h.header_session))
