-- ===== src/Input/Session.antt =====
-- Input events from the client's queue to the server's display.
use gaminganywhere.Base.{ℕ, ◌<◌, ◌≡◌, refl, ap, ◌∙◌, arith, List, [], ◌∷◌, Option, length, map}
use mathlib.Core.Path.{ap₂}
use gaminganywhere.Input.{Bytes, to_bytes}
use gaminganywhere.Input.Replay.{Rect, Display, replay_callback}
use gaminganywhere.Input.Events.{
  Event, build, IsEvent, effects, replay_callback-build, build-IsMessage,
}
use gaminganywhere.Controller.Queue.{MsgQueue}
use gaminganywhere.Controller.Queue.Refine.{Holds}
use gaminganywhere.Controller.Server.{Serving, Receiver, reading, tcp_serve}
use gaminganywhere.Controller.Server.Frames.{AllMessages}
use gaminganywhere.Controller.Server.Stream.{Waits}
use gaminganywhere.Controller.Client.{drain, empty}
use gaminganywhere.Controller.Client.Drain.{TakesAll, AllFit, drain-serve}

abbrev pub messages : List Event → List Bytes
messages es = map (λ e. to_bytes (build e)) es

abbrev pub AllEvents : List Event → Type 0
AllEvents [] = Unit
AllEvents (e ∷ es) = IsEvent e × AllEvents es

messages-AllMessages : (es : List Event) → AllMessages (messages es)
messages-AllMessages [] = tt
messages-AllMessages (e ∷ es) = ((build-IsMessage e).0, messages-AllMessages es)

messages-AllFit : (es : List Event) → AllFit (messages es)
messages-AllFit [] = tt
messages-AllFit (e ∷ es) = (omega (arith, (build-IsMessage e).1), messages-AllFit es)

replay-messages :
    (d : Display) (prect : Option Rect) (es : List Event)
    → AllEvents es
    → map (replay_callback d prect) (messages es) ≡ map (effects d prect) es
replay-messages d prect [] all = refl
replay-messages d prect (e ∷ es) all =
    ap₂ ◌∷◌ (replay_callback-build d prect e all.0) (replay-messages d prect es all.1)

-- The messages of a list of events in the client's queue are all sent, and leave it empty. A server
-- that waits with an empty buffer, and whose `recv` gives what each `send` took, hands over messages
-- whose replay has the effects of the events, in the order in which they were queued.
pub drain-replays :
    (send : ℕ → List ℕ → Option ℕ) (fuel : ℕ) (q : MsgQueue) (count : ℕ) (s : Receiver)
    (d : Display) (prect : Option Rect) (es : List Event)
    → TakesAll send
    → Holds q count (messages es)
    → length (messages es) < fuel
    → Waits s []
    → AllEvents es
    → Holds (drain send fuel 0 q).queue count []
      × ((drain send fuel 0 q).end ≡ empty)
      × (map (replay_callback d prect) (tcp_serve (reading s) (drain send fuel 0 q).sent).0
          ≡ map (effects d prect) es)
drain-replays send fuel q count s d prect es takes h enough w all =
    let r =
      drain-serve send fuel q count (messages es) s takes h enough (messages-AllMessages es)
        (messages-AllFit es) w in
    (
      r.0,
      r.1,
      ap (λ (p : List Bytes × Serving). map (replay_callback d prect) p.0) r.3
          ∙ replay-messages d prect es all,
    )
