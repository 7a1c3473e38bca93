-- ===== src/Client/Process/Replays.antt =====
-- The events of the client's window on the server's display.
use gaminganywhere.Base.{◌<◌, sym, List, [], ◌∷◌, Option, none, some}
use gaminganywhere.Input.Events.{Event, IsEvent}
use gaminganywhere.Client.Process.{
  SdlEvent, keyup, keydown, buttonup, buttondown, motion, wheel, window_close, other,
}

-- The values of an event of SDL fit the fields of a message.
abbrev pub IsSdlEvent : SdlEvent → Type 0
IsSdlEvent (keyup scancode sym mod_) = sym < 4294967296
IsSdlEvent (keydown scancode sym mod_) = sym < 4294967296
IsSdlEvent (buttonup button) = Unit
IsSdlEvent (buttondown button) = Unit
IsSdlEvent (motion x y xrel yrel) = ((x < 65536) × (y < 65536)) × ((xrel < 65536) × (yrel < 65536))
IsSdlEvent (wheel motion_x motion_y) = (motion_x < 65536) × (motion_y < 65536)
IsSdlEvent window_close = Unit
IsSdlEvent other = Unit

abbrev pub AllSdl : List SdlEvent → Type 0
AllSdl [] = Unit
AllSdl (e ∷ es) = IsSdlEvent e × AllSdl es

abbrev AllOf : Option Event → Type 0
AllOf none = Unit
AllOf (some e) = IsEvent e
