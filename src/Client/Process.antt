-- ===== src/Client/Process.antt =====
-- ProcessEvent of ga/client/ga-client.cpp, built with SDL 2 and not for Android: what the client's window
-- does with an event of SDL. Coordinates are the 16 bits that the builders take. The events of the
-- client's own threads, which show images and open the sound, are `other`, and `window_close` is the
-- close of the window or SDL_QUIT.
pub mod Queued
pub mod Replays
mod Tests
use gaminganywhere.Base.{
  ℕ, ◌-◌, ◌==◌, if◌then◌else◌, ◌&&◌, Bool, true, false, List, [], ◌∷◌, Option, none, some,
}
use gaminganywhere.Input.{to_bytes}
use gaminganywhere.Input.Events.{Event, keyboard, mousekey, mousewheel, mousemotion, build}
use gaminganywhere.Controller.Queue.{MsgQueue}
use gaminganywhere.Controller.Client.{client_sendmsg}

pub data SdlEvent : Type 0 where
  keyup : (scancode sym mod_ : ℕ) → SdlEvent
  keydown : (scancode sym mod_ : ℕ) → SdlEvent
  buttonup : (button : ℕ) → SdlEvent
  buttondown : (button : ℕ) → SdlEvent
  motion : (x y xrel yrel : ℕ) → SdlEvent
  wheel : (motion_x motion_y : ℕ) → SdlEvent
  window_close : SdlEvent
  other : SdlEvent

-- What the window reads of the settings.
pub record WindowConf : Type 0 where
  pub ctrlenable : Bool
  pub sendmousemotion : Bool
  pub relative_mouse_mode : Bool

pub record Window : Type 0 where
  pub show_cursor : ℕ
  pub running : Bool
  pub queue : MsgQueue

-- SDLK_BACKQUOTE
abbrev pub backquote : ℕ
backquote = 96

abbrev pub when : Bool → Event → Option Event
when true e = some e
when false e = none

-- The message that an event is sent as.
abbrev pub message_of : WindowConf → SdlEvent → Option Event
message_of c (keyup scancode sym mod_) = when c.ctrlenable (keyboard 0 scancode sym mod_)
message_of c (keydown scancode sym mod_) = when c.ctrlenable (keyboard 1 scancode sym mod_)
message_of c (buttonup button) = when c.ctrlenable (mousekey 0 button)
message_of c (buttondown button) = when c.ctrlenable (mousekey 1 button)
message_of c (motion x y xrel yrel) =
    when (c.ctrlenable && c.sendmousemotion)
      (if c.relative_mouse_mode then mousemotion xrel yrel 1 else mousemotion x y 0)
message_of c (wheel motion_x motion_y) =
    when (c.ctrlenable && c.sendmousemotion) (mousewheel motion_x motion_y)
message_of c window_close = none
message_of c other = none

-- The back quote shows or hides the cursor in the relative mode.
abbrev pub cursor_after : WindowConf → ℕ → SdlEvent → ℕ
cursor_after c shown (keyup scancode sym mod_) =
    if sym == backquote && c.relative_mouse_mode then 1 - shown else shown
cursor_after c shown e = shown

abbrev pub running_after : Bool → SdlEvent → Bool
running_after running window_close = false
running_after running e = running

-- The controller's queue behind the message; `enabled` is the controller's own flag.
abbrev pub sent : Bool → MsgQueue → Option Event → MsgQueue
sent enabled q none = q
sent enabled q (some e) = (client_sendmsg enabled q (to_bytes (build e))).1

pub process_event : WindowConf → Bool → Window → SdlEvent → Window
process_event c enabled w e = record {
  show_cursor = cursor_after c w.show_cursor e;
  running = running_after w.running e;
  queue = sent enabled w.queue (message_of c e);
}

-- The loop of `main` over the events, while the window runs.
pub process_all : WindowConf → Bool → List SdlEvent → Window → Window
process_all c enabled [] w = w
process_all c enabled (e ∷ es) w =
    let rest = process_all c enabled es (process_event c enabled w e) in
    if w.running then rest else w
