-- ===== src/Client/Process/Tests.antt =====
-- The theorem on the client's events at a key, a button with the window closed behind it, and a motion.
use gaminganywhere.Base.{ℕ, ◌+◌, List, [], ◌∷◌, Option, some, length, true, false, replicate}
use gaminganywhere.Controller.Queue.{MsgQueue, init}
use gaminganywhere.Controller.Server.{Receiver, buf_size}
use gaminganywhere.Input.{Bytes}
use gaminganywhere.Input.Replay.{Rect, Display, ga_fillrect}
use gaminganywhere.Client.Process.{
  SdlEvent, buttondown, keydown, window_close, motion, WindowConf, Window,
}

abbrev display : Display
display = record { keymap = λ k. k + 1; keysym_to_keycode = λ k. k; opens = true; has_xtest = true }

abbrev cropped : Option Rect
cropped = some (ga_fillrect 100 50 20 10)

abbrev block : ℕ → Option Bytes
block n = some (replicate n 0)

abbrev queue : MsgQueue
queue = (init block 96 28).1

-- `replicate`, shut, so that the buffer is not spelled out
zeros : ℕ → Bytes
zeros n = replicate n 0

abbrev fresh : Receiver
fresh = record { buf = zeros buf_size; bufhead = 0; buflen = 0 }

abbrev always : ℕ → Bytes → Option ℕ
always k bytes = some (length bytes)

abbrev conf : WindowConf
conf = record { ctrlenable = true; sendmousemotion = true; relative_mouse_mode = false }

abbrev window : Window
window = record { show_cursor = 1; running = true; queue = queue }

abbrev typed : List SdlEvent
typed = keydown 4 97 0 ∷ buttondown 3 ∷ window_close ∷ motion 5 6 1 1 ∷ []
