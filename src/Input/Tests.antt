-- ===== src/Input/Tests.antt =====
-- The theorems on input messages at a key, a button, the wheel and a motion.
use gaminganywhere.Base.{◌+◌, ◌/◌, ◌≡◌, arith, Option, some, true}
use gaminganywhere.Input.{sdlmsg_keyboard, sdlmsg_ntoh, to_bytes}
use gaminganywhere.Input.Replay.{Rect, Display, ga_fillrect, replay_callback}
use gaminganywhere.Input.Events.{mousemotion, build, effects, replay_callback-build, ntoh-scancode}

abbrev display : Display
display = record { keymap = λ k. k + 1; keysym_to_keycode = λ k. k; opens = true; has_xtest = true }

abbrev cropped : Option Rect
cropped = some (ga_fillrect 100 50 20 10)

replay_callback-build_example :
    replay_callback display cropped (to_bytes (build (mousemotion 300 2 0)))
    ≡ effects display cropped (mousemotion 300 2 0)
replay_callback-build_example =
    replay_callback-build display cropped (mousemotion 300 2 0) (omega arith, omega arith)

ntoh-scancode_example :
    (sdlmsg_ntoh (sdlmsg_keyboard 1 79 1073741903 0)).scancode ≡ 1073741903 / 65536
ntoh-scancode_example = ntoh-scancode 1 79 1073741903 0 (omega arith) (omega arith) (omega arith)
