-- ===== src/Input/Replay.antt =====
-- The replay of input messages on X11, of ga/client/ctrl-sdl.cpp: sdlmsg_replay_init and its kin,
-- sdlmsg_replay_native, sdlmsg_replay and sdlmsg_replay_callback, with ga_fillrect of
-- ga/core/ga-common.cpp. The calls of XTest are the list of the effects, in order. Coordinates of a
-- rectangle are not negative.
use gaminganywhere.Base.{
  ℕ, ◌+◌, ◌-◌, ◌*◌, ltb, ◌==◌, if◌then◌else◌, Bool, true, false, List, [], ◌∷◌, Option, none, some,
}
use gaminganywhere.Input.{
  Bytes, SdlMsg, sdlmsg_ntoh, of_bytes, keyboard_type, mousekey_type, mousemotion_type,
  mousewheel_type,
}

-- `struct gaRect`
pub record Rect : Type 0 where
  pub left : ℕ
  pub top : ℕ
  pub right : ℕ
  pub bottom : ℕ
  pub width : ℕ
  pub height : ℕ
  pub linesize : ℕ
  pub size : ℕ

-- RGBA_SIZE
abbrev pub rgba_size : ℕ
rgba_size = 4

abbrev pub lower : ℕ → ℕ → ℕ
lower a b = if ltb b a then b else a

abbrev pub higher : ℕ → ℕ → ℕ
higher a b = if ltb b a then a else b

-- The sides are put in order; a side is one pixel at least, so that the last test never fails.
unfoldable pub ga_fillrect : ℕ → ℕ → ℕ → ℕ → Rect
ga_fillrect left top right bottom =
    let width = higher left right - lower left right + 1 in
    let height = higher top bottom - lower top bottom + 1 in
    record {
      left = lower left right;
      top = lower top bottom;
      right = higher left right;
      bottom = higher top bottom;
      width = width;
      height = height;
      linesize = width * rgba_size;
      size = width * height * rgba_size;
    }

-- What the display answers, and the key map: `keymap` gives 0 for INVALID_KEY, and `XKeysymToKeycode`
-- gives 0 where a symbol has no code.
pub record Display : Type 0 where
  pub keymap : ℕ → ℕ
  pub keysym_to_keycode : ℕ → ℕ
  pub opens : Bool
  pub has_xtest : Bool

-- `display`, `prect` and the callback
pub record Replayer : Type 0 where
  pub display : Bool
  pub prect : Option Rect
  pub replaying : Bool

abbrev pub crop : Option (ℕ × ℕ × ℕ × ℕ) → Option Rect
crop none = none
crop (some (l, t, r, b)) = some (ga_fillrect l t r b)

-- The flag is false for -1. `rect` is left, top, right and bottom.
unfoldable pub replay_init : Display → Option (ℕ × ℕ × ℕ × ℕ) → Replayer → Bool × Replayer
replay_init d rect r =
    let cropped = record r { prect = crop rect } in
    if d.opens
    then (if d.has_xtest
        then (true, record cropped { display = true; replaying = true })
        else (false, record cropped { display = true }))
    else (false, record cropped { display = false })

unfoldable pub replay_deinit : Replayer → Replayer
replay_deinit r = record r { display = false }

-- The calls on the display.
pub data Effect : Type 0 where
  grab release sync : Effect
  key button : ℕ → Bool → Effect
  motion : ℕ → ℕ → Effect

abbrev pub is_true : ℕ → Bool
is_true n = if n == 0 then false else true

abbrev pub fake_key : Display → ℕ → ℕ → List Effect
fake_key d ksym pressed =
    if ksym == 0
    then []
    else (if ltb 0 (d.keysym_to_keycode ksym)
        then grab ∷ key (d.keysym_to_keycode ksym) (is_true pressed) ∷ sync ∷ release ∷ []
        else [])

-- A click of a button of the wheel.
abbrev pub click : ℕ → List Effect
click b = grab ∷ button b true ∷ sync ∷ button b false ∷ sync ∷ release ∷ []

-- `(short) x > 0`
abbrev pub fake_wheel : ℕ → List Effect
fake_wheel x = if x == 0 then [] else if ltb x 32768 then click 4 else click 5

abbrev pub offset : Option Rect → ℕ → ℕ → Effect
offset none x y = motion x y
offset (some r) x y = motion (r.left + x) (r.top + y)

unfoldable pub replay_native : Display → Option Rect → SdlMsg → List Effect
replay_native d prect m =
    if m.msgtype == keyboard_type
    then fake_key d (d.keymap m.sdlkey) m.is_pressed
    else if m.msgtype == mousekey_type
    then grab ∷ button m.mousebutton (is_true m.is_pressed) ∷ sync ∷ release ∷ []
    else if m.msgtype == mousewheel_type
    then fake_wheel m.mousex
    else if m.msgtype == mousemotion_type
    then grab ∷ offset prect m.mousex m.mousey ∷ sync ∷ release ∷ []
    else []

unfoldable pub sdlmsg_replay : Display → Option Rect → SdlMsg → List Effect
unfolding replay_native sdlmsg_ntoh
sdlmsg_replay d prect m = replay_native d prect (sdlmsg_ntoh m)

-- The length is looked at, and nothing is done about it.
unfoldable pub replay_callback : Display → Option Rect → Bytes → List Effect
unfolding sdlmsg_replay
replay_callback d prect msg = sdlmsg_replay d prect (of_bytes msg)
