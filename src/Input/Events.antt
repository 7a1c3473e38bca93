-- ===== src/Input/Events.antt =====
-- An input event, from the client's builders through the bytes of its message to the replay.
use gaminganywhere.Base.{
  ℕ, ◌+◌, ◌*◌, ◌/◌, ◌%◌, ◌<◌, ◌≡◌, refl, ap, ◌∙◌, arith, ◌==◌, ◌||◌, not, ltb, if◌then◌else◌, true,
  false, List, [], ◌∷◌, Option, none, some, length,
}
use mathlib.Core.Path.{ap₂}
use gaminganywhere.Input.{
  SdlMsg, sdlmsg_keyboard, sdlmsg_mousekey, sdlmsg_mousewheel, sdlmsg_mousemotion, sdlmsg_ntoh,
  to_bytes, swap16, swap32, sizeof_sdlmsg,
}
use gaminganywhere.Input.Layout.{
  IsSdlMsg, of_bytes-to_bytes, keyboard-IsSdlMsg, mousekey-IsSdlMsg, mousewheel-IsSdlMsg,
  mousemotion-IsSdlMsg, swap16-swap16, unless_zero-swap16, unless_zero-swap32,
}
use gaminganywhere.Input.Replay.{
  Rect, Display, Effect, grab, release, sync, button, motion, is_true, fake_key, fake_wheel, offset,
  sdlmsg_replay, replay_callback,
}
use gaminganywhere.Controller.Server.Frames.{IsMessage}

-- The events that the client sends.
pub data Event : Type 0 where
  keyboard : ℕ → ℕ → ℕ → ℕ → Event
  mousekey : ℕ → ℕ → Event
  mousewheel : ℕ → ℕ → Event
  mousemotion : ℕ → ℕ → ℕ → Event

abbrev pub build : Event → SdlMsg
build (keyboard pressed scancode key mod_) = sdlmsg_keyboard pressed scancode key mod_
build (mousekey pressed b) = sdlmsg_mousekey pressed b
build (mousewheel x y) = sdlmsg_mousewheel x y
build (mousemotion x y relative) = sdlmsg_mousemotion x y relative

-- The values that are replayed fit their fields.
abbrev pub IsEvent : Event → Type 0
IsEvent (keyboard pressed scancode key mod_) = key < 4294967296
IsEvent (mousekey pressed b) = Unit
IsEvent (mousewheel x y) = x < 65536
IsEvent (mousemotion x y relative) = (x < 65536) × (y < 65536)

-- What an event is on the display: each is one call of XTest between a grab and its release, or two
-- for the wheel, which turns forward where its 16 bits are a positive number, and each is waited for.
unfoldable pub effects : Display → Option Rect → Event → List Effect
effects d prect (keyboard pressed scancode key mod_) =
    if d.keymap key == 0 || d.keysym_to_keycode (d.keymap key) == 0
    then []
    else grab
      ∷ Effect.key (d.keysym_to_keycode (d.keymap key)) (not (pressed == 0))
      ∷ sync
      ∷ release
      ∷ []
effects d prect (mousekey pressed b) = grab ∷ button b (not (pressed == 0)) ∷ sync ∷ release ∷ []
effects d prect (mousewheel x y) =
    if x == 0
    then []
    else let turned = if ltb x 32768 then 4 else 5 in
      grab ∷ button turned true ∷ sync ∷ button turned false ∷ sync ∷ release ∷ []
effects d none (mousemotion x y relative) = grab ∷ motion x y ∷ sync ∷ release ∷ []
effects d (some r) (mousemotion x y relative) =
    grab ∷ motion (r.left + x) (r.top + y) ∷ sync ∷ release ∷ []

build-IsSdlMsg : (e : Event) → IsSdlMsg (build e)
build-IsSdlMsg (keyboard pressed scancode key mod_) = keyboard-IsSdlMsg pressed scancode key mod_
build-IsSdlMsg (mousekey pressed b) = mousekey-IsSdlMsg pressed b
build-IsSdlMsg (mousewheel x y) = mousewheel-IsSdlMsg x y
build-IsSdlMsg (mousemotion x y relative) = mousemotion-IsSdlMsg x y relative

fake_key-effects :
    (d : Display) (prect : Option Rect) (pressed scancode key mod_ : ℕ)
    → fake_key d (d.keymap key) pressed ≡ effects d prect (keyboard pressed scancode key mod_)
unfolding effects
fake_key-effects d prect pressed scancode key mod_ = ground arith

fake_wheel-effects :
    (d : Display) (prect : Option Rect) (x y : ℕ) → fake_wheel x ≡ effects d prect (mousewheel x y)
unfolding effects
fake_wheel-effects d prect x y = ground arith

offset-effects :
    (d : Display) (prect : Option Rect) (x y relative : ℕ)
    → grab ∷ offset prect x y ∷ sync ∷ release ∷ [] ≡ effects d prect (mousemotion x y relative)
unfolding effects
offset-effects d none x y relative = refl
offset-effects d (some r) x y relative = refl

is_true-not : (n : ℕ) → is_true n ≡ not (n == 0)
is_true-not n = ground arith

replay-build :
    (d : Display) (prect : Option Rect) (e : Event)
    → IsEvent e
    → sdlmsg_replay d prect (build e) ≡ effects d prect e
unfolding sdlmsg_replay effects sdlmsg_keyboard sdlmsg_mousekey sdlmsg_mousewheel sdlmsg_mousemotion
replay-build d prect (keyboard pressed scancode key mod_) h =
    ap (λ k. fake_key d (d.keymap k) pressed) (unless_zero-swap32 key h)
    ∙ fake_key-effects d prect pressed scancode key mod_
replay-build d prect (mousekey pressed b) h =
    ap (λ p. grab ∷ button b p ∷ sync ∷ release ∷ []) (is_true-not pressed)
replay-build d prect (mousewheel x y) h =
    ap fake_wheel (unless_zero-swap16 x h) ∙ fake_wheel-effects d prect x y
replay-build d prect (mousemotion x y relative) h =
    ap₂ (λ a b. grab ∷ offset prect a b ∷ sync ∷ release ∷ []) (unless_zero-swap16 x h.0)
      (unless_zero-swap16 y h.1)
    ∙ offset-effects d prect x y relative

-- An event that the client builds has the same effect on the server's display as the event itself: its
-- key, button, wheel direction and position pass through the swapped fields and the bytes of the
-- message unchanged, where they fit their fields.
pub replay_callback-build :
    (d : Display) (prect : Option Rect) (e : Event)
    → IsEvent e
    → replay_callback d prect (to_bytes (build e)) ≡ effects d prect e
unfolding replay_callback
replay_callback-build d prect e h =
    ap (sdlmsg_replay d prect) (of_bytes-to_bytes (build e) (build-IsSdlMsg e))
    ∙ replay-build d prect e h

-- The bytes of an event's message are a message for the server's framing, of the struct's size.
pub build-IsMessage :
    (e : Event) → IsMessage (to_bytes (build e)) × (length (to_bytes (build e)) ≡ sizeof_sdlmsg)
unfolding to_bytes sdlmsg_keyboard sdlmsg_mousekey sdlmsg_mousewheel sdlmsg_mousemotion
build-IsMessage (keyboard pressed scancode key mod_) =
    (record { header = omega arith; size = refl }, refl)
build-IsMessage (mousekey pressed b) = (record { header = omega arith; size = refl }, refl)
build-IsMessage (mousewheel x y) = (record { header = omega arith; size = refl }, refl)
build-IsMessage (mousemotion x y relative) = (record { header = omega arith; size = refl }, refl)

low-digits :
    (a b c d : ℕ)
    → c < 256
    → d < 256
    → swap16 (a * 16777216 + b * 65536 + c * 256 + d) ≡ d * 256 + c
low-digits a b c d hc hd =
    let w = a * 16777216 + b * 65536 + c * 256 + d in
    let e0 : w % 256 ≡ d = omega arith in
    let e1 : w / 256 % 256 ≡ c = omega arith in rw (e0, e1) refl

swap16-swap32 : (key : ℕ) → key < 4294967296 → swap16 (swap32 key) ≡ key / 65536
swap16-swap32 key fits =
    low-digits (key % 256) (key / 256 % 256) (key / 65536 % 256) (key / 16777216 % 256)
      (omega arith) (omega arith)
    ∙ omega arith

-- sdlmsg_ntoh of a keyboard message whose scan code is not 0 puts the upper half of the key there.
pub ntoh-scancode :
    (pressed scancode key mod_ : ℕ)
    → 0 < scancode
    → scancode < 65536
    → key < 4294967296
    → (sdlmsg_ntoh (sdlmsg_keyboard pressed scancode key mod_)).scancode ≡ key / 65536
unfolding sdlmsg_ntoh sdlmsg_keyboard
ntoh-scancode pressed scancode key mod_ pos small fits =
    let busy : (swap16 scancode == 0) ≡ false = ground (arith, swap16-swap16 scancode small) in
    rw busy (swap16-swap32 key fits)
