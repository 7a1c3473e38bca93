-- ===== src/Input/Layout.antt =====
-- The memory of a message: reading it back, and its frame.
use gaminganywhere.Base.{ℕ, ◌+◌, ◌*◌, ◌/◌, ◌%◌, ◌<◌, ◌≡◌, refl, ◌∙◌, arith, length, take_all}
use gaminganywhere.Input.{
  SdlMsg, swap16, swap32, to_bytes, of_bytes, sdlmsg_keyboard, sdlmsg_mousekey, sdlmsg_mousewheel,
  sdlmsg_mousemotion, unless_zero,
}

-- The fields fit their types.
pub record IsSdlMsg (m : SdlMsg) : Type 0 where
  pub msgsize : m.msgsize < 65536
  pub scancode : m.scancode < 65536
  pub sdlkey : m.sdlkey < 4294967296
  pub sdlmod : m.sdlmod < 65536
  pub mousex : m.mousex < 65536
  pub mousey : m.mousey < 65536
  pub padding : length m.padding ≡ 9

bytes16 : (v : ℕ) → v < 65536 → v % 256 + 256 * (v / 256 % 256) ≡ v
bytes16 v h = omega arith

bytes32 :
    (v : ℕ)
    → v < 4294967296
    → v % 256 + 256 * (v / 256 % 256) + 65536 * (v / 65536 % 256 + 256 * (v / 16777216 % 256)) ≡ v
bytes32 v h = omega arith

pub swap16_lt : (v : ℕ) → swap16 v < 65536
swap16_lt v = omega arith

pub swap32_lt : (v : ℕ) → swap32 v < 4294967296
swap32_lt v = omega arith

pub swap16-swap16 : (v : ℕ) → v < 65536 → swap16 (swap16 v) ≡ v
swap16-swap16 v h = omega arith

swap32-digits :
    (a b c d : ℕ)
    → a < 256
    → b < 256
    → c < 256
    → d < 256
    → swap32 (a * 16777216 + b * 65536 + c * 256 + d) ≡ d * 16777216 + c * 65536 + b * 256 + a
swap32-digits a b c d ha hb hc hd =
    let w = a * 16777216 + b * 65536 + c * 256 + d in
    let e0 : w % 256 ≡ d = omega arith in
    let e1 : w / 256 % 256 ≡ c = omega arith in
    let e2 : w / 65536 % 256 ≡ b = omega arith in
    let e3 : w / 16777216 % 256 ≡ a = omega arith in rw (e0, e1, e2, e3) refl

pub swap32-swap32 : (v : ℕ) → v < 4294967296 → swap32 (swap32 v) ≡ v
swap32-swap32 v h =
    swap32-digits (v % 256) (v / 256 % 256) (v / 65536 % 256) (v / 16777216 % 256) (omega arith)
      (omega arith) (omega arith) (omega arith)
    ∙ omega (arith, bytes32 v h)

pub of_bytes-to_bytes : (m : SdlMsg) → IsSdlMsg m → of_bytes (to_bytes m) ≡ m
unfolding of_bytes to_bytes
of_bytes-to_bytes m v = λ i. record {
  msgsize = bytes16 m.msgsize v.msgsize i;
  msgtype = m.msgtype;
  is_pressed = m.is_pressed;
  mousebutton = m.mousebutton;
  unused1 = m.unused1;
  scancode = bytes16 m.scancode v.scancode i;
  sdlkey = bytes32 m.sdlkey v.sdlkey i;
  sdlmod = bytes16 m.sdlmod v.sdlmod i;
  mousex = bytes16 m.mousex v.mousex i;
  mousey = bytes16 m.mousey v.mousey i;
  relative_mouse_mode = m.relative_mouse_mode;
  padding = take_all 9 m.padding (omega (arith, v.padding)) i;
}

pub keyboard-IsSdlMsg :
    (pressed scancode key mod_ : ℕ) → IsSdlMsg (sdlmsg_keyboard pressed scancode key mod_)
unfolding sdlmsg_keyboard
keyboard-IsSdlMsg pressed scancode key mod_ = record {
  msgsize = omega arith;
  scancode = swap16_lt scancode;
  sdlkey = swap32_lt key;
  sdlmod = swap16_lt mod_;
  mousex = omega arith;
  mousey = omega arith;
  padding = refl;
}

pub mousekey-IsSdlMsg : (pressed button : ℕ) → IsSdlMsg (sdlmsg_mousekey pressed button)
unfolding sdlmsg_mousekey
mousekey-IsSdlMsg pressed button = record {
  msgsize = omega arith;
  scancode = omega arith;
  sdlkey = omega arith;
  sdlmod = omega arith;
  mousex = omega arith;
  mousey = omega arith;
  padding = refl;
}

pub mousewheel-IsSdlMsg : (x y : ℕ) → IsSdlMsg (sdlmsg_mousewheel x y)
unfolding sdlmsg_mousewheel
mousewheel-IsSdlMsg x y = record {
  msgsize = omega arith;
  scancode = omega arith;
  sdlkey = omega arith;
  sdlmod = omega arith;
  mousex = swap16_lt x;
  mousey = swap16_lt y;
  padding = refl;
}

pub mousemotion-IsSdlMsg : (x y relative : ℕ) → IsSdlMsg (sdlmsg_mousemotion x y relative)
unfolding sdlmsg_mousemotion
mousemotion-IsSdlMsg x y relative = record {
  msgsize = omega arith;
  scancode = omega arith;
  sdlkey = omega arith;
  sdlmod = omega arith;
  mousex = swap16_lt x;
  mousey = swap16_lt y;
  padding = refl;
}

-- Swapping a field that is not zero, and leaving a zero, is swapping it.
pub unless_zero-swap16 : (v : ℕ) → v < 65536 → unless_zero (swap16 v) (swap16 (swap16 v)) ≡ v
unless_zero-swap16 v h = ground (arith, swap16-swap16 v h)

pub unless_zero-swap32 : (v : ℕ) → v < 4294967296 → unless_zero (swap32 v) (swap32 (swap32 v)) ≡ v
unless_zero-swap32 v h = ground (arith, swap32-swap32 v h)
