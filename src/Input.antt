-- ===== src/Input.antt =====
-- Input messages: `struct sdlmsg` of ga/client/ctrl-sdl.h, and the builders and sdlmsg_ntoh of
-- ga/client/ctrl-sdl.cpp, which ga/module/ctrl-sdl/ctrl-sdl.cpp copies. The layout and code are those
-- for SDL 2 on a little-endian host with XTest: a field is its value on the host.
pub mod Layout
pub mod Replay
pub mod Events
pub mod Session
mod Tests
use gaminganywhere.Base.{
  ℕ, ◌+◌, ◌*◌, ◌/◌, ◌%◌, ◌==◌, if◌then◌else◌, List, [], ◌∷◌, ◌++◌, get_or, replicate, slice,
}

abbrev pub Bytes : Type 0
Bytes = List ℕ

-- `htons` and `ntohs`, of the low 16 bits
abbrev pub swap16 : ℕ → ℕ
swap16 v = v % 256 * 256 + v / 256 % 256

-- `htonl` and `ntohl`
abbrev pub swap32 : ℕ → ℕ
swap32 v = v % 256 * 16777216 + v / 256 % 256 * 65536 + v / 65536 % 256 * 256 + v / 16777216 % 256

pub record SdlMsg : Type 0 where
  pub msgsize : ℕ
  pub msgtype : ℕ
  pub is_pressed : ℕ
  pub mousebutton : ℕ
  pub unused1 : ℕ
  pub scancode : ℕ
  pub sdlkey : ℕ
  pub sdlmod : ℕ
  pub mousex : ℕ
  pub mousey : ℕ
  pub relative_mouse_mode : ℕ
  pub padding : Bytes

-- `sizeof(struct sdlmsg)`
abbrev pub sizeof_sdlmsg : ℕ
sizeof_sdlmsg = 28

-- `SDL_EVENT_MSGTYPE_*`
abbrev pub keyboard_type : ℕ
keyboard_type = 1

abbrev pub mousekey_type : ℕ
mousekey_type = 2

abbrev pub mousemotion_type : ℕ
mousemotion_type = 3

abbrev pub mousewheel_type : ℕ
mousewheel_type = 4

-- The message after `bzero`, with its size and type.
abbrev pub blank : ℕ → SdlMsg
blank t = record {
  msgsize = swap16 sizeof_sdlmsg;
  msgtype = t;
  is_pressed = 0;
  mousebutton = 0;
  unused1 = 0;
  scancode = 0;
  sdlkey = 0;
  sdlmod = 0;
  mousex = 0;
  mousey = 0;
  relative_mouse_mode = 0;
  padding = replicate 9 0;
}

unfoldable pub sdlmsg_keyboard : ℕ → ℕ → ℕ → ℕ → SdlMsg
sdlmsg_keyboard pressed scancode key mod_ = record (blank keyboard_type) {
  is_pressed = pressed;
  scancode = swap16 scancode;
  sdlkey = swap32 key;
  sdlmod = swap16 mod_;
}

unfoldable pub sdlmsg_mousekey : ℕ → ℕ → SdlMsg
sdlmsg_mousekey pressed button = record (blank mousekey_type) {
  is_pressed = pressed;
  mousebutton = button;
}

unfoldable pub sdlmsg_mousewheel : ℕ → ℕ → SdlMsg
sdlmsg_mousewheel x y = record (blank mousewheel_type) { mousex = swap16 x; mousey = swap16 y }

unfoldable pub sdlmsg_mousemotion : ℕ → ℕ → ℕ → SdlMsg
sdlmsg_mousemotion x y relative = record (blank mousemotion_type) {
  mousex = swap16 x;
  mousey = swap16 y;
  relative_mouse_mode = if relative == 0 then 0 else 1;
}

abbrev pub unless_zero : ℕ → ℕ → ℕ
unless_zero v w = if v == 0 then v else w

-- The scan code is taken from the low half of `sdlkey`, as the code has it.
unfoldable pub sdlmsg_ntoh : SdlMsg → SdlMsg
sdlmsg_ntoh m = record m {
  scancode = unless_zero m.scancode (swap16 m.sdlkey);
  sdlkey = unless_zero m.sdlkey (swap32 m.sdlkey);
  sdlmod = unless_zero m.sdlmod (swap16 m.sdlmod);
  mousex = unless_zero m.mousex (swap16 m.mousex);
  mousey = unless_zero m.mousey (swap16 m.mousey);
}

-- A value in two or four bytes, the low one first.
abbrev pub le16 : ℕ → Bytes → Bytes
le16 v rest = v % 256 ∷ v / 256 % 256 ∷ rest

abbrev pub le32 : ℕ → Bytes → Bytes
le32 v rest = v % 256 ∷ v / 256 % 256 ∷ v / 65536 % 256 ∷ v / 16777216 % 256 ∷ rest

-- The memory of the struct.
unfoldable pub to_bytes : SdlMsg → Bytes
to_bytes m = le16 m.msgsize (
    m.msgtype
    ∷ m.is_pressed
    ∷ m.mousebutton
    ∷ m.unused1
    ∷ le16 m.scancode (
        le32 m.sdlkey
          (le16 m.sdlmod (le16 m.mousex (le16 m.mousey (m.relative_mouse_mode ∷ m.padding))))))

abbrev pub at16 : Bytes → ℕ → ℕ
at16 b o = get_or b o 0 + 256 * get_or b (o + 1) 0

-- `(struct sdlmsg*) msg`
unfoldable pub of_bytes : Bytes → SdlMsg
of_bytes b = record {
  msgsize = at16 b 0;
  msgtype = get_or b 2 0;
  is_pressed = get_or b 3 0;
  mousebutton = get_or b 4 0;
  unused1 = get_or b 5 0;
  scancode = at16 b 6;
  sdlkey = at16 b 8 + 65536 * at16 b 10;
  sdlmod = at16 b 12;
  mousex = at16 b 14;
  mousey = at16 b 16;
  relative_mouse_mode = get_or b 18 0;
  padding = slice 19 9 b;
}
