-- ===== src/Rtsp/Request.antt =====
-- The reading of a request's text in ga/core/rtspserver.cpp: skip_spaces, get_word, the words of the
-- request line, and the fixes of the session header in `rtspserver`. A C string is the list of the
-- bytes in front of its null byte, and none of them is null.
pub mod Words
mod Tests
use gaminganywhere.Base.{
  ℕ, zero, suc, ◌+◌, ◌-◌, ◌≤◌, ltb, ◌==◌, if◌then◌else◌, ◌||◌, List, [], ◌∷◌, ◌++◌, Option, none,
  some, Bool, true, false, length, set, take, blit,
}
use gaminganywhere.Conf.Parser.{is_space}

abbrev pub Bytes : Type 0
Bytes = List ℕ

unfoldable pub skip_spaces : Bytes → Bytes
skip_spaces [] = []
skip_spaces (c ∷ s) = let rest = skip_spaces s in if (c == 32) || (c == 9) then rest else c ∷ s

-- The word, whole, and what is behind it.
unfoldable pub word : Bytes → Bytes × Bytes
word [] = ([], [])
word (c ∷ s) = let (w, rest) = word s in if is_space c then ([], c ∷ s) else (c ∷ w, rest)

-- The word as far as an array of `buf_size` bytes holds it with its null byte, and `*pp`.
unfoldable pub get_word : ℕ → Bytes → Bytes × Bytes
get_word buf_size p = let (w, rest) = word (skip_spaces p) in (take (buf_size - 1) w, rest)

pub record RequestLine : Type 0 where
  pub cmd : Bytes
  pub url : Bytes
  pub protocol : Bytes

unfoldable pub request_line : Bytes → RequestLine
request_line buf =
    let (cmd, p) = get_word 32 buf in
    let (url, q) = get_word 1024 p in
    let (protocol, r) = get_word 32 q in record { cmd = cmd; url = url; protocol = protocol }

-- A byte at which the session's name ends.
abbrev pub ends_session : ℕ → Bool
ends_session c = is_space c || (c == b';')

-- The bytes of `mysession` that the loop copies, at most `n`.
unfoldable pub session_name : ℕ → Bytes → Bytes
session_name zero s = []
session_name (suc n) [] = []
session_name (suc n) (c ∷ s) =
    let rest = session_name n s in if ends_session c then [] else c ∷ rest

-- The fix of an empty `header->session_id`, an array of `size` zero bytes: the null byte goes to the
-- index behind the one that ends the name; none where that is behind the array.
unfoldable pub session_fix : ℕ → Bytes → Bytes → Option Bytes
session_fix size session_id mysession =
    let name = session_name (size - 1) mysession in
    if ltb (length name + 1) size
    then some (set (blit session_id 0 name) (length name + 1) 0)
    else none

-- The session is cut at the first end of a line.
unfoldable pub session_cut : Bytes → Bytes
session_cut [] = []
session_cut (c ∷ s) = let rest = session_cut s in if (c == 13) || (c == 10) then [] else c ∷ rest
