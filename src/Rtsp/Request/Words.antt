-- ===== src/Rtsp/Request/Words.antt =====
-- The words of a request line, and the session header.
use gaminganywhere.Base.{
  ℕ, zero, suc, ◌-◌, ◌≤◌, ◌<◌, ◌≡◌, refl, ap, ◌∙◌, arith, [], ◌∷◌, ◌++◌, none, true, false, length,
  take,
}
use gaminganywhere.Conf.Parser.{is_space}
use gaminganywhere.Rtsp.Request.{
  Bytes, skip_spaces, word, get_word, request_line, ends_session, session_name, session_fix,
}

-- A word is not empty and has no space in it.
abbrev pub AllWord : Bytes → Type 0
AllWord [] = Unit
AllWord (c ∷ s) = (is_space c ≡ false) × AllWord s

word_lem :
    (w : Bytes) (c : ℕ) (rest : Bytes)
    → AllWord w
    → is_space c ≡ true
    → word (w ++ c ∷ rest) ≡ (w, c ∷ rest)
unfolding word
word_lem [] c rest a e = rw e refl
word_lem (d ∷ w) c rest a e = rw (a.0, word_lem w c rest a.1 e) refl

skip_spaces_lem : (a : ℕ) (s : Bytes) → is_space a ≡ false → skip_spaces (a ∷ s) ≡ a ∷ s
unfolding skip_spaces
skip_spaces_lem a s e = ground arith

skip_spaces-blank : (s : Bytes) → skip_spaces (32 ∷ s) ≡ skip_spaces s
unfolding skip_spaces
skip_spaces-blank s = refl

get_word_lem :
    (n a : ℕ) (w : Bytes) (c : ℕ) (rest : Bytes)
    → AllWord (a ∷ w)
    → is_space c ≡ true
    → get_word n ((a ∷ w) ++ c ∷ rest) ≡ (take (n - 1) (a ∷ w), c ∷ rest)
unfolding get_word
get_word_lem n a w c rest all e =
    rw (skip_spaces_lem a (w ++ c ∷ rest) all.0) (rw (word_lem (a ∷ w) c rest all e) refl)

get_word-blank : (n : ℕ) (s : Bytes) → get_word n (32 ∷ s) ≡ get_word n s
unfolding get_word
get_word-blank n s = rw (skip_spaces-blank s) refl

-- A request line of three words, each with no space in it, one blank between two and a line end behind
-- the last, gives the three words, cut at 31, 1023 and 31 bytes.
pub request_line-words :
    (a b c : ℕ) (cmd url protocol rest : Bytes)
    → AllWord (a ∷ cmd)
    → AllWord (b ∷ url)
    → AllWord (c ∷ protocol)
    → request_line ((a ∷ cmd) ++ 32 ∷ ((b ∷ url) ++ 32 ∷ ((c ∷ protocol) ++ 13 ∷ rest))) ≡ record {
      cmd = take 31 (a ∷ cmd);
      url = take 1023 (b ∷ url);
      protocol = take 31 (c ∷ protocol);
    }
unfolding request_line
request_line-words a b c cmd url protocol rest x y z =
    let behind : Bytes = (c ∷ protocol) ++ 13 ∷ rest in
    let e = get_word_lem 32 a cmd 32 ((b ∷ url) ++ 32 ∷ behind) x refl in
    let f =
      get_word-blank 1024 ((b ∷ url) ++ 32 ∷ behind) ∙ get_word_lem 1024 b url 32 behind y refl in
    let g = get_word-blank 32 behind ∙ get_word_lem 32 c protocol 13 rest z refl in
    rw e (rw f (rw g refl))

abbrev pub AllSession : Bytes → Type 0
AllSession [] = Unit
AllSession (c ∷ s) = (ends_session c ≡ false) × AllSession s

session_name-long :
    (n : ℕ) (s : Bytes) → AllSession s → n ≤ length s → length (session_name n s) ≡ n
unfolding session_name
session_name-long zero s a h = refl
session_name-long (suc n) [] a h = absurd (omega arith)
session_name-long (suc n) (c ∷ s) a h = rw a.0 (ap suc (session_name-long n s a.1 (omega arith)))

-- The fix of a session's name that has `size - 1` bytes or more, none of which ends it, writes its null
-- byte behind the array of `size` bytes.
pub session_fix-overruns :
    (size : ℕ) (session_id mysession : Bytes)
    → 0 < size
    → AllSession mysession
    → size - 1 ≤ length mysession
    → session_fix size session_id mysession ≡ none
unfolding session_fix
session_fix-overruns size session_id mysession pos all long =
    let n : length (session_name (size - 1) mysession) ≡ size - 1 =
      session_name-long (size - 1) mysession all long in
    ground arith
