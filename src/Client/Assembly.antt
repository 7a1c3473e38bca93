-- ===== src/Client/Assembly.antt =====
-- play_video of ga/client/rtspclient.cpp: the packets of one frame, which have one time stamp, are put
-- together in a buffer for the decoder. The buffer is the list of its `privbuflen` bytes; a time stamp
-- is its seconds and microseconds. `malloc` of the buffer at the first call succeeds, as the program
-- ends otherwise. What goes to `play_video_priv` is a list.
pub mod Frames
use gaminganywhere.Base.{
  ℕ, ◌+◌, ltb, leb, ◌==◌, if◌then◌else◌, ◌&&◌, ◌||◌, not, Bool, true, false, List, [], ◌∷◌, ◌++◌,
  length,
}

abbrev pub Bytes : Type 0
Bytes = List ℕ

-- `struct timeval`
pub record TimeVal : Type 0 where
  pub tv_sec : ℕ
  pub tv_usec : ℕ

-- PRIVATE_BUFFER_SIZE
abbrev pub private_buffer_size : ℕ
private_buffer_size = 1048576

-- `struct decoder_buffer`
pub record DecoderBuffer : Type 0 where
  pub privbuf : Bytes
  pub lastpts : TimeVal

pub record Packet : Type 0 where
  pub buffer : Bytes
  pub pts : TimeVal
  pub marker : Bool

abbrev pub other_pts : TimeVal → TimeVal → Bool
other_pts a b = not (a.tv_sec == b.tv_sec) || not (a.tv_usec == b.tv_usec)

-- What is handed to `play_video_priv` where the buffer is not empty.
abbrev pub flush : DecoderBuffer → List (Bytes × TimeVal)
flush db = if ltb 0 (length db.privbuf) then (db.privbuf, db.lastpts) ∷ [] else []

-- A new time stamp plays what is in the buffer, and empties it.
abbrev pub begin_frame : DecoderBuffer → TimeVal → List (Bytes × TimeVal) × DecoderBuffer
begin_frame db pts =
    if other_pts pts db.lastpts then (flush db, record db { privbuf = [] }) else ([], db)

-- The packet goes into the buffer, or is dropped with what the buffer holds played.
abbrev pub add_packet : DecoderBuffer → Packet → List (Bytes × TimeVal) × DecoderBuffer
add_packet db p =
    if leb (length db.privbuf + length p.buffer) private_buffer_size
    then (let next = record db { privbuf = db.privbuf ++ p.buffer; lastpts = p.pts } in
        if p.marker && ltb 0 (length next.privbuf)
        then ((next.privbuf, next.lastpts) ∷ [], record next { privbuf = [] })
        else ([], next))
    else ((db.privbuf, db.lastpts) ∷ [], record db { privbuf = [] })

abbrev pub played_before :
    List (Bytes × TimeVal)
    → List (Bytes × TimeVal) × DecoderBuffer
    → List (Bytes × TimeVal) × DecoderBuffer
played_before xs (ys, db) = (xs ++ ys, db)

unfoldable pub play_video : DecoderBuffer → Packet → List (Bytes × TimeVal) × DecoderBuffer
play_video db p =
    if length p.buffer == 0
    then ([], db)
    else (let (xs, next) = begin_frame db p.pts in
        let (ys, last) = add_packet next p in (xs ++ ys, last))

-- The calls for the packets as they come.
unfoldable pub play_all : DecoderBuffer → List Packet → List (Bytes × TimeVal) × DecoderBuffer
play_all db [] = ([], db)
play_all db (p ∷ ps) = let (xs, next) = play_video db p in played_before xs (play_all next ps)
