-- ===== src/Client/Assembly/Frames.antt =====
-- The frames that a decoder gets.
use gaminganywhere.Base.{
  ◌+◌, ◌<◌, ◌≤◌, ◌≡◌, refl, sym, ap, ◌∙◌, arith, ltb, ◌==◌, if◌then◌else◌, Bool, true, false, List,
  [], ◌∷◌, ◌++◌, length, length-append, append_assoc, append_nil, Bool-cases, inl, inr,
}
use gaminganywhere.Client.Assembly.{
  Bytes, TimeVal, private_buffer_size, DecoderBuffer, Packet, other_pts, flush, add_packet,
  play_video, play_all, played_before,
}

-- A frame: its time stamp, its packets, and whether the last one bears the marker.
pub record Frame : Type 0 where
  pub pts : TimeVal
  pub front : List Bytes
  pub last : Bytes
  pub marked : Bool

abbrev pub packets_of : TimeVal → List Bytes → Bytes → Bool → List Packet
packets_of pts [] last marked = record { buffer = last; pts = pts; marker = marked } ∷ []
packets_of pts (b ∷ front) last marked =
    record { buffer = b; pts = pts; marker = false } ∷ packets_of pts front last marked

abbrev pub concat : List Bytes → Bytes → Bytes
concat [] last = last
concat (b ∷ front) last = b ++ concat front last

abbrev pub AllNonEmpty : List Bytes → Bytes → Type 0
AllNonEmpty [] last = 0 < length last
AllNonEmpty (b ∷ front) last = (0 < length b) × AllNonEmpty front last

pub record IsFrame (f : Frame) : Type 0 where
  pub bytes : AllNonEmpty f.front f.last
  pub fits : length (concat f.front f.last) ≤ private_buffer_size

-- What a packet that fits does behind bytes of its own frame.
abbrev joined : DecoderBuffer → Packet → List (Bytes × TimeVal) × DecoderBuffer
joined db p =
    if p.marker
    then ((db.privbuf ++ p.buffer, p.pts) ∷ [], record { privbuf = []; lastpts = p.pts })
    else ([], record { privbuf = db.privbuf ++ p.buffer; lastpts = p.pts })

module _ (db : DecoderBuffer) (p : Packet) (some_bytes : 0 < length p.buffer) where
  add_packet-joined :
      length db.privbuf + length p.buffer ≤ private_buffer_size → add_packet db p ≡ joined db p
  add_packet-joined fits =
      let full : ltb 0 (length (db.privbuf ++ p.buffer)) ≡ true =
        ground (arith, length-append db.privbuf p.buffer) in
      rw full (ground arith)

  play_video-same :
      other_pts p.pts db.lastpts ≡ false
      → length db.privbuf + length p.buffer ≤ private_buffer_size
      → play_video db p ≡ joined db p
  unfolding play_video
  play_video-same same fits =
      let busy : (length p.buffer == 0) ≡ false = ground arith in
      rw (busy, play_video) (rw same (add_packet-joined fits))

abbrev began : TimeVal → DecoderBuffer
began pts = record { privbuf = []; lastpts = pts }

-- The first packet of a frame plays what is held of the one before.
play_video-new :
    (db : DecoderBuffer) (p : Packet)
    → 0 < length p.buffer
    → other_pts p.pts db.lastpts ≡ true
    → length p.buffer ≤ private_buffer_size
    → play_video db p ≡ played_before (flush db) (joined (began p.pts) p)
unfolding play_video
play_video-new db p some_bytes new fits =
    let busy : (length p.buffer == 0) ≡ false = ground arith in
    rw (busy, play_video)
      (rw new (
        ap (played_before (flush db))
          (add_packet-joined (record db { privbuf = [] }) p some_bytes (omega arith))))

other_pts_refl : (pts : TimeVal) → other_pts pts pts ≡ false
other_pts_refl pts = ground arith

-- The packets of a frame, behind bytes of it that are held, all go to the buffer, and with a marker at
-- the end to the decoder.
rest_of_frame :
    (buf : Bytes) (pts : TimeVal) (front : List Bytes) (last : Bytes) (marked : Bool)
    → AllNonEmpty front last
    → length buf + length (concat front last) ≤ private_buffer_size
    → play_all (record { privbuf = buf; lastpts = pts }) (packets_of pts front last marked) ≡ (
      if marked then (buf ++ concat front last, pts) ∷ [] else [],
      record { privbuf = if marked then [] else buf ++ concat front last; lastpts = pts },
    )
unfolding play_all
rest_of_frame buf pts [] last marked some_bytes fits =
    rw
      (play_video-same (record { privbuf = buf; lastpts = pts })
        (record { buffer = last; pts = pts; marker = marked }) some_bytes (other_pts_refl pts) fits)
      (ground arith)
rest_of_frame buf pts (b ∷ front) last marked some_bytes fits =
    let total : length (b ++ concat front last) ≡ length b + length (concat front last) =
      length-append b (concat front last) in
    rw
      (play_video-same (record { privbuf = buf; lastpts = pts })
        (record { buffer = b; pts = pts; marker = false }) some_bytes.0 (other_pts_refl pts)
        (omega arith))
      (rw
        (rest_of_frame (buf ++ b) pts front last marked some_bytes.1
          (omega (arith, length-append buf b)))
        (rw (append_assoc buf b (concat front last)) refl))

-- Two buffers whose first call differs by what is played before go on alike.
play_all-before :
    (db start : DecoderBuffer) (p : Packet) (ps : List Packet) (xs : List (Bytes × TimeVal))
    → play_video db p ≡ played_before xs (play_video start p)
    → play_all db (p ∷ ps) ≡ played_before xs (play_all start (p ∷ ps))
unfolding play_all
play_all-before db start p ps xs e = rw e (
    ap (λ (l : List (Bytes × TimeVal)). (l, (play_all (play_video start p).1 ps).1))
      (append_assoc xs (play_video start p).0 (play_all (play_video start p).1 ps).0))

play_all-append :
    (db : DecoderBuffer) (ps qs : List Packet)
    → play_all db (ps ++ qs) ≡ played_before (play_all db ps).0 (play_all (play_all db ps).1 qs)
unfolding play_all
play_all-append db [] qs = refl
play_all-append db (p ∷ ps) qs =
    let d = (play_video db p).1 in
    rw (play_all-append d ps qs) (
      ap (λ (l : List (Bytes × TimeVal)). (l, (play_all (play_all d ps).1 qs).1))
        (sym
          (append_assoc (play_video db p).0 (play_all d ps).0 (play_all (play_all d ps).1 qs).0)))

abbrev pub packets : Frame → List Packet
packets f = packets_of f.pts f.front f.last f.marked

abbrev pub bytes_of : Frame → Bytes
bytes_of f = concat f.front f.last

-- A frame behind another one.
play_all-frame :
    (db : DecoderBuffer) (f : Frame)
    → IsFrame f
    → other_pts f.pts db.lastpts ≡ true
    → play_all db (packets f)
      ≡ played_before (flush db) (
        if f.marked then (bytes_of f, f.pts) ∷ [] else [],
        record { privbuf = if f.marked then [] else bytes_of f; lastpts = f.pts },
      )
play_all-frame db f v new = start f.front v.bytes v.fits
  where
    start :
        (front : List Bytes)
        → AllNonEmpty front f.last
        → length (concat front f.last) ≤ private_buffer_size
        → play_all db (packets_of f.pts front f.last f.marked)
          ≡ played_before (flush db) (
            if f.marked then (concat front f.last, f.pts) ∷ [] else [],
            record { privbuf = if f.marked then [] else concat front f.last; lastpts = f.pts },
          )
    start [] some_bytes fits =
        let p : Packet = record { buffer = f.last; pts = f.pts; marker = f.marked } in
        play_all-before db (began f.pts) p [] (flush db) (
          play_video-new db p some_bytes new fits
          ∙ ap (played_before (flush db)) (
              sym
                (play_video-same (began f.pts) p some_bytes (other_pts_refl f.pts) (omega arith))))
        ∙ ap (played_before (flush db))
            (rest_of_frame [] f.pts [] f.last f.marked some_bytes (omega arith))
    start (b ∷ front) some_bytes fits =
        let p : Packet = record { buffer = b; pts = f.pts; marker = false } in
        let small : length b ≤ private_buffer_size =
          omega (arith, length-append b (concat front f.last)) in
        play_all-before db (began f.pts) p (packets_of f.pts front f.last f.marked) (flush db) (
          play_video-new db p some_bytes.0 new small
          ∙ ap (played_before (flush db)) (
              sym (
                play_video-same (began f.pts) p some_bytes.0 (other_pts_refl f.pts) (omega arith))))
        ∙ ap (played_before (flush db))
            (rest_of_frame [] f.pts (b ∷ front) f.last f.marked some_bytes (omega arith))

abbrev pub all_packets : List Frame → List Packet
all_packets [] = []
all_packets (f ∷ fs) = packets f ++ all_packets fs

-- Each frame has another time stamp than the one before it.
abbrev pub AllFrames : TimeVal → List Frame → Type 0
AllFrames pts [] = Unit
AllFrames pts (f ∷ fs) = (other_pts f.pts pts ≡ true) × IsFrame f × AllFrames f.pts fs

abbrev pub played : List Frame → List (Bytes × TimeVal)
played [] = []
played (f ∷ fs) = (bytes_of f, f.pts) ∷ played fs

bytes_of-pos : (f : Frame) → IsFrame f → 0 < length (bytes_of f)
bytes_of-pos f v = some_bytes f.front v.bytes
  where
    some_bytes : (front : List Bytes) → AllNonEmpty front f.last → 0 < length (concat front f.last)
    some_bytes [] h = h
    some_bytes (b ∷ front) h = omega (arith, h.0, length-append b (concat front f.last))

-- What is held of a frame and what was played of it are the frame.
flush-frame :
    (f : Frame)
    → IsFrame f
    → (if f.marked then (bytes_of f, f.pts) ∷ [] else [])
        ++ flush (record { privbuf = if f.marked then [] else bytes_of f; lastpts = f.pts })
      ≡ (bytes_of f, f.pts) ∷ []
flush-frame f v = elim (Bool-cases f.marked) [
  | inl marked ↦ rw marked refl
  | inr unmarked ↦
      let held : ltb 0 (length (bytes_of f)) ≡ true = ground (arith, bytes_of-pos f v) in
      rw unmarked (rw held refl)
]

-- The frames that play_video hands to the decoder, with the one that its buffer still holds, are the
-- frame held before and then each frame whole, with its time stamp, in order: whether a frame ends with
-- a marker or its marker was lost, as long as each frame has another time stamp than the one before,
-- has no empty packet, and fits the buffer.
pub play_all-frames :
    (db : DecoderBuffer) (fs : List Frame)
    → AllFrames db.lastpts fs
    → (play_all db (all_packets fs)).0 ++ flush (play_all db (all_packets fs)).1
      ≡ flush db ++ played fs
unfolding play_all
play_all-frames db [] all = sym (append_nil (flush db))
play_all-frames db (f ∷ fs) all =
    let d : DecoderBuffer = record {
      privbuf = if f.marked then [] else bytes_of f;
      lastpts = f.pts;
    } in
    let now : List (Bytes × TimeVal) = if f.marked then (bytes_of f, f.pts) ∷ [] else [] in
    let rest = play_all d (all_packets fs) in
    let e : play_all db (all_packets (f ∷ fs)) ≡ ((flush db ++ now) ++ rest.0, rest.1) =
      play_all-append db (packets f) (all_packets fs)
      ∙ ap
          (λ (r : List (Bytes × TimeVal) × DecoderBuffer).
            played_before r.0 (play_all r.1 (all_packets fs)))
          (play_all-frame db f all.1 all.0) in
    ap (λ (r : List (Bytes × TimeVal) × DecoderBuffer). r.0 ++ flush r.1) e
    ∙ append_assoc (flush db ++ now) rest.0 (flush rest.1)
    ∙ ap (◌++◌ (flush db ++ now)) (play_all-frames d fs all.2)
    ∙ append_assoc (flush db) now (flush d ++ played fs)
    ∙ ap (◌++◌ (flush db)) (
        sym (append_assoc now (flush d) (played fs))
        ∙ ap (λ l. l ++ played fs) (flush-frame f all.1))
