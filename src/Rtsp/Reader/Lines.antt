-- ===== src/Rtsp/Reader/Lines.antt =====
-- rtsp_read_text gives the next line of the stream, however `read` cuts it.
use gaminganywhere.Base.{
  ℕ, zero, suc, ◌+◌, ◌-◌, ◌<◌, ◌≡◌, refl, sym, ap, ◌∙◌, arith, ltb, ◌==◌, [], ◌∷◌, ◌++◌, none, some,
  true, false, length, length-append, append_assoc, dec_lt,
}
use mathlib.Core.Path.{subst}
use gaminganywhere.Rtsp.Reader.{
  Bytes, Conn, read_internal, index, message, held, consume, compact, read_text,
}
use gaminganywhere.Rtsp.Reader.Stream.{
  IsConn, stream, length-held, Reliable, more_lem, taken, consume-Consumed, append-split, Left,
  Consumed-Left, Gained-Left,
}

-- No line feed in the text.
abbrev pub AllLine : Bytes → Type 0
AllLine [] = Unit
AllLine (c ∷ s) = ((c == 10) ≡ false) × AllLine s

AllLine-front : (s t : Bytes) → AllLine (s ++ t) → AllLine s
AllLine-front [] t a = tt
AllLine-front (c ∷ s) t a = (a.0, AllLine-front s t a.1)

index-none : (s : Bytes) → AllLine s → index 10 s ≡ none
unfolding index
index-none [] a = refl
index-none (c ∷ s) a = rw (a.0, index-none s a.1) refl

index-found : (s t : Bytes) → AllLine s → index 10 (s ++ 10 ∷ t) ≡ some (length s)
unfolding index
index-found [] t a = refl
index-found (c ∷ s) t a = rw (a.0, index-found s t a.1) refl

abbrev pub line_of : Bytes → Bytes
line_of line = line ++ 10 ∷ []

pub length-line : (line : Bytes) → length (line_of line) ≡ length line + 1
length-line line = length-append line (10 ∷ []) ∙ omega arith

-- A line that is held is given.
text-held :
    (sizes : ℕ → ℕ) (fuel count : ℕ) (c : Conn) (line r : Bytes)
    → IsConn c
    → AllLine line
    → length line + 1 < count
    → held c ≡ line_of line ++ r
    → read_text sizes (suc fuel) count c
      ≡ (message (line_of line), consume (length (line_of line)) c)
unfolding read_text
text-held sizes fuel count c line r v all fits e =
    let found : index 10 (held c) ≡ some (length line) =
      ap (index 10) (e ∙ append_assoc line (10 ∷ []) r) ∙ index-found line r all in
    let n : length line + 1 ≡ length (line_of line) = sym (length-line line) in
    let fit : ltb (count - 1) (length (line_of line)) ≡ false = ground arith in
    rw (found, read_text) (rw n (rw (fit, taken c (line_of line) r v e) refl))

-- A line that is not yet held makes the code read more.
text-more :
    (sizes : ℕ → ℕ) (fuel count : ℕ) (c d : Conn)
    → AllLine (held c)
    → IsConn c
    → length (held c) < c.rbufsize
    → read_internal sizes (compact c) ≡ (true, d)
    → read_text sizes (suc fuel) count c ≡ read_text sizes fuel count d
unfolding read_text
text-more sizes fuel count c d all v room e =
    let nothing : index 10 (held c) ≡ none = index-none (held c) all in
    let free : (c.rbuftail - c.rbufhead == c.rbufsize) ≡ false = ground (arith, length-held c v) in
    rw (nothing, read_text) (rw (free, e) refl)

-- Whatever part of the line the buffer holds, and however `read` cuts the rest, rtsp_read_text gives
-- the line with its line feed and leaves the stream behind it, with fuel for the pending bytes.
pub read_text-line :
    (sizes : ℕ → ℕ) (fuel count : ℕ) (c : Conn) (line rest : Bytes)
    → Reliable sizes
    → IsConn c
    → AllLine line
    → length line + 1 < count
    → length line < c.rbufsize
    → stream c ≡ line_of line ++ rest
    → length c.pending < fuel
    → (d : Conn) × (read_text sizes fuel count c ≡ (message (line_of line), d)) × Left c d rest
read_text-line sizes zero count c line rest ok v all fits room e enough = absurd (omega arith)
read_text-line sizes (suc fuel) count c line rest ok v all fits room e enough =
    elim (dec_lt (length line) (length (held c))) [
      | yes here ↦
          let s =
            append-split (held c) c.pending (line_of line) rest e
              (omega (arith, length-line line)) in
          (
            consume (length (line_of line)) c,
            text-held sizes fuel count c line s.0 v all fits s.1,
            Consumed-Left rest (consume-Consumed c (line_of line) s.0 v s.1) s.2,
          )
      | no not_yet ↦
          let s =
            append-split line (10 ∷ rest) (held c) c.pending
              (sym (append_assoc line (10 ∷ []) rest) ∙ sym e) (omega arith) in
          let some_left : 0 < length c.pending =
            omega (arith, ap length s.2, length-append s.0 (10 ∷ rest)) in
          let m = more_lem sizes c ok v (omega arith) some_left in
          let ih =
            read_text-line sizes fuel count m.0 line rest ok m.2.conn all fits
              (omega (arith, m.2.size)) (m.2.same ∙ e) (omega (arith, m.2.less)) in
          (
            ih.0,
            text-more sizes fuel count c m.0 (AllLine-front (held c) s.0 (subst AllLine s.1 all)) v
                  (omega arith) m.1
                ∙ ih.1,
            Gained-Left rest m.2 ih.2,
          )
    ]
