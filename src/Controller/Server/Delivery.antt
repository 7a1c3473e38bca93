-- ===== src/Controller/Server/Delivery.antt =====
-- What `ctrl_server_thread` delivers of a stream of messages, however `recv` cuts it.
use mathlib.Core.Path.{subst}
use gaminganywhere.Base.{
  ℕ, zero, suc, ◌+◌, ◌-◌, ◌<◌, ◌≤◌, ◌≡◌, sym, ap, ◌∙◌, arith, List, [], ◌∷◌, ◌++◌, length, slice,
  blit, length-append, append_nil, dec_lt,
}
use gaminganywhere.Controller.Server.{Bytes, Receiver, reading, size_at, deliver, tcp_again}
use gaminganywhere.Controller.Server.Frames.{
  IsMessage, AllMessages, concat, Holds, IsPart, size_at-append, size_at-Holds, whole_bytes,
  rest-Holds, blit-take,
}

abbrev pub idle : Receiver → Receiver
idle s = record s { bufhead = 0; buflen = 0 }

-- One round on a buffer that starts with a message and holds more.
pub again-first :
    (fuel : ℕ) {s : Receiver} (m r : Bytes)
    → IsMessage m
    → Holds s (m ++ r)
    → 0 < length r
    → tcp_again (suc fuel) s
      ≡ deliver m (
          tcp_again fuel
            (record s { bufhead = s.bufhead + length m; buflen = s.buflen - length m }))
unfolding tcp_again
again-first fuel {s} m r im h more =
    let size : size_at s.buf s.bufhead ≡ length m =
      size_at-Holds h (omega (arith, length-append m r, im.header))
      ∙ size_at-append m r im.header
      ∙ im.size in
    let header : 2 ≤ length m = im.header in
    let inside : s.bufhead + s.buflen ≤ 8192 = h.inside in
    let count : s.buflen ≡ length m + length r = h.count ∙ length-append m r in
    rw (size, whole_bytes m r h) (ground arith)

-- The last round, on a buffer that holds one message.
pub again-last :
    (fuel : ℕ) {s : Receiver} (m : Bytes)
    → IsMessage m
    → Holds s m
    → tcp_again (suc fuel) s ≡ (m ∷ [], reading (idle s))
unfolding tcp_again
again-last fuel {s} m im h =
    let size : size_at s.buf s.bufhead ≡ length m = size_at-Holds h im.header ∙ im.size in
    let header : 2 ≤ length m = im.header in
    let inside : s.bufhead + s.buflen ≤ 8192 = h.inside in
    let count : s.buflen ≡ length m = h.count in
    let bytes : slice s.bufhead (length m) s.buf ≡ m =
      ap (λ n. slice s.bufhead n s.buf) (sym count) ∙ h.bytes in
    rw (size, bytes) (ground arith)

-- Of fewer than two bytes nothing is done, wherever they stand.
pub again-short :
    (fuel : ℕ) {s : Receiver} (p : Bytes)
    → Holds s p
    → length p < 2
    → tcp_again (suc fuel) s ≡ ([], reading s)
unfolding tcp_again
again-short fuel p h short = ground (arith, h.count)

-- A part of a message is copied to the start of the buffer; `bufhead` stays.
pub again-moved :
    (fuel : ℕ) {s : Receiver} (p : Bytes)
    → Holds s p
    → 2 ≤ length p
    → length p < size_at p 0
    → tcp_again (suc fuel) s ≡ ([], reading (record s { buf = blit s.buf 0 p }))
unfolding tcp_again
again-moved fuel {s} p h two more =
    let inside : s.bufhead + s.buflen ≤ 8192 = h.inside in
    rw (size_at-Holds h two, h.bytes) (ground (arith, h.count))

-- A part of a message at the start of the buffer is kept as it is.
pub again-part :
    (fuel : ℕ) {s : Receiver} (p : Bytes)
    → IsPart p
    → Holds s p
    → s.bufhead ≡ 0
    → tcp_again (suc fuel) s ≡ ([], reading s)
again-part fuel {s} p ip h front = elim (dec_lt (length p) 2) [
  | yes short ↦ again-short fuel p h short
  | no long ↦
      let two : 2 ≤ length p = omega arith in
      again-moved fuel p h two (ip.more two)
      ∙ ap (λ (b : Bytes). ([], reading (record s { buf = b }))) same
]
  where
    same : blit s.buf 0 p ≡ s.buf
    same =
        ap (blit s.buf 0) (sym h.bytes ∙ ap (λ o. slice o s.buflen s.buf) front)
        ∙ blit-take s.buf s.buflen

-- A buffer of whole messages is delivered, and is empty then.
pub again-messages :
    (fuel : ℕ) (s : Receiver) (m : Bytes) (ms : List Bytes)
    → AllMessages (m ∷ ms)
    → Holds s (concat (m ∷ ms))
    → s.buflen ≤ fuel
    → tcp_again fuel s ≡ (m ∷ ms, reading (idle s))
again-messages zero s m ms all h enough =
    absurd (omega (arith, h.count, all.0.header, length-append m (concat ms)))
again-messages (suc fuel) s m [] all h enough =
    again-last fuel m all.0 (subst (Holds s) (append_nil m) h)
again-messages (suc fuel) s m (n ∷ ms) all h enough =
    again-first fuel m (concat (n ∷ ms)) all.0 h
      (omega (arith, all.1.0.header, length-append n (concat ms)))
    ∙ ap (deliver m) (
        again-messages fuel
          (record s { bufhead = s.bufhead + length m; buflen = s.buflen - length m }) n ms all.1
          (rest-Holds m (concat (n ∷ ms)) h) (omega (arith, all.0.header)))
