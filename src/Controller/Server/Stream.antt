-- ===== src/Controller/Server/Stream.antt =====
-- `ctrl_server_thread` over a connection: what `recv` returns, and the messages that come of it.
use gaminganywhere.Base.{
  ℕ, suc, ◌+◌, ◌-◌, ◌<◌, ◌≤◌, ◌≡◌, refl, sym, ap, ◌∙◌, arith, List, [], ◌∷◌, ◌++◌, length, take,
  slice, blit, length-append, append_assoc, take_all, slice-blit_self,
}
use mathlib.Core.Path.{subst}
use gaminganywhere.Controller.Server.{
  Bytes, buf_size, Receiver, reading, size_at, deliver, tcp_again, tcp_recv, tcp_serve,
}
use gaminganywhere.Controller.Server.Frames.{
  IsMessage, AllMessages, concat, Holds, IsPart, received-Holds, rest-Holds,
}
use gaminganywhere.Controller.Server.Delivery.{
  idle, again-first, again-moved, again-part, again-messages,
}

-- A receiver at `recv` with the bytes `p`.
pub record Waits (s : Receiver) (p : Bytes) : Type 0 where
  pub holds : Holds s p
  pub front : s.bufhead ≡ 0

-- The receiver once the bytes of `recv` stand in its buffer.
abbrev pub received : Receiver → Bytes → Receiver
received s chunk = record s { buf = blit s.buf s.buflen chunk; buflen = s.buflen + length chunk }

idle-Waits : {s : Receiver} {p : Bytes} → Holds s p → Waits (idle s) []
idle-Waits h = record {
  holds = record { memory = h.memory; inside = omega arith; count = refl; bytes = refl };
  front = refl;
}

module _ {s : Receiver} (p c : Bytes) (w : Waits s p) (some_bytes : 0 < length c)
    (room : length p + length c ≤ buf_size) where
  pub recv_lem : tcp_recv s c ≡ tcp_again (s.buflen + length c) (received s c)
  unfolding tcp_recv
  recv_lem =
      let whole : take (buf_size - s.buflen) c ≡ c =
        take_all (buf_size - s.buflen) c (omega (arith, w.holds.count)) in
      rw whole (ground arith)

  pub gained : Holds (received s c) (p ++ c)
  gained = received-Holds p c w.holds w.front room

  -- A chunk that leaves a part of a message delivers nothing.
  pub recv-part :
      IsPart (p ++ c)
      → (tcp_recv s c ≡ ([], reading (received s c))) × Waits (received s c) (p ++ c)
  recv-part ip =
      let more : s.buflen + length c ≡ suc (s.buflen + length c - 1) = omega arith in
      (
        recv_lem
            ∙ ap (λ f. tcp_again f (received s c)) more
            ∙ again-part (s.buflen + length c - 1) (p ++ c) ip gained w.front,
        record { holds = gained; front = w.front },
      )

  -- A chunk that ends with a message delivers all that is there.
  pub recv-messages :
      (m : Bytes) (ms : List Bytes)
      → AllMessages (m ∷ ms)
      → p ++ c ≡ concat (m ∷ ms)
      → (tcp_recv s c ≡ (m ∷ ms, reading (idle (received s c)))) × Waits (idle (received s c)) []
  recv-messages m ms all e = (
    recv_lem
        ∙ again-messages (s.buflen + length c) (received s c) m ms all
            (subst (Holds (received s c)) e gained) (omega arith),
    idle-Waits gained,
  )

-- The chunks end where a message does, or inside the only message that is not yet whole: from the
-- bytes `p` on they make the messages `ms`.
pub data Cuts : Bytes → List Bytes → List Bytes → Type 0 where
  done : Cuts [] [] []
  part :
      (p c : Bytes) (cs ms : List Bytes)
      → 0 < length c
      → IsPart (p ++ c)
      → Cuts (p ++ c) cs ms
      → Cuts p (c ∷ cs) ms
  whole :
      (p c : Bytes) (cs : List Bytes) (m : Bytes) (ms ns all : List Bytes)
      → 0 < length c
      → length p + length c ≤ buf_size
      → AllMessages (m ∷ ms)
      → p ++ c ≡ concat (m ∷ ms)
      → Cuts [] cs ns
      → all ≡ (m ∷ ms) ++ ns
      → Cuts p (c ∷ cs) all

concat-append : (ms ns : List Bytes) → concat (ms ++ ns) ≡ concat ms ++ concat ns
concat-append [] ns = refl
concat-append (m ∷ ms) ns =
    ap (◌++◌ m) (concat-append ms ns) ∙ sym (append_assoc m (concat ms) (concat ns))

-- Such chunks are the bytes of the messages.
pub Cuts-concat : (p : Bytes) (cs ms : List Bytes) → Cuts p cs ms → p ++ concat cs ≡ concat ms
Cuts-concat p cs ms done = refl
Cuts-concat p (c ∷ cs) ms (part _ _ _ _ _ _ rest) =
    sym (append_assoc p c (concat cs)) ∙ Cuts-concat (p ++ c) cs ms rest
Cuts-concat p (c ∷ cs) all (whole _ _ _ m ms ns _ _ _ _ e rest split) =
    sym (append_assoc p c (concat cs))
    ∙ ap (λ b. b ++ concat cs) e
    ∙ ap (◌++◌ (concat (m ∷ ms))) (Cuts-concat [] cs ns rest)
    ∙ sym (concat-append (m ∷ ms) ns)
    ∙ ap concat (sym split)

-- Where `recv` cuts the bytes of the messages `ms` so, the thread hands over exactly `ms`, in order,
-- and then waits for the next message with an empty buffer.
pub serve-Cuts :
    (s : Receiver) (p : Bytes) (cs ms : List Bytes)
    → Waits s p
    → Cuts p cs ms
    → (t : Receiver) × (tcp_serve (reading s) cs ≡ (ms, reading t)) × Waits t []
unfolding tcp_serve
serve-Cuts s p [] ms w done = (s, refl, w)
serve-Cuts s p (c ∷ cs) ms w (part _ _ _ _ some_bytes ip rest) =
    let room : length p + length c ≤ buf_size = omega (arith, ip.fits, length-append p c) in
    let r = recv-part p c w some_bytes room ip in
    let ih = serve-Cuts (received s c) (p ++ c) cs ms r.1 rest in (ih.0, rw (r.0, ih.1) refl, ih.2)
serve-Cuts s p (c ∷ cs) all w (whole _ _ _ m ms ns _ some_bytes room am e rest split) =
    let r = recv-messages p c w some_bytes room m ms am e in
    let ih = serve-Cuts (idle (received s c)) [] cs ns r.1 rest in
    (ih.0, rw (r.0, ih.1, split) refl, ih.2)

-- A chunk with a message and two bytes or more of the next, but not all of it: the message is handed
-- over and the rest is copied to the start of the buffer, while `bufhead` stays behind the message.
-- So the next size is not read where the rest stands.
pub recv_straddles :
    (s : Receiver) (m p : Bytes)
    → Waits s []
    → IsMessage m
    → 2 ≤ length p
    → length p < size_at p 0
    → length m + length p ≤ buf_size
    → (t : Receiver) × (tcp_recv s (m ++ p) ≡ (m ∷ [], reading t))
      × (t.bufhead ≡ length m)
      × (t.buflen ≡ length p)
      × (slice 0 (length p) t.buf ≡ p)
recv_straddles s m p w im two more room =
    let some_bytes : 0 < length (m ++ p) = omega (arith, length-append m p) in
    let fits : length {A = ℕ} [] + length (m ++ p) ≤ buf_size = omega (arith, length-append m p) in
    let g = gained [] (m ++ p) w some_bytes fits in
    let r = received s (m ++ p) in
    let next = record r { bufhead = r.bufhead + length m; buflen = r.buflen - length m } in
    let fuel : s.buflen + length (m ++ p) ≡ suc (suc (s.buflen + length (m ++ p) - 2)) =
      omega (arith, length-append m p) in
    let n = s.buflen + length (m ++ p) - 2 in
    let h = rest-Holds m p g in
    (
      record next { buf = blit next.buf 0 p },
      recv_lem [] (m ++ p) w some_bytes fits
          ∙ ap (λ f. tcp_again f r) fuel
          ∙ again-first (suc n) m p im g (omega arith)
          ∙ ap (deliver m) (again-moved n p h two more),
      omega (arith, w.front),
      omega (arith, w.holds.count, length-append m p),
      slice-blit_self next.buf 0 p (omega (arith, h.memory)),
    )
