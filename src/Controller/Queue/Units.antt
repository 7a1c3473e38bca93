-- ===== src/Controller/Queue/Units.antt =====
-- The bytes of one unit: what a write leaves in its own unit, and that it touches no other.
use gaminganywhere.Base.{
  ℕ, zero, suc, ◌+◌, ◌*◌, ◌≤◌, ◌<◌, ◌≡◌, ◌≢◌, refl, sym, ap, ◌∙◌, List, ◌∷◌, arith, inl, inr,
  length, get_or, slice, blit, get_or-slice, slice-blit_self, slice-blit_before, slice-blit_after,
  length-blit,
}
use gaminganywhere.Controller.Queue.{
  MsgQueue, msgsize_at, msg_at, size_bytes, msg_offset, sizeof_queuemsg,
}
use gaminganywhere.Controller.Queue.Layout.{messages, Fits, Misses, after, unit_disjoint}

-- the buffer after a write to unit `w`
abbrev pub written : MsgQueue → ℕ → List ℕ → List ℕ
written q w msg =
    blit (blit q.qbuffer (w * q.qunit) (size_bytes (length msg))) (w * q.qunit + msg_offset) msg

msgsize-slice :
    (buf : List ℕ) (pos : ℕ)
    → msgsize_at buf pos ≡ get_or (slice pos 2 buf) 0 0 + 256 * get_or (slice pos 2 buf) 1 0
msgsize-slice buf pos = omega (
  arith,
  get_or-slice buf pos 2 0 0 (omega arith),
  get_or-slice buf pos 2 1 0 (omega arith),
  ap (λ k. get_or buf k 0) start,
)
  where
    start : pos + 0 ≡ pos
    start = omega arith

-- Bytes of another unit are left alone.
slice-written :
    (q : MsgQueue) (w i : ℕ) (msg : List ℕ) (p n : ℕ)
    → i ≢ w
    → length msg + sizeof_queuemsg ≤ q.qunit
    → i * q.qunit ≤ p
    → p + n ≤ i * q.qunit + q.qunit
    → slice p n (written q w msg) ≡ slice p n q.qbuffer
slice-written q w i msg p n ne fit lo hi = elim (unit_disjoint q.qunit i w ne) [
  | inl h ↦
      slice-blit_before _ _ msg p n (omega arith)
      ∙ slice-blit_before _ _ (size_bytes (length msg)) p n (omega arith)
  | inr h ↦
      slice-blit_after _ _ msg p n (omega arith)
      ∙ slice-blit_after _ _ (size_bytes (length msg)) p n (omega arith)
]

module _ (q : MsgQueue) (w : ℕ) (msg : List ℕ) (fit : length msg + sizeof_queuemsg ≤ q.qunit) where
  pub msgsize_at-other :
      (i : ℕ)
      → i ≢ w
      → msgsize_at (written q w msg) (i * q.qunit) ≡ msgsize_at q.qbuffer (i * q.qunit)
  msgsize_at-other i ne =
      msgsize-slice (written q w msg) (i * q.qunit)
      ∙ rw (slice-written q w i msg (i * q.qunit) 2 ne fit (omega arith) (omega arith))
          (sym (msgsize-slice q.qbuffer (i * q.qunit)))

  pub msg_at-other :
      (i : ℕ)
      → i ≢ w
      → msgsize_at q.qbuffer (i * q.qunit) + sizeof_queuemsg ≤ q.qunit
      → msg_at (written q w msg) (i * q.qunit) ≡ msg_at q.qbuffer (i * q.qunit)
  msg_at-other i ne room =
      ap (λ k. slice (i * q.qunit + msg_offset) k (written q w msg)) (msgsize_at-other i ne)
      ∙ slice-written q w i msg (i * q.qunit + msg_offset) (msgsize_at q.qbuffer (i * q.qunit)) ne
          fit (omega arith) (omega arith)

  pub messages-written :
      (count i n : ℕ)
      → Misses count i n w
      → Fits q.qbuffer q.qunit count i n
      → messages (written q w msg) q.qunit count i n ≡ messages q.qbuffer q.qunit count i n
  messages-written count i zero m f = refl
  messages-written count i (suc n) m f =
      rw (msg_at-other i m.0 f.0) (
        ap (◌∷◌ (msg_at q.qbuffer (i * q.qunit)))
          (messages-written count (after count i) n m.1 f.1))

  pub Fits-written :
      (count i n : ℕ)
      → Misses count i n w
      → Fits q.qbuffer q.qunit count i n
      → Fits (written q w msg) q.qunit count i n
  Fits-written count i zero m f = tt
  Fits-written count i (suc n) m f =
      (omega (arith, msgsize_at-other i m.0), Fits-written count (after count i) n m.1 f.1)

  module _ (short : length msg < 65536) (inside : w * q.qunit + q.qunit ≤ length q.qbuffer) where
    pub msgsize_at_self : msgsize_at (written q w msg) (w * q.qunit) ≡ length msg
    msgsize_at_self = msgsize-slice (written q w msg) (w * q.qunit) ∙ rw (header) (omega arith)
      where
        header : slice (w * q.qunit) 2 (written q w msg) ≡ size_bytes (length msg)
        header =
            slice-blit_before _ _ msg (w * q.qunit) 2 (omega arith)
            ∙ slice-blit_self q.qbuffer (w * q.qunit) (size_bytes (length msg)) (omega arith)

    pub msg_at_self : msg_at (written q w msg) (w * q.qunit) ≡ msg
    msg_at_self =
        ap (λ k. slice (w * q.qunit + msg_offset) k (written q w msg)) msgsize_at_self
        ∙ slice-blit_self _ (w * q.qunit + msg_offset) msg
            (omega (arith, length-blit q.qbuffer (w * q.qunit) (size_bytes (length msg))))
