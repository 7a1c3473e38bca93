-- ===== src/Controller/Server/Frames.antt =====
-- What one `recv` delivers: whole messages, part of one, or both.
use gaminganywhere.Base.{
  append-cancel, ℕ, zero, suc, ◌+◌, ◌-◌, ◌<◌, ◌≤◌, ◌≡◌, refl, sym, ap, ◌∙◌, arith, List, [], ◌∷◌,
  ◌++◌, length, get_or, take, slice, blit, length-append, length-blit, slice-append,
  slice-blit_self, slice-blit_before, get_or-slice, length-slice,
}
use mathlib.Core.Path.{ap₂}
use gaminganywhere.Controller.Server.{Bytes, buf_size, Receiver, size_at}

-- A message whose first two bytes are its size.
pub record IsMessage (m : Bytes) : Type 0 where
  pub header : 2 ≤ length m
  pub size : size_at m 0 ≡ length m

abbrev pub AllMessages : List Bytes → Type 0
AllMessages [] = Unit
AllMessages (m ∷ ms) = IsMessage m × AllMessages ms

abbrev pub concat : List Bytes → Bytes
concat [] = []
concat (m ∷ ms) = m ++ concat ms

-- The receiver holds the bytes `p` from `bufhead` on.
pub record Holds (s : Receiver) (p : Bytes) : Type 0 where
  pub memory : length s.buf ≡ buf_size
  pub inside : s.bufhead + s.buflen ≤ buf_size
  pub count : s.buflen ≡ length p
  pub bytes : slice s.bufhead s.buflen s.buf ≡ p

-- A proper part of a message: its size is not there yet, or promises more.
pub record IsPart (p : Bytes) : Type 0 where
  pub fits : length p ≤ buf_size
  pub more : 2 ≤ length p → length p < size_at p 0

pub size_at-append : (m r : Bytes) → 2 ≤ length m → size_at (m ++ r) 0 ≡ size_at m 0
size_at-append [] r h = absurd (omega arith)
size_at-append (a ∷ []) r h = absurd (omega arith)
size_at-append (a ∷ b ∷ m) r h = refl

module _ {s : Receiver} {p : Bytes} (h : Holds s p) where
  held-get_or : (i : ℕ) → i < s.buflen → get_or s.buf (s.bufhead + i) 0 ≡ get_or p i 0
  held-get_or i lt =
      sym (get_or-slice s.buf s.bufhead s.buflen i 0 lt) ∙ ap (λ xs. get_or xs i 0) h.bytes

  -- The size at `bufhead` is the one in the bytes that are held.
  pub size_at-Holds : 2 ≤ length p → size_at s.buf s.bufhead ≡ size_at p 0
  size_at-Holds two =
      let first : get_or s.buf (s.bufhead + 0) 0 ≡ get_or p 0 0 =
        held-get_or 0 (omega (arith, h.count)) in
      let here : s.bufhead + 0 ≡ s.bufhead = omega arith in
      let second : get_or s.buf (s.bufhead + 1) 0 ≡ get_or p 1 0 =
        held-get_or 1 (omega (arith, h.count)) in
      let e : get_or s.buf s.bufhead 0 ≡ get_or p 0 0 =
        ap (λ k. get_or s.buf k 0) (sym here) ∙ first in
      let one : ◌≡◌ {A = ℕ} (0 + 1) 1 = refl in rw (e, second) refl

module _ {s : Receiver} (m r : Bytes) (h : Holds s (m ++ r)) where
  split-Holds :
      (slice s.bufhead (length m) s.buf ≡ m)
      × (slice (s.bufhead + length m) (s.buflen - length m) s.buf ≡ r)
  split-Holds =
      append-cancel _ m _ r
        (length-slice s.bufhead (length m) s.buf
          (omega (arith, h.count, h.inside, h.memory, length-append m r)))
        (sym (slice-append s.bufhead (length m) (s.buflen - length m) s.buf)
          ∙ ap (λ n. slice s.bufhead n s.buf) (omega (arith, h.count, length-append m r))
          ∙ h.bytes)

  pub whole_bytes : slice s.bufhead (length m) s.buf ≡ m
  whole_bytes = split-Holds.0

  pub rest-Holds :
      Holds (record s { bufhead = s.bufhead + length m; buflen = s.buflen - length m }) r
  rest-Holds = record {
    memory = h.memory;
    inside = omega (arith, h.inside, h.count, length-append m r);
    count = omega (arith, h.count, length-append m r);
    bytes = split-Holds.1;
  }

-- `recv` puts a chunk behind the bytes that stand at the start of the buffer.
pub received-Holds :
    {s : Receiver} (p chunk : Bytes)
    → Holds s p
    → s.bufhead ≡ 0
    → length p + length chunk ≤ buf_size
    → Holds
        (record s { buf = blit s.buf s.buflen chunk; buflen = s.buflen + length chunk })
        (p ++ chunk)
received-Holds {s} p chunk h front room = record {
  memory = length-blit s.buf s.buflen chunk ∙ h.memory;
  inside = omega (arith, h.count);
  count = omega (arith, h.count, length-append p chunk);
  bytes =
      slice-append s.bufhead s.buflen (length chunk) (blit s.buf s.buflen chunk)
      ∙ ap₂ ◌++◌ (slice-blit_before s.buf s.buflen chunk s.bufhead s.buflen (omega arith) ∙ h.bytes)
          (ap (λ o. slice o (length chunk) (blit s.buf s.buflen chunk)) (omega arith)
            ∙ slice-blit_self s.buf s.buflen chunk (omega (arith, h.count, h.memory)));
}

-- Copying a prefix of the buffer onto itself changes nothing.
pub blit-take : (xs : Bytes) (n : ℕ) → blit xs 0 (take n xs) ≡ xs
blit-take [] n = refl
blit-take (x ∷ xs) zero = refl
blit-take (x ∷ xs) (suc n) = ap (◌∷◌ x) (blit-take xs n)
