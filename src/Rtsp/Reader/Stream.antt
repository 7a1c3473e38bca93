-- ===== src/Rtsp/Reader/Stream.antt =====
-- The stream that a connection has still to give: the bytes held in the buffer, and the pending ones.
use mathlib.Core.Path.{ap₂}
use gaminganywhere.Base.{
  append-cancel, take-drop, ==_iff, nil_of_length, ℕ, ◌+◌, ◌-◌, ◌<◌, ◌≤◌, ◌≡◌, refl, sym, ap, ◌∙◌,
  arith, ◌==◌, ◌++◌, true, false, length, take, drop, slice, blit, length-append, length-blit,
  length-slice, length-take, length-drop, slice-append, slice-blit_self, slice-blit_before,
  append_assoc, Bool-cases, inl, inr,
}
use gaminganywhere.Rtsp.Reader.{
  Bytes, Conn, read_size, read_bytes, read_internal, held, consume, compact,
}

pub record IsConn (c : Conn) : Type 0 where
  pub memory : length c.rbuffer ≡ c.rbufsize
  pub order : c.rbufhead ≤ c.rbuftail
  pub inside : c.rbuftail ≤ c.rbufsize
  pub empty : c.rbufhead ≡ c.rbuftail → c.rbuftail ≡ 0

abbrev pub stream : Conn → Bytes
stream c = held c ++ c.pending

pub length-held : (c : Conn) → IsConn c → length (held c) ≡ c.rbuftail - c.rbufhead
length-held c v =
    length-slice c.rbufhead (c.rbuftail - c.rbufhead) c.rbuffer
      (omega (arith, v.memory, v.order, v.inside))

-- No `read` fails while there is something to read.
abbrev pub Reliable : (ℕ → ℕ) → Type 0
Reliable sizes = (k : ℕ) → 0 < sizes k

pub compact-IsConn : (c : Conn) → IsConn c → IsConn (compact c)
compact-IsConn c v = record {
  memory = length-blit c.rbuffer 0 (held c) ∙ v.memory;
  order = omega arith;
  inside = omega (arith, v.inside);
  empty = λ e. sym e;
}

pub held-compact : (c : Conn) → IsConn c → held (compact c) ≡ held c
held-compact c v =
    let n : c.rbuftail - c.rbufhead - 0 ≡ length (held c) = omega (arith, length-held c v) in
    ap (λ k. slice 0 k (blit c.rbuffer 0 (held c))) n
    ∙ slice-blit_self c.rbuffer 0 (held c) (omega (arith, length-held c v, v.memory, v.inside))

-- What a successful `read` does to a connection.
pub record Gained (c d : Conn) : Type 0 where
  pub conn : IsConn d
  pub same : stream d ≡ stream c
  pub less : length d.pending < length c.pending
  pub size : d.rbufsize ≡ c.rbufsize

held-read_bytes :
    (c : Conn) (n : ℕ)
    → IsConn c
    → length (take n c.pending) ≡ n
    → n ≤ c.rbufsize - c.rbuftail
    → held (read_bytes n c) ≡ held c ++ take n c.pending
held-read_bytes c n v got room =
    let bytes = take n c.pending in
    let buf = blit c.rbuffer c.rbuftail bytes in
    let count : c.rbuftail + n - c.rbufhead ≡ c.rbuftail - c.rbufhead + length bytes =
      omega (arith, v.order) in
    let behind : c.rbufhead + (c.rbuftail - c.rbufhead) ≡ c.rbuftail = omega (arith, v.order) in
    ap (λ k. slice c.rbufhead k buf) count
    ∙ slice-append c.rbufhead (c.rbuftail - c.rbufhead) (length bytes) buf
    ∙ ap₂ ◌++◌
        (slice-blit_before c.rbuffer c.rbuftail bytes c.rbufhead (c.rbuftail - c.rbufhead)
          (omega (arith, v.order)))
        (ap (λ o. slice o (length bytes) buf) behind
          ∙ slice-blit_self c.rbuffer c.rbuftail bytes (omega (arith, v.memory, v.inside)))

read_bytes-Gained :
    (c : Conn) (n : ℕ)
    → IsConn c
    → 0 < n
    → n ≤ c.rbufsize - c.rbuftail
    → n ≤ length c.pending
    → Gained c (read_bytes n c)
read_bytes-Gained c n v pos room enough =
    let got : length (take n c.pending) ≡ n = omega (arith, length-take n c.pending) in
    record {
      conn = record {
        memory = length-blit c.rbuffer c.rbuftail (take n c.pending) ∙ v.memory;
        order = omega (arith, v.order);
        inside = omega (arith, v.inside);
        empty = λ e. absurd (omega (arith, v.order));
      };
      same =
          ap (λ h. h ++ drop n c.pending) (held-read_bytes c n v got room)
          ∙ append_assoc (held c) (take n c.pending) (drop n c.pending)
          ∙ ap (◌++◌ (held c)) (take-drop n c.pending);
      less = omega (arith, length-drop n c.pending);
      size = refl;
    }

pub read_internal_lem :
    (sizes : ℕ → ℕ) (c : Conn)
    → Reliable sizes
    → IsConn c
    → c.rbuftail < c.rbufsize
    → 0 < length c.pending
    → (d : Conn) × (read_internal sizes c ≡ (true, d)) × Gained c d
unfolding read_internal
read_internal_lem sizes c ok v room enough =
    let some_bytes : (read_size sizes c == 0) ≡ false = ground (arith, ok c.reads) in
    (
      read_bytes (read_size sizes c) c,
      rw some_bytes refl,
      read_bytes-Gained c (read_size sizes c) v (omega (arith, ok c.reads)) (omega arith)
          (omega arith),
    )

-- A round that reads more: the held bytes are moved to the front, and some are read behind them.
pub more_lem :
    (sizes : ℕ → ℕ) (c : Conn)
    → Reliable sizes
    → IsConn c
    → length (held c) < c.rbufsize
    → 0 < length c.pending
    → (d : Conn) × (read_internal sizes (compact c) ≡ (true, d)) × Gained c d
more_lem sizes c ok v room enough =
    let r =
      read_internal_lem sizes (compact c) ok (compact-IsConn c v) (omega (arith, length-held c v))
        enough in
    (
      r.0,
      r.1,
      record {
        conn = r.2.conn;
        same = r.2.same ∙ ap (λ h. h ++ c.pending) (held-compact c v);
        less = r.2.less;
        size = r.2.size;
      },
    )

-- What is left once the first `length m` bytes are taken off.
pub record Consumed (c d : Conn) (r : Bytes) : Type 0 where
  pub conn : IsConn d
  pub rest : held d ≡ r
  pub pending : d.pending ≡ c.pending
  pub size : d.rbufsize ≡ c.rbufsize

module _ (c : Conn) (m r : Bytes) (v : IsConn c) (e : held c ≡ m ++ r) where
  enough : length m + length r ≡ c.rbuftail - c.rbufhead
  enough = sym (length-append m r) ∙ sym (ap length e) ∙ length-held c v

  split :
      (slice c.rbufhead (length m) c.rbuffer ≡ m)
      × (slice (c.rbufhead + length m) (length r) c.rbuffer ≡ r)
  split =
      append-cancel _ m _ r
        (length-slice c.rbufhead (length m) c.rbuffer
          (omega (arith, v.memory, v.inside, v.order, enough)))
        (sym (slice-append c.rbufhead (length m) (length r) c.rbuffer)
          ∙ ap (λ n. slice c.rbufhead n c.rbuffer) enough
          ∙ e)

  pub taken : slice c.rbufhead (length m) c.rbuffer ≡ m
  taken = split.0

  left : c.rbuftail - (c.rbufhead + length m) ≡ length r
  left = omega (arith, enough)

  pub consume-Consumed : Consumed c (consume (length m) c) r
  consume-Consumed = elim (Bool-cases (c.rbufhead + length m == c.rbuftail)) [
    | inl all ↦ rw all (record {
      conn = record {
        memory = v.memory;
        order = omega arith;
        inside = omega arith;
        empty = λ e. refl;
      };
      rest = sym (nil_of_length r (omega (arith, enough, (==_iff _ _).0 all)));
      pending = refl;
      size = refl;
    })
    | inr some_left ↦ rw some_left (record {
      conn = record {
        memory = v.memory;
        order = omega (arith, enough, v.order);
        inside = v.inside;
        empty = λ same. absurd (cc ((==_iff _ _).1 same, some_left));
      };
      rest = ap (λ n. slice (c.rbufhead + length m) n c.rbuffer) (left) ∙ split.1;
      pending = refl;
      size = refl;
    })
  ]

-- Two ways to part one list: the longer front starts with the shorter one.
pub append-split :
    (xs ys ps qs : Bytes)
    → xs ++ ys ≡ ps ++ qs
    → length ps ≤ length xs
    → (t : Bytes) × (xs ≡ ps ++ t) × (qs ≡ t ++ ys)
append-split xs ys ps qs e h =
    let n = length ps in
    let front : length (take n xs) ≡ n = omega (arith, length-take n xs) in
    let parts =
      append-cancel (take n xs) ps (drop n xs ++ ys) qs front
        (sym (append_assoc (take n xs) (drop n xs) ys) ∙ ap (λ l. l ++ ys) (take-drop n xs) ∙ e) in
    (drop n xs, sym (take-drop n xs) ∙ ap (λ l. l ++ drop n xs) parts.0, sym parts.1)

-- What a call that gives the front of the stream leaves.
pub record Left (c d : Conn) (rest : Bytes) : Type 0 where
  pub conn : IsConn d
  pub behind : stream d ≡ rest
  pub pending : length d.pending ≤ length c.pending
  pub size : d.rbufsize ≡ c.rbufsize

pub Consumed-Left :
    {c d : Conn} {r : Bytes} (rest : Bytes) → Consumed c d r → rest ≡ r ++ c.pending → Left c d rest
Consumed-Left {c} {d} {r} rest k e = record {
  conn = k.conn;
  behind = ap₂ ◌++◌ k.rest k.pending ∙ sym e;
  pending = omega (arith, ap length k.pending);
  size = k.size;
}

pub Gained-Left : {c d b : Conn} (rest : Bytes) → Gained c d → Left d b rest → Left c b rest
Gained-Left rest g l = record {
  conn = l.conn;
  behind = l.behind;
  pending = omega (arith, g.less, l.pending);
  size = l.size ∙ g.size;
}
