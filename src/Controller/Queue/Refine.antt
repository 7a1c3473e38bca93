-- ===== src/Controller/Queue/Refine.antt =====
-- The queue against its contract: a first-in first-out list of messages, of bounded length and
-- message size. `Holds q count ms` says that the ring of `count` units holds the messages `ms`.
use mathlib.Core.Path.{ap₂, subst}
use gaminganywhere.Base.{
  ℕ, suc, ◌+◌, ◌*◌, ◌≤◌, ◌<◌, ◌≡◌, refl, sym, ap, ◌∙◌, List, [], ◌∷◌, ◌++◌, arith, ◌↔◌, inl, inr,
  length, ltb, ◌==◌, if◌then◌else◌, none, some, true, false, Bool-cases, length-blit, length-append,
  blit, ==_iff, length-slice,
}
use gaminganywhere.Controller.Queue.{
  MsgQueue, size_bytes, msgsize_at, msg_at, sizeof_queuemsg, msg_offset, read_msg, release_msg,
  write_msg, advance, server_readnext, Next, wait, too_long, copied,
}
use gaminganywhere.Controller.Queue.Layout.{
  Layout, messages, after, ahead, ahead-suc, ahead-lt, advance-after, unit_injective, unit_step,
  Misses, Misses-ahead, ahead_return, ahead_round, messages-suc, Fits-suc, after-lt,
}
use gaminganywhere.Controller.Queue.Units.{
  written, messages-written, Fits-written, msgsize_at_self, msg_at_self,
}

pub record Holds (q : MsgQueue) (count : ℕ) (ms : List (List ℕ)) : Type 0 where
  pub first : ℕ
  pub layout : Layout q count first (length ms)
  pub contents : messages q.qbuffer q.qunit count first (length ms) ≡ ms

-- The contract of `ctrl_queue_write_msg`, on the list of the queued messages.
unfoldable pub fifo_write : ℕ → ℕ → List (List ℕ) → List ℕ → ℕ × List (List ℕ)
fifo_write unit count ms msg =
    if ltb unit (length msg + sizeof_queuemsg)
    then (0, ms)
    else if suc (length ms) == count
    then (0, ms)
    else (length msg, ms ++ (msg ∷ []))

module _ {q : MsgQueue} {count first used : ℕ} (l : Layout q count first used) where
  tail_in : ahead count first used < count
  tail_in = ahead-lt count first used l.first_in

  tail_unit : q.qtail + q.qunit ≤ length q.qbuffer
  tail_unit =
      omega
        (arith, l.tail, l.size, l.memory, unit_step q.qunit (ahead count first used) count tail_in)

  advance-tail : advance q q.qtail ≡ ahead count first (suc used) * q.qunit
  advance-tail =
      rw (l.tail, ahead-suc count first used)
        (advance-after q count (ahead count first used) (omega (arith, l.room)) l.size tail_in)

  -- The code's test for a full ring.
  full_iff : (advance q q.qtail ≡ q.qhead) ↔ (suc used ≡ count)
  full_iff = (
    λ e. ground (arith, same_unit e, ahead_return count first (suc used)),
    λ e.
        advance-tail
        ∙ ap (λ k. ahead count first k * q.qunit) e
        ∙ ap (λ k. k * q.qunit) (ahead_round count first l.first_in)
        ∙ sym l.head,
  )
    where
      same_unit : advance q q.qtail ≡ q.qhead → ahead count first (suc used) ≡ first
      same_unit e =
          unit_injective q.qunit _ _ (omega (arith, l.room)) (sym advance-tail ∙ e ∙ l.head)

  -- The code's test for an empty ring.
  empty_iff : (q.qtail ≡ q.qhead) ↔ (used ≡ 0)
  empty_iff = (
    λ e. ground (arith, same_unit e, ahead_return count first used),
    λ e. l.tail ∙ rw e (sym l.head),
  )
    where
      same_unit : q.qtail ≡ q.qhead → ahead count first used ≡ first
      same_unit e = unit_injective q.qunit _ _ (omega (arith, l.room)) (sym l.tail ∙ e ∙ l.head)

  module _ (msg : List ℕ) (fit : length msg + sizeof_queuemsg ≤ q.qunit)
      (small : q.qunit < 65540) where
    -- the state after a message was stored
    stored : MsgQueue
    stored = record q {
      qbuffer = written q (ahead count first used) msg;
      qtail = ahead count first (suc used) * q.qunit;
    }

    inside : ahead count first used * q.qunit + q.qunit ≤ length q.qbuffer
    inside = omega (arith, tail_unit, l.tail)

    missed : Misses count first used (ahead count first used)
    missed = Misses-ahead count first used used l.first_in (omega arith) l.one_free

    stored-Layout : suc used < count → Layout stored count first (suc used)
    unfolding stored
    stored-Layout more = record {
      room = l.room;
      size = l.size;
      memory = length-blit _ _ msg ∙ length-blit q.qbuffer _ _ ∙ l.memory;
      first_in = l.first_in;
      one_free = more;
      head = l.head;
      tail = refl;
      fits =
          Fits-suc _ q.qunit count first used
            (Fits-written q _ msg fit count first used missed l.fits)
            (omega
              (arith, msgsize_at_self q (ahead count first used) msg fit (omega arith) inside));
    }

    stored-messages :
        messages stored.qbuffer q.qunit count first (suc used)
        ≡ messages q.qbuffer q.qunit count first used ++ (msg ∷ [])
    unfolding stored
    stored-messages =
        messages-suc stored.qbuffer q.qunit count first used
        ∙ ap₂ (λ xs x. xs ++ (x ∷ []))
            (messages-written q (ahead count first used) msg fit count first used missed l.fits)
            (msg_at_self q (ahead count first used) msg fit (omega arith) inside)

module _ {q : MsgQueue} {count : ℕ} {ms : List (List ℕ)} (h : Holds q count ms) where
  -- The record that the code builds is the one that `stored` names.
  stored-code :
      (msg : List ℕ) (fit : length msg + sizeof_queuemsg ≤ q.qunit) (small : q.qunit < 65540)
      → record q {
        qbuffer =
            blit (blit q.qbuffer q.qtail (size_bytes (length msg))) (q.qtail + msg_offset) msg;
        qtail = advance q q.qtail;
      }
        ≡ stored h.layout msg fit small
  unfolding stored
  stored-code msg fit small = λ i. record q {
    qbuffer =
        blit (blit q.qbuffer (h.layout.tail i) (size_bytes (length msg)))
          (h.layout.tail i + msg_offset) msg;
    qtail = advance-tail h.layout i;
  }

  stored-Holds :
      (msg : List ℕ) (fit : length msg + sizeof_queuemsg ≤ q.qunit) (small : q.qunit < 65540)
      → suc (length ms) < count
      → Holds (stored h.layout msg fit small) count (ms ++ (msg ∷ []))
  unfolding stored
  stored-Holds msg fit small more = record {
    first = h.first;
    layout = rw longer (stored-Layout h.layout msg fit small more);
    contents =
        rw longer (stored-messages h.layout msg fit small ∙ ap (λ l. l ++ (msg ∷ [])) h.contents);
  }
    where
      longer : length (ms ++ (msg ∷ [])) ≡ suc (length ms)
      longer = omega (arith, length-append ms (msg ∷ []))

-- `ctrl_queue_write_msg` on a queue that holds `ms` returns what `fifo_write` returns, and leaves a
-- queue that holds what `fifo_write` leaves: too large a message is refused, a full queue drops the
-- message, and else it is appended. Units are below 65540 bytes, so that a size fits 16 bits.
pub write_refines :
    {q : MsgQueue} {count : ℕ} {ms : List (List ℕ)} (msg : List ℕ)
    → Holds q count ms
    → q.qunit < 65540
    → ((write_msg q msg).0 ≡ (fifo_write q.qunit count ms msg).0)
      × Holds (write_msg q msg).1 count (fifo_write q.qunit count ms msg).1
unfolding write_msg fifo_write
write_refines {q} {count} {ms} msg h small =
    elim (Bool-cases (ltb q.qunit (length msg + sizeof_queuemsg))) [
      | inl large ↦ rw large (refl, h)
      | inr fit ↦ elim (Bool-cases (advance q q.qtail == q.qhead)) [
        | inl full ↦
            let full' : (suc (length ms) == count) ≡ true =
              (==_iff _ _).1 ((full_iff h.layout).0 ((==_iff _ _).0 full)) in
            rw (fit, full, full') (refl, h)
        | inr free ↦
            let free' : (suc (length ms) == count) ≡ false = ground (arith, full_iff h.layout) in
            let fit' : length msg + sizeof_queuemsg ≤ q.qunit = ground arith in
            rw (fit, free, free')
              (
                refl,
                subst (λ s. Holds s count (ms ++ (msg ∷ []))) (sym (stored-code h msg fit' small))
                    (stored-Holds h msg fit' small (ground (arith, h.layout.one_free))),
              )
      ]
    ]

pub write_msg-qunit : (q : MsgQueue) (msg : List ℕ) → (write_msg q msg).1.qunit ≡ q.qunit
unfolding write_msg
write_msg-qunit q msg = elim (Bool-cases (ltb q.qunit (length msg + sizeof_queuemsg))) [
  | inl large ↦ rw large refl
  | inr fit ↦ elim (Bool-cases (advance q q.qtail == q.qhead)) [
    | inl full ↦ rw (fit, full) refl
    | inr free ↦ rw (fit, free) refl
  ]
]

module _ {q : MsgQueue} {count : ℕ} {m : List ℕ} {ms : List (List ℕ)}
    (h : Holds q count (m ∷ ms)) where
  pub head-msg_at : msg_at q.qbuffer q.qhead ≡ m
  head-msg_at = rw h.layout.head (cc h.contents)

  head-msgsize_at : msgsize_at q.qbuffer q.qhead ≡ length m
  head-msgsize_at =
      sym (length-slice (q.qhead + msg_offset) (msgsize_at q.qbuffer q.qhead) q.qbuffer enough)
      ∙ ap length head-msg_at
    where
      room : msgsize_at q.qbuffer q.qhead + sizeof_queuemsg ≤ q.qunit
      room = rw h.layout.head h.layout.fits.0

      enough : q.qhead + msg_offset + msgsize_at q.qbuffer q.qhead ≤ length q.qbuffer
      enough = omega (
        arith,
        room,
        h.layout.head,
        h.layout.size,
        h.layout.memory,
        unit_step q.qunit h.first count h.layout.first_in,
      )

  busy : (q.qtail == q.qhead) ≡ false
  busy = ground (arith, (empty_iff h.layout).0)

  released : (pos : ℕ) → release_msg q pos ≡ record q { qhead = advance q q.qhead }
  unfolding release_msg
  released pos = let waiting : (q.qhead == q.qtail) ≡ false = ground (arith, busy) in rw waiting

  pub read_lem : read_msg q ≡ some q.qhead
  unfolding read_msg
  read_lem = rw busy

  pub release-Holds : (pos : ℕ) → Holds (release_msg q pos) count ms
  release-Holds pos = rw (released pos) (record {
    first = after count h.first;
    layout = record {
      room = h.layout.room;
      size = h.layout.size;
      memory = h.layout.memory;
      first_in = after-lt count h.first h.layout.first_in;
      one_free = omega arith;
      head =
          ap (advance q) h.layout.head
          ∙ advance-after q count h.first (omega (arith, h.layout.room)) h.layout.size
              h.layout.first_in;
      tail = h.layout.tail;
      fits = h.layout.fits.1;
    };
    contents = cc h.contents;
  })

pub read-none : {q : MsgQueue} {count : ℕ} → Holds q count [] → read_msg q ≡ none
unfolding read_msg
read-none {q} h =
    let idle : (q.qtail == q.qhead) ≡ true = (==_iff _ _).1 ((empty_iff h.layout).1 refl) in rw idle

-- The contract of one round of `ctrl_server_readnext` on the list of the queued messages.
pub fifo_next : List (List ℕ) → ℕ → Next × List (List ℕ)
fifo_next [] msglen = (wait, [])
fifo_next (m ∷ ms) msglen = (if ltb msglen (length m) then too_long else copied m, ms)

-- `ctrl_server_readnext` takes the oldest message, with the bytes that were written, or waits where
-- there is none; a message longer than the caller's buffer is taken off and reported.
pub readnext_refines :
    {q : MsgQueue} {count : ℕ} (ms : List (List ℕ)) (msglen : ℕ)
    → Holds q count ms
    → ((server_readnext q msglen).0 ≡ (fifo_next ms msglen).0)
      × Holds (server_readnext q msglen).1 count (fifo_next ms msglen).1
unfolding server_readnext fifo_next
readnext_refines {q} {count} [] msglen h = rw (read-none h, server_readnext) (refl, h)
readnext_refines {q} {count} (m ∷ ms) msglen h =
    rw (read_lem h, server_readnext)
      (rw (head-msg_at h, head-msgsize_at h) refl, release-Holds h q.qhead)
