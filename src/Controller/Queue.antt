-- ===== src/Controller/Queue.antt =====
-- The message queue of ga/core/controller.cpp (ctrl_queue_*, ctrl_server_readnext): a ring of
-- fixed units in one byte buffer. Positions are byte offsets into `qbuffer`, as in the source.
-- A unit holds a `struct queuemsg`: an `unsigned short` size in the host's (little-endian) order,
-- then the message. The globals are one record. Each operation runs under `queue_mutex`, so it is
-- one step on that record; `malloc` is a parameter. Sizes are not negative, and the `int` sums of
-- the source are taken without overflow.
pub mod Layout
mod Units
pub mod Refine
pub mod Session
mod Tests
use gaminganywhere.Base.{
  ℕ, ◌+◌, ◌-◌, ◌*◌, ◌/◌, ◌%◌, Bool, true, false, List, [], ◌∷◌, Option, none, some, ◌==◌, ltb,
  if◌then◌else◌, length, get_or, slice, blit,
}

pub record MsgQueue : Type 0 where
  pub qbuffer : List ℕ
  pub qhead : ℕ
  pub qtail : ℕ
  pub qsize : ℕ
  pub qunit : ℕ

-- `sizeof(struct queuemsg)`: `unsigned short msgsize; unsigned char msg[2]`
abbrev pub sizeof_queuemsg : ℕ
sizeof_queuemsg = 4

-- `offsetof(struct queuemsg, msg)`
abbrev pub msg_offset : ℕ
msg_offset = 2

-- the queue with the block that `malloc` returned; the flag is false where the source returns -1
unfoldable pub init_with : Option (List ℕ) → ℕ → ℕ → Bool × MsgQueue
init_with none total unit =
    (false, record { qbuffer = []; qhead = 0; qtail = 0; qsize = total; qunit = unit })
init_with (some b) total unit =
    (true, record { qbuffer = b; qhead = 0; qtail = 0; qsize = total; qunit = unit })

unfoldable pub init : (ℕ → Option (List ℕ)) → ℕ → ℕ → Bool × MsgQueue
unfolding init_with
init malloc size maxunit =
    let unit = maxunit + sizeof_queuemsg in
    let total = size - size % unit in init_with (malloc total) total unit

-- `qm->msgsize`, at offset `pos` of the buffer
abbrev pub msgsize_at : List ℕ → ℕ → ℕ
msgsize_at buf pos = get_or buf pos 0 + 256 * get_or buf (pos + 1) 0

-- the `qm->msgsize` bytes at `qm->msg`
abbrev pub msg_at : List ℕ → ℕ → List ℕ
msg_at buf pos = slice (pos + msg_offset) (msgsize_at buf pos) buf

-- `qm->msgsize = n`: an `unsigned short` keeps the low 16 bits.
abbrev pub size_bytes : ℕ → List ℕ
size_bytes n = n % 256 ∷ n / 256 % 256 ∷ []

-- The offset of the message that the returned pointer shows; `none` is NULL.
pub read_msg : MsgQueue → Option ℕ
read_msg q = if q.qtail == q.qhead then none else some q.qhead

-- `pos += qunit; if(pos == qsize) pos = 0;`
abbrev pub advance : MsgQueue → ℕ → ℕ
advance q pos = if pos + q.qunit == q.qsize then 0 else pos + q.qunit

-- The argument is only compared, for a warning.
pub release_msg : MsgQueue → ℕ → MsgQueue
release_msg q msg = if q.qhead == q.qtail then q else record q { qhead = advance q q.qhead }

-- The result is 0 or the message's size.
pub write_msg : MsgQueue → List ℕ → ℕ × MsgQueue
write_msg q msg =
    if ltb q.qunit (length msg + sizeof_queuemsg)
    then (0, q)
    else if advance q q.qtail == q.qhead
    then (0, q)
    else (
      length msg,
      record q {
        qbuffer =
            blit (blit q.qbuffer q.qtail (size_bytes (length msg))) (q.qtail + msg_offset) msg;
        qtail = advance q q.qtail;
      },
    )

pub clear : MsgQueue → MsgQueue
clear q = record q { qhead = 0; qtail = 0 }

-- What one round of `ctrl_server_readnext` comes to: it waits for a signal, or returns -1, or
-- copies a message and returns its size.
pub data Next : Type 0 where
  wait too_long : Next
  copied : List ℕ → Next

pub server_readnext : MsgQueue → ℕ → Next × MsgQueue
unfolding read_msg release_msg
server_readnext q msglen = elim (read_msg q) [
  | none ↦ (wait, q)
  | some pos ↦ (
    if ltb msglen (msgsize_at q.qbuffer pos) then too_long else copied (msg_at q.qbuffer pos),
    release_msg q pos,
  )
]
