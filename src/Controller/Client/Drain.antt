-- ===== src/Controller/Client/Drain.antt =====
-- The client's loop on the queue's contract, and the way of a message from queue to server.
use gaminganywhere.Base.{
  ℕ, zero, suc, ◌+◌, ◌<◌, ◌≤◌, ◌≡◌, refl, sym, ap, ◌∙◌, arith, List, [], ◌∷◌, Option, none, some,
  length, take, take_all, Option-cases, append_nil, inl, inr,
}
use mathlib.Core.Path.{subst, ap₂}
use gaminganywhere.Controller.Queue.{MsgQueue, release_msg}
use gaminganywhere.Controller.Queue.Refine.{Holds, read_lem, head-msg_at, release-Holds, read-none}
use gaminganywhere.Controller.Client.{End, drain, empty, exited}
use gaminganywhere.Controller.Server.{Bytes, Receiver, reading, tcp_serve, buf_size}
use gaminganywhere.Controller.Server.Frames.{AllMessages}
use gaminganywhere.Controller.Server.Stream.{Waits, Cuts, done, whole, serve-Cuts}

-- The loop on the list of the queued messages: what is sent, what stays queued, and how it ends.
pub record Sent : Type 0 where
  pub sent : List (List ℕ)
  pub left : List (List ℕ)
  pub end : End

abbrev also : List ℕ → Sent → Sent
also bytes r = record r { sent = bytes ∷ r.sent }

pub send_all : (ℕ → List ℕ → Option ℕ) → ℕ → List (List ℕ) → Sent
send_all send k [] = record { sent = []; left = []; end = empty }
send_all send k (m ∷ ms) =
    let rest = send_all send (k + 1) ms in
    elim (send k m) [
      | none ↦ record { sent = []; left = m ∷ ms; end = exited }
      | some n ↦ also (take n m) rest
    ]

-- Whatever `send` answers, the loop on a queue that holds `ms` sends what `send_all` sends, ends as it
-- ends and leaves what it leaves, given more rounds than there are messages: the messages in order,
-- up to the first that `send` refuses, which stays in the queue with those behind it.
pub drain_refines :
    (send : ℕ → List ℕ → Option ℕ) (fuel k : ℕ) (q : MsgQueue) (count : ℕ) (ms : List (List ℕ))
    → Holds q count ms
    → length ms < fuel
    → ((drain send fuel k q).sent ≡ (send_all send k ms).sent)
      × ((drain send fuel k q).end ≡ (send_all send k ms).end)
      × Holds (drain send fuel k q).queue count (send_all send k ms).left
unfolding drain send_all
drain_refines send zero k q count ms h enough = absurd (omega arith)
drain_refines send (suc fuel) k q count [] h enough = rw (read-none h, drain) (refl, refl, h)
drain_refines send (suc fuel) k q count (m ∷ ms) h enough = elim (Option-cases (send k m)) [
  | inl refused ↦
      rw (read_lem h, drain) (rw (head-msg_at h) (rw (refused, send_all) (refl, refl, h)))
  | inr (n, taken) ↦
      let ih =
        drain_refines send fuel (k + 1) (release_msg q q.qhead) count ms (release-Holds h q.qhead)
          (omega arith) in
      rw (read_lem h, drain)
        (rw (head-msg_at h)
          (rw (taken, send_all) (ap₂ (λ b xs. take n b ∷ xs) (head-msg_at h) ih.0, ih.1, ih.2)))
]

-- `send` takes every block whole.
abbrev pub TakesAll : (ℕ → List ℕ → Option ℕ) → Type 0
TakesAll send = (k : ℕ) (bytes : List ℕ) → send k bytes ≡ some (length bytes)

send_all-TakesAll :
    (send : ℕ → List ℕ → Option ℕ) (k : ℕ) (ms : List (List ℕ))
    → TakesAll send
    → send_all send k ms ≡ record { sent = ms; left = []; end = empty }
unfolding send_all
send_all-TakesAll send k [] takes = refl
send_all-TakesAll send k (m ∷ ms) takes =
    rw (takes k m, send_all)
      (rw (send_all-TakesAll send (k + 1) ms takes) (rw (take_all (length m) m (omega arith)) refl))

abbrev pub AllFit : List Bytes → Type 0
AllFit [] = Unit
AllFit (m ∷ ms) = (length m ≤ buf_size) × AllFit ms

-- One `recv` for each message.
Cuts-each : (ms : List Bytes) → AllMessages ms → AllFit ms → Cuts [] ms ms
Cuts-each [] all fit = done
Cuts-each (m ∷ ms) all fit =
    whole [] m ms m [] ms (m ∷ ms) (omega (arith, all.0.header)) (omega (arith, fit.0)) (all.0, tt)
      (sym (append_nil m)) (Cuts-each ms all.1 fit.1) refl

-- From the client's queue to the server: the queued messages are all sent and the queue is empty, and
-- a server whose `recv` returns what each `send` took hands over the same messages in the same order.
pub drain-serve :
    (send : ℕ → List ℕ → Option ℕ) (fuel : ℕ) (q : MsgQueue) (count : ℕ) (ms : List Bytes)
    → (s : Receiver) → TakesAll send
    → Holds q count ms
    → length ms < fuel
    → AllMessages ms
    → AllFit ms
    → Waits s []
    → Holds (drain send fuel 0 q).queue count []
      × ((drain send fuel 0 q).end ≡ empty)
      × (t : Receiver) × (tcp_serve (reading s) (drain send fuel 0 q).sent ≡ (ms, reading t))
      × Waits t []
drain-serve send fuel q count ms s takes h enough all fit w =
    let d = drain_refines send fuel 0 q count ms h enough in
    let e = send_all-TakesAll send 0 ms takes in
    let r = serve-Cuts s [] ms ms w (Cuts-each ms all fit) in
    (
      subst (Holds (drain send fuel 0 q).queue count) (ap (λ (x : Sent). x.left) e) d.2,
      d.1 ∙ ap (λ (x : Sent). x.end) e,
      r.0,
      ap (tcp_serve (reading s)) (d.0 ∙ ap (λ (x : Sent). x.sent) e) ∙ r.1,
      r.2,
    )
