-- ===== src/Client/Process/Queued.antt =====
-- The queue after the events of the client's window.
use gaminganywhere.Base.{
  ℕ, suc, ◌+◌, ◌≤◌, ◌<◌, ◌≡◌, refl, sym, ap, ◌∙◌, arith, ltb, ◌==◌, if◌then◌else◌, Bool, true,
  false, List, [], ◌∷◌, ◌++◌, Option, none, some, length, Bool-cases, inl, inr, append_assoc,
  append_nil, length-append,
}
use mathlib.Core.Path.{subst}
use gaminganywhere.Input.{to_bytes, sizeof_sdlmsg}
use gaminganywhere.Input.Events.{Event, build, build-IsMessage}
use gaminganywhere.Input.Session.{messages}
use gaminganywhere.Controller.Queue.{MsgQueue, sizeof_queuemsg, write_msg}
use gaminganywhere.Controller.Queue.Refine.{Holds, fifo_write, write_refines, write_msg-qunit}
use gaminganywhere.Controller.Client.{client_sendmsg}
use gaminganywhere.Client.Process.{
  SdlEvent, WindowConf, Window, message_of, running_after, sent, process_event, process_all,
}

abbrev pub message_list : Option Event → List Event
message_list none = []
message_list (some e) = e ∷ []

-- The messages of the events up to the one that closes the window.
abbrev pub sent_events : WindowConf → List SdlEvent → List Event
sent_events c [] = []
sent_events c (e ∷ es) =
    message_list (message_of c e) ++ (if running_after true e then sent_events c es else [])

-- Does the queue take the messages of these events, with what it holds?
pub record Roomy (q : MsgQueue) (count : ℕ) (held events : List Event) : Type 0 where
  pub holds : Holds q count (messages held)
  pub unit : sizeof_sdlmsg + sizeof_queuemsg ≤ q.qunit
  pub small : q.qunit < 65540
  pub room : length held + length events < count

messages-append : (es fs : List Event) → messages (es ++ fs) ≡ messages es ++ messages fs
messages-append [] fs = refl
messages-append (e ∷ es) fs = ap (λ ms. to_bytes (build e) ∷ ms) (messages-append es fs)

pub length-messages : (es : List Event) → length (messages es) ≡ length es
length-messages [] = refl
length-messages (e ∷ es) = ap suc (length-messages es)

fifo_write-room :
    (unit count : ℕ) (ms : List (List ℕ)) (msg : List ℕ)
    → length msg + sizeof_queuemsg ≤ unit
    → suc (length ms) < count
    → (fifo_write unit count ms msg).1 ≡ ms ++ (msg ∷ [])
unfolding fifo_write
fifo_write-room unit count ms msg fit room =
    let fit' : ltb unit (length msg + sizeof_queuemsg) ≡ false = ground arith in
    let room' : (suc (length ms) == count) ≡ false = ground arith in rw (fit', room') refl

sent-Roomy :
    {q : MsgQueue} {count : ℕ} {held : List Event} (o : Option Event) (events : List Event)
    → Roomy q count held (message_list o ++ events)
    → Roomy (sent true q o) count (held ++ message_list o) events
unfolding client_sendmsg
sent-Roomy {q} {count} {held} none events r = rw (append_nil held) r
sent-Roomy {q} {count} {held} (some e) events r =
    let fit : length (to_bytes (build e)) + sizeof_queuemsg ≤ q.qunit =
      omega (arith, r.unit, (build-IsMessage e).1) in
    let more : suc (length (messages held)) < count = omega (arith, r.room, length-messages held) in
    record {
      holds =
          subst (λ ms. Holds (write_msg q (to_bytes (build e))).1 count ms)
            (fifo_write-room q.qunit count (messages held) (to_bytes (build e)) fit more
              ∙ sym (messages-append held (e ∷ [])))
            (write_refines (to_bytes (build e)) r.holds r.small).1;
      unit = rw (write_msg-qunit q (to_bytes (build e))) r.unit;
      small = rw (write_msg-qunit q (to_bytes (build e))) r.small;
      room = omega (arith, r.room, length-append held (e ∷ []));
    }

process_all-stopped :
    (c : WindowConf) (es : List SdlEvent) (w : Window)
    → w.running ≡ false
    → process_all c true es w ≡ w
unfolding process_all
process_all-stopped c [] w stop = refl
process_all-stopped c (e ∷ es) w stop = rw stop refl

process_all-running :
    (c : WindowConf) (e : SdlEvent) (es : List SdlEvent) (w : Window)
    → w.running ≡ true
    → process_all c true (e ∷ es) w ≡ process_all c true es (process_event c true w e)
unfolding process_all
process_all-running c e es w run =
    ap (λ b. if b then process_all c true es (process_event c true w e) else w) run

-- The loop over the events leaves the queue with the messages of `sent_events`, in their order.
pub process_all-Holds :
    (c : WindowConf) (es : List SdlEvent) (w : Window) (count : ℕ) (held : List Event)
    → w.running ≡ true
    → Roomy w.queue count held (sent_events c es)
    → Holds (process_all c true es w).queue count (messages (held ++ sent_events c es))
unfolding process_all process_event
process_all-Holds c [] w count held run r = rw (append_nil held) r.holds
process_all-Holds c (e ∷ es) w count held run r =
    let o = message_of c e in
    let w' : Window = process_event c true w e in
    let stay : w'.running ≡ running_after true e = ap (λ b. running_after b e) run in
    let after : Bool → List Event = λ b. message_list o ++ (if b then sent_events c es else []) in
    subst (λ (v : Window). Holds v.queue count (messages (held ++ after (running_after true e))))
      (sym (process_all-running c e es w run))
      (elim (Bool-cases (running_after true e)) [
        | inl go ↦
            subst (λ b. Holds (process_all c true es w').queue count (messages (held ++ after b)))
              (sym go)
              (subst (λ l. Holds (process_all c true es w').queue count (messages l))
                (append_assoc held (message_list o) (sent_events c es))
                (process_all-Holds c es w' count (held ++ message_list o) (stay ∙ go) (
                  sent-Roomy o (sent_events c es)
                    (subst (λ b. Roomy w.queue count held (after b)) go r))))
        | inr stop ↦
            subst
              (λ (v : Window).
                Holds v.queue count (messages (held ++ after (running_after true e))))
              (sym (process_all-stopped c es w' (stay ∙ stop)))
              (subst (λ b. Holds w'.queue count (messages (held ++ after b))) (sym stop)
                (subst (λ l. Holds w'.queue count (messages (held ++ l)))
                  (sym (append_nil (message_list o)))
                  (sent-Roomy o [] (subst (λ b. Roomy w.queue count held (after b)) stop r)).holds))
      ])
