-- ===== src/Encoder/Lifecycle.antt =====
-- When the encoder threads run: from the first client's registration to the last one's end.
use gaminganywhere.Base.{
  ℕ, zero, suc, ◌+◌, ◌≡◌, ◌≢◌, ◌↔◌, refl, sym, ap, ◌∙◌, arith, List, [], ◌∷◌, ◌++◌, Option, none,
  some, true, false, length, take, set, ◌≤◌, ◌<◌, nil_of_length, append_assoc, append_nil,
}
use gaminganywhere.Encoder.{
  Registry, Created, start_video, start_audio, start_threads, register_vencoder, register_aencoder,
  register_client, unregister_client, add_client, erase_client, contains,
}

-- `threadLaunched` says whether there is a client.
abbrev pub IsLive : Registry → Type 0
IsLive r = (r.launched ≡ true) ↔ (r.clients ≢ [])

add_client-ne-nil : (cs : List ℕ) (c : ℕ) → add_client cs c ≢ []
unfolding add_client
add_client-ne-nil [] c = ground arith
add_client-ne-nil (x ∷ cs) c = ground arith

start_threads-launched :
    (r : Registry) (made : Created)
    → ((start_threads r made).1.launched ≡ (start_threads r made).0)
      × ((start_threads r made).1.clients ≡ r.clients)
unfolding start_threads
start_threads-launched r made = ground arith

-- `encoder_register_client` keeps the flag in step with the clients, also where a thread fails to
-- start.
pub register-IsLive :
    (r : Registry) (made : Created) (c : ℕ) → IsLive r → IsLive (register_client r made c).1
unfolding register_client
register-IsLive r made c h =
    ground
      (arith, start_threads-launched r made, add_client-ne-nil r.clients c, nil_of_length r.clients)

pub unregister-IsLive : (r : Registry) (n c : ℕ) → IsLive r → IsLive (unregister_client r n c).1
unfolding unregister_client
unregister-IsLive r n c h = ground (arith, nil_of_length (erase_client r.clients c))

contains-append : (cs : List ℕ) (c : ℕ) → contains (cs ++ (c ∷ [])) c ≡ true
unfolding contains
contains-append [] c = ground arith
contains-append (x ∷ cs) c = ground (arith, contains-append cs c)

contains-add_client : (cs : List ℕ) (c : ℕ) → contains (add_client cs c) c ≡ true
unfolding add_client
contains-add_client cs c = ground (arith, contains-append cs c)

contains-erase_client : (cs : List ℕ) (c : ℕ) → contains (erase_client cs c) c ≡ false
unfolding erase_client contains
contains-erase_client [] c = refl
contains-erase_client (x ∷ cs) c = ground (arith, contains-erase_client cs c)

-- What `encoder_register_client` answers: on success the client is registered; on failure there is
-- no client and no thread is marked as running, so that the next registration starts them again.
pub register-result :
    (r : Registry) (made : Created) (c : ℕ)
    → ((register_client r made c).0 ≡ true → contains (register_client r made c).1.clients c ≡ true)
      × ((register_client r made c).0 ≡ false
          → ((register_client r made c).1.clients ≡ [])
            × ((register_client r made c).1.launched ≡ false))
unfolding register_client
register-result r made c = ground (
  arith,
  start_threads-launched r made,
  contains-add_client r.clients c,
  contains-add_client (start_threads r made).1.clients c,
  nil_of_length r.clients,
)

-- The registrations of encoders, and the registrations and the ends of clients, in their order.
pub data Op : Type 0 where
  add_vencoder : (proc arg : ℕ) → Op
  add_aencoder : (proc arg : ℕ) → Op
  enter : Created → ℕ → Op
  leave : ℕ → ℕ → Op

unfoldable pub run : Registry → List Op → Registry
run r [] = r
run r (add_vencoder proc arg ∷ ops) = run (register_vencoder r proc arg) ops
run r (add_aencoder proc arg ∷ ops) = run (register_aencoder r proc arg) ops
run r (enter made c ∷ ops) = run (register_client r made c).1 ops
run r (leave n c ∷ ops) = run (unregister_client r n c).1 ops

take-set :
    {A : Type 0} (n : ℕ) (xs : List A) (a : A)
    → n < length xs
    → take (suc n) (set xs n a) ≡ take n xs ++ (a ∷ [])
take-set n [] a h = absurd (omega arith)
take-set zero (x ∷ xs) a h = refl
take-set (suc n) (x ∷ xs) a h = ap (◌∷◌ x) (take-set n xs a (omega arith))

length-set : {A : Type 0} (n : ℕ) (xs : List A) (a : A) → length (set xs n a) ≡ length xs
length-set n [] a = refl
length-set zero (x ∷ xs) a = refl
length-set (suc n) (x ∷ xs) a = ap suc (length-set n xs a)

start_video-ids :
    (es : List (ℕ × ℕ)) (answers : List (Option ℕ)) (n : ℕ) (ids : List (Option ℕ))
    → (start_video es answers n ids).0 ≡ true
    → n + length es ≤ length ids
    → take (n + length es) (start_video es answers n ids).1 ≡ take n ids ++ take (length es) answers
unfolding start_video
start_video-ids [] answers n ids ok h =
    let e : n + 0 ≡ n = omega arith in ap (λ k. take k ids) e ∙ sym (append_nil (take n ids))
start_video-ids (x ∷ es) [] n ids ok h = cc
start_video-ids (x ∷ es) (none ∷ answers) n ids ok h = cc
start_video-ids (x ∷ es) (some t ∷ answers) n ids ok h =
    let e : n + suc (length es) ≡ suc n + length es = omega arith in
    let l : suc n + length es ≤ length (set ids n (some t)) =
      omega (arith, length-set n ids (some t)) in
    ap (λ k. take k (start_video es answers (suc n) (set ids n (some t))).1) e
    ∙ start_video-ids es answers (suc n) (set ids n (some t)) ok l
    ∙ ap (λ l. l ++ take (length es) answers) (take-set n ids (some t) (omega arith))
    ∙ append_assoc (take n ids) (some t ∷ []) (take (length es) answers)

erase-add : (c : ℕ) → erase_client (add_client [] c) c ≡ []
unfolding erase_client add_client
erase-add c = ground arith

start_audio-id :
    (e : ℕ × ℕ) (es : List (ℕ × ℕ)) (answer old : Option ℕ)
    → (start_audio (e ∷ es) answer old).0 ≡ true
    → (start_audio (e ∷ es) answer old).1 ≡ answer
unfolding start_audio
start_audio-id e es none old ok = cc
start_audio-id e es (some t) old ok = refl

start_threads-ids :
    (r : Registry) (made : Created) (e : ℕ × ℕ) (es : List (ℕ × ℕ))
    → r.aencoder ≡ e ∷ es
    → length r.vencoder ≤ length r.vethread
    → (start_threads r made).0 ≡ true
    → (take (length r.vencoder) (start_threads r made).1.vethread
        ≡ take (length r.vencoder) made.video)
      × ((start_threads r made).1.aethread ≡ made.audio)
unfolding start_threads
start_threads-ids r made e es one h ok = ground (
  arith,
  start_video-ids r.vencoder made.video 0 r.vethread,
  start_audio-id e es made.audio r.aethread,
)

-- The threads that the first client's registration starts are the ones that are joined, video
-- channels in order and then audio, when that client ends as the only one: given an encoder for
-- each video channel and one for audio, and that all threads start.
pub joins_started :
    (r : Registry) (made : Created) (c : ℕ) (e : ℕ × ℕ) (es : List (ℕ × ℕ))
    → r.clients ≡ []
    → r.aencoder ≡ e ∷ es
    → length r.vencoder ≤ length r.vethread
    → (register_client r made c).0 ≡ true
    → (unregister_client (register_client r made c).1 (length r.vencoder) c).0
      ≡ take (length r.vencoder) made.video ++ (made.audio ∷ [])
unfolding register_client unregister_client
joins_started r made c e es none_yet one h ok =
    ground (arith, start_threads-ids r made e es one h, erase-add c, start_threads-launched r made)
