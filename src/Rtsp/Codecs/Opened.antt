-- ===== src/Rtsp/Codecs/Opened.antt =====
-- What per_client_init makes, and that per_client_deinit gives it back.
use gaminganywhere.Base.{
  ℕ, zero, suc, ◌+◌, ◌<◌, ◌==◌, ◌≡◌, ◌&&◌, refl, sym, ap, ◌∙◌, arith, Bool, true, false,
  if◌then◌else◌, List, [], ◌∷◌, ◌++◌, Option, none, some, map, append_assoc, replicate,
  length-replicate, ◌-◌,
}
use mathlib.Core.Path.{subst, ap₂}
use gaminganywhere.Pipeline.Pool.Chains.{NotIn, Distinct}
use gaminganywhere.Rtsp.Server.{udp, channel_max}
use gaminganywhere.Rtsp.Codecs.{
  context_freed, Heap, Slot, Connection, InitAnswers, add_stream, add_context, encoder_init,
  init_stream, init_streams, per_client_init, per_client_deinit,
}
use gaminganywhere.Rtsp.Codecs.Sdp.{SdpStream, sdp_ids, sdp_events, HasCodecs, HasSdp}
use gaminganywhere.Rtsp.Codecs.Freed.{
  Place, unused, slot_of, place_ids, place_events, HasOutputs, rbuffer_events, deinit-log,
}

-- The streams for `n` channels and the sound, from address `p` on.
pub made : ℕ → ℕ → List SdpStream
made zero p = record { sdp_stream = p; sdp_codec = p + 1 } ∷ []
made (suc n) p = record { sdp_stream = p; sdp_codec = p + 1 } ∷ made n (p + 2)

-- From `h` to `h'` these streams were added to context `f`.
record Adds (f : ℕ) (h h' : Heap) (xs : List SdpStream) : Type 0 where
  pub ids : h'.streams f ≡ h.streams f ++ sdp_ids xs
  pub codecs : HasCodecs h' xs
  pub pb : h'.pb f ≡ h.pb f
  pub log : h'.log ≡ h.log
  pub old : (x : ℕ) → x < h.next → h'.codec x ≡ h.codec x

-- A test that leads to a success is true.
goes_on {ℓ} :
    {A : Type ℓ} (b : Bool) (x y : Bool × A)
    → y.0 ≡ false
    → (if b then x else y).0 ≡ true
    → b ≡ true
goes_on true x y failed good = refl
goes_on false x y failed good = sym failed ∙ good

opened_lem :
    (b : Bool) (c : ℕ) (h : Heap) → (encoder_init b c h).0 ≡ true → (encoder_init b c h).1 ≡ h
opened_lem true c h good = refl
opened_lem false c h good = cc

init_stream-true :
    (av : InitAnswers) (f i : ℕ) (h : Heap)
    → (init_stream av f i h).0 ≡ true
    → (init_stream av f i h).1 ≡ add_stream f h
init_stream-true av f i h good =
    let added : Bool × Heap = encoder_init (av.open_codec i) (h.next + 1) (add_stream f h) in
    let new : av.new_stream i ≡ true = goes_on (av.new_stream i) added (false, h) refl good in
    let same : init_stream av f i h ≡ added = ap (λ b. if b then added else (false, h)) new in
    ap (λ (r : Bool × Heap). r.1) same
    ∙ opened_lem (av.open_codec i) (h.next + 1) (add_stream f h)
        (sym (ap (λ (r : Bool × Heap). r.0) same) ∙ good)

add_stream-Adds :
    (f : ℕ) (h : Heap)
    → Adds f h (add_stream f h) (record { sdp_stream = h.next; sdp_codec = h.next + 1 } ∷ [])
add_stream-Adds f h = record {
  ids = let same : (f == f) ≡ true = ground arith in rw same refl;
  codecs = (let same : (h.next == h.next) ≡ true = ground arith in rw same refl, tt);
  pb = refl;
  log = refl;
  old = λ x below. let other : (x == h.next) ≡ false = ground arith in rw other refl;
}

Adds-next :
    {f : ℕ} {h h' : Heap} {xs : List SdpStream}
    → Adds f (add_stream f h) h' xs
    → Adds f h h' (record { sdp_stream = h.next; sdp_codec = h.next + 1 } ∷ xs)
Adds-next {f} {h} {h'} {xs} a =
    let b = add_stream-Adds f h in
    record {
      ids =
          a.ids
          ∙ ap (λ l. l ++ sdp_ids xs) b.ids
          ∙ append_assoc (h.streams f) (h.next ∷ []) (sdp_ids xs);
      codecs = (a.old h.next (omega arith) ∙ b.codecs.0, a.codecs);
      pb = a.pb;
      log = a.log;
      old = λ x below. a.old x (omega arith) ∙ b.old x below;
    }

init_streams-Adds :
    (av : InitAnswers) (f n i : ℕ) (h : Heap)
    → (init_streams av f n i h).0 ≡ true
    → Adds f h (init_streams av f n i h).1 (made n h.next)
unfolding init_streams made
init_streams-Adds av f zero i h good =
    subst (λ (k : Heap). Adds f h k (record { sdp_stream = h.next; sdp_codec = h.next + 1 } ∷ []))
      (sym (init_stream-true av f i h good)) (add_stream-Adds f h)
init_streams-Adds av f (suc n) i h good =
    let r = init_stream av f i h in
    let rest : Bool × Heap = init_streams av f n (suc i) r.1 in
    let first : r.0 ≡ true = goes_on r.0 rest (false, r.1) refl good in
    let same : init_streams av f (suc n) i h ≡ rest =
      ap (λ b. if b then rest else (false, r.1)) first in
    let good' : rest.0 ≡ true = sym (ap (λ (p : Bool × Heap). p.0) same) ∙ good in
    let added = init_stream-true av f i h first in
    subst (λ (p : Bool × Heap). Adds f h p.1 (made (suc n) h.next)) (sym same)
      (Adds-next {f = f} {h = h} (
        subst (λ (k : Heap). Adds f k rest.1 (made n k.next)) added
          (init_streams-Adds av f n (suc i) r.1 good')))

made-NotIn : (n p x : ℕ) → x < p → NotIn x (sdp_ids (made n p))
unfolding made
made-NotIn zero p x below = ((λ e. omega (arith, e)), tt)
made-NotIn (suc n) p x below = ((λ e. omega (arith, e)), made-NotIn n (p + 2) x (omega arith))

made-Distinct : (n p : ℕ) → Distinct (sdp_ids (made n p))
unfolding made
made-Distinct zero p = (tt, tt)
made-Distinct (suc n) p = (made-NotIn n (p + 2) p (omega arith), made-Distinct n (p + 2))

init-HasSdp :
    (av : InitAnswers) (channels : ℕ) (h : Heap)
    → (per_client_init av channels h).0 ≡ true
    → ((per_client_init av channels h).1.0 ≡ some h.next)
      × (HasSdp (per_client_init av channels h).1.1 h.next (made channels (h.next + 1))
          × ((per_client_init av channels h).1.1.log ≡ h.log))
unfolding per_client_init
init-HasSdp av channels h good =
    let r = init_streams av h.next channels 0 (add_context h) in
    let opened : Bool × (Option ℕ × Heap) = (r.0, (some h.next, r.1)) in
    let asked : (av.format && av.context) ≡ true =
      goes_on (av.format && av.context) opened (false, (none, h)) refl good in
    let same : per_client_init av channels h ≡ opened =
      ap (λ b. if b then opened else (false, (none, h))) asked in
    let a =
      init_streams-Adds av h.next channels 0 (add_context h)
        (sym (ap (λ (p : Bool × (Option ℕ × Heap)). p.0) same) ∙ good) in
    let self : (h.next == h.next) ≡ true = ground arith in
    subst
      (λ (p : Bool × (Option ℕ × Heap)).
        (p.1.0 ≡ some h.next)
        × (HasSdp p.1.1 h.next (made channels (h.next + 1)) × (p.1.1.log ≡ h.log)))
      (sym same) (refl, ((a.ids ∙ rw self refl, (a.pb ∙ rw self refl, a.codecs)), a.log))

abbrev empty_slot : Slot
empty_slot = slot_of (unused udp)

-- A context of rtspserver behind bzero and per_client_init, with no SETUP: the first
-- call of rtsp_getnext allocates the read buffer, and the calls move its two ends.
abbrev pub connected : Option ℕ → Bool → (head tail size : ℕ) → Connection
connected sdp buffer head tail size = record {
  slots = replicate channel_max empty_slot;
  sdp_fmtctx = sdp;
  rbuffer = buffer;
  rbufhead = head;
  rbuftail = tail;
  rbufsize = size;
}

replicate-split :
    (n m : ℕ)
    → replicate (n + m) empty_slot
      ≡ map slot_of (replicate n (unused udp)) ++ replicate m empty_slot
replicate-split zero m = ap (λ k. replicate k empty_slot) (omega arith)
replicate-split (suc n) m =
    let e : suc n + m ≡ suc (n + m) = omega arith in
    ap (λ k. replicate k empty_slot) e ∙ ap (λ l. empty_slot ∷ l) (replicate-split n m)

unused-ids : (n : ℕ) → place_ids (replicate n (unused udp)) ≡ []
unused-ids zero = refl
unused-ids (suc n) = unused-ids n

unused-events : (pb : ℕ → Bool) (n : ℕ) → place_events pb (replicate n (unused udp)) ≡ []
unused-events pb zero = refl
unused-events pb (suc n) = unused-events pb n

unused-HasOutputs : (h : Heap) (n : ℕ) → HasOutputs h (replicate n (unused udp))
unused-HasOutputs h zero = tt
unused-HasOutputs h (suc n) = unused-HasOutputs h n

-- A connection that ends with no SETUP, whether or not it read a request, where
-- per_client_init succeeded for fewer than 8 channels: per_client_deinit closes and frees the codec
-- and frees the stream of every channel and of the sound, frees the context, and frees the read
-- buffer where there is one, each once, and does nothing else; it sets the buffer's size and ends to 0.
pub init-deinit :
    (av : InitAnswers) (channels : ℕ) (h : Heap) (buffer : Bool) (head tail size : ℕ)
    → (per_client_init av channels h).0 ≡ true
    → channels < channel_max
    → (h' : Heap) × ((per_client_deinit channels
            (connected (per_client_init av channels h).1.0 buffer head tail size)
            (per_client_init av channels h).1.1
          ≡ some (connected (per_client_init av channels h).1.0 buffer 0 0 0, h'))
        × (h'.log
            ≡ h.log
              ++ ((sdp_events (made channels (h.next + 1)) ++ (context_freed h.next ∷ []))
                  ++ rbuffer_events buffer)))
init-deinit av channels h buffer head tail size good inside =
    let (sdp, (has, log)) = init-HasSdp av channels h good in
    let h1 = (per_client_init av channels h).1.1 in
    let ps : List Place = replicate (channels + 1) (unused udp) in
    let xs = made channels (h.next + 1) in
    let all : channel_max ≡ channels + 1 + (7 - channels) = omega arith in
    let (h', (ended, logged)) =
      deinit-log channels h1 (connected (per_client_init av channels h).1.0 buffer head tail size)
        ps h.next xs (length-replicate (channels + 1) (unused udp))
        (record {
          rest = replicate (7 - channels) empty_slot;
          slots =
              ap (λ k. replicate k empty_slot) all ∙ replicate-split (channels + 1) (7 - channels);
          sdp = sdp;
          outputs = unused-HasOutputs h1 (channels + 1);
          described = has;
          distinct = rw (unused-ids (channels + 1)) (made-Distinct channels (h.next + 1));
        }) in
    (
      h',
      (
        ended,
        logged
            ∙ ap₂ ◌++◌ log (
                ap
                  (λ l.
                    l ++ ((sdp_events xs ++ (context_freed h.next ∷ [])) ++ rbuffer_events buffer))
                  (unused-events h1.pb (channels + 1))),
      ),
    )
