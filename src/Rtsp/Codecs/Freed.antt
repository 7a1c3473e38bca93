-- ===== src/Rtsp/Codecs/Freed.antt =====
-- What the end of a connection gives back.
use gaminganywhere.Base.{
  ℕ, ◌+◌, ◌≡◌, refl, sym, ap, ◌∙◌, Bool, true, false, List, [], ◌∷◌, ◌++◌, none, some, map, length,
  append_assoc, append_nil,
}
use mathlib.Core.Path.{subst, ap₂}
use gaminganywhere.Pipeline.Pool.Chains.{Distinct, NotIn-split, Distinct-split, Distinct-remove}
use gaminganywhere.Rtsp.Server.{LowerTransport, udp}
use gaminganywhere.Rtsp.Codecs.{
  Event, context_freed, rbuffer_freed, Heap, close_av, Slot, Connection, close_slot, close_slots,
  free_rbuffer, deinit_rest, deinit_with, per_client_deinit,
}
use gaminganywhere.Rtsp.Codecs.Given.{
  Output, HasOutput, output_events, Gives, Gives-then, close_av-Gives, close_av-nothing, note-Gives,
}
use gaminganywhere.Rtsp.Codecs.Sdp.{
  SdpStream, sdp_ids, sdp_events, HasCodecs-Gives, HasSdp, Apart, Apart-one, close_av-sdp,
}

-- An index of the arrays, with an output or without.
pub data Place : Type 0 where
  unused : LowerTransport → Place
  set_up : LowerTransport → Output → Place

abbrev pub slot_of : Place → Slot
slot_of (unused t) = record { fmtctx = none; stream = none; encoder = none; lower_transport = t }
slot_of (set_up t o) = record {
  fmtctx = some o.context;
  stream = some o.stream;
  encoder = some o.codec;
  lower_transport = t;
}

abbrev pub place_ids : List Place → List ℕ
place_ids [] = []
place_ids (unused t ∷ ps) = place_ids ps
place_ids (set_up t o ∷ ps) = o.stream ∷ place_ids ps

abbrev pub place_events : (ℕ → Bool) → List Place → List Event
place_events pb [] = []
place_events pb (unused t ∷ ps) = place_events pb ps
place_events pb (set_up t o ∷ ps) = output_events pb t o ++ place_events pb ps

abbrev pub HasOutputs : Heap → List Place → Type 0
HasOutputs h [] = Unit
HasOutputs h (unused t ∷ ps) = HasOutputs h ps
HasOutputs h (set_up t o ∷ ps) = HasOutput h o × HasOutputs h ps

HasOutputs-Gives :
    {h h' : Heap} {lost : List ℕ} {es : List Event} (ps : List Place)
    → Gives h h' lost es
    → Apart lost (place_ids ps)
    → HasOutputs h ps
    → HasOutputs h' ps
HasOutputs-Gives [] g apart has = tt
HasOutputs-Gives (unused t ∷ ps) g apart has = HasOutputs-Gives ps g apart has
HasOutputs-Gives (set_up t o ∷ ps) g apart has = (
  (g.codec o.stream apart.0 ∙ has.0.0, ap (λ (s : ℕ → List ℕ). s o.context) g.streams ∙ has.0.1),
  HasOutputs-Gives ps g apart.1 has.1,
)

-- The loop takes each place once, where there are as many as rounds.
close_slots-Gives :
    (h : Heap) (ps : List Place) (rest : List Slot)
    → HasOutputs h ps
    → Distinct (place_ids ps)
    → (h' : Heap) × ((close_slots (length ps) (map slot_of ps ++ rest) h ≡ some h')
        × Gives h h' (place_ids ps) (place_events h.pb ps))
unfolding close_slots
close_slots-Gives h [] rest has d = (
  h,
  (refl, record { log = sym (append_nil h.log); streams = refl; pb = refl; codec = λ x n. refl }),
)
close_slots-Gives h (unused t ∷ ps) rest has d =
    let (h', (closed, g)) = close_slots-Gives h ps rest has d in
    (
      h',
      (
        ap (λ (k : Heap). close_slots (length ps) (map slot_of ps ++ rest) k) (close_av-nothing h t)
            ∙ closed,
        g,
      ),
    )
close_slots-Gives h (set_up t o ∷ ps) rest has d =
    let g = close_av-Gives h o t has.0 in
    let h1 = close_slot (slot_of (set_up t o)) h in
    let (h', (closed, g')) =
      close_slots-Gives h1 ps rest
        (HasOutputs-Gives ps g (Apart-one o.stream (place_ids ps) d.0) has.1) d.1 in
    (
      h',
      (
        closed,
        subst
            (λ pb.
              Gives h h' (o.stream ∷ place_ids ps) (output_events h.pb t o ++ place_events pb ps))
            g.pb (Gives-then g g'),
      ),
    )

Apart-Distinct : (xs ys : List ℕ) → Distinct (xs ++ ys) → Apart xs ys
Apart-Distinct xs [] d = tt
Apart-Distinct xs (y ∷ ys) d =
    let r = Distinct-remove xs y ys d in ((NotIn-split y xs ys r.1).0, Apart-Distinct xs ys r.0)

-- What a connection holds: places for every channel and the sound, and the context for the description.
pub record Holds (h : Heap) (c : Connection) (ps : List Place) (f : ℕ) (xs : List SdpStream)
    : Type 0 where
  pub rest : List Slot
  pub slots : c.slots ≡ map slot_of ps ++ rest
  pub sdp : c.sdp_fmtctx ≡ some f
  pub outputs : HasOutputs h ps
  pub described : HasSdp h f xs
  pub distinct : Distinct (place_ids ps ++ sdp_ids xs)

abbrev pub rbuffer_events : Bool → List Event
rbuffer_events true = rbuffer_freed ∷ []
rbuffer_events false = []

free_rbuffer-Gives : (h : Heap) (b : Bool) → Gives h (free_rbuffer b h) [] (rbuffer_events b)
free_rbuffer-Gives h true = note-Gives h rbuffer_freed
free_rbuffer-Gives h false = record {
  log = sym (append_nil h.log);
  streams = refl;
  pb = refl;
  codec = λ x n. refl;
}

rest-log :
    (h : Heap) (c : Connection) (f : ℕ) (xs : List SdpStream)
    → c.sdp_fmtctx ≡ some f
    → HasSdp h f xs
    → Distinct (sdp_ids xs)
    → (deinit_rest c h).1.log
      ≡ h.log ++ ((sdp_events xs ++ (context_freed f ∷ [])) ++ rbuffer_events c.rbuffer)
rest-log h c f xs sdp has d =
    ap (λ p. (free_rbuffer c.rbuffer (close_av p none none udp h)).log) sdp
    ∙ (Gives-then (close_av-sdp h f xs has d) (free_rbuffer-Gives _ c.rbuffer)).log

HasSdp-Gives :
    {h h' : Heap} {lost : List ℕ} {es : List Event} (f : ℕ) (xs : List SdpStream)
    → Gives h h' lost es
    → Apart lost (sdp_ids xs)
    → HasSdp h f xs
    → HasSdp h' f xs
HasSdp-Gives f xs g apart has = (
  ap (λ (s : ℕ → List ℕ). s f) g.streams ∙ has.0,
  (ap (λ (b : ℕ → Bool). b f) g.pb ∙ has.1.0, HasCodecs-Gives xs g apart has.1.1),
)

-- What is left of a connection.
abbrev pub ended_connection : Connection → Connection
ended_connection c = record c { rbufsize = 0; rbufhead = 0; rbuftail = 0 }

pub deinit-log :
    (channels : ℕ) (h : Heap) (c : Connection) (ps : List Place) (f : ℕ) (xs : List SdpStream)
    → length ps ≡ channels + 1
    → Holds h c ps f xs
    → (h' : Heap) × ((per_client_deinit channels c h ≡ some (ended_connection c, h'))
        × (h'.log
            ≡ h.log
              ++ (place_events h.pb ps
                  ++ ((sdp_events xs ++ (context_freed f ∷ [])) ++ rbuffer_events c.rbuffer))))
unfolding per_client_deinit
deinit-log channels h c ps f xs count k =
    let d = Distinct-split (place_ids ps) (sdp_ids xs) k.distinct in
    let (h', (closed, g)) = close_slots-Gives h ps k.rest k.outputs d.0 in
    let has =
      HasSdp-Gives f xs g (Apart-Distinct (place_ids ps) (sdp_ids xs) k.distinct) k.described in
    let loop : close_slots (channels + 1) c.slots h ≡ some h' =
      ap₂ (λ n slots. close_slots n slots h) (sym count) k.slots ∙ closed in
    (
      (deinit_rest c h').1,
      (
        ap (deinit_with c) loop,
        rest-log h' c f xs k.sdp has d.1
            ∙ ap (λ l. l ++ ((sdp_events xs ++ (context_freed f ∷ [])) ++ rbuffer_events c.rbuffer))
                g.log
            ∙ append_assoc h.log (place_events h.pb ps) _,
      ),
    )

-- per_client_deinit on a connection that holds a place for each channel and the sound, inside the
-- arrays, each unused or with the output stream that a SETUP made, and the context for the
-- description: it closes and frees the codec of each output, frees its stream and its context and
-- closes the `pb` of a context over UDP; then it closes and frees the codec of each stream of the
-- description, and frees the stream, then the context, and the read buffer where there is one. These
-- are all its calls, in this order, where no two of the streams are the same.
pub per_client_deinit-freed :
    (channels : ℕ) (h : Heap) (c : Connection) (ps : List Place) (f : ℕ) (xs : List SdpStream)
    → length ps ≡ channels + 1
    → Holds h c ps f xs
    → (c' : Connection) × ((h' : Heap) × ((per_client_deinit channels c h ≡ some (c', h'))
          × (h'.log
              ≡ h.log
                ++ (place_events h.pb ps
                    ++ ((sdp_events xs ++ (context_freed f ∷ [])) ++ rbuffer_events c.rbuffer)))))
per_client_deinit-freed channels h c ps f xs count k =
    (ended_connection c, deinit-log channels h c ps f xs count k)
