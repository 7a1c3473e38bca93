-- ===== src/Rtsp/Codecs/Sdp.antt =====
-- `close_av` on the context for the description.
use gaminganywhere.Base.{
  ℕ, ◌≡◌, refl, sym, ap, ◌∙◌, Bool, false, List, [], ◌∷◌, ◌++◌, none, some, append_nil,
}
use mathlib.Core.Path.{subst}
use gaminganywhere.Pipeline.Pool.Chains.{NotIn, Distinct}
use gaminganywhere.Rtsp.Server.{udp, same_transport}
use gaminganywhere.Rtsp.Codecs.{
  Event, codec_closed, codec_freed, stream_freed, context_freed, Heap, note, Closing, close_next,
  set_codec, close_streams, close_pb, free_left, close_av,
}
use gaminganywhere.Rtsp.Codecs.Given.{Gives, Gives-then, note-Gives, set_codec-Gives}

-- A stream of the context for the description, with its codec.
pub record SdpStream : Type 0 where
  pub sdp_stream : ℕ
  pub sdp_codec : ℕ

abbrev pub sdp_ids : List SdpStream → List ℕ
sdp_ids [] = []
sdp_ids (x ∷ xs) = x.sdp_stream ∷ sdp_ids xs

pub sdp_events : List SdpStream → List Event
sdp_events [] = []
sdp_events (x ∷ xs) =
    codec_closed x.sdp_codec ∷ codec_freed x.sdp_codec ∷ stream_freed x.sdp_stream ∷ sdp_events xs

abbrev pub HasCodecs : Heap → List SdpStream → Type 0
HasCodecs h [] = Unit
HasCodecs h (x ∷ xs) = (h.codec x.sdp_stream ≡ some x.sdp_codec) × HasCodecs h xs

-- None of these streams lost its codec.
abbrev pub Apart : List ℕ → List ℕ → Type 0
Apart lost [] = Unit
Apart lost (s ∷ ss) = NotIn s lost × Apart lost ss

pub Apart-one : (s : ℕ) (ss : List ℕ) → NotIn s ss → Apart (s ∷ []) ss
Apart-one s [] n = tt
Apart-one s (x ∷ xs) n = (((λ e. n.0 (sym e)), tt), Apart-one s xs n.1)

pub HasCodecs-Gives :
    {h h' : Heap} {lost : List ℕ} {es : List Event} (xs : List SdpStream)
    → Gives h h' lost es
    → Apart lost (sdp_ids xs)
    → HasCodecs h xs
    → HasCodecs h' xs
HasCodecs-Gives [] g apart has = tt
HasCodecs-Gives (x ∷ xs) g apart has =
    (g.codec x.sdp_stream apart.0 ∙ has.0, HasCodecs-Gives xs g apart.1 has.1)

next-Gives :
    (h : Heap) (x : SdpStream)
    → Gives h
        (close_next
          (record { heap = h; st = none; cctx = none })
          x.sdp_stream
          (some x.sdp_codec)).heap
        (x.sdp_stream ∷ [])
        (codec_closed x.sdp_codec ∷ codec_freed x.sdp_codec ∷ stream_freed x.sdp_stream ∷ [])
next-Gives h x =
    let h1 = note (codec_closed x.sdp_codec) h in
    let h2 = note (codec_freed x.sdp_codec) h1 in
    let h3 = set_codec x.sdp_stream none h2 in
    Gives-then (note-Gives h (codec_closed x.sdp_codec)) (
      Gives-then (note-Gives h1 (codec_freed x.sdp_codec))
        (Gives-then (set_codec-Gives h2 x.sdp_stream) (note-Gives h3 (stream_freed x.sdp_stream))))

close_streams-sdp :
    (h : Heap) (xs : List SdpStream)
    → HasCodecs h xs
    → Distinct (sdp_ids xs)
    → (h' : Heap) × ((close_streams (record { heap = h; st = none; cctx = none }) (sdp_ids xs)
          ≡ record { heap = h'; st = none; cctx = none })
        × Gives h h' (sdp_ids xs) (sdp_events xs))
unfolding close_streams sdp_events
close_streams-sdp h [] has d = (
  h,
  (refl, record { log = sym (append_nil h.log); streams = refl; pb = refl; codec = λ x n. refl }),
)
close_streams-sdp h (x ∷ xs) has d =
    let g = next-Gives h x in
    let h1 =
      (close_next (record { heap = h; st = none; cctx = none }) x.sdp_stream
        (some x.sdp_codec)).heap in
    let r =
      close_streams-sdp h1 xs (HasCodecs-Gives xs g (Apart-one x.sdp_stream (sdp_ids xs) d.0) has.1)
        d.1 in
    (
      r.0,
      (
        ap
              (λ held.
                close_streams
                  (close_next (record { heap = h; st = none; cctx = none }) x.sdp_stream held)
                  (sdp_ids xs))
              has.0
            ∙ r.1.0,
        Gives-then g r.1.1,
      ),
    )

-- Is this the context that per_client_init makes?
abbrev pub HasSdp : Heap → ℕ → List SdpStream → Type 0
HasSdp h f xs = (h.streams f ≡ sdp_ids xs) × ((h.pb f ≡ false) × HasCodecs h xs)

close_pb-none : (h : Heap) (f : ℕ) → h.pb f ≡ false → close_pb f udp h ≡ h
unfolding same_transport
close_pb-none h f shut = rw shut refl

pub close_av-sdp :
    (h : Heap) (f : ℕ) (xs : List SdpStream)
    → HasSdp h f xs
    → Distinct (sdp_ids xs)
    → Gives h
        (close_av (some f) none none udp h)
        (sdp_ids xs)
        (sdp_events xs ++ (context_freed f ∷ []))
unfolding close_av
close_av-sdp h f xs has d =
    let (h', (closed, g)) = close_streams-sdp h xs has.1.1 d in
    let shut : h'.pb f ≡ false = ap (λ (pb : ℕ → Bool). pb f) g.pb ∙ has.1.0 in
    subst (λ (k : Heap). Gives h k (sdp_ids xs) (sdp_events xs ++ (context_freed f ∷ [])))
      (sym (
        ap
          (λ ss. free_left (
            let c' = close_streams (record { heap = h; st = none; cctx = none }) ss in
            record c' { heap = note (context_freed f) (close_pb f udp c'.heap) }))
          has.0
        ∙ ap
            (λ (c' : Closing).
              free_left (record c' { heap = note (context_freed f) (close_pb f udp c'.heap) }))
            closed))
      (subst
        (λ (k : Heap).
          Gives h (note (context_freed f) k) (sdp_ids xs) (sdp_events xs ++ (context_freed f ∷ [])))
        (sym (close_pb-none h' f shut))
        (subst
          (λ lost.
            Gives h (note (context_freed f) h') lost (sdp_events xs ++ (context_freed f ∷ [])))
          (append_nil (sdp_ids xs)) (Gives-then g (note-Gives h' (context_freed f)))))
