-- ===== src/Rtsp/Codecs/Given.antt =====
-- `close_av` on an output stream, and what a call gives back.
use gaminganywhere.Base.{
  ℕ, ◌≡◌, refl, sym, ap, ◌∙◌, arith, ◌==◌, if◌then◌else◌, ◌&&◌, Bool, true, false, List, [], ◌∷◌,
  ◌++◌, none, some, append_assoc, append_nil, Bool-cases, inl, inr,
}
use mathlib.Core.Path.{subst}
use gaminganywhere.Pipeline.Pool.Chains.{NotIn, NotIn-split}
use gaminganywhere.Rtsp.Server.{LowerTransport, udp, same_transport}
use gaminganywhere.Rtsp.Codecs.{
  Event, codec_closed, codec_freed, stream_freed, pb_closed, context_freed, Heap, note, Closing,
  set_codec, ga_avcodec_close, close_stream_codec, close_streams, close_pb, close_context,
  free_left, close_av,
}

-- An output stream as a SETUP makes it: a context with one stream, and its codec.
pub record Output : Type 0 where
  pub context : ℕ
  pub stream : ℕ
  pub codec : ℕ

-- From `h` to `h'` the calls `events` were made, and no stream but these lost its codec.
pub record Gives (h h' : Heap) (lost : List ℕ) (events : List Event) : Type 0 where
  pub log : h'.log ≡ h.log ++ events
  pub streams : h'.streams ≡ h.streams
  pub pb : h'.pb ≡ h.pb
  pub codec : (x : ℕ) → NotIn x lost → h'.codec x ≡ h.codec x

pub Gives-then :
    {h h' h'' : Heap} {ss ts : List ℕ} {es fs : List Event}
    → Gives h h' ss es
    → Gives h' h'' ts fs
    → Gives h h'' (ss ++ ts) (es ++ fs)
Gives-then {h} {h'} {h''} {ss} {ts} {es} {fs} g g' = record {
  log = g'.log ∙ ap (λ l. l ++ fs) g.log ∙ append_assoc h.log es fs;
  streams = g'.streams ∙ g.streams;
  pb = g'.pb ∙ g.pb;
  codec = λ x n. g'.codec x (NotIn-split x ss ts n).1 ∙ g.codec x (NotIn-split x ss ts n).0;
}

pub equal : (n : ℕ) → (n == n) ≡ true
equal n = ground arith

pub pb_events : (ℕ → Bool) → LowerTransport → ℕ → List Event
pb_events pb t f = if same_transport t udp && pb f then pb_closed f ∷ [] else []

pub output_events : (ℕ → Bool) → LowerTransport → Output → List Event
output_events pb t o =
    codec_closed o.codec
    ∷ stream_freed o.stream
    ∷ (pb_events pb t o.context ++ (context_freed o.context ∷ codec_freed o.codec ∷ []))

-- Does the heap have the output as its SETUP left it?
abbrev pub HasOutput : Heap → Output → Type 0
HasOutput h o = (h.codec o.stream ≡ some o.codec) × (h.streams o.context ≡ o.stream ∷ [])

abbrev after_streams : Heap → Output → Heap
after_streams h o =
    note (stream_freed o.stream)
      (set_codec o.stream none (set_codec o.stream none (note (codec_closed o.codec) h)))

close_held-output :
    (h : Heap) (o : Output)
    → HasOutput h o
    → close_stream_codec (some o.codec) (some o.stream) (ga_avcodec_close (some o.codec) h)
      ≡ set_codec o.stream none (note (codec_closed o.codec) h)
close_held-output h o has = rw (has.0, equal o.codec) refl

close_streams-output :
    (h : Heap) (o : Output)
    → h.codec o.stream ≡ none
    → close_streams (record { heap = h; st = some o.stream; cctx = some o.codec }) (o.stream ∷ [])
      ≡ record {
        heap = note (stream_freed o.stream) (set_codec o.stream none h);
        st = none;
        cctx = some o.codec;
      }
unfolding close_streams
close_streams-output h o empty = rw (empty, equal o.stream) refl

abbrev close_rest : ℕ → LowerTransport → Closing → Heap
close_rest f t c = free_left (record c { heap = note (context_freed f) (close_pb f t c.heap) })

close_av-output :
    (h : Heap) (o : Output) (t : LowerTransport)
    → HasOutput h o
    → close_av (some o.context) (some o.stream) (some o.codec) t h
      ≡ note
          (codec_freed o.codec)
          (note (context_freed o.context) (close_pb o.context t (after_streams h o)))
unfolding close_av
close_av-output h o t has =
    let h1 = set_codec o.stream none (note (codec_closed o.codec) h) in
    let empty : h1.codec o.stream ≡ none = rw (equal o.stream) refl in
    ap
      (λ (g : Heap). free_left (
        close_context (some o.context) t
          (record { heap = g; st = some o.stream; cctx = some o.codec })))
      (close_held-output h o has)
    ∙ ap
        (λ ss.
          close_rest o.context t
            (close_streams (record { heap = h1; st = some o.stream; cctx = some o.codec }) ss))
        has.1
    ∙ ap (close_rest o.context t) (close_streams-output h1 o empty)

close_pb-Gives :
    (h : Heap) (t : LowerTransport) (f : ℕ) → Gives h (close_pb f t h) [] (pb_events h.pb t f)
unfolding pb_events
close_pb-Gives h t f = elim (Bool-cases (same_transport t udp && h.pb f)) [
  | inl shown ↦ rw shown (record { log = refl; streams = refl; pb = refl; codec = λ x n. refl })
  | inr shut ↦
      rw shut
        (record { log = sym (append_nil h.log); streams = refl; pb = refl; codec = λ x n. refl })
]

pub note-Gives : (h : Heap) (e : Event) → Gives h (note e h) [] (e ∷ [])
note-Gives h e = record { log = refl; streams = refl; pb = refl; codec = λ x n. refl }

pub set_codec-Gives : (h : Heap) (s : ℕ) → Gives h (set_codec s none h) (s ∷ []) []
set_codec-Gives h s = record {
  log = sym (append_nil h.log);
  streams = refl;
  pb = refl;
  codec = λ x n. let other : (x == s) ≡ false = ground (arith, n.0) in rw other refl;
}

pub close_av-Gives :
    (h : Heap) (o : Output) (t : LowerTransport)
    → HasOutput h o
    → Gives h
        (close_av (some o.context) (some o.stream) (some o.codec) t h)
        (o.stream ∷ [])
        (output_events h.pb t o)
unfolding output_events
close_av-Gives h o t has =
    let h1 = note (codec_closed o.codec) h in
    let h2 = set_codec o.stream none h1 in
    let h3 = set_codec o.stream none h2 in
    let h4 = note (stream_freed o.stream) h3 in
    let h5 = close_pb o.context t h4 in
    let h6 = note (context_freed o.context) h5 in
    let g = Gives-then (note-Gives h (codec_closed o.codec)) (
      Gives-then (set_codec-Gives h1 o.stream) (
        Gives-then (set_codec-Gives h2 o.stream) (
          Gives-then (note-Gives h3 (stream_freed o.stream)) (
            Gives-then (close_pb-Gives h4 t o.context) (
              Gives-then (note-Gives h5 (context_freed o.context))
                (note-Gives h6 (codec_freed o.codec))))))) in
    subst (λ (k : Heap). Gives h k (o.stream ∷ []) (output_events h.pb t o))
      (sym (close_av-output h o t has))
      (record { log = g.log; streams = g.streams; pb = g.pb; codec = λ x n. g.codec x (n.0, n) })

-- NULL pointers give nothing back.
pub close_av-nothing : (h : Heap) (t : LowerTransport) → close_av none none none t h ≡ h
unfolding close_av
close_av-nothing h t = refl
