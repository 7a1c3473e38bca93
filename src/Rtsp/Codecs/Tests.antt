-- ===== src/Rtsp/Codecs/Tests.antt =====
-- The theorems on the end of a connection with an output over UDP, and of one without.
use gaminganywhere.Base.{
  ◌==◌, ◌≡◌, refl, arith, true, if◌then◌else◌, List, [], ◌∷◌, ◌++◌, Option, none, some, map,
}
use gaminganywhere.Rtsp.Server.{udp, tcp, same_transport}
use gaminganywhere.Rtsp.Codecs.{
  Event, codec_closed, codec_freed, stream_freed, pb_closed, context_freed, rbuffer_freed, Heap,
  Connection, InitAnswers, per_client_init, per_client_deinit, close_av, close_slots, close_streams,
  init_streams,
}
use gaminganywhere.Rtsp.Codecs.Sdp.{SdpStream, sdp_events}
use gaminganywhere.Rtsp.Codecs.Freed.{
  Place, unused, set_up, slot_of, place_events, rbuffer_events, per_client_deinit-freed,
}
use gaminganywhere.Rtsp.Codecs.Opened.{made, connected, init-deinit}

-- context 5 has stream 1 with codec 2, and context 10 has stream 11 with codec 12
abbrev heap : Heap
heap = record {
  codec = λ s. if s == 1 then some 2 else if s == 11 then some 12 else none;
  streams = λ f. if f == 5 then 1 ∷ [] else if f == 10 then 11 ∷ [] else [];
  pb = λ f. f == 5;
  next = 13;
  log = [];
}

abbrev places : List Place
places = set_up udp (record { context = 5; stream = 1; codec = 2 }) ∷ unused tcp ∷ []

abbrev connection : Connection
connection = record {
  slots = map slot_of places;
  sdp_fmtctx = some 10;
  rbuffer = true;
  rbufhead = 3;
  rbuftail = 9;
  rbufsize = 64;
}

abbrev described : List SdpStream
described = record { sdp_stream = 11; sdp_codec = 12 } ∷ []

per_client_deinit-freed_example :
    (c' : Connection) × ((h' : Heap) × ((per_client_deinit 1 connection heap ≡ some (c', h'))
        × (h'.log
            ≡ []
              ++ (place_events heap.pb places
                  ++ ((sdp_events described ++ (context_freed 10 ∷ [])) ++ rbuffer_events true)))))
per_client_deinit-freed_example =
    per_client_deinit-freed 1 heap connection places 10 described refl (record {
      rest = [];
      slots = refl;
      sdp = refl;
      outputs = ((refl, refl), tt);
      described = (refl, (refl, (refl, tt)));
      distinct = (((λ e. omega (arith, e)), tt), (tt, tt));
    })

abbrev events_after : Option (Connection × Heap) → List Event
events_after none = []
events_after (some r) = r.1.log

closed_all :
    events_after (per_client_deinit 1 connection heap)
    ≡ codec_closed 2
      ∷ stream_freed 1
      ∷ pb_closed 5
      ∷ context_freed 5
      ∷ codec_freed 2
      ∷ codec_closed 12
      ∷ codec_freed 12
      ∷ stream_freed 11
      ∷ context_freed 10
      ∷ rbuffer_freed
      ∷ []
unfolding per_client_deinit close_slots close_av close_streams same_transport
closed_all = refl

abbrev answers : InitAnswers
answers = record { format = true; context = true; new_stream = λ i. true; open_codec = λ i. true }

answered : (per_client_init answers 1 heap).0 ≡ true
unfolding per_client_init init_streams
answered = refl

init-deinit_example :
    (h' : Heap) × ((per_client_deinit 1
          (connected (per_client_init answers 1 heap).1.0 true 40 64 65536)
          (per_client_init answers 1 heap).1.1
        ≡ some (connected (per_client_init answers 1 heap).1.0 true 0 0 0, h'))
      × (h'.log
          ≡ [] ++ ((sdp_events (made 1 14) ++ (context_freed 13 ∷ [])) ++ rbuffer_events true)))
init-deinit_example = init-deinit answers 1 heap true 40 64 65536 answered (omega arith)
