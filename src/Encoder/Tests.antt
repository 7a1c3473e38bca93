-- ===== src/Encoder/Tests.antt =====
-- The theorems on the encoders at two clients, with one video channel.
use gaminganywhere.Base.{◌≡◌, refl, List, [], ◌∷◌, if◌then◌else◌, ◌==◌, none, some, true, false}
use gaminganywhere.Encoder.{
  Created, initial, put, register_vencoder, register_aencoder, register_client, start_threads,
  start_video, start_audio, add_client, contains,
}
use gaminganywhere.Encoder.Lifecycle.{Op, add_vencoder, add_aencoder, enter, leave, run}
use gaminganywhere.Encoder.Sending.{Receiver, Answers, send_loop, expected, send_loop-frames}

abbrev made : Created
made = record { video = some 5 ∷ []; audio = some 6 }

-- The audio thread does not start.
abbrev failing : Created
failing = record { video = some 5 ∷ []; audio = none }

abbrev ops : List Op
ops =
    add_vencoder 10 1
    ∷ add_aencoder 20 2
    ∷ enter failing 1
    ∷ enter made 1
    ∷ enter made 2
    ∷ leave 1 1
    ∷ leave 1 2
    ∷ []

-- The failed registration leaves no client and no flag, and the next one starts the threads.
launched_after :
    ((run initial (add_vencoder 10 1 ∷ add_aencoder 20 2 ∷ enter failing 1 ∷ [])).launched ≡ false)
    × ((run initial
          (add_vencoder 10 1 ∷ add_aencoder 20 2 ∷ enter failing 1 ∷ enter made 1 ∷ [])).launched
        ≡ true)
unfolding run register_vencoder register_aencoder put register_client start_threads start_video
    start_audio add_client contains
launched_after = (refl, refl)

abbrev receivers : List Receiver
receivers =
    record { client = 1; is_playing = true; is_open = true; over_tcp = true }
    ∷ record { client = 2; is_playing = false; is_open = true; over_tcp = false }
    ∷ record { client = 3; is_playing = true; is_open = true; over_tcp = false }
    ∷ []

-- The write to the first client fails.
abbrev answers : Answers
answers = record {
  opens = λ c. true;
  writes = λ c. if c == 1 then false else true;
  pushes = λ c. true;
  rescale = λ c t. t;
}

send_loop-frames_example :
    send_loop answers receivers (some 90) none ≡ expected answers 90 receivers
send_loop-frames_example = send_loop-frames answers receivers 90 none
